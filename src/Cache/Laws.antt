-- ===== src/Cache/Laws.antt =====
-- Pairs by their keys: what is left of them after a removal, and what an append adds.
use mathlib.Core.Bool.{true≢false, false≢true}
use mathlib.Core.Option.{none-ne-some}
use alba.Base.{
  ℕ, ◌≤◌, ◌<◌, ◌≡◌, refl, sym, ap, List, [], ◌∷◌, ◌++◌, true, false, none, some, string_eq,
  string_eq_self, string_eq_iff, length, Bool-cases, inl, inr, arith,
}
use alba.Cache.{assoc, has, remove}

module _ {V : Type 0} where
  pub has-remove : (k : List ℕ) (es : List (List ℕ × V)) → has k (remove k es) ≡ false
  has-remove k [] = refl
  has-remove k ((k', v) ∷ es) = elim (Bool-cases (string_eq k k')) [
    | inl e ↦ rw e (has-remove k es)
    | inr e ↦ rw e (rw e (has-remove k es))
  ]

  pub remove_absent : (k : List ℕ) (es : List (List ℕ × V)) → has k es ≡ false → remove k es ≡ es
  remove_absent k [] h = refl
  remove_absent k ((k', v) ∷ es) h = elim (Bool-cases (string_eq k k')) [
    | inl e ↦ absurd (true≢false (rw e at h))
    | inr e ↦ rw e (ap (◌∷◌ (k', v)) (remove_absent k es (rw e at h)))
  ]

  pub length-remove : (k : List ℕ) (es : List (List ℕ × V)) → length (remove k es) ≤ length es
  length-remove k [] = omega arith
  length-remove k ((k', v) ∷ es) = elim (Bool-cases (string_eq k k')) [
    | inl e ↦ rw e (omega (arith, length-remove k es))
    | inr e ↦ rw e (omega (arith, length-remove k es))
  ]

  pub length-remove_present :
      (k : List ℕ) (es : List (List ℕ × V)) → has k es ≡ true → length (remove k es) < length es
  length-remove_present k [] h = absurd (false≢true h)
  length-remove_present k ((k', v) ∷ es) h = elim (Bool-cases (string_eq k k')) [
    | inl e ↦ rw e (omega (arith, length-remove k es))
    | inr e ↦ rw e (omega (arith, length-remove_present k es (rw e at h)))
  ]

  pub has-assoc :
      (k : List ℕ) (v : V) (es : List (List ℕ × V)) → assoc k es ≡ some v → has k es ≡ true
  has-assoc k v [] h = absurd (none-ne-some v h)
  has-assoc k v ((k', v') ∷ es) h = elim (Bool-cases (string_eq k k')) [
    | inl e ↦ rw e refl
    | inr e ↦ rw e (has-assoc k v es (rw e at h))
  ]

  pub assoc-append :
      (k : List ℕ) (v : V) (es : List (List ℕ × V))
      → has k es ≡ false
      → assoc k (es ++ ((k, v) ∷ [])) ≡ some v
  assoc-append k v [] h = rw (string_eq_self k) refl
  assoc-append k v ((k', v') ∷ es) h = elim (Bool-cases (string_eq k k')) [
    | inl e ↦ absurd (true≢false (rw e at h))
    | inr e ↦ rw e (assoc-append k v es (rw e at h))
  ]

  -- Another key is not touched.
  pub assoc-append_other :
      (k k' : List ℕ) (v : V) (es : List (List ℕ × V))
      → string_eq k k' ≡ false
      → assoc k (es ++ ((k', v) ∷ [])) ≡ assoc k es
  assoc-append_other k k' v [] h = rw h refl
  assoc-append_other k k' v ((k2, v2) ∷ es) h = elim (Bool-cases (string_eq k k2)) [
    | inl e ↦ rw e refl
    | inr e ↦ rw e (assoc-append_other k k' v es h)
  ]

  pub assoc-remove_other :
      (k k' : List ℕ) (es : List (List ℕ × V))
      → string_eq k k' ≡ false
      → assoc k (remove k' es) ≡ assoc k es
  assoc-remove_other k k' [] h = refl
  assoc-remove_other k k' ((k2, v2) ∷ es) h = elim (Bool-cases (string_eq k' k2)) [
    | inl e ↦
        let same : k2 ≡ k' = sym ((string_eq_iff k' k2).0 e) in
        rw e (rw (same, h) (assoc-remove_other k k' es h))
    | inr e ↦ rw e (elim (Bool-cases (string_eq k k2)) [
      | inl f ↦ rw f refl
      | inr f ↦ rw f (assoc-remove_other k k' es h)
    ])
  ]

  pub assoc_absent : (k : List ℕ) (es : List (List ℕ × V)) → has k es ≡ false → assoc k es ≡ none
  assoc_absent k [] h = refl
  assoc_absent k ((k', v) ∷ es) h = elim (Bool-cases (string_eq k k')) [
    | inl e ↦ absurd (true≢false (rw e at h))
    | inr e ↦ rw e (assoc_absent k es (rw e at h))
  ]
