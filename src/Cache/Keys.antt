-- ===== src/Cache/Keys.antt =====
-- What a client finds in the manifest cache.
use alba.Base.{
  ℕ, ◌≤◌, ◌<◌, ◌≡◌, refl, sym, subst, ◌∙◌, List, [], ◌∷◌, false, none, some, ==_false, string_eq,
  string_eq_self, length, take-length-append, drop-length-append, All, Bool-cases, Option-cases,
  inl, inr, arith,
}
use mathlib.Core.Option.{some-injective, none-ne-some}
use alba.Manifest.{ManifestWithNamespaceId}
use alba.Cache.{assoc, remove, Bimap, Cache, new_cache, find, insert}
use alba.Cache.Laws.{has-remove, assoc_absent, assoc-remove_other}
use alba.Cache.Recency.{pairs_of, find-insert, insert_bounded}
use alba.Cache.Manifests.{
  make_key, ManifestCache, put, cache_of, add, find_manifest, invalidate_namespace,
}

-- For alba ids of one length, a key belongs to one object of one alba.
pub make_key_injective :
    (a a' name name' : List ℕ)
    → length a ≡ length a'
    → make_key a name ≡ make_key a' name'
    → (a ≡ a') × (name ≡ name')
unfolding make_key
make_key_injective a a' name name' l e = (
  sym (take-length-append a name) ∙ (rw (l, e) (take-length-append a' name')),
  sym (drop-length-append a name) ∙ (rw (l, e) (drop-length-append a' name')),
)

module _ (bimap : Bimap ManifestWithNamespaceId) where
  -- Every cache is within its positive capacity.
  abbrev pub IsBounded : Cache bimap → Type 0
  IsBounded c = (0 < c.capacity) × (length (pairs_of bimap c) ≤ c.capacity)

  abbrev pub IsValid : ManifestCache bimap → Type 0
  IsValid s = All (λ e. IsBounded e.1) s.level1

  found_in :
      (namespace_ alba_id name : List ℕ) (s : ManifestCache bimap) (c : Cache bimap)
      → assoc namespace_ s.level1 ≡ some c
      → (find_manifest bimap namespace_ alba_id name s).0 ≡ (find bimap (make_key alba_id name) c).0
  unfolding find_manifest
  found_in namespace_ alba_id name s c e = rw (e, find_manifest) refl

  assoc-put :
      (namespace_ : List ℕ) (c : Cache bimap) (s : ManifestCache bimap)
      → assoc namespace_ (put bimap namespace_ c s).level1 ≡ some c
  assoc-put namespace_ c s = rw (string_eq_self namespace_) refl

  assoc-All :
      (k : List ℕ) (c : Cache bimap) (es : List (List ℕ × Cache bimap))
      → All (λ e. IsBounded e.1) es
      → assoc k es ≡ some c
      → IsBounded c
  assoc-All k c [] all h = absurd (none-ne-some c h)
  assoc-All k c ((k', c') ∷ es) (b, all) h = elim (Bool-cases (string_eq k k')) [
    | inl e ↦ subst IsBounded (some-injective c' c (rw e at h)) b
    | inr e ↦ assoc-All k c es all (rw e at h)
  ]

  All-remove :
      (k : List ℕ) (es : List (List ℕ × Cache bimap))
      → All (λ e. IsBounded e.1) es
      → All (λ e. IsBounded e.1) (remove k es)
  All-remove k [] all = tt
  All-remove k ((k', c') ∷ es) (b, all) = elim (Bool-cases (string_eq k k')) [
    | inl e ↦ rw e (All-remove k es all)
    | inr e ↦ rw e (b, All-remove k es all)
  ]

  new_cache_lem : (n : ℕ) → 0 < n → (c : Cache bimap) × ((new_cache bimap n ≡ some c) × IsBounded c)
  unfolding new_cache
  new_cache_lem n h = (
    record { pairs = bimap.empty; capacity = n },
    (rw (==_false n 0 (λ e. omega (arith, e, h))) refl, (h, rw bimap.entries-empty (omega arith))),
  )

  cache_of_lem :
      (namespace_ : List ℕ) (s : ManifestCache bimap)
      → 0 < s.capacity
      → IsValid s
      → (c : Cache bimap) × ((cache_of bimap namespace_ s ≡ some c) × IsBounded c)
  unfolding cache_of
  cache_of_lem namespace_ s h v = elim (Option-cases (assoc namespace_ s.level1)) [
    | inl e ↦ rw (e, cache_of) (new_cache_lem s.capacity h)
    | inr (c, e) ↦ (c, (rw (e, cache_of) refl, assoc-All namespace_ c s.level1 v e))
  ]

  -- Where the capacity is positive and every cache is within its own, a manifest can be added. The
  -- caches stay within their capacities, and the manifest is found under every alba id and name that
  -- make its key: under its own, and under those that make the same key by another split.
  pub find_manifest-add :
      (namespace_ alba_id alba_id' name' : List ℕ) (mf : ManifestWithNamespaceId)
      (s : ManifestCache bimap)
      → 0 < s.capacity
      → IsValid s
      → make_key alba_id' name' ≡ make_key alba_id mf.name
      → (s' : ManifestCache bimap) × ((add bimap namespace_ alba_id mf s ≡ some s')
          × (IsValid s' × ((find_manifest bimap namespace_ alba_id' name' s').0 ≡ some mf)))
  unfolding add insert
  find_manifest-add namespace_ alba_id alba_id' name' mf s h v same =
      let (c, r) = cache_of_lem namespace_ s h v in
      let (found, bounded) = r in
      let key = make_key alba_id mf.name in
      let c' = insert bimap key mf c in
      (
        put bimap namespace_ c' s,
        (
          rw found refl,
          (
            (
              (bounded.0, insert_bounded bimap key mf c bounded.0 bounded.1),
              All-remove namespace_ s.level1 v,
            ),
            found_in namespace_ alba_id' name' _ c' (assoc-put namespace_ c' s)
                ∙ rw same (find-insert bimap key mf c),
          ),
        ),
      )

  -- After an invalidation nothing is found in the namespace, and what other namespaces hold is as
  -- before.
  pub find_manifest-invalidate_namespace :
      (namespace_ other alba_id name : List ℕ) (s : ManifestCache bimap)
      → string_eq other namespace_ ≡ false
      → ((find_manifest bimap namespace_ alba_id name (invalidate_namespace bimap namespace_ s)).0
          ≡ none)
        × ((find_manifest bimap other alba_id name (invalidate_namespace bimap namespace_ s)).0
            ≡ (find_manifest bimap other alba_id name s).0)
  unfolding invalidate_namespace find_manifest
  find_manifest-invalidate_namespace namespace_ other alba_id name s h = (
    rw
        (
          assoc_absent namespace_ (remove namespace_ s.level1) (has-remove namespace_ s.level1),
          find_manifest,
        )
        refl,
    elim (Option-cases (assoc other s.level1)) [
      | inl e ↦ rw (assoc-remove_other other namespace_ s.level1 h, e, find_manifest) refl
      | inr (c, e) ↦
          found_in other alba_id name _ c (assoc-remove_other other namespace_ s.level1 h ∙ e)
          ∙ sym (found_in other alba_id name s c e)
    ],
  )
