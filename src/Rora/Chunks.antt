-- ===== src/Rora/Chunks.antt =====
-- Which chunk a position falls in.
use native.Mathlib.Nat.{mod-eq_of_lt}
use alba.Base.{
  ℕ, suc, ◌+◌, ◌≤◌, ◌<◌, ◌≡◌, refl, ◌∙◌, List, [], ◌∷◌, Option, some, leb, le→leb, leb-false,
  lt_of_leb-false, le_of_leb, Bool-cases, inl, inr, get_elem?, take, u64, arith,
}
use alba.Rora.Slices.{find_chunk}

abbrev pub sum : List ℕ → ℕ
sum [] = 0
sum (n ∷ ns) = n + sum ns

-- The chunk around a position, for chunks that start at a base.
pub record Found (pos base rounds : ℕ) (sizes : List ℕ) : Type 0 where
  pub index : ℕ
  pub size : ℕ
  pub found :
      find_chunk pos sizes base rounds
      ≡ some (base + sum (take index sizes) + size, rounds + suc index)
  pub listed : get_elem? sizes index ≡ some size
  pub from : base + sum (take index sizes) ≤ pos
  pub upto : pos < base + sum (take index sizes) + size
  pub within : sum (take index sizes) + size ≤ sum sizes

find_chunk_stops :
    (pos total rounds : ℕ) (sizes : List ℕ)
    → pos < total
    → find_chunk pos sizes total rounds ≡ some (total, rounds)
unfolding find_chunk
find_chunk_stops pos total rounds [] h = rw (leb-false total pos h)
find_chunk_stops pos total rounds (s ∷ sizes) h = rw (leb-false total pos h)

find_chunk_goes :
    (pos base rounds s : ℕ) (sizes : List ℕ)
    → base ≤ pos
    → base + s < u64
    → find_chunk pos (s ∷ sizes) base rounds ≡ find_chunk pos sizes (base + s) (suc rounds)
unfolding find_chunk
find_chunk_goes pos base rounds s sizes h u = rw (le→leb base pos h, mod-eq_of_lt u) refl

pub some_pair : {a b c d : ℕ} → a ≡ b → c ≡ d → ◌≡◌ {A = Option (ℕ × ℕ)} (some (a, c)) (some (b, d))
some_pair e f = rw (e, f) refl

pub find_chunk_lem :
    (pos base rounds : ℕ) (sizes : List ℕ)
    → base ≤ pos
    → pos < base + sum sizes
    → base + sum sizes < u64
    → Found pos base rounds sizes
find_chunk_lem pos base rounds [] h k u = let e : ⊥ = omega (arith, h, k) in elim e [ ]
find_chunk_lem pos base rounds (s ∷ sizes) h k u = elim (Bool-cases (leb (base + s) pos)) [
  | inl later ↦
      let r =
        find_chunk_lem pos (base + s) (suc rounds) sizes (le_of_leb _ _ later) (omega (arith, k))
          (omega (arith, u)) in
      record {
        index = suc r.index;
        size = r.size;
        found =
            find_chunk_goes pos base rounds s sizes h (omega (arith, u))
            ∙ (r.found ∙ some_pair (omega arith) (omega arith));
        listed = r.listed;
        from = omega (arith, r.from);
        upto = omega (arith, r.upto);
        within = omega (arith, r.within);
      }
  | inr here ↦
      let lt = lt_of_leb-false _ _ here in
      record {
        index = 0;
        size = s;
        found =
            find_chunk_goes pos base rounds s sizes h (omega (arith, u))
            ∙ (find_chunk_stops pos (base + s) (suc rounds) sizes lt
                ∙ some_pair (omega arith) (omega arith));
        listed = refl;
        from = omega (arith, h);
        upto = omega (arith, lt);
        within = omega arith;
      }
]
