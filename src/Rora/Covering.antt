-- ===== src/Rora/Covering.antt =====
-- A slice resolves, and the locations cover it.
use native.Mathlib.Nat.{mod-eq_of_lt}
use alba.Base.{
  ℕ, zero, suc, ◌+◌, ◌-◌, ◌%◌, ◌≤◌, ◌<◌, ◌≡◌, refl, List, [], ◌∷◌, some, u32, u64, arith,
}
use alba.Manifest.{ManifestWithNamespaceId}
use alba.Rora.Slices.{Location, get_location, minus, resolve_slice_one_level}
use alba.Rora.Chunks.{sum}
use alba.Rora.Tiling.{LiesAt, IsLaidOut, get_location_lem, minus_lem}

-- The parts lie behind one another in the object and in the target, none is empty, and together they
-- are `len` bytes.
abbrev pub Covers : ManifestWithNamespaceId → ℕ → ℕ → ℕ → List (ℕ × Location) → Type 0
Covers mf offset len target [] = len ≡ 0
Covers mf offset len target ((t, l) ∷ ls) =
    ((t ≡ target) × (LiesAt mf offset len l × ((0 < l.length) × (l.length ≤ len))))
    × Covers mf (offset + l.length) (len - l.length) (target + l.length) ls

module _ (mf : ManifestWithNamespaceId) (laid : IsLaidOut mf) where
  one_round :
      (fuel offset n target : ℕ) {offset' n' : ℕ} {l : Location} {ls : List (ℕ × Location)}
      → get_location mf offset (suc n) ≡ some l
      → (offset + l.length) % u64 ≡ offset'
      → minus u32 (suc n) l.length ≡ n'
      → resolve_slice_one_level fuel mf offset' n' (target + l.length) ≡ some ls
      → resolve_slice_one_level (suc fuel) mf offset (suc n) target ≡ some ((target, l) ∷ ls)
  unfolding resolve_slice_one_level
  one_round fuel offset n target found move next rest = rw (found, move, next, rest) refl

  resolves :
      (fuel offset len target : ℕ)
      → len ≤ fuel
      → len < u32
      → offset + len ≤ sum mf.chunk_sizes
      → (ls : List (ℕ × Location)) × ((resolve_slice_one_level fuel mf offset len target ≡ some ls)
          × Covers mf offset len target ls)
  unfolding resolve_slice_one_level
  resolves fuel offset zero target f s h = ([], (refl, refl))
  resolves zero offset (suc n) target f s h = let e : ⊥ = omega (arith, f) in absurd e
  resolves (suc fuel) offset (suc n) target f s h =
      let (l, r) = get_location_lem mf offset (suc n) laid (omega (arith, h)) in
      let (found, at) = r in
      let some_of : 0 < l.length = rw at.longest (omega (arith, at.inside)) in
      let all_of : l.length ≤ suc n = rw at.longest (omega arith) in
      let next = minus_lem u32 (suc n) l.length all_of s in
      let move =
        mod-eq_of_lt {n = offset + l.length} {m = u64} (omega (arith, all_of, h, laid.0)) in
      let (ls, q) =
        resolves fuel (offset + l.length) (suc n - l.length) (target + l.length)
          (omega (arith, f, some_of)) (omega (arith, s)) (omega (arith, h, all_of)) in
      let (rest, covers) = q in
      (
        (target, l) ∷ ls,
        (
          one_round fuel offset n target found move next rest,
          ((refl, (at, (some_of, all_of))), covers),
        ),
      )

  -- For an object that is laid out in chunks of k data fragments, a slice of fewer than 2^32 bytes
  -- inside the object resolves, the loop going round at most once for each byte, to locations that
  -- cover the slice: one behind the other, each inside one data fragment and as long as the fragment
  -- or the slice allows.
  pub resolve_slice_one_level-Covers :
      (offset len target : ℕ)
      → len < u32
      → offset + len ≤ sum mf.chunk_sizes
      → (ls : List (ℕ × Location)) × ((resolve_slice_one_level len mf offset len target ≡ some ls)
          × Covers mf offset len target ls)
  resolve_slice_one_level-Covers offset len target s h =
      resolves len offset len target (omega arith) s h
