-- ===== src/Rora/Tiling.antt =====
-- Where the locations lie that a slice resolves to.
use native.Mathlib.Nat.{
  mod-eq_of_lt, add-mod_right, mul-div_cancel, div-add-mod, mod-lt, mul-zero, mul-suc, mul_comm,
  div-lt_iff_lt-mul,
}
use mathlib.Core.Option.{some-injective, none-ne-some}
use alba.Base.{
  ℕ, zero, suc, ◌+◌, ◌-◌, ◌*◌, ◌/◌, ◌%◌, ◌≤◌, ◌<◌, ◌≡◌, refl, ap, subst, ◌∙◌, min, List, [], ◌∷◌,
  some, get_elem?, take, length, u32, u64, arith, ==_false,
}
use alba.Manifest.{ManifestWithNamespaceId}
use alba.Manifest.Fragments.{Fragment}
use alba.Rora.Slices.{Location, location_of, find_chunk, divide, minus, get_location}
use alba.Rora.Chunks.{sum, Found, some_pair, find_chunk_lem}

-- A chunk is k data fragments of one length, and perhaps more fragments behind them.
pub record IsChunk (k size : ℕ) (fragments : List Fragment) : Type 0 where
  pub fragment_length : ℕ
  pub divided : size ≡ fragment_length * k
  pub positive : 0 < size
  pub small : size < u32
  pub enough : k ≤ length fragments

abbrev pub AreChunks : ℕ → List ℕ → List (List Fragment) → Type 0
AreChunks k [] fragments = Unit {0}
AreChunks k (s ∷ sizes) [] = ⊥
AreChunks k (s ∷ sizes) (f ∷ fragments) = IsChunk k s f × AreChunks k sizes fragments

abbrev pub IsLaidOut : ManifestWithNamespaceId → Type 0
IsLaidOut mf =
    (sum mf.chunk_sizes < u64) × AreChunks mf.encoding_scheme.k mf.chunk_sizes mf.fragments

-- The location is the part of one data fragment from a position of the object on, up to the end of
-- the fragment and at most `len` bytes.
pub record LiesAt (mf : ManifestWithNamespaceId) (pos len : ℕ) (l : Location) : Type 0 where
  pub size : ℕ
  pub fragments : List Fragment
  pub fragment : Fragment
  pub listed : get_elem? mf.chunk_sizes l.chunk_id ≡ some size
  pub chunk : get_elem? mf.fragments l.chunk_id ≡ some fragments
  pub found : get_elem? fragments l.fragment_id ≡ some fragment
  pub data_fragment : l.fragment_id < mf.encoding_scheme.k
  pub same : l.fragment_location ≡ fragment.loc
  pub placed :
      sum (take l.chunk_id mf.chunk_sizes) + size / mf.encoding_scheme.k * l.fragment_id + l.offset
      ≡ pos
  pub inside : l.offset < size / mf.encoding_scheme.k
  pub longest : l.length ≡ min len (size / mf.encoding_scheme.k - l.offset)

pub minus_lem : (w a b : ℕ) → b ≤ a → a < w → minus w a b ≡ a - b
unfolding minus
minus_lem w a b h k =
    let e : a + (w - b) ≡ a - b + w = omega (arith, h, k) in
    rw e (add-mod_right (a - b) w ∙ mod-eq_of_lt (omega (arith, k)))

divide_lem : (n d : ℕ) → 0 < d → divide n d ≡ some (n / d)
unfolding divide
divide_lem n zero h = let e : ⊥ = omega (arith, h) in elim e [ ]
divide_lem n (suc d) h = rw (==_false (suc d) 0 (λ e. omega (arith, e))) refl

get_elem?_lt {ℓ} :
    {A : Type ℓ} (xs : List A) (i : ℕ) → i < length xs → (a : A) × (get_elem? xs i ≡ some a)
get_elem?_lt [] i h = let e : ⊥ = omega (arith, h) in elim e [ ]
get_elem?_lt (x ∷ xs) zero h = (x, refl)
get_elem?_lt (x ∷ xs) (suc i) h = get_elem?_lt xs i (omega (arith, h))

IsChunk-at :
    (k : ℕ) (sizes : List ℕ) (fragments : List (List Fragment)) (i size : ℕ)
    → AreChunks k sizes fragments
    → get_elem? sizes i ≡ some size
    → (fs : List Fragment) × ((get_elem? fragments i ≡ some fs) × IsChunk k size fs)
IsChunk-at k [] fragments i size h e = absurd (none-ne-some size e)
IsChunk-at k (s ∷ sizes) [] i size h e = elim h [ ]
IsChunk-at k (s ∷ sizes) (f ∷ fragments) zero size h e =
    (f, (refl, subst (λ n. IsChunk k n f) (some-injective s size e) h.0))
IsChunk-at k (s ∷ sizes) (f ∷ fragments) (suc i) size h e =
    IsChunk-at k sizes fragments i size h.1 e

-- The numbers that `get_location` computes for a position in a chunk of k fragments of length n.
record Computed (pos start size k n : ℕ) : Type 0 where
  index : ℕ
  back : minus u64 (start + size) size ≡ start
  fragment_length : divide size k ≡ some n
  length_eq : size / k ≡ n
  in_chunk : minus u64 pos start % u32 ≡ pos - start
  fragment_index : divide (pos - start) n ≡ some index
  total : (start + n * index % u32) % u64 ≡ start + n * index
  in_fragment : minus u64 pos (start + n * index) % u32 ≡ pos - (start + n * index)
  remaining : minus u32 n (pos - (start + n * index)) ≡ n - (pos - (start + n * index))
  low : start + n * index ≤ pos
  high : pos < start + n * index + n
  index_lt : index < k

positive_right : (n k : ℕ) → 0 < n * k → 0 < k
positive_right n zero h =
    let e : n * 0 ≡ 0 = mul-zero n in let f : ⊥ = omega (arith, h, e) in absurd f
positive_right n (suc k) h = omega arith

positive_left : (n k : ℕ) → 0 < n * k → 0 < n
positive_left n k h = positive_right k n (rw (mul_comm n k) at h)

le-mul : (n k : ℕ) → 0 < k → n ≤ n * k
le-mul n zero h = let f : ⊥ = omega (arith, h) in absurd f
le-mul n (suc k) h = omega (arith, mul-suc n k)

computed :
    (pos start size k n : ℕ)
    → size ≡ n * k
    → 0 < size
    → size < u32
    → start ≤ pos
    → pos < start + size
    → start + size < u64
    → Computed pos start size k n
computed pos start size k n e p s h1 h2 u =
    let p' : 0 < n * k = rw e at p in
    let pk = positive_right n k p' in
    let pn = positive_left n k p' in
    let q = (pos - start) / n in
    let whole = div-add-mod (pos - start) n in
    let part = mod-lt (pos - start) pn in
    let q_lt : q < k = (div-lt_iff_lt-mul pn).1 (omega (arith, e, h1, h2, mul_comm n k)) in
    let n_le = le-mul n k pk in
    let quotient : size / k ≡ n = rw e (mul-div_cancel n pk) in
    record {
      index = q;
      back = minus_lem u64 (start + size) size (omega arith) u ∙ omega arith;
      fragment_length = divide_lem size k pk ∙ ap some quotient;
      length_eq = quotient;
      in_chunk =
          rw (minus_lem u64 pos start h1 (omega (arith, h2, u)))
            (mod-eq_of_lt (omega (arith, s, h1, h2)));
      fragment_index = divide_lem (pos - start) n pn;
      total =
          rw (mod-eq_of_lt {n = n * q} {m = u32} (omega (arith, whole, s, h1, h2)))
            (mod-eq_of_lt (omega (arith, whole, u, h1, h2)));
      in_fragment =
          rw (minus_lem u64 pos (start + n * q) (omega (arith, whole, h1)) (omega (arith, h2, u)))
            (mod-eq_of_lt (omega (arith, s, h1, h2)));
      remaining =
          minus_lem u32 n (pos - (start + n * q)) (omega (arith, whole, part, h1))
            (omega (arith, n_le, e, s));
      low = omega (arith, whole, h1);
      high = omega (arith, whole, part, h1);
      index_lt = q_lt;
    }

module _ (mf : ManifestWithNamespaceId) where
  HasLocation : ℕ → ℕ → Type 0
  HasLocation pos len = (l : Location) × ((get_location mf pos len ≡ some l) × LiesAt mf pos len l)

  get_location-Found :
      (pos len : ℕ) → IsLaidOut mf → Found pos 0 0 mf.chunk_sizes → HasLocation pos len
  unfolding get_location HasLocation
  get_location-Found pos len (total, chunks) r =
      let k = mf.encoding_scheme.k in
      let (fs, at_c) = IsChunk-at k mf.chunk_sizes mf.fragments r.index r.size chunks r.listed in
      let c = at_c.1 in
      let start = sum (take r.index mf.chunk_sizes) in
      let n =
        computed pos start r.size k c.fragment_length c.divided c.positive c.small
          (omega (arith, r.from)) (omega (arith, r.upto)) (omega (arith, r.within, total)) in
      let (f, at_f) = get_elem?_lt fs n.index (omega (arith, n.index_lt, c.enough)) in
      let whole : find_chunk pos mf.chunk_sizes 0 0 ≡ some (start + r.size, suc r.index) =
        r.found ∙ some_pair (omega arith) (omega arith) in
      let last : suc r.index - 1 ≡ r.index = omega arith in
      let offset = pos - (start + c.fragment_length * n.index) in
      let l =
        location_of mf f r.index n.index offset (min len (minus u32 c.fragment_length offset)) in
      (
        l,
        (
          rw
              (
                whole, last, at_c.0, r.listed, n.back, n.fragment_length, n.in_chunk,
                n.fragment_index, at_f, n.total, n.in_fragment,
              )
              refl,
          record {
            size = r.size;
            fragments = fs;
            fragment = f;
            listed = r.listed;
            chunk = at_c.0;
            found = at_f;
            data_fragment = n.index_lt;
            same = refl;
            placed = rw n.length_eq (omega (arith, n.low));
            inside = rw n.length_eq (omega (arith, n.low, n.high));
            longest = rw (n.length_eq, n.remaining) refl;
          },
        ),
      )

  -- Every position before the end of the object has a location, and it lies at that position.
  pub get_location_lem :
      (pos len : ℕ)
      → IsLaidOut mf
      → pos < sum mf.chunk_sizes
      → (l : Location) × ((get_location mf pos len ≡ some l) × LiesAt mf pos len l)
  unfolding HasLocation
  get_location_lem pos len laid h = get_location-Found pos len laid (
      find_chunk_lem pos 0 0 mf.chunk_sizes (omega arith) (omega (arith, h))
        (omega (arith, laid.0)))
