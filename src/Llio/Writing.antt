-- ===== src/Llio/Writing.antt =====
-- The writers of the basic types append the bytes that stand for the value.
use alba.Base.{
  ℕ, zero, suc, ◌+◌, ◌*◌, ◌/◌, ◌%◌, ◌^◌, ◌≤◌, ◌<◌, ◌≡◌, refl, ap, List, [], ◌∷◌, ◌++◌, Bool, true,
  false, Option, none, some, length, take, ltb, ltb→lt, lt→ltb, Bool-cases, inl, inr, u32, u64,
  le_bytes, reverse, All, All-reverse, arith, le_value, le_bytes-le_value, le_bytes-IsByte, IsByte,
}
use alba.Llio.Builder.{Writer, Writes, Writes-add_raw, Writes-done, Writes-then}
use alba.Llio.To.{
  to_bool, to_u32, to_u64, to_double, swap_u32, swap_u64, to_be_u32, to_be_u64, to_string,
  to_varint_loop, to_varint, to_elements, to_vector, to_option, to_pair,
}
use alba.Llio.Layout.{
  bool_bytes, string_bytes, varint_groups, varint_bytes, concat_bytes, vector_bytes, option_bytes,
}

pub Writes-to_bool : (b : Bool) → Writes (to_bool b) (bool_bytes b)
unfolding to_bool bool_bytes
Writes-to_bool true = Writes-add_raw (le_bytes 1 1)
Writes-to_bool false = Writes-add_raw (le_bytes 1 0)

pub Writes-to_u32 : (i : ℕ) → Writes (to_u32 i) (le_bytes 4 i)
unfolding to_u32
Writes-to_u32 i = Writes-add_raw (le_bytes 4 i)

pub Writes-to_u64 : (i : ℕ) → Writes (to_u64 i) (le_bytes 8 i)
unfolding to_u64
Writes-to_u64 i = Writes-add_raw (le_bytes 8 i)

pub Writes-to_double : (i : ℕ) → Writes (to_double i) (le_bytes 8 i)
unfolding to_double
Writes-to_double i = Writes-add_raw (le_bytes 8 i)

swap_u32-bytes : (i : ℕ) → le_bytes 4 (swap_u32 i) ≡ reverse (le_bytes 4 i)
unfolding swap_u32 le_bytes
swap_u32-bytes i = ground arith

sum_of_bytes :
    (a b c d e f g h : ℕ)
    → a + b * 2 ^ 8 + c * 2 ^ 16 + d * 2 ^ 24 + e * 2 ^ 32 + f * 2 ^ 40 + g * 2 ^ 48 + h * 2 ^ 56
      ≡ le_value (a ∷ b ∷ c ∷ d ∷ e ∷ f ∷ g ∷ h ∷ [])
unfolding le_value
sum_of_bytes a b c d e f g h = omega arith

-- Shifts by whole bytes, one byte after the other.
module _ (i : ℕ) where
  shift_16 : i / 2 ^ 16 ≡ i / 256 / 256
  shift_16 = omega arith

  shift_24 : i / 2 ^ 24 ≡ i / 256 / 256 / 256
  shift_24 = omega arith

  shift_32 : i / 2 ^ 32 ≡ i / 256 / 256 / 256 / 256
  shift_32 = omega arith

  shift_40 : i / 2 ^ 40 ≡ i / 256 / 256 / 256 / 256 / 256
  shift_40 = omega arith

  shift_48 : i / 2 ^ 48 ≡ i / 256 / 256 / 256 / 256 / 256 / 256
  shift_48 = omega arith

  shift_56 : i / 2 ^ 56 ≡ i / 256 / 256 / 256 / 256 / 256 / 256 / 256
  shift_56 = omega arith

pub swap_u64-value : (i : ℕ) → swap_u64 i ≡ le_value (reverse (le_bytes 8 i))
unfolding swap_u64 le_bytes
swap_u64-value i =
    rw (shift_16 i, shift_24 i, shift_32 i, shift_40 i, shift_48 i, shift_56 i)
      (sum_of_bytes _ _ _ _ _ _ _ _)

pub swap_u64-bytes : (i : ℕ) → le_bytes 8 (swap_u64 i) ≡ reverse (le_bytes 8 i)
unfolding le_bytes
swap_u64-bytes i = rw (swap_u64-value i) (
    le_bytes-le_value (reverse (le_bytes 8 i))
      (All-reverse IsByte (le_bytes 8 i) (le_bytes-IsByte 8 i)))

-- Most significant byte first.
pub Writes-to_be_u32 : (i : ℕ) → Writes (to_be_u32 i) (reverse (le_bytes 4 i))
unfolding to_be_u32
Writes-to_be_u32 i = rw (← swap_u32-bytes i) (Writes-to_u32 (swap_u32 i))

pub Writes-to_be_u64 : (i : ℕ) → Writes (to_be_u64 i) (reverse (le_bytes 8 i))
unfolding to_be_u64
Writes-to_be_u64 i = rw (← swap_u64-bytes i) (Writes-to_u64 (swap_u64 i))

take_all : {A : Type 0} (xs : List A) → take (length xs) xs ≡ xs
take_all [] = refl
take_all (x ∷ xs) = ap (◌∷◌ x) (take_all xs)

pub Writes-to_string : (s : List ℕ) → length s < u32 → Writes (to_string s) (string_bytes s)
unfolding to_string string_bytes
Writes-to_string s h =
    let size : length s % u32 ≡ length s = omega arith in
    rw (size, take_all s) (Writes-then (Writes-to_u32 (length s)) (Writes-add_raw s))

Writes-to_varint_loop :
    (k fuel j : ℕ)
    → j < 128 ^ suc k
    → k ≤ fuel
    → Writes (to_varint_loop (suc fuel) j) (varint_groups k j)
unfolding to_varint_loop varint_groups
Writes-to_varint_loop zero fuel j h hk =
    let low : j % 128 ≡ j = omega arith in
    rw (lt→ltb j 128 (omega arith), low) (Writes-add_raw (le_bytes 1 j))
Writes-to_varint_loop (suc k) zero j h hk = absurd (omega arith)
Writes-to_varint_loop (suc k) (suc fuel) j h hk = elim (Bool-cases (ltb j 128)) [
  | inl small ↦
      let low : j % 128 ≡ j = omega (arith, ltb→lt j 128 small) in
      rw (small, low) (Writes-add_raw (le_bytes 1 j))
  | inr big ↦ rw big (
      Writes-then (Writes-add_raw (le_bytes 1 (j % 128 + 128)))
        (Writes-to_varint_loop k fuel (j / 128) (omega arith) (omega arith)))
]

-- A number below 2^64 is written as its groups of seven bits: the loop ends within ten groups.
pub Writes-to_varint : (j : ℕ) → j < u64 → Writes (to_varint j) (varint_bytes j)
unfolding to_varint varint_bytes
Writes-to_varint j h = Writes-to_varint_loop 9 9 j (omega arith) (omega arith)

module _ {A : Type 0} {P : A → Type 0} {elem : A → Writer} {bytes : A → List ℕ}
    (writes : (a : A) → P a → Writes (elem a) (bytes a)) where
  Writes-to_elements :
      (qs : List A) → All P qs → Writes (to_elements elem qs) (concat_bytes bytes qs)
  unfolding to_elements concat_bytes
  Writes-to_elements [] h = Writes-done
  Writes-to_elements (q ∷ qs) (hq, h) = Writes-then (writes q hq) (Writes-to_elements qs h)

  -- Where each element that satisfies P is written as its bytes, a list of fewer than 2^32 such elements
  -- is written as its length and the elements, the last one first.
  pub Writes-to_vector :
      (ts : List A)
      → All P ts
      → length ts < u32
      → Writes (to_vector elem ts) (vector_bytes bytes ts)
  unfolding to_vector vector_bytes
  Writes-to_vector ts h n =
      let size : length ts % u32 ≡ length ts = omega arith in
      rw size (
        Writes-then (Writes-to_u32 (length ts))
          (Writes-to_elements (reverse ts) (All-reverse P ts h)))

  pub Writes-to_option :
      (o : Option A)
      → ((a : A) → o ≡ some a → P a)
      → Writes (to_option elem o) (option_bytes bytes o)
  unfolding to_option option_bytes
  Writes-to_option none h = Writes-to_bool false
  Writes-to_option (some a) h = Writes-then (Writes-to_bool true) (writes a (h a refl))

pub Writes-to_pair :
    {A B : Type 0} {xs ys : List ℕ} (first : A → Writer) (second : B → Writer) (p : A × B)
    → Writes (first p.0) xs
    → Writes (second p.1) ys
    → Writes (to_pair first second p) (xs ++ ys)
unfolding to_pair
Writes-to_pair first second (a, b) v w = Writes-then v w
