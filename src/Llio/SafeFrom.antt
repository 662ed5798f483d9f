-- ===== src/Llio/SafeFrom.antt =====
-- The readers of the basic types are memory safe.
use alba.Base.{
  ℕ, zero, suc, ◌+◌, ◌*◌, ◌%◌, ◌^◌, ◌≤◌, ◌<◌, List, [], ◌∷◌, Bool, true, false, Option, inl, inr,
  Bool-cases, leb, ltb, ◌==◌, u32, u64, le_value, le_value-lt, replicate, arith, lt_of_leb-false,
}
use alba.Llio.Reader.{Reader, deserialisation_exception, pure, throw, bad_shift}
use alba.Llio.From.{
  from_u8, from_u32, from_i32, from_u64, from_double, bool_of, from_bool, from_string,
  from_varint_loop, from_varint, from_elements_loop, from_elements, from_vector, from_option,
  from_pair,
}
use alba.Llio.Safety.{
  Sound, Any, Loaded, Sound-pure, Sound-halt, Sound-noexcept, Sound-if, Sound-bind, Sound-load,
  Sound-convert,
}

abbrev pub Below : ℕ → ℕ → Type 0
Below bound n = n < bound

word-lt : (k : ℕ) (ib : List ℕ) → Loaded k ib → le_value ib < 256 ^ k
word-lt k ib (octets, e) = rw (← e) (le_value-lt ib octets)

pub Sound-from_u8 : Sound (Below 256) from_u8
unfolding from_u8
Sound-from_u8 = Sound-load (Below 256) 1 le_value (omega arith) (word-lt 1)

pub Sound-from_u32 : Sound (Below u32) from_u32
unfolding from_u32
Sound-from_u32 = Sound-load (Below u32) 4 le_value (omega arith) (word-lt 4)

pub Sound-from_i32 : Sound (Below u32) from_i32
unfolding from_i32
Sound-from_i32 = Sound-load (Below u32) 4 le_value (omega arith) (word-lt 4)

pub Sound-from_u64 : Sound (Below u64) from_u64
unfolding from_u64
Sound-from_u64 = Sound-load (Below u64) 8 le_value (omega arith) (word-lt 8)

pub Sound-from_double : Sound (Below u64) from_double
unfolding from_double
Sound-from_double = Sound-load (Below u64) 8 le_value (omega arith) (word-lt 8)

pub Sound-from_bool : Sound (Any {A = Bool}) from_bool
unfolding from_bool bool_of pure throw
Sound-from_bool = Sound-convert Any 1 _ (omega arith) λ ib m. elim (Bool-cases (le_value ib == 1)) [
  | inl one ↦ inl (true, rw one, tt)
  | inr other ↦ elim (Bool-cases (le_value ib == 0)) [
    | inl nought ↦ inl (false, rw (other, nought), tt)
    | inr neither ↦ inr (deserialisation_exception, rw (other, neither))
  ]
]

pub Sound-from_string : Sound (Any {A = List ℕ}) from_string
unfolding from_string
Sound-from_string =
    Sound-bind (Below u32) _ Sound-from_u32 λ size h. Sound-load Any size (λ ib. ib) h (λ ib l. tt)

-- A shift of 64 is met before the eleven rounds are over.
Sound-from_varint_loop :
    (fuel b0 r shift : ℕ)
    → shift ≤ 70
    → 71 ≤ shift + 7 * fuel
    → Sound (Below u64) (from_varint_loop fuel b0 r shift)
unfolding from_varint_loop
Sound-from_varint_loop zero b0 r shift h k = absurd (omega arith)
Sound-from_varint_loop (suc fuel) b0 r shift h k = elim (Bool-cases (leb 64 shift)) [
  | inl over ↦ rw over (Sound-halt bad_shift (λ q. cc) (λ q. cc))
  | inr within ↦ rw within (elim (Bool-cases (ltb b0 128)) [
    | inl last ↦ rw last (Sound-pure ((r + b0 * 2 ^ shift) % u64) (omega arith))
    | inr more ↦ rw more (
        Sound-bind (Below 256) _ Sound-from_u8 λ b1 _.
          Sound-from_varint_loop fuel b1 ((r + b0 % 128 * 2 ^ shift) % u64) (shift + 7)
            (omega (arith, lt_of_leb-false 64 shift within)) (omega arith))
  ])
]

-- A number that is returned is below 2^64; what is not returned may end in a shift that is undefined.
pub Sound-from_varint : Sound (Below u64) from_varint
unfolding from_varint
Sound-from_varint =
    Sound-bind (Below 256) _ Sound-from_u8
      λ b0 _. Sound-from_varint_loop 11 b0 0 0 (omega arith) (omega arith)

module _ {ℓ} {A : Type ℓ} {elem : Reader A} (sound : Sound (Any {A = A}) elem) where
  Sound-from_elements_loop :
      (n : ℕ) (ts : List A) → Sound (Any {A = List A}) (from_elements_loop n elem ts)
  unfolding from_elements_loop
  Sound-from_elements_loop zero ts = Sound-pure ts tt
  Sound-from_elements_loop (suc n) ts =
      Sound-bind Any _ sound λ t _. Sound-from_elements_loop n (t ∷ ts)

  pub Sound-from_elements : (initial : A) → Sound (Any {A = List A}) (from_elements initial elem)
  unfolding from_elements
  Sound-from_elements initial = Sound-bind (Below u32) _ Sound-from_u32 λ size _.
      Sound-if (leb size (2 ^ 31)) (from_elements_loop size elem []) (pure (replicate size initial))
        (λ _. Sound-from_elements_loop size []) (λ _. Sound-pure (replicate size initial) tt)

  pub Sound-from_vector : (initial : A) → Sound (Any {A = List A}) (from_vector initial elem)
  unfolding from_vector
  Sound-from_vector initial = Sound-noexcept (Sound-from_elements initial)

  pub Sound-from_option : Sound (Any {A = Option A}) (from_option elem)
  unfolding from_option
  Sound-from_option = Sound-noexcept (
      Sound-bind Any _ Sound-from_bool λ d _.
        Sound-if d _ _ (λ _. Sound-bind Any _ sound λ x _. Sound-pure _ tt) (λ _. Sound-pure _ tt))

pub Sound-from_pair {ℓ κ} :
    {A : Type ℓ} {B : Type κ} {first : Reader A} {second : Reader B}
    → Sound (Any {A = A}) first
    → Sound (Any {A = B}) second
    → Sound (Any {A = A × B}) (from_pair first second)
unfolding from_pair
Sound-from_pair s t =
    Sound-noexcept (Sound-bind Any _ s λ x _. Sound-bind Any _ t λ y _. Sound-pure _ tt)
