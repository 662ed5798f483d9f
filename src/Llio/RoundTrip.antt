-- ===== src/Llio/RoundTrip.antt =====
-- The readers of the basic types read back what stands for a value, and no more.
use alba.Base.{
  ℕ, ◌^◌, ◌≤◌, ◌<◌, ◌≡◌, refl, sym, List, [], ◌∷◌, ◌++◌, Bool, true, false, Option, none, some,
  length, if◌then◌else◌, u32, u64, le_bytes, le_value, length-le_bytes, le_value-le_bytes,
  append-nil, append_assoc, arith, All, le→leb, reverse, reverse-cons, reverse-reverse, All-reverse,
  length-reverse,
}
use alba.Llio.Reader.{Reader, pure, ◌>>=◌, ◌>>◌, current, skips}
use alba.Llio.Reads.{
  Reads, Reads-pure, Reads-bind, Reads-bind_nil, Reads-last, Reads-noexcept, Reads-load,
  Reads-convert,
}
use alba.Llio.From.{
  from_u8, from_u32, from_u64, from_double, bool_of, from_bool, from_string, from_elements_loop,
  from_elements, from_vector, from_option, from_pair,
}
use alba.Llio.Layout.{bool_bytes, string_bytes, concat_bytes, vector_bytes, option_bytes}

-- A reader that gives a number, read as the number that it stands for.
Reads-word :
    (k n : ℕ)
    → n < 256 ^ k
    → Reads (do ib ← current k; skips k; pure (le_value ib)) (le_bytes k n) n
Reads-word k n h =
    rw (le_value-le_bytes k n h) at
      (Reads-load k le_value (le_bytes k n) (sym (length-le_bytes k n)))

pub Reads-from_u8 : (n : ℕ) → n < 256 → Reads from_u8 (le_bytes 1 n) n
unfolding from_u8
Reads-from_u8 n h = Reads-word 1 n h

pub Reads-from_u32 : (n : ℕ) → n < u32 → Reads from_u32 (le_bytes 4 n) n
unfolding from_u32
Reads-from_u32 n h = Reads-word 4 n h

pub Reads-from_u64 : (n : ℕ) → n < u64 → Reads from_u64 (le_bytes 8 n) n
unfolding from_u64
Reads-from_u64 n h = Reads-word 8 n h

pub Reads-from_double : (n : ℕ) → n < u64 → Reads from_double (le_bytes 8 n) n
unfolding from_double
Reads-from_double n h = Reads-word 8 n h

pub Reads-from_bool : (b : Bool) → Reads from_bool (bool_bytes b) b
unfolding from_bool bool_of bool_bytes pure le_bytes le_value
Reads-from_bool true = Reads-convert 1 _ (le_bytes 1 1) refl (λ m. refl)
Reads-from_bool false = Reads-convert 1 _ (le_bytes 1 0) refl (λ m. refl)

pub Reads-from_string : (s : List ℕ) → length s < u32 → Reads from_string (string_bytes s) s
unfolding from_string string_bytes
Reads-from_string s h =
    Reads-bind _ (Reads-from_u32 (length s) h) (Reads-load (length s) (λ ib. ib) s refl)

module _ {A : Type 0} {P : A → Type 0} {elem : Reader A} {bytes : A → List ℕ}
    (reads : (a : A) → P a → Reads elem (bytes a) a) where
  Reads-from_elements_loop :
      (qs ts : List A)
      → All P qs
      → Reads (from_elements_loop (length qs) elem ts) (concat_bytes bytes qs) (reverse qs ++ ts)
  unfolding from_elements_loop concat_bytes
  Reads-from_elements_loop [] ts h = Reads-pure ts
  Reads-from_elements_loop (q ∷ qs) ts (hq, h) =
      rw (reverse-cons q qs, append_assoc (reverse qs) (q ∷ []) ts)
        (Reads-bind _ (reads q hq) (Reads-from_elements_loop qs (q ∷ ts) h))

  pub Reads-from_elements :
      (initial : A) (xs : List A)
      → All P xs
      → length xs ≤ 2 ^ 31
      → Reads (from_elements initial elem) (vector_bytes bytes xs) xs
  unfolding from_elements vector_bytes
  Reads-from_elements initial xs h n = Reads-bind _ (Reads-from_u32 (length xs) (omega arith)) (
      rw (le→leb _ _ n, ← length-reverse xs)
        (rw (reverse-reverse xs, append-nil xs) at
          (Reads-from_elements_loop (reverse xs) [] (All-reverse P xs h))))

  -- Where each element that satisfies P is read back from its bytes, a list of at most 2^31 such
  -- elements is read back in its order, though its elements come last first.
  pub Reads-from_vector :
      (initial : A) (xs : List A)
      → All P xs
      → length xs ≤ 2 ^ 31
      → Reads (from_vector initial elem) (vector_bytes bytes xs) xs
  unfolding from_vector
  Reads-from_vector initial xs h n = Reads-noexcept (Reads-from_elements initial xs h n)

  pub Reads-from_option :
      (o : Option A)
      → ((a : A) → o ≡ some a → P a)
      → Reads (from_option elem) (option_bytes bytes o) o
  unfolding from_option option_bytes
  Reads-from_option none h = Reads-noexcept (
      Reads-bind_nil (λ d. if d then (do x ← elem; pure (some x)) else pure none) none
        (Reads-from_bool false) (Reads-pure none))
  Reads-from_option (some a) h =
      Reads-noexcept (Reads-bind _ (Reads-from_bool true) (Reads-last some (reads a (h a refl))))

pub Reads-from_pair :
    {A B : Type 0} {first : Reader A} {second : Reader B} {xs ys : List ℕ} {a : A} {b : B}
    → Reads first xs a
    → Reads second ys b
    → Reads (from_pair first second) (xs ++ ys) (a, b)
unfolding from_pair
Reads-from_pair {A} {B} {a = a} r s =
    Reads-noexcept (Reads-bind _ r (Reads-last (λ y. let p : A × B = (a, y) in p) s))
