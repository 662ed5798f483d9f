-- ===== src/Runs/Files.antt =====
-- A file of four bytes over a socket that is not always ready, two bytes at a time: slices that are sent, and one
-- past the end.
use mathlib.Core.Option.{some-injective, none-ne-some}
use alba.Base.{
  Option, none, ◌+◌, ◌<◌, ◌≢◌, ◌⊎◌, inl, zero, suc, ℕ, ◌-◌, ◌≤◌, ◌≡◌, refl, sym, List, [], ◌∷◌,
  ◌++◌, true, some, length, take, drop, min, arith,
}
use alba.Partial.{Kernel, FileSlice, Ending, worker_partial_read, send_slice}
use alba.Partial.Loops.{IsSocket, send_slice-looping}
use alba.Partial.Delivery.{Reports, worker_partial_read-Reports}

abbrev text : List ℕ
text = 10 ∷ 11 ∷ 12 ∷ 13 ∷ []

-- The state is what was sent, and how often the socket will not be ready.
abbrev Wire : Type 0
Wire = List ℕ × ℕ

abbrev eagain : ℕ
eagain = 11

abbrev some_bytes : ℕ → ℕ → ℕ
some_bytes offset count = min 2 (min count (length text - offset))

abbrev attempt : ℕ → ℕ → Wire → Option ℕ × Wire
attempt offset count (out, zero) = (
  some (some_bytes offset count),
  (out ++ take (some_bytes offset count) (drop offset text), zero),
)
attempt offset count (out, suc busy) = (none, (out, busy))

abbrev linux : Kernel
linux = record {
  State = Wire;
  errno = λ s. eagain;
  open_ = λ path s. (some 5, s);
  close = λ fd s. s;
  fadvise = λ fd offset count advice s. (0, s);
  sendfile = λ fd offset count s. attempt offset count s;
  poll = λ s. ((some 1, 4), s);
  took = λ s. 3;
}

part :
    (before rest : List ℕ) (k n count : ℕ) {P : Type 0}
    → k ≡ n
    → k ≤ count
    → (P → 1 ≤ count → 1 ≤ k)
    → (before ++ take k rest ≡ before ++ take n rest)
      × ((n ≤ count) × ((P → 1 ≤ count → 1 ≤ n) × (0 ≤ 0)))
part before rest k n count e l p = rw (← e) (refl, (l, (p, omega arith)))

attempt-some :
    (offset count : ℕ) (s : Wire) (n : ℕ)
    → (attempt offset count s).0 ≡ some n
    → ((attempt offset count s).1.0 ≡ s.0 ++ take n (drop offset text))
      × ((n ≤ count)
          × ((offset + count ≤ 4 → 1 ≤ count → 1 ≤ n) × ((attempt offset count s).1.1 ≤ s.1)))
attempt-some offset count (out, zero) n e =
    part out (drop offset text) (some_bytes offset count) n count (some-injective _ n e)
      (omega arith) (λ inside c. omega (arith, inside, c))
attempt-some offset count (out, suc busy) n e = absurd (none-ne-some n e)

attempt-none :
    (offset count : ℕ) (s : Wire)
    → (attempt offset count s).0 ≡ none
    → ((eagain ≡ eagain)
        × (((attempt offset count s).1.0 ≡ s.0) × ((attempt offset count s).1.1 < s.1)))
      ⊎ ((eagain ≢ eagain) × ⊥)
attempt-none offset count (out, zero) e = absurd (none-ne-some _ (sym e))
attempt-none offset count (out, suc busy) e = inl (refl, (refl, omega arith))

abbrev linux-IsSocket : IsSocket linux 5 text
linux-IsSocket = record {
  sent = λ s. s.0;
  waits = λ s. s.1;
  HasFailed = λ s. ⊥;
  sendfile-some = attempt-some;
  sendfile-none = attempt-none;
  poll-ready = λ s. inl refl;
  poll-keeps = λ s. (refl, omega arith);
  fadvise-keeps = λ offset count advice s. (refl, omega arith);
  open-keeps = λ path s. (refl, omega arith);
  sent-close = λ s. refl;
  HasFailed-close = λ s h. h;
}

abbrev two_slices : List FileSlice
two_slices = record { offset = 1; len = 3 } ∷ record { offset = 0; len = 1 } ∷ []

worker_partial_read-Reports_example :
    Reports linux 5 text linux-IsSocket
      (9 ∷ 11 ∷ 12 ∷ 13 ∷ 10 ∷ [])
      (worker_partial_read linux 7 true (47 ∷ []) two_slices (9 ∷ [], 3))
worker_partial_read-Reports_example =
    worker_partial_read-Reports linux 5 text linux-IsSocket 7 true (47 ∷ []) two_slices (9 ∷ [], 3)
      (9 ∷ [], 3) refl ((omega arith, omega arith), ((omega arith, omega arith), tt))

send_slice-looping_example : send_slice linux 100 5 4 1 (9 ∷ [], 0) ≡ (Ending.looping, (9 ∷ [], 0))
send_slice-looping_example = send_slice-looping linux 5 4 0 (9 ∷ [], 0) refl 100
