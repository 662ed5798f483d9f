-- ===== src/Llio/Reads.antt =====
-- Exact reading: a reader that consumes given bytes and returns a given value, whatever follows.
use alba.Base.{
  ℕ, ◌+◌, ◌≡◌, ap, List, [], ◌++◌, length, length-append, append_assoc, append-nil, leb, le→leb,
  take-length-append, true, arith,
}
use alba.Llio.Message.{
  Message, Ahead, advance, is_outside-Ahead, drop-Ahead, skip-Ahead, advance-Ahead, length-Ahead,
}
use alba.Llio.Reader.{Reader, ok, pure, ◌>>=◌, noexcept, ◌>>◌, peek, current, skips}

pub record Reads {ℓ} {A : Type ℓ} (p : Reader A) (bs : List ℕ) (a : A) : Type ℓ where
  pub at : (m : Message) (ys : List ℕ) → Ahead m (bs ++ ys) → p m ≡ ok a (advance (length bs) m)

advance-advance : (i j : ℕ) (m : Message) → advance j (advance i m) ≡ advance (i + j) m
advance-advance i j m = ap (λ p. record m { pos = p }) (omega arith)

module _ {ℓ} {A : Type ℓ} where
  pub Reads-pure : (a : A) → Reads (pure a) [] a
  unfolding pure
  Reads-pure a = record { at = λ m ys h. ap (λ p. ok a (record m { pos = p })) (omega arith) }

  pub Reads-noexcept : {p : Reader A} {bs : List ℕ} {a : A} → Reads p bs a → Reads (noexcept p) bs a
  unfolding noexcept
  Reads-noexcept r = record { at = λ m ys h. rw (r.at m ys h) }

module _ {ℓ κ} {A : Type ℓ} {B : Type κ} where
  pub Reads-bind :
      {p : Reader A} (f : A → Reader B) {xs ys : List ℕ} {a : A} {b : B}
      → Reads p xs a
      → Reads (f a) ys b
      → Reads (p >>= f) (xs ++ ys) b
  unfolding ◌>>=◌
  Reads-bind {p} f {xs} {ys} {a} {b} r s = record {
    at = λ m zs h.
        let h' : Ahead m (xs ++ (ys ++ zs)) = rw (append_assoc xs ys zs) at h in
        rw (r.at m (ys ++ zs) h') (
          rw (s.at (advance (length xs) m) zs (advance-Ahead xs (ys ++ zs) h'))
            (ap (ok b) (rw (length-append xs ys) (advance-advance (length xs) (length ys) m))));
  }

  -- A step that reads nothing.
  pub Reads-silent :
      {p : Reader A} (f : A → Reader B) {ys : List ℕ} {a : A} {b : B}
      → Reads p [] a
      → Reads (f a) ys b
      → Reads (p >>= f) ys b
  Reads-silent f r s = Reads-bind f r s

  -- What follows reads nothing more.
  pub Reads-bind_nil :
      {p : Reader A} (f : A → Reader B) {xs : List ℕ} {a : A} (b : B)
      → Reads p xs a
      → Reads (f a) [] b
      → Reads (p >>= f) xs b
  Reads-bind_nil {p} f {xs} b r s = rw (append-nil xs) at (Reads-bind f r s)

  -- The last step of a block.
  pub Reads-last :
      {p : Reader A} (f : A → B) {xs : List ℕ} {a : A}
      → Reads p xs a
      → Reads (p >>= λ x. pure (f x)) xs (f a)
  Reads-last {p} f {xs} {a} r = Reads-bind_nil (λ x. pure (f x)) (f a) r (Reads-pure (f a))

-- A load of the bytes at the front of what is ahead.
pub current-Ahead :
    (xs : List ℕ) (n : ℕ) {m : Message} (ys : List ℕ)
    → n ≡ length xs
    → Ahead m (xs ++ ys)
    → current n m ≡ ok xs m
unfolding current peek
current-Ahead xs n {m} ys e h =
    let index : m.buffer.start + m.pos ≡ m.pos = omega (arith, h.plain) in
    let fits : leb (m.pos + n) (length m.buffer.bytes) ≡ true =
      le→leb _ _ (omega (arith, h.at_front, length-Ahead h, length-append xs ys)) in
    rw (is_outside-Ahead xs ys h n e, index, fits, drop-Ahead xs ys h, e, take-length-append xs _)

module _ {ℓ} {A : Type ℓ} where
  -- The way in which every scalar is read: load, convert, skip.
  pub Reads-load :
      (n : ℕ) (f : List ℕ → A) (xs : List ℕ)
      → n ≡ length xs
      → Reads (do ib ← current n; skips n; pure (f ib)) xs (f xs)
  unfolding ◌>>=◌ skips pure
  Reads-load n f xs e = record {
    at = λ m ys h. rw (current-Ahead xs n ys e h) (ap (ok (f xs)) (skip-Ahead xs ys h n e));
  }

  -- The same where the conversion may fail, before the skip.
  pub Reads-convert :
      (n : ℕ) (convert : List ℕ → Reader A) (xs : List ℕ) {a : A}
      → n ≡ length xs
      → ((m : Message) → convert xs m ≡ ok a m)
      → Reads (do ib ← current n; v ← convert ib; skips n; pure v) xs a
  unfolding ◌>>=◌ skips pure
  Reads-convert n convert xs {a} e c = record {
    at = λ m ys h. rw (current-Ahead xs n ys e h, c m) (ap (ok a) (skip-Ahead xs ys h n e));
  }
