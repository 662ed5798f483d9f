-- ===== src/Llio/Safety.antt =====
-- Memory safety: on a view that lies in its buffer a reader loads no byte from outside the buffer,
-- and leaves such a view behind, whether it returns or throws.
use alba.Base.{
  ℕ, ◌+◌, ◌≤◌, ◌<◌, ◌≡◌, ◌≢◌, refl, List, Bool, true, false, inl, inr, Bool-cases, ◌⊎◌, length,
  take, drop, leb, le→leb, le_of_ltb-false, if◌then◌else◌, u32, sign_extend, sign_extend_small, All,
  All-take, All-drop, IsByte, length-take, length-drop, arith,
}
use alba.Llio.Message.{Message, IsSafe, is_outside, skip, nested_at}
use alba.Llio.Reader.{
  Reader, Outcome, Halt, Exception, ok, throws, halts, over_read, out_of_fuel, pure, throw, halt,
  noexcept, ◌>>=◌, ◌>>◌, on_throw, continue, peek, current, skips, tell, get_nested_message,
  reading, terminated,
}

abbrev pub Good {ℓ} : {A : Type ℓ} → (A → Type 0) → Outcome A → Type 0
Good P (ok a m) = P a × IsSafe m
Good P (throws e m) = IsSafe m
Good P (halts h) = (h ≢ over_read) × (h ≢ out_of_fuel)

-- `P` holds of what is returned.
pub record Sound {ℓ} {A : Type ℓ} (P : A → Type 0) (p : Reader A) : Type ℓ where
  pub at : (m : Message) → IsSafe m → Good P (p m)

abbrev pub Any {ℓ} : {A : Type ℓ} → A → Type 0
Any a = Unit {0}

Good-on_throw {ℓ} :
    {A : Type ℓ} (P : A → Type 0) (r : Outcome A)
    → Good P r
    → Good P (on_throw r (λ e m. halts terminated))
Good-on_throw P (ok a m) g = g
Good-on_throw P (throws e m) g = (λ q. cc, λ q. cc)
Good-on_throw P (halts h) g = g

Good-Any {ℓ} : {A : Type ℓ} (P : A → Type 0) (r : Outcome A) → Good P r → Good (Any {A = A}) r
Good-Any P (ok a m) g = (tt, g.1)
Good-Any P (throws e m) g = g
Good-Any P (halts h) g = g

-- What is returned may be forgotten.
pub Sound-Any {ℓ} : {A : Type ℓ} {P : A → Type 0} {p : Reader A} → Sound P p → Sound (Any {A = A}) p
Sound-Any {P = P} {p} s = record { at = λ m v. Good-Any P (p m) (s.at m v) }

module _ {ℓ} {A : Type ℓ} {P : A → Type 0} where
  pub Sound-pure : (a : A) → P a → Sound P (pure a)
  unfolding pure
  Sound-pure a h = record { at = λ m s. (h, s) }

  pub Sound-throw : (e : Exception) → Sound P (throw e)
  unfolding throw
  Sound-throw e = record { at = λ m s. s }

  pub Sound-halt : (h : Halt) → h ≢ over_read → h ≢ out_of_fuel → Sound P (halt h)
  unfolding halt
  Sound-halt h a b = record { at = λ m s. (a, b) }

  pub Sound-noexcept : {p : Reader A} → Sound P p → Sound P (noexcept p)
  unfolding noexcept
  Sound-noexcept {p} s = record { at = λ m v. Good-on_throw P (p m) (s.at m v) }

  pub Sound-if :
      (b : Bool) (p q : Reader A)
      → (b ≡ true → Sound P p)
      → (b ≡ false → Sound P q)
      → Sound P (if b then p else q)
  Sound-if true p q h k = h refl
  Sound-if false p q h k = k refl

module _ {ℓ κ} {A : Type ℓ} {B : Type κ} (P : A → Type 0) {Q : B → Type 0} where
  Good-continue :
      (f : A → Reader B) (r : Outcome A)
      → ((a : A) → P a → Sound Q (f a))
      → Good P r
      → Good Q (continue r f)
  Good-continue f (ok a m) k g = (k a g.0).at m g.1
  Good-continue f (throws e m) k g = g
  Good-continue f (halts h) k g = g

  pub Sound-bind :
      {p : Reader A} (f : A → Reader B)
      → Sound P p
      → ((a : A) → P a → Sound Q (f a))
      → Sound Q (p >>= f)
  unfolding ◌>>=◌
  Sound-bind {p} f s k = record { at = λ m v. Good-continue f (p m) k (s.at m v) }

-- The bytes that a load returns, `len` of them.
abbrev pub Loaded : ℕ → List ℕ → Type 0
Loaded len bs = All IsByte bs × (length bs ≡ len)

module _ {m : Message} (v : IsSafe m) (len : ℕ) (small : len < u32) where
  guard-fits : is_outside m len ≡ false → m.pos + len ≤ m.initial_offset + m.size
  unfolding is_outside
  guard-fits h =
      let bound = le_of_ltb-false _ _ h in omega (arith, bound, v.within, v.inside, v.small)

  skip-IsSafe : is_outside m len ≡ false → IsSafe (skip len m)
  unfolding skip
  skip-IsSafe h =
      let fits = guard-fits h in
      let step : sign_extend len ≡ len =
        sign_extend_small len (omega (arith, fits, v.inside, v.small)) in
      record {
        plain = v.plain;
        within = rw step (omega (arith, fits, v.inside, v.small));
        inside = v.inside;
        octets = v.octets;
        small = v.small;
      }

  current-cases :
      (is_outside m len ≡ true) × (current len m ≡ throws Exception.deserialisation_exception m)
      ⊎ (is_outside m len ≡ false)
        × (current len m ≡ ok (take len (drop (m.buffer.start + m.pos) m.buffer.bytes)) m)
        × Loaded len (take len (drop (m.buffer.start + m.pos) m.buffer.bytes))
  unfolding current peek
  current-cases = elim (Bool-cases (is_outside m len)) [
    | inl out ↦ inl (out, rw out)
    | inr fits ↦
        let room = guard-fits fits in
        let peeked : leb (m.buffer.start + m.pos + len) (length m.buffer.bytes) ≡ true =
          le→leb _ _ (omega (arith, room, v.plain, v.inside)) in
        inr (
          fits,
          rw (fits, peeked),
          (
            All-take IsByte _ _ (All-drop IsByte _ _ v.octets),
            omega (
              arith,
              length-take len (drop (m.buffer.start + m.pos) m.buffer.bytes),
              length-drop (m.buffer.start + m.pos) m.buffer.bytes,
              room,
              v.plain,
              v.inside,
            ),
          ),
        )
  ]

module _ {ℓ} {A : Type ℓ} (P : A → Type 0) where
  -- Load `len` bytes, and go on behind them.
  pub Sound-load :
      (len : ℕ) (f : List ℕ → A)
      → len < u32
      → ((ib : List ℕ) → Loaded len ib → P (f ib))
      → Sound P (do ib ← current len; skips len; pure (f ib))
  unfolding ◌>>=◌ skips pure
  Sound-load len f small h = record {
    at = λ m v. elim (current-cases v len small) [
      | inl (out, e) ↦ rw (e, ◌>>=◌) v
      | inr (fits, e, loaded) ↦ rw (e, ◌>>=◌) (h _ loaded, skip-IsSafe v len small fits)
    ];
  }

  -- The same where the conversion may throw, before the skip.
  pub Sound-convert :
      (len : ℕ) (convert : List ℕ → Reader A)
      → len < u32
      → ((ib : List ℕ) (m : Message)
          → ((a : A) × (convert ib m ≡ ok a m) × P a)
            ⊎ ((e : Exception) × (convert ib m ≡ throws e m)))
      → Sound P (do ib ← current len; a ← convert ib; skips len; pure a)
  unfolding ◌>>=◌ skips pure
  Sound-convert len convert small h = record {
    at = λ m v. elim (current-cases v len small) [
      | inl (out, e) ↦ rw (e, ◌>>=◌) v
      | inr (fits, e, loaded) ↦
          elim (h (take len (drop (m.buffer.start + m.pos) m.buffer.bytes)) m) [
            | inl (a, c, pa) ↦ rw (e, c) (pa, skip-IsSafe v len small fits)
            | inr (x, c) ↦ rw (e, c) v
          ]
    ];
  }

  Good-reading :
      (m : Message) (r : Outcome A)
      → IsSafe m
      → Good P r
      → Good P (elim r [ ok a m2' ↦ ok a m | throws e m2' ↦ throws e m | halts h ↦ halts h ])
  Good-reading m (ok a m2) v g = (g.0, v)
  Good-reading m (throws e m2) v g = v
  Good-reading m (halts h) v g = g

  pub Sound-reading : (m2 : Message) (q : Reader A) → IsSafe m2 → Sound P q → Sound P (reading m2 q)
  unfolding reading
  Sound-reading m2 q v2 s = record { at = λ m v. Good-reading m (q m2) v (s.at m2 v2) }

pub Sound-tell : Sound (Any {A = ℕ}) tell
unfolding tell
Sound-tell = record { at = λ m v. (tt, v) }

nested-IsSafe :
    (m : Message) (len : ℕ)
    → IsSafe m
    → len < u32
    → is_outside m len ≡ false
    → IsSafe (nested_at m len)
unfolding nested_at
nested-IsSafe m len v small fits = record {
  plain = v.plain;
  within = omega arith;
  inside = omega (arith, guard-fits v len small fits, v.inside);
  octets = v.octets;
  small = v.small;
}

module _ {ℓ} {B : Type ℓ} (Q : B → Type 0) where
  -- A nested message of `len` bytes, and on behind it in the outer one.
  pub Sound-nested :
      (len : ℕ) (k : Message → Reader B)
      → len < u32
      → ((m2 : Message) → IsSafe m2 → Sound Q (k m2))
      → Sound Q (do m2 ← get_nested_message len; skips len; k m2)
  unfolding ◌>>=◌ skips get_nested_message nested_at
  Sound-nested len k small s = record {
    at = λ m v. elim (Bool-cases (is_outside m len)) [
      | inl out ↦ rw out v
      | inr fits ↦ rw fits (
          (s (nested_at m len) (nested-IsSafe m len v small fits)).at (skip len m)
            (skip-IsSafe v len small fits))
    ];
  }
