-- ===== src/Llio/Reader.antt =====
-- Deserialisation: a reader moves a message on and returns a value, or throws, or brings the
-- process down. An exception leaves the message where it was thrown.
use alba.Base.{ℕ, ◌+◌, ◌≡◌, List, length, take, drop, leb, if◌then◌else◌}
use alba.Llio.Message.{Message, is_outside, skip, get_pos, nested_at}

-- `thrown` is the string literal of `throw "serialization error"`.
pub data Exception : Type 0 where
  deserialisation_exception length_error thrown : Exception

-- An exception that leaves a noexcept function; a failed assert; a read outside the allocated bytes;
-- a shift by 64 or more; a vector indexed outside its elements. `out_of_fuel` is no C++ behaviour.
pub data Halt : Type 0 where
  terminated aborted over_read bad_shift bad_index out_of_fuel : Halt

pub data Outcome {ℓ} (A : Type ℓ) : Type ℓ where
  ok : A → Message → Outcome A
  throws : Exception → Message → Outcome A
  halts : Halt → Outcome A

abbrev pub Reader {ℓ} : Type ℓ → Type ℓ
Reader A = Message → Outcome A

module _ {ℓ} {A : Type ℓ} where
  unfoldable pub pure : A → Reader A
  pure a m = ok a m

  unfoldable pub throw : Exception → Reader A
  throw e m = throws e m

  unfoldable pub halt : Halt → Reader A
  halt h m = halts h

  abbrev pub on_throw : Outcome A → (Exception → Message → Outcome A) → Outcome A
  on_throw (ok a m) f = ok a m
  on_throw (throws e m) f = f e m
  on_throw (halts h) f = halts h

  -- A function that is declared noexcept.
  unfoldable pub noexcept : Reader A → Reader A
  noexcept p m = on_throw (p m) (λ e m'. halts terminated)

module _ {ℓ κ} {A : Type ℓ} {B : Type κ} where
  abbrev pub continue : Outcome A → (A → Message → Outcome B) → Outcome B
  continue (ok a m) f = f a m
  continue (throws e m) f = throws e m
  continue (halts h) f = halts h

  infixl 5 ◌>>=◌ ◌>>◌
  unfoldable pub ◌>>=◌ : Reader A → (A → Reader B) → Reader B
  ◌>>=◌ p f m = continue (p m) f

  abbrev pub ◌>>◌ : Reader A → Reader B → Reader B
  p >> q = p >>= λ _. q

-- Reads from another message, a nested one or one over a buffer of its own.
unfoldable pub reading {ℓ} : {A : Type ℓ} → Message → Reader A → Reader A
reading m2 p m = elim (p m2) [ ok a m2' ↦ ok a m | throws e m2' ↦ throws e m | halts h ↦ halts h ]

pub reading-ok {ℓ} :
    {A : Type ℓ} (q : Reader A) (m2 m : Message) {m2' : Message} {a : A}
    → q m2 ≡ ok a m2'
    → reading m2 q m ≡ ok a m
unfolding reading
reading-ok q m2 m e = rw (e, reading)

pub reading-throws {ℓ} :
    {A : Type ℓ} (q : Reader A) (m2 m : Message) {m2' : Message} {e : Exception}
    → q m2 ≡ throws e m2'
    → reading m2 q m ≡ throws e m
unfolding reading
reading-throws q m2 m e = rw (e, reading)

-- The bytes that a load of `len` bytes at `current(len)` sees.
unfoldable pub peek : ℕ → Reader (List ℕ)
peek len m =
    let index = m.buffer.start + m.pos in
    if leb (index + len) (length m.buffer.bytes)
    then ok (take len (drop index m.buffer.bytes)) m
    else halts over_read

-- `message::current(len)` and the load behind it.
unfoldable pub current : ℕ → Reader (List ℕ)
current len m = if is_outside m len then throws deserialisation_exception m else peek len m

unfoldable pub skips : ℕ → Reader (Unit {0})
skips x m = ok tt (skip x m)

unfoldable pub tell : Reader ℕ
tell m = ok (get_pos m) m

-- `message::get_nested_message(len)`.
unfoldable pub get_nested_message : ℕ → Reader Message
get_nested_message len m =
    if is_outside m len then throws deserialisation_exception m else ok (nested_at m len) m
