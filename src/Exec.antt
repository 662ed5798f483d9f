-- ===== src/Exec.antt =====
-- Methods that change an object and may throw: what was changed before the exception stays changed, so
-- the object comes back beside the exception.
pub mod Triples
use alba.Base.{ℕ, List, Option, none, some}
use alba.Llio.Reader.{Outcome, ok, throws, halts, Reader, Exception}
use alba.Llio.Message.{Message}

-- What a transport throws; what a reader of a message throws; proxy_exception, asd_exception and
-- osd_access_exception, with their code and the text of the first; `out_of_range` or `logic_error`; the
-- zero of `throw 0`, which is no std::exception. `process_down` stands for an access that is undefined, for the end of the process, and for a wait that
-- never ends.
pub data Fault : Type 0 where
  transport_error : Fault
  bad_message : Exception → Fault
  proxy_exception : ℕ → Option (List ℕ) → Fault
  asd_exception : ℕ → Fault
  osd_access_exception other_exception thrown_int : Fault
  process_down : Fault

pub data Result {ℓ} (A : Type ℓ) : Type ℓ where
  returns : A → Result A
  raises : Fault → Result A

abbrev pub Exec {ℓ} : Type 0 → Type ℓ → Type ℓ
Exec S A = S → Result A × S

module _ {ℓ} {S : Type 0} {A : Type ℓ} where
  unfoldable pub pure : A → Exec S A
  pure a s = (returns a, s)

  unfoldable pub raise : Fault → Exec S A
  raise f s = (raises f, s)

  unfoldable pub gets : (S → A) → Exec S A
  gets f s = (returns (f s), s)

  -- An undefined access where there is no value.
  unfoldable pub defined : Option A → Exec S A
  defined none s = (raises process_down, s)
  defined (some a) s = (returns a, s)

unfoldable pub modify : {S : Type 0} → (S → S) → Exec S (Unit {0})
modify f s = (returns tt, f s)

module _ {ℓ κ} {S : Type 0} {A : Type ℓ} {B : Type κ} where
  abbrev pub proceed : Result A × S → (A → Exec S B) → Result B × S
  proceed (returns a, s) f = f a s
  proceed (raises e, s) f = (raises e, s)

  infixl 5 ◌>>=◌ ◌>>◌
  unfoldable pub ◌>>=◌ : Exec S A → (A → Exec S B) → Exec S B
  ◌>>=◌ m f s = proceed (m s) f

  abbrev pub ◌>>◌ : Exec S A → Exec S B → Exec S B
  m >> n = m >>= λ _. n

-- The handler of a try block.
abbrev pub handle {ℓ} : {S : Type 0} {A : Type ℓ} → Result A × S → (Fault → Exec S A) → Result A × S
handle (returns a, s) f = (returns a, s)
handle (raises e, s) f = f e s

unfoldable pub catch {ℓ} : {S : Type 0} {A : Type ℓ} → Exec S A → (Fault → Exec S A) → Exec S A
catch m f s = handle (m s) f

-- A reader, over a response.
unfoldable pub outcome {ℓ} : {A : Type ℓ} → Outcome A → Result A
outcome (ok a m) = returns a
outcome (throws e m) = raises (bad_message e)
outcome (halts h) = raises process_down

unfoldable pub read_from {ℓ} : {S : Type 0} {A : Type ℓ} → Reader A → Message → Exec S A
read_from r m s = (outcome (r m), s)

-- A method of a member of the object.
unfoldable pub within {ℓ} :
    {S T : Type 0} {A : Type ℓ} → (S → T) → (T → S → S) → Exec T A → Exec S A
within get set p s = let (r, t) = p (get s) in (r, set t s)
