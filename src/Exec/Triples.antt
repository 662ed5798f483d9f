-- ===== src/Exec/Triples.antt =====
-- What holds before a method, and after it: of its value and the object where it returns, and of the
-- object where it throws.
use alba.Base.{◌≡◌, refl, Bool, true, false, Option, none, some, if◌then◌else◌}
use alba.Exec.{
  Fault, Result, returns, raises, Exec, pure, raise, gets, defined, modify, ◌>>=◌, proceed, handle,
  catch, within,
}

abbrev pub Ends : {S A : Type 0} → (A → S → Type 0) → (S → Type 0) → Result A × S → Type 0
Ends Q E (returns a, s) = Q a s
Ends Q E (raises f, s) = E s

pub record Triple {S A : Type 0} (P : S → Type 0) (m : Exec S A) (Q : A → S → Type 0)
    (E : S → Type 0) : Type 0 where
  pub at : (s : S) → P s → Ends Q E (m s)

-- The same holds after the method as before, in either case.
abbrev pub Keeps : {S A : Type 0} → (S → Type 0) → Exec S A → Type 0
Keeps P m = Triple P m (λ a s. P s) P

module _ {S A : Type 0} where
  Ends-weaken :
      {Q Q' : A → S → Type 0} {E E' : S → Type 0} (r : Result A × S)
      → ((a : A) (s : S) → Q a s → Q' a s)
      → ((s : S) → E s → E' s)
      → Ends Q E r
      → Ends Q' E' r
  Ends-weaken (returns a, s) f g h = f a s h
  Ends-weaken (raises x, s) f g h = g s h

  pub Triple-weaken :
      {P P' : S → Type 0} {m : Exec S A} {Q Q' : A → S → Type 0} {E E' : S → Type 0}
      → ((s : S) → P' s → P s)
      → ((a : A) (s : S) → Q a s → Q' a s)
      → ((s : S) → E s → E' s)
      → Triple P m Q E
      → Triple P' m Q' E'
  Triple-weaken {m = m} e f g t = record { at = λ s h. Ends-weaken (m s) f g (t.at s (e s h)) }

  caught :
      {Q : A → S → Type 0} {E E' : S → Type 0} (r : Result A × S) (f : Fault → Exec S A)
      → ((x : Fault) → Triple E' (f x) Q E)
      → Ends Q E' r
      → Ends Q E (handle r f)
  caught (returns a, s) f h e = e
  caught (raises x, s) f h e = (h x).at s e

  module _ {P : S → Type 0} {Q : A → S → Type 0} {E : S → Type 0} where
    pub Triple-pure : (a : A) → ((s : S) → P s → Q a s) → Triple P (pure a) Q E
    unfolding pure
    Triple-pure a h = record { at = h }

    pub Triple-raise : (f : Fault) → ((s : S) → P s → E s) → Triple P (raise f) Q E
    unfolding raise
    Triple-raise f h = record { at = h }

    pub Triple-gets : (f : S → A) → ((s : S) → P s → Q (f s) s) → Triple P (gets f) Q E
    unfolding gets
    Triple-gets f h = record { at = h }

    pub Triple-defined :
        (o : Option A)
        → ((a : A) → o ≡ some a → (s : S) → P s → Q a s)
        → ((s : S) → P s → E s)
        → Triple P (defined o) Q E
    unfolding defined
    Triple-defined none f g = record { at = g }
    Triple-defined (some a) f g = record { at = f a refl }

    pub Triple-if :
        (b : Bool) {m n : Exec S A}
        → (b ≡ true → Triple P m Q E)
        → (b ≡ false → Triple P n Q E)
        → Triple P (if b then m else n) Q E
    Triple-if true f g = f refl
    Triple-if false f g = g refl

    pub Triple-catch :
        {E' : S → Type 0} {m : Exec S A} {f : Fault → Exec S A}
        → Triple P m Q E'
        → ((x : Fault) → Triple E' (f x) Q E)
        → Triple P (catch m f) Q E
    unfolding catch
    Triple-catch {m = m} {f} t h = record { at = λ s p. caught (m s) f h (t.at s p) }

pub Triple-modify :
    {S : Type 0} {P : S → Type 0} {Q : Unit {0} → S → Type 0} {E : S → Type 0} (f : S → S)
    → ((s : S) → P s → Q tt (f s))
    → Triple P (modify f) Q E
unfolding modify
Triple-modify f h = record { at = h }

module _ {S A B : Type 0} {Q : A → S → Type 0} {R : B → S → Type 0} {E : S → Type 0} where
  proceeded :
      (r : Result A × S) (f : A → Exec S B)
      → ((a : A) → Triple (Q a) (f a) R E)
      → Ends Q E r
      → Ends R E (proceed r f)
  proceeded (returns a, s) f h e = (h a).at s e
  proceeded (raises x, s) f h e = e

  pub Triple-bind :
      {P : S → Type 0} {m : Exec S A} {f : A → Exec S B}
      → Triple P m Q E
      → ((a : A) → Triple (Q a) (f a) R E)
      → Triple P (m >>= f) R E
  unfolding ◌>>=◌
  Triple-bind {m} {f} t h = record { at = λ s p. proceeded (m s) f h (t.at s p) }

-- A method of a member: what holds whatever the member is goes on to hold, and the value is one that
-- the method gave.
module _ {S T A : Type 0} (get : S → T) (set : T → S → S) (p : Exec T A) where
  abbrev pub Gave : A → Type 0
  Gave a = (t : T) × ((t' : T) × (p t ≡ (returns a, t')))

  gave :
      (P : S → Type 0) (s : S) (t : T) (r : Result A × T)
      → p t ≡ r
      → P (set r.1 s)
      → Ends (λ a s'. Gave a × P s') P (r.0, set r.1 s)
  gave P s t (returns a, t') e h = ((t, (t', e)), h)
  gave P s t (raises x, t') e h = h

  pub Triple-within :
      {P : S → Type 0}
      → ((t : T) (s : S) → P s → P (set t s))
      → Triple P (within get set p) (λ a s. Gave a × P s) P
  unfolding within
  Triple-within {P} h = record {
    at = λ s k. gave P s (get s) (p (get s)) refl (h (p (get s)).1 s k);
  }

-- What changes nothing keeps everything.
module _ {S A : Type 0} {P : S → Type 0} where
  pub Keeps-pure : (a : A) → Keeps P (pure a)
  Keeps-pure a = Triple-pure a (λ s h. h)

  pub Keeps-raise : (f : Fault) → Triple P (raise {A = A} f) (λ a s. P s) P
  Keeps-raise f = Triple-raise f (λ s h. h)

  pub Keeps-gets : (f : S → A) → Keeps P (gets f)
  Keeps-gets f = Triple-gets f (λ s h. h)

  pub Keeps-defined : (o : Option A) → Keeps P (defined o)
  Keeps-defined o = Triple-defined o (λ a e s h. h) (λ s h. h)

ended : {S A : Type 0} (P : S → Type 0) (r : Result A × S) → Ends (λ a s. P s) P r → P r.1
ended P (returns a, s) h = h
ended P (raises f, s) h = h

-- Whether it returns or throws.
pub Keeps-after :
    {S A : Type 0} {P : S → Type 0} {m : Exec S A} → Keeps P m → (s : S) → P s → P (m s).1
Keeps-after {P = P} {m} k s h = ended P (m s) (k.at s h)

-- Of the value alone.
abbrev pub Yields : {S A : Type 0} → Exec S A → (A → Type 0) → Type 0
Yields m Q = Triple (λ s. Unit {0}) m (λ a s. Q a) (λ s. Unit {0})

Ends-anyhow : {S A : Type 0} (r : Result A × S) → Ends (λ a s. Unit {0}) (λ s. Unit {0}) r
Ends-anyhow (returns a, s) = tt
Ends-anyhow (raises f, s) = tt

pub Yields-anything : {S A : Type 0} (m : Exec S A) → Yields m (λ a. Unit {0})
Yields-anything m = record { at = λ s h. Ends-anyhow (m s) }

pub Yields-bind :
    {S A B : Type 0} {m : Exec S A} {f : A → Exec S B} {Q : A → Type 0} {R : B → Type 0}
    → Yields m Q
    → ((a : A) → Q a → Yields (f a) R)
    → Yields (m >>= f) R
Yields-bind t h = Triple-bind t λ a. record { at = λ s q. (h a q).at s tt }

pub Yields-pure : {S A : Type 0} {Q : A → Type 0} (a : A) → Q a → Yields {S = S} (pure a) Q
Yields-pure a q = Triple-pure a (λ s h. q)

-- What is known of the state before may be used to prove the rest.
pub Triple-given :
    {S A : Type 0} {P E : S → Type 0} {m : Exec S A} {Q : A → S → Type 0}
    → ((s : S) → P s → Triple P m Q E)
    → Triple P m Q E
Triple-given h = record { at = λ s p. (h s p).at s p }

-- The run itself, from a state of which something held.
abbrev pub Ran : {S A : Type 0} → (S → Type 0) → Exec S A → A → S → Type 0
Ran {S} P m a s' = (s : S) × (P s × (m s ≡ (returns a, s')))

ran :
    {S A : Type 0} (P : S → Type 0) (m : Exec S A) (s : S) (r : Result A × S)
    → P s
    → m s ≡ r
    → Ends (Ran P m) (λ s. Unit {0}) r
ran P m s (returns a, s') h e = (s, (h, e))
ran P m s (raises x, s') h e = tt

pub Triple-Ran :
    {S A : Type 0} {P : S → Type 0} (m : Exec S A) → Triple P m (Ran P m) (λ s. Unit {0})
Triple-Ran {P = P} m = record { at = λ s h. ran P m s (m s) h refl }
