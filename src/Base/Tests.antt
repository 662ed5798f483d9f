-- ===== src/Base/Tests.antt =====
-- Boolean tests on the native numbers, and the conditional.
use Prim.Native.Nat.{ℕ, ◌≤◌, ◌<◌, compare, Ordering}
use mathlib.Core.Path.{◌≡◌, refl}
use mathlib.Core.Logic.{◌≢◌, ◌↔◌, ◌⊎◌, inl, inr}
use mathlib.Core.Bool.{Bool, true, false}
use mathlib.Core.List.{List, [], ◌∷◌}
use mathlib.Core.Option.{Option, none, some}
use native.Mathlib.Omega.{arith}

abbrev pub ltb : ℕ → ℕ → Bool
ltb a b = elim (compare a b) [ Ordering.lt ↦ true | _ ↦ false ]

abbrev pub leb : ℕ → ℕ → Bool
leb a b = elim (compare a b) [ Ordering.gt ↦ false | _ ↦ true ]

infix 50 ◌==◌
abbrev pub ◌==◌ : ℕ → ℕ → Bool
a == b = elim (compare a b) [ Ordering.eq ↦ true | _ ↦ false ]

infix 1 if◌then◌else◌
abbrev pub if◌then◌else◌ {ℓ} : {A : Type ℓ} → Bool → A → A → A
if true then x else y = x
if false then x else y = y

pub ltb→lt : (a b : ℕ) → ltb a b ≡ true → a < b
ltb→lt a b h = ground arith

pub lt→ltb : (a b : ℕ) → a < b → ltb a b ≡ true
lt→ltb a b h = ground arith

pub ltb-false : (a b : ℕ) → b ≤ a → ltb a b ≡ false
ltb-false a b h = ground arith

pub le_of_ltb-false : (a b : ℕ) → ltb a b ≡ false → b ≤ a
le_of_ltb-false a b h = ground arith

pub le→leb : (a b : ℕ) → a ≤ b → leb a b ≡ true
le→leb a b h = ground arith

pub le_of_leb : (a b : ℕ) → leb a b ≡ true → a ≤ b
le_of_leb a b h = ground arith

pub leb-false : (a b : ℕ) → b < a → leb a b ≡ false
leb-false a b h = ground arith

pub lt_of_leb-false : (a b : ℕ) → leb a b ≡ false → b < a
lt_of_leb-false a b h = ground arith

pub ==_iff : (a b : ℕ) → ((a == b) ≡ true) ↔ (a ≡ b)
==_iff a b = ground arith

pub ==_self : (a : ℕ) → (a == a) ≡ true
==_self a = ground arith

-- Equality of byte strings, `operator==` of std::string.
unfoldable pub string_eq : List ℕ → List ℕ → Bool
string_eq [] [] = true
string_eq [] (y ∷ ys) = false
string_eq (x ∷ xs) [] = false
string_eq (x ∷ xs) (y ∷ ys) = let rest = string_eq xs ys in if x == y then rest else false

string_eq→eq : (xs ys : List ℕ) → string_eq xs ys ≡ true → xs ≡ ys
unfolding string_eq
string_eq→eq [] [] h = refl
string_eq→eq [] (y ∷ ys) h = cc
string_eq→eq (x ∷ xs) [] h = cc
string_eq→eq (x ∷ xs) (y ∷ ys) h = ground (arith, string_eq→eq xs ys)

pub string_eq_self : (xs : List ℕ) → string_eq xs xs ≡ true
unfolding string_eq
string_eq_self [] = refl
string_eq_self (x ∷ xs) = ground (arith, string_eq_self xs)

pub string_eq_iff : (xs ys : List ℕ) → (string_eq xs ys ≡ true) ↔ (xs ≡ ys)
string_eq_iff xs ys = (string_eq→eq xs ys, λ e. ground (arith, string_eq_self xs))

-- To split on a computed value and keep the equation.
pub Bool-cases : (b : Bool) → (b ≡ true) ⊎ (b ≡ false)
Bool-cases true = inl refl
Bool-cases false = inr refl

pub Option-cases {ℓ} : {A : Type ℓ} (o : Option A) → (o ≡ none) ⊎ ((a : A) × (o ≡ some a))
Option-cases none = inl refl
Option-cases (some a) = inr (a, refl)

pub ==_false : (a b : ℕ) → a ≢ b → (a == b) ≡ false
==_false a b h = elim (Bool-cases (a == b)) [ inl e ↦ absurd (h ((==_iff a b).0 e)) | inr e ↦ e ]
