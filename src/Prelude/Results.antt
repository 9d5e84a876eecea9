-- ===== src/Prelude/Results.antt =====
-- A result or an error, for functions that return `(T, error)`.
use mathlib.Core.Path.{◌≡◌, refl}
use lidradar.Prelude.Tests.{if◌then◌else◌}
use mathlib.Core.Bool.{Bool, true, false}
use mathlib.Core.Logic.{◌⊎◌, inl, inr}

pub data Result (E A : Type 0) : Type 0 where
  err : E → Result E A
  ok : A → Result E A

abbrev pub is_ok : {E A : Type 0} → Result E A → Bool
is_ok (err _) = false
is_ok (ok _) = true

module _ {E B : Type 0} where
  infixl 5 ◌>>=◌ ◌>>◌
  -- What follows a statement runs on its value, if it has one.
  abbrev pub ◌>>=◌ : {A : Type 0} → Result E A → (A → Result E B) → Result E B
  result >>= next = elim result [ err e ↦ err e | ok value ↦ next value ]

  abbrev pub ◌>>◌ : Result E (Unit {0}) → Result E B → Result E B
  check >> next = check >>= λ _. next

-- An early return of an error where the test holds.
abbrev pub fail_if : {E : Type 0} → Bool → E → Result E (Unit {0})
fail_if true e = err e
fail_if false e = ok tt

-- Inversion of a bind that succeeded, and of a check that was passed.
pub >>=-eq-ok :
    {E A B : Type 0} (first : Result E A) (next : A → Result E B) {b : B}
    → (first >>= next) ≡ ok b
    → (value : A) × (first ≡ ok value) × (next value ≡ ok b)
>>=-eq-ok (err e) next done = cc
>>=-eq-ok (ok value) next done = (value, refl, done)

pub fail_if-eq-ok :
    {E B : Type 0} (t : Bool) (e : E) (k : Result E B) {b : B}
    → (fail_if t e >> k) ≡ ok b
    → (t ≡ false) × (k ≡ ok b)
fail_if-eq-ok true e k h = cc
fail_if-eq-ok false e k h = (refl, h)

pub ok-injective : {E A : Type 0} {a b : A} → ◌≡◌ {A = Result E A} (ok a) (ok b) → a ≡ b
ok-injective h = cc

-- Inversion of a value that is returned where it is valid.
pub checked-eq-ok :
    {E A : Type 0} (t : Bool) (a : A) (e : E) {b : A}
    → (if t then ok a else err e) ≡ ok b
    → (t ≡ true) × (a ≡ b)
checked-eq-ok true a e h = (refl, ok-injective h)
checked-eq-ok false a e h = cc

-- To split on a computed result and keep the equation.
Result-cases : {E A : Type 0} (r : Result E A) → ((e : E) × (r ≡ err e)) ⊎ ((a : A) × (r ≡ ok a))
Result-cases (err e) = inl (e, refl)
Result-cases (ok a) = inr (a, refl)
