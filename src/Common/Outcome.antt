-- ===== src/Common/Outcome.antt =====
-- Errors as values (internal/domain/shared/errors.go) and the two shapes of a fallible call.
use Prim.Native.Nat.{ℕ}
use Prim.Native.String.{String}
use mathlib.Core.Path.{◌≡◌, refl}
use mathlib.Core.Logic.{◌⊎◌, inl, inr}
use mathlib.Core.Bool.{Bool, true, false}
use airbnb.Common.Int.{ℤ}
use airbnb.Common.Strings.{Text}

-- The errors that the domain returns.
pub data Error : Type 0 where
  validation : String → Error
  validation_of : String → Text → Error  -- a message that ends in a value
  validation_count : String → ℤ → String → Error  -- a message with a number in it
  not_found conflict forbidden : Error
  kyc_step_up : ℤ → Text → Error
  payout_onboarding_incomplete : ℕ → Error

-- The sentinels that callers compare against.
pub data Sentinel : Type 0 where
  err_not_found err_conflict err_validation err_forbidden : Sentinel
  err_kyc_step_up_required err_payout_onboarding_incomplete : Sentinel

-- `errors.Is`, by the `Is` methods.
unfoldable pub matches : Error → Sentinel → Bool
matches (validation _) err_validation = true
matches (validation_of _ _) err_validation = true
matches (validation_count _ _ _) err_validation = true
matches not_found err_not_found = true
matches conflict err_conflict = true
matches forbidden err_forbidden = true
matches (kyc_step_up _ _) err_kyc_step_up_required = true
matches (kyc_step_up _ _) err_validation = true
matches (payout_onboarding_incomplete _) err_payout_onboarding_incomplete = true
matches (payout_onboarding_incomplete _) err_conflict = true
matches _ _ = false

-- `(A, error)`: a value, or the error that stands in its place.
pub data Result {ℓ} (A : Type ℓ) : Type ℓ where
  err : Error → Result A
  ok : A → Result A

infixl 5 ◌>>=◌
abbrev pub ◌>>=◌ {ℓ κ} : {A : Type ℓ} {B : Type κ} → Result A → (A → Result B) → Result B
err failure >>= after = err failure
ok value >>= after = after value

-- A check whose only value is that it passed.
infixl 5 ◌>>◌
abbrev pub ◌>>◌ {ℓ} : {B : Type ℓ} → Result (Unit {0}) → Result B → Result B
err failure >> after = err failure
ok _ >> after = after

-- `if b { return err }`
abbrev pub fail_if : Bool → Error → Result (Unit {0})
fail_if true e = err e
fail_if false e = ok tt

-- A method on a pointer: the object after the call, and what the call returns.
abbrev pub Method : Type 0 → Type 0 → Type 0
Method S A = S × Result A

abbrev pub done : {S : Type 0} → S → Method S (Unit {0})
done s = (s, ok tt)

-- The object as a guard left it, with the guard's error.
abbrev pub refused : {S A : Type 0} → S → Error → Method S A
refused s e = (s, err e)

-- A method that is refused changes nothing.
abbrev pub Atomic : {S A : Type 0} → S → Method S A → Type 0
Atomic s (s', ok _) = Unit
Atomic s (s', err _) = s' ≡ s

pub Result-cases {ℓ} :
    {A : Type ℓ} (r : Result A) → ((a : A) × (r ≡ ok a)) ⊎ ((e : Error) × (r ≡ err e))
Result-cases (ok a) = inl (a, refl)
Result-cases (err e) = inr (e, refl)

-- To read off a block of steps that succeeded what its first step gave, and go on with the rest.
pub after-bind {ℓ κ ν} :
    {A : Type ℓ} {B : Type κ} {C : Type ν} (m : Result A) (after : A → Result B) {b : B}
    → (m >>= after) ≡ ok b
    → ((a : A) → m ≡ ok a → after a ≡ ok b → C)
    → C
after-bind (err e) after h next = cc
after-bind (ok a) after h next = next a refl h

pub after-then {ℓ ν} :
    {B : Type ℓ} {C : Type ν} (m : Result (Unit {0})) (after : Result B) {b : B}
    → (m >> after) ≡ ok b
    → (m ≡ ok tt → after ≡ ok b → C)
    → C
after-then (err e) after h next = cc
after-then (ok _) after h next = next refl h

pub after-check {ℓ ν} :
    {B : Type ℓ} {C : Type ν} (test : Bool) (e : Error) (after : Result B) {b : B}
    → (fail_if test e >> after) ≡ ok b
    → (test ≡ false → after ≡ ok b → C)
    → C
after-check true e after h next = cc
after-check false e after h next = next refl h

pub ok_inj {ℓ} : {A : Type ℓ} {a b : A} → ok a ≡ ok b → a ≡ b
ok_inj h = cc
