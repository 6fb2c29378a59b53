-- ===== src/Coupon.antt =====
-- The coupon context (backend/internal/domain/coupon): promotional codes and their redemption.
pub mod Code
pub mod Redemption
use airbnb.Common.{
  ltb, leb, ◌==◌, if◌then◌else◌, length, ℤ, pos, ltb_ℤ, leb_ℤ, floor_zero, add64, Text, codes,
  is_empty, trim_space, to_upper, equal_fold, Float64, round_share, Time, validation,
  validation_count, Result, ok, err, ◌>>=◌, ◌>>◌, fail_if, Method, done, refused, fixed, ℕ, Bool,
  true, false, not, ◌&&◌, ◌||◌, Option, none, some, [], ◌∷◌,
}

pub data Kind : Type 0 where
  percentage fixed_amount unknown : Kind

pub record Coupon (f : Float64) : Type 0 where
  pub id : ℕ
  pub code : Text
  pub kind : Kind
  pub percent : f.Carrier
  pub amount_cents : ℤ
  pub currency : Text
  pub min_nights : ℤ
  pub max_redemptions : ℤ
  pub redemptions : ℤ
  pub expires_at : Option Time
  pub active : Bool
  pub created_at : Time

unfoldable pub normalize_code : Text → Text
normalize_code code = to_upper (trim_space code)

abbrev pub is_code_byte : ℕ → Bool
is_code_byte r = (leb 65 r && leb r 90) || (leb 48 r && leb r 57) || r == 45 || r == 95

abbrev pub all_code_bytes : Text → Bool
all_code_bytes [] = true
all_code_bytes (r ∷ rest) = if not (is_code_byte r) then false else all_code_bytes rest

unfoldable pub validate_code : Text → Result Text
validate_code raw =
    let code = normalize_code raw in
    if ltb (length code) 3 || ltb 32 (length code)
    then err (validation "coupon code must be 3–32 characters")
    else if not (all_code_bytes code)
    then err (validation "coupon code may only contain letters, digits, '-' and '_'")
    else ok code

-- `expiresAt != nil && !expiresAt.After(now)`
abbrev pub not_after : Option Time → Time → Bool
not_after none now = false
not_after (some at) now = leb at now

module _ (f : Float64) where
  unfoldable pub new_coupon :
      ℕ → Text → Kind → f.Carrier → ℤ → Text → ℤ → ℤ → Option Time → Time → Result (Coupon f)
  new_coupon id code kind percent amount_cents currency min_nights max_redemptions expires_at now =
      do
        fail_if (ltb_ℤ min_nights (pos 0)) (validation "minimum nights cannot be negative")
        fail_if (ltb_ℤ max_redemptions (pos 0))
            (validation "maximum redemptions cannot be negative")
        fail_if (not_after expires_at now) (validation "expiry must be in the future")
        ok (record {
          id = id;
          code = code;
          kind = kind;
          percent = percent;
          amount_cents = amount_cents;
          currency = currency;
          min_nights = min_nights;
          max_redemptions = max_redemptions;
          redemptions = pos 0;
          expires_at = none;
          active = true;
          created_at = now;
        })

  unfoldable pub new_percentage :
      ℕ → Text → f.Carrier → ℤ → ℤ → Option Time → Time → Result (Coupon f)
  new_percentage id raw percent min_nights max_redemptions expires_at now = do
    code ← validate_code raw
    fail_if (f.upto percent (f.of_int (pos 0)) || f.below (f.of_int (pos 1)) percent)
        (validation "percentage must be between 0 and 1")
    new_coupon id code percentage percent (pos 0) [] min_nights max_redemptions expires_at now

  unfoldable pub new_fixed : ℕ → Text → ℤ → Text → ℤ → ℤ → Option Time → Time → Result (Coupon f)
  new_fixed id raw amount_cents currency min_nights max_redemptions expires_at now = do
    code ← validate_code raw
    fail_if (leb_ℤ amount_cents (pos 0)) (validation "fixed amount must be positive")
    fail_if (is_empty (trim_space currency))
        (validation "a currency is required for a fixed coupon")
    new_coupon id code fixed_amount (f.of_int (pos 0)) amount_cents (to_upper (trim_space currency))
        min_nights max_redemptions expires_at now

  unfoldable pub redeemable : Time → Coupon f → Result (Unit {0})
  redeemable now c = do
    fail_if (not c.active) (validation "this coupon is no longer active")
    fail_if (not_after c.expires_at now) (validation "this coupon has expired")
    fail_if (ltb_ℤ (pos 0) c.max_redemptions && leb_ℤ c.max_redemptions c.redemptions)
        (validation "this coupon has reached its redemption limit")

  -- The `switch` of `DiscountFor`.
  unfoldable pub face_value : Kind → ℤ → Text → Coupon f → Result ℤ
  face_value percentage subtotal currency c = ok (round_share f subtotal c.percent)
  face_value fixed_amount subtotal currency c =
      if not (equal_fold c.currency currency)
      then err (validation "this coupon cannot be used in this currency")
      else ok c.amount_cents
  face_value unknown subtotal currency c = err (validation "unknown coupon type")

  unfoldable pub discount_for : ℤ → Text → ℤ → Time → Coupon f → Result ℤ
  unfolding face_value
  discount_for subtotal_cents currency nights now c = do
    redeemable now c
    fail_if (ltb_ℤ nights c.min_nights)
        (validation_count "this coupon requires a stay of at least" c.min_nights "nights")
    cents ← face_value c.kind subtotal_cents currency c
    ok (floor_zero (if ltb_ℤ subtotal_cents cents then subtotal_cents else cents))

  unfoldable pub redeem : Time → Coupon f → Method (Coupon f) (Unit {0})
  redeem now c = elim (redeemable now c) [
    | ok _ ↦ done (record c { redemptions = add64 c.redemptions (pos 1) })
    | err e ↦ refused c e
  ]

  unfoldable pub deactivate : Coupon f → Coupon f
  deactivate c = record c { active = false }
