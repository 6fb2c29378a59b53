-- ===== src/Tests/Coupons.antt =====
-- domain/coupon at a code of 10 % that may be used twice.
use airbnb.Common.{
  trim_space, to_upper, trim_left, upper_byte, is_space, floor_zero, round_share, fixed, length,
  pos, ◌≤ℤ◌, codes, ok, ◌≤◌, ◌<◌, ◌<ℤ◌, ◌↔◌, ◌⊎◌, ◌≡◌, refl, true, some, none, List, [], ◌∷◌, arith,
}
use airbnb.Coupon.{
  normalize_code, new_coupon, face_value, redeemable, percentage, Coupon, all_code_bytes,
  validate_code, new_percentage, discount_for, redeem,
}
use airbnb.Coupon.Code.{validate_code_idem}
use airbnb.Coupon.Redemption.{Op, discount_for_bounds, expiry_ignored, run}

abbrev coupon : Coupon fixed
unfolding fixed
coupon = record {
  id = 1;
  code = codes "SUN-10";
  kind = percentage;
  percent = 1000;
  amount_cents = pos 0;
  currency = [];
  min_nights = pos 2;
  max_redemptions = pos 2;
  redemptions = pos 0;
  expires_at = none;
  active = true;
  created_at = 5;
}

abbrev tenth : fixed.Carrier
unfolding fixed
tenth = 1000

code_valid : validate_code (codes " sun-10 ") ≡ ok (codes "SUN-10")
unfolding validate_code normalize_code trim_space trim_left to_upper upper_byte is_space
code_valid = refl

validate_code_idem_example :
    (3 ≤ length (codes "SUN-10"))
    × (length (codes "SUN-10") ≤ 32)
    × (all_code_bytes (codes "SUN-10") ≡ true)
    × (normalize_code (codes "SUN-10") ≡ codes "SUN-10")
    × (validate_code (codes "SUN-10") ≡ ok (codes "SUN-10"))
validate_code_idem_example = validate_code_idem (codes " sun-10 ") code_valid

coupon_issued :
    new_percentage fixed 1 (codes " sun-10 ") tenth (pos 2) (pos 2) (some 100) 5 ≡ ok coupon
unfolding new_percentage new_coupon validate_code normalize_code trim_space trim_left to_upper
    upper_byte is_space fixed
coupon_issued = refl

discount_granted : discount_for fixed (pos 30000) (codes "EUR") (pos 3) 6 coupon ≡ ok (pos 3000)
unfolding discount_for redeemable face_value round_share floor_zero fixed
discount_granted = refl

discount_for_bounds_example :
    (pos 0 ≤ℤ pos 3000)
    × (pos 3000 ≤ℤ pos 30000)
    × (coupon.min_nights ≤ℤ pos 3)
    × (coupon.active ≡ true)
discount_for_bounds_example =
    discount_for_bounds fixed (pos 30000) (codes "EUR") (pos 3) 6 coupon (omega arith)
      discount_granted

abbrev uses : List Op
uses = Op.redeeming 6 ∷ Op.redeeming 7 ∷ Op.redeeming 8 ∷ Op.deactivating ∷ []

-- The code above was issued to expire at 100.
expiry_ignored_example :
    let c' = run fixed uses coupon in
    (5 < 100)
    × ((redeem fixed 200 coupon).1 ≡ ok tt)
    × (((redeem fixed 200 c').1 ≡ ok tt)
        ↔ ((c'.active ≡ true) × ((pos 2 ≤ℤ pos 0) ⊎ (c'.redemptions <ℤ pos 2))))
expiry_ignored_example =
    expiry_ignored fixed 1 (codes " sun-10 ") tenth (pos 2) (pos 2) 100 5 200 uses coupon_issued
      (omega arith)
