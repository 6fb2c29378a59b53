-- ===== src/Booking/Pricing.antt =====
-- pricing.go: the price breakdown of a stay, over any `Float64`.
pub mod Bounds
pub mod Laws
use airbnb.Common.{
  if◌then◌else◌, ℤ, pos, ltb_ℤ, leb_ℤ, floor_zero, add64, sub64, Text, text_eq, Float64,
  round_share, validation, Result, ok, err, fail_if, not, ◌&&◌, List, ◌>>=◌, ◌>>◌,
}
use airbnb.Shared.{Money, new_money, mul}

pub record TaxLine : Type 0 where
  pub name : Text
  pub line_cents : ℤ

pub record Pricing : Type 0 where
  pub nights : ℤ
  pub subtotal : Money
  pub discount : Money
  pub cleaning_fee : Money
  pub extra_guest_fee : Money
  pub service_fee : Money
  pub tax : Money
  pub jurisdiction_tax_lines : List TaxLine
  pub jurisdiction_tax : Money
  pub security_deposit : Money
  pub total : Money

pub record Discounts (f : Float64) : Type 0 where
  pub weekly_pct : f.Carrier
  pub monthly_pct : f.Carrier
  pub tax_pct : f.Carrier
  pub coupon_cents : ℤ
  pub extra_guest_fee_cents : ℤ
  pub security_deposit_cents : ℤ
  pub jurisdiction_tax_lines : List TaxLine
  pub jurisdiction_tax_cents : ℤ

module _ (f : Float64) where
  -- `discountPctForNights`
  unfoldable pub discount_pct_for_nights : Discounts f → ℤ → f.Carrier
  discount_pct_for_nights d nights =
      if leb_ℤ (pos 28) nights && f.below (f.of_int (pos 0)) d.monthly_pct
      then d.monthly_pct
      else if leb_ℤ (pos 7) nights && f.below (f.of_int (pos 0)) d.weekly_pct
      then d.weekly_pct
      else f.of_int (pos 0)

  -- The length-of-stay discount plus the promo code, capped at the subtotal.
  unfoldable pub discount_cents : ℤ → ℤ → Discounts f → ℤ
  discount_cents subtotal nights d =
      let los = round_share f subtotal (discount_pct_for_nights d nights) in
      let both = add64 los (floor_zero d.coupon_cents) in
      if ltb_ℤ subtotal both then subtotal else both

  -- The accommodation net of discount plus the two fees.
  unfoldable pub base_cents : ℤ → ℤ → ℤ → Discounts f → ℤ
  base_cents subtotal cleaning nights d =
      add64 (add64 (sub64 subtotal (discount_cents subtotal nights d)) cleaning)
        (floor_zero d.extra_guest_fee_cents)

  unfoldable pub total_cents : ℤ → f.Carrier → Discounts f → ℤ
  total_cents base rate d =
      add64
        (add64 (add64 (add64 base (round_share f base rate)) (round_share f base d.tax_pct))
          (floor_zero d.jurisdiction_tax_cents))
        (floor_zero d.security_deposit_cents)

  -- `ComputePricingFromSubtotal`
  unfoldable pub compute_pricing_from_subtotal :
      Money → Money → ℤ → f.Carrier → Discounts f → Result Pricing
  compute_pricing_from_subtotal subtotal cleaning_fee nights service_fee_rate d =
      let currency = subtotal.currency in
      let base = base_cents subtotal.amount_cents cleaning_fee.amount_cents nights d in
      do
        fail_if (ltb_ℤ nights (pos 1)) (validation "a stay must be at least one night")
        fail_if (f.below service_fee_rate (f.of_int (pos 0)))
            (validation "service fee rate cannot be negative")
        discount ← new_money (discount_cents subtotal.amount_cents nights d) currency
        fail_if (not (text_eq cleaning_fee.currency currency))
            (validation "cleaning fee must use the same currency as the nightly price")
        extra_guest_fee ← new_money (floor_zero d.extra_guest_fee_cents) currency
        deposit ← new_money (floor_zero d.security_deposit_cents) currency
        service_fee ← new_money (round_share f base service_fee_rate) currency
        tax ← new_money (round_share f base d.tax_pct) currency
        jurisdiction_tax ← new_money (floor_zero d.jurisdiction_tax_cents) currency
        total ← new_money (total_cents base service_fee_rate d) currency
        ok (record {
          nights = nights;
          subtotal = subtotal;
          discount = discount;
          cleaning_fee = cleaning_fee;
          extra_guest_fee = extra_guest_fee;
          service_fee = service_fee;
          tax = tax;
          jurisdiction_tax_lines = d.jurisdiction_tax_lines;
          jurisdiction_tax = jurisdiction_tax;
          security_deposit = deposit;
          total = total;
        })

  -- `ComputePricing`
  unfoldable pub compute_pricing : Money → Money → ℤ → f.Carrier → Discounts f → Result Pricing
  compute_pricing price_per_night cleaning_fee nights service_fee_rate d =
      if ltb_ℤ nights (pos 1)
      then err (validation "a stay must be at least one night")
      else compute_pricing_from_subtotal (mul price_per_night nights) cleaning_fee nights
          service_fee_rate d
