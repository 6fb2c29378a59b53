-- ===== src/Booking/Pricing/Bounds.antt =====
-- pricing.go: the figures of a breakdown for amounts that an `int64` and a `float64` hold with
-- room to spare: none of them overflows.
use airbnb.Common.{
  length, ℤ, pos, ◌+ℤ◌, ◌-ℤ◌, ◌≤ℤ◌, floor_zero, Text, Float64, IsFraction, ok, ◌≡◌, arith,
  if◌then◌else◌, Bool-cases, ltb_ℤ, leb_ℤ, +ℤ_parts, -ℤ_parts, int_laws, floor_zero_bounds, Fits,
  add64, add64_exact, sub64_exact, round_share, round_share_bounds, inl, inr, ◌&&◌,
}
use airbnb.Shared.{new_money}
use airbnb.Booking.Pricing.{
  Discounts, discount_pct_for_nights, discount_cents, base_cents, total_cents,
}

-- An amount between nothing and 2 ^ 50 cents.
abbrev pub Moderate : ℤ → Type 0
Moderate a = (pos 0 ≤ℤ a) × (a ≤ℤ pos 1125899906842624)

-- What a listing may ask for: rates in [0, 1] and moderate amounts.
pub record IsOffered {f : Float64} (d : Discounts f) : Type 0 where
  pub weekly : IsFraction f d.weekly_pct
  pub monthly : IsFraction f d.monthly_pct
  pub taxed : IsFraction f d.tax_pct
  pub coupon : d.coupon_cents ≤ℤ pos 1125899906842624
  pub extra : d.extra_guest_fee_cents ≤ℤ pos 1125899906842624
  pub deposit : d.security_deposit_cents ≤ℤ pos 1125899906842624
  pub local_tax : d.jurisdiction_tax_cents ≤ℤ pos 1125899906842624

pub new_money_accepts :
    (a : ℤ) (c : Text)
    → pos 0 ≤ℤ a
    → length c ≡ 3
    → new_money a c ≡ ok (record { amount_cents = a; currency = c })
unfolding new_money
new_money_accepts a c h k = ground arith

wide-Fits :
    (a b : ℤ)
    → (pos 0 ≤ℤ a) × (a ≤ℤ pos 36028797018963968)
    → (pos 0 ≤ℤ b) × (b ≤ℤ pos 36028797018963968)
    → Fits (a +ℤ b)
wide-Fits a b h k = ground (arith, +ℤ_parts a b)

-- Sums of up to eight amounts below 2 ^ 50 stay within an `int64`.
sum-Fits :
    (a b : ℤ)
    → (pos 0 ≤ℤ a) × (a ≤ℤ pos 9007199254740992)
    → (pos 0 ≤ℤ b) × (b ≤ℤ pos 9007199254740992)
    → Fits (a +ℤ b)
sum-Fits a b h k = ground (arith, +ℤ_parts a b)

module _ (f : Float64) where
  pct-IsFraction :
      (d : Discounts f) (nights : ℤ)
      → IsOffered d
      → IsFraction f (discount_pct_for_nights f d nights)
  unfolding discount_pct_for_nights
  pct-IsFraction d nights o =
      elim (Bool-cases (leb_ℤ (pos 28) nights && f.below (f.of_int (pos 0)) d.monthly_pct)) [
        | inl month ↦ rw month o.monthly
        | inr short ↦
            elim (Bool-cases (leb_ℤ (pos 7) nights && f.below (f.of_int (pos 0)) d.weekly_pct)) [
              | inl week ↦ rw (short, week) o.weekly
              | inr shorter ↦
                  rw (short, shorter)
                    (
                      f.of_int_mono (pos 0) (pos 0) (omega arith),
                      f.of_int_mono (pos 0) (pos 1) (omega arith),
                    )
            ]
      ]

  capped_bounds :
      (s los coupon : ℤ)
      → Moderate s
      → (pos 0 ≤ℤ los) × (los ≤ℤ s)
      → Moderate coupon
      → let both = add64 los coupon in
        let capped = if ltb_ℤ s both then s else both in (pos 0 ≤ℤ capped) × (capped ≤ℤ s)
  capped_bounds s los coupon m l c = ground (
    arith,
    add64_exact los coupon (sum-Fits los coupon (l.0, omega arith) (c.0, omega arith)),
    +ℤ_parts los coupon,
  )

  pub discount_bounds :
      (s nights : ℤ) (d : Discounts f)
      → Moderate s
      → IsOffered d
      → (pos 0 ≤ℤ discount_cents f s nights d) × (discount_cents f s nights d ≤ℤ s)
  unfolding discount_cents
  discount_bounds s nights d m o =
      let los = round_share f s (discount_pct_for_nights f d nights) in
      let coupon = floor_zero d.coupon_cents in
      let coupon_bounds = floor_zero_bounds d.coupon_cents 1125899906842624 o.coupon in
      let los_bounds =
        round_share_bounds f s m.0 (omega arith) (discount_pct_for_nights f d nights)
          (pct-IsFraction d nights o) in
      capped_bounds s los coupon m los_bounds coupon_bounds

  pub base_exact :
      (s c nights : ℤ) (d : Discounts f)
      → Moderate s
      → Moderate c
      → IsOffered d
      → base_cents f s c nights d
        ≡ s -ℤ discount_cents f s nights d +ℤ c +ℤ floor_zero d.extra_guest_fee_cents
  unfolding base_cents
  base_exact s c nights d m k o =
      let discount = discount_cents f s nights d in
      let extra = floor_zero d.extra_guest_fee_cents in
      let (low, high) = discount_bounds s nights d m o in
      let extra_bounds = floor_zero_bounds d.extra_guest_fee_cents 1125899906842624 o.extra in
      let net = sub64_exact s discount (ground (arith, -ℤ_parts s discount)) in
      let cleaned =
        add64_exact (s -ℤ discount) c (sum-Fits (s -ℤ discount) c (omega int_laws) (omega arith)) in
      let added =
        add64_exact (s -ℤ discount +ℤ c) extra
          (sum-Fits (s -ℤ discount +ℤ c) extra (omega int_laws) (omega arith)) in
      rw (net, cleaned, added)

module _ (f : Float64) (s c nights : ℤ) (rate : f.Carrier) (d : Discounts f) where
  -- The five lines above the base, in the order in which they are added.
  module _ (base : ℤ) (b : (pos 0 ≤ℤ base) × (base ≤ℤ pos 4503599627370496)) where
    pub total_exact :
        IsFraction f rate
        → IsOffered d
        → total_cents f base rate d
          ≡ base
            +ℤ round_share f base rate
            +ℤ round_share f base d.tax_pct
            +ℤ floor_zero d.jurisdiction_tax_cents
            +ℤ floor_zero d.security_deposit_cents
    unfolding total_cents
    total_exact r o =
        let service = round_share f base rate in
        let tax = round_share f base d.tax_pct in
        let local = floor_zero d.jurisdiction_tax_cents in
        let deposit = floor_zero d.security_deposit_cents in
        let (s0, s1) = round_share_bounds f base b.0 (omega arith) rate r in
        let (t0, t1) = round_share_bounds f base b.0 (omega arith) d.tax_pct o.taxed in
        let (l0, l1) = floor_zero_bounds d.jurisdiction_tax_cents 1125899906842624 o.local_tax in
        let (d0, d1) = floor_zero_bounds d.security_deposit_cents 1125899906842624 o.deposit in
        let first = add64_exact base service (wide-Fits base service (omega arith) (omega arith)) in
        let second =
          add64_exact (base +ℤ service) tax
            (wide-Fits (base +ℤ service) tax (omega int_laws) (omega arith)) in
        let third =
          add64_exact (base +ℤ service +ℤ tax) local
            (wide-Fits (base +ℤ service +ℤ tax) local (omega int_laws) (omega arith)) in
        let fourth =
          add64_exact (base +ℤ service +ℤ tax +ℤ local) deposit
            (wide-Fits (base +ℤ service +ℤ tax +ℤ local) deposit (omega int_laws) (omega arith)) in
        rw (first, second, third, fourth)

  abbrev base : ℤ
  base = base_cents f s c nights d

  pub base_bounds :
      Moderate s → Moderate c → IsOffered d → (pos 0 ≤ℤ base) × (base ≤ℤ pos 4503599627370496)
  base_bounds m k o =
      let (low, high) = discount_bounds f s nights d m o in
      let (e0, e1) = floor_zero_bounds d.extra_guest_fee_cents 1125899906842624 o.extra in
      rw (base_exact f s c nights d m k o) (omega int_laws)
