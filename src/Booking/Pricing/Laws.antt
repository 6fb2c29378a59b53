-- ===== src/Booking/Pricing/Laws.antt =====
-- pricing.go: for moderate amounts the breakdown is returned and adds up; and what holds of every
-- breakdown that is returned.
use airbnb.Common.{
  length, ℤ, pos, ◌+ℤ◌, ◌-ℤ◌, ◌≤ℤ◌, floor_zero, Float64, IsFraction, ok, ◌≡◌, arith, int_laws,
  floor_zero_bounds, round_share, round_share_bounds, refl, text_eq_refl, ap, ◌∙◌, ≤ℤ_right,
}
use airbnb.Shared.{new_money, Money}
use airbnb.Booking.Pricing.{
  Pricing, Discounts, discount_cents, base_cents, total_cents, compute_pricing_from_subtotal,
}
use airbnb.Booking.Pricing.Bounds.{
  Moderate, IsOffered, new_money_accepts, discount_bounds, base_exact, total_exact, base_bounds,
}

-- The lines of a breakdown: each is a share of what it is charged on, all are in one currency,
-- and the total is their sum.
pub record AddsUp (p : Pricing) : Type 0 where
  pub discounted :
      (pos 0 ≤ℤ p.discount.amount_cents) × (p.discount.amount_cents ≤ℤ p.subtotal.amount_cents)
  pub extra_low : pos 0 ≤ℤ p.extra_guest_fee.amount_cents
  pub service_low : pos 0 ≤ℤ p.service_fee.amount_cents
  pub service_high :
      p.service_fee.amount_cents
      ≤ℤ p.subtotal.amount_cents -ℤ p.discount.amount_cents +ℤ p.cleaning_fee.amount_cents
        +ℤ p.extra_guest_fee.amount_cents
  pub tax_low : pos 0 ≤ℤ p.tax.amount_cents
  pub local_low : pos 0 ≤ℤ p.jurisdiction_tax.amount_cents
  pub deposit_low : pos 0 ≤ℤ p.security_deposit.amount_cents
  pub sum :
      p.total.amount_cents
      ≡ p.subtotal.amount_cents -ℤ p.discount.amount_cents +ℤ p.cleaning_fee.amount_cents
        +ℤ p.extra_guest_fee.amount_cents +ℤ p.service_fee.amount_cents +ℤ p.tax.amount_cents
        +ℤ p.jurisdiction_tax.amount_cents +ℤ p.security_deposit.amount_cents
  pub one_currency :
      (p.discount.currency ≡ p.subtotal.currency)
      × (p.cleaning_fee.currency ≡ p.subtotal.currency)
      × (p.service_fee.currency ≡ p.subtotal.currency)
      × (p.total.currency ≡ p.subtotal.currency)

module _ (f : Float64) (subtotal cleaning : Money) (nights : ℤ) (rate : f.Carrier) where
  -- The breakdown with each figure as the code computes it.
  abbrev breakdown : Discounts f → Pricing
  breakdown d =
      let s = subtotal.amount_cents in
      let cur = subtotal.currency in
      let b = base_cents f s cleaning.amount_cents nights d in
      record {
        nights = nights;
        subtotal = subtotal;
        discount = record { amount_cents = discount_cents f s nights d; currency = cur };
        cleaning_fee = cleaning;
        extra_guest_fee = record {
          amount_cents = floor_zero d.extra_guest_fee_cents;
          currency = cur;
        };
        service_fee = record { amount_cents = round_share f b rate; currency = cur };
        tax = record { amount_cents = round_share f b d.tax_pct; currency = cur };
        jurisdiction_tax_lines = d.jurisdiction_tax_lines;
        jurisdiction_tax = record {
          amount_cents = floor_zero d.jurisdiction_tax_cents;
          currency = cur;
        };
        security_deposit = record {
          amount_cents = floor_zero d.security_deposit_cents;
          currency = cur;
        };
        total = record { amount_cents = total_cents f b rate d; currency = cur };
      }

  module _ (d : Discounts f) (r : IsFraction f rate) (o : IsOffered d) where
    module _ (m : Moderate subtotal.amount_cents) (k : Moderate cleaning.amount_cents) where
      abbrev base : ℤ
      base = base_cents f subtotal.amount_cents cleaning.amount_cents nights d

      -- The total, as the sum of the lines.
      summed :
          total_cents f base rate d
          ≡ base
            +ℤ round_share f base rate
            +ℤ round_share f base d.tax_pct
            +ℤ floor_zero d.jurisdiction_tax_cents
            +ℤ floor_zero d.security_deposit_cents
      summed =
          total_exact f subtotal.amount_cents cleaning.amount_cents nights rate d base
            (base_bounds f subtotal.amount_cents cleaning.amount_cents nights rate d m k o) r o

      -- What the lines above the base are at least, and the service fee at most.
      lines_low :
          (pos 0 ≤ℤ floor_zero d.extra_guest_fee_cents)
          × (pos 0 ≤ℤ floor_zero d.security_deposit_cents)
          × (pos 0 ≤ℤ floor_zero d.jurisdiction_tax_cents)
          × (pos 0 ≤ℤ round_share f base rate)
          × (pos 0 ≤ℤ round_share f base d.tax_pct)
          × (pos 0 ≤ℤ total_cents f base rate d)
          × (round_share f base rate ≤ℤ base)
      lines_low =
          let (b0, b1) =
            base_bounds f subtotal.amount_cents cleaning.amount_cents nights rate d m k o in
          let (e0, _) = floor_zero_bounds d.extra_guest_fee_cents 1125899906842624 o.extra in
          let (d0, _) = floor_zero_bounds d.security_deposit_cents 1125899906842624 o.deposit in
          let (l0, _) = floor_zero_bounds d.jurisdiction_tax_cents 1125899906842624 o.local_tax in
          let (s0, s1) = round_share_bounds f base b0 (omega arith) rate r in
          let (t0, _) = round_share_bounds f base b0 (omega arith) d.tax_pct o.taxed in
          (e0, d0, l0, s0, t0, rw summed (omega int_laws), s1)

      breakdown_returned :
          length subtotal.currency ≡ 3
          → cleaning.currency ≡ subtotal.currency
          → pos 1 ≤ℤ nights
          → compute_pricing_from_subtotal f subtotal cleaning nights rate d ≡ ok (breakdown d)
      unfolding compute_pricing_from_subtotal
      breakdown_returned three same some_night =
          let cur = subtotal.currency in
          let off = discount_bounds f subtotal.amount_cents nights d m o in
          let (e0, d0, l0, s0, t0, total_low, _) = lines_low in
          ground (
            arith,
            f.upto-below (f.of_int (pos 0)) rate r.0,
            text_eq_refl cur,
            new_money_accepts (discount_cents f subtotal.amount_cents nights d) cur off.0 three,
            new_money_accepts (floor_zero d.extra_guest_fee_cents) cur e0 three,
            new_money_accepts (floor_zero d.security_deposit_cents) cur d0 three,
            new_money_accepts (round_share f base rate) cur s0 three,
            new_money_accepts (round_share f base d.tax_pct) cur t0 three,
            new_money_accepts (floor_zero d.jurisdiction_tax_cents) cur l0 three,
            new_money_accepts (total_cents f base rate d) cur total_low three,
          )

      breakdown-AddsUp : cleaning.currency ≡ subtotal.currency → AddsUp (breakdown d)
      breakdown-AddsUp same =
          let s = subtotal.amount_cents in
          let (e0, d0, l0, s0, t0, _, s1) = lines_low in
          let exact = base_exact f s cleaning.amount_cents nights d m k o in
          record {
            discounted = discount_bounds f s nights d m o;
            extra_low = e0;
            service_low = s0;
            service_high =
                ≤ℤ_right (round_share f base rate) base
                  (s
                    -ℤ discount_cents f s nights d
                    +ℤ cleaning.amount_cents
                    +ℤ floor_zero d.extra_guest_fee_cents)
                  s1 exact;
            tax_low = t0;
            local_low = l0;
            deposit_low = d0;
            sum =
                summed
                ∙ ap
                    (λ (x : ℤ).
                      x
                      +ℤ round_share f base rate
                      +ℤ round_share f base d.tax_pct
                      +ℤ floor_zero d.jurisdiction_tax_cents
                      +ℤ floor_zero d.security_deposit_cents)
                    exact;
            one_currency = (refl, same, refl, refl);
          }

  -- For moderate amounts and rates in [0, 1], a three-letter currency, a cleaning fee in that
  -- currency and at least one night, a breakdown is returned: it keeps the subtotal, the cleaning
  -- fee and the nights, every line is within its bounds, and the total is the sum of the lines.
  pub compute_pricing_from_subtotal-AddsUp :
      (d : Discounts f)
      → Moderate subtotal.amount_cents
      → Moderate cleaning.amount_cents
      → IsFraction f rate
      → IsOffered d
      → length subtotal.currency ≡ 3
      → cleaning.currency ≡ subtotal.currency
      → pos 1 ≤ℤ nights
      → (p : Pricing) × (compute_pricing_from_subtotal f subtotal cleaning nights rate d ≡ ok p)
        × AddsUp p
        × (p.subtotal ≡ subtotal)
        × (p.cleaning_fee ≡ cleaning)
        × (p.nights ≡ nights)
  compute_pricing_from_subtotal-AddsUp d m k r o three same some_night = (
    breakdown d,
    breakdown_returned d r o m k three same some_night,
    breakdown-AddsUp d r o m k same,
    refl,
    refl,
    refl,
  )

-- What holds of every breakdown that is returned, whatever the rates and amounts.
pub record IsPriced (subtotal cleaning : Money) (nights : ℤ) (p : Pricing) : Type 0 where
  pub stays : pos 1 ≤ℤ p.nights
  pub nights_kept : p.nights ≡ nights
  pub subtotal_kept : p.subtotal ≡ subtotal
  pub cleaning_kept : p.cleaning_fee ≡ cleaning
  pub code : length p.total.currency ≡ 3
  pub currencies :
      (p.total.currency ≡ subtotal.currency)
      × (p.service_fee.currency ≡ subtotal.currency)
      × (p.discount.currency ≡ subtotal.currency)
  pub lows :
      (pos 0 ≤ℤ p.discount.amount_cents)
      × (pos 0 ≤ℤ p.service_fee.amount_cents)
      × (pos 0 ≤ℤ p.tax.amount_cents)
      × (pos 0 ≤ℤ p.total.amount_cents)

-- Also with overflow or NaN, a breakdown that is returned has at least one night, keeps the
-- subtotal and the cleaning fee, and shows no negative discount, fee, tax or total.
pub compute_pricing_from_subtotal-IsPriced :
    (f : Float64) (subtotal cleaning : Money) (nights : ℤ) (rate : f.Carrier) (d : Discounts f)
    → {p : Pricing} → compute_pricing_from_subtotal f subtotal cleaning nights rate d ≡ ok p
    → IsPriced subtotal cleaning nights p
unfolding compute_pricing_from_subtotal new_money
compute_pricing_from_subtotal-IsPriced f subtotal cleaning nights rate d h = ground arith
