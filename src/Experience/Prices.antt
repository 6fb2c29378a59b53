-- ===== src/Experience/Prices.antt =====
-- domain/experiencebooking/pricing.go: the price of a session.
use airbnb.Common.{
  negsuc, +ℤ_parts, length, ℤ, pos, ◌+ℤ◌, ◌*ℤ◌, ◌≤ℤ◌, add64, add64_exact, mul64, mul64_exact,
  Float64, IsFraction, trunc_share, trunc_share_bounds, Fits, ok, ◌≡◌, refl, arith, text_eq_refl,
}
use airbnb.Shared.{Money, mul, add}
use airbnb.Booking.Pricing.Bounds.{new_money_accepts}
use airbnb.Experience.Reservation.{Pricing, compute_pricing}

small-Fits : (a : ℤ) → pos 0 ≤ℤ a → a ≤ℤ pos 18014398509481984 → Fits a
small-Fits (pos n) low high = omega arith
small-Fits (negsuc n) low high = absurd (omega arith)

module _ (f : Float64) where
  -- The price of a head is not negative, in a currency of three letters; there is someone, the rate is
  -- a fraction, and the seats cost no more than a `float64` counts exactly.
  pub record IsQuotable (price : Money) (guests : ℤ) (rate : f.Carrier) : Type 0 where
    pub not_negative : pos 0 ≤ℤ price.amount_cents
    pub three_letters : length price.currency ≡ 3
    pub someone : pos 1 ≤ℤ guests
    pub fraction : IsFraction f rate
    pub seats_low : pos 0 ≤ℤ price.amount_cents *ℤ guests
    pub seats_high : price.amount_cents *ℤ guests ≤ℤ pos 9007199254740992

  module _ (price : Money) (guests : ℤ) (rate : f.Carrier) (q : IsQuotable price guests rate) where
    abbrev seats : ℤ
    seats = price.amount_cents *ℤ guests

    abbrev fee : ℤ
    fee = trunc_share f seats rate

    fee_bounds : (pos 0 ≤ℤ fee) × (fee ≤ℤ seats)
    fee_bounds = trunc_share_bounds f seats q.seats_low q.seats_high rate q.fraction

    seats_exact : mul64 price.amount_cents guests ≡ seats
    seats_exact =
        let low = q.seats_low in
        let high = q.seats_high in
        mul64_exact price.amount_cents guests (small-Fits seats low (omega arith))

    total_exact : add64 seats fee ≡ seats +ℤ fee
    total_exact =
        let low = q.seats_low in
        let high = q.seats_high in
        let (fee_low, fee_high) = fee_bounds in
        add64_exact seats fee (
          small-Fits (seats +ℤ fee) (omega (arith, +ℤ_parts seats fee))
            (omega (arith, +ℤ_parts seats fee)))

    abbrev breakdown : Pricing
    breakdown = record {
      price_per_guest = price;
      guests = guests;
      subtotal = record { amount_cents = seats; currency = price.currency };
      service_fee = record { amount_cents = fee; currency = price.currency };
      total = record { amount_cents = seats +ℤ fee; currency = price.currency };
    }

    breakdown_returned : compute_pricing f price guests rate ≡ ok breakdown
    unfolding compute_pricing mul add
    breakdown_returned =
        let cur = price.currency in
        let (fee_low, _) = fee_bounds in
        let someone = q.someone in
        let not_negative = q.not_negative in
        rw seats_exact (
          ground (
            arith,
            total_exact,
            text_eq_refl cur,
            new_money_accepts fee cur fee_low q.three_letters,
            f.upto-below (f.of_int (pos 0)) rate q.fraction.0,
            f.upto-below rate (f.of_int (pos 1)) q.fraction.1,
          ))

    -- For a price, a head count and a rate that can be quoted, the price is returned: the subtotal is
    -- that of the seats, the fee lies between nothing and the subtotal, the total is their sum, in the
    -- same currency.
    pub compute_pricing_sums :
        (p : Pricing) × (compute_pricing f price guests rate ≡ ok p)
        × (p.subtotal.amount_cents ≡ price.amount_cents *ℤ guests)
        × (pos 0 ≤ℤ p.service_fee.amount_cents)
        × (p.service_fee.amount_cents ≤ℤ p.subtotal.amount_cents)
        × (p.total.amount_cents ≡ p.subtotal.amount_cents +ℤ p.service_fee.amount_cents)
        × (p.total.currency ≡ price.currency)
    compute_pricing_sums =
        (breakdown, breakdown_returned, refl, fee_bounds.0, fee_bounds.1, refl, refl)
