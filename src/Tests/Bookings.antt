-- ===== src/Tests/Bookings.antt =====
-- domain/booking at a concrete stay of three nights.
use airbnb.Common.{
  ◌*ℤ◌, ◌-ℤ◌, ◌+ℤ◌, floor_zero, round_share, fixed, add64, sub64, mul64, wrap64, truncate_day, ℤ,
  pos, codes, IsFraction, Time, ok, ◌+◌, ◌*◌, ◌≤◌, ◌<◌, ◌≡◌, refl, ◌↔◌, List, [], ◌∷◌, arith,
}
use airbnb.Shared.{Money, new_money, mul}
use airbnb.Booking.Dates.{sub_time, DateRange, new_date_range, nights}
use airbnb.Booking.Dates.Laws.{new_date_range_iff}
use airbnb.Booking.Pricing.{
  Pricing, Discounts, discount_pct_for_nights, discount_cents, base_cents, total_cents,
  compute_pricing_from_subtotal, compute_pricing,
}
use airbnb.Booking.Pricing.Bounds.{IsOffered}
use airbnb.Booking.Pricing.Laws.{AddsUp, compute_pricing_from_subtotal-AddsUp}
use airbnb.Booking.Reservation.{pending, confirmed, Booking, new_booking_with_pricing, new_booking}
use airbnb.Booking.Reservation.Lifecycle.{
  Op, run, ◌⟶*◌, Stepwise, run_follows, IsBooked, run-IsBooked,
}

abbrev today : Time
today = 63900000000 * 1000000000

abbrev midnight : Time
midnight = 739583 * 86400000000000

abbrev asked_in : Time
asked_in = midnight + 10 * 86400000000000 + 5

abbrev asked_out : Time
asked_out = midnight + 13 * 86400000000000 + 7

abbrev stay : DateRange
stay = record {
  check_in = midnight + 10 * 86400000000000;
  check_out = midnight + 13 * 86400000000000;
}

stay_valid : new_date_range asked_in asked_out midnight ≡ ok stay
unfolding new_date_range sub_time truncate_day
stay_valid = refl

new_date_range_iff_example :
    ((d : DateRange) × (new_date_range asked_in asked_out midnight ≡ ok d)) ↔ (
      (truncate_day asked_in < truncate_day asked_out)
      × (truncate_day midnight ≤ truncate_day asked_in)
      × (truncate_day asked_out ≤ truncate_day asked_in + 365 * 86400000000000))
new_date_range_iff_example = new_date_range_iff asked_in asked_out midnight

abbrev next_stay : DateRange
next_stay = record {
  check_in = midnight + 13 * 86400000000000;
  check_out = midnight + 15 * 86400000000000;
}

abbrev eur : ℤ → Money
eur cents = record { amount_cents = cents; currency = codes "EUR" }

-- A weekly discount of 10 %, a tax of 6 %, a coupon of 500 cents, a deposit of 20000.
abbrev terms : Discounts fixed
unfolding fixed
terms = record {
  weekly_pct = 1000;
  monthly_pct = 2000;
  tax_pct = 600;
  coupon_cents = pos 500;
  extra_guest_fee_cents = pos 0;
  security_deposit_cents = pos 20000;
  jurisdiction_tax_lines = [];
  jurisdiction_tax_cents = pos 300;
}

abbrev rate : fixed.Carrier
unfolding fixed
rate = 1200

rate-IsFraction : IsFraction fixed rate
unfolding fixed
rate-IsFraction = (refl, refl)

terms-IsOffered : IsOffered terms
unfolding fixed
terms-IsOffered = record {
  weekly = (refl, refl);
  monthly = (refl, refl);
  taxed = (refl, refl);
  coupon = omega arith;
  extra = omega arith;
  deposit = omega arith;
  local_tax = omega arith;
}

compute_pricing_from_subtotal-AddsUp_example :
    (p : Pricing) × (compute_pricing_from_subtotal fixed
        (eur (pos 30000))
        (eur (pos 5000))
        (pos 3)
        rate
        terms
      ≡ ok p)
    × AddsUp p
    × (p.subtotal ≡ eur (pos 30000))
    × (p.cleaning_fee ≡ eur (pos 5000))
    × (p.nights ≡ pos 3)
compute_pricing_from_subtotal-AddsUp_example =
    compute_pricing_from_subtotal-AddsUp fixed (eur (pos 30000)) (eur (pos 5000)) (pos 3) rate terms
      (omega arith, omega arith) (omega arith, omega arith) rate-IsFraction terms-IsOffered refl
      refl (omega arith)

abbrev price : Pricing
price = record {
  nights = pos 3;
  subtotal = eur (pos 30000);
  discount = eur (pos 500);
  cleaning_fee = eur (pos 5000);
  extra_guest_fee = eur (pos 0);
  service_fee = eur (pos 4140);
  tax = eur (pos 2070);
  jurisdiction_tax_lines = [];
  jurisdiction_tax = eur (pos 300);
  security_deposit = eur (pos 20000);
  total = eur (pos 61010);
}

price_computed :
    compute_pricing_from_subtotal fixed (eur (pos 30000)) (eur (pos 5000)) (pos 3) rate terms
    ≡ ok price
unfolding compute_pricing_from_subtotal new_money discount_cents base_cents total_cents
    discount_pct_for_nights round_share floor_zero add64 sub64 wrap64 ◌+ℤ◌ ◌-ℤ◌ fixed
price_computed = refl

abbrev booking : Booking
booking = record {
  id = 1;
  property_id = 2;
  guest_id = 3;
  dates = stay;
  guests = pos 2;
  pricing = price;
  status = pending;
  created_at = midnight;
  updated_at = midnight;
}

booking_made :
    new_booking fixed 1 2 3 stay (pos 2) (eur (pos 10000)) (eur (pos 5000)) rate terms midnight
    ≡ ok booking
unfolding new_booking new_booking_with_pricing nights sub_time compute_pricing mul mul64 ◌*ℤ◌
    compute_pricing_from_subtotal new_money discount_cents base_cents total_cents
    discount_pct_for_nights round_share floor_zero add64 sub64 wrap64 ◌+ℤ◌ ◌-ℤ◌ fixed
booking_made = refl

abbrev calls : List (Op fixed)
calls =
    Op.rescheduling next_stay (pos 1) (eur (pos 10000)) (eur (pos 5000)) rate terms today
    ∷ Op.confirming today
    ∷ Op.cancelling today
    ∷ Op.completing today
    ∷ []

booking-IsBooked : IsBooked booking
unfolding nights sub_time
booking-IsBooked = ground arith

run-IsBooked_example : IsBooked (run fixed calls booking)
run-IsBooked_example = run-IsBooked fixed calls booking booking-IsBooked

run_follows_example :
    Stepwise fixed calls booking × (booking.status ⟶* (run fixed calls booking).status)
run_follows_example = run_follows fixed calls booking

abbrev accepted : Booking
accepted = record booking { status = confirmed }
