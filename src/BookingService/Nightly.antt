-- ===== src/BookingService/Nightly.antt =====
-- service.go: the nightly prices of a stay, and the other figures that go into its price.
use airbnb.Common.{
  ltb, ◌==◌, if◌then◌else◌, ℤ, pos, ltb_ℤ, leb_ℤ, add64, sub64, mul64, Text, is_empty, Float64,
  Time, err_not_found, matches, validation, validation_count, Result, ok, err, ◌>>=◌, ◌>>◌, fail_if,
  ℕ, zero, suc, ◌+◌, ◌-◌, ◌/◌, ◌%◌, Bool, ◌&&◌, ◌||◌, Option, none, some, List, [], ◌∷◌,
}
use airbnb.Shared.{Money, new_money}
use airbnb.Booking.Dates.{DateRange, nights}
use airbnb.Coupon.{Coupon, normalize_code, discount_for}
use airbnb.Listing.{Property}
use airbnb.BookingService.Tables.{Rule, applies_on, World, list_overlapping, find_by_code}

-- `day.Weekday()` is Friday or Saturday: the zero time was a Monday.
abbrev pub is_weekend : Time → Bool
is_weekend t = let w = t / 86400000000000 % 7 in w == 4 || w == 5

-- `priceForDay`
unfoldable pub price_for_day : Time → List Rule → ℤ → ℤ → ℤ
price_for_day day [] base_cents weekend_cents =
    if ltb_ℤ (pos 0) weekend_cents && is_weekend day then weekend_cents else base_cents
price_for_day day (r ∷ rules) base_cents weekend_cents =
    if applies_on day r then r.price_cents else price_for_day day rules base_cents weekend_cents

-- The loop of `nightlySubtotal`, with at most so many rounds.
unfoldable pub sum_nights : ℕ → Time → Time → List Rule → ℤ → ℤ → ℤ → ℤ
sum_nights zero day check_out rules base_cents weekend_cents total = total
sum_nights (suc rounds) day check_out rules base_cents weekend_cents total =
    let rest =
      sum_nights rounds (day + 86400000000000) check_out rules base_cents weekend_cents
        (add64 total (price_for_day day rules base_cents weekend_cents)) in
    if ltb day check_out then rest else total

-- A round for each day begun between the two times.
abbrev pub rounds_between : Time → Time → ℕ
rounds_between check_in check_out = (check_out - check_in) / 86400000000000 + 1

module _ (f : Float64) where
  unfoldable pub nightly_subtotal : World f → Property f → DateRange → ℤ → Result Money
  nightly_subtotal w prop dates override_cents =
      let currency = prop.price_per_night.currency in
      let rules = list_overlapping prop.id dates.check_in dates.check_out w.price_rules in
      if ltb_ℤ (pos 0) override_cents
      then new_money (mul64 override_cents (nights dates)) currency
      else new_money
          (sum_nights (rounds_between dates.check_in dates.check_out) dates.check_in dates.check_out
            rules prop.price_per_night.amount_cents prop.pricing_policy.weekend_price_cents (pos 0))
          currency

  -- The two tests of the listing's stay lengths.
  unfoldable pub check_stay : Property f → ℤ → Result (Unit {0})
  check_stay prop nights = do
    fail_if (ltb_ℤ (pos 0) prop.min_nights && ltb_ℤ nights prop.min_nights)
        (validation_count "this listing requires a stay of at least" prop.min_nights "nights")
    fail_if (ltb_ℤ (pos 0) prop.max_nights && ltb_ℤ prop.max_nights nights)
        (validation_count "this listing allows a stay of at most" prop.max_nights "nights")

  -- The fee for guests beyond those included, for the whole stay.
  unfoldable pub extra_guest_fee : Property f → ℤ → ℤ → ℤ
  extra_guest_fee prop guests nights =
      let included =
        if leb_ℤ prop.guests_included (pos 0) then prop.max_guests else prop.guests_included in
      let beyond = sub64 guests included in
      let extra = if ltb_ℤ beyond (pos 0) then pos 0 else beyond in
      mul64 (mul64 extra prop.extra_guest_fee.amount_cents) nights

  -- `couponByCode`: a missing code is a validation error.
  unfoldable pub coupon_by_code : World f → Text → Result (Coupon f)
  coupon_by_code w code = elim (find_by_code f code w.coupons) [
    | ok c ↦ ok c
    | err e ↦ if matches e err_not_found then err (validation "invalid coupon code") else err e
  ]

  -- The coupon of a request and its discount, if the request names a code.
  unfoldable pub resolve_coupon : World f → Text → Money → ℤ → Time → Result (ℤ × Option (Coupon f))
  resolve_coupon w raw subtotal nights now =
      let code = normalize_code raw in
      if is_empty code then ok (pos 0, none) else do
        c ← coupon_by_code w code
        cents ← discount_for f subtotal.amount_cents subtotal.currency nights now c
        ok (cents, some c)
