-- ===== src/BookingService/Nights.antt =====
-- service.go: the subtotal is the sum of the prices of the nights, one for each night of the stay.
use airbnb.Common.{
  ltb, ltb_ℤ, ℤ, pos, ◌+ℤ◌, ◌≤ℤ◌, +ℤ_zero, +ℤ_comm, +ℤ_assoc, add64, wrap64, wrap64-add,
  wrap64_exact, Float64, Time, ok, ℕ, zero, suc, ◌+◌, ◌*◌, ◌≤◌, ◌<◌, ◌≡◌, sym, ap, ◌∙◌, true, false,
  List, arith,
}
use airbnb.Shared.{new_money}
use airbnb.Booking.Dates.{DateRange, new_date_range, nights}
use airbnb.Booking.Dates.Laws.{new_date_range-IsStay}
use airbnb.Listing.{Property}
use airbnb.BookingService.Tables.{Rule, World, list_overlapping}
use airbnb.BookingService.Nightly.{price_for_day, sum_nights, rounds_between, nightly_subtotal}

module _ (rules : List Rule) (base_cents weekend_cents : ℤ) where
  -- The prices of so many nights from a day on, as an integer.
  unfoldable pub stay_price : ℕ → Time → ℤ
  stay_price zero day = pos 0
  stay_price (suc n) day =
      price_for_day day rules base_cents weekend_cents +ℤ stay_price n (day + 86400000000000)

  sum_nights-stay_price :
      (rounds n : ℕ) (day : Time) (sum total : ℤ)
      → n ≤ rounds
      → total ≡ wrap64 sum
      → sum_nights rounds day (day + n * 86400000000000) rules base_cents weekend_cents total
        ≡ wrap64 (sum +ℤ stay_price n day)
  unfolding sum_nights stay_price add64
  sum_nights-stay_price zero zero day sum total h e = e ∙ ap wrap64 (sym (+ℤ_zero sum))
  sum_nights-stay_price zero (suc n) day sum total h e = absurd (omega arith)
  sum_nights-stay_price (suc rounds) zero day sum total h e =
      let over : ltb day (day + 0 * 86400000000000) ≡ false = ground arith in
      rw over (e ∙ ap wrap64 (sym (+ℤ_zero sum)))
  sum_nights-stay_price (suc rounds) (suc n) day sum total h e =
      let more : ltb day (day + suc n * 86400000000000) ≡ true = ground arith in
      let p = price_for_day day rules base_cents weekend_cents in
      let same : day + suc n * 86400000000000 ≡ day + 86400000000000 + n * 86400000000000 =
        omega arith in
      let next : add64 total p ≡ wrap64 (sum +ℤ p) =
        ap (λ (t : ℤ). add64 t p) e ∙ wrap64-add sum p in
      rw (more, same)
        (sum_nights-stay_price rounds n (day + 86400000000000) (sum +ℤ p) (add64 total p)
            (omega arith) next
          ∙ ap wrap64 (+ℤ_assoc sum p (stay_price n (day + 86400000000000))))

module _ (f : Float64) where
  -- For every accepted range of dates and no special offer: as many rounds as `Nights` counts
  -- bring the loop to check-out or beyond, where its test fails, while a round is still left, so
  -- that it ends by its test and not for want of rounds; and the subtotal is the sum of the prices
  -- of exactly these nights, from check-in on, wrapped to an `int64`.
  pub nightly_subtotal_sums :
      (w : World f) (prop : Property f) (check_in check_out now : Time) (override_cents : ℤ)
      {dates : DateRange}
      → new_date_range check_in check_out now ≡ ok dates
      → override_cents ≤ℤ pos 0
      → (n : ℕ) × (nights dates ≡ pos n)
        × (n < rounds_between dates.check_in dates.check_out)
        × (ltb (dates.check_in + n * 86400000000000) dates.check_out ≡ false)
        × (nightly_subtotal f w prop dates override_cents
            ≡ new_money
                (wrap64 (
                  stay_price
                    (list_overlapping prop.id dates.check_in dates.check_out w.price_rules)
                    prop.price_per_night.amount_cents
                    prop.pricing_policy.weekend_price_cents
                    n
                    dates.check_in))
                prop.price_per_night.currency)
  unfolding nightly_subtotal
  nightly_subtotal_sums w prop check_in check_out now override_cents {dates} ranged none_offered =
      let (stay, (n, count, length_is)) = new_date_range-IsStay check_in check_out now ranged in
      let rules = list_overlapping prop.id dates.check_in dates.check_out w.price_rules in
      let base = prop.price_per_night.amount_cents in
      let weekend = prop.pricing_policy.weekend_price_cents in
      let rounds = rounds_between dates.check_in dates.check_out in
      let sum : sum_nights rounds dates.check_in (dates.check_in + n * 86400000000000) rules base
            weekend (pos 0)
          ≡ wrap64 (pos 0 +ℤ stay_price rules base weekend n dates.check_in) =
        sum_nights-stay_price rules base weekend rounds n dates.check_in (pos 0) (pos 0)
          (omega (arith, length_is)) (sym (wrap64_exact (pos 0) (omega arith))) in
      let whole : sum_nights rounds dates.check_in dates.check_out rules base weekend (pos 0)
          ≡ wrap64 (stay_price rules base weekend n dates.check_in) =
        ap (λ (t : Time). sum_nights rounds dates.check_in t rules base weekend (pos 0)) length_is
        ∙ sum
        ∙ ap wrap64 (
            +ℤ_comm (pos 0) (stay_price rules base weekend n dates.check_in)
            ∙ +ℤ_zero (stay_price rules base weekend n dates.check_in)) in
      let regular : ltb_ℤ (pos 0) override_cents ≡ false = ground arith in
      let left : n < rounds = omega (arith, length_is) in
      let test : ltb (dates.check_in + n * 86400000000000) dates.check_out ≡ false =
        ground (arith, length_is) in
      (
        n,
        count,
        left,
        test,
        rw regular (ap (λ (t : ℤ). new_money t prop.price_per_night.currency) whole),
      )
