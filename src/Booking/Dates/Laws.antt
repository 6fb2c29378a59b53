-- ===== src/Booking/Dates/Laws.antt =====
-- booking.go: what a validated date range promises, and what an overlap is.
use airbnb.Common.{
  leb, Bool-cases, pos, Time, truncate_day, ok, ℕ, ◌+◌, ◌*◌, ◌%◌, ◌≤◌, ◌<◌, ◌≡◌, ◌↔◌, inl, inr,
  true, arith, truncate_day_whole, ◌-◌, ◌/◌,
}
use airbnb.Booking.Dates.{DateRange, new_date_range, nights, overlaps}

-- A validated range consists of whole days, does not begin before today, and has 1 to 365 nights.
pub record IsStay (now : Time) (d : DateRange) : Type 0 where
  pub from_midnight : d.check_in % 86400000000000 ≡ 0
  pub to_midnight : d.check_out % 86400000000000 ≡ 0
  pub not_past : truncate_day now ≤ d.check_in
  pub few_nights : d.check_out ≤ d.check_in + 365 * 86400000000000
  pub some_nights : d.check_in + 86400000000000 ≤ d.check_out

-- Every range that `NewDateRange` accepts is made of whole days, starts today or later, and is 1
-- to 365 nights long; its `Nights` is that number of days.
pub new_date_range-IsStay :
    (check_in check_out now : Time) {d : DateRange}
    → new_date_range check_in check_out now ≡ ok d
    → IsStay now d
      × ((n : ℕ) × (nights d ≡ pos n) × (d.check_out ≡ d.check_in + n * 86400000000000))
unfolding new_date_range nights
new_date_range-IsStay check_in check_out now {d} h =
    let from = truncate_day_whole check_in in
    let to = truncate_day_whole check_out in
    let n : ℕ = (truncate_day check_out - truncate_day check_in) / 86400000000000 in
    (ground (arith, from, to), (n, ground (arith, from, to), ground (arith, from, to)))

-- `NewDateRange` accepts exactly the windows whose days are in order, not past, and at most 365.
pub new_date_range_iff :
    (check_in check_out now : Time)
    → ((d : DateRange) × (new_date_range check_in check_out now ≡ ok d)) ↔ (
        (truncate_day check_in < truncate_day check_out)
        × (truncate_day now ≤ truncate_day check_in)
        × (truncate_day check_out ≤ truncate_day check_in + 365 * 86400000000000))
unfolding new_date_range
new_date_range_iff check_in check_out now = (
  λ h. ground (arith, truncate_day_whole check_in, truncate_day_whole check_out, h.1),
  λ h. (
    record { check_in = truncate_day check_in; check_out = truncate_day check_out },
    ground arith,
  ),
)

-- An instant lies in the half-open window.
abbrev pub Within : Time → DateRange → Type 0
Within t d = (d.check_in ≤ t) × (t < d.check_out)

-- Two windows that are not empty overlap exactly if some instant lies in both.
pub overlaps_iff :
    (d other : DateRange)
    → d.check_in < d.check_out
    → other.check_in < other.check_out
    → (overlaps d other ≡ true) ↔ ((t : Time) × Within t d × Within t other)
unfolding overlaps
overlaps_iff d other h k = (
  λ o. elim (Bool-cases (leb d.check_in other.check_in)) [
    | inl first ↦ (other.check_in, ground arith, ground arith)
    | inr second ↦ (d.check_in, ground arith, ground arith)
  ],
  λ (t, a, b). ground arith,
)
