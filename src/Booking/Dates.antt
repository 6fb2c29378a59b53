-- ===== src/Booking/Dates.antt =====
-- booking.go: the value object `DateRange`, a half-open window of days.
pub mod Laws
use airbnb.Common.{
  ltb, leb, if◌then◌else◌, ℤ, pos, ◌-ℤ◌, Time, day, truncate_day, validation, Result, ok, err, ℕ,
  zero, ◌-◌, ◌/◌, min, Bool, not, ◌&&◌,
}

pub record DateRange : Type 0 where
  pub check_in : Time
  pub check_out : Time

-- `time.Duration` saturates at the largest `int64` of nanoseconds.
unfoldable pub sub_time : Time → Time → ℕ
sub_time later earlier = min (later - earlier) 9223372036854775807

abbrev pub max_stay_nights : ℕ
max_stay_nights = 365

-- `NewDateRange`
unfoldable pub new_date_range : Time → Time → Time → Result DateRange
unfolding sub_time
new_date_range check_in check_out now =
    let ci = truncate_day check_in in
    let co = truncate_day check_out in
    if not (ltb ci co)
    then err (validation "check-out must be after check-in")
    else if ltb ci (truncate_day now)
    then err (validation "check-in cannot be in the past")
    else if ltb max_stay_nights (sub_time co ci / day)
    then err (validation "a stay may not exceed 365 nights")
    else ok (record { check_in = ci; check_out = co })

-- `Nights`: whole days, towards zero, also where the check-out lies before the check-in.
unfoldable pub nights : DateRange → ℤ
unfolding sub_time
nights d =
    if leb d.check_in d.check_out
    then pos (sub_time d.check_out d.check_in / day)
    else pos 0 -ℤ pos (sub_time d.check_in d.check_out / day)

unfoldable pub overlaps : DateRange → DateRange → Bool
overlaps d other = ltb d.check_in other.check_out && ltb other.check_in d.check_out
