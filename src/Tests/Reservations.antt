-- ===== src/Tests/Reservations.antt =====
-- The booking service at one listing: two guests ask for overlapping nights.
use airbnb.Common.{
  fixed, ok, ◌≡◌, refl, List, [], ◌∷◌, arith, add64, sub64, mul64, wrap64, ◌+ℤ◌, ◌-ℤ◌, ◌*ℤ◌,
  floor_zero, round_share, truncate_day, trim_space, to_upper,
}
use airbnb.Shared.{new_money}
use airbnb.Booking.Dates.{new_date_range, nights, overlaps, sub_time}
use airbnb.Booking.Pricing.{
  compute_pricing_from_subtotal, discount_cents, discount_pct_for_nights, base_cents, total_cents,
}
use airbnb.Booking.Reservation.{
  is_active, new_booking_from_subtotal, new_booking_with_pricing, confirm,
}
use airbnb.Coupon.{normalize_code}
use airbnb.Listing.Edit.{can_be_booked_by}
use airbnb.BookingService.Tables.{has_overlap, is_blocked, find_property, list_overlapping}
use airbnb.BookingService.Nightly.{
  nightly_subtotal, sum_nights, price_for_day, check_stay, extra_guest_fee, resolve_coupon,
}
use airbnb.BookingService.Gates.{
  enforce_payout, run_tx, enforce_step_up, threshold_of, jurisdiction_tax,
}
use airbnb.BookingService.Create.{
  terms_of, tax_for, priced_booking, check_identity, check_rules, prepare, quote, check_split,
  settle_status, use_coupon, add_split, write_booking, finish, create,
}
use airbnb.BookingService.Requests.{Request, creating, cancelling, serve, run, FreshRun}
use airbnb.BookingService.Runs.{NoDoubleBooking, run-NoDoubleBooking}
use airbnb.BookingService.Quotes.{quote_of, quote-create}
use airbnb.BookingService.Log.{IsAnnounced}
use airbnb.BookingService.Confirmations.{run-IsAnnounced}
use airbnb.Tests.Setting.{midnight, flat, empty_world, ports, cfg, asked, ids, first_booking}

abbrev requests : List (Request fixed)
requests =
    creating ports cfg 1 ids midnight (asked 5 10 13)
    ∷ creating ports cfg 2 ids midnight (asked 6 12 14)
    ∷ cancelling ports midnight 5 1
    ∷ []

-- The first request makes the booking 1.
fresh : FreshRun fixed requests empty_world
unfolding serve create prepare find_property can_be_booked_by check_identity check_rules
    new_date_range sub_time truncate_day nights overlaps is_active has_overlap is_blocked
    nightly_subtotal sum_nights price_for_day list_overlapping new_money resolve_coupon
    normalize_code trim_space to_upper check_stay extra_guest_fee terms_of tax_for jurisdiction_tax
    priced_booking new_booking_from_subtotal new_booking_with_pricing compute_pricing_from_subtotal
    discount_cents discount_pct_for_nights base_cents total_cents floor_zero round_share fixed add64
    sub64 mul64 wrap64 ◌+ℤ◌ ◌-ℤ◌ ◌*ℤ◌ enforce_step_up threshold_of finish check_split settle_status
    enforce_payout confirm write_booking use_coupon add_split run_tx flat cfg
fresh = (tt, (((λ e. omega arith), tt), (tt, tt)))

run-NoDoubleBooking_example : NoDoubleBooking (run fixed requests empty_world).bookings
run-NoDoubleBooking_example = run-NoDoubleBooking fixed requests empty_world refl fresh

run-IsAnnounced_example :
    IsAnnounced fixed
      (run fixed requests empty_world).bookings
      (run fixed requests empty_world).outbox
run-IsAnnounced_example = run-IsAnnounced fixed requests empty_world refl refl fresh

first_made :
    (create fixed ports cfg 1 ids midnight (asked 5 10 13) empty_world).1 ≡ ok first_booking
unfolding create prepare find_property can_be_booked_by check_identity check_rules new_date_range
    sub_time truncate_day nights overlaps is_active has_overlap is_blocked nightly_subtotal
    sum_nights price_for_day list_overlapping new_money resolve_coupon normalize_code trim_space
    to_upper check_stay extra_guest_fee terms_of tax_for jurisdiction_tax priced_booking
    new_booking_from_subtotal new_booking_with_pricing compute_pricing_from_subtotal discount_cents
    discount_pct_for_nights base_cents total_cents floor_zero round_share fixed add64 sub64 mul64
    wrap64 ◌+ℤ◌ ◌-ℤ◌ ◌*ℤ◌ enforce_step_up threshold_of finish check_split settle_status
    enforce_payout confirm write_booking use_coupon add_split run_tx flat cfg
first_made = refl

quote-create_example :
    quote fixed ports cfg midnight (quote_of (asked 5 10 13)) empty_world ≡ ok first_booking.pricing
quote-create_example =
    quote-create fixed ports cfg 1 ids midnight (asked 5 10 13) empty_world first_made
