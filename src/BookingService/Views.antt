-- ===== src/BookingService/Views.antt =====
-- service.go: the reads that are guarded: one booking, its arrival information, the calendar.
use airbnb.Common.{
  ltb, ◌==◌, if◌then◌else◌, ℤ, Float64, Time, Text, validation, forbidden, not_found, Result, ok,
  ◌>>=◌, ◌>>◌, fail_if, ℕ, not, Option, none, some, List, ◌++◌, map,
}
use airbnb.Booking.Dates.{new_date_range, nights}
use airbnb.Booking.Reservation.{Status, Booking}
use airbnb.Coupon.{normalize_code, discount_for}
use airbnb.Listing.{ArrivalInfo, is_configured, arrival_visible_at}
use airbnb.Listing.Edit.{is_owned_by}
use airbnb.BookingService.Tables.{
  Block, World, find_booking, list_active_in_range, list_blocks_in_range, find_property,
}
use airbnb.BookingService.Nightly.{nightly_subtotal, coupon_by_code}
use airbnb.BookingService.Manage.{is_cancelled}

-- An occupied window; `none` stands for the status "blocked".
pub record BookedRange : Type 0 where
  pub check_in : Time
  pub check_out : Time
  pub status : Option Status

abbrev pub booked_range : Booking → BookedRange
booked_range b = record {
  check_in = b.dates.check_in;
  check_out = b.dates.check_out;
  status = some b.status;
}

abbrev pub blocked_range : Block → BookedRange
blocked_range b = record {
  check_in = b.dates.check_in;
  check_out = b.dates.check_out;
  status = none;
}

pub record CouponPreview : Type 0 where
  pub code : Text
  pub discount_cents : ℤ
  pub currency : Text

module _ (f : Float64) where
  -- `GetByID`
  unfoldable pub get_by_id : ℕ → ℕ → World f → Result Booking
  get_by_id actor_id booking_id w = do
    b ← find_booking booking_id w.bookings
    let as_host = (do
      prop ← find_property f b.property_id w.properties
      fail_if (not (is_owned_by f actor_id prop)) forbidden
      ok b)
    (if b.guest_id == actor_id then ok b else as_host)

  -- `ArrivalForBooking`
  unfoldable pub arrival_for_booking : ℕ → ℕ → Time → World f → Result ArrivalInfo
  arrival_for_booking actor_id booking_id now w = do
    b ← find_booking booking_id w.bookings
    fail_if (not (b.guest_id == actor_id)) forbidden
    fail_if (is_cancelled b.status) forbidden
    fail_if (not (arrival_visible_at now b.dates.check_in b.dates.check_out)) forbidden
    prop ← find_property f b.property_id w.properties
    fail_if (not (is_configured prop.arrival)) not_found
    ok prop.arrival

  -- `Availability`
  unfoldable pub availability : ℕ → Time → Time → World f → Result (List BookedRange)
  availability property_id from to w = do
    fail_if (not (ltb from to)) (validation "'to' must be after 'from'")
    prop ← find_property f property_id w.properties
    ok (
        map booked_range (list_active_in_range property_id from to w.bookings)
        ++ map blocked_range (list_blocks_in_range property_id from to w.blocks))

  -- `PreviewCoupon`
  unfoldable pub preview_coupon : ℕ → Text → Time → Time → Time → World f → Result CouponPreview
  preview_coupon property_id code check_in check_out now w = do
    prop ← find_property f property_id w.properties
    dates ← new_date_range check_in check_out now
    c ← coupon_by_code f w (normalize_code code)
    subtotal ← nightly_subtotal f w prop dates (ℤ.pos 0)
    cents ← discount_for f subtotal.amount_cents subtotal.currency (nights dates) now c
    ok (record { code = c.code; discount_cents = cents; currency = subtotal.currency })
