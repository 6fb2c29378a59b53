-- ===== src/Booking/Reservation.antt =====
-- booking.go: the aggregate `Booking`.
pub mod Lifecycle
use airbnb.Common.{
  ◌==◌, if◌then◌else◌, ℤ, pos, ltb_ℤ, Float64, Time, validation, Result, ok, err, ◌>>=◌, ◌>>◌,
  fail_if, Method, done, refused, ℕ, Bool, true, false, not, ◌||◌,
}
use airbnb.Shared.{Money}
use airbnb.Booking.Dates.{DateRange, nights}
use airbnb.Booking.Pricing.{Pricing, Discounts, compute_pricing, compute_pricing_from_subtotal}

pub data Status : Type 0 where
  pending confirmed cancelled completed : Status

pub record Booking : Type 0 where
  pub id : ℕ
  pub property_id : ℕ
  pub guest_id : ℕ
  pub dates : DateRange
  pub guests : ℤ
  pub pricing : Pricing
  pub status : Status
  pub created_at : Time
  pub updated_at : Time

abbrev pub is_pending : Status → Bool
is_pending pending = true
is_pending _ = false

abbrev pub is_confirmed : Status → Bool
is_confirmed confirmed = true
is_confirmed _ = false

-- `Status == StatusCompleted || Status == StatusCancelled`
abbrev pub is_over : Status → Bool
is_over completed = true
is_over cancelled = true
is_over _ = false

-- `TotalPrice`
unfoldable pub total_price : Booking → Money
total_price b = b.pricing.total

-- `newBookingWithPricing`
unfoldable pub new_booking_with_pricing : ℕ → ℕ → ℕ → DateRange → ℤ → Time → Pricing → Booking
new_booking_with_pricing id property_id guest_id dates guests now pricing = record {
  id = id;
  property_id = property_id;
  guest_id = guest_id;
  dates = dates;
  guests = guests;
  pricing = pricing;
  status = pending;
  created_at = now;
  updated_at = now;
}

-- `guardReschedule`
unfoldable pub guard_reschedule : ℤ → Booking → Result (Unit {0})
guard_reschedule guests b = do
  fail_if (not (is_pending b.status)) (validation "only a pending booking can be modified")
  fail_if (ltb_ℤ guests (pos 1)) (validation "at least one guest is required")

-- `applyReschedule`
unfoldable pub apply_reschedule : DateRange → ℤ → Time → Booking → Pricing → Booking
apply_reschedule dates guests now b pricing = record b {
  dates = dates;
  guests = guests;
  pricing = pricing;
  updated_at = now;
}

-- What a method does with the object once its value or its error is known.
abbrev pub commit : Booking → Result Booking → Method Booking (Unit {0})
commit b (ok b') = done b'
commit b (err e) = refused b e

module _ (f : Float64) where
  -- `NewBooking`
  unfoldable pub new_booking :
      ℕ → ℕ → ℕ → DateRange → ℤ → Money → Money → f.Carrier → Discounts f → Time → Result Booking
  new_booking id property_id guest_id dates guests price cleaning rate d now = do
    fail_if (ltb_ℤ guests (pos 1)) (validation "at least one guest is required")
    pricing ← compute_pricing f price cleaning (nights dates) rate d
    ok (new_booking_with_pricing id property_id guest_id dates guests now pricing)

  -- `NewBookingFromSubtotal`
  unfoldable pub new_booking_from_subtotal :
      ℕ → ℕ → ℕ → DateRange → ℤ → Money → Money → f.Carrier → Discounts f → Time → Result Booking
  new_booking_from_subtotal id property_id guest_id dates guests subtotal cleaning rate d now = do
    fail_if (ltb_ℤ guests (pos 1)) (validation "at least one guest is required")
    pricing ← compute_pricing_from_subtotal f subtotal cleaning (nights dates) rate d
    ok (new_booking_with_pricing id property_id guest_id dates guests now pricing)

  -- `Reschedule`
  unfoldable pub reschedule :
      DateRange
      → ℤ
      → Money
      → Money
      → f.Carrier
      → Discounts f
      → Time
      → Booking
      → Method Booking (Unit {0})
  reschedule dates guests price cleaning rate d now b = commit b (do
    guard_reschedule guests b
    pricing ← compute_pricing f price cleaning (nights dates) rate d
    ok (apply_reschedule dates guests now b pricing))

  -- `RescheduleFromSubtotal`
  unfoldable pub reschedule_from_subtotal :
      DateRange
      → ℤ
      → Money
      → Money
      → f.Carrier
      → Discounts f
      → Time
      → Booking
      → Method Booking (Unit {0})
  reschedule_from_subtotal dates guests subtotal cleaning rate d now b = commit b (do
    guard_reschedule guests b
    pricing ← compute_pricing_from_subtotal f subtotal cleaning (nights dates) rate d
    ok (apply_reschedule dates guests now b pricing))

unfoldable pub confirm : Time → Booking → Method Booking (Unit {0})
confirm now b =
    if not (is_pending b.status)
    then refused b (validation "only pending bookings can be confirmed")
    else done (record b { status = confirmed; updated_at = now })

unfoldable pub cancel : Time → Booking → Method Booking (Unit {0})
cancel now b =
    if is_over b.status
    then refused b (validation "booking can no longer be cancelled")
    else done (record b { status = cancelled; updated_at = now })

unfoldable pub complete : Time → Booking → Method Booking (Unit {0})
complete now b =
    if not (is_confirmed b.status)
    then refused b (validation "only confirmed bookings can be completed")
    else done (record b { status = completed; updated_at = now })

unfoldable pub is_active : Booking → Bool
is_active b = is_pending b.status || is_confirmed b.status
