-- ===== src/BookingService/Subscriber.antt =====
-- service.go: `EventHandler` and its two reactions, which confirm a booking once its money is held.
use airbnb.Common.{Float64, Time, validation, Result, ok, ◌>>=◌, ◌>>◌, fail_if, ℕ, true, false, not}
use airbnb.Booking.Reservation.{Booking, is_pending, is_confirmed, confirm}
use airbnb.BookingService.Tables.{Event, booking_confirmed, World, find_booking, find_property}
use airbnb.BookingService.Gates.{Ports, enforce_payout}
use airbnb.BookingService.Manage.{write_decided}

-- The two events that the handler knows, and any other.
pub data Incoming : Type 0 where
  split_payment_completed payment_authorized : ℕ → Incoming
  any_other : Incoming

module _ (f : Float64) where
  -- `confirmAfterAsyncAuth`; where it returns early the model has an error, which nobody sees.
  unfoldable pub decide_after_auth : Ports → Time → ℕ → World f → Result (Booking × Event f)
  decide_after_auth ports now booking_id w = do
    b ← find_booking booking_id w.bookings
    fail_if (not (is_pending b.status)) (validation "already decided")
    prop ← find_property f b.property_id w.properties
    fail_if (not prop.instant_book) (validation "the host approves")
    enforce_payout ports prop.host_id
    let (b', answer) = confirm now b
    answer
    ok (b', booking_confirmed b'.id prop.id prop.title b'.guest_id false)

  -- `confirmAfterSplit`
  unfoldable pub decide_after_split : Ports → Time → ℕ → World f → Result (Booking × Event f)
  decide_after_split ports now booking_id w = do
    b ← find_booking booking_id w.bookings
    fail_if (is_confirmed b.status) (validation "already confirmed")
    prop ← find_property f b.property_id w.properties
    enforce_payout ports prop.host_id
    let (b', answer) = confirm now b
    answer
    ok (b', booking_confirmed b'.id prop.id prop.title b'.guest_id true)

  -- `EventHandler`: errors are dropped.
  unfoldable pub handle : Ports → Time → Incoming → World f → World f
  handle ports now (split_payment_completed id) w =
      (write_decided f ports w (decide_after_split ports now id w)).0
  handle ports now (payment_authorized id) w =
      (write_decided f ports w (decide_after_auth ports now id w)).0
  handle ports now any_other w = w
