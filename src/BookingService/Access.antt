-- ===== src/BookingService/Access.antt =====
-- service.go: who may do what to a reservation.
use airbnb.Common.{
  ◌==◌, Float64, Time, forbidden, ok, err, ℕ, ℤ, ◌≡◌, refl, ◌≢◌, ◌↔◌, inl, inr, none, List, [], ◌∷◌,
  ok_inj, arith, Bool-cases,
}
use airbnb.Booking.Reservation.{pending, confirmed, Booking, confirm}
use airbnb.Listing.{Property}
use airbnb.Listing.Edit.{is_owned_by}
use airbnb.BookingService.Tables.{World, find_booking, update_booking, find_property}
use airbnb.BookingService.Gates.{Ports, Config, enforce_payout, run_tx}
use airbnb.BookingService.Manage.{
  booking_with_property, emit_update, decide_modify, modify, decide_confirm, confirm_booking,
  decide_cancel, cancel_booking, decide_complete, complete_booking,
}
use airbnb.BookingService.Views.{get_by_id, arrival_for_booking}

-- Somebody who is neither the guest of a reservation nor the host of its listing can neither see,
-- confirm, complete, cancel nor modify it, nor read the arrival information: every call is
-- forbidden and changes nothing.
pub outsider_refused :
    (f : Float64) (ports : Ports) (cfg : Config f) (now : Time) (actor id : ℕ) (from to : Time)
    (guests : ℤ) (w : World f) (b : Booking) (prop : Property f)
    → find_booking id w.bookings ≡ ok b
    → find_property f b.property_id w.properties ≡ ok prop
    → b.guest_id ≢ actor
    → prop.host_id ≢ actor
    → (get_by_id f actor id w ≡ err forbidden)
      × (arrival_for_booking f actor id now w ≡ err forbidden)
      × (confirm_booking f ports now actor id w ≡ (w, err forbidden))
      × (complete_booking f ports now actor id w ≡ (w, err forbidden))
      × (cancel_booking f ports now actor id w ≡ (w, err forbidden))
      × (modify f ports cfg now
            (record {
              actor_id = actor;
              booking_id = id;
              check_in = from;
              check_out = to;
              guests = guests;
            })
            w
          ≡ (w, err forbidden))
unfolding get_by_id arrival_for_booking confirm_booking complete_booking cancel_booking modify
    decide_confirm decide_complete decide_cancel decide_modify booking_with_property is_owned_by
outsider_refused f ports cfg now actor id from to guests w b prop found listed not_guest not_host =
    (
      ground (arith, found, listed),
      ground (arith, found, listed),
      ground (arith, found, listed),
      ground (arith, found, listed),
      ground (arith, found, listed),
      ground (arith, found, listed),
    )

found-updated :
    (id : ℕ) (rows : List Booking) (b' : Booking) {b : Booking}
    → find_booking id rows ≡ ok b
    → b'.id ≡ b.id
    → (b.id ≡ id) × (rows' : List Booking) × (update_booking b' rows ≡ ok rows')
unfolding find_booking update_booking
found-updated id [] b' h e = cc
found-updated id (x ∷ rest) b' {b} h e = elim (Bool-cases (x.id == id)) [
  | inl this ↦
      let same = ok_inj (rw this at h) in (ground (arith, same), b' ∷ rest, ground (arith, same))
  | inr other ↦
      let (own, rest', stored) = found-updated id rest b' (rw other at h) e in
      (own, x ∷ rest', ground (arith, own, stored))
]

-- Where the database commits, a host's confirmation succeeds exactly if the caller is the host of
-- the listing, the host can be paid out, and the booking is pending.
pub confirm_booking_iff :
    (f : Float64) (ports : Ports) (now : Time) (actor id : ℕ) (w : World f) (b : Booking)
    (prop : Property f)
    → find_booking id w.bookings ≡ ok b
    → find_property f b.property_id w.properties ≡ ok prop
    → ports.commit ≡ none
    → ((b' : Booking) × ((confirm_booking f ports now actor id w).1 ≡ ok b')) ↔ (
        (prop.host_id ≡ actor) × (enforce_payout ports prop.host_id ≡ ok tt) × (b.status ≡ pending))
unfolding confirm_booking decide_confirm booking_with_property is_owned_by confirm emit_update
    run_tx
confirm_booking_iff f ports now actor id w b prop found listed commits =
    let b' : Booking = record b { status = confirmed; updated_at = now } in
    let (own, rows, stored) = found-updated id w.bookings b' found refl in
    (
      (λ (b'', h). ground (arith, found, listed, h)),
      (λ h. (b', ground (arith, found, listed, commits, stored, h))),
    )
