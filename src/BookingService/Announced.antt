-- ===== src/BookingService/Announced.antt =====
-- service.go and the outbox: a confirmation is announced once, which is what captures the payment.
use airbnb.Common.{
  ◌==◌, if◌then◌else◌, Float64, Time, ok, ℕ, ◌≡◌, ◌≢◌, inl, inr, List, [], ◌∷◌, ◌++◌, ◌+◌, ◌≤◌,
  arith, Result-cases,
}
use airbnb.Booking.Reservation.{
  Status, pending, confirmed, cancelled, completed, Booking, confirm, cancel, complete,
}
use airbnb.Listing.{Property}
use airbnb.BookingService.Tables.{Event, booking_confirmed, World, find_booking}
use airbnb.BookingService.Gates.{Ports, Config}
use airbnb.BookingService.Create.{CreateInput, settle_status}
use airbnb.BookingService.Manage.{
  ModifyInput, booking_with_property, decide_modify, decide_confirm, decide_cancel, decide_complete,
}
use airbnb.BookingService.Writes.{modify-Moves}
use airbnb.BookingService.Subscriber.{decide_after_auth, decide_after_split}

-- How many announcements that this booking is confirmed an event is, and a log has.
abbrev pub announces : {f : Float64} → ℕ → Event f → ℕ
announces id (booking_confirmed i _ _ _ _) = if i == id then 1 else 0
announces id _ = 0

abbrev pub announcements : {f : Float64} → ℕ → List (Event f) → ℕ
announcements id [] = 0
announcements id (e ∷ es) = announces id e + announcements id es

-- How often a booking of this status has been announced as confirmed.
abbrev pub Tally : Status → ℕ → Type 0
Tally pending n = n ≡ 0
Tally confirmed n = n ≡ 1
Tally completed n = n ≡ 1
Tally cancelled n = n ≤ 1

module _ {f : Float64} where
  pub announcements-append :
      (id : ℕ) (es es' : List (Event f))
      → announcements id (es ++ es') ≡ announcements id es + announcements id es'
  announcements-append id [] es' = omega arith
  announcements-append id (e ∷ es) es' = omega (arith, announcements-append id es es')

module _ (f : Float64) where
  -- A new version of a stored row, and an event, that keep the tally of this row and concern no
  -- other.
  abbrev pub Tallies : ℕ → World f → Booking → Event f → Type 0
  Tallies id w b' e =
      (b : Booking) × (find_booking id w.bookings ≡ ok b)
      × (b'.id ≡ b.id)
      × ((n : ℕ) → Tally b.status n → Tally b'.status (n + announces b'.id e))
      × ((i : ℕ) → i ≢ b'.id → announces i e ≡ 0)

  pub confirm-Tallies :
      (ports : Ports) (now : Time) (actor id : ℕ) (w : World f) {b' : Booking} {e : Event f}
      → decide_confirm f ports now actor id w ≡ ok (b', e)
      → Tallies id w b' e
  unfolding decide_confirm booking_with_property confirm
  confirm-Tallies ports now actor id w h = elim (Result-cases (find_booking id w.bookings)) [
    | inl (b, found) ↦ (
      b,
      found,
      ground (arith, found),
      (λ n t. ground (arith, found)),
      λ i other. ground (arith, found),
    )
    | inr (e, missing) ↦ cc (rw missing at h)
  ]

  pub cancel-Tallies :
      (now : Time) (actor id : ℕ) (w : World f) {b' : Booking} {e : Event f}
      → decide_cancel f now actor id w ≡ ok (b', e)
      → Tallies id w b' e
  unfolding decide_cancel booking_with_property cancel
  cancel-Tallies now actor id w h = elim (Result-cases (find_booking id w.bookings)) [
    | inl (b, found) ↦ (
      b,
      found,
      ground (arith, found),
      (λ n t. ground (arith, found)),
      λ i other. ground (arith, found),
    )
    | inr (e, missing) ↦ cc (rw missing at h)
  ]

  pub complete-Tallies :
      (now : Time) (actor id : ℕ) (w : World f) {b' : Booking} {e : Event f}
      → decide_complete f now actor id w ≡ ok (b', e)
      → Tallies id w b' e
  unfolding decide_complete booking_with_property complete
  complete-Tallies now actor id w h = elim (Result-cases (find_booking id w.bookings)) [
    | inl (b, found) ↦ (
      b,
      found,
      ground (arith, found),
      (λ n t. ground (arith, found)),
      λ i other. ground (arith, found),
    )
    | inr (e, missing) ↦ cc (rw missing at h)
  ]

  pub after_auth-Tallies :
      (ports : Ports) (now : Time) (id : ℕ) (w : World f) {b' : Booking} {e : Event f}
      → decide_after_auth f ports now id w ≡ ok (b', e)
      → Tallies id w b' e
  unfolding decide_after_auth confirm
  after_auth-Tallies ports now id w h = elim (Result-cases (find_booking id w.bookings)) [
    | inl (b, found) ↦ (
      b,
      found,
      ground (arith, found),
      (λ n t. ground (arith, found)),
      λ i other. ground (arith, found),
    )
    | inr (e, missing) ↦ cc (rw missing at h)
  ]

  pub after_split-Tallies :
      (ports : Ports) (now : Time) (id : ℕ) (w : World f) {b' : Booking} {e : Event f}
      → decide_after_split f ports now id w ≡ ok (b', e)
      → Tallies id w b' e
  unfolding decide_after_split confirm
  after_split-Tallies ports now id w h = elim (Result-cases (find_booking id w.bookings)) [
    | inl (b, found) ↦ (
      b,
      found,
      ground (arith, found),
      (λ n t. ground (arith, found)),
      λ i other. ground (arith, found),
    )
    | inr (e, missing) ↦ cc (rw missing at h)
  ]

  pub modify-Tallies :
      (cfg : Config f) (now : Time) (in_ : ModifyInput) (w : World f) {b' : Booking} {e : Event f}
      → decide_modify f cfg now in_ w ≡ ok (b', e)
      → Tallies in_.booking_id w b' e
  modify-Tallies cfg now in_ w h =
      let (b, found, own, place, clear, was, is_now, prop, event_is) =
        modify-Moves f cfg now in_ w h in
      (
        b,
        found,
        own,
        (λ n t. rw (event_is, is_now) (ground (arith, t, was))),
        λ i other. rw event_is,
      )

  -- What the reservation that `Create` writes is announced as.
  pub created-Tally :
      (ports : Ports) (now : Time) (prop : Property f) (in_ : CreateInput) (b : Booking)
      {b' : Booking} {events : List (Event f)}
      → b.status ≡ pending
      → settle_status f ports now prop in_ b ≡ ok (b', events)
      → Tally b'.status (announcements b'.id events)
        × ((i : ℕ) → i ≢ b'.id → announcements i events ≡ 0)
  unfolding settle_status confirm
  created-Tally ports now prop in_ b was h = (ground arith, λ i other. ground arith)
