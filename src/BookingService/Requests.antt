-- ===== src/BookingService/Requests.antt =====
-- service.go: the requests to the booking service, run one after the other.
use airbnb.Common.{
  All, Float64, Time, Result, ok, err, ℕ, ◌≡◌, refl, ◌≢◌, ◌⊎◌, inl, inr, List, [], ◌∷◌, ◌++◌, arith,
  Result-cases,
}
use airbnb.Booking.Reservation.{Booking}
use airbnb.BookingService.Tables.{Event, World, update_booking}
use airbnb.BookingService.Gates.{Ports, Config}
use airbnb.BookingService.Create.{CreateInput, SplitIds, create}
use airbnb.BookingService.Manage.{
  ModifyInput, emit_update, write_decided, modify, confirm_booking, cancel_booking,
  complete_booking,
}
use airbnb.BookingService.Subscriber.{Incoming, handle}
use airbnb.BookingService.Outcome.{commit_cases}

-- A request to the service, with the answers that the outside gives while it is served; and what
-- the other services do to the tables that are theirs.
pub data Request (f : Float64) : Type 0 where
  creating : Ports → Config f → ℕ → SplitIds → Time → CreateInput → Request f
  modifying : Ports → Config f → Time → ModifyInput → Request f
  confirming cancelling completing : Ports → Time → ℕ → ℕ → Request f
  receiving : Ports → Time → Incoming → Request f
  elsewhere : World f → Request f

module _ (f : Float64) where
  unfoldable pub serve : Request f → World f → World f
  serve (creating ports cfg id ids now in_) w = (create f ports cfg id ids now in_ w).0
  serve (modifying ports cfg now in_) w = (modify f ports cfg now in_ w).0
  serve (confirming ports now actor id) w = (confirm_booking f ports now actor id w).0
  serve (cancelling ports now actor id) w = (cancel_booking f ports now actor id w).0
  serve (completing ports now actor id) w = (complete_booking f ports now actor id w).0
  serve (receiving ports now incoming) w = handle f ports now incoming w
  serve (elsewhere w') w = record w' { bookings = w.bookings; outbox = w.outbox }

  unfoldable pub run : List (Request f) → World f → World f
  run [] w = w
  run (r ∷ rs) w = run rs (serve r w)

  -- A new booking gets an id that no row has.
  abbrev pub Fresh : Request f → World f → Type 0
  Fresh (creating _ _ id _ _ _) w = All (λ x. x.id ≢ id) w.bookings
  Fresh _ w = Unit

  abbrev pub FreshRun : List (Request f) → World f → Type 0
  FreshRun [] w = Unit
  FreshRun (r ∷ rs) w = Fresh r w × FreshRun rs (serve r w)

  -- A guarded update either changes nothing or writes the decided row and its event.
  pub write_cases :
      (ports : Ports) (w : World f) (decision : Result (Booking × Event f))
      → ((write_decided f ports w decision).0 ≡ w)
        ⊎ ((b : Booking) × (event : Event f) × (decision ≡ ok (b, event))
            × (rows : List Booking) × (update_booking b w.bookings ≡ ok rows)
            × ((write_decided f ports w decision).0.bookings ≡ rows)
            × ((write_decided f ports w decision).0.outbox ≡ w.outbox ++ event ∷ [])
            × ((write_decided f ports w decision).1 ≡ ok b))
  unfolding emit_update
  write_cases ports w (err e) = inl refl
  write_cases ports w (ok (b, event)) = elim (Result-cases (update_booking b w.bookings)) [
    | inr (e, missing) ↦ elim (commit_cases f ports w (err e)) [
      | inl (e', broken) ↦ inl (ground (arith, missing, broken))
      | inr (w', wrong, kept) ↦ inl (cc)
    ]
    | inl (rows, stored) ↦
        let w1 : World f = record w { bookings = rows; outbox = w.outbox ++ event ∷ [] } in
        elim (commit_cases f ports w (ok w1)) [
          | inl (e', broken) ↦ inl (ground (arith, stored, broken))
          | inr (w', same, kept) ↦ inr (
            b,
            event,
            refl,
            rows,
            stored,
            ground (arith, stored, kept, same),
            ground (arith, stored, kept, same),
            ground (arith, stored, kept),
          )
        ]
  ]
