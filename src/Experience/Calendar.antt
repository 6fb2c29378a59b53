-- ===== src/Experience/Calendar.antt =====
-- application/experiencebooking/service.go: which row a transition writes, and what it tells.
use airbnb.Common.{
  ltb, ◌==◌, All-map, Float64, Time, ok, err, Error, Method, ℕ, ◌≡◌, refl, ◌∙◌, sym, ◌⊎◌, inl, inr,
  Bool, true, false, not, ◌&&◌, none, Option-cases, Result-cases, List, [], ◌∷◌, ◌++◌, arith, ap,
  ClearOf, update_row,
}
use airbnb.Experience.Reservation.{
  Booking, Session, is_cancelled, end_at, confirm, cancel, complete,
}
use airbnb.Experience.Service.{
  Event, World, Ports, booking_id, any_overlapping, write_row, transition, confirmation,
  cancellation,
}
use airbnb.Experience.History.{Leads, phase}

-- Both are bookings of one experience that are not cancelled, and share an instant.
abbrev pub clash : Booking → Booking → Bool
clash x y =
    x.experience_id == y.experience_id
    && not (is_cancelled x.status)
    && not (is_cancelled y.status)
    && ltb x.session.start_at (end_at y.session)
    && ltb y.session.start_at (end_at x.session)

pub clash_sym : (x y : Booking) → clash x y ≡ clash y x
clash_sym x y = ground arith

pub free-ClearOf :
    (b : Booking) (rows : List Booking)
    → any_overlapping b.experience_id b.session.start_at (end_at b.session) rows ≡ false
    → ClearOf booking_id clash b rows
unfolding any_overlapping
free-ClearOf b [] h = tt
free-ClearOf b (x ∷ rest) h =
    ((λ other. ground (arith, clash_sym b x)), free-ClearOf b rest (ground arith))

-- A new version of a row, and the events it is told with.
pub record Moves (b b' : Booking) (evs : List Event) : Type 0 where
  pub own : b'.id ≡ b.id
  pub place : b'.experience_id ≡ b.experience_id
  pub session : b'.session ≡ b.session
  pub stays_cancelled : is_cancelled b.status ≡ true → is_cancelled b'.status ≡ true
  pub leads : Leads b'.id (phase b.status) evs (phase b'.status)

pub moved-ClearOf :
    (b b' : Booking) (evs : List Event) (rows : List Booking)
    → Moves b b' evs
    → ClearOf booking_id clash b rows
    → ClearOf booking_id clash b' rows
moved-ClearOf b b' evs rows m clear =
    let place = m.place in
    let session = m.session in
    let stays = m.stays_cancelled in
    All-map rows
      (λ x free. λ other.
        let before = free (λ e. other (e ∙ sym m.own)) in
        let starts : b'.session.start_at ≡ b.session.start_at =
          ap (λ (s : Session). s.start_at) session in
        let ends : end_at b'.session ≡ end_at b.session = ap (λ (s : Session). end_at s) session in
        ground (arith, before, place, starts, ends, stays))
      clear

module _ (f : Float64) where
  pub confirm-Moves :
      (w : World f) (now : Time) (b : Booking) {b' : Booking}
      → confirm now b ≡ (b', ok tt)
      → Moves b b' (confirmation f w b.status b')
  unfolding confirm confirmation
  confirm-Moves w now b h = record {
    own = ground arith;
    place = ground arith;
    session = ground arith;
    stays_cancelled = λ c. ground arith;
    leads = (ground arith, ground arith);
  }

  pub cancel-Moves :
      (w : World f) (actor : ℕ) (clock now : Time) (b : Booking) {b' : Booking}
      → cancel clock now b ≡ (b', ok tt)
      → Moves b b' (cancellation f w actor b.status b')
  unfolding cancel cancellation
  cancel-Moves w actor clock now b h = record {
    own = ground arith;
    place = ground arith;
    session = ground arith;
    stays_cancelled = λ c. ground arith;
    leads = (ground arith, ground arith);
  }

  pub complete-Moves :
      (clock now : Time) (b : Booking) {b' : Booking}
      → complete clock now b ≡ (b', ok tt)
      → Moves b b' []
  unfolding complete
  complete-Moves clock now b h = record {
    own = ground arith;
    place = ground arith;
    session = ground arith;
    stays_cancelled = λ c. ground arith;
    leads = (ground arith, ground arith);
  }

  -- A write either changes nothing or keeps the row and its events.
  pub transition_cases :
      (ports : Ports) (w : World f) (m : Method Booking (Unit {0})) (tell : Booking → List Event)
      → let out = transition f ports w m tell in
        ((out.0 ≡ w) × (e : Error) × (out.1 ≡ err e))
        ⊎ ((b' : Booking) × (m ≡ (b', ok tt))
            × (rows : List Booking) × (update_row booking_id b' w.bookings ≡ ok rows)
            × (ports b'.id ≡ none)
            × (out ≡ (record w { bookings = rows; told = w.told ++ tell b' }, ok b')))
  unfolding transition write_row
  transition_cases ports w (b', err e) tell = inl (refl, e, refl)
  transition_cases ports w (b', ok _) tell =
      elim (Result-cases (update_row booking_id b' w.bookings)) [
        | inr (e, missing) ↦ inl (rw missing (refl, e, refl))
        | inl (rows, stored) ↦ elim (Option-cases (ports b'.id)) [
          | inr (e, fails) ↦ inl (rw (stored, fails, write_row) (refl, e, refl))
          | inl works ↦ inr (b', refl, rows, stored, works, rw (stored, works, write_row))
        ]
      ]
