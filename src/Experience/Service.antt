-- ===== src/Experience/Service.antt =====
-- application/experiencebooking/service.go, over the rows of memory.go. Metrics and logs are left out.
use airbnb.Common.{
  ltb, ◌==◌, if◌then◌else◌, ℤ, pos, Text, Float64, Time, Error, conflict, forbidden, validation,
  Result, ok, err, ◌>>=◌, ◌>>◌, fail_if, Method, refused, find_row, create_row, update_row, ℕ, zero,
  suc, Bool, true, false, not, ◌&&◌, Option, none, some, List, [], ◌∷◌, ◌++◌,
}
use airbnb.Experience.Listing.{Experience, is_published}
use airbnb.Experience.Reservation.{
  Booking, Status, is_confirmed, is_cancelled, new_session, end_at, new_booking, confirm, cancel,
  complete,
}

-- domain/experiencebooking/events.go
pub data Event : Type 0 where
  -- booking, experience, title, host, guest, total, currency, at
  booking_created : ℕ → ℕ → Text → ℕ → ℕ → ℤ → Text → Time → Event
  -- booking, experience, title, host, guest, at
  booking_confirmed : ℕ → ℕ → Text → ℕ → ℕ → Time → Event
  -- booking, experience, title, host, guest, cancelled by, at
  booking_cancelled : ℕ → ℕ → Text → ℕ → ℕ → ℕ → Time → Event

-- What the service works on: the two tables, and the events it recorded in the outbox or, without a
-- unit of work, handed to the publisher.
pub record World (f : Float64) : Type 0 where
  pub experiences : List (Experience f)
  pub bookings : List Booking
  pub told : List Event

-- Why the database does not write the row of a booking.
abbrev pub Ports : Type 0
Ports = ℕ → Option Error

pub record CreateInput : Type 0 where
  pub experience_id : ℕ
  pub guest_id : ℕ
  pub start_at : Time
  pub guests : ℤ

abbrev pub booking_id : Booking → ℕ
booking_id b = b.id

-- `FindOverlapping`, as `len(overlapping) > 0`: half-open overlap with a booking not cancelled.
unfoldable pub any_overlapping : ℕ → Time → Time → List Booking → Bool
any_overlapping experience_id start stop [] = false
any_overlapping experience_id start stop (b ∷ rest) =
    if not (b.experience_id == experience_id)
    then any_overlapping experience_id start stop rest
    else if is_cancelled b.status
    then any_overlapping experience_id start stop rest
    else if ltb b.session.start_at stop && ltb start (end_at b.session)
    then true
    else any_overlapping experience_id start stop rest

-- One step of the sort by the end of the session.
unfoldable pub place_due : Booking → List Booking → List Booking
place_due b [] = b ∷ []
place_due b (x ∷ rest) =
    let later = place_due b rest in
    if ltb (end_at x.session) (end_at b.session) then x ∷ later else b ∷ x ∷ rest

abbrev pub is_due : Time → Booking → Bool
is_due before b = is_confirmed b.status && not (ltb before (end_at b.session))

-- The scan of `FindConfirmedPastSession`, sorted.
unfoldable pub due_rows : Time → List Booking → List Booking
unfolding place_due
due_rows before [] = []
due_rows before (b ∷ rest) =
    let later = due_rows before rest in if is_due before b then place_due b later else later

abbrev pub first_rows : ℕ → List Booking → List Booking
first_rows zero rows = []
first_rows (suc n) [] = []
first_rows (suc n) (b ∷ rest) = b ∷ first_rows n rest

-- `FindConfirmedPastSession`; a limit of 0 means none.
unfoldable pub find_confirmed_past_session : Time → ℕ → List Booking → List Booking
find_confirmed_past_session before limit rows =
    let due = due_rows before rows in if limit == 0 then due else first_rows limit due

module _ (f : Float64) where
  abbrev pub experience_id_of : Experience f → ℕ
  experience_id_of e = e.id

  -- The write of a row with its events: `emit`, or the repository and then `publish`. Without the
  -- write nothing is told; an append that fails is among the reasons of the unit of work.
  unfoldable pub write_row :
      Ports → World f → Booking → Result (List Booking) → List Event → Method (World f) Booking
  write_row ports w b (err e) evs = refused w e
  write_row ports w b (ok rows) evs = elim (ports b.id) [
    | some e ↦ refused w e
    | none ↦ (record w { bookings = rows; told = w.told ++ evs }, ok b)
  ]

  -- `lookupTitle`
  unfoldable pub lookup_title : ℕ → World f → Text
  lookup_title id w = elim (find_row experience_id_of id w.experiences) [
    | err e ↦ []
    | ok e ↦ e.title
  ]

  -- The checks of `Create`, and the booking with its listing's title.
  unfoldable pub decide_create :
      f.Carrier → ℕ → CreateInput → Time → World f → Result (Booking × Event)
  decide_create rate id in_ now w = do
    exp ← find_row experience_id_of in_.experience_id w.experiences
    fail_if (not (is_published exp.status))
        (validation "experiencebooking: experience is not bookable")
    session ← new_session in_.start_at exp.duration_minutes (pos 30) (pos 1440) now
    fail_if (any_overlapping exp.id session.start_at (end_at session) w.bookings) conflict
    b ←
        new_booking f id exp.id exp.host_id in_.guest_id session in_.guests exp.max_guests
          exp.price_per_guest rate now
    ok (
      b,
      booking_created b.id b.experience_id exp.title b.host_id b.guest_id
          b.pricing.total.amount_cents b.pricing.total.currency b.created_at,
    )

  -- `Service.Create`
  unfoldable pub create_booking :
      Ports → f.Carrier → ℕ → CreateInput → Time → World f → Method (World f) Booking
  create_booking ports rate id in_ now w = elim (decide_create rate id in_ now w) [
    | err e ↦ refused w e
    | ok (b, e) ↦ write_row ports w b (create_row booking_id b w.bookings) (e ∷ [])
  ]

  -- The rest of a transition: nothing is written if the aggregate refuses, and `tell` gives the
  -- events of the new version.
  unfoldable pub transition :
      Ports
      → World f
      → Method Booking (Unit {0})
      → (Booking → List Event)
      → Method (World f) Booking
  unfolding write_row
  transition ports w (b', err e) tell = refused w e
  transition ports w (b', ok _) tell =
      write_row ports w b' (update_row booking_id b' w.bookings) (tell b')

  -- The event of a confirmation, if the status changed.
  unfoldable pub confirmation : World f → Status → Booking → List Event
  unfolding lookup_title
  confirmation w prior b =
      if not (is_confirmed prior) && is_confirmed b.status
      then booking_confirmed b.id b.experience_id (lookup_title b.experience_id w) b.host_id
          b.guest_id b.updated_at
        ∷ []
      else []

  -- The event of a cancellation, if the status changed.
  unfoldable pub cancellation : World f → ℕ → Status → Booking → List Event
  unfolding lookup_title
  cancellation w actor_id prior b =
      if not (is_cancelled prior) && is_cancelled b.status
      then booking_cancelled b.id b.experience_id (lookup_title b.experience_id w) b.host_id
          b.guest_id actor_id b.updated_at
        ∷ []
      else []

  -- `Service.Confirm`
  unfoldable pub confirm_session : Ports → ℕ → ℕ → Time → World f → Method (World f) Booking
  unfolding confirmation
  confirm_session ports actor_id id now w = elim (find_row booking_id id w.bookings) [
    | err e ↦ refused w e
    | ok b ↦
        if not (b.host_id == actor_id)
        then refused w forbidden
        else transition ports w (confirm now b) (confirmation w b.status)
  ]

  -- `Service.Cancel`
  unfoldable pub cancel_session : Ports → ℕ → ℕ → Time → Time → World f → Method (World f) Booking
  unfolding cancellation
  cancel_session ports actor_id id clock now w = elim (find_row booking_id id w.bookings) [
    | err e ↦ refused w e
    | ok b ↦
        if not (b.guest_id == actor_id) && not (b.host_id == actor_id)
        then refused w forbidden
        else transition ports w (cancel clock now b) (cancellation w actor_id b.status)
  ]

  -- `Service.Complete`, which tells nothing.
  unfoldable pub complete_session : Ports → ℕ → ℕ → Time → Time → World f → Method (World f) Booking
  complete_session ports actor_id id clock now w = elim (find_row booking_id id w.bookings) [
    | err e ↦ refused w e
    | ok b ↦
        if not (b.host_id == actor_id)
        then refused w forbidden
        else transition ports w (complete clock now b) (λ b'. [])
  ]

  -- The loop of `AutoCompleteOverdue`: the world, and the number completed.
  unfoldable pub complete_each : Ports → Time → Time → List Booking → World f → World f × ℕ
  complete_each ports clock now [] w = (w, 0)
  complete_each ports clock now (b ∷ rest) w =
      let (w1, answer) = transition ports w (complete clock now b) (λ b'. []) in
      let (w2, count) = complete_each ports clock now rest w1 in
      elim answer [ ok _ ↦ (w2, suc count) | err _ ↦ (w2, count) ]

  -- `AutoCompleteOverdue`, where the table could be read.
  unfoldable pub auto_complete_overdue : Ports → Time → Time → World f → World f × ℕ
  auto_complete_overdue ports clock now w =
      complete_each ports clock now (find_confirmed_past_session clock 500 w.bookings) w
