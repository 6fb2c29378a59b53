-- ===== src/Experience/Runs.antt =====
-- application/experiencebooking/service.go: any sequence of requests, each run to its end, while hosts
-- edit their listings.
use airbnb.Common.{
  ◌==◌, Float64, Time, ok, Method, ℕ, ◌≡◌, refl, ◌∙◌, sym, ap, subst, inl, inr, Bool-cases, not,
  ◌&&◌, Option-cases, Result-cases, List, [], ◌∷◌, ◌++◌, arith, find_row, found_row_own,
  found_row-ClearOf, NoClash, NoClash-Distinct, create_row, created_row-NoClash, update_row,
  updated_row-NoClash,
}
use airbnb.Experience.Listing.{Experience}
use airbnb.Experience.Reservation.{Booking, confirm, cancel, complete}
use airbnb.Experience.Service.{
  Event, World, Ports, CreateInput, booking_id, write_row, decide_create, create_booking,
  transition, confirmation, cancellation, confirm_session, cancel_session, complete_session,
  find_confirmed_past_session, complete_each, auto_complete_overdue,
}
use airbnb.Experience.History.{
  Leads, phase, unborn, IsRecorded, updated-IsRecorded, created-IsRecorded,
}
use airbnb.Experience.Calendar.{
  clash, clash_sym, free-ClearOf, Moves, moved-ClearOf, confirm-Moves, cancel-Moves, complete-Moves,
  transition_cases,
}
use airbnb.Experience.Terms.{Decided, create-Decided}
use airbnb.Experience.Batch.{Standing, fetched-Standing, written-Standing}

-- A request to the service, with the failures of the database while it is served, or a change of the
-- listings by their own service.
pub data Request (f : Float64) : Type 0 where
  booking_one : Ports → f.Carrier → ℕ → CreateInput → Time → Request f
  confirming : Ports → ℕ → ℕ → Time → Request f
  cancelling completing : Ports → ℕ → ℕ → Time → Time → Request f
  ticking : Ports → Time → Time → Request f
  relisting : List (Experience f) → Request f

module _ (f : Float64) where
  abbrev pub serve : Request f → World f → World f
  serve (booking_one ports rate id in_ now) w = (create_booking f ports rate id in_ now w).0
  serve (confirming ports actor id now) w = (confirm_session f ports actor id now w).0
  serve (cancelling ports actor id clock now) w = (cancel_session f ports actor id clock now w).0
  serve (completing ports actor id clock now) w = (complete_session f ports actor id clock now w).0
  serve (ticking ports clock now) w = (auto_complete_overdue f ports clock now w).0
  serve (relisting experiences) w = record w { experiences = experiences }

  abbrev pub run : List (Request f) → World f → World f
  run [] w = w
  run (r ∷ rs) w = run rs (serve r w)

  -- The calendar and the log are in order.
  pub record IsKept (w : World f) : Type 0 where
    pub calendar : NoClash booking_id clash w.bookings
    pub recorded : IsRecorded w.bookings w.told

  moved-IsKept :
      (b b' : Booking) (evs : List Event) (w : World f) {rows : List Booking}
      → find_row booking_id b.id w.bookings ≡ ok b
      → Moves b b' evs
      → update_row booking_id b' w.bookings ≡ ok rows
      → IsKept w
      → IsKept (record w { bookings = rows; told = w.told ++ evs })
  moved-IsKept b b' evs w found m stored s = record {
    calendar =
        updated_row-NoClash booking_id clash clash_sym b' w.bookings stored
          (moved-ClearOf b b' evs w.bookings m
            (found_row-ClearOf booking_id clash clash_sym b.id w.bookings found s.calendar))
          s.calendar;
    recorded =
        updated-IsRecorded clash b b' w.bookings w.told evs
          (ap (λ i. find_row booking_id i w.bookings) m.own ∙ found) m.leads stored s.calendar
          s.recorded;
  }

  -- A transition of a row of the table, by a method of the aggregate.
  transition-IsKept :
      (ports : Ports) (w : World f) (b : Booking) (m : Method Booking (Unit {0}))
      (tell : Booking → List Event)
      → find_row booking_id b.id w.bookings ≡ ok b
      → ((b' : Booking) → m ≡ (b', ok tt) → Moves b b' (tell b'))
      → IsKept w
      → IsKept (transition f ports w m tell).0
  transition-IsKept ports w b m tell found moves s = elim (transition_cases f ports w m tell) [
    | inl (same, _, _) ↦ subst IsKept (sym same) s
    | inr (b', done_, rows, stored, _, out) ↦
        subst IsKept (sym (ap (λ (r : Method (World f) Booking). r.0) out))
          (moved-IsKept b b' (tell b') w found (moves b' done_) stored s)
  ]

  confirm-IsKept :
      (ports : Ports) (actor id : ℕ) (now : Time) (w : World f)
      → IsKept w
      → IsKept (confirm_session f ports actor id now w).0
  unfolding confirm_session
  confirm-IsKept ports actor id now w s = elim (Result-cases (find_row booking_id id w.bookings)) [
    | inr (e, missing) ↦ rw (missing, confirm_session) s
    | inl (b, found) ↦ elim (Bool-cases (b.host_id == actor)) [
      | inr stranger ↦ rw (found, stranger, confirm_session) s
      | inl host ↦
          rw (found, host, confirm_session)
            (transition-IsKept ports w b (confirm now b) (confirmation f w b.status)
              (found_row_own booking_id id w.bookings found) (λ b' h. confirm-Moves f w now b h) s)
    ]
  ]

  cancel-IsKept :
      (ports : Ports) (actor id : ℕ) (clock now : Time) (w : World f)
      → IsKept w
      → IsKept (cancel_session f ports actor id clock now w).0
  unfolding cancel_session
  cancel-IsKept ports actor id clock now w s =
      elim (Result-cases (find_row booking_id id w.bookings)) [
        | inr (e, missing) ↦ rw (missing, cancel_session) s
        | inl (b, found) ↦
            elim (Bool-cases (not (b.guest_id == actor) && not (b.host_id == actor))) [
              | inl stranger ↦ rw (found, stranger, cancel_session) s
              | inr party ↦
                  rw (found, party, cancel_session)
                    (transition-IsKept ports w b (cancel clock now b)
                      (cancellation f w actor b.status)
                      (found_row_own booking_id id w.bookings found)
                      (λ b' h. cancel-Moves f w actor clock now b h) s)
            ]
      ]

  complete-IsKept :
      (ports : Ports) (actor id : ℕ) (clock now : Time) (w : World f)
      → IsKept w
      → IsKept (complete_session f ports actor id clock now w).0
  unfolding complete_session
  complete-IsKept ports actor id clock now w s =
      elim (Result-cases (find_row booking_id id w.bookings)) [
        | inr (e, missing) ↦ rw (missing, complete_session) s
        | inl (b, found) ↦ elim (Bool-cases (b.host_id == actor)) [
          | inr stranger ↦ rw (found, stranger, complete_session) s
          | inl host ↦
              rw (found, host, complete_session)
                (transition-IsKept ports w b (complete clock now b) (λ b'. [])
                  (found_row_own booking_id id w.bookings found)
                  (λ b' h. complete-Moves f clock now b h) s)
        ]
      ]

  each-IsKept :
      (ports : Ports) (clock now : Time) (batch : List Booking) (w : World f)
      → Standing w.bookings batch
      → IsKept w
      → IsKept (complete_each f ports clock now batch w).0
  unfolding complete_each
  each-IsKept ports clock now [] w standing s = s
  each-IsKept ports clock now (b ∷ rest) w standing s =
      let out = transition f ports w (complete clock now b) (λ b'. []) in
      let s1 =
        transition-IsKept ports w b (complete clock now b) (λ b'. []) standing.0.0
          (λ b' h. complete-Moves f clock now b h) s in
      let standing1 : Standing out.0.bookings rest =
        elim (transition_cases f ports w (complete clock now b) (λ b'. [])) [
          | inl (same, _, _) ↦
              subst (λ (v : World f). Standing v.bookings rest) (sym same)
                (standing.0.1, standing.1.1)
          | inr (b', done_, rows, stored, _, written) ↦
              subst (λ (v : World f). Standing v.bookings rest)
                (sym (ap (λ (r : Method (World f) Booking). r.0) written))
                (written-Standing b b' rest w.bookings (complete-Moves f clock now b done_).own
                  stored standing)
        ] in
      let ih = each-IsKept ports clock now rest out.0 standing1 s1 in
      elim (Result-cases out.1) [
        | inl (_, done_) ↦ rw (done_, complete_each) ih
        | inr (_, failed) ↦ rw (failed, complete_each) ih
      ]

  created-Leads :
      (rate : f.Carrier) (id : ℕ) (in_ : CreateInput) (now : Time) (w : World f) (b : Booking)
      (e : Event)
      → Decided f rate id in_ now w b e
      → Leads b.id unborn (e ∷ []) (phase b.status)
  created-Leads rate id in_ now w b e (exp, found, published, made, free, own, told) =
      let waits = made.waits in rw (told, waits) ((refl, tt), ground arith)

  create-IsKept :
      (ports : Ports) (rate : f.Carrier) (id : ℕ) (in_ : CreateInput) (now : Time) (w : World f)
      → IsKept w
      → IsKept (create_booking f ports rate id in_ now w).0
  unfolding create_booking write_row
  create-IsKept ports rate id in_ now w s =
      elim (Result-cases (decide_create f rate id in_ now w)) [
        | inr (e, stopped) ↦ rw (stopped, create_booking) s
        | inl ((b, e), decided) ↦ elim (Result-cases (create_row booking_id b w.bookings)) [
          | inr (e', taken) ↦ rw (decided, taken, create_booking, write_row) s
          | inl (rows, stored) ↦ elim (Option-cases (ports b.id)) [
            | inr (e', fails) ↦ rw (decided, stored, fails, create_booking, write_row) s
            | inl works ↦
                let d = create-Decided f rate id in_ now w decided in
                let (exp, found, published, made, free, own, told) = d in
                let after : IsKept (record w { bookings = rows; told = w.told ++ e ∷ [] }) =
                  record {
                    calendar =
                        created_row-NoClash booking_id clash clash_sym b w.bookings stored
                          (free-ClearOf b w.bookings free) s.calendar;
                    recorded =
                        created-IsRecorded clash b w.bookings w.told (e ∷ [])
                          (created-Leads rate id in_ now w b e d) stored s.recorded;
                  } in
                rw (decided, stored, works, create_booking, write_row) after
          ]
        ]
      ]

  serve-IsKept : (r : Request f) (w : World f) → IsKept w → IsKept (serve r w)
  unfolding auto_complete_overdue
  serve-IsKept (booking_one ports rate id in_ now) w s = create-IsKept ports rate id in_ now w s
  serve-IsKept (confirming ports actor id now) w s = confirm-IsKept ports actor id now w s
  serve-IsKept (cancelling ports actor id clock now) w s =
      cancel-IsKept ports actor id clock now w s
  serve-IsKept (completing ports actor id clock now) w s =
      complete-IsKept ports actor id clock now w s
  serve-IsKept (ticking ports clock now) w s =
      each-IsKept ports clock now (find_confirmed_past_session clock 500 w.bookings) w
        (fetched-Standing clock 500 w.bookings
          (NoClash-Distinct booking_id clash w.bookings s.calendar))
        s
  serve-IsKept (relisting experiences) w s = record { calendar = s.calendar; recorded = s.recorded }

  -- Through any requests, with a database that fails as it may: two bookings of one experience that
  -- are not cancelled share no instant, ids are keys, and the events, read in order, tell the status of
  -- every booking (completions aside): each was created once, then confirmed at most once, and cancelled
  -- once if it is cancelled.
  pub run-IsKept : (rs : List (Request f)) (w : World f) → IsKept w → IsKept (run rs w)
  run-IsKept [] w s = s
  run-IsKept (r ∷ rs) w s = run-IsKept rs (serve r w) (serve-IsKept r w s)
