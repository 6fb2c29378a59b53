-- ===== src/BookingService/Outcome.antt =====
-- service.go: the two ways in which a call of `Create` can end.
use airbnb.Common.{
  ltb_ℤ, leb_ℤ, All, Float64, Time, Text, Error, Result, ok, err, ℕ, ℤ, pos, ◌≡◌, refl, ◌⊎◌, sym,
  inl, inr, ◌||◌, List, [], ◌∷◌, ◌++◌, arith, Bool-cases, Result-cases, Option-cases, subst,
}
use airbnb.Booking.Reservation.{Booking}
use airbnb.Listing.{Property}
use airbnb.BookingService.Tables.{Event, kyc_step_up_required, World}
use mathlib.Core.List.{append-nil}
use airbnb.BookingService.Gates.{
  Ports, Config, run_tx, mark_fresh, trip_gate, enforce_step_up, threshold_of,
}
use airbnb.BookingService.Create.{
  CreateInput, Prepared, prepare, SplitIds, check_split, settle_status, write_booking, finish,
  create,
}
use airbnb.BookingService.Writes.{InPlace}
use airbnb.BookingService.Creation.{settled-InPlace, written_rows}

-- Only the prompt to verify one's identity.
abbrev pub IsPrompt : {f : Float64} → Event f → Type 0
IsPrompt (kyc_step_up_required _ _ _ _ _ _) = Unit
IsPrompt _ = ⊥

-- The bookings are as before, and at most prompts were logged.
abbrev pub Unbooked : (f : Float64) → World f → World f → Type 0
Unbooked f w w' =
    (w'.bookings ≡ w.bookings)
    × (prompts : List (Event f)) × (w'.outbox ≡ w.outbox ++ prompts)
    × All IsPrompt prompts

module _ (f : Float64) where
  trip_gate-Unbooked :
      (ports : Ports) (cfg : Config f) (guest_id : ℕ) (prop : Property f)
      (threshold total_cents : ℤ) (currency : Text) (now : Time) (w : World f)
      → Unbooked f w (trip_gate f ports cfg guest_id prop threshold total_cents currency now w).0
  unfolding trip_gate run_tx
  trip_gate-Unbooked ports cfg guest_id prop threshold total_cents currency now w =
      let fresh = (mark_fresh cfg.dedup_ttl guest_id prop.id currency now w.seen).1 in
      let event = kyc_step_up_required guest_id prop.id prop.title threshold total_cents currency in
      elim (Bool-cases fresh) [
        | inr known ↦ (ground (arith, known), [], ground (arith, known, append-nil w.outbox), tt)
        | inl first ↦ elim (Option-cases ports.commit) [
          | inl commits ↦
              (ground (arith, first, commits), event ∷ [], ground (arith, first, commits), (tt, tt))
          | inr (e, broken) ↦ (
            ground (arith, first, broken),
            [],
            ground (arith, first, broken, append-nil w.outbox),
            tt,
          )
        ]
      ]

  unchanged : (w : World f) → Unbooked f w w
  unchanged w = (refl, [], sym (append-nil w.outbox), tt)

  gate_cases :
      (ports : Ports) (cfg : Config f) (guest_id : ℕ) (prop : Property f) (total_cents : ℤ)
      (currency : Text) (now : Time) (w : World f)
      → let w' = (enforce_step_up f ports cfg guest_id prop total_cents currency now w).0 in
        (w' ≡ w)
        ⊎ ((threshold : ℤ) × (w'
              ≡ (trip_gate f ports cfg guest_id prop threshold total_cents currency now w).0))
  unfolding enforce_step_up
  gate_cases ports cfg guest_id prop total_cents currency now w =
      elim (Option-cases (threshold_of currency cfg.thresholds)) [
        | inl unset ↦ inl (ground (arith, unset))
        | inr (threshold, found) ↦
            elim (Bool-cases (leb_ℤ threshold (pos 0) || ltb_ℤ total_cents threshold)) [
              | inl below ↦ inl (ground (arith, found, below))
              | inr high ↦ elim (Result-cases (ports.is_verified guest_id)) [
                | inr (e, failed) ↦ inl (ground (arith, found, high, failed))
                | inl (known, asked) ↦ elim (Bool-cases known) [
                  | inl verified ↦ inl (ground (arith, found, high, asked, verified))
                  | inr unverified ↦ inr (threshold, ground (arith, found, high, asked, unverified))
                ]
              ]
            ]
      ]

  pub step_up-Unbooked :
      (ports : Ports) (cfg : Config f) (guest_id : ℕ) (prop : Property f) (total_cents : ℤ)
      (currency : Text) (now : Time) (w : World f)
      → Unbooked f w (enforce_step_up f ports cfg guest_id prop total_cents currency now w).0
  step_up-Unbooked ports cfg guest_id prop total_cents currency now w =
      elim (gate_cases ports cfg guest_id prop total_cents currency now w) [
        | inl same ↦ subst (Unbooked f w) (sym same) (unchanged w)
        | inr (threshold, tripped) ↦
            subst (Unbooked f w) (sym tripped)
              (trip_gate-Unbooked ports cfg guest_id prop threshold total_cents currency now w)
      ]

  step_up_passed :
      (ports : Ports) (cfg : Config f) (guest_id : ℕ) (prop : Property f) (total_cents : ℤ)
      (currency : Text) (now : Time) (w : World f)
      → (enforce_step_up f ports cfg guest_id prop total_cents currency now w).1 ≡ ok tt
      → (enforce_step_up f ports cfg guest_id prop total_cents currency now w).0 ≡ w
  unfolding enforce_step_up trip_gate
  step_up_passed ports cfg guest_id prop total_cents currency now w h = ground arith

  -- How the transaction of `Create` ends.
  abbrev pub Written :
      Ports → SplitIds → Time → CreateInput → Prepared f → World f → World f → Booking → Type 0
  Written ports ids now in_ p w w' b =
      (events : List (Event f)) × (settle_status f ports now p.prop in_ p.booking ≡ ok (b, events))
      × InPlace p.booking b
      × (w'.bookings ≡ b ∷ w.bookings)
      × (w'.outbox ≡ w.outbox ++ events)

  pub commit_cases :
      (ports : Ports) (w : World f) (r : Result (World f))
      → ((e : Error) × (run_tx f ports w r ≡ (w, err e)))
        ⊎ ((w' : World f) × (r ≡ ok w') × (run_tx f ports w r ≡ (w', ok tt)))
  unfolding run_tx
  commit_cases ports w (err e) = inl (e, refl)
  commit_cases ports w (ok w') = elim (Option-cases ports.commit) [
    | inl commits ↦ inr (w', refl, ground arith)
    | inr (e, broken) ↦ inl (e, ground arith)
  ]

  finish_cases :
      (ports : Ports) (ids : SplitIds) (now : Time) (in_ : CreateInput) (p : Prepared f)
      (w : World f)
      → let (w', answer) = finish f ports ids now in_ p w in
        ((w' ≡ w) × (e : Error) × (answer ≡ err e))
        ⊎ ((b : Booking) × (answer ≡ ok b) × Written ports ids now in_ p w w' b)
  unfolding finish
  finish_cases ports ids now in_ p w = elim (Result-cases (check_split f ports p.prop in_)) [
    | inr (e, stopped) ↦ inl (ground (arith, stopped), e, ground (arith, stopped))
    | inl (organizer, split) ↦
        elim (Result-cases (settle_status f ports now p.prop in_ p.booking)) [
          | inr (e, stopped) ↦
              inl (ground (arith, split, stopped), e, ground (arith, split, stopped))
          | inl ((b, events), settled) ↦
              let body = write_booking f ids in_ organizer now p.applied b events w in
              elim (commit_cases ports w body) [
                | inl (e, broken) ↦ inl (
                  ground (arith, split, settled, broken),
                  e,
                  ground (arith, split, settled, broken),
                )
                | inr (w', wrote, kept) ↦
                    let rows = written_rows f ids in_ organizer now p.applied b events w wrote in
                    let place = settled-InPlace f ports now p.prop in_ p.booking settled in
                    inr (
                      b,
                      ground (arith, split, settled, kept),
                      (
                        events,
                        settled,
                        place,
                        ground (arith, split, settled, kept, rows),
                        ground (arith, split, settled, kept, rows),
                      ),
                    )
              ]
        ]
  ]

  -- A call of `Create` that fails leaves the bookings alone and logs at most the prompt; one that
  -- succeeds has passed every check, inserts the one row that it returns, and logs its events.
  pub create_cases :
      (ports : Ports) (cfg : Config f) (id : ℕ) (ids : SplitIds) (now : Time) (in_ : CreateInput)
      (w : World f)
      → let (w', answer) = create f ports cfg id ids now in_ w in
        (Unbooked f w w' × (e : Error) × (answer ≡ err e))
        ⊎ ((b : Booking) × (answer ≡ ok b)
            × (p : Prepared f) × (prepare f ports cfg id now in_ w ≡ ok p)
            × Written ports ids now in_ p w w' b)
  unfolding create
  create_cases ports cfg id ids now in_ w = elim (Result-cases (prepare f ports cfg id now in_ w)) [
    | inr (e, stopped) ↦ inl (
      (let e : w ≡ (create f ports cfg id ids now in_ w).0 = ground (arith, stopped) in
          subst (Unbooked f w) e (unchanged w)),
      e,
      ground (arith, stopped),
    )
    | inl (p, ready) ↦
        let total = p.booking.pricing.total in
        let gate =
          enforce_step_up f ports cfg in_.guest_id p.prop total.amount_cents total.currency now w in
        elim (Result-cases gate.1) [
          | inr (e, tripped) ↦ inl (
            (let e : gate.0 ≡ (create f ports cfg id ids now in_ w).0 =
                  ground (arith, ready, tripped) in
                subst (Unbooked f w) e (
                  step_up-Unbooked ports cfg in_.guest_id p.prop total.amount_cents total.currency
                    now w)),
            e,
            ground (arith, ready, tripped),
          )
          | inl (_, passed) ↦
              let same =
                step_up_passed ports cfg in_.guest_id p.prop total.amount_cents total.currency now w
                  passed in
              elim (finish_cases ports ids now in_ p w) [
                | inl (untouched, e, stopped) ↦ inl (
                  (let e : w ≡ (create f ports cfg id ids now in_ w).0 =
                        ground (arith, ready, passed, same, untouched) in
                      subst (Unbooked f w) e (unchanged w)),
                  e,
                  ground (arith, ready, passed, same, stopped),
                )
                | inr (b, answer, (events, settled, place, rows', log)) ↦ inr (
                  b,
                  ground (arith, ready, passed, same, answer),
                  p,
                  ready,
                  (
                    events,
                    settled,
                    place,
                    ground (arith, ready, passed, same, rows'),
                    ground (arith, ready, passed, same, log),
                  ),
                )
              ]
        ]
  ]
