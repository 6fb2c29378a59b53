-- ===== src/Experience/Ticks.antt =====
-- service.go: a tick of the scheduler completes what is due, and nothing else.
use airbnb.Common.{
  ◌==◌, if◌then◌else◌, is_some, All, Float64, Time, Error, Result, ok, err, Method, ℕ, suc, ◌≤◌,
  length, ◌≡◌, refl, ◌∙◌, sym, ap, subst, ◌⊎◌, inl, inr, true, false, Bool-cases, Option-cases,
  List, [], ◌∷◌, ok_inj, arith, Distinct, find_row, found_row_key, update_row, update_row_accepts,
  updated_row_elsewhere, updated_row_found,
}
use mathlib.Core.List.{append-nil}
use airbnb.Experience.Reservation.{Booking, completed, complete}
use airbnb.Experience.Service.{
  World, Ports, booking_id, is_due, due_rows, find_confirmed_past_session, transition, write_row,
  complete_each, auto_complete_overdue,
}
use airbnb.Experience.Batch.{Standing, fetched-Standing, written-Standing}
use airbnb.Experience.Overdue.{
  count_if, is_settled, settled, in_batch, due-is_due, due-in_batch, due-count_if, first_all,
  complete_due,
}

-- A row that the database does not write.
passed_over :
    (ports : Ports) (clock now : Time) (id : ℕ) (x b : Booking) (rest : List Booking)
    (r : Result Booking)
    → is_some (ports x.id) ≡ true
    → b.id ≡ id
    → r ≡ ok (if in_batch id rest then settled ports clock now b else b)
    → r ≡ ok (if in_batch id (x ∷ rest) then settled ports clock now b else b)
passed_over ports clock now id x b rest r fails own h = elim (Bool-cases (x.id == id)) [
  | inr other ↦ rw other h
  | inl this ↦
      let same : x.id ≡ b.id = ground (arith, this, own) in
      let broken : is_some (ports b.id) ≡ true = ap (λ i. is_some (ports i)) (sym same) ∙ fails in
      let stays : settled ports clock now b ≡ b = ground (arith, broken) in
      rw (this, stays)
        (h ∙ (elim (Bool-cases (in_batch id rest)) [
          | inl again ↦ rw (again, stays) refl
          | inr once ↦ rw once refl
        ]))
]

module _ (f : Float64) where
  -- The table after a row was tried.
  stepped :
      (ports : Ports) (clock now : Time) (b : Booking) (w : World f)
      → find_row booking_id b.id w.bookings ≡ ok b
      → is_due clock b ≡ true
      → let out = transition f ports w (complete clock now b) (λ b'. []) in
        ((is_some (ports b.id) ≡ true) × (out.0 ≡ w) × (e : Error) × (out.1 ≡ err e))
        ⊎ ((is_some (ports b.id) ≡ false)
            × (rows : List Booking) × (update_row booking_id
                  (record b { status = completed; updated_at = now })
                  w.bookings
                ≡ ok rows)
            × (out ≡ (
              record w { bookings = rows },
              ok (record b { status = completed; updated_at = now }),
            )))
  unfolding transition write_row
  stepped ports clock now b w found due =
      let b' : Booking = record b { status = completed; updated_at = now } in
      let (rows, stored) = update_row_accepts booking_id b' w.bookings found in
      let does = complete_due clock now b due in
      let given = ap (λ m. transition f ports w m (λ x. [])) does in
      elim (Option-cases (ports b.id)) [
        | inr (e, fails) ↦
            let out : transition f ports w (b', ok tt) (λ x. []) ≡ (w, err e) =
              rw (stored, fails, write_row) refl in
            inl (
              rw fails refl,
              ap (λ (r : Method (World f) Booking). r.0) (given ∙ out),
              e,
              ap (λ (r : Method (World f) Booking). r.1) (given ∙ out),
            )
        | inl works ↦
            let out : transition f ports w (b', ok tt) (λ x. [])
                ≡ (record w { bookings = rows }, ok b') =
              rw (stored, works, write_row, append-nil w.told) refl in
            inr (rw works refl, rows, stored, given ∙ out)
      ]

  -- What the loop does to the rows, and how many it counts.
  each_settles :
      (ports : Ports) (clock now : Time) (batch : List Booking) (w : World f)
      → Standing w.bookings batch
      → All (λ b. is_due clock b ≡ true) batch
      → let out = complete_each f ports clock now batch w in
        (out.0.told ≡ w.told)
        × (out.1 ≡ count_if (is_settled ports clock) batch)
        × ((id : ℕ) (b : Booking)
            → find_row booking_id id w.bookings ≡ ok b
            → find_row booking_id id out.0.bookings
              ≡ ok (if in_batch id batch then settled ports clock now b else b))
  unfolding complete_each
  each_settles ports clock now [] w standing due = (refl, refl, λ id b found. found)
  each_settles ports clock now (x ∷ rest) w standing due =
      let x' : Booking = record x { status = completed; updated_at = now } in
      let is_due_x = due.0 in
      elim (stepped ports clock now x w standing.0.0 due.0) [
        | inl (fails, same, e, answer) ↦
            let (told, counted, found) =
              each_settles ports clock now rest w (standing.0.1, standing.1.1) due.1 in
            rw (answer, same, complete_each)
              (
                told,
                counted ∙ sym (rw (is_due_x, fails) refl),
                λ id b has.
                    passed_over ports clock now id x b rest _ fails
                      (found_row_key booking_id id w.bookings has) (found id b has),
              )
        | inr (works, rows, stored, out) ↦
            let w1 : World f = record w { bookings = rows } in
            let (told, counted, found) =
              each_settles ports clock now rest w1
                (written-Standing x x' rest w.bookings refl stored standing) due.1 in
            let moved = ap (λ (r : Method (World f) Booking). r.0) out in
            let answer = ap (λ (r : Method (World f) Booking). r.1) out in
            rw (answer, moved, complete_each)
              (
                told,
                ap (λ n. suc n) counted ∙ sym (rw (is_due_x, works) refl),
                λ id b has. elim (Bool-cases (x.id == id)) [
                  | inr other ↦ rw other (
                      found id b (
                        updated_row_elsewhere booking_id x' id w.bookings stored (ground arith)
                        ∙ has))
                  | inl this ↦
                      let same : x.id ≡ id = ground arith in
                      let is_b : b ≡ x = ok_inj (
                        sym has
                        ∙ ap (λ i. find_row booking_id i w.bookings) (sym same)
                        ∙ standing.0.0) in
                      let after = found id x' (
                        ap (λ i. find_row booking_id i rows) (sym same)
                        ∙ updated_row_found booking_id x' w.bookings stored) in
                      let once : settled ports clock now x' ≡ x' = refl in
                      let becomes : settled ports clock now x ≡ x' = rw (is_due_x, works) refl in
                      rw (is_b, this, becomes)
                        (after ∙ (elim (Bool-cases (in_batch id rest)) [
                          | inl again ↦ rw again refl
                          | inr last ↦ rw last refl
                        ]))
                ],
              )
      ]

  -- For distinct ids and at most 500 due rows, what a tick does: under each id stands the row that
  -- stood there, completed if it was confirmed, its session had ended and it could be written;
  -- nothing is told, and the count is that of the rows completed.
  pub tick_settles :
      (ports : Ports) (clock now : Time) (w : World f)
      → Distinct booking_id w.bookings
      → length (due_rows clock w.bookings) ≤ 500
      → let out = auto_complete_overdue f ports clock now w in
        ((id : ℕ) (b : Booking)
          → find_row booking_id id w.bookings ≡ ok b
          → find_row booking_id id out.0.bookings ≡ ok (settled ports clock now b))
        × (out.0.told ≡ w.told)
        × (out.1 ≡ count_if (is_settled ports clock) w.bookings)
  unfolding auto_complete_overdue find_confirmed_past_session
  tick_settles ports clock now w distinct few =
      let due = due_rows clock w.bookings in
      let all_ : find_confirmed_past_session clock 500 w.bookings ≡ due = first_all 500 due few in
      let standing : Standing w.bookings due =
        subst (Standing w.bookings) all_ (fetched-Standing clock 500 w.bookings distinct) in
      let (told, counted, found) =
        each_settles ports clock now due w standing (due-is_due clock w.bookings) in
      rw all_ (
        (λ id b has.
            found id b has
            ∙ ap (λ x. ok x)
                (rw (due-in_batch clock id w.bookings distinct has)
                  (elim (Bool-cases (is_due clock b)) [
                    | inl is_ ↦ rw is_ refl
                    | inr early ↦ rw early refl
                  ]))),
        told,
        counted ∙ due-count_if ports clock w.bookings,
      )
