-- ===== src/BookingService/Runs.antt =====
-- service.go: any sequence of requests, each run to its end, keeps the calendar free of double
-- bookings. The service holds no lock between its check and its write; requests that interleave
-- are kept apart by the database's constraint, which is SQL and is not modelled.
use airbnb.Common.{
  All, All-map, All-zip, Float64, Time, Result, ok, ℕ, ◌≡◌, ◌≢◌, ◌∙◌, sym, inl, inr, true, false,
  List, [], ◌∷◌, arith, subst,
}
use airbnb.Booking.Dates.{overlaps}
use airbnb.Booking.Dates.Laws.{Within}
use airbnb.Booking.Reservation.{Booking, is_active}
use airbnb.BookingService.Tables.{Event, World, has_overlap, list_active_in_range}
use airbnb.BookingService.Gates.{Ports}
use airbnb.BookingService.Manage.{
  taken_by_other, write_decided, decide_modify, modify, decide_confirm, confirm_booking,
  decide_cancel, cancel_booking, decide_complete, complete_booking,
}
use airbnb.BookingService.Subscriber.{
  split_payment_completed, payment_authorized, any_other, decide_after_auth, decide_after_split,
  handle,
}
use airbnb.BookingService.Calendar.{
  Apart, Calendar, Clear, Clear-of_free, found-Clear, updated-Calendar,
}
use airbnb.BookingService.Writes.{
  InPlace, WritesInPlace, confirm-InPlace, cancel-InPlace, complete-InPlace, after_auth-InPlace,
  after_split-InPlace, modify-Moves,
}
use airbnb.BookingService.Creation.{prepare-IsPrepared}
use airbnb.BookingService.Outcome.{create_cases}
use airbnb.BookingService.Requests.{
  Request, creating, modifying, confirming, cancelling, completing, receiving, elsewhere, serve,
  run, Fresh, FreshRun, write_cases,
}

placed-Clear : (b b' : Booking) (rows : List Booking) → InPlace b b' → Clear b rows → Clear b' rows
unfolding is_active overlaps
placed-Clear b b' rows (own, place, dates, was_active) clear =
    All-map rows
      (λ x free. λ other.
        let before = free (λ e. other (e ∙ sym own)) in
        ground (arith, before, place, dates, was_active))
      clear

moved-Clear :
    (b b' : Booking) (rows : List Booking)
    → b'.id ≡ b.id
    → b'.property_id ≡ b.property_id
    → taken_by_other b.id
        (list_active_in_range b.property_id b'.dates.check_in b'.dates.check_out rows)
      ≡ false
    → Clear b' rows
unfolding taken_by_other list_active_in_range is_active overlaps
moved-Clear b b' [] own place h = tt
moved-Clear b b' (x ∷ rest) own place h =
    ((λ other. ground arith), moved-Clear b b' rest own place (ground arith))

new-Apart :
    (b : Booking) (rows : List Booking)
    → All (λ x. x.id ≢ b.id) rows
    → Clear b rows
    → All (Apart b) rows
new-Apart b rows fresh clear =
    All-zip rows (λ x other free. ((λ e. other (sym e)), free other)) fresh clear

module _ (f : Float64) where
  write-Calendar :
      (ports : Ports) (w : World f) (decision : Result (Booking × Event f))
      → ((b : Booking) (event : Event f) → decision ≡ ok (b, event) → Clear b w.bookings)
      → Calendar w.bookings
      → Calendar (write_decided f ports w decision).0.bookings
  write-Calendar ports w decision clear c = elim (write_cases f ports w decision) [
    | inl same ↦ subst (λ w'. Calendar w'.bookings) (sym same) c
    | inr (b, event, decided, rows, stored, after, log, answer) ↦
        subst Calendar (sym after) (updated-Calendar b w.bookings stored (clear b event decided) c)
  ]

  in_place-Clear :
      (id : ℕ) (w : World f) (b' : Booking)
      → WritesInPlace f id w b'
      → Calendar w.bookings
      → Clear b' w.bookings
  in_place-Clear id w b' (b, found, same) c =
      placed-Clear b b' w.bookings same (found-Clear id w.bookings found c)

  pub serve-Calendar :
      (r : Request f) (w : World f)
      → Fresh f r w
      → Calendar w.bookings
      → Calendar (serve f r w).bookings
  unfolding serve modify confirm_booking cancel_booking complete_booking handle
  serve-Calendar (creating ports cfg id ids now in_) w fresh c =
      elim (create_cases f ports cfg id ids now in_ w) [
        | inl (same, e, refused_by) ↦ subst Calendar (sym same.0) c
        | inr (b, answer, p, made, (events, settled, place, rows, log)) ↦
            let ready = prepare-IsPrepared f ports cfg id now in_ w made in
            let free =
              subst (λ i. has_overlap i p.booking.dates w.bookings ≡ false) (sym ready.place)
                ready.free in
            let clear =
              placed-Clear p.booking b w.bookings place (Clear-of_free p.booking w.bookings free) in
            subst Calendar (sym rows) (
              new-Apart b w.bookings
                  (All-map w.bookings (λ x other. λ e. other (e ∙ place.0 ∙ ready.own)) fresh)
                  clear,
              c,
            )
      ]
  serve-Calendar (modifying ports cfg now in_) w fresh c =
      write-Calendar ports w (decide_modify f cfg now in_ w)
        (λ b event h.
          let (old, found, own, place, clear, was, is, prop, event_is) =
            modify-Moves f cfg now in_ w h in
          moved-Clear old b w.bookings own place clear)
        c
  serve-Calendar (confirming ports now actor id) w fresh c =
      write-Calendar ports w (decide_confirm f ports now actor id w)
        (λ b event h. in_place-Clear id w b (confirm-InPlace f ports now actor id w h) c) c
  serve-Calendar (cancelling ports now actor id) w fresh c =
      write-Calendar ports w (decide_cancel f now actor id w)
        (λ b event h. in_place-Clear id w b (cancel-InPlace f now actor id w h) c) c
  serve-Calendar (completing ports now actor id) w fresh c =
      write-Calendar ports w (decide_complete f now actor id w)
        (λ b event h. in_place-Clear id w b (complete-InPlace f now actor id w h) c) c
  serve-Calendar (receiving ports now (split_payment_completed id)) w fresh c =
      write-Calendar ports w (decide_after_split f ports now id w)
        (λ b event h. in_place-Clear id w b (after_split-InPlace f ports now id w h) c) c
  serve-Calendar (receiving ports now (payment_authorized id)) w fresh c =
      write-Calendar ports w (decide_after_auth f ports now id w)
        (λ b event h. in_place-Clear id w b (after_auth-InPlace f ports now id w h) c) c
  serve-Calendar (receiving ports now any_other) w fresh c = c
  serve-Calendar (elsewhere w') w fresh c = c

  run-Calendar :
      (rs : List (Request f)) (w : World f)
      → FreshRun f rs w
      → Calendar w.bookings
      → Calendar (run f rs w).bookings
  unfolding run
  run-Calendar [] w fresh c = c
  run-Calendar (r ∷ rs) w fresh c =
      run-Calendar rs (serve f r w) fresh.1 (serve-Calendar r w fresh.0 c)

-- No instant belongs to two active bookings of one listing.
abbrev pub Disjoint : Booking → Booking → Type 0
Disjoint x y =
    x.property_id ≡ y.property_id
    → is_active x ≡ true
    → is_active y ≡ true
    → (t : Time) → Within t x.dates
    → Within t y.dates
    → ⊥

abbrev pub NoDoubleBooking : List Booking → Type 0
NoDoubleBooking [] = Unit
NoDoubleBooking (b ∷ rest) = All (Disjoint b) rest × NoDoubleBooking rest

Apart-Disjoint : (x y : Booking) → Apart x y → Disjoint x y
unfolding overlaps
Apart-Disjoint x y (_, free) place a a' t at at' = ground arith

Calendar-NoDoubleBooking : (rows : List Booking) → Calendar rows → NoDoubleBooking rows
Calendar-NoDoubleBooking [] c = tt
Calendar-NoDoubleBooking (b ∷ rest) c =
    (All-map rest (Apart-Disjoint b) c.0, Calendar-NoDoubleBooking rest c.1)

-- From an empty table, through any sequence of requests (creations with fresh ids, modifications,
-- confirmations, cancellations, completions, payment events, and whatever other services do to
-- their own tables), no instant ever belongs to two active bookings of one listing.
pub run-NoDoubleBooking :
    (f : Float64) (rs : List (Request f)) (w : World f)
    → w.bookings ≡ []
    → FreshRun f rs w
    → NoDoubleBooking (run f rs w).bookings
run-NoDoubleBooking f rs w empty fresh =
    Calendar-NoDoubleBooking (run f rs w).bookings
      (run-Calendar f rs w fresh (subst Calendar (sym empty) tt))
