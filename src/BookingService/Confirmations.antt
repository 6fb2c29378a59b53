-- ===== src/BookingService/Confirmations.antt =====
-- service.go and the outbox: through any requests, each confirmation is announced exactly once.
use airbnb.Common.{Float64, Result, ok, ℕ, ◌≡◌, refl, ◌∙◌, sym, inl, inr, List, [], ◌∷◌, subst}
use airbnb.Booking.Reservation.{Booking}
use airbnb.BookingService.Tables.{Event, World}
use airbnb.BookingService.Gates.{Ports}
use airbnb.BookingService.Create.{create}
use airbnb.BookingService.Manage.{
  write_decided, decide_modify, modify, decide_confirm, confirm_booking, decide_cancel,
  cancel_booking, decide_complete, complete_booking,
}
use airbnb.BookingService.Subscriber.{
  split_payment_completed, payment_authorized, any_other, decide_after_auth, decide_after_split,
  handle,
}
use airbnb.BookingService.Announced.{
  Tallies, confirm-Tallies, cancel-Tallies, complete-Tallies, after_auth-Tallies,
  after_split-Tallies, modify-Tallies, created-Tally,
}
use airbnb.BookingService.Calendar.{Calendar}
use airbnb.BookingService.Creation.{prepare-IsPrepared}
use airbnb.BookingService.Outcome.{create_cases}
use airbnb.BookingService.Requests.{
  Request, creating, modifying, confirming, cancelling, completing, receiving, elsewhere, serve,
  run, Fresh, FreshRun, write_cases,
}
use airbnb.BookingService.Runs.{serve-Calendar}
use airbnb.BookingService.Log.{
  Absent, IsAnnounced, updated-IsAnnounced, Unbooked-IsAnnounced, created-IsAnnounced,
}

module _ (f : Float64) where
  write-IsAnnounced :
      (id : ℕ) (ports : Ports) (w : World f) (decision : Result (Booking × Event f))
      → ((b : Booking) (event : Event f) → decision ≡ ok (b, event) → Tallies f id w b event)
      → Calendar w.bookings
      → IsAnnounced f w.bookings w.outbox
      → IsAnnounced f
          (write_decided f ports w decision).0.bookings
          (write_decided f ports w decision).0.outbox
  write-IsAnnounced id ports w decision tallies c s = elim (write_cases f ports w decision) [
    | inl same ↦ subst (λ w'. IsAnnounced f w'.bookings w'.outbox) (sym same) s
    | inr (b, event, decided, rows, stored, after, log, answer) ↦
        subst (λ r. IsAnnounced f r (write_decided f ports w decision).0.outbox) (sym after)
          (subst (IsAnnounced f rows) (sym log)
            (updated-IsAnnounced f id w b event (tallies b event decided) stored c s))
  ]

  serve-IsAnnounced :
      (r : Request f) (w : World f)
      → Fresh f r w
      → Calendar w.bookings
      → IsAnnounced f w.bookings w.outbox
      → IsAnnounced f (serve f r w).bookings (serve f r w).outbox
  unfolding serve modify confirm_booking cancel_booking complete_booking handle
  serve-IsAnnounced (creating ports cfg id ids now in_) w fresh c s =
      elim (create_cases f ports cfg id ids now in_ w) [
        | inl (same, e, refused_by) ↦
            Unbooked-IsAnnounced f w (create f ports cfg id ids now in_ w).0 same s
        | inr (b, answer, p, made, (events, settled, place, rows, log)) ↦
            let ready = prepare-IsPrepared f ports cfg id now in_ w made in
            let (tally, others) =
              created-Tally f ports now p.prop in_ p.booking ready.open_status settled in
            let new_id : b.id ≡ id = place.0 ∙ ready.own in
            subst (λ r. IsAnnounced f r (create f ports cfg id ids now in_ w).0.outbox) (sym rows)
              (subst (IsAnnounced f (b ∷ w.bookings)) (sym log) (
                created-IsAnnounced f w b events tally others
                  (subst (λ i. Absent i w.bookings) (sym new_id) fresh) s))
      ]
  serve-IsAnnounced (modifying ports cfg now in_) w fresh c s =
      write-IsAnnounced in_.booking_id ports w (decide_modify f cfg now in_ w)
        (λ b event h. modify-Tallies f cfg now in_ w h) c s
  serve-IsAnnounced (confirming ports now actor id) w fresh c s =
      write-IsAnnounced id ports w (decide_confirm f ports now actor id w)
        (λ b event h. confirm-Tallies f ports now actor id w h) c s
  serve-IsAnnounced (cancelling ports now actor id) w fresh c s =
      write-IsAnnounced id ports w (decide_cancel f now actor id w)
        (λ b event h. cancel-Tallies f now actor id w h) c s
  serve-IsAnnounced (completing ports now actor id) w fresh c s =
      write-IsAnnounced id ports w (decide_complete f now actor id w)
        (λ b event h. complete-Tallies f now actor id w h) c s
  serve-IsAnnounced (receiving ports now (split_payment_completed id)) w fresh c s =
      write-IsAnnounced id ports w (decide_after_split f ports now id w)
        (λ b event h. after_split-Tallies f ports now id w h) c s
  serve-IsAnnounced (receiving ports now (payment_authorized id)) w fresh c s =
      write-IsAnnounced id ports w (decide_after_auth f ports now id w)
        (λ b event h. after_auth-Tallies f ports now id w h) c s
  serve-IsAnnounced (receiving ports now any_other) w fresh c s = s
  serve-IsAnnounced (elsewhere w') w fresh c s = s

  run_announces :
      (rs : List (Request f)) (w : World f)
      → FreshRun f rs w
      → Calendar w.bookings
      → IsAnnounced f w.bookings w.outbox
      → IsAnnounced f (run f rs w).bookings (run f rs w).outbox
  unfolding run
  run_announces [] w fresh c s = s
  run_announces (r ∷ rs) w fresh c s =
      run_announces rs (serve f r w) fresh.1 (serve-Calendar f r w fresh.0 c)
        (serve-IsAnnounced r w fresh.0 c s)

-- From an empty table and an empty log, through any sequence of requests: of every confirmed or
-- completed booking the log has exactly one announcement that it is confirmed, of a pending one
-- none, of a cancelled one at most one, and of ids that no booking has none.
pub run-IsAnnounced :
    (f : Float64) (rs : List (Request f)) (w : World f)
    → w.bookings ≡ []
    → w.outbox ≡ []
    → FreshRun f rs w
    → IsAnnounced f (run f rs w).bookings (run f rs w).outbox
run-IsAnnounced f rs w empty silent fresh =
    run_announces f rs w fresh (subst Calendar (sym empty) tt) (
      subst (λ r. IsAnnounced f r w.outbox) (sym empty)
        (subst (IsAnnounced f []) (sym silent)
          (record { tallied = tt; unknown = λ i absent. refl })))
