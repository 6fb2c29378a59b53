-- ===== src/BookingService/Log.antt =====
-- The outbox: what a row update, a request that books nothing and a new booking do to the count of
-- announcements.
use airbnb.Common.{
  replaced_row-All, updated_row_back, All, All-map, All-zip, Float64, ok, ℕ, ◌≡◌, refl, ◌≢◌, ◌∙◌,
  sym, List, [], ◌∷◌, ◌++◌, ◌+◌, arith, ap, subst,
}
use airbnb.Booking.Reservation.{Booking}
use airbnb.BookingService.Tables.{Event, World, update_booking}
use airbnb.BookingService.Announced.{announces, announcements, Tally, announcements-append, Tallies}
use airbnb.BookingService.Calendar.{key_of, clash, Calendar, found-All, updated_as_row}
use airbnb.BookingService.Outcome.{IsPrompt, Unbooked}

-- Replacing the one row with an id.
replaced-All :
    (Q : Booking → Type 0) (b : Booking) (rows : List Booking) {rows' : List Booking}
    → update_booking b rows ≡ ok rows'
    → Calendar rows
    → Q b
    → All (λ x. x.id ≢ b.id → Q x) rows
    → All Q rows'
replaced-All Q b rows h c q a =
    replaced_row-All key_of clash Q b rows (updated_as_row b rows ∙ h) c q a

-- No row of the table has this id.
abbrev pub Absent : ℕ → List Booking → Type 0
Absent i rows = All (λ x. x.id ≢ i) rows

replaced-Absent :
    (i : ℕ) (b : Booking) (rows : List Booking) {rows' : List Booking}
    → update_booking b rows ≡ ok rows'
    → Absent i rows'
    → Absent i rows × (i ≢ b.id)
replaced-Absent i b rows h a =
    let (before, own) = updated_row_back key_of (λ j. j ≢ i) b rows (updated_as_row b rows ∙ h) a in
    (before, (λ e. own (sym e)))

-- What the log says of every row, and that it says nothing of other ids.
pub record IsAnnounced (f : Float64) (rows : List Booking) (log : List (Event f)) : Type 0 where
  pub tallied : All (λ b. Tally b.status (announcements b.id log)) rows
  pub unknown : (i : ℕ) → Absent i rows → announcements i log ≡ 0

module _ (f : Float64) where
  one_more :
      (i : ℕ) (log : List (Event f)) (e : Event f)
      → announcements i (log ++ e ∷ []) ≡ announcements i log + announces i e
  one_more i log e = omega (arith, announcements-append i log (e ∷ []))

  pub updated-IsAnnounced :
      (id : ℕ) (w : World f) (b' : Booking) (e : Event f) {rows' : List Booking}
      → Tallies f id w b' e
      → update_booking b' w.bookings ≡ ok rows'
      → Calendar w.bookings
      → IsAnnounced f w.bookings w.outbox
      → IsAnnounced f rows' (w.outbox ++ e ∷ [])
  updated-IsAnnounced id w b' e (b, found, own, moves, others) stored c s =
      let log = w.outbox in
      let (tally, _) =
        found-All (λ x. Tally x.status (announcements x.id log)) id w.bookings found s.tallied in
      let here = moves (announcements b.id log) tally in
      record {
        tallied =
            replaced-All (λ x. Tally x.status (announcements x.id (log ++ e ∷ []))) b' w.bookings
              stored c
              (subst (Tally b'.status)
                (ap (λ (i : ℕ). announcements i log + announces b'.id e) (sym own)
                  ∙ sym (one_more b'.id log e))
                here)
              (All-map w.bookings
                (λ x t. λ differs.
                  let silent = others x.id differs in
                  let same : announcements x.id log ≡ announcements x.id (log ++ e ∷ []) =
                    omega (arith, one_more x.id log e, silent) in
                  subst (Tally x.status) same t)
                s.tallied);
        unknown = λ i absent.
            let (before, differs) = replaced-Absent i b' w.bookings stored absent in
            let silent = others i differs in
            let nothing = s.unknown i before in omega (arith, one_more i log e, silent, nothing);
      }

  prompts_silent :
      (i : ℕ) (prompts : List (Event f)) → All IsPrompt prompts → announcements i prompts ≡ 0
  prompts_silent i [] h = refl
  prompts_silent i (e ∷ es) h = ground (arith, prompts_silent i es h.1)

  pub Unbooked-IsAnnounced :
      (w w' : World f)
      → Unbooked f w w'
      → IsAnnounced f w.bookings w.outbox
      → IsAnnounced f w'.bookings w'.outbox
  Unbooked-IsAnnounced w w' (rows, prompts, log, only) s =
      let same = λ (i : ℕ).
        announcements-append i w.outbox prompts
        ∙ ap (λ (n : ℕ). announcements i w.outbox + n) (prompts_silent i prompts only)
        ∙ omega arith in
      subst (λ r. IsAnnounced f r w'.outbox) (sym rows)
        (subst (IsAnnounced f w.bookings) (sym log) (record {
          tallied =
              All-map w.bookings (λ x t. subst (Tally x.status) (sym (same x.id)) t) s.tallied;
          unknown = λ i absent. same i ∙ s.unknown i absent;
        }))

  pub created-IsAnnounced :
      (w : World f) (b : Booking) (events : List (Event f))
      → Tally b.status (announcements b.id events)
      → ((i : ℕ) → i ≢ b.id → announcements i events ≡ 0)
      → Absent b.id w.bookings
      → IsAnnounced f w.bookings w.outbox
      → IsAnnounced f (b ∷ w.bookings) (w.outbox ++ events)
  created-IsAnnounced w b events tally others fresh s =
      let split = λ (i : ℕ). announcements-append i w.outbox events in
      record {
        tallied = (
          subst (Tally b.status)
              (let none_yet = s.unknown b.id fresh in omega (arith, split b.id, none_yet)) tally,
          All-zip w.bookings
              (λ x t differs.
                let silent = others x.id differs in
                let same : announcements x.id w.outbox ≡ announcements x.id (w.outbox ++ events) =
                  omega (arith, split x.id, silent) in
                subst (Tally x.status) same t)
              s.tallied fresh,
        );
        unknown = λ i absent.
            let silent = others i (λ e. absent.0 (sym e)) in
            let before = s.unknown i absent.1 in omega (arith, split i, silent, before);
      }
