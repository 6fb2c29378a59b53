-- ===== src/Experience/History.antt =====
-- application/experiencebooking/service.go: the events of a booking, read in order, tell its status.
use airbnb.Common.{
  ◌==◌, if◌then◌else◌, All, All-map, All-zip, ℕ, ◌≡◌, refl, ◌≢◌, ◌∙◌, Bool-cases, inl, inr, Bool,
  arith, List, [], ◌∷◌, ◌++◌, find_row, found_row-All, update_row, updated_row_back, create_row,
  created_row-All, created_row_fresh, created_row_back, replaced_row-All, NoClash, ok, sym, ap,
}
use airbnb.Experience.Reservation.{Booking, Status, pending, confirmed, cancelled, completed}
use airbnb.Experience.Service.{
  Event, booking_created, booking_confirmed, booking_cancelled, booking_id,
}

-- What a subscriber who follows the events knows of a booking; `broken` if they make no sense, as
-- when a confirmation comes twice.
pub data Phase : Type 0 where
  unborn waiting going called_off broken : Phase

abbrev pub next : Event → Phase → Phase
next (booking_created _ _ _ _ _ _ _ _) unborn = waiting
next (booking_confirmed _ _ _ _ _ _) waiting = going
next (booking_cancelled _ _ _ _ _ _ _) waiting = called_off
next (booking_cancelled _ _ _ _ _ _ _) going = called_off
next _ _ = broken

abbrev pub about : Event → ℕ
about (booking_created i _ _ _ _ _ _ _) = i
about (booking_confirmed i _ _ _ _ _) = i
about (booking_cancelled i _ _ _ _ _ _) = i

abbrev pub replay : ℕ → Phase → List Event → Phase
replay i p [] = p
replay i p (e ∷ log) = replay i (if about e == i then next e p else p) log

-- The phase of a status; a completion is told to nobody.
abbrev pub phase : Status → Phase
phase pending = waiting
phase confirmed = going
phase completed = going
phase cancelled = called_off

replay-append :
    (i : ℕ) (p : Phase) (log more : List Event)
    → replay i p (log ++ more) ≡ replay i (replay i p log) more
replay-append i p [] more = refl
replay-append i p (e ∷ log) more = replay-append i (if about e == i then next e p else p) log more

replay_elsewhere :
    (i : ℕ) (p : Phase) (evs : List Event) → All (λ e. about e ≢ i) evs → replay i p evs ≡ p
replay_elsewhere i p [] a = refl
replay_elsewhere i p (e ∷ rest) a = elim (Bool-cases (about e == i)) [
  | inl this ↦ absurd (a.0 (ground arith))
  | inr other ↦ rw other (replay_elsewhere i p rest a.1)
]

-- The log tells the status of each row, and nothing of other ids.
pub record IsRecorded (rows : List Booking) (log : List Event) : Type 0 where
  pub told : All (λ b. replay b.id unborn log ≡ phase b.status) rows
  pub silent : (i : ℕ) → All (λ x. x.id ≢ i) rows → replay i unborn log ≡ unborn

-- The events of one booking, which lead from one of its phases to another.
abbrev pub Leads : ℕ → Phase → List Event → Phase → Type 0
Leads i p evs q = All (λ e. about e ≡ i) evs × (replay i p evs ≡ q)

elsewhere_same :
    (i j : ℕ) (log evs : List Event)
    → All (λ e. about e ≡ j) evs
    → j ≢ i
    → replay i unborn (log ++ evs) ≡ replay i unborn log
elsewhere_same i j log evs own other =
    replay-append i unborn log evs
    ∙ replay_elsewhere i (replay i unborn log) evs
        (All-map evs (λ e same. λ this. other (sym same ∙ this)) own)

module _ (clash : Booking → Booking → Bool) where
  pub updated-IsRecorded :
      (b b' : Booking) (rows : List Booking) (log evs : List Event) {rows' : List Booking}
      → find_row booking_id b'.id rows ≡ ok b
      → Leads b'.id (phase b.status) evs (phase b'.status)
      → update_row booking_id b' rows ≡ ok rows'
      → NoClash booking_id clash rows
      → IsRecorded rows log
      → IsRecorded rows' (log ++ evs)
  updated-IsRecorded b b' rows log evs found (own, leads) stored c s =
      let (before, same) =
        found_row-All booking_id (λ x. replay x.id unborn log ≡ phase x.status) b'.id rows found
          s.told in
      let here : replay b'.id unborn (log ++ evs) ≡ phase b'.status =
        replay-append b'.id unborn log evs
        ∙ ap (λ p. replay b'.id p evs) (ap (λ i. replay i unborn log) (sym same) ∙ before)
        ∙ leads in
      record {
        told =
            replaced_row-All booking_id clash
              (λ x. replay x.id unborn (log ++ evs) ≡ phase x.status) b' rows stored c here
              (All-map rows
                (λ x h. λ other. elsewhere_same x.id b'.id log evs own (λ e. other (sym e)) ∙ h)
                s.told);
        silent = λ i absent.
            let (was, differs) = updated_row_back booking_id (λ j. j ≢ i) b' rows stored absent in
            elsewhere_same i b'.id log evs own differs ∙ s.silent i was;
      }

  pub created-IsRecorded :
      (b : Booking) (rows : List Booking) (log evs : List Event) {rows' : List Booking}
      → Leads b.id unborn evs (phase b.status)
      → create_row booking_id b rows ≡ ok rows'
      → IsRecorded rows log
      → IsRecorded rows' (log ++ evs)
  created-IsRecorded b rows log evs (own, leads) stored s =
      let fresh = created_row_fresh booking_id b rows stored in
      let here : replay b.id unborn (log ++ evs) ≡ phase b.status =
        replay-append b.id unborn log evs
        ∙ ap (λ p. replay b.id p evs) (s.silent b.id fresh)
        ∙ leads in
      record {
        told =
            created_row-All booking_id (λ x. replay x.id unborn (log ++ evs) ≡ phase x.status) b
              rows stored here
              (All-zip rows
                (λ x h other. elsewhere_same x.id b.id log evs own (λ e. other (sym e)) ∙ h) s.told
                fresh);
        silent = λ i absent.
            let (was, differs) = created_row_back booking_id (λ j. j ≢ i) b rows stored absent in
            elsewhere_same i b.id log evs own differs ∙ s.silent i was;
      }
