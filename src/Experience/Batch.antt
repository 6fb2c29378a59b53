-- ===== src/Experience/Batch.antt =====
-- memory.go and service.go: the batch that the scheduler completes.
use airbnb.Common.{
  ltb, ◌==◌, All, All-zip, Time, ok, ℕ, zero, suc, ◌≡◌, ◌≢◌, ◌∙◌, sym, inl, inr, Bool-cases, List,
  [], ◌∷◌, Distinct, find_row, found_row_self, update_row, updated_row_elsewhere,
}
use airbnb.Experience.Reservation.{Booking, end_at}
use airbnb.Experience.Service.{
  booking_id, is_due, place_due, due_rows, first_rows, find_confirmed_past_session,
}

pub placed-All :
    (P : Booking → Type 0) (b : Booking) (rows : List Booking)
    → P b
    → All P rows
    → All P (place_due b rows)
unfolding place_due
placed-All P b [] p a = (p, tt)
placed-All P b (x ∷ rest) p a = elim (Bool-cases (ltb (end_at x.session) (end_at b.session))) [
  | inl before ↦ rw before (a.0, placed-All P b rest p a.1)
  | inr after ↦ rw after (p, a)
]

placed-Distinct :
    (b : Booking) (rows : List Booking)
    → All (λ x. b.id ≢ x.id) rows
    → Distinct booking_id rows
    → Distinct booking_id (place_due b rows)
unfolding place_due
placed-Distinct b [] a d = (tt, tt)
placed-Distinct b (x ∷ rest) a d = elim (Bool-cases (ltb (end_at x.session) (end_at b.session))) [
  | inl before ↦
      rw before (
        placed-All (λ y. x.id ≢ y.id) b rest (λ e. a.0 (sym e)) d.0,
        placed-Distinct b rest a.1 d.1,
      )
  | inr after ↦ rw after (a, d)
]

-- What holds of the due rows of a table holds of those of them that are due.
pub due-All :
    (P : Booking → Type 0) (before : Time) (rows : List Booking)
    → All P rows
    → All P (due_rows before rows)
unfolding due_rows
due-All P before [] a = tt
due-All P before (b ∷ rest) a = elim (Bool-cases (is_due before b)) [
  | inl due ↦ rw due (placed-All P b (due_rows before rest) a.0 (due-All P before rest a.1))
  | inr early ↦ rw early (due-All P before rest a.1)
]

due-Distinct :
    (before : Time) (rows : List Booking)
    → Distinct booking_id rows
    → Distinct booking_id (due_rows before rows)
unfolding due_rows
due-Distinct before [] d = tt
due-Distinct before (b ∷ rest) d = elim (Bool-cases (is_due before b)) [
  | inl due ↦ rw due (
      placed-Distinct b (due_rows before rest) (due-All (λ x. b.id ≢ x.id) before rest d.0)
        (due-Distinct before rest d.1))
  | inr early ↦ rw early (due-Distinct before rest d.1)
]

first-All :
    (P : Booking → Type 0) (n : ℕ) (rows : List Booking) → All P rows → All P (first_rows n rows)
first-All P zero rows a = tt
first-All P (suc n) [] a = tt
first-All P (suc n) (b ∷ rest) a = (a.0, first-All P n rest a.1)

first-Distinct :
    (n : ℕ) (rows : List Booking)
    → Distinct booking_id rows
    → Distinct booking_id (first_rows n rows)
first-Distinct zero rows d = tt
first-Distinct (suc n) [] d = tt
first-Distinct (suc n) (b ∷ rest) d =
    (first-All (λ x. b.id ≢ x.id) n rest d.0, first-Distinct n rest d.1)

-- Each row of the batch stands in the table, and no two have one id.
abbrev pub Standing : List Booking → List Booking → Type 0
Standing rows batch =
    All (λ b. find_row booking_id b.id rows ≡ ok b) batch × Distinct booking_id batch

pub fetched-Standing :
    (before : Time) (limit : ℕ) (rows : List Booking)
    → Distinct booking_id rows
    → Standing rows (find_confirmed_past_session before limit rows)
unfolding find_confirmed_past_session
fetched-Standing before limit rows d =
    let found = due-All _ before rows (found_row_self booking_id rows d) in
    let apart = due-Distinct before rows d in
    elim (Bool-cases (limit == 0)) [
      | inl all ↦ rw all (found, apart)
      | inr some_only ↦ rw some_only (
        first-All _ limit (due_rows before rows) found,
        first-Distinct limit (due_rows before rows) apart,
      )
    ]

-- Writing one row leaves the rest of the batch standing.
pub written-Standing :
    (b b' : Booking) (rest rows : List Booking) {rows' : List Booking}
    → b'.id ≡ b.id
    → update_row booking_id b' rows ≡ ok rows'
    → Standing rows (b ∷ rest)
    → Standing rows' rest
written-Standing b b' rest rows own stored (found, apart) = (
  All-zip rest
      (λ x here differs.
        updated_row_elsewhere booking_id b' x.id rows stored (λ e. differs (sym own ∙ e)) ∙ here)
      found.1 apart.0,
  apart.1,
)
