-- ===== src/Experience/Overdue.antt =====
-- service.go: a tick of the scheduler against what it is for.
use airbnb.Common.{
  ltb, ◌==◌, if◌then◌else◌, is_some, All, All-map, Time, ok, ℕ, zero, suc, ◌≤◌, length, ◌≡◌, refl,
  ◌≢◌, ap, subst, inl, inr, Bool, true, false, not, ◌&&◌, ◌||◌, Bool-cases, List, [], ◌∷◌, ok_inj,
  arith, Distinct, find_row,
}
use airbnb.Experience.Reservation.{Booking, completed, end_at, complete}
use airbnb.Experience.Service.{Ports, booking_id, is_due, place_due, due_rows, first_rows}
use airbnb.Experience.Batch.{placed-All}

-- The rows of a table that pass a test.
abbrev pub count_if : (Booking → Bool) → List Booking → ℕ
count_if p [] = 0
count_if p (b ∷ rest) = if p b then suc (count_if p rest) else count_if p rest

-- Whether a tick completes this row: it is due, and the database writes it.
abbrev pub is_settled : Ports → Time → Booking → Bool
is_settled ports clock b = is_due clock b && not (is_some (ports b.id))

-- The row after the tick.
abbrev pub settled : Ports → Time → Time → Booking → Booking
settled ports clock now b =
    if is_settled ports clock b then record b { status = completed; updated_at = now } else b

abbrev pub in_batch : ℕ → List Booking → Bool
in_batch id [] = false
in_batch id (b ∷ rest) = b.id == id || in_batch id rest

placed-in_batch :
    (id : ℕ) (b : Booking) (rows : List Booking)
    → in_batch id (place_due b rows) ≡ in_batch id (b ∷ rows)
unfolding place_due
placed-in_batch id b [] = refl
placed-in_batch id b (x ∷ rest) = elim (Bool-cases (ltb (end_at x.session) (end_at b.session))) [
  | inl before ↦ let ih = placed-in_batch id b rest in rw (before, ih) (ground arith)
  | inr after ↦ rw after refl
]

placed-count_if :
    (p : Booking → Bool) (b : Booking) (rows : List Booking)
    → count_if p (place_due b rows) ≡ count_if p (b ∷ rows)
unfolding place_due
placed-count_if p b [] = refl
placed-count_if p b (x ∷ rest) = elim (Bool-cases (ltb (end_at x.session) (end_at b.session))) [
  | inl before ↦ let ih = placed-count_if p b rest in rw (before, ih) (ground arith)
  | inr after ↦ rw after refl
]

pub due-is_due :
    (clock : Time) (rows : List Booking) → All (λ b. is_due clock b ≡ true) (due_rows clock rows)
unfolding due_rows
due-is_due clock [] = tt
due-is_due clock (b ∷ rest) = elim (Bool-cases (is_due clock b)) [
  | inl due ↦ rw due (placed-All _ b (due_rows clock rest) due (due-is_due clock rest))
  | inr early ↦ rw early (due-is_due clock rest)
]

due-absent :
    (clock : Time) (id : ℕ) (rows : List Booking)
    → All (λ x. id ≢ x.id) rows
    → in_batch id (due_rows clock rows) ≡ false
unfolding due_rows
due-absent clock id [] a = refl
due-absent clock id (b ∷ rest) a =
    let ih = due-absent clock id rest a.1 in
    let other = a.0 in
    elim (Bool-cases (is_due clock b)) [
      | inl due ↦ rw (due, placed-in_batch id b (due_rows clock rest), ih) (ground arith)
      | inr early ↦ rw early ih
    ]

-- A row of the table is in the scan exactly if it is due.
pub due-in_batch :
    (clock : Time) (id : ℕ) (rows : List Booking) {b : Booking}
    → Distinct booking_id rows
    → find_row booking_id id rows ≡ ok b
    → in_batch id (due_rows clock rows) ≡ is_due clock b
unfolding due_rows find_row
due-in_batch clock id [] d found = cc
due-in_batch clock id (x ∷ rest) {b} d found = elim (Bool-cases (x.id == id)) [
  | inl this ↦
      let same : x ≡ b = ok_inj (rw this at found) in
      let gone : in_batch id (due_rows clock rest) ≡ false =
        due-absent clock id rest (All-map rest (λ y differs. λ e. differs (ground arith)) d.0) in
      subst (λ y. in_batch id (due_rows clock (x ∷ rest)) ≡ is_due clock y) same
        (elim (Bool-cases (is_due clock x)) [
          | inl due ↦ rw (due, placed-in_batch id x (due_rows clock rest), gone) (ground arith)
          | inr early ↦ rw (early, gone) refl
        ])
  | inr other ↦
      let ih = due-in_batch clock id rest d.1 (rw other at found) in
      elim (Bool-cases (is_due clock x)) [
        | inl due ↦ rw (due, placed-in_batch id x (due_rows clock rest), other) ih
        | inr early ↦ rw early ih
      ]
]

pub due-count_if :
    (ports : Ports) (clock : Time) (rows : List Booking)
    → count_if (is_settled ports clock) (due_rows clock rows)
      ≡ count_if (is_settled ports clock) rows
unfolding due_rows
due-count_if ports clock [] = refl
due-count_if ports clock (b ∷ rest) =
    let ih = due-count_if ports clock rest in
    elim (Bool-cases (is_due clock b)) [
      | inl due ↦
          rw (due, placed-count_if (is_settled ports clock) b (due_rows clock rest), ih)
            (ground arith)
      | inr early ↦ rw early (ground (arith, ih))
    ]

pub first_all : (n : ℕ) (rows : List Booking) → length rows ≤ n → first_rows n rows ≡ rows
first_all zero [] h = refl
first_all zero (b ∷ rest) h = absurd (omega arith)
first_all (suc n) [] h = refl
first_all (suc n) (b ∷ rest) h = ap (λ l. b ∷ l) (first_all n rest (omega arith))

pub complete_due :
    (clock now : Time) (b : Booking)
    → is_due clock b ≡ true
    → complete clock now b ≡ (record b { status = completed; updated_at = now }, ok tt)
unfolding complete
complete_due clock now b due = ground arith
