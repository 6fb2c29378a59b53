-- ===== src/BookingService/Calendar.antt =====
-- service.go and memory.go: no two active bookings of a listing share an instant.
use airbnb.Common.{
  ◌==◌, All, ok, ℕ, ◌≡◌, refl, ◌∙◌, inl, inr, Bool, false, ◌&&◌, List, [], ◌∷◌, arith, ◌>>=◌,
  Result, Bool-cases, ap, find_row, found_row-All, update_row, updated_row-All, RowsApart, NoClash,
  ClearOf, found_row-ClearOf, updated_row-NoClash,
}
use airbnb.Booking.Dates.{overlaps}
use airbnb.Booking.Reservation.{Booking, is_active}
use airbnb.BookingService.Tables.{find_booking, update_booking, has_overlap}

-- Both hold the listing on some day.
abbrev pub clash : Booking → Booking → Bool
clash x y = x.property_id == y.property_id && is_active x && is_active y && overlaps x.dates y.dates

abbrev pub key_of : Booking → ℕ
key_of b = b.id

abbrev pub Apart : Booking → Booking → Type 0
Apart = RowsApart key_of clash

abbrev pub Calendar : List Booking → Type 0
Calendar = NoClash key_of clash

-- What must hold of a new version of a row: it clashes with no other row.
abbrev pub Clear : Booking → List Booking → Type 0
Clear = ClearOf key_of clash

pub clash_comm : (x y : Booking) → clash x y ≡ clash y x
unfolding is_active overlaps
clash_comm x y = ground arith

pub Clear-of_free :
    (b : Booking) (rows : List Booking)
    → has_overlap b.property_id b.dates rows ≡ false
    → Clear b rows
unfolding has_overlap
Clear-of_free b [] h = tt
Clear-of_free b (x ∷ rest) h =
    (λ other. ground (arith, clash_comm b x), Clear-of_free b rest (ground arith))

-- The table of bookings is a table of rows.
found_as_row : (id : ℕ) (rows : List Booking) → find_row key_of id rows ≡ find_booking id rows
unfolding find_booking find_row
found_as_row id [] = refl
found_as_row id (x ∷ rest) = elim (Bool-cases (x.id == id)) [
  | inl this ↦ rw this refl
  | inr other ↦ rw other (found_as_row id rest)
]

pub updated_as_row :
    (b : Booking) (rows : List Booking) → update_row key_of b rows ≡ update_booking b rows
unfolding update_booking update_row
updated_as_row b [] = refl
updated_as_row b (x ∷ rest) = elim (Bool-cases (x.id == b.id)) [
  | inl this ↦ rw this refl
  | inr other ↦
      rw other (
        ap (λ (r : Result (List Booking)). r >>= (λ rest'. ok (x ∷ rest'))) (updated_as_row b rest))
]

pub found-All {κ} :
    (P : Booking → Type κ) (id : ℕ) (rows : List Booking) {b : Booking}
    → find_booking id rows ≡ ok b
    → All P rows
    → P b × (b.id ≡ id)
found-All P id rows h a = found_row-All key_of P id rows (found_as_row id rows ∙ h) a

pub updated-All {κ} :
    (P : Booking → Type κ) (b : Booking) (rows : List Booking) {rows' : List Booking}
    → update_booking b rows ≡ ok rows'
    → P b
    → All P rows
    → All P rows'
updated-All P b rows h p a = updated_row-All key_of P b rows (updated_as_row b rows ∙ h) p a

-- A found row clashes with no other.
pub found-Clear :
    (id : ℕ) (rows : List Booking) {b : Booking}
    → find_booking id rows ≡ ok b
    → Calendar rows
    → Clear b rows
found-Clear id rows h c =
    found_row-ClearOf key_of clash clash_comm id rows (found_as_row id rows ∙ h) c

-- A row that clashes with no other can be written.
pub updated-Calendar :
    (b : Booking) (rows : List Booking) {rows' : List Booking}
    → update_booking b rows ≡ ok rows'
    → Clear b rows
    → Calendar rows
    → Calendar rows'
updated-Calendar b rows h clear c =
    updated_row-NoClash key_of clash clash_comm b rows (updated_as_row b rows ∙ h) clear c
