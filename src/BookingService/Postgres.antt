-- ===== src/BookingService/Postgres.antt =====
-- postgres/booking_repository.go: the `Update` of the production store, which writes two columns, under a
-- modification, which changes more.
use airbnb.Common.{
  ◌==◌, if◌then◌else◌, Float64, Time, ok, ok_inj, ℕ, ◌≡◌, refl, sym, ap, ◌∙◌, inl, inr, true, false,
  List, [], ◌∷◌, arith, Bool-cases,
}
use airbnb.Booking.Reservation.{Booking}
use airbnb.BookingService.Tables.{Event, World, find_booking}
use airbnb.BookingService.Gates.{Config}
use airbnb.BookingService.Manage.{ModifyInput, decide_modify}
use airbnb.BookingService.Writes.{modify-Moves}

-- `UPDATE bookings SET status=$2, updated_at=$3 WHERE id=$1`
unfoldable pub update_columns : Booking → List Booking → List Booking
update_columns b [] = []
update_columns b (x ∷ rest) =
    (if x.id == b.id then record x { status = b.status; updated_at = b.updated_at } else x)
    ∷ update_columns b rest

found_after :
    (id : ℕ) (b' : Booking) (rows : List Booking) {b : Booking}
    → find_booking id rows ≡ ok b
    → b'.id ≡ id
    → find_booking id (update_columns b' rows)
      ≡ ok (record b { status = b'.status; updated_at = b'.updated_at })
unfolding find_booking update_columns
found_after id b' [] h e = cc
found_after id b' (x ∷ rest) {b} h e = elim (Bool-cases (x.id == id)) [
  | inl this ↦
      let same = ok_inj (rw this at h) in
      let hit : x.id == b'.id ≡ true = rw e this in
      rw (hit, this)
        (ap (λ (r : Booking). ok (record r { status = b'.status; updated_at = b'.updated_at }))
          same)
  | inr other ↦
      let miss : x.id == b'.id ≡ false = rw e other in
      rw (miss, other) (found_after id b' rest (rw other at h) e)
]

found-id : (id : ℕ) (rows : List Booking) {b : Booking} → find_booking id rows ≡ ok b → b.id ≡ id
unfolding find_booking
found-id id [] h = cc
found-id id (x ∷ rest) h = elim (Bool-cases (x.id == id)) [
  | inl this ↦ ap (λ (r : Booking). r.id) (sym (ok_inj (rw this at h))) ∙ ground arith
  | inr other ↦ found-id id rest (rw other at h)
]

-- Whenever `Modify` accepts a change, the row that the production store then holds has the dates,
-- the guests and the price of before, whatever they were changed to.
pub modify_not_stored :
    (f : Float64) (cfg : Config f) (now : Time) (in_ : ModifyInput) (w : World f) {b' : Booking}
    {e : Event f}
    → decide_modify f cfg now in_ w ≡ ok (b', e)
    → (b : Booking) × (find_booking in_.booking_id w.bookings ≡ ok b)
      × (stored : Booking) × (find_booking in_.booking_id (update_columns b' w.bookings)
          ≡ ok stored)
      × (stored.dates ≡ b.dates)
      × (stored.guests ≡ b.guests)
      × (stored.pricing ≡ b.pricing)
modify_not_stored f cfg now in_ w {b'} h =
    let (b, found, own, place, clear, was, is_now, prop, event_is) =
      modify-Moves f cfg now in_ w h in
    (
      b,
      found,
      record b { status = b'.status; updated_at = b'.updated_at },
      found_after in_.booking_id b' w.bookings found
          (own ∙ found-id in_.booking_id w.bookings found),
      refl,
      refl,
      refl,
    )
