-- ===== src/BookingService/Writes.antt =====
-- service.go: which row each operation writes.
use airbnb.Common.{
  ◌==◌, Float64, Time, ok, ok_inj, ℕ, ℤ, pos, ◌≡◌, ◌∙◌, sym, inl, inr, true, false, List, [], ◌∷◌,
  arith, Bool-cases, Result-cases, ap,
}
use airbnb.Booking.Dates.{DateRange, new_date_range, nights}
use airbnb.Booking.Reservation.{
  Booking, pending, is_active, confirm, cancel, complete, reschedule_from_subtotal,
  apply_reschedule,
}
use airbnb.Shared.{Money}
use airbnb.Booking.Pricing.{Discounts}
use airbnb.BookingService.Nightly.{nightly_subtotal, extra_guest_fee}
use airbnb.Listing.{Property}
use airbnb.BookingService.Tables.{
  Event, booking_modified, World, find_booking, list_active_in_range, find_property,
}
use airbnb.BookingService.Gates.{Ports, Config}
use airbnb.BookingService.Manage.{
  modified_terms, taken_by_other, booking_with_property, decide_confirm, decide_cancel,
  decide_complete, decide_modify, ModifyInput,
}
use airbnb.BookingService.Subscriber.{decide_after_auth, decide_after_split}

-- A new version of a row that stays where it was, and is active only if it was.
abbrev pub InPlace : Booking → Booking → Type 0
InPlace b b' =
    (b'.id ≡ b.id)
    × (b'.property_id ≡ b.property_id)
    × (b'.dates ≡ b.dates)
    × (is_active b' ≡ true → is_active b ≡ true)

module _ (f : Float64) where
  abbrev pub WritesInPlace : ℕ → World f → Booking → Type 0
  WritesInPlace id w b' = (b : Booking) × (find_booking id w.bookings ≡ ok b) × InPlace b b'

  pub confirm-InPlace :
      (ports : Ports) (now : Time) (actor id : ℕ) (w : World f) {b' : Booking} {e : Event f}
      → decide_confirm f ports now actor id w ≡ ok (b', e)
      → WritesInPlace id w b'
  unfolding decide_confirm booking_with_property confirm is_active
  confirm-InPlace ports now actor id w h = elim (Result-cases (find_booking id w.bookings)) [
    | inl (b, found) ↦ (b, found, ground (arith, found))
    | inr (e, missing) ↦ cc (rw missing at h)
  ]

  pub cancel-InPlace :
      (now : Time) (actor id : ℕ) (w : World f) {b' : Booking} {e : Event f}
      → decide_cancel f now actor id w ≡ ok (b', e)
      → WritesInPlace id w b'
  unfolding decide_cancel booking_with_property cancel is_active
  cancel-InPlace now actor id w h = elim (Result-cases (find_booking id w.bookings)) [
    | inl (b, found) ↦ (b, found, ground (arith, found))
    | inr (e, missing) ↦ cc (rw missing at h)
  ]

  pub complete-InPlace :
      (now : Time) (actor id : ℕ) (w : World f) {b' : Booking} {e : Event f}
      → decide_complete f now actor id w ≡ ok (b', e)
      → WritesInPlace id w b'
  unfolding decide_complete booking_with_property complete is_active
  complete-InPlace now actor id w h = elim (Result-cases (find_booking id w.bookings)) [
    | inl (b, found) ↦ (b, found, ground (arith, found))
    | inr (e, missing) ↦ cc (rw missing at h)
  ]

  pub after_auth-InPlace :
      (ports : Ports) (now : Time) (id : ℕ) (w : World f) {b' : Booking} {e : Event f}
      → decide_after_auth f ports now id w ≡ ok (b', e)
      → WritesInPlace id w b'
  unfolding decide_after_auth confirm is_active
  after_auth-InPlace ports now id w h = elim (Result-cases (find_booking id w.bookings)) [
    | inl (b, found) ↦ (b, found, ground (arith, found))
    | inr (e, missing) ↦ cc (rw missing at h)
  ]

  pub after_split-InPlace :
      (ports : Ports) (now : Time) (id : ℕ) (w : World f) {b' : Booking} {e : Event f}
      → decide_after_split f ports now id w ≡ ok (b', e)
      → WritesInPlace id w b'
  unfolding decide_after_split confirm is_active
  after_split-InPlace ports now id w h = elim (Result-cases (find_booking id w.bookings)) [
    | inl (b, found) ↦ (b, found, ground (arith, found))
    | inr (e, missing) ↦ cc (rw missing at h)
  ]

  pub find_property-id :
      (id : ℕ) (ps : List (Property f)) {p : Property f} → find_property f id ps ≡ ok p → p.id ≡ id
  unfolding find_property
  find_property-id id [] h = cc
  find_property-id id (x ∷ rest) h = elim (Bool-cases (x.id == id)) [
    | inl this ↦ ap (λ r. r.id) (sym (ok_inj (rw this at h))) ∙ ground arith
    | inr other ↦ find_property-id id rest (rw other at h)
  ]

  -- A modification moves the row to dates that no other active booking of the listing holds.
  abbrev pub Moves : ℕ → World f → Booking → Event f → Type 0
  Moves id w b' e =
      (b : Booking) × (find_booking id w.bookings ≡ ok b)
      × (b'.id ≡ b.id)
      × (b'.property_id ≡ b.property_id)
      × (taken_by_other b.id
            (list_active_in_range b.property_id b'.dates.check_in b'.dates.check_out w.bookings)
          ≡ false)
      × (b.status ≡ pending)
      × (b'.status ≡ pending)
      × (p : Property f) × (e
          ≡ booking_modified b'.id p.id p.title p.host_id b'.guest_id b'.pricing.total.amount_cents
              b'.pricing.total.currency)

  pub rescheduled :
      (dates : DateRange) (guests : ℤ) (subtotal cleaning : Money) (rate : f.Carrier)
      (d : Discounts f) (now : Time) (b : Booking)
      → let (b', answer) = reschedule_from_subtotal f dates guests subtotal cleaning rate d now b in
        answer ≡ ok tt
        → (b'.id ≡ b.id)
          × (b'.property_id ≡ b.property_id)
          × (b'.dates ≡ dates)
          × (b'.guest_id ≡ b.guest_id)
          × (b'.status ≡ b.status)
  unfolding reschedule_from_subtotal apply_reschedule
  rescheduled dates guests subtotal cleaning rate d now b h = ground arith

  pub modify-Moves :
      (cfg : Config f) (now : Time) (in_ : ModifyInput) (w : World f) {b' : Booking} {e : Event f}
      → decide_modify f cfg now in_ w ≡ ok (b', e)
      → Moves in_.booking_id w b' e
  unfolding decide_modify booking_with_property
  modify-Moves cfg now in_ w {b'} h = elim (Result-cases (find_booking in_.booking_id w.bookings)) [
    | inr (e, missing) ↦ cc (rw missing at h)
    | inl (b, found) ↦ elim (Result-cases (find_property f b.property_id w.properties)) [
      | inr (e, missing) ↦ absurd (ground (arith, found, missing))
      | inl (prop, owned) ↦ elim (Result-cases (new_date_range in_.check_in in_.check_out now)) [
        | inr (e, missing) ↦ absurd (ground (arith, found, owned, missing))
        | inl (dates, ranged) ↦ elim (Result-cases (nightly_subtotal f w prop dates (pos 0))) [
          | inr (e, missing) ↦ absurd (ground (arith, found, owned, ranged, missing))
          | inl (subtotal, summed) ↦
              let same = find_property-id b.property_id w.properties owned in
              let moved =
                rescheduled dates in_.guests subtotal prop.cleaning_fee cfg.service_fee_rate
                  (modified_terms f prop (extra_guest_fee f prop in_.guests (nights dates))) now
                  b in
              (
                b,
                found,
                ground (arith, found, owned, ranged, summed, moved),
                ground (arith, found, owned, ranged, summed, moved),
                ground (arith, found, owned, ranged, summed, moved, same),
                ground (arith, found, owned, ranged, summed),
                ground (arith, found, owned, ranged, summed, moved),
                prop,
                ground (arith, found, owned, ranged, summed, moved),
              )
        ]
      ]
    ]
  ]
