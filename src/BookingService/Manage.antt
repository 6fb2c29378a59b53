-- ===== src/BookingService/Manage.antt =====
-- service.go: changing, confirming, cancelling and completing a reservation, and who may see it.
use airbnb.Common.{
  ltb, leb, ◌==◌, if◌then◌else◌, ℤ, pos, ltb_ℤ, ◌-ℤ◌, Float64, Time, day, truncate_day, validation,
  forbidden, Result, ok, err, ◌>>=◌, ◌>>◌, fail_if, Method, refused, ℕ, ◌/◌, Bool, true, false, not,
  ◌&&◌, List, [], ◌∷◌,
}
use airbnb.Booking.Dates.{new_date_range, nights, sub_time}
use airbnb.Booking.Pricing.{Discounts}
use airbnb.Booking.Reservation.{
  Status, cancelled, Booking, is_pending, reschedule_from_subtotal, confirm, cancel, complete,
}
use airbnb.Listing.{Property, refund_fraction}
use airbnb.Listing.Edit.{is_owned_by}
use airbnb.BookingService.Tables.{
  Event, booking_confirmed, booking_cancelled, booking_completed, booking_modified, World,
  find_booking, update_booking, list_active_in_range, is_blocked, find_property,
}
use airbnb.BookingService.Nightly.{nightly_subtotal, check_stay, extra_guest_fee}
use airbnb.BookingService.Gates.{Ports, Config, enforce_payout, run_tx, append_events}

abbrev pub is_cancelled : Status → Bool
is_cancelled cancelled = true
is_cancelled _ = false

-- `int(checkIn.Sub(today).Hours() / 24)`, on midnights: whole days, towards zero.
unfoldable pub days_until : Time → Time → ℤ
unfolding sub_time
days_until check_in today =
    if leb today check_in
    then pos (sub_time check_in today / day)
    else pos 0 -ℤ pos (sub_time today check_in / day)

-- Another active booking among those found.
unfoldable pub taken_by_other : ℕ → List Booking → Bool
taken_by_other id [] = false
taken_by_other id (b ∷ rest) = if not (b.id == id) then true else taken_by_other id rest

pub record ModifyInput : Type 0 where
  pub actor_id : ℕ
  pub booking_id : ℕ
  pub check_in : Time
  pub check_out : Time
  pub guests : ℤ

module _ (f : Float64) where
  -- The row update with its event, in one unit of work.
  unfoldable pub emit_update : Ports → Booking → Event f → World f → Method (World f) Booking
  emit_update ports b event w =
      let body : Result (World f) = (do
        rows ← update_booking b w.bookings
        ok (append_events f (record w { bookings = rows }) (event ∷ []))) in
      let (w', written) = run_tx f ports w body in
      elim written [ err e ↦ refused w' e | ok _ ↦ (w', ok b) ]

  -- `bookingWithProperty`
  unfoldable pub booking_with_property : World f → ℕ → Result (Booking × Property f)
  booking_with_property w id = do
    b ← find_booking id w.bookings
    prop ← find_property f b.property_id w.properties
    ok (b, prop)

  -- What the checks decided: the row to write and the event to record.
  abbrev pub write_decided : Ports → World f → Result (Booking × Event f) → Method (World f) Booking
  write_decided ports w (err e) = refused w e
  write_decided ports w (ok (b, event)) = emit_update ports b event w

  -- The terms of a changed stay; no coupon and no tax of a jurisdiction is carried over.
  unfoldable pub modified_terms : Property f → ℤ → Discounts f
  modified_terms prop extra_cents = record {
    weekly_pct = prop.pricing_policy.weekly_discount_pct;
    monthly_pct = prop.pricing_policy.monthly_discount_pct;
    tax_pct = prop.pricing_policy.tax_rate_pct;
    coupon_cents = pos 0;
    extra_guest_fee_cents = extra_cents;
    security_deposit_cents = prop.security_deposit.amount_cents;
    jurisdiction_tax_lines = [];
    jurisdiction_tax_cents = pos 0;
  }

  -- `Modify` up to the write: the booking as it is to be stored, and its event.
  unfoldable pub decide_modify :
      Config f → Time → ModifyInput → World f → Result (Booking × Event f)
  decide_modify cfg now in_ w = do
    (b, prop) ← booking_with_property w in_.booking_id
    fail_if (not (b.guest_id == in_.actor_id)) forbidden
    fail_if (not (is_pending b.status)) (validation "only a pending booking can be modified")
    fail_if (ltb_ℤ prop.max_guests in_.guests)
        (validation "number of guests exceeds property capacity")
    dates ← new_date_range in_.check_in in_.check_out now
    fail_if
        (taken_by_other b.id
          (list_active_in_range prop.id dates.check_in dates.check_out w.bookings))
        (validation "selected dates are not available")
    fail_if (is_blocked prop.id dates w.blocks)
        (validation "selected dates are blocked by the host")
    check_stay f prop (nights dates)
    subtotal ← nightly_subtotal f w prop dates (pos 0)
    let (b', answer) =
        reschedule_from_subtotal f dates in_.guests subtotal prop.cleaning_fee cfg.service_fee_rate
          (modified_terms prop (extra_guest_fee f prop in_.guests (nights dates))) now b
    answer
    ok (
      b',
      booking_modified b'.id prop.id prop.title prop.host_id b'.guest_id
          b'.pricing.total.amount_cents b'.pricing.total.currency,
    )

  -- `Modify`
  unfoldable pub modify : Ports → Config f → Time → ModifyInput → World f → Method (World f) Booking
  modify ports cfg now in_ w = write_decided ports w (decide_modify cfg now in_ w)

  unfoldable pub decide_confirm : Ports → Time → ℕ → ℕ → World f → Result (Booking × Event f)
  decide_confirm ports now actor_id booking_id w = do
    (b, prop) ← booking_with_property w booking_id
    fail_if (not (is_owned_by f actor_id prop)) forbidden
    enforce_payout ports prop.host_id
    let (b', answer) = confirm now b
    answer
    ok (b', booking_confirmed b'.id prop.id prop.title b'.guest_id false)

  -- `Confirm`
  unfoldable pub confirm_booking : Ports → Time → ℕ → ℕ → World f → Method (World f) Booking
  confirm_booking ports now actor_id booking_id w =
      write_decided ports w (decide_confirm ports now actor_id booking_id w)

  -- The refund of a cancellation: all of it if the host cancels, else by the listing's policy.
  unfoldable pub fraction_for : Time → ℕ → Property f → Booking → f.Carrier
  fraction_for now actor_id prop b =
      if is_owned_by f actor_id prop
      then f.of_int (pos 1)
      else refund_fraction f prop.cancellation_policy
          (days_until b.dates.check_in (truncate_day now))

  unfoldable pub decide_cancel : Time → ℕ → ℕ → World f → Result (Booking × Event f)
  decide_cancel now actor_id booking_id w = do
    (b, prop) ← booking_with_property w booking_id
    fail_if (not (b.guest_id == actor_id) && not (is_owned_by f actor_id prop)) forbidden
    let (b', answer) = cancel now b
    answer
    ok (
      b',
      booking_cancelled b'.id prop.id prop.title prop.host_id b'.guest_id actor_id
          (fraction_for now actor_id prop b') false,
    )

  -- `Cancel`
  unfoldable pub cancel_booking : Ports → Time → ℕ → ℕ → World f → Method (World f) Booking
  cancel_booking ports now actor_id booking_id w =
      write_decided ports w (decide_cancel now actor_id booking_id w)

  unfoldable pub decide_complete : Time → ℕ → ℕ → World f → Result (Booking × Event f)
  decide_complete now actor_id booking_id w = do
    (b, prop) ← booking_with_property w booking_id
    fail_if (not (is_owned_by f actor_id prop)) forbidden
    fail_if (ltb now b.dates.check_out) (validation "a stay can only be completed after check-out")
    let (b', answer) = complete now b
    answer
    ok (b', booking_completed b'.id prop.id prop.title prop.host_id b'.guest_id)

  -- `Complete`
  unfoldable pub complete_booking : Ports → Time → ℕ → ℕ → World f → Method (World f) Booking
  complete_booking ports now actor_id booking_id w =
      write_decided ports w (decide_complete now actor_id booking_id w)
