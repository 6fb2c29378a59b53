-- ===== src/BookingService/Create.antt =====
-- service.go: `Create`, and `Quote`, its dry run.
use airbnb.Common.{
  ◌==◌, if◌then◌else◌, ℤ, pos, ltb_ℤ, eqb_ℤ, add64, sub64, Text, Float64, Time, length, validation,
  Result, ok, err, ◌>>=◌, ◌>>◌, fail_if, Method, refused, ℕ, false, not, ◌&&◌, Option, none, some,
  List, [], ◌∷◌,
}
use airbnb.Shared.{Money}
use airbnb.Booking.Dates.{DateRange, new_date_range, nights}
use airbnb.Booking.Pricing.{Pricing, Discounts}
use airbnb.Booking.Reservation.{Booking, new_booking_from_subtotal, confirm}
use airbnb.Coupon.{Coupon, redeem}
use airbnb.Listing.{Property}
use airbnb.Listing.Edit.{can_be_booked_by}
use airbnb.SplitPayment.Create.{ShareInput, new_split}
use airbnb.BookingService.Tables.{
  Event, booking_requested, booking_confirmed, World, has_overlap, is_blocked, find_property,
  update_coupon,
}
use airbnb.BookingService.Nightly.{nightly_subtotal, check_stay, extra_guest_fee, resolve_coupon}
use airbnb.BookingService.Gates.{
  TaxQuote, Ports, Config, enforce_payout, run_tx, append_events, enforce_step_up, jurisdiction_tax,
}

pub record CreateInput : Type 0 where
  pub guest_id : ℕ
  pub property_id : ℕ
  pub check_in : Time
  pub check_out : Time
  pub guests : ℤ
  pub coupon_code : Text
  pub override_cents : ℤ
  pub split_shares : List ShareInput
  pub accepted_rules_version : ℤ

pub record QuoteInput : Type 0 where
  pub property_id : ℕ
  pub check_in : Time
  pub check_out : Time
  pub guests : ℤ
  pub coupon_code : Text
  pub override_cents : ℤ

module _ (f : Float64) where
  -- The terms of a stay: the listing's policies, and what was computed for this request.
  unfoldable pub terms_of : Property f → ℤ → ℤ → TaxQuote → Discounts f
  terms_of prop coupon_cents extra_cents tax = record {
    weekly_pct = prop.pricing_policy.weekly_discount_pct;
    monthly_pct = prop.pricing_policy.monthly_discount_pct;
    tax_pct = prop.pricing_policy.tax_rate_pct;
    coupon_cents = coupon_cents;
    extra_guest_fee_cents = extra_cents;
    security_deposit_cents = prop.security_deposit.amount_cents;
    jurisdiction_tax_lines = tax.lines;
    jurisdiction_tax_cents = tax.total_cents;
  }

  -- The taxes, on the subtotal less the coupon plus the two fees.
  unfoldable pub tax_for : Ports → Property f → DateRange → ℤ → Money → ℤ → TaxQuote
  tax_for ports prop dates guests subtotal coupon_cents =
      jurisdiction_tax f ports prop dates.check_in (nights dates) guests (
        add64 (add64 (sub64 subtotal.amount_cents coupon_cents) prop.cleaning_fee.amount_cents)
          (extra_guest_fee f prop guests (nights dates)))

  -- The aggregate at this price, with the terms of the request.
  unfoldable pub priced_booking :
      Ports → Config f → ℕ → ℕ → ℕ → Property f → DateRange → ℤ → Money → ℤ → Time → Result Booking
  priced_booking ports cfg id property_id guest_id prop dates guests subtotal coupon_cents now =
      new_booking_from_subtotal f id property_id guest_id dates guests subtotal prop.cleaning_fee
        cfg.service_fee_rate
        (terms_of prop coupon_cents (extra_guest_fee f prop guests (nights dates))
          (tax_for ports prop dates guests subtotal coupon_cents))
        now

  -- The identity gate of `Create`.
  unfoldable pub check_identity : Ports → Config f → ℕ → Result (Unit {0})
  check_identity ports cfg guest_id = if not cfg.require_kyc then ok tt else do
    verified ← ports.is_verified guest_id
    fail_if (not verified) (validation "verify your identity before booking")

  -- The house-rules gate of `Create`.
  unfoldable pub check_rules : Ports → ℕ → ℤ → Result (Unit {0})
  check_rules ports property_id accepted = do
    required ← elim ports.rules_version [ none ↦ ok (pos 0) | some ask ↦ ask property_id ]
    fail_if (ltb_ℤ (pos 0) required && not (eqb_ℤ accepted required))
        (validation "please accept the current house rules to book")

  -- What `Create` has settled when it knows the price.
  pub record Prepared : Type 0 where
    pub prop : Property f
    pub booking : Booking
    pub applied : Option (Coupon f)

  -- `Create` up to the aggregate: it reads the tables and writes nothing.
  unfoldable pub prepare : Ports → Config f → ℕ → Time → CreateInput → World f → Result Prepared
  prepare ports cfg id now in_ w = do
    prop ← find_property f in_.property_id w.properties
    can_be_booked_by f in_.guest_id prop
    check_identity ports cfg in_.guest_id
    fail_if (ltb_ℤ prop.max_guests in_.guests)
        (validation "number of guests exceeds property capacity")
    check_rules ports prop.id in_.accepted_rules_version
    dates ← new_date_range in_.check_in in_.check_out now
    fail_if (has_overlap in_.property_id dates w.bookings)
        (validation "selected dates are not available")
    fail_if (is_blocked in_.property_id dates w.blocks)
        (validation "selected dates are blocked by the host")
    subtotal ← nightly_subtotal f w prop dates in_.override_cents
    (coupon_cents, applied) ← resolve_coupon f w in_.coupon_code subtotal (nights dates) now
    check_stay f prop (nights dates)
    b ←
        priced_booking ports cfg id in_.property_id in_.guest_id prop dates in_.guests subtotal
          coupon_cents now
    ok (record { prop = prop; booking = b; applied = applied })

  -- `Quote`; its throwaway booking has the id and the guest 0.
  unfoldable pub quote : Ports → Config f → Time → QuoteInput → World f → Result Pricing
  quote ports cfg now in_ w = do
    prop ← find_property f in_.property_id w.properties
    fail_if (ltb_ℤ in_.guests (pos 1)) (validation "at least one guest is required")
    fail_if (ltb_ℤ prop.max_guests in_.guests)
        (validation "number of guests exceeds property capacity")
    dates ← new_date_range in_.check_in in_.check_out now
    check_stay f prop (nights dates)
    subtotal ← nightly_subtotal f w prop dates in_.override_cents
    (coupon_cents, applied) ← resolve_coupon f w in_.coupon_code subtotal (nights dates) now
    b ← priced_booking ports cfg 0 prop.id 0 prop dates in_.guests subtotal coupon_cents now
    ok b.pricing

-- What the in-transaction writes need beside the booking: ids for the split and its shares.
pub record SplitIds : Type 0 where
  pub plan : ℕ
  pub share : ℕ → ℕ

module _ (f : Float64) where
  -- The gate of a split request: the organizer's address.
  unfoldable pub check_split : Ports → Property f → CreateInput → Result Text
  check_split ports prop in_ = if length in_.split_shares == 0 then ok [] else elim ports.email_of [
    | none ↦ err (validation "split payment is not enabled on this deployment")
    | some email_of ↦
        if not prop.instant_book
        then err (validation "split payment is only available on instant-book listings")
        else email_of in_.guest_id
  ]

  abbrev pub requested : Property f → CreateInput → Booking → Event f
  requested prop in_ b =
      booking_requested b.id prop.id prop.title prop.host_id in_.guest_id
        b.pricing.total.amount_cents b.pricing.total.currency prop.instant_book
        (not (length in_.split_shares == 0))

  -- The booking as it is written, and its events: an instant book is confirmed at once.
  unfoldable pub settle_status :
      Ports → Time → Property f → CreateInput → Booking → Result (Booking × List (Event f))
  settle_status ports now prop in_ b =
      if prop.instant_book && length in_.split_shares == 0
      then (do
        enforce_payout ports prop.host_id
        let (b', answer) = confirm now b
        answer
        ok (
          b',
          requested prop in_ b ∷ booking_confirmed b.id prop.id prop.title in_.guest_id false ∷ [],
        ))
      else ok (b, requested prop in_ b ∷ [])

  -- The coupon's use, in the transaction.
  unfoldable pub use_coupon : Option (Coupon f) → Time → World f → Result (World f)
  use_coupon none now w = ok w
  use_coupon (some c) now w = do
    let (c', answer) = redeem f now c
    answer
    rows ← update_coupon f c' w.coupons
    ok (record w { coupons = rows })

  -- The split plan, in the transaction.
  unfoldable pub add_split :
      SplitIds → CreateInput → Text → Booking → Time → World f → Result (World f)
  add_split ids in_ organizer b now w = if length in_.split_shares == 0 then ok w else do
    plan ←
        new_split ids.share ids.plan b.id in_.guest_id organizer b.pricing.total.currency
          b.pricing.total.amount_cents in_.split_shares now
    ok (record w { splits = plan ∷ w.splits })

  -- The function that `Create` hands to the unit of work, events included.
  unfoldable pub write_booking :
      SplitIds
      → CreateInput
      → Text
      → Time
      → Option (Coupon f)
      → Booking
      → List (Event f)
      → World f
      → Result (World f)
  write_booking ids in_ organizer now applied b events w = do
    w1 ← use_coupon applied now (record w { bookings = b ∷ w.bookings })
    w2 ← add_split ids in_ organizer b now w1
    ok (append_events f w2 events)

  -- `Create` after the step-up gate.
  unfoldable pub finish :
      Ports → SplitIds → Time → CreateInput → Prepared f → World f → Method (World f) Booking
  finish ports ids now in_ p w =
      let plan : Result (Text × Booking × List (Event f)) = (do
        organizer ← check_split ports p.prop in_
        (b, events) ← settle_status ports now p.prop in_ p.booking
        ok (organizer, b, events)) in
      elim plan [
        | err e ↦ refused w e
        | ok (organizer, b, events) ↦
            let (w', written) =
              run_tx f ports w (write_booking ids in_ organizer now p.applied b events w) in
            elim written [ err e ↦ refused w' e | ok _ ↦ (w', ok b) ]
      ]

  -- `Create`
  unfoldable pub create :
      Ports → Config f → ℕ → SplitIds → Time → CreateInput → World f → Method (World f) Booking
  create ports cfg id ids now in_ w = elim (prepare f ports cfg id now in_ w) [
    | err e ↦ refused w e
    | ok p ↦
        let total = p.booking.pricing.total in
        let (w', passed) =
          enforce_step_up f ports cfg in_.guest_id p.prop total.amount_cents total.currency now w in
        elim passed [ err e ↦ refused w' e | ok _ ↦ finish ports ids now in_ p w' ]
  ]
