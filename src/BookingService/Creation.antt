-- ===== src/BookingService/Creation.antt =====
-- service.go: what `Create` checks, and what it writes.
use airbnb.Common.{
  ltb_ℤ, ◌==◌, Float64, Time, Text, Result, ok, after-bind, after-check, after-then, ok_inj, ℕ, ℤ,
  ◌≡◌, ◌∙◌, sym, inl, inr, true, false, Option, none, some, List, ◌∷◌, ◌++◌, arith, Bool-cases,
  Result-cases, ap, subst, length, ◌≤ℤ◌,
}
use airbnb.Shared.{Money}
use airbnb.Booking.Dates.{DateRange, new_date_range, nights}
use airbnb.Booking.Pricing.{Discounts, Pricing, compute_pricing_from_subtotal}
use airbnb.Booking.Reservation.{
  pending, Booking, is_active, confirm, new_booking_from_subtotal, new_booking_with_pricing,
}
use airbnb.Coupon.{Coupon, redeem}
use airbnb.SplitPayment.Create.{new_split}
use airbnb.Listing.{Property}
use airbnb.Listing.Edit.{can_be_booked_by}
use airbnb.BookingService.Tables.{
  Event, World, has_overlap, is_blocked, find_property, update_coupon,
}
use airbnb.BookingService.Nightly.{nightly_subtotal, check_stay, extra_guest_fee, resolve_coupon}
use airbnb.BookingService.Gates.{Ports, Config}
use airbnb.BookingService.Create.{
  CreateInput, terms_of, tax_for, priced_booking, check_identity, check_rules, Prepared, prepare,
  SplitIds, settle_status, use_coupon, add_split, write_booking,
}
use airbnb.BookingService.Writes.{InPlace}

module _ (f : Float64) where
  module _ (ports : Ports) (cfg : Config f) (id property_id guest_id : ℕ) (prop : Property f)
      (dates : DateRange) (guests : ℤ) (subtotal : Money) (cents : ℤ) (now : Time) where
    abbrev pub terms : Discounts f
    terms =
        terms_of f prop cents (extra_guest_fee f prop guests (nights dates))
          (tax_for f ports prop dates guests subtotal cents)

    abbrev pub price : Result Pricing
    price =
        compute_pricing_from_subtotal f subtotal prop.cleaning_fee (nights dates)
          cfg.service_fee_rate terms

    pub priced_parts :
        {b : Booking}
        → priced_booking f ports cfg id property_id guest_id prop dates guests subtotal cents now
          ≡ ok b
        → (b.id ≡ id)
          × (b.property_id ≡ property_id)
          × (b.guest_id ≡ guest_id)
          × (b.dates ≡ dates)
          × (b.guests ≡ guests)
          × (is_active b ≡ true)
          × (b.status ≡ pending)
    unfolding priced_booking new_booking_from_subtotal new_booking_with_pricing is_active
    priced_parts h = elim (Result-cases price) [
      | inl (p, priced) ↦ ground (arith, priced)
      | inr (e, stopped) ↦ absurd (ground (arith, stopped))
    ]

  -- Everything that `prepare` found out.
  pub record IsPrepared (ports : Ports) (cfg : Config f) (id : ℕ) (now : Time) (in_ : CreateInput)
      (w : World f) (p : Prepared f) : Type 0 where
    pub listed : find_property f in_.property_id w.properties ≡ ok p.prop
    pub bookable : can_be_booked_by f in_.guest_id p.prop ≡ ok tt
    pub identified : check_identity f ports cfg in_.guest_id ≡ ok tt
    pub room : in_.guests ≤ℤ p.prop.max_guests
    pub ranged : new_date_range in_.check_in in_.check_out now ≡ ok p.booking.dates
    pub free : has_overlap in_.property_id p.booking.dates w.bookings ≡ false
    pub open_days : is_blocked in_.property_id p.booking.dates w.blocks ≡ false
    pub stay : check_stay f p.prop (nights p.booking.dates) ≡ ok tt
    pub own : p.booking.id ≡ id
    pub place : p.booking.property_id ≡ in_.property_id
    pub guest : p.booking.guest_id ≡ in_.guest_id
    pub party : p.booking.guests ≡ in_.guests
    pub active : is_active p.booking ≡ true
    pub open_status : p.booking.status ≡ pending

  pub prepare-IsPrepared :
      (ports : Ports) (cfg : Config f) (id : ℕ) (now : Time) (in_ : CreateInput) (w : World f)
      {p : Prepared f}
      → prepare f ports cfg id now in_ w ≡ ok p
      → IsPrepared ports cfg id now in_ w p
  unfolding prepare
  prepare-IsPrepared ports cfg id now in_ w {p} h =
      after-bind (find_property f in_.property_id w.properties) _ h λ prop listed h1.
        after-then (can_be_booked_by f in_.guest_id prop) _ h1 λ bookable h2.
          after-then (check_identity f ports cfg in_.guest_id) _ h2 λ identified h3.
            after-check (ltb_ℤ prop.max_guests in_.guests) _ _ h3 λ room h4.
              after-then (check_rules f ports prop.id in_.accepted_rules_version) _ h4
                λ accepted h5.
                  after-bind (new_date_range in_.check_in in_.check_out now) _ h5 λ dates ranged h6.
                    after-check (has_overlap in_.property_id dates w.bookings) _ _ h6 λ free h7.
                      after-check (is_blocked in_.property_id dates w.blocks) _ _ h7 λ open_days h8.
                        after-bind (nightly_subtotal f w prop dates in_.override_cents) _ h8
                          λ subtotal summed h9.
                            after-bind
                              (resolve_coupon f w in_.coupon_code subtotal (nights dates) now) _ h9
                              λ coupon resolved h10.
                                after-then (check_stay f prop (nights dates)) _ h10 λ stay h11.
                                  after-bind
                                    (priced_booking f ports cfg id in_.property_id in_.guest_id prop
                                      dates in_.guests subtotal coupon.0 now)
                                    _ h11
                                    λ b booked h12.
                                      let (own, place, guest, same, party, active, open_status) =
                                        priced_parts ports cfg id in_.property_id in_.guest_id prop
                                          dates in_.guests subtotal coupon.0 now booked in
                                      subst (IsPrepared ports cfg id now in_ w) (ok_inj h12)
                                        (record {
                                          listed = listed;
                                          bookable = bookable;
                                          identified = identified;
                                          room = ground (arith, room);
                                          ranged = ranged ∙ ap ok (sym same);
                                          free =
                                              subst
                                                (λ d.
                                                  has_overlap in_.property_id d w.bookings ≡ false)
                                                (sym same) free;
                                          open_days =
                                              subst
                                                (λ d. is_blocked in_.property_id d w.blocks ≡ false)
                                                (sym same) open_days;
                                          stay =
                                              subst (λ d. check_stay f prop (nights d) ≡ ok tt)
                                                (sym same) stay;
                                          own = own;
                                          place = place;
                                          guest = guest;
                                          party = party;
                                          active = active;
                                          open_status = open_status;
                                        })

  confirm-InPlace :
      (now : Time) (b : Booking) → (confirm now b).1 ≡ ok tt → InPlace b (confirm now b).0
  unfolding confirm is_active
  confirm-InPlace now b h = ground arith

  pub settled-InPlace :
      (ports : Ports) (now : Time) (prop : Property f) (in_ : CreateInput) (b : Booking)
      {b' : Booking} {events : List (Event f)}
      → settle_status f ports now prop in_ b ≡ ok (b', events)
      → InPlace b b'
  unfolding settle_status
  settled-InPlace ports now prop in_ b h = ground (arith, confirm-InPlace now b)

  use_coupon_keeps :
      (applied : Option (Coupon f)) (now : Time) (w : World f) {w' : World f}
      → use_coupon f applied now w ≡ ok w'
      → (w'.bookings ≡ w.bookings) × (w'.outbox ≡ w.outbox)
  unfolding use_coupon
  use_coupon_keeps none now w h = ground arith
  use_coupon_keeps (some c) now w h = after-then (redeem f now c).1 _ h λ used h1.
      after-bind (update_coupon f (redeem f now c).0 w.coupons) _ h1 λ rows stored h2. ground arith

  add_split_keeps :
      (ids : SplitIds) (in_ : CreateInput) (organizer : Text) (b : Booking) (now : Time)
      (w : World f) {w' : World f}
      → add_split f ids in_ organizer b now w ≡ ok w'
      → (w'.bookings ≡ w.bookings) × (w'.outbox ≡ w.outbox)
  unfolding add_split
  add_split_keeps ids in_ organizer b now w h = elim (Bool-cases (length in_.split_shares == 0)) [
    | inl alone ↦ ground arith
    | inr shared ↦
        after-bind
          (new_split ids.share ids.plan b.id in_.guest_id organizer b.pricing.total.currency
            b.pricing.total.amount_cents in_.split_shares now)
          _ (rw shared at h) λ plan made h1. ground arith
  ]

  -- The transaction of `Create` inserts the one booking and appends its events.
  pub written_rows :
      (ids : SplitIds) (in_ : CreateInput) (organizer : Text) (now : Time)
      (applied : Option (Coupon f)) (b : Booking) (events : List (Event f)) (w : World f)
      {w' : World f}
      → write_booking f ids in_ organizer now applied b events w ≡ ok w'
      → (w'.bookings ≡ b ∷ w.bookings) × (w'.outbox ≡ w.outbox ++ events)
  unfolding write_booking
  written_rows ids in_ organizer now applied b events w h =
      after-bind (use_coupon f applied now (record w { bookings = b ∷ w.bookings })) _ h
        λ w1 used h1. after-bind (add_split f ids in_ organizer b now w1) _ h1 λ w2 split h2.
          let first = use_coupon_keeps applied now (record w { bookings = b ∷ w.bookings }) used in
          let second = add_split_keeps ids in_ organizer b now w1 split in
          ground (arith, first, second)
