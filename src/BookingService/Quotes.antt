-- ===== src/BookingService/Quotes.antt =====
-- service.go: `Quote` shows the price that `Create` charges.
use airbnb.Common.{
  ltb_ℤ, Float64, Time, ok, after-bind, after-check, after-then, ok_inj, ℕ, ℤ, pos, ◌≡◌, ◌∙◌, sym,
  inl, inr, false, List, arith, Result-cases, ap,
}
use airbnb.Shared.{Money}
use airbnb.Booking.Dates.{DateRange, new_date_range, nights}
use airbnb.Booking.Reservation.{
  Booking, confirm, new_booking_from_subtotal, new_booking_with_pricing,
}
use airbnb.Listing.{Property}
use airbnb.Listing.Edit.{can_be_booked_by}
use airbnb.BookingService.Tables.{Event, World, has_overlap, is_blocked, find_property}
use airbnb.BookingService.Nightly.{nightly_subtotal, check_stay, resolve_coupon}
use airbnb.BookingService.Gates.{Ports, Config}
use airbnb.BookingService.Create.{
  CreateInput, QuoteInput, check_identity, check_rules, priced_booking, Prepared, prepare, quote,
  SplitIds, settle_status, create,
}
use airbnb.BookingService.Creation.{price}
use airbnb.BookingService.Outcome.{create_cases}

-- The quote that a client asks for before it makes this reservation.
abbrev pub quote_of : CreateInput → QuoteInput
quote_of in_ = record {
  property_id = in_.property_id;
  check_in = in_.check_in;
  check_out = in_.check_out;
  guests = in_.guests;
  coupon_code = in_.coupon_code;
  override_cents = in_.override_cents;
}

module _ (f : Float64) where
  -- The price does not depend on who books.
  repriced :
      (ports : Ports) (cfg : Config f) (id property_id guest_id property_id' : ℕ)
      (prop : Property f) (dates : DateRange) (guests : ℤ) (subtotal : Money) (cents : ℤ)
      (now : Time) {b : Booking}
      → priced_booking f ports cfg id property_id guest_id prop dates guests subtotal cents now
        ≡ ok b
      → (ltb_ℤ guests (pos 1) ≡ false)
        × (b' : Booking) × (priced_booking f ports cfg 0 property_id' 0 prop dates guests subtotal
              cents now
            ≡ ok b')
        × (b'.pricing ≡ b.pricing)
  unfolding priced_booking new_booking_from_subtotal new_booking_with_pricing
  repriced ports cfg id property_id guest_id property_id' prop dates guests subtotal cents now h =
      elim (Result-cases
        (price f ports cfg id property_id guest_id prop dates guests subtotal cents now)) [
          | inl (p, priced) ↦ (
            ground arith,
            new_booking_with_pricing 0 property_id' 0 dates guests now p,
            ground (arith, priced),
            ground (arith, priced),
          )
          | inr (e, stopped) ↦ absurd (ground (arith, stopped))
        ]

  prepared_quote :
      (ports : Ports) (cfg : Config f) (id : ℕ) (now : Time) (in_ : CreateInput) (w : World f)
      {p : Prepared f}
      → prepare f ports cfg id now in_ w ≡ ok p
      → quote f ports cfg now (quote_of in_) w ≡ ok p.booking.pricing
  unfolding prepare quote
  prepared_quote ports cfg id now in_ w {p} h =
      after-bind (find_property f in_.property_id w.properties) _ h λ prop listed h1.
        after-then (can_be_booked_by f in_.guest_id prop) _ h1 λ bookable h2.
          after-then (check_identity f ports cfg in_.guest_id) _ h2 λ identified h3.
            after-check (ltb_ℤ prop.max_guests in_.guests) _ _ h3 λ room h4.
              after-then (check_rules f ports prop.id in_.accepted_rules_version) _ h4
                λ accepted h5.
                  after-bind (new_date_range in_.check_in in_.check_out now) _ h5 λ dates ranged h6.
                    after-check (has_overlap in_.property_id dates w.bookings) _ _ h6 λ free h7.
                      after-check (is_blocked in_.property_id dates w.blocks) _ _ h7 λ open_days h8.
                        after-bind (nightly_subtotal f w prop dates in_.override_cents) _ h8
                          λ subtotal summed h9.
                            after-bind
                              (resolve_coupon f w in_.coupon_code subtotal (nights dates) now) _ h9
                              λ coupon resolved h10.
                                after-then (check_stay f prop (nights dates)) _ h10 λ stay h11.
                                  after-bind
                                    (priced_booking f ports cfg id in_.property_id in_.guest_id prop
                                      dates in_.guests subtotal coupon.0 now)
                                    _ h11
                                    λ b booked h12.
                                      let (party, b', again, same) =
                                        repriced ports cfg id in_.property_id in_.guest_id prop.id
                                          prop dates in_.guests subtotal coupon.0 now booked in
                                      let p_is = ok_inj h12 in
                                      rw
                                        (listed, party, room, ranged, stay, summed, resolved, again)
                                        (ap ok
                                          (same ∙ ap (λ (q : Prepared f). q.booking.pricing) p_is))

  settled_price :
      (ports : Ports) (now : Time) (prop : Property f) (in_ : CreateInput) (b : Booking)
      {b' : Booking} {events : List (Event f)}
      → settle_status f ports now prop in_ b ≡ ok (b', events)
      → b'.pricing ≡ b.pricing
  unfolding settle_status confirm
  settled_price ports now prop in_ b h = ground arith

  -- Where `Create` makes a reservation, `Quote` on the same request just before shows exactly the
  -- price breakdown that the reservation has.
  pub quote-create :
      (ports : Ports) (cfg : Config f) (id : ℕ) (ids : SplitIds) (now : Time) (in_ : CreateInput)
      (w : World f) {b : Booking}
      → (create f ports cfg id ids now in_ w).1 ≡ ok b
      → quote f ports cfg now (quote_of in_) w ≡ ok b.pricing
  quote-create ports cfg id ids now in_ w {b} h = elim (create_cases f ports cfg id ids now in_ w) [
    | inl (same, e, refused_by) ↦ cc
    | inr (b', answer, p, made, (events, settled, place, rows, log)) ↦
        let same = ok_inj (sym answer ∙ h) in
        prepared_quote ports cfg id now in_ w made
        ∙ ap ok (
            sym (settled_price ports now p.prop in_ p.booking settled)
            ∙ ap (λ (r : Booking). r.pricing) same)
  ]
