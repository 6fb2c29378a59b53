-- ===== src/Tax/Booking.antt =====
-- application/tax/service.go: the quote that the booking service is told.
use mathlib.Core.List.{Perm}
use airbnb.Common.{
  ℤ, pos, ◌≤ℤ◌, leb_ℤ, Float64, Time, ok, ◌≡◌, sym, subst, ok_inj, ℕ, Bool-cases, Result-cases, inl,
  inr, List, map, arith,
}
use airbnb.Listing.{Property}
use airbnb.BookingService.Tables.{find_property}
use airbnb.BookingService.Gates.{TaxQuote}
use airbnb.Tax.Rule.{Rule}
use airbnb.Tax.Calculator.{StayInput, Quote, calculate}
use airbnb.Tax.Service.{QuoteInput, rules_for, quote_for_property, slim, quote_for_booking}
use airbnb.Tax.Laws.{IsItemised, itemise-positive, calculate-IsItemised, rules_for_itemised}

module _ (f : Float64) where
  -- The stay that is quoted at a listing.
  abbrev pub stay_at : Property f → QuoteInput → StayInput
  stay_at prop in_ = record {
    country = prop.address.country;
    city = prop.address.city;
    check_in = in_.check_in;
    nights = in_.nights;
    guests = in_.guests;
    subtotal_cents = in_.subtotal_cents;
    currency = prop.price_per_night.currency;
  }

  scanned-IsItemised :
      (stay : StayInput) (rules : List Rule) {q : Quote}
      → calculate stay (rules_for stay.country stay.city stay.check_in rules) ≡ ok q
      → IsItemised stay rules q
  scanned-IsItemised stay rules {q} computed =
      let there = rules_for stay.country stay.city stay.check_in rules in
      let s = calculate-IsItemised stay there computed in
      record {
        same_lines = subst (λ ls. Perm q.lines ls) (rules_for_itemised stay rules) s.same_lines;
        by_name = s.by_name;
        positive = itemise-positive stay rules;
        sum = s.sum;
        in_currency = s.in_currency;
      }

  quote_for_property-IsItemised :
      (properties : List (Property f)) (rules : List Rule) (in_ : QuoteInput) {q : Quote}
      → quote_for_property f properties rules in_ ≡ ok q
      → (prop : Property f) × (find_property f in_.property_id properties ≡ ok prop)
        × (pos 1 ≤ℤ in_.nights)
        × (pos 1 ≤ℤ in_.guests)
        × IsItemised (stay_at prop in_) rules q
  unfolding quote_for_property
  quote_for_property-IsItemised properties rules in_ h =
      elim (Result-cases (find_property f in_.property_id properties)) [
        | inr (e, missing) ↦ cc (rw missing at h)
        | inl (prop, found) ↦ elim (Bool-cases (leb_ℤ in_.nights (pos 0))) [
          | inl few ↦ cc (rw (found, few) at h)
          | inr nights ↦ elim (Bool-cases (leb_ℤ in_.guests (pos 0))) [
            | inl few ↦ cc (rw (found, nights, few) at h)
            | inr guests ↦ (
              prop,
              found,
              ground arith,
              ground arith,
              scanned-IsItemised (stay_at prop in_) rules (rw (found, nights, guests) at h),
            )
          ]
        ]
      ]

  -- When the booking service is answered, the listing exists, there is a night and a guest, and it
  -- is told of the lines of the whole table of rules for the listing's place and currency, in the
  -- order of names, and their sum.
  pub quote_for_booking-IsItemised :
      (properties : List (Property f)) (rules : List Rule) (id : ℕ) (check_in : Time)
      (nights guests subtotal_cents : ℤ) {t : TaxQuote}
      → quote_for_booking f properties rules id check_in nights guests subtotal_cents ≡ ok t
      → (prop : Property f) × (find_property f id properties ≡ ok prop)
        × (pos 1 ≤ℤ nights)
        × (pos 1 ≤ℤ guests)
        × (q : Quote) × IsItemised
            (record {
              country = prop.address.country;
              city = prop.address.city;
              check_in = check_in;
              nights = nights;
              guests = guests;
              subtotal_cents = subtotal_cents;
              currency = prop.price_per_night.currency;
            })
            rules
            q
        × (t ≡ record { lines = map (slim f) q.lines; total_cents = q.total_cents })
  unfolding quote_for_booking
  quote_for_booking-IsItemised properties rules id check_in nights guests subtotal_cents {t} h =
      let in_ : QuoteInput = record {
        property_id = id;
        check_in = check_in;
        nights = nights;
        guests = guests;
        subtotal_cents = subtotal_cents;
      } in
      elim (Result-cases (quote_for_property f properties rules in_)) [
        | inr (e, none_made) ↦ cc (rw none_made at h)
        | inl (q, made) ↦
            let (prop, found, some_nights, some_guests, s) =
              quote_for_property-IsItemised properties rules in_ made in
            (prop, found, some_nights, some_guests, q, s, sym (ok_inj (rw made at h)))
      ]
