-- ===== src/Tax/Service.antt =====
-- application/tax/service.go, with the rules' table of memory.go; and the adapter of cmd/api/main.go
-- through which the booking service asks for a quote.
use airbnb.Common.{
  ◌==◌, if◌then◌else◌, ℤ, pos, leb_ℤ, Text, Float64, Time, validation, Result, ok, ◌>>=◌, ◌>>◌,
  fail_if, ℕ, List, [], ◌∷◌, map,
}
use airbnb.Listing.{Property}
use airbnb.Booking.Pricing.{TaxLine}
use airbnb.BookingService.Tables.{find_property}
use airbnb.BookingService.Gates.{TaxQuote}
use airbnb.Tax.Rule.{Kind, Rule, new_rule, matches_stay}
use airbnb.Tax.Calculator.{Line, Quote, calculate}

pub record CreateInput : Type 0 where
  pub name : Text
  pub kind : Kind
  pub country : Text
  pub city : Text
  pub currency : Text
  pub rate_pct_bips : ℤ
  pub flat_amount_cents : ℤ
  pub max_nights : ℤ
  pub effective_from : Time
  pub effective_until : Time

pub record QuoteInput : Type 0 where
  pub property_id : ℕ
  pub check_in : Time
  pub nights : ℤ
  pub guests : ℤ
  pub subtotal_cents : ℤ

-- `TaxRepository.Save`, which replaces a rule with that id.
unfoldable pub save_rule : Rule → List Rule → List Rule
save_rule r [] = r ∷ []
save_rule r (x ∷ rest) =
    let later = save_rule r rest in if x.id == r.id then r ∷ rest else x ∷ later

-- `TaxRepository.Delete`
unfoldable pub delete_rule : ℕ → List Rule → List Rule
delete_rule id [] = []
delete_rule id (x ∷ rest) =
    let later = delete_rule id rest in if x.id == id then later else x ∷ later

-- `TaxRepository.RulesFor`
unfoldable pub rules_for : Text → Text → Time → List Rule → List Rule
rules_for country city at [] = []
rules_for country city at (r ∷ rest) =
    let later = rules_for country city at rest in
    if matches_stay country city at r then r ∷ later else later

-- `Service.Create`
unfoldable pub create_rule : ℕ → CreateInput → List Rule → Result (Rule × List Rule)
create_rule id in_ rules = do
  r ←
      new_rule id in_.name in_.kind in_.country in_.city in_.currency in_.rate_pct_bips
        in_.flat_amount_cents in_.max_nights in_.effective_from in_.effective_until
  ok (r, save_rule r rules)

module _ (f : Float64) where
  -- `QuoteForProperty`
  unfoldable pub quote_for_property : List (Property f) → List Rule → QuoteInput → Result Quote
  quote_for_property properties rules in_ = do
    prop ← find_property f in_.property_id properties
    fail_if (leb_ℤ in_.nights (pos 0)) (validation "tax: nights must be > 0")
    fail_if (leb_ℤ in_.guests (pos 0)) (validation "tax: guests must be > 0")
    calculate
        (record {
          country = prop.address.country;
          city = prop.address.city;
          check_in = in_.check_in;
          nights = in_.nights;
          guests = in_.guests;
          subtotal_cents = in_.subtotal_cents;
          currency = prop.price_per_night.currency;
        })
        (rules_for prop.address.country prop.address.city in_.check_in rules)

  abbrev pub slim : Line → TaxLine
  slim l = record { name = l.name; line_cents = l.line_cents }

  -- `QuoteForBooking`, with the adapter, which copies the lines once more.
  unfoldable pub quote_for_booking :
      List (Property f) → List Rule → ℕ → Time → ℤ → ℤ → ℤ → Result TaxQuote
  quote_for_booking properties rules property_id check_in nights guests subtotal_cents = do
    q ← quote_for_property properties rules (record {
      property_id = property_id;
      check_in = check_in;
      nights = nights;
      guests = guests;
      subtotal_cents = subtotal_cents;
    })
    ok (record { lines = map slim q.lines; total_cents = q.total_cents })
