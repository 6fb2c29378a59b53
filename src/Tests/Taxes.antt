-- ===== src/Tests/Taxes.antt =====
-- Taxes: a city tax by night and guest with a cap, a percentage, and a rule of another country.
use mathlib.Core.List.{Perm}
use mathlib.Core.List.Perm
use airbnb.Common.{
  equal_fold, mul64, ◌*ℤ◌, add64, ◌+ℤ◌, map, pos, fixed, codes, ok, ◌≡◌, refl, List, [], ◌∷◌, ◌≤ℤ◌,
}
use airbnb.Listing.{Property}
use airbnb.BookingService.Tables.{find_property}
use airbnb.BookingService.Gates.{TaxQuote}
use airbnb.Tax.Rule.{matches_stay, percent, per_night_per_guest, Rule}
use airbnb.Tax.Calculator.{
  Line, StayInput, Quote, calculate, sort_lines, gather, line_of, apply_to, insert_line,
}
use airbnb.Tax.Service.{slim, quote_for_booking, quote_for_property, rules_for}
use airbnb.Tax.Laws.{IsItemised, calculate-perm}
use airbnb.Tax.Booking.{quote_for_booking-IsItemised}
use airbnb.Tests.Setting.{flat, midnight}

abbrev city_tax : Rule
city_tax = record {
  id = 1;
  name = codes "Lisboa";
  kind = per_night_per_guest;
  country = codes "PT";
  city = codes "lisboa";
  currency = codes "EUR";
  rate_pct_bips = pos 0;
  flat_amount_cents = pos 400;
  max_nights = pos 7;
  effective_from = 0;
  effective_until = 0;
}

abbrev vat : Rule
vat = record city_tax {
  id = 2;
  name = codes "IVA";
  kind = percent;
  city = [];
  rate_pct_bips = pos 600;
  flat_amount_cents = pos 0;
  max_nights = pos 0;
}

abbrev abroad : Rule
abroad = record vat { id = 3; name = codes "TVA"; country = codes "FR" }

abbrev rules : List Rule
rules = city_tax ∷ vat ∷ abroad ∷ []

abbrev city_line : Line
city_line = record {
  rule_id = 1;
  name = codes "Lisboa";
  kind = per_night_per_guest;
  line_cents = pos 5600;
}

abbrev vat_line : Line
vat_line = record { rule_id = 2; name = codes "IVA"; kind = percent; line_cents = pos 6000 }

abbrev stay : StayInput
stay = record {
  country = codes "PT";
  city = codes "Lisboa";
  check_in = midnight;
  nights = pos 10;
  guests = pos 2;
  subtotal_cents = pos 100000;
  currency = codes "EUR";
}

calculate-perm_example :
    (q' : Quote) × (calculate stay (vat ∷ city_tax ∷ abroad ∷ []) ≡ ok q')
    × Perm (vat_line ∷ city_line ∷ []) q'.lines
    × (q'.total_cents ≡ pos 11600)
unfolding calculate sort_lines gather line_of matches_stay equal_fold apply_to mul64 ◌*ℤ◌
    insert_line add64 ◌+ℤ◌
calculate-perm_example =
    calculate-perm stay rules (vat ∷ city_tax ∷ abroad ∷ []) (Perm.swap vat city_tax (abroad ∷ []))
      refl

abbrev told : TaxQuote
told = record {
  lines =
      record { name = codes "IVA"; line_cents = pos 6000 }
      ∷ record { name = codes "Lisboa"; line_cents = pos 5600 }
      ∷ [];
  total_cents = pos 11600;
}

quote_for_booking-IsItemised_example :
    (prop : Property fixed) × (find_property fixed 100 (flat ∷ []) ≡ ok prop)
    × (pos 1 ≤ℤ pos 10)
    × (pos 1 ≤ℤ pos 2)
    × (q : Quote) × IsItemised
        (record {
          country = prop.address.country;
          city = prop.address.city;
          check_in = midnight;
          nights = pos 10;
          guests = pos 2;
          subtotal_cents = pos 100000;
          currency = prop.price_per_night.currency;
        })
        rules
        q
    × (told ≡ record { lines = map (slim fixed) q.lines; total_cents = q.total_cents })
unfolding flat quote_for_booking quote_for_property find_property calculate rules_for sort_lines
    gather line_of matches_stay equal_fold apply_to mul64 ◌*ℤ◌ insert_line add64 ◌+ℤ◌
quote_for_booking-IsItemised_example =
    quote_for_booking-IsItemised fixed (flat ∷ []) rules 100 midnight (pos 10) (pos 2) (pos 100000)
      refl
