-- ===== src/Tests/Offers.antt =====
-- domain/offer at a concrete special offer.
use airbnb.Common.{
  trim_space, trim_left, is_space, truncate_day, pos, codes, Time, ok, ◌+◌, ◌*◌, ◌≡◌, refl,
}
use airbnb.Offer.{Offer, new_offer, special_offer, pending}
use airbnb.Offer.Laws.{IsOffer, new_offer-IsOffer}

abbrev midnight : Time
midnight = 739583 * 86400000000000

abbrev two_nights : Offer
two_nights = record {
  id = 1;
  property_id = 2;
  host_id = 3;
  guest_id = 4;
  check_in = midnight + 10 * 86400000000000;
  check_out = midnight + 12 * 86400000000000;
  guests = pos 2;
  price_cents = pos 20000;
  currency = codes "EUR";
  message = codes "welcome";
  kind = special_offer;
  status = pending;
  created_at = midnight + 5;
  expires_at = midnight + 5 + 604800000000000;
}

offer_made :
    new_offer 1 2 3 4
      (midnight + 10 * 86400000000000 + 9)
      (midnight + 12 * 86400000000000 + 7)
      (pos 2)
      (pos 20000)
      (codes "EUR")
      (codes " welcome")
      (midnight + 5)
    ≡ ok two_nights
unfolding new_offer trim_space trim_left is_space truncate_day
offer_made = refl

new_offer-IsOffer_example : IsOffer (midnight + 5) two_nights
new_offer-IsOffer_example =
    new_offer-IsOffer 1 2 3 4 (midnight + 10 * 86400000000000 + 9)
      (midnight + 12 * 86400000000000 + 7) (pos 2) (pos 20000) (codes "EUR") (codes " welcome")
      (midnight + 5) offer_made
