-- ===== src/Tests/Setting.antt =====
-- A listing with instant booking, a request for three nights there, and the booking it makes.
use airbnb.Common.{ℤ, pos, fixed, codes, ok, ℕ, ◌+◌, ◌*◌, true, false, none, some, [], ◌∷◌}
use airbnb.Shared.{Money}
use airbnb.Booking.Reservation.{Status as BookingStatus, Booking}
use airbnb.Listing.{Property, PropertyType, Status, CancellationPolicy, CheckInMethod}
use airbnb.BookingService.Tables.{World}
use airbnb.BookingService.Gates.{Ports, Config}
use airbnb.BookingService.Create.{CreateInput, SplitIds}

abbrev pub midnight : ℕ
midnight = 739583 * 86400000000000

abbrev pub eur : ℤ → Money
eur cents = record { amount_cents = cents; currency = codes "EUR" }

unfoldable pub flat : Property fixed
unfolding fixed
flat = record {
  id = 100;
  host_id = 9;
  title = codes "Flat";
  description = [];
  kind = PropertyType.apartment;
  status = Status.published;
  address = record {
    line1 = [];
    city = codes "Lisboa";
    country = codes "PT";
    postal_code = [];
    latitude = 0;
    longitude = 0;
  };
  price_per_night = eur (pos 10000);
  cleaning_fee = eur (pos 5000);
  max_guests = pos 4;
  bedrooms = pos 1;
  beds = pos 2;
  bathrooms = pos 1;
  amenities = [];
  photos = [];
  cancellation_policy = CancellationPolicy.strict;
  pricing_policy = record {
    weekly_discount_pct = 1000;
    monthly_discount_pct = 2000;
    tax_rate_pct = 600;
    weekend_price_cents = pos 12000;
  };
  instant_book = true;
  min_nights = pos 1;
  max_nights = pos 0;
  guests_included = pos 2;
  extra_guest_fee = eur (pos 500);
  security_deposit = eur (pos 20000);
  arrival = record {
    check_in_method = CheckInMethod.unknown;
    instructions = [];
    wifi_ssid = [];
    wifi_password = [];
  };
  average_rating = 0;
  review_count = pos 0;
  host_is_superhost = false;
  created_at = 1;
  updated_at = 1;
}

abbrev pub empty_world : World fixed
empty_world = record {
  bookings = [];
  blocks = [];
  properties = flat ∷ [];
  coupons = [];
  price_rules = [];
  splits = [];
  outbox = [];
  seen = [];
  audits = [];
}

abbrev pub ports : Ports
ports = record {
  is_verified = λ guest. ok true;
  rules_version = none;
  tax_quote = none;
  email_of = none;
  payout_ready = some (λ host. ok true);
  commit = none;
}

unfoldable pub cfg : Config fixed
unfolding fixed
cfg = record {
  service_fee_rate = 1200;
  require_kyc = true;
  thresholds = (codes "EUR", pos 30000) ∷ [];
  dedup_ttl = 86400000000000;
  audited = true;
}

abbrev pub asked : ℕ → ℕ → ℕ → CreateInput
asked guest from to = record {
  guest_id = guest;
  property_id = 100;
  check_in = midnight + from * 86400000000000;
  check_out = midnight + to * 86400000000000;
  guests = pos 3;
  coupon_code = [];
  override_cents = pos 0;
  split_shares = [];
  accepted_rules_version = pos 0;
}

abbrev pub ids : SplitIds
ids = record { plan = 700; share = λ i. i + 701 }

abbrev pub first_booking : Booking
first_booking = record {
  id = 1;
  property_id = 100;
  guest_id = 5;
  dates = record {
    check_in = midnight + 10 * 86400000000000;
    check_out = midnight + 13 * 86400000000000;
  };
  guests = pos 3;
  pricing = record {
    nights = pos 3;
    subtotal = eur (pos 30000);
    discount = eur (pos 0);
    cleaning_fee = eur (pos 5000);
    extra_guest_fee = eur (pos 1500);
    service_fee = eur (pos 4380);
    tax = eur (pos 2190);
    jurisdiction_tax_lines = [];
    jurisdiction_tax = eur (pos 0);
    security_deposit = eur (pos 20000);
    total = eur (pos 63070);
  };
  status = BookingStatus.confirmed;
  created_at = midnight;
  updated_at = midnight;
}

abbrev pub waiting : Booking
waiting = record first_booking { status = BookingStatus.pending }

abbrev pub waiting_world : World fixed
waiting_world = record empty_world { bookings = waiting ∷ [] }
