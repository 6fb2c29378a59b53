-- ===== src/Tests/Experiences.antt =====
-- Experiences: a listing drafted, pictured and published; a booking made, confirmed twice and called
-- off; a scheduler's tick over a table with one session that has ended.
use airbnb.Common.{
  mul64, pos, fixed, codes, Time, ok, ℕ, ◌≡◌, refl, none, List, [], ◌∷◌, All, arith, ◌+◌, ◌≤ℤ◌,
  ◌+ℤ◌, ◌*ℤ◌, find_row,
}
use airbnb.Experience.Listing.{Experience, Basics, sport, published}
use airbnb.Experience.Catalogue.{id_of}
use airbnb.Experience.Edits.{IsFit}
use airbnb.Experience.Owners
use airbnb.Experience.Owners.{run-IsFit, run_untouched}
use airbnb.Experience.Reservation.{Booking, Pricing, confirmed, compute_pricing, end_at}
use airbnb.Experience.Service.{World, Ports, booking_id, auto_complete_overdue, due_rows}
use airbnb.Experience.Prices.{IsQuotable, compute_pricing_sums}
use airbnb.Experience.Runs
use airbnb.Experience.Runs.{IsKept, run-IsKept}
use airbnb.Experience.Overdue.{settled, is_settled, count_if}
use airbnb.Experience.Ticks.{tick_settles}
use airbnb.Tests.Setting.{midnight, eur}

abbrev lesson : Basics fixed
unfolding fixed
lesson = record {
  title = codes "Surf";
  description = codes "Two hours in the water";
  category = sport;
  address = record { city = codes "Ericeira"; country = codes "PT"; latitude = 0; longitude = 0 };
  duration_minutes = pos 120;
  max_guests = pos 6;
  price_per_guest = eur (pos 4000);
  language = codes "PT";
}

abbrev asks : List (Owners.Request fixed)
asks =
    Owners.Request.drafting 9 500 lesson midnight
    ∷ Owners.Request.publishing 9 500 midnight
    ∷ Owners.Request.photographing 9 500 501 (codes "k") (codes "u") midnight
    ∷ Owners.Request.publishing 9 500 (midnight + 1)
    ∷ Owners.Request.suspending 8 500 (midnight + 2)
    ∷ []

run-IsFit_example : All (IsFit fixed) (Owners.run fixed asks [])
run-IsFit_example = run-IsFit fixed asks [] tt

unfoldable surf : Experience fixed
unfolding fixed
surf = record {
  id = 500;
  host_id = 9;
  title = codes "Surf";
  description = codes "Two hours in the water";
  category = sport;
  status = published;
  address = record { city = codes "Ericeira"; country = codes "PT"; latitude = 0; longitude = 0 };
  duration_minutes = pos 120;
  max_guests = pos 6;
  price_per_guest = eur (pos 4000);
  language = codes "pt";
  photos = record { id = 501; object_key = codes "k"; url = codes "u"; position = 0 } ∷ [];
  created_at = midnight;
  updated_at = midnight;
}

abbrev others : List (Owners.Request fixed)
others =
    Owners.Request.suspending 8 500 (midnight + 2)
    ∷ Owners.Request.deleting 7 500
    ∷ Owners.Request.drafting 7 502 lesson midnight
    ∷ []

run_untouched_example : find_row (id_of fixed) 500 (Owners.run fixed others (surf ∷ [])) ≡ ok surf
unfolding find_row surf
run_untouched_example =
    run_untouched fixed others 500 (surf ∷ []) refl
      ((λ e. omega arith), ((λ e. omega arith), ((λ e. omega arith), tt)))

works : Ports
works = λ id. none

abbrev open_world : World fixed
open_world = record { experiences = surf ∷ []; bookings = []; told = [] }

abbrev noon : Time
noon = midnight + 43200000000000

abbrev visits : List (Runs.Request fixed)
unfolding fixed
visits =
    Runs.Request.booking_one works 1000 600
      (record { experience_id = 500; guest_id = 5; start_at = noon; guests = pos 2 }) midnight
    ∷ Runs.Request.booking_one works 1000 601
        (record {
          experience_id = 500;
          guest_id = 6;
          start_at = noon + 60000000000;
          guests = pos 1;
        })
        midnight
    ∷ Runs.Request.confirming works 9 600 (midnight + 1)
    ∷ Runs.Request.confirming works 9 600 (midnight + 2)
    ∷ Runs.Request.cancelling works 5 600 (midnight + 3) (midnight + 3)
    ∷ Runs.Request.ticking works noon noon
    ∷ []

run-IsKept_example : IsKept fixed (Runs.run fixed visits open_world)
run-IsKept_example =
    run-IsKept fixed visits open_world
      (record { calendar = tt; recorded = record { told = tt; silent = λ i absent. refl } })

abbrev surfed : Booking
surfed = record {
  id = 600;
  experience_id = 500;
  host_id = 9;
  guest_id = 5;
  session = record { start_at = noon; duration_minutes = pos 120 };
  guests = pos 2;
  pricing = record {
    price_per_guest = eur (pos 4000);
    guests = pos 2;
    subtotal = eur (pos 8000);
    service_fee = eur (pos 800);
    total = eur (pos 8800);
  };
  status = confirmed;
  created_at = midnight;
  updated_at = midnight;
}

abbrev later : Booking
later = record surfed {
  id = 601;
  session = record { start_at = noon + noon; duration_minutes = pos 60 };
}

abbrev evening : Time
evening = noon + 7200000000000

abbrev table : World fixed
table = record open_world { bookings = surfed ∷ later ∷ [] }

tick_settles_example :
    let out = auto_complete_overdue fixed works evening evening table in
    ((id : ℕ) (b : Booking)
      → find_row booking_id id (surfed ∷ later ∷ []) ≡ ok b
      → find_row booking_id id out.0.bookings ≡ ok (settled works evening evening b))
    × (out.0.told ≡ [])
    × (out.1 ≡ count_if (is_settled works evening) (surfed ∷ later ∷ []))
unfolding due_rows end_at mul64 ◌*ℤ◌
tick_settles_example =
    tick_settles fixed works evening evening table (((λ e. omega arith), tt), (tt, tt))
      (omega arith)

abbrev tenth : fixed.Carrier
unfolding fixed
tenth = 1000

quotable : IsQuotable fixed (eur (pos 4000)) (pos 2) tenth
unfolding fixed ◌*ℤ◌
quotable = record {
  not_negative = omega arith;
  three_letters = refl;
  someone = omega arith;
  fraction = (refl, refl);
  seats_low = omega arith;
  seats_high = omega arith;
}

compute_pricing_sums_example :
    (p : Pricing) × (compute_pricing fixed (eur (pos 4000)) (pos 2) tenth ≡ ok p)
    × (p.subtotal.amount_cents ≡ pos 8000)
    × (pos 0 ≤ℤ p.service_fee.amount_cents)
    × (p.service_fee.amount_cents ≤ℤ p.subtotal.amount_cents)
    × (p.total.amount_cents ≡ p.subtotal.amount_cents +ℤ p.service_fee.amount_cents)
    × (p.total.currency ≡ codes "EUR")
unfolding ◌*ℤ◌
compute_pricing_sums_example = compute_pricing_sums fixed (eur (pos 4000)) (pos 2) tenth quotable
