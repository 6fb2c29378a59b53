-- ===== src/Tests/Changes.antt =====
-- The booking service at one waiting reservation: who may change it, its nights, and a change of
-- its dates.
use airbnb.Common.{
  pos, fixed, codes, ltb, false, ◌<◌, forbidden, ◌↔◌, ok, err, ℕ, ◌+◌, ◌*◌, ◌≡◌, refl, [], arith,
  add64, sub64, mul64, wrap64, ◌+ℤ◌, ◌-ℤ◌, ◌*ℤ◌, floor_zero, round_share, truncate_day,
}
use airbnb.Shared.{new_money}
use airbnb.Booking.Dates.{new_date_range, nights, overlaps, sub_time}
use airbnb.Booking.Pricing.{
  compute_pricing_from_subtotal, discount_cents, discount_pct_for_nights, base_cents, total_cents,
}
use airbnb.Booking.Reservation.{
  Status as BookingStatus, Booking, is_active, reschedule_from_subtotal, guard_reschedule,
  apply_reschedule,
}
use airbnb.BookingService.Access.{outsider_refused, confirm_booking_iff}
use airbnb.BookingService.Nights.{stay_price, nightly_subtotal_sums}
use airbnb.BookingService.Postgres.{update_columns, modify_not_stored}
use airbnb.BookingService.Views.{get_by_id, arrival_for_booking}
use airbnb.BookingService.Manage.{
  taken_by_other, booking_with_property, ModifyInput, modified_terms, decide_modify, modify,
  confirm_booking, cancel_booking, complete_booking,
}
use airbnb.BookingService.Tables.{
  Event, booking_modified, find_booking, list_active_in_range, is_blocked, find_property,
  list_overlapping,
}
use airbnb.BookingService.Nightly.{
  nightly_subtotal, sum_nights, rounds_between, price_for_day, check_stay, extra_guest_fee,
}
use airbnb.BookingService.Gates.{enforce_payout}
use airbnb.Tests.Setting.{
  midnight, eur, flat, empty_world, ports, cfg, first_booking, waiting, waiting_world,
}

found : find_booking 1 waiting_world.bookings ≡ ok waiting
unfolding find_booking
found = refl

listed : find_property fixed 100 waiting_world.properties ≡ ok flat
unfolding find_property flat
listed = refl

outsider_refused_example :
    (get_by_id fixed 77 1 waiting_world ≡ err forbidden)
    × (arrival_for_booking fixed 77 1 midnight waiting_world ≡ err forbidden)
    × (confirm_booking fixed ports midnight 77 1 waiting_world ≡ (waiting_world, err forbidden))
    × (complete_booking fixed ports midnight 77 1 waiting_world ≡ (waiting_world, err forbidden))
    × (cancel_booking fixed ports midnight 77 1 waiting_world ≡ (waiting_world, err forbidden))
    × (modify fixed ports cfg midnight
          (record {
            actor_id = 77;
            booking_id = 1;
            check_in = midnight;
            check_out = midnight + 86400000000000;
            guests = pos 2;
          })
          waiting_world
        ≡ (waiting_world, err forbidden))
unfolding flat
outsider_refused_example =
    outsider_refused fixed ports cfg midnight 77 1 midnight (midnight + 86400000000000) (pos 2)
      waiting_world waiting flat found listed (omega arith) (omega arith)

confirm_booking_iff_example :
    ((b : Booking) × ((confirm_booking fixed ports midnight 9 1 waiting_world).1 ≡ ok b)) ↔ (
      (flat.host_id ≡ 9)
      × (enforce_payout ports flat.host_id ≡ ok tt)
      × (waiting.status ≡ BookingStatus.pending))
confirm_booking_iff_example =
    confirm_booking_iff fixed ports midnight 9 1 waiting_world waiting flat found listed refl

-- Three nights, ten days on.
ranged :
    new_date_range (midnight + 10 * 86400000000000) (midnight + 13 * 86400000000000) midnight
    ≡ ok first_booking.dates
unfolding new_date_range sub_time truncate_day
ranged = refl

nightly_subtotal_sums_example :
    (n : ℕ) × (nights first_booking.dates ≡ pos n)
    × (n < rounds_between first_booking.dates.check_in first_booking.dates.check_out)
    × (ltb (first_booking.dates.check_in + n * 86400000000000) first_booking.dates.check_out
        ≡ false)
    × (nightly_subtotal fixed empty_world flat first_booking.dates (pos 0)
        ≡ new_money
            (wrap64 (
              stay_price
                (list_overlapping 100 first_booking.dates.check_in first_booking.dates.check_out [])
                (pos 10000)
                (pos 12000)
                n
                first_booking.dates.check_in))
            (codes "EUR"))
unfolding flat
nightly_subtotal_sums_example =
    nightly_subtotal_sums fixed empty_world flat (midnight + 10 * 86400000000000)
      (midnight + 13 * 86400000000000) midnight (pos 0) ranged (omega arith)

abbrev change : ModifyInput
change = record {
  actor_id = 5;
  booking_id = 1;
  check_in = midnight + 20 * 86400000000000;
  check_out = midnight + 22 * 86400000000000;
  guests = pos 2;
}

abbrev changed : Booking
changed = record waiting {
  dates = record {
    check_in = midnight + 20 * 86400000000000;
    check_out = midnight + 22 * 86400000000000;
  };
  guests = pos 2;
  pricing = record {
    nights = pos 2;
    subtotal = eur (pos 24000);
    discount = eur (pos 0);
    cleaning_fee = eur (pos 5000);
    extra_guest_fee = eur (pos 0);
    service_fee = eur (pos 3480);
    tax = eur (pos 1740);
    jurisdiction_tax_lines = [];
    jurisdiction_tax = eur (pos 0);
    security_deposit = eur (pos 20000);
    total = eur (pos 54220);
  };
}

abbrev change_event : Event fixed
change_event = booking_modified 1 100 (codes "Flat") 9 5 (pos 54220) (codes "EUR")

change_decided : decide_modify fixed cfg midnight change waiting_world ≡ ok (changed, change_event)
unfolding decide_modify booking_with_property find_booking find_property new_date_range sub_time
    truncate_day nights overlaps is_active is_blocked list_active_in_range taken_by_other
    nightly_subtotal sum_nights price_for_day list_overlapping new_money check_stay extra_guest_fee
    modified_terms reschedule_from_subtotal guard_reschedule apply_reschedule
    compute_pricing_from_subtotal discount_cents discount_pct_for_nights base_cents total_cents
    floor_zero round_share fixed add64 sub64 mul64 wrap64 ◌+ℤ◌ ◌-ℤ◌ ◌*ℤ◌ flat cfg
change_decided = refl

modify_not_stored_example :
    (b : Booking) × (find_booking 1 waiting_world.bookings ≡ ok b)
    × (stored : Booking) × (find_booking 1 (update_columns changed waiting_world.bookings)
        ≡ ok stored)
    × (stored.dates ≡ b.dates)
    × (stored.guests ≡ b.guests)
    × (stored.pricing ≡ b.pricing)
modify_not_stored_example = modify_not_stored fixed cfg midnight change waiting_world change_decided
