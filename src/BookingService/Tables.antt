-- ===== src/BookingService/Tables.antt =====
-- memory.go: the tables that the booking service reads and writes, and event.go: the outbox.
-- A Go map is visited in any order, so a list stands for it.
use airbnb.Common.{
  ltb, ◌==◌, if◌then◌else◌, ℤ, Text, equal_fold, Float64, Time, not_found, Result, ok, err, ◌>>=◌,
  ℕ, Bool, true, false, not, ◌&&◌, ◌||◌, List, [], ◌∷◌, truncate_day,
}
use airbnb.Booking.Dates.{DateRange, overlaps}
use airbnb.Booking.Reservation.{Booking, is_active}
use airbnb.Coupon.{Coupon, normalize_code}
use airbnb.Listing.{Property}
use airbnb.SplitPayment.{SplitPayment}

-- domain/block/block.go: a range that the host closed.
pub record Block : Type 0 where
  pub id : ℕ
  pub property_id : ℕ
  pub dates : DateRange
  pub reason : Text
  pub created_at : Time

-- domain/pricerule/pricerule.go: a nightly price for a range of days.
pub record Rule : Type 0 where
  pub id : ℕ
  pub property_id : ℕ
  pub start_date : Time
  pub end_date : Time
  pub price_cents : ℤ
  pub currency : Text
  pub label : Text
  pub created_at : Time

-- `AppliesOn`
unfoldable pub applies_on : Time → Rule → Bool
applies_on day r = let d = truncate_day day in not (ltb d r.start_date) && ltb d r.end_date

-- The events that the service records (application/event/events.go).
pub data Event (f : Float64) : Type 0 where
  -- booking, property, title, host, guest, total, currency, instant, split
  booking_requested : ℕ → ℕ → Text → ℕ → ℕ → ℤ → Text → Bool → Bool → Event f
  -- booking, property, title, guest, split
  booking_confirmed : ℕ → ℕ → Text → ℕ → Bool → Event f
  -- booking, property, title, host, guest, cancelled by, refund fraction, split
  booking_cancelled : ℕ → ℕ → Text → ℕ → ℕ → ℕ → f.Carrier → Bool → Event f
  -- booking, property, title, host, guest
  booking_completed : ℕ → ℕ → Text → ℕ → ℕ → Event f
  -- booking, property, title, host, guest, total, currency
  booking_modified : ℕ → ℕ → Text → ℕ → ℕ → ℤ → Text → Event f
  -- guest, property, title, threshold, total, currency
  kyc_step_up_required : ℕ → ℕ → Text → ℤ → ℤ → Text → Event f

-- A step-up event that was emitted: guest, property, currency, and when.
pub record Sighting : Type 0 where
  pub guest_id : ℕ
  pub property_id : ℕ
  pub currency : Text
  pub at : Time

-- A row that the auditor was asked to write.
pub record StepUpAudit : Type 0 where
  pub guest_id : ℕ
  pub property_id : ℕ
  pub title : Text
  pub currency : Text
  pub total_cents : ℤ

pub record World (f : Float64) : Type 0 where
  pub bookings : List Booking
  pub blocks : List Block
  pub properties : List (Property f)
  pub coupons : List (Coupon f)
  pub price_rules : List Rule
  pub splits : List SplitPayment
  pub outbox : List (Event f)
  pub seen : List Sighting
  pub audits : List StepUpAudit

-- `BookingRepository.FindByID`
unfoldable pub find_booking : ℕ → List Booking → Result Booking
find_booking id [] = err not_found
find_booking id (b ∷ rest) = if b.id == id then ok b else find_booking id rest

-- `BookingRepository.Update`: overwrites the row with that id.
unfoldable pub update_booking : Booking → List Booking → Result (List Booking)
update_booking b [] = err not_found
update_booking b (x ∷ rest) =
    let later = update_booking b rest in
    if x.id == b.id then ok (b ∷ rest) else (later >>= (λ rest'. ok (x ∷ rest')))

-- `BookingRepository.HasOverlap`
unfoldable pub has_overlap : ℕ → DateRange → List Booking → Bool
has_overlap property_id dates [] = false
has_overlap property_id dates (b ∷ rest) =
    if b.property_id == property_id && is_active b && overlaps b.dates dates
    then true
    else has_overlap property_id dates rest

-- `BookingRepository.ListActiveInRange`, in the order of the table.
unfoldable pub list_active_in_range : ℕ → Time → Time → List Booking → List Booking
list_active_in_range property_id from to [] = []
list_active_in_range property_id from to (b ∷ rest) =
    let later = list_active_in_range property_id from to rest in
    if not (b.property_id == property_id) || not (is_active b)
    then later
    else if ltb b.dates.check_in to && ltb from b.dates.check_out
    then b ∷ later
    else later

-- `BlockRepository.HasOverlap`
unfoldable pub is_blocked : ℕ → DateRange → List Block → Bool
is_blocked property_id dates [] = false
is_blocked property_id dates (b ∷ rest) =
    if b.property_id == property_id && overlaps b.dates dates
    then true
    else is_blocked property_id dates rest

-- `BlockRepository.ListInRange`, in the order of the table.
unfoldable pub list_blocks_in_range : ℕ → Time → Time → List Block → List Block
list_blocks_in_range property_id from to [] = []
list_blocks_in_range property_id from to (b ∷ rest) =
    let later = list_blocks_in_range property_id from to rest in
    if b.property_id == property_id && ltb b.dates.check_in to && ltb from b.dates.check_out
    then b ∷ later
    else later

-- One step of the sort by start date: after the rules that start no later.
unfoldable pub place_rule : Rule → List Rule → List Rule
place_rule r [] = r ∷ []
place_rule r (x ∷ rest) =
    let later = place_rule r rest in
    if ltb r.start_date x.start_date then r ∷ x ∷ rest else x ∷ later

-- `PriceRuleRepository.ListOverlapping`: half-open overlap, earliest start first.
unfoldable pub list_overlapping : ℕ → Time → Time → List Rule → List Rule
unfolding place_rule
list_overlapping property_id start stop [] = []
list_overlapping property_id start stop (r ∷ rest) =
    let later = list_overlapping property_id start stop rest in
    if not (r.property_id == property_id)
    then later
    else if ltb r.start_date stop && ltb start r.end_date
    then place_rule r later
    else later

module _ (f : Float64) where
  -- `PropertyRepository.FindByID`
  unfoldable pub find_property : ℕ → List (Property f) → Result (Property f)
  find_property id [] = err not_found
  find_property id (p ∷ rest) = if p.id == id then ok p else find_property id rest

  -- `CouponRepository.FindByCode`: `find_code` is its loop.
  unfoldable pub find_code : Text → List (Coupon f) → Result (Coupon f)
  find_code code [] = err not_found
  find_code code (c ∷ rest) = if equal_fold c.code code then ok c else find_code code rest

  unfoldable pub find_by_code : Text → List (Coupon f) → Result (Coupon f)
  unfolding find_code
  find_by_code code cs = find_code (normalize_code code) cs

  -- `CouponRepository.Update`
  unfoldable pub update_coupon : Coupon f → List (Coupon f) → Result (List (Coupon f))
  update_coupon c [] = err not_found
  update_coupon c (x ∷ rest) =
      let later = update_coupon c rest in
      if x.id == c.id then ok (c ∷ rest) else (later >>= (λ rest'. ok (x ∷ rest')))
