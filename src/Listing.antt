-- ===== src/Listing.antt =====
-- The listing context (backend/internal/domain/property): the aggregate `Property` of property.go,
-- and the canonical amenities of amenities.go. A method takes its clock and its fresh ids.
pub mod Photos
pub mod Amenities
pub mod Edit
pub mod Laws
use airbnb.Common.{
  ltb, ◌==◌, if◌then◌else◌, length, ℤ, pos, ltb_ℤ, leb_ℤ, eqb_ℤ, negsuc, floor_zero, Text, text_eq,
  is_empty, trim_space, Float64, Time, hour, validation, Result, ok, err, ◌>>=◌, ◌>>◌, fail_if,
  Method, done, refused, ℕ, ◌*◌, ◌+◌, Bool, true, false, not, ◌&&◌, ◌||◌, List, [],
}
use airbnb.Shared.{Money, new_money}
use airbnb.Listing.Photos.{Photo}
use airbnb.Listing.Amenities.{normalize_amenities}

-- The kinds of accommodation; `other` is any string that `Valid` refuses.
pub data PropertyType : Type 0 where
  apartment house room villa cabin other : PropertyType

unfoldable pub valid_type : PropertyType → Bool
valid_type other = false
valid_type _ = true

pub data Status : Type 0 where
  draft published suspended : Status

abbrev pub is_published : Status → Bool
is_published published = true
is_published _ = false

abbrev pub is_suspended : Status → Bool
is_suspended suspended = true
is_suspended _ = false

-- `unset` is any string but the three policies, which the code treats alike.
pub data CancellationPolicy : Type 0 where
  flexible moderate strict unset : CancellationPolicy

unfoldable pub valid_cancellation_policy : CancellationPolicy → CancellationPolicy
valid_cancellation_policy unset = flexible
valid_cancellation_policy p = p

-- `unknown` is the empty marker, `unlisted` any string that is none of the others.
pub data CheckInMethod : Type 0 where
  unknown self_lockbox smart_lock key_exchange host_greeting unlisted : CheckInMethod

unfoldable pub valid_check_in_method : CheckInMethod → CheckInMethod
valid_check_in_method unlisted = unknown
valid_check_in_method m = m

abbrev pub is_unknown : CheckInMethod → Bool
is_unknown unknown = true
is_unknown _ = false

pub record ArrivalInfo : Type 0 where
  pub check_in_method : CheckInMethod
  pub instructions : Text
  pub wifi_ssid : Text
  pub wifi_password : Text

unfoldable pub is_configured : ArrivalInfo → Bool
is_configured a =
    not (is_unknown a.check_in_method)
    || not (is_empty (trim_space a.instructions))
    || not (is_empty (trim_space a.wifi_ssid))
    || not (is_empty (trim_space a.wifi_password))

-- `ArrivalVisibleAt`: from 48 hours before check-in until check-out; 0 is the zero time.
unfoldable pub arrival_visible_at : Time → Time → Time → Bool
arrival_visible_at now check_in check_out =
    if check_in == 0 || check_out == 0
    then false
    else not (ltb (now + 48 * hour) check_in) && ltb now check_out

module _ (f : Float64) where
  -- `RefundFraction`, of the days until check-in.
  unfoldable pub refund_fraction : CancellationPolicy → ℤ → f.Carrier
  refund_fraction moderate days =
      if leb_ℤ (pos 5) days
      then f.of_int (pos 1)
      else if leb_ℤ (pos 1) days
      then f.half
      else f.of_int (pos 0)
  refund_fraction strict days =
      if leb_ℤ (pos 7) days
      then f.of_int (pos 1)
      else if leb_ℤ (pos 2) days
      then f.half
      else f.of_int (pos 0)
  refund_fraction flexible days = if leb_ℤ (pos 1) days then f.of_int (pos 1) else f.of_int (pos 0)
  refund_fraction unset days = if leb_ℤ (pos 1) days then f.of_int (pos 1) else f.of_int (pos 0)

  unfoldable pub clamp_fraction : f.Carrier → f.Carrier
  clamp_fraction x =
      if f.below x (f.of_int (pos 0))
      then f.of_int (pos 0)
      else if f.below (f.of_int (pos 1)) x
      then f.of_int (pos 1)
      else x

pub record PricingPolicy (f : Float64) : Type 0 where
  pub weekly_discount_pct : f.Carrier
  pub monthly_discount_pct : f.Carrier
  pub tax_rate_pct : f.Carrier
  pub weekend_price_cents : ℤ

pub record Address (f : Float64) : Type 0 where
  pub line1 : Text
  pub city : Text
  pub country : Text
  pub postal_code : Text
  pub latitude : f.Carrier
  pub longitude : f.Carrier

pub record Property (f : Float64) : Type 0 where
  pub id : ℕ
  pub host_id : ℕ
  pub title : Text
  pub description : Text
  pub kind : PropertyType
  pub status : Status
  pub address : Address f
  pub price_per_night : Money
  pub cleaning_fee : Money
  pub max_guests : ℤ
  pub bedrooms : ℤ
  pub beds : ℤ
  pub bathrooms : ℤ
  pub amenities : List Text
  pub photos : List Photo
  pub cancellation_policy : CancellationPolicy
  pub pricing_policy : PricingPolicy f
  pub instant_book : Bool
  pub min_nights : ℤ
  pub max_nights : ℤ
  pub guests_included : ℤ
  pub extra_guest_fee : Money
  pub security_deposit : Money
  pub arrival : ArrivalInfo
  pub average_rating : f.Carrier
  pub review_count : ℤ
  pub host_is_superhost : Bool
  pub created_at : Time
  pub updated_at : Time

module _ (f : Float64) where
  -- `Address.validate`; a coordinate bound is a whole number of degrees.
  unfoldable pub validate_address : Address f → Result (Unit {0})
  validate_address a = do
    fail_if (is_empty (trim_space a.city) || is_empty (trim_space a.country))
        (validation "address city and country are required")
    fail_if
        (f.below a.latitude (f.of_int (negsuc 89))
          || f.below (f.of_int (pos 90)) a.latitude
          || f.below a.longitude (f.of_int (negsuc 179))
          || f.below (f.of_int (pos 180)) a.longitude)
        (validation "address coordinates are out of range")

  -- `Normalised`
  unfoldable pub normalised : PricingPolicy f → PricingPolicy f
  normalised p = record {
    weekly_discount_pct = clamp_fraction f p.weekly_discount_pct;
    monthly_discount_pct = clamp_fraction f p.monthly_discount_pct;
    tax_rate_pct = clamp_fraction f p.tax_rate_pct;
    weekend_price_cents = floor_zero p.weekend_price_cents;
  }

  -- `zeroMoney`: the zero value where `NewMoney` refuses the currency.
  unfoldable pub zero_money : Text → Money
  zero_money currency = elim (new_money (pos 0) currency) [
    | ok m ↦ m
    | err e ↦ record { amount_cents = pos 0; currency = [] }
  ]

  unfoldable pub new_property :
      ℕ
      → ℕ
      → Text
      → Text
      → PropertyType
      → Address f
      → Money
      → Money
      → ℤ
      → ℤ
      → ℤ
      → ℤ
      → List Text
      → Time
      → Result (Property f)
  new_property id host_id raw_title description kind address price cleaning_fee max_guests bedrooms
        beds bathrooms amenities now =
      do
        let title = trim_space raw_title
        fail_if (is_empty title) (validation "title is required")
        fail_if (not (valid_type kind)) (validation "invalid property type")
        validate_address address
        fail_if (not (text_eq cleaning_fee.currency price.currency))
            (validation "cleaning fee must use the same currency as the nightly price")
        fail_if (ltb_ℤ max_guests (pos 1)) (validation "maxGuests must be at least 1")
        fail_if (ltb_ℤ bedrooms (pos 0) || ltb_ℤ beds (pos 0) || ltb_ℤ bathrooms (pos 0))
            (validation "room counts cannot be negative")
        ok (record {
          id = id;
          host_id = host_id;
          title = title;
          description = trim_space description;
          kind = kind;
          status = draft;
          address = address;
          price_per_night = price;
          cleaning_fee = cleaning_fee;
          max_guests = max_guests;
          bedrooms = bedrooms;
          beds = beds;
          bathrooms = bathrooms;
          amenities = normalize_amenities amenities;
          photos = [];
          cancellation_policy = flexible;
          pricing_policy = record {
            weekly_discount_pct = f.of_int (pos 0);
            monthly_discount_pct = f.of_int (pos 0);
            tax_rate_pct = f.of_int (pos 0);
            weekend_price_cents = pos 0;
          };
          instant_book = false;
          min_nights = pos 1;
          max_nights = pos 0;
          guests_included = max_guests;
          extra_guest_fee = zero_money price.currency;
          security_deposit = zero_money price.currency;
          arrival = record {
            check_in_method = unknown;
            instructions = [];
            wifi_ssid = [];
            wifi_password = [];
          };
          average_rating = f.of_int (pos 0);
          review_count = pos 0;
          host_is_superhost = false;
          created_at = now;
          updated_at = now;
        })
