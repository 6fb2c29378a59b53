-- ===== src/Listing/Edit.antt =====
-- property.go: the methods of a listing.
use airbnb.Common.{
  ltb, ◌==◌, if◌then◌else◌, length, ℤ, pos, ltb_ℤ, eqb_ℤ, Text, text_eq, is_empty, trim_space,
  Float64, Time, validation, Result, ok, err, ◌>>◌, fail_if, Method, done, refused, ℕ, Bool, not,
  ◌&&◌, ◌||◌, List,
}
use airbnb.Shared.{Money}
use airbnb.Listing.Photos.{Photo, add_photo, remove_photo, reorder_photos}
use airbnb.Listing.{
  published, suspended, is_published, is_suspended, CancellationPolicy, valid_cancellation_policy,
  ArrivalInfo, valid_check_in_method, PricingPolicy, normalised, Property,
}

module _ (f : Float64) where
  abbrev pub commit : Property f → Result (Property f) → Method (Property f) (Unit {0})
  commit p (ok p') = done p'
  commit p (err e) = refused p e

  unfoldable pub set_rating : f.Carrier → ℤ → Time → Property f → Property f
  set_rating average count now p = record p {
    average_rating = average;
    review_count = count;
    updated_at = now;
  }

  unfoldable pub set_cancellation_policy : CancellationPolicy → Time → Property f → Property f
  set_cancellation_policy policy now p = record p {
    cancellation_policy = valid_cancellation_policy policy;
    updated_at = now;
  }

  unfoldable pub set_pricing_policy : PricingPolicy f → Time → Property f → Property f
  set_pricing_policy policy now p = record p {
    pricing_policy = normalised f policy;
    updated_at = now;
  }

  unfoldable pub set_instant_book : Bool → Time → Property f → Property f
  set_instant_book v now p = record p { instant_book = v; updated_at = now }

  unfoldable pub set_arrival_info : ArrivalInfo → Time → Property f → Method (Property f) (Unit {0})
  set_arrival_info info now p =
      let instructions = trim_space info.instructions in
      let ssid = trim_space info.wifi_ssid in
      let password = trim_space info.wifi_password in
      if ltb 2000 (length instructions)
      then refused p (validation "arrival instructions are too long (max 2000 characters)")
      else if ltb 100 (length ssid)
      then refused p (validation "wifi SSID is too long (max 100 characters)")
      else if ltb 200 (length password)
      then refused p (validation "wifi password is too long (max 200 characters)")
      else done (record p {
        arrival = record {
          check_in_method = valid_check_in_method info.check_in_method;
          instructions = instructions;
          wifi_ssid = ssid;
          wifi_password = password;
        };
        updated_at = now;
      })

  unfoldable pub set_stay_rules :
      ℤ → ℤ → ℤ → Money → Money → Time → Property f → Method (Property f) (Unit {0})
  set_stay_rules min_nights max_nights included fee deposit now p =
      let cur = p.price_per_night.currency in
      commit p (do
        fail_if (ltb_ℤ min_nights (pos 1)) (validation "minimum nights must be at least 1")
        fail_if (not (eqb_ℤ max_nights (pos 0)) && ltb_ℤ max_nights min_nights)
            (validation "maximum nights must be 0 or at least the minimum")
        fail_if (ltb_ℤ included (pos 1) || ltb_ℤ p.max_guests included)
            (validation "guests included must be between 1 and the maximum guests")
        fail_if (not (text_eq fee.currency cur) || not (text_eq deposit.currency cur))
            (validation "fees must use the same currency as the nightly price")
        fail_if (ltb_ℤ fee.amount_cents (pos 0) || ltb_ℤ deposit.amount_cents (pos 0))
            (validation "fees cannot be negative")
        ok (record p {
          min_nights = min_nights;
          max_nights = max_nights;
          guests_included = included;
          extra_guest_fee = fee;
          security_deposit = deposit;
          updated_at = now;
        }))

  unfoldable pub publish : Time → Property f → Method (Property f) (Unit {0})
  publish now p =
      if length p.photos == 0
      then refused p (validation "a property needs at least one photo before publishing")
      else done (record p { status = published; updated_at = now })

  unfoldable pub suspend : Time → Property f → Property f
  suspend now p = record p { status = suspended; updated_at = now }

  unfoldable pub unsuspend : Time → Property f → Method (Property f) (Unit {0})
  unsuspend now p =
      if not (is_suspended p.status)
      then refused p (validation "only suspended listings can be reinstated")
      else done (record p { status = published; updated_at = now })

  -- `AddPhoto`
  unfoldable pub attach : ℕ → Text → Text → Time → Property f → Method (Property f) Photo
  attach id object_key url now p =
      let (photos, photo) = add_photo id object_key url p.photos in
      (record p { photos = photos; updated_at = now }, ok photo)

  -- `RemovePhoto`
  unfoldable pub detach : ℕ → Time → Property f → Method (Property f) (Unit {0})
  detach photo_id now p = elim (remove_photo photo_id p.photos) [
    | err e ↦ refused p e
    | ok photos ↦ done (record p { photos = photos; updated_at = now })
  ]

  -- `ReorderPhotos`
  unfoldable pub rearrange : List ℕ → Time → Property f → Method (Property f) (Unit {0})
  rearrange ordered now p = elim (reorder_photos ordered p.photos) [
    | err e ↦ refused p e
    | ok photos ↦ done (record p { photos = photos; updated_at = now })
  ]

  unfoldable pub update_details :
      Text → Text → Money → Money → ℤ → Time → Property f → Method (Property f) (Unit {0})
  update_details raw_title description price cleaning_fee max_guests now p =
      let title = trim_space raw_title in
      commit p (do
        fail_if (is_empty title) (validation "title is required")
        fail_if (not (text_eq cleaning_fee.currency price.currency))
            (validation "cleaning fee must use the same currency as the nightly price")
        fail_if (ltb_ℤ max_guests (pos 1)) (validation "maxGuests must be at least 1")
        ok (record p {
          title = title;
          description = trim_space description;
          price_per_night = price;
          cleaning_fee = cleaning_fee;
          max_guests = max_guests;
          updated_at = now;
        }))

  unfoldable pub can_be_booked_by : ℕ → Property f → Result (Unit {0})
  can_be_booked_by guest_id p = do
    fail_if (not (is_published p.status)) (validation "property is not available for booking")
    fail_if (p.host_id == guest_id) (validation "a host cannot book their own property")

  unfoldable pub is_owned_by : ℕ → Property f → Bool
  is_owned_by user_id p = p.host_id == user_id
