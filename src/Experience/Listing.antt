-- ===== src/Experience/Listing.antt =====
-- domain/experience/experience.go: the aggregate `Experience`.
use airbnb.Common.{
  ltb, ◌==◌, if◌then◌else◌, length, ℤ, pos, negsuc, ltb_ℤ, Text, is_empty, trim_space, to_lower,
  Float64, Time, validation, validation_of, Result, ok, err, ◌>>◌, fail_if, Method, done, refused,
  ℕ, Bool, true, false, not, ◌||◌, List, [], ◌∷◌, ◌++◌,
}
use airbnb.Shared.{Money}

-- A string that is none of the categories is kept as it is.
pub data Category : Type 0 where
  cooking tour sport art wellness other : Category
  unknown : Text → Category

-- `Category.Valid`
abbrev pub valid_category : Category → Bool
valid_category (unknown _) = false
valid_category _ = true

-- `string(category)`, as far as the constructor shows it.
abbrev pub spelled_category : Category → Text
spelled_category (unknown s) = s
spelled_category _ = []

pub data Status : Type 0 where
  draft published suspended : Status

abbrev pub is_published : Status → Bool
is_published published = true
is_published _ = false

abbrev pub is_suspended : Status → Bool
is_suspended suspended = true
is_suspended _ = false

pub record Photo : Type 0 where
  pub id : ℕ
  pub object_key : Text
  pub url : Text
  pub position : ℕ

module _ (f : Float64) where
  pub record Address : Type 0 where
    pub city : Text
    pub country : Text
    pub latitude : f.Carrier
    pub longitude : f.Carrier

  pub record Experience : Type 0 where
    pub id : ℕ
    pub host_id : ℕ
    pub title : Text
    pub description : Text
    pub category : Category
    pub status : Status
    pub address : Address
    pub duration_minutes : ℤ
    pub max_guests : ℤ
    pub price_per_guest : Money
    pub language : Text
    pub photos : List Photo
    pub created_at : Time
    pub updated_at : Time

  -- What a host edits in one shot: the arguments of `UpdateBasics`.
  pub record Basics : Type 0 where
    pub title : Text
    pub description : Text
    pub category : Category
    pub address : Address
    pub duration_minutes : ℤ
    pub max_guests : ℤ
    pub price_per_guest : Money
    pub language : Text

  -- `Address.validate`
  unfoldable pub validate : Address → Result (Unit {0})
  validate a = do
    fail_if (is_empty (trim_space a.city) || is_empty (trim_space a.country))
        (validation "experience.address: city and country are required")
    fail_if
        (f.below a.latitude (f.of_int (negsuc 89))
          || f.below (f.of_int (pos 90)) a.latitude
          || f.below a.longitude (f.of_int (negsuc 179))
          || f.below (f.of_int (pos 180)) a.longitude)
        (validation "experience.address: coordinates out of range")

  -- `NewExperience`
  unfoldable pub new_experience : ℕ → ℕ → Basics → Time → Result Experience
  unfolding validate
  new_experience id host_id in_ now =
      let title = trim_space in_.title in
      let lang = to_lower (trim_space in_.language) in
      do
        fail_if (is_empty title) (validation "experience: title is required")
        fail_if (ltb 200 (length title)) (validation "experience: title too long")
        fail_if (host_id == 0) (validation "experience: hostID is required")
        fail_if (not (valid_category in_.category))
            (validation_of "experience: unknown category " (spelled_category in_.category))
        validate in_.address
        fail_if (ltb_ℤ in_.duration_minutes (pos 30) || ltb_ℤ (pos 1440) in_.duration_minutes)
            (validation "experience: duration out of allowed range")
        fail_if (ltb_ℤ in_.max_guests (pos 1) || ltb_ℤ (pos 50) in_.max_guests)
            (validation "experience: maxGuests out of allowed range")
        fail_if (ltb_ℤ in_.price_per_guest.amount_cents (pos 0))
            (validation "experience: pricePerGuest cannot be negative")
        fail_if (not (length lang == 2))
            (validation "experience: language must be a 2-letter ISO code")
        ok (record {
          id = id;
          host_id = host_id;
          title = title;
          description = trim_space in_.description;
          category = in_.category;
          status = draft;
          address = in_.address;
          duration_minutes = in_.duration_minutes;
          max_guests = in_.max_guests;
          price_per_guest = in_.price_per_guest;
          language = lang;
          photos = [];
          created_at = now;
          updated_at = now;
        })

  -- `Publish`
  unfoldable pub publish : Time → Experience → Method Experience (Unit {0})
  publish now e =
      if is_published e.status
      then done e
      else if is_empty (trim_space e.description)
      then refused e (validation "experience: description is required before publishing")
      else if length e.photos == 0
      then refused e (validation "experience: at least one photo is required before publishing")
      else done (record e { status = published; updated_at = now })

  -- `Suspend`
  unfoldable pub suspend : Time → Experience → Experience
  suspend now e =
      if is_suspended e.status then e else record e { status = suspended; updated_at = now }

  -- The checks of `UpdateBasics`, which come before any write, and what it writes.
  unfoldable pub edited : Time → Basics → Experience → Result Experience
  unfolding validate
  edited now in_ e =
      let title = trim_space in_.title in
      let lang = to_lower (trim_space in_.language) in
      do
        fail_if (is_empty title || ltb 200 (length title))
            (validation "experience: title is required (max 200 chars)")
        fail_if (not (valid_category in_.category))
            (validation_of "experience: unknown category " (spelled_category in_.category))
        validate in_.address
        fail_if (ltb_ℤ in_.duration_minutes (pos 30) || ltb_ℤ (pos 1440) in_.duration_minutes)
            (validation "experience: duration out of allowed range")
        fail_if (ltb_ℤ in_.max_guests (pos 1) || ltb_ℤ (pos 50) in_.max_guests)
            (validation "experience: maxGuests out of allowed range")
        fail_if (ltb_ℤ in_.price_per_guest.amount_cents (pos 0))
            (validation "experience: pricePerGuest cannot be negative")
        fail_if (not (length lang == 2))
            (validation "experience: language must be a 2-letter ISO code")
        ok (record e {
          title = title;
          description = trim_space in_.description;
          category = in_.category;
          address = in_.address;
          duration_minutes = in_.duration_minutes;
          max_guests = in_.max_guests;
          price_per_guest = in_.price_per_guest;
          language = lang;
          updated_at = now;
        })

  -- `UpdateBasics`
  unfoldable pub update_basics : Time → Basics → Experience → Method Experience (Unit {0})
  unfolding edited
  update_basics now in_ e = elim (edited now in_ e) [ ok e' ↦ done e' | err why ↦ refused e why ]

  -- `AddPhoto`
  unfoldable pub add_photo : ℕ → Text → Text → Time → Experience → Experience
  add_photo id object_key url now e = record e {
    photos =
        e.photos
        ++ record { id = id; object_key = object_key; url = url; position = length e.photos } ∷ [];
    updated_at = now;
  }
