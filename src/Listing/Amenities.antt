-- ===== src/Listing/Amenities.antt =====
-- amenities.go: the canonical amenity codes, and the normal form of a list of them.
use airbnb.Common.{
  ◌==◌, if◌then◌else◌, Text, text_eq, codes, is_empty, trim_space, to_lower, ℕ, Bool, true, false,
  List, [], ◌∷◌, map,
}

abbrev pub canonical_amenities : List Text
canonical_amenities =
    codes "wifi"
    ∷ codes "kitchen"
    ∷ codes "parking"
    ∷ codes "pool"
    ∷ codes "air-conditioning"
    ∷ codes "heating"
    ∷ codes "washer"
    ∷ codes "dryer"
    ∷ codes "tv"
    ∷ codes "workspace"
    ∷ codes "hot-tub"
    ∷ codes "gym"
    ∷ codes "pets-allowed"
    ∷ codes "elevator"
    ∷ codes "breakfast"
    ∷ codes "smoke-alarm"
    ∷ codes "wheelchair-accessible"
    ∷ codes "step-free-entry"
    ∷ codes "wide-doorways"
    ∷ codes "roll-in-shower"
    ∷ codes "accessible-parking"
    ∷ codes "accessible-bathroom"
    ∷ []

unfoldable pub listed : Text → List Text → Bool
listed s [] = false
listed s (t ∷ rest) = if text_eq t s then true else listed s rest

-- The two calls of `strings.ReplaceAll`, of one byte.
abbrev pub dashed : ℕ → ℕ
dashed c = if c == 95 then 45 else if c == 32 then 45 else c

-- `CanonicalizeAmenity`: the empty text for what is not recognised.
unfoldable pub canonicalize_amenity : Text → Text
canonicalize_amenity raw =
    let s = map dashed (to_lower (trim_space raw)) in if listed s canonical_amenities then s else []

-- The loop of `NormalizeAmenities`, with the codes seen.
unfoldable pub normalize_from : List Text → List Text → List Text
normalize_from seen [] = []
normalize_from seen (a ∷ rest) =
    let c = canonicalize_amenity a in
    let skip = normalize_from seen rest in
    let keep = c ∷ normalize_from (c ∷ seen) rest in
    if is_empty c then skip else if listed c seen then skip else keep

unfoldable pub normalize_amenities : List Text → List Text
normalize_amenities = normalize_from []
