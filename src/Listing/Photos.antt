-- ===== src/Listing/Photos.antt =====
-- property.go: the photos of a listing, in the order shown.
use airbnb.Common.{
  ◌==◌, if◌then◌else◌, length, Text, validation, not_found, Result, ok, err, ◌>>=◌, ◌>>◌, fail_if,
  ℕ, suc, Bool, true, false, not, Option, none, some, List, [], ◌∷◌, ◌++◌,
}

pub record Photo : Type 0 where
  pub id : ℕ
  pub object_key : Text
  pub url : Text
  pub position : ℕ

-- `renumberPhotos`, from a first position.
unfoldable pub renumber_from : ℕ → List Photo → List Photo
renumber_from i [] = []
renumber_from i (ph ∷ rest) = (record ph { position = i }) ∷ renumber_from (suc i) rest

-- `AddPhoto`, of the list.
unfoldable pub add_photo : ℕ → Text → Text → List Photo → List Photo × Photo
add_photo id object_key url photos =
    let photo : Photo = record {
      id = id;
      object_key = object_key;
      url = url;
      position = length photos;
    } in
    (photos ++ photo ∷ [], photo)

-- The search for the index and the cut, in one pass: `none` is the index -1.
unfoldable pub cut : ℕ → List Photo → Option (List Photo)
cut photo_id [] = none
cut photo_id (ph ∷ rest) =
    let later = cut photo_id rest in
    if ph.id == photo_id
    then some rest
    else elim later [ none ↦ none | some rest' ↦ some (ph ∷ rest') ]

-- `RemovePhoto`, of the list.
unfoldable pub remove_photo : ℕ → List Photo → Result (List Photo)
unfolding cut renumber_from
remove_photo photo_id photos = elim (cut photo_id photos) [
  | none ↦ err not_found
  | some rest ↦ ok (renumber_from 0 rest)
]

-- The map `byID`: the last photo with an id wins, as it is written last.
unfoldable pub by_id : ℕ → List Photo → Option Photo
by_id id [] = none
by_id id (ph ∷ rest) = elim (by_id id rest) [
  | some later ↦ some later
  | none ↦ if ph.id == id then some ph else none
]

unfoldable pub seen_id : ℕ → List ℕ → Bool
seen_id id [] = false
seen_id id (i ∷ rest) = if i == id then true else seen_id id rest

-- The loop of `ReorderPhotos`.
unfoldable pub gather : List Photo → List ℕ → List ℕ → Result (List Photo)
gather photos seen [] = ok []
gather photos seen (id ∷ rest) = elim (by_id id photos) [
  | none ↦ err (validation "unknown photo in the requested order")
  | some ph ↦ do
    fail_if (seen_id id seen) (validation "a photo is listed more than once")
    later ← gather photos (id ∷ seen) rest
    ok (ph ∷ later)
]

-- `ReorderPhotos`, of the list.
unfoldable pub reorder_photos : List ℕ → List Photo → Result (List Photo)
reorder_photos ordered photos = do
  fail_if (not (length ordered == length photos))
      (validation "the order must list every photo exactly once")
  reordered ← gather photos [] ordered
  ok (renumber_from 0 reordered)
