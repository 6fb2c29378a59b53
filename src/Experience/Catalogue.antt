-- ===== src/Experience/Catalogue.antt =====
-- application/experience/service.go, over the rows of memory.go: what a host does to a listing.
use airbnb.Common.{
  ◌==◌, Text, Float64, Time, forbidden, Result, ok, err, ◌>>=◌, ◌>>◌, fail_if, Method, refused,
  find_row, create_row, update_row, delete_row, ℕ, not, List,
}
use airbnb.Experience.Listing.{
  Experience, Basics, new_experience, publish, suspend, update_basics, add_photo,
}

module _ (f : Float64) where
  abbrev pub Rows : Type 0
  Rows = List (Experience f)

  abbrev pub id_of : Experience f → ℕ
  id_of e = e.id

  -- The listing, for its owner only.
  unfoldable pub owned : ℕ → ℕ → Rows → Result (Experience f)
  owned actor_id id rows = do
    e ← find_row id_of id rows
    fail_if (not (e.host_id == actor_id)) forbidden
    ok e

  -- The table after the call, and the listing that is returned.
  unfoldable pub kept : Rows → Result (Experience f × Rows) → Method Rows (Experience f)
  kept rows (err e) = refused rows e
  kept rows (ok (e, rows')) = (rows', ok e)

  -- `Service.Create`
  unfoldable pub draft_experience : ℕ → ℕ → Basics f → Time → Rows → Method Rows (Experience f)
  draft_experience id host_id in_ now rows =
      kept rows
        (do e ← new_experience f id host_id in_ now; rows' ← create_row id_of e rows; ok (e, rows'))

  -- `Service.Update`
  unfoldable pub update_experience : ℕ → ℕ → Basics f → Time → Rows → Method Rows (Experience f)
  update_experience actor_id id in_ now rows = kept rows (do
    e ← owned actor_id id rows
    let (e', answer) = update_basics f now in_ e
    answer
    rows' ← update_row id_of e' rows
    ok (e', rows'))

  -- `Service.AddPhoto`
  unfoldable pub photograph_experience :
      ℕ → ℕ → ℕ → Text → Text → Time → Rows → Method Rows (Experience f)
  photograph_experience actor_id id photo_id object_key url now rows = kept rows (do
    e ← owned actor_id id rows
    let e' = add_photo f photo_id object_key url now e
    rows' ← update_row id_of e' rows
    ok (e', rows'))

  -- `Service.Publish`
  unfoldable pub publish_experience : ℕ → ℕ → Time → Rows → Method Rows (Experience f)
  publish_experience actor_id id now rows = kept rows (do
    e ← owned actor_id id rows
    let (e', answer) = publish f now e
    answer
    rows' ← update_row id_of e' rows
    ok (e', rows'))

  -- `Service.Suspend`
  unfoldable pub suspend_experience : ℕ → ℕ → Time → Rows → Method Rows (Experience f)
  suspend_experience actor_id id now rows = kept rows (do
    e ← owned actor_id id rows
    let e' = suspend f now e
    rows' ← update_row id_of e' rows
    ok (e', rows'))

  -- `Service.Delete`
  unfoldable pub delete_experience : ℕ → ℕ → Rows → Result Rows
  delete_experience actor_id id rows = do e ← owned actor_id id rows; delete_row id_of id rows

  -- The table after a call that returns it or an error.
  abbrev pub kept_rows : Rows → Result Rows → Rows
  kept_rows rows (err e) = rows
  kept_rows rows (ok rows') = rows'
