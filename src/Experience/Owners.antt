-- ===== src/Experience/Owners.antt =====
-- application/experience/service.go: any requests of hosts keep every listing within its limits, and
-- touch nobody else's.
use airbnb.Common.{
  ◌==◌, Text, Float64, Time, Result, ok, err, ◌>>=◌, ◌>>◌, ℕ, ◌≡◌, refl, ◌≢◌, ◌∙◌, sym, ap, subst,
  ◌⊎◌, inl, inr, not, Result-cases, after-bind, after-check, after-then, ok_inj, arith, List, [],
  ◌∷◌, All, find_row, found_row-All, found_row_own, found_row_key, create_row, created_row-All,
  created_row_elsewhere, update_row, updated_row-All, updated_row_elsewhere, delete_row,
  deleted_row-All, deleted_row_elsewhere,
}
use airbnb.Experience.Listing.{
  Experience, Basics, new_experience, publish, suspend, update_basics, add_photo,
}
use airbnb.Experience.Catalogue.{
  id_of, owned, kept, draft_experience, update_experience, photograph_experience,
  publish_experience, suspend_experience, delete_experience, kept_rows,
}
use airbnb.Experience.Edits.{
  IsFit, update_basics_id, new_experience-IsFit, update_basics-IsFit, published-IsFit,
  suspended-IsFit, photographed-IsFit,
}

-- A request to the catalogue, with the actor first; a draft takes the id that the machine drew.
pub data Request (f : Float64) : Type 0 where
  drafting : ℕ → ℕ → Basics f → Time → Request f
  updating : ℕ → ℕ → Basics f → Time → Request f
  photographing : ℕ → ℕ → ℕ → Text → Text → Time → Request f
  publishing suspending : ℕ → ℕ → Time → Request f
  deleting : ℕ → ℕ → Request f

module _ (f : Float64) where
  abbrev pub actor_of : Request f → ℕ
  actor_of (drafting host _ _ _) = host
  actor_of (updating actor _ _ _) = actor
  actor_of (photographing actor _ _ _ _ _) = actor
  actor_of (publishing actor _ _) = actor
  actor_of (suspending actor _ _) = actor
  actor_of (deleting actor _) = actor

  abbrev pub serve : Request f → List (Experience f) → List (Experience f)
  serve (drafting host id in_ now) rows = (draft_experience f id host in_ now rows).0
  serve (updating actor id in_ now) rows = (update_experience f actor id in_ now rows).0
  serve (photographing actor id photo key url now) rows =
      (photograph_experience f actor id photo key url now rows).0
  serve (publishing actor id now) rows = (publish_experience f actor id now rows).0
  serve (suspending actor id now) rows = (suspend_experience f actor id now rows).0
  serve (deleting actor id) rows = kept_rows f rows (delete_experience f actor id rows)

  abbrev pub run : List (Request f) → List (Experience f) → List (Experience f)
  run [] rows = rows
  run (r ∷ rs) rows = run rs (serve r rows)

  -- How a request of this actor may change the table.
  abbrev Rewrites : ℕ → List (Experience f) → List (Experience f) → Type 0
  Rewrites actor rows rows' =
      (e e' : Experience f) × (find_row (id_of f) e.id rows ≡ ok e)
      × (e.host_id ≡ actor)
      × (e'.id ≡ e.id)
      × (IsFit f e → IsFit f e')
      × (update_row (id_of f) e' rows ≡ ok rows')

  abbrev Adds : List (Experience f) → List (Experience f) → Type 0
  Adds rows rows' = (e : Experience f) × IsFit f e × (create_row (id_of f) e rows ≡ ok rows')

  abbrev Drops : ℕ → List (Experience f) → List (Experience f) → Type 0
  Drops actor rows rows' =
      (e : Experience f) × (find_row (id_of f) e.id rows ≡ ok e)
      × (e.host_id ≡ actor)
      × (delete_row (id_of f) e.id rows ≡ ok rows')

  abbrev Serves : ℕ → List (Experience f) → List (Experience f) → Type 0
  Serves actor rows rows' =
      (rows' ≡ rows) ⊎ (Rewrites actor rows rows' ⊎ (Adds rows rows' ⊎ Drops actor rows rows'))

  owned_gives :
      (actor id : ℕ) (rows : List (Experience f)) {e : Experience f}
      → owned f actor id rows ≡ ok e
      → (find_row (id_of f) e.id rows ≡ ok e) × (e.host_id ≡ actor) × (e.id ≡ id)
  unfolding owned
  owned_gives actor id rows h = after-bind (find_row (id_of f) id rows) _ h λ x found h1.
      after-check (not (x.host_id == actor)) _ _ h1 λ host h2.
        let own = found_row_own (id_of f) id rows found in
        let same = found_row_key (id_of f) id rows found in
        subst (λ y. (find_row (id_of f) y.id rows ≡ ok y) × (y.host_id ≡ actor) × (y.id ≡ id))
          (ok_inj h2) (own, ground arith, same)

  kept_cases :
      (rows : List (Experience f)) (m : Result (Experience f × List (Experience f)))
      → ((kept f rows m).0 ≡ rows)
        ⊎ ((e : Experience f) × (rows' : List (Experience f)) × (m ≡ ok (e, rows'))
            × ((kept f rows m).0 ≡ rows'))
  unfolding kept
  kept_cases rows (err e) = inl refl
  kept_cases rows (ok (e, rows')) = inr (e, rows', refl, refl)

  -- A listing of the actor's, changed by a method and written back.
  rewritten :
      (actor id : ℕ) (rows : List (Experience f)) (change : Experience f → Experience f)
      (answer : Experience f → Result (Unit {0}))
      → ((e : Experience f) → (change e).id ≡ e.id)
      → ((e : Experience f) → IsFit f e → IsFit f (change e))
      → let m : Result (Experience f × List (Experience f)) = owned f actor id rows >>= (λ e.
        answer e >> (update_row (id_of f) (change e) rows >>= (λ rows'. ok (change e, rows')))) in
        Serves actor rows (kept f rows m).0
  rewritten actor id rows change answer same fits =
      let m : Result (Experience f × List (Experience f)) = owned f actor id rows >>= (λ e.
        answer e >> (update_row (id_of f) (change e) rows >>= (λ rows'. ok (change e, rows')))) in
      elim (kept_cases rows m) [
        | inl unchanged ↦ inl unchanged
        | inr (e', rows', served, after) ↦ inr (
            inl (
              rw after (
                after-bind (owned f actor id rows) _ served λ e mine h1.
                  after-then (answer e) _ h1 λ fine h2.
                    after-bind (update_row (id_of f) (change e) rows) _ h2 λ rows'' stored h3.
                      let (own, host, _) = owned_gives actor id rows mine in
                      subst (Rewrites actor rows)
                        (ap (λ (p : Experience f × List (Experience f)). p.1) (ok_inj h3))
                        (e, change e, own, host, same e, fits e, stored))))
      ]

  serve-Serves :
      (r : Request f) (rows : List (Experience f)) → Serves (actor_of r) rows (serve r rows)
  unfolding draft_experience update_experience photograph_experience publish_experience
      suspend_experience delete_experience publish suspend add_photo
  serve-Serves (drafting host id in_ now) rows =
      elim (kept_cases rows (
        new_experience f id host in_ now
        >>= (λ e. create_row (id_of f) e rows >>= (λ rows'. ok (e, rows'))))) [
          | inl unchanged ↦ inl unchanged
          | inr (e', rows', served, after) ↦ inr (
              inr (
                inl (
                  rw after (
                    after-bind (new_experience f id host in_ now) _ served λ e made h1.
                      after-bind (create_row (id_of f) e rows) _ h1 λ rows'' stored h2.
                        subst (Adds rows)
                          (ap (λ (p : Experience f × List (Experience f)). p.1) (ok_inj h2))
                          (e, new_experience-IsFit f id host in_ now made, stored)))))
        ]
  serve-Serves (updating actor id in_ now) rows =
      rewritten actor id rows (λ e. (update_basics f now in_ e).0)
        (λ e. (update_basics f now in_ e).1) (λ e. update_basics_id f now in_ e)
        (λ e s. update_basics-IsFit f now in_ e s)
  serve-Serves (photographing actor id photo key url now) rows =
      rewritten actor id rows (λ e. add_photo f photo key url now e) (λ e. ok tt) (λ e. refl)
        (λ e s. photographed-IsFit f photo key url now e s)
  serve-Serves (publishing actor id now) rows =
      rewritten actor id rows (λ e. (publish f now e).0) (λ e. (publish f now e).1)
        (λ e. ground arith) (λ e s. published-IsFit f now e s)
  serve-Serves (suspending actor id now) rows =
      rewritten actor id rows (λ e. suspend f now e) (λ e. ok tt) (λ e. ground arith)
        (λ e s. suspended-IsFit f now e s)
  serve-Serves (deleting actor id) rows = elim (Result-cases (delete_experience f actor id rows)) [
    | inr (e, stopped) ↦ inl (rw stopped refl)
    | inl (rows', dropped) ↦ inr (
        inr (
          inr (
            rw dropped (
              after-bind (owned f actor id rows) _ dropped λ e mine h1.
                let (own, host, same) = owned_gives actor id rows mine in
                (e, own, host, ap (λ i. delete_row (id_of f) i rows) same ∙ h1)))))
  ]

  Serves-IsFit :
      (actor : ℕ) (rows rows' : List (Experience f))
      → Serves actor rows rows'
      → All (IsFit f) rows
      → All (IsFit f) rows'
  Serves-IsFit actor rows rows' h s = elim h [
    | inl same ↦ subst (All (IsFit f)) (sym same) s
    | inr (inl (e, e', found, host, same, fits, stored)) ↦
        updated_row-All (id_of f) (IsFit f) e' rows stored
          (fits (found_row-All (id_of f) (IsFit f) e.id rows found s).0) s
    | inr (inr (inl (e, fit, stored))) ↦ created_row-All (id_of f) (IsFit f) e rows stored fit s
    | inr (inr (inr (e, found, host, dropped))) ↦
        deleted_row-All (id_of f) (IsFit f) e.id rows dropped s
  ]

  -- If the listings keep within their limits, each still does after any requests of hosts: a host,
  -- a title of at most 200 bytes, a known category, a place, 30 minutes to a day, 1 to 50 guests, a
  -- price that is not negative, a language of two letters, and a photo once it is published.
  pub run-IsFit :
      (rs : List (Request f)) (rows : List (Experience f))
      → All (IsFit f) rows
      → All (IsFit f) (run rs rows)
  run-IsFit [] rows s = s
  run-IsFit (r ∷ rs) rows s =
      run-IsFit rs (serve r rows)
        (Serves-IsFit (actor_of r) rows (serve r rows) (serve-Serves r rows) s)

  Serves-untouched :
      (actor id : ℕ) (rows rows' : List (Experience f)) {e : Experience f}
      → Serves actor rows rows'
      → find_row (id_of f) id rows ≡ ok e
      → e.host_id ≢ actor
      → find_row (id_of f) id rows' ≡ ok e
  Serves-untouched actor id rows rows' {e} h found other = elim h [
    | inl same ↦ rw same found
    | inr (inl (x, x', own, host, same, fits, stored)) ↦
        updated_row_elsewhere (id_of f) x' id rows stored (λ this. other (
          ap (λ (y : Experience f). y.host_id)
            (ok_inj (sym found ∙ ap (λ i. find_row (id_of f) i rows) (sym this ∙ same) ∙ own))
          ∙ host))
        ∙ found
    | inr (inr (inl (x, fit, stored))) ↦ created_row_elsewhere (id_of f) x id rows stored found
    | inr (inr (inr (x, own, host, dropped))) ↦
        deleted_row_elsewhere (id_of f) x.id id rows dropped (λ this. other (
          ap (λ (y : Experience f). y.host_id)
            (ok_inj (sym found ∙ ap (λ i. find_row (id_of f) i rows) (sym this) ∙ own))
          ∙ host))
        ∙ found
  ]

  -- Requests whose actors are all other than the host of a listing in the table leave it exactly as it
  -- is.
  pub run_untouched :
      (rs : List (Request f)) (id : ℕ) (rows : List (Experience f)) {e : Experience f}
      → find_row (id_of f) id rows ≡ ok e
      → All (λ r. e.host_id ≢ actor_of r) rs
      → find_row (id_of f) id (run rs rows) ≡ ok e
  run_untouched [] id rows found others = found
  run_untouched (r ∷ rs) id rows found others =
      run_untouched rs id (serve r rows)
        (Serves-untouched (actor_of r) id rows (serve r rows) (serve-Serves r rows) found others.0)
        others.1
