-- ===== src/Experience/Edits.antt =====
-- domain/experience/experience.go and application/experience/service.go: every listing fits its limits,
-- whatever hosts do to it.
use airbnb.Common.{
  ltb, ◌==◌, length, length-append, pos, ltb_ℤ, ◌≤ℤ◌, Text, is_empty, trim_space, to_lower, Float64,
  Time, ok, ℕ, ◌≤◌, ◌≡◌, refl, ◌≢◌, subst, inl, inr, true, false, not, ◌||◌, Bool-cases,
  Result-cases, after-check, after-then, ok_inj, arith,
}
use airbnb.Experience.Listing.{
  Experience, Basics, valid_category, is_published, is_suspended, validate, new_experience, publish,
  suspend, edited, update_basics, add_photo,
}

module _ (f : Float64) where
  -- What the rest of the system may rely on.
  pub record IsFit (e : Experience f) : Type 0 where
    pub hosted : e.host_id ≢ 0
    pub titled : (is_empty e.title ≡ false) × (length e.title ≤ 200)
    pub sorted : valid_category e.category ≡ true
    pub placed : validate f e.address ≡ ok tt
    pub lasts : (pos 30 ≤ℤ e.duration_minutes) × (e.duration_minutes ≤ℤ pos 1440)
    pub seats : (pos 1 ≤ℤ e.max_guests) × (e.max_guests ≤ℤ pos 50)
    pub priced : pos 0 ≤ℤ e.price_per_guest.amount_cents
    pub spoken : length e.language ≡ 2
    pub pictured : is_published e.status ≡ true → 1 ≤ length e.photos

  pub new_experience-IsFit :
      (id host : ℕ) (in_ : Basics f) (now : Time) {e : Experience f}
      → new_experience f id host in_ now ≡ ok e
      → IsFit e
  unfolding new_experience
  new_experience-IsFit id host in_ now h =
      let title = trim_space in_.title in
      let lang = to_lower (trim_space in_.language) in
      after-check (is_empty title) _ _ h λ some_title h1.
        after-check (ltb 200 (length title)) _ _ h1 λ short_title h2.
          after-check (host == 0) _ _ h2 λ some_host h3.
            after-check (not (valid_category in_.category)) _ _ h3 λ known h4.
              after-then (validate f in_.address) _ h4 λ placed h5.
                after-check
                  (ltb_ℤ in_.duration_minutes (pos 30) || ltb_ℤ (pos 1440) in_.duration_minutes) _ _
                  h5
                  λ lasts h6.
                    after-check (ltb_ℤ in_.max_guests (pos 1) || ltb_ℤ (pos 50) in_.max_guests) _ _
                      h6
                      λ seats h7.
                        after-check (ltb_ℤ in_.price_per_guest.amount_cents (pos 0)) _ _ h7
                          λ priced h8. after-check (not (length lang == 2)) _ _ h8 λ spoken h9.
                            subst IsFit (ok_inj h9) (record {
                              hosted = ground arith;
                              titled = (some_title, ground arith);
                              sorted = ground arith;
                              placed = placed;
                              lasts = (ground arith, ground arith);
                              seats = (ground arith, ground arith);
                              priced = ground arith;
                              spoken = ground arith;
                              pictured = λ wrong. cc;
                            })

  edited-IsFit :
      (now : Time) (in_ : Basics f) (e : Experience f) {e' : Experience f}
      → edited f now in_ e ≡ ok e'
      → IsFit e
      → IsFit e'
  unfolding edited
  edited-IsFit now in_ e h s =
      let title = trim_space in_.title in
      let lang = to_lower (trim_space in_.language) in
      after-check (is_empty title || ltb 200 (length title)) _ _ h λ some_title h1.
        after-check (not (valid_category in_.category)) _ _ h1 λ known h2.
          after-then (validate f in_.address) _ h2 λ placed h3.
            after-check
              (ltb_ℤ in_.duration_minutes (pos 30) || ltb_ℤ (pos 1440) in_.duration_minutes) _ _ h3
              λ lasts h4.
                after-check (ltb_ℤ in_.max_guests (pos 1) || ltb_ℤ (pos 50) in_.max_guests) _ _ h4
                  λ seats h5.
                    after-check (ltb_ℤ in_.price_per_guest.amount_cents (pos 0)) _ _ h5 λ priced h6.
                      after-check (not (length lang == 2)) _ _ h6 λ spoken h7.
                        subst IsFit (ok_inj h7) (record {
                          hosted = s.hosted;
                          titled = (ground arith, ground arith);
                          sorted = ground arith;
                          placed = placed;
                          lasts = (ground arith, ground arith);
                          seats = (ground arith, ground arith);
                          priced = ground arith;
                          spoken = ground arith;
                          pictured = s.pictured;
                        })

  pub published-IsFit : (now : Time) (e : Experience f) → IsFit e → IsFit (publish f now e).0
  unfolding publish
  published-IsFit now e s = elim (Bool-cases (is_published e.status)) [
    | inl already ↦ rw (already, publish) s
    | inr not_yet ↦ elim (Bool-cases (is_empty (trim_space e.description))) [
      | inl bare ↦ rw (not_yet, bare, publish) s
      | inr described ↦ elim (Bool-cases (length e.photos == 0)) [
        | inl bare ↦ rw (not_yet, described, bare, publish) s
        | inr pictured ↦
            rw (not_yet, described, pictured, publish)
              (record {
                hosted = s.hosted;
                titled = s.titled;
                sorted = s.sorted;
                placed = s.placed;
                lasts = s.lasts;
                seats = s.seats;
                priced = s.priced;
                spoken = s.spoken;
                pictured = λ _. ground arith;
              })
      ]
    ]
  ]

  pub suspended-IsFit : (now : Time) (e : Experience f) → IsFit e → IsFit (suspend f now e)
  unfolding suspend
  suspended-IsFit now e s = elim (Bool-cases (is_suspended e.status)) [
    | inl already ↦ rw already s
    | inr not_yet ↦ rw not_yet (record {
      hosted = s.hosted;
      titled = s.titled;
      sorted = s.sorted;
      placed = s.placed;
      lasts = s.lasts;
      seats = s.seats;
      priced = s.priced;
      spoken = s.spoken;
      pictured = λ wrong. cc;
    })
  ]

  pub photographed-IsFit :
      (id : ℕ) (key url : Text) (now : Time) (e : Experience f)
      → IsFit e
      → IsFit (add_photo f id key url now e)
  unfolding add_photo
  photographed-IsFit id key url now e s = record {
    hosted = s.hosted;
    titled = s.titled;
    sorted = s.sorted;
    placed = s.placed;
    lasts = s.lasts;
    seats = s.seats;
    priced = s.priced;
    spoken = s.spoken;
    pictured = λ _. omega (arith, length-append e.photos);
  }

  pub update_basics-IsFit :
      (now : Time) (in_ : Basics f) (e : Experience f)
      → IsFit e
      → IsFit (update_basics f now in_ e).0
  unfolding update_basics
  update_basics-IsFit now in_ e s = elim (Result-cases (edited f now in_ e)) [
    | inl (e', fine) ↦ rw (fine, update_basics) (edited-IsFit now in_ e fine s)
    | inr (why, wrong) ↦ rw (wrong, update_basics) s
  ]

  edited_id :
      (now : Time) (in_ : Basics f) (e : Experience f) {e' : Experience f}
      → edited f now in_ e ≡ ok e'
      → e'.id ≡ e.id
  unfolding edited
  edited_id now in_ e h = ground arith

  pub update_basics_id :
      (now : Time) (in_ : Basics f) (e : Experience f) → (update_basics f now in_ e).0.id ≡ e.id
  unfolding update_basics
  update_basics_id now in_ e = elim (Result-cases (edited f now in_ e)) [
    | inl (e', fine) ↦ rw (fine, update_basics) (edited_id now in_ e fine)
    | inr (why, wrong) ↦ rw (wrong, update_basics) refl
  ]
