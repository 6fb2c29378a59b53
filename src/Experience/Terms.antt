-- ===== src/Experience/Terms.antt =====
-- application/experiencebooking/service.go: what is known of a booking that is made.
use airbnb.Common.{
  ltb, ◌==◌, ℤ, pos, ltb_ℤ, ◌≤ℤ◌, ◌<ℤ◌, Float64, Time, ok, ℕ, ◌<◌, ◌≡◌, refl, ◌≢◌, sym, subst, true,
  false, not, ◌&&◌, ◌||◌, after-bind, after-check, ok_inj, arith, find_row,
}
use airbnb.Experience.Listing.{Experience, is_published}
use airbnb.Experience.Reservation.{
  Booking, Session, pending, new_session, end_at, compute_pricing, new_booking,
}
use airbnb.Experience.Service.{
  Event, booking_created, World, CreateInput, any_overlapping, experience_id_of, decide_create,
}

new_session_gives :
    (start : Time) (duration low high : ℤ) (now : Time) {s : Session}
    → new_session start duration low high now ≡ ok s
    → (s ≡ record { start_at = start; duration_minutes = duration })
      × (now < start)
      × (low ≤ℤ duration)
      × (duration ≤ℤ high)
unfolding new_session
new_session_gives start duration low high now h =
    after-check (not (ltb now start)) _ _ h λ later h1.
      after-check (ltb_ℤ duration low || ltb_ℤ high duration) _ _ h1
        λ fits h2. (sym (ok_inj h2), ground arith, ground arith, ground arith)

module _ (f : Float64) where
  -- The booking of a session of `exp`, priced by the head.
  pub record IsMade (rate : f.Carrier) (in_ : CreateInput) (now : Time) (exp : Experience f)
      (b : Booking) : Type 0 where
    pub of_experience : b.experience_id ≡ exp.id
    pub of_host : b.host_id ≡ exp.host_id
    pub of_guest : b.guest_id ≡ in_.guest_id
    pub not_own : b.host_id ≢ b.guest_id
    pub session :
        b.session ≡ record { start_at = in_.start_at; duration_minutes = exp.duration_minutes }
    pub future : now < b.session.start_at
    pub not_short : pos 30 ≤ℤ b.session.duration_minutes
    pub not_long : b.session.duration_minutes ≤ℤ pos 1440
    pub guests : b.guests ≡ in_.guests
    pub some_guest : pos 1 ≤ℤ b.guests
    pub not_crowded : pos 0 <ℤ exp.max_guests → b.guests ≤ℤ exp.max_guests
    pub priced : compute_pricing f exp.price_per_guest b.guests rate ≡ ok b.pricing
    pub waits : b.status ≡ pending

  -- The session that is asked for.
  abbrev pub asked : CreateInput → Experience f → Session
  asked in_ exp = record { start_at = in_.start_at; duration_minutes = exp.duration_minutes }

  new_booking_gives :
      (id : ℕ) (in_ : CreateInput) (now : Time) (exp : Experience f) (rate : f.Carrier)
      {b : Booking}
      → new_booking f id exp.id exp.host_id in_.guest_id
          (asked in_ exp)
          in_.guests
          exp.max_guests
          exp.price_per_guest
          rate
          now
        ≡ ok b
      → now < in_.start_at
      → pos 30 ≤ℤ exp.duration_minutes
      → exp.duration_minutes ≤ℤ pos 1440
      → IsMade rate in_ now exp b × (b.id ≡ id)
  unfolding new_booking
  new_booking_gives id in_ now exp rate h future low high = after-check (exp.id == 0) _ _ h λ _ h1.
      after-check (exp.host_id == 0) _ _ h1 λ _ h2. after-check (in_.guest_id == 0) _ _ h2 λ _ h3.
        after-check (exp.host_id == in_.guest_id) _ _ h3 λ stranger h4.
          after-check (ltb_ℤ in_.guests (pos 1)) _ _ h4 λ someone h5.
            after-check (ltb_ℤ (pos 0) exp.max_guests && ltb_ℤ exp.max_guests in_.guests) _ _ h5
              λ room h6.
                after-bind (compute_pricing f exp.price_per_guest in_.guests rate) _ h6
                  λ pricing priced h7.
                    subst (λ x. IsMade rate in_ now exp x × (x.id ≡ id)) (ok_inj h7)
                      (
                        record {
                          of_experience = refl;
                          of_host = refl;
                          of_guest = refl;
                          not_own = ground arith;
                          session = refl;
                          future = future;
                          not_short = low;
                          not_long = high;
                          guests = refl;
                          some_guest = ground arith;
                          not_crowded = λ capped. ground arith;
                          priced = priced;
                          waits = refl;
                        },
                        refl,
                      )

  -- What `Create` has decided when nothing stopped it.
  abbrev pub Decided : f.Carrier → ℕ → CreateInput → Time → World f → Booking → Event → Type 0
  Decided rate id in_ now w b e =
      (exp : Experience f) × (find_row (experience_id_of f) in_.experience_id w.experiences
        ≡ ok exp)
      × (is_published exp.status ≡ true)
      × IsMade rate in_ now exp b
      × (any_overlapping b.experience_id b.session.start_at (end_at b.session) w.bookings ≡ false)
      × (b.id ≡ id)
      × (e
          ≡ booking_created b.id b.experience_id exp.title b.host_id b.guest_id
              b.pricing.total.amount_cents b.pricing.total.currency b.created_at)

  pub create-Decided :
      (rate : f.Carrier) (id : ℕ) (in_ : CreateInput) (now : Time) (w : World f) {b : Booking}
      {e : Event}
      → decide_create f rate id in_ now w ≡ ok (b, e)
      → Decided rate id in_ now w b e
  unfolding decide_create
  create-Decided rate id in_ now w {b} {e} h =
      after-bind (find_row (experience_id_of f) in_.experience_id w.experiences) _ h λ exp found h1.
        after-check (not (is_published exp.status)) _ _ h1 λ published h2.
          after-bind (new_session in_.start_at exp.duration_minutes (pos 30) (pos 1440) now) _ h2
            λ session scheduled h3.
              after-check (any_overlapping exp.id session.start_at (end_at session) w.bookings) _ _
                h3
                λ free h4.
                  after-bind
                    (new_booking f id exp.id exp.host_id in_.guest_id session in_.guests
                      exp.max_guests exp.price_per_guest rate now)
                    _ h4
                    λ b' made h5.
                      let (same, future, low, high) =
                        new_session_gives in_.start_at exp.duration_minutes (pos 30) (pos 1440) now
                          scheduled in
                      let (s, own) =
                        new_booking_gives id in_ now exp rate (rw same at made) future low high in
                      let clear : any_overlapping b'.experience_id b'.session.start_at
                            (end_at b'.session) w.bookings
                          ≡ false =
                        rw (s.of_experience, s.session) (rw same at free) in
                      subst (λ (p : Booking × Event). Decided rate id in_ now w p.0 p.1) (ok_inj h5)
                        (exp, found, ground arith, s, clear, own, refl)
