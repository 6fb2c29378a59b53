-- ===== src/Experience/Reservation.antt =====
-- domain/experiencebooking (booking.go, pricing.go): the booking of a session.
use airbnb.Common.{
  ltb, ◌==◌, if◌then◌else◌, ℤ, pos, negsuc, ltb_ℤ, mul64, Float64, trunc_share, Time, validation,
  Result, ok, ◌>>=◌, ◌>>◌, fail_if, Method, done, refused, ℕ, suc, ◌+◌, ◌-◌, Bool, true, false, not,
  ◌&&◌, ◌||◌,
}
use airbnb.Shared.{Money, new_money, mul, add}

pub data Status : Type 0 where
  pending confirmed cancelled completed : Status

pub record Session : Type 0 where
  pub start_at : Time
  pub duration_minutes : ℤ

pub record Pricing : Type 0 where
  pub price_per_guest : Money
  pub guests : ℤ
  pub subtotal : Money
  pub service_fee : Money
  pub total : Money

pub record Booking : Type 0 where
  pub id : ℕ
  pub experience_id : ℕ
  pub host_id : ℕ
  pub guest_id : ℕ
  pub session : Session
  pub guests : ℤ
  pub pricing : Pricing
  pub status : Status
  pub created_at : Time
  pub updated_at : Time

abbrev pub is_confirmed : Status → Bool
is_confirmed confirmed = true
is_confirmed _ = false

abbrev pub is_cancelled : Status → Bool
is_cancelled cancelled = true
is_cancelled _ = false

-- `NewSession`
unfoldable pub new_session : Time → ℤ → ℤ → ℤ → Time → Result Session
new_session start_at duration min_duration max_duration now = do
  fail_if (not (ltb now start_at))
      (validation "experiencebooking: session start must be in the future")
  fail_if (ltb_ℤ duration min_duration || ltb_ℤ max_duration duration)
      (validation "experiencebooking: session duration out of allowed range")
  ok (record { start_at = start_at; duration_minutes = duration })

-- `Time.Add`; there is no time before the zero time.
abbrev pub after_span : Time → ℤ → Time
after_span t (pos n) = t + n
after_span t (negsuc n) = t - suc n

-- `Session.EndAt`
unfoldable pub end_at : Session → Time
end_at s = after_span s.start_at (mul64 s.duration_minutes (pos 60000000000))

-- `Booking.Confirm`
unfoldable pub confirm : Time → Booking → Method Booking (Unit {0})
confirm now b = elim b.status [
  | confirmed ↦ done b
  | pending ↦ done (record b { status = confirmed; updated_at = now })
  | cancelled ↦ refused b (validation "experiencebooking: cannot confirm a cancelled booking")
  | completed ↦ refused b (validation "experiencebooking: cannot confirm a completed booking")
]

-- The part of `Cancel` after its `switch`.
unfoldable pub call_off : Time → Time → Booking → Method Booking (Unit {0})
call_off clock now b =
    if not (ltb clock b.session.start_at)
    then refused b (validation "experiencebooking: cannot cancel after session start")
    else done (record b { status = cancelled; updated_at = now })

-- `Booking.Cancel`: the service's clock is compared, the machine's is written.
unfoldable pub cancel : Time → Time → Booking → Method Booking (Unit {0})
unfolding call_off
cancel clock now b = elim b.status [
  | cancelled ↦ done b
  | completed ↦ refused b (validation "experiencebooking: completed booking cannot be cancelled")
  | pending ↦ call_off clock now b
  | confirmed ↦ call_off clock now b
]

-- `Booking.Complete`
unfoldable pub complete : Time → Time → Booking → Method Booking (Unit {0})
complete clock now b = elim b.status [
  | completed ↦ done b
  | pending ↦ refused b (validation "experiencebooking: only confirmed bookings can be completed")
  | cancelled ↦ refused b (validation "experiencebooking: only confirmed bookings can be completed")
  | confirmed ↦
      if ltb clock (end_at b.session)
      then refused b (validation "experiencebooking: session has not finished yet")
      else done (record b { status = completed; updated_at = now })
]

module _ (f : Float64) where
  -- `ComputePricing`
  unfoldable pub compute_pricing : Money → ℤ → f.Carrier → Result Pricing
  compute_pricing price guests rate =
      let subtotal = mul price guests in
      do
        fail_if (ltb_ℤ guests (pos 1)) (validation "experiencebooking: guests must be ≥ 1")
        fail_if (ltb_ℤ price.amount_cents (pos 0))
            (validation "experiencebooking: pricePerGuest cannot be negative")
        fail_if (f.below rate (f.of_int (pos 0)) || f.below (f.of_int (pos 1)) rate)
            (validation "experiencebooking: serviceFeeRate out of [0,1]")
        fee ← new_money (trunc_share f subtotal.amount_cents rate) subtotal.currency
        total ← add subtotal fee
        ok (record {
          price_per_guest = price;
          guests = guests;
          subtotal = subtotal;
          service_fee = fee;
          total = total;
        })

  -- `NewBooking`
  unfoldable pub new_booking :
      ℕ → ℕ → ℕ → ℕ → Session → ℤ → ℤ → Money → f.Carrier → Time → Result Booking
  unfolding compute_pricing
  new_booking id experience_id host_id guest_id session guests cap price rate now = do
    fail_if (experience_id == 0) (validation "experiencebooking: experienceID is required")
    fail_if (host_id == 0) (validation "experiencebooking: hostID is required")
    fail_if (guest_id == 0) (validation "experiencebooking: guestID is required")
    fail_if (host_id == guest_id) (validation "experiencebooking: host cannot book own experience")
    fail_if (ltb_ℤ guests (pos 1)) (validation "experiencebooking: at least one guest is required")
    fail_if (ltb_ℤ (pos 0) cap && ltb_ℤ cap guests)
        (validation "experiencebooking: guests exceeds experience capacity")
    pricing ← compute_pricing price guests rate
    ok (record {
      id = id;
      experience_id = experience_id;
      host_id = host_id;
      guest_id = guest_id;
      session = session;
      guests = guests;
      pricing = pricing;
      status = pending;
      created_at = now;
      updated_at = now;
    })
