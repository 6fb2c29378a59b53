-- ===== src/Booking/Reservation/Lifecycle.antt =====
-- booking.go: the life of a reservation under any sequence of calls.
use airbnb.Common.{
  Bool-cases, ℤ, pos, ◌≤ℤ◌, ltb_ℤ, Float64, Time, Error, ok, err, Method, Atomic, ℕ, ◌≡◌, refl, ◌∙◌,
  ◌≢◌, ◌⊎◌, inl, inr, List, [], ◌∷◌, arith, Result-cases,
}
use airbnb.Shared.{Money, mul}
use airbnb.Booking.Dates.{DateRange, nights}
use airbnb.Booking.Pricing.{Pricing, Discounts, compute_pricing, compute_pricing_from_subtotal}
use airbnb.Booking.Pricing.Laws.{compute_pricing_from_subtotal-IsPriced}
use airbnb.Booking.Reservation.{
  Status, pending, confirmed, cancelled, completed, Booking, new_booking_with_pricing,
  guard_reschedule, apply_reschedule, new_booking, reschedule, reschedule_from_subtotal, confirm,
  cancel, complete,
}

-- The calls on a booking; a rescheduling carries its new dates and rates.
pub data Op (f : Float64) : Type 0 where
  rescheduling : DateRange → ℤ → Money → Money → f.Carrier → Discounts f → Time → Op f
  repricing : DateRange → ℤ → Money → Money → f.Carrier → Discounts f → Time → Op f
  confirming cancelling completing : Time → Op f

module _ (f : Float64) where
  unfoldable pub apply : Op f → Booking → Method Booking (Unit {0})
  apply (rescheduling dates guests price cleaning rate d now) b =
      reschedule f dates guests price cleaning rate d now b
  apply (repricing dates guests subtotal cleaning rate d now) b =
      reschedule_from_subtotal f dates guests subtotal cleaning rate d now b
  apply (confirming now) b = confirm now b
  apply (cancelling now) b = cancel now b
  apply (completing now) b = complete now b

  unfoldable pub run : List (Op f) → Booking → Booking
  run [] b = b
  run (op ∷ ops) b = run ops (apply op b).0

-- The transition diagram of the statuses.
infix 40 ◌⟶◌ ◌⟶*◌
pub data ◌⟶◌ : Status → Status → Type 0 where
  accept : pending ⟶ confirmed
  drop : pending ⟶ cancelled
  revoke : confirmed ⟶ cancelled
  finish : confirmed ⟶ completed

pub data ◌⟶*◌ : Status → Status → Type 0 where
  here : {s : Status} → s ⟶* s
  then : {s t u : Status} → s ⟶ t → t ⟶* u → s ⟶* u

module _ (f : Float64) where
  -- A call moves the status along one edge of the diagram, or leaves it.
  apply-⟶ :
      (op : Op f) (b : Booking)
      → (b.status ⟶ (apply f op b).0.status) ⊎ ((apply f op b).0.status ≡ b.status)
  unfolding apply reschedule reschedule_from_subtotal confirm cancel complete apply_reschedule
  apply-⟶ (rescheduling dates guests price cleaning rate d now) b = inr (ground arith)
  apply-⟶ (repricing dates guests subtotal cleaning rate d now) b = inr (ground arith)
  apply-⟶ (confirming now) b = grind (arith, accept)
  apply-⟶ (cancelling now) b = grind (arith, drop, revoke)
  apply-⟶ (completing now) b = grind (arith, finish)

  run-⟶* : (ops : List (Op f)) (b : Booking) → b.status ⟶* (run f ops b).status
  unfolding run
  run-⟶* [] b = here
  run-⟶* (op ∷ ops) b = elim (apply-⟶ op b) [
    | inl edge ↦ then edge (run-⟶* ops (apply f op b).0)
    | inr same ↦ rw same at (run-⟶* ops (apply f op b).0)
  ]

  -- A call that returns an error leaves the booking exactly as it was.
  call-Atomic : (op : Op f) (b : Booking) → Atomic b (apply f op b)
  unfolding apply reschedule reschedule_from_subtotal confirm cancel complete
  call-Atomic (rescheduling dates guests price cleaning rate d now) b = ground arith
  call-Atomic (repricing dates guests subtotal cleaning rate d now) b = ground arith
  call-Atomic (confirming now) b = ground arith
  call-Atomic (cancelling now) b = ground arith
  call-Atomic (completing now) b = ground arith

module _ (f : Float64) where
  -- How each kind of call moves the status when it succeeds.
  abbrev pub Allowed : Op f → Status → Status → Type 0
  Allowed (rescheduling dates guests price cleaning rate d now) s t = (s ≡ pending) × (t ≡ pending)
  Allowed (repricing dates guests subtotal cleaning rate d now) s t = (s ≡ pending) × (t ≡ pending)
  Allowed (confirming now) s t = (s ≡ pending) × (t ≡ confirmed)
  Allowed (cancelling now) s t = ((s ≡ pending) ⊎ (s ≡ confirmed)) × (t ≡ cancelled)
  Allowed (completing now) s t = (s ≡ confirmed) × (t ≡ completed)

  -- The statuses from which each kind of call may be refused; a rescheduling also looks at its
  -- arguments.
  abbrev pub Barred : Op f → Status → Type 0
  Barred (rescheduling dates guests price cleaning rate d now) s = Unit
  Barred (repricing dates guests subtotal cleaning rate d now) s = Unit
  Barred (confirming now) s = s ≢ pending
  Barred (cancelling now) s = (s ≢ pending) × (s ≢ confirmed)
  Barred (completing now) s = s ≢ confirmed

  -- A call that succeeds takes its own edge; one that fails changes nothing, and has a reason.
  abbrev pub Takes : Op f → Booking → Type 0
  Takes op b =
      let (b', result) = apply f op b in
      ((result ≡ ok tt) × Allowed op b.status b'.status)
      ⊎ ((e : Error) × (result ≡ err e) × (b' ≡ b) × Barred op b.status)

  -- Every single call of the sequence does so.
  abbrev pub Stepwise : List (Op f) → Booking → Type 0
  Stepwise [] b = Unit
  Stepwise (op ∷ ops) b = Takes op b × Stepwise ops (apply f op b).0

  apply-Takes : (op : Op f) (b : Booking) → Takes op b
  unfolding apply reschedule reschedule_from_subtotal confirm cancel complete guard_reschedule
      apply_reschedule
  apply-Takes (rescheduling dates guests price cleaning rate d now) b = ground arith
  apply-Takes (repricing dates guests subtotal cleaning rate d now) b = ground arith
  apply-Takes (confirming now) b = ground arith
  apply-Takes (cancelling now) b = ground arith
  apply-Takes (completing now) b = ground arith

  all_take : (ops : List (Op f)) (b : Booking) → Stepwise ops b
  all_take [] b = tt
  all_take (op ∷ ops) b = (apply-Takes op b, all_take ops (apply f op b).0)

  -- In any sequence of calls, each single call either succeeds and takes an edge of its own kind
  -- (a rescheduling keeps a pending booking pending, a confirmation takes pending to confirmed, a
  -- cancellation pending or confirmed to cancelled, a completion confirmed to completed), or fails
  -- and leaves the booking as it was; a confirmation, cancellation or completion fails only from a
  -- status that its edges do not leave. So the last status is reached along the diagram.
  pub run_follows :
      (ops : List (Op f)) (b : Booking) → Stepwise ops b × (b.status ⟶* (run f ops b).status)
  run_follows ops b = (all_take ops b, run-⟶* f ops b)

-- What a confirmed guest relies on: the dates, the party and the price.
abbrev pub Frozen : Booking → Booking → Type 0
Frozen b b' =
    (b'.status ≢ pending) × (b'.dates ≡ b.dates) × (b'.guests ≡ b.guests) × (b'.pricing ≡ b.pricing)

module _ (f : Float64) where
  apply-Frozen : (op : Op f) (b : Booking) → b.status ≢ pending → Frozen b (apply f op b).0
  unfolding apply reschedule reschedule_from_subtotal confirm cancel complete guard_reschedule
  apply-Frozen (rescheduling dates guests price cleaning rate d now) b h = ground arith
  apply-Frozen (repricing dates guests subtotal cleaning rate d now) b h = ground arith
  apply-Frozen (confirming now) b h = ground arith
  apply-Frozen (cancelling now) b h = ground arith
  apply-Frozen (completing now) b h = ground arith

  -- Once a booking has left pending it never returns to it, and no sequence of calls changes its
  -- dates, its guests or its price.
  pub run-Frozen : (ops : List (Op f)) (b : Booking) → b.status ≢ pending → Frozen b (run f ops b)
  unfolding run
  run-Frozen [] b h = (h, refl, refl, refl)
  run-Frozen (op ∷ ops) b h =
      let (left, dates, guests, pricing) = apply-Frozen op b h in
      let (left', dates', guests', pricing') = run-Frozen ops (apply f op b).0 left in
      (left', dates' ∙ dates, guests' ∙ guests, pricing' ∙ pricing)

-- A party of at least one, a stay of at least one night, priced for as many nights as the dates
-- have, at no negative total.
pub record IsBooked (b : Booking) : Type 0 where
  pub party : pos 1 ≤ℤ b.guests
  pub stay : pos 1 ≤ℤ nights b.dates
  pub priced : b.pricing.nights ≡ nights b.dates
  pub total_low : pos 0 ≤ℤ b.pricing.total.amount_cents

module _ (f : Float64) where
  compute_pricing-priced :
      (price cleaning : Money) (n : ℤ) (rate : f.Carrier) (d : Discounts f) {p : Pricing}
      → compute_pricing f price cleaning n rate d ≡ ok p
      → (pos 1 ≤ℤ n) × (p.nights ≡ n) × (pos 0 ≤ℤ p.total.amount_cents)
  unfolding compute_pricing
  compute_pricing-priced price cleaning n rate d {p} h = elim (Bool-cases (ltb_ℤ n (pos 1))) [
    | inl short ↦ cc (rw short at h)
    | inr long ↦
        let fact =
          compute_pricing_from_subtotal-IsPriced f (mul price n) cleaning n rate d {p = p}
            (rw long at h) in
        (ground arith, fact.nights_kept, ground (arith, fact.lows))
  ]

  subtotal-priced :
      (subtotal cleaning : Money) (n : ℤ) (rate : f.Carrier) (d : Discounts f) {p : Pricing}
      → compute_pricing_from_subtotal f subtotal cleaning n rate d ≡ ok p
      → (pos 1 ≤ℤ n) × (p.nights ≡ n) × (pos 0 ≤ℤ p.total.amount_cents)
  subtotal-priced subtotal cleaning n rate d {p} h =
      let fact = compute_pricing_from_subtotal-IsPriced f subtotal cleaning n rate d {p = p} h in
      (ground (arith, fact.stays, fact.nights_kept), fact.nights_kept, fact.lows.3)

  -- Every booking that `NewBooking` makes is pending, has the dates and the party asked for, at
  -- least one guest and one night, and is priced for exactly the nights of its dates.
  pub new_booking-IsBooked :
      (id property_id guest_id : ℕ) (dates : DateRange) (guests : ℤ) (price cleaning : Money)
      (rate : f.Carrier) (d : Discounts f) (now : Time) {b : Booking}
      → new_booking f id property_id guest_id dates guests price cleaning rate d now ≡ ok b
      → IsBooked b × (b.status ≡ pending) × (b.dates ≡ dates) × (b.guests ≡ guests)
  unfolding new_booking new_booking_with_pricing
  new_booking-IsBooked id property_id guest_id dates guests price cleaning rate d now h =
      elim (Result-cases (compute_pricing f price cleaning (nights dates) rate d)) [
        | inl (p, priced) ↦
            ground (arith, compute_pricing-priced price cleaning (nights dates) rate d priced)
        | inr (e, refused_by) ↦ ground arith
      ]

  apply-IsBooked : (op : Op f) (b : Booking) → IsBooked b → IsBooked (apply f op b).0
  unfolding apply reschedule reschedule_from_subtotal confirm cancel complete guard_reschedule
      apply_reschedule
  apply-IsBooked (rescheduling dates guests price cleaning rate d now) b h =
      elim (Result-cases (compute_pricing f price cleaning (nights dates) rate d)) [
        | inl (p, priced) ↦
            ground (arith, compute_pricing-priced price cleaning (nights dates) rate d priced)
        | inr (e, refused_by) ↦ ground arith
      ]
  apply-IsBooked (repricing dates guests subtotal cleaning rate d now) b h =
      elim (Result-cases
        (compute_pricing_from_subtotal f subtotal cleaning (nights dates) rate d)) [
          | inl (p, priced) ↦
              ground (arith, subtotal-priced subtotal cleaning (nights dates) rate d priced)
          | inr (e, refused_by) ↦ ground arith
        ]
  apply-IsBooked (confirming now) b h = ground arith
  apply-IsBooked (cancelling now) b h = ground arith
  apply-IsBooked (completing now) b h = ground arith

  -- Through any calls, reschedulings included, a booking keeps at least one guest and one night,
  -- a price for exactly the nights of its dates, and a total that is not negative.
  pub run-IsBooked : (ops : List (Op f)) (b : Booking) → IsBooked b → IsBooked (run f ops b)
  unfolding run
  run-IsBooked [] b h = h
  run-IsBooked (op ∷ ops) b h = run-IsBooked ops (apply f op b).0 (apply-IsBooked op b h)
