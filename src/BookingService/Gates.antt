-- ===== src/BookingService/Gates.antt =====
-- service.go and stepup_dedup.go: what the service asks of others, the unit of work, and the gates
-- that a booking passes. A question to another service is a function that answers it.
use airbnb.Common.{
  ltb, leb, ◌==◌, if◌then◌else◌, ℤ, pos, ltb_ℤ, leb_ℤ, Text, text_eq, Float64, Time, Error,
  kyc_step_up, payout_onboarding_incomplete, Result, ok, err, Method, done, refused, ℕ, ◌-◌, Bool,
  true, false, not, ◌&&◌, ◌||◌, Option, none, some, List, [], ◌∷◌, ◌++◌,
}
use airbnb.Booking.Pricing.{TaxLine}
use airbnb.Listing.{Property}
use airbnb.BookingService.Tables.{Event, kyc_step_up_required, Sighting, World}

pub record TaxQuote : Type 0 where
  pub lines : List TaxLine
  pub total_cents : ℤ

-- The ports of the service; `none` is a port that is not wired.
pub record Ports : Type 0 where
  pub is_verified : ℕ → Result Bool  -- by guest
  pub rules_version : Option (ℕ → Result ℤ)  -- by property
  pub tax_quote : Option (ℕ → Time → ℤ → ℤ → ℤ → Result TaxQuote)  -- property, check-in, nights, guests, base
  pub email_of : Option (ℕ → Result Text)  -- of the organizer of a split
  pub payout_ready : Option (ℕ → Result Bool)  -- by host
  pub commit : Option Error  -- why the database would not commit

pub record Config (f : Float64) : Type 0 where
  pub service_fee_rate : f.Carrier
  pub require_kyc : Bool
  pub thresholds : List (Text × ℤ)
  pub dedup_ttl : ℕ
  pub audited : Bool

-- `enforcePayoutOnboarding`
unfoldable pub enforce_payout : Ports → ℕ → Result (Unit {0})
enforce_payout ports host_id = elim ports.payout_ready [
  | none ↦ ok tt
  | some is_ready ↦ elim (is_ready host_id) [
    | err e ↦ err e
    | ok ready ↦ if not ready then err (payout_onboarding_incomplete host_id) else ok tt
  ]
]

-- `s.highValueThresholds[currency]`
unfoldable pub threshold_of : Text → List (Text × ℤ) → Option ℤ
threshold_of currency [] = none
threshold_of currency ((c, cents) ∷ rest) =
    if text_eq c currency then some cents else threshold_of currency rest

-- The sweep of `markFresh`: what is older than the window goes.
unfoldable pub sweep : ℕ → Time → List Sighting → List Sighting
sweep ttl now [] = []
sweep ttl now (s ∷ rest) =
    let later = sweep ttl now rest in if leb ttl (now - s.at) then later else s ∷ later

unfoldable pub was_seen : ℕ → ℕ → ℕ → Text → Time → List Sighting → Bool
was_seen ttl guest_id property_id currency now [] = false
was_seen ttl guest_id property_id currency now (s ∷ rest) =
    if s.guest_id == guest_id
      && s.property_id == property_id
      && text_eq s.currency currency
      && ltb (now - s.at) ttl
    then true
    else was_seen ttl guest_id property_id currency now rest

-- `markFresh`: the table after the call, and whether the event is to be sent.
unfoldable pub mark_fresh : ℕ → ℕ → ℕ → Text → Time → List Sighting → List Sighting × Bool
unfolding sweep was_seen
mark_fresh ttl guest_id property_id currency now seen =
    let kept = sweep ttl now seen in
    if ttl == 0
    then (seen, true)
    else if was_seen ttl guest_id property_id currency now kept
    then (kept, false)
    else (
      record { guest_id = guest_id; property_id = property_id; currency = currency; at = now }
          ∷ kept,
      true,
    )

module _ (f : Float64) where
  -- The unit of work: what the function writes is kept if it succeeds and the database commits,
  -- and is otherwise rolled back.
  unfoldable pub run_tx : Ports → World f → Result (World f) → Method (World f) (Unit {0})
  run_tx ports w (err e) = refused w e
  run_tx ports w (ok w') = elim ports.commit [ none ↦ done w' | some e ↦ refused w e ]

  abbrev pub append_events : World f → List (Event f) → World f
  append_events w evs = record w { outbox = w.outbox ++ evs }

  -- The rest of `enforceStepUp`, for a guest who is not verified.
  unfoldable pub trip_gate :
      Ports
      → Config f
      → ℕ
      → Property f
      → ℤ
      → ℤ
      → Text
      → Time
      → World f
      → Method (World f) (Unit {0})
  trip_gate ports cfg guest_id prop threshold total_cents currency now w =
      let w1 : World f =
        if cfg.audited
        then record w {
          audits =
              w.audits
              ++ record {
                guest_id = guest_id;
                property_id = prop.id;
                title = prop.title;
                currency = currency;
                total_cents = total_cents;
              }
                ∷ [];
        }
        else w in
      let (seen, fresh) = mark_fresh cfg.dedup_ttl guest_id prop.id currency now w.seen in
      let w2 : World f = record w1 { seen = seen } in
      let event = kyc_step_up_required guest_id prop.id prop.title threshold total_cents currency in
      let w3 : World f =
        if fresh then (run_tx ports w2 (ok (append_events w2 (event ∷ [])))).0 else w2 in
      refused w3 (kyc_step_up threshold currency)

  -- `enforceStepUp`
  unfoldable pub enforce_step_up :
      Ports → Config f → ℕ → Property f → ℤ → Text → Time → World f → Method (World f) (Unit {0})
  unfolding trip_gate
  enforce_step_up ports cfg guest_id prop total_cents currency now w =
      elim (threshold_of currency cfg.thresholds) [
        | none ↦ done w
        | some threshold ↦
            if leb_ℤ threshold (pos 0) || ltb_ℤ total_cents threshold
            then done w
            else elim (ports.is_verified guest_id) [
              | err e ↦ refused w e
              | ok verified ↦
                  if verified
                  then done w
                  else trip_gate ports cfg guest_id prop threshold total_cents currency now w
            ]
      ]

  -- `quoteJurisdictionTax`: a quoter that fails counts as no tax.
  unfoldable pub jurisdiction_tax : Ports → Property f → Time → ℤ → ℤ → ℤ → TaxQuote
  jurisdiction_tax ports prop check_in nights guests base = elim ports.tax_quote [
    | none ↦ record { lines = []; total_cents = pos 0 }
    | some ask ↦ elim (ask prop.id check_in nights guests base) [
      | err e ↦ record { lines = []; total_cents = pos 0 }
      | ok q ↦ q
    ]
  ]
