-- ===== src/Settlement/Refund.antt =====
-- service.go: refunds for a dispute are made once, and what happens when one is refused.
use airbnb.Common.{
  ℤ, ◌+ℤ◌, ◌<ℤ◌, Fits, Text, trim_space, Time, Error, ok, err, ℕ, ◌≡◌, false, none, some, [], ◌∷◌,
  ◌++◌, Bool-cases, Option-cases, pos, leb_ℤ, add64_exact, validation, Result-cases, refl, sym, ap,
  ◌∙◌, ◌≢◌, inl, inr, true, ◌||◌, arith,
}
use airbnb.Payment.Ledger.{refund, Adjustment}
use airbnb.Payment.Charge.{Payment, has_adjustment_for, refund_partial, is_authorized, is_captured}
use airbnb.Payment.Charge.Lifecycle.{has_adjustment_for-refund_partial}
use airbnb.Settlement.Service.{
  Ports, refund_call, Books, dispute_kind, refund_found, refund_for_booking,
}

dispute_kind_trimmed : trim_space dispute_kind ≡ dispute_kind
unfolding trim_space
dispute_kind_trimmed = refl

module _ (ports : Ports) (id : ℕ) (amount : ℤ) (reason : Text) (dispute_id : ℕ) (now : Time) where
  abbrev refunded_row : Payment → Payment
  refunded_row p = (refund_partial id amount reason dispute_kind dispute_id now p).0

  refunded_row_reports :
      (p : Payment) {a : Adjustment}
      → (refund_partial id amount reason dispute_kind dispute_id now p).1 ≡ ok a
      → has_adjustment_for refund dispute_kind dispute_id (refunded_row p) ≡ true
  refunded_row_reports p h =
      ap (λ (k : Text). has_adjustment_for refund k dispute_id (refunded_row p))
        (sym dispute_kind_trimmed)
      ∙ has_adjustment_for-refund_partial id amount reason dispute_kind dispute_id now p h

  -- A successful refund leaves a payment that reports the dispute.
  refund_found_reports :
      (b : Books) (p : Payment)
      → b.payment ≡ some p
      → (refund_found ports id amount reason dispute_id now b p).1 ≡ ok tt
      → let b' = (refund_found ports id amount reason dispute_id now b p).0 in
        (p' : Payment) × (b'.payment ≡ some p')
        × (has_adjustment_for refund dispute_kind dispute_id p' ≡ true)
  unfolding refund_found
  refund_found_reports b p row h =
      elim (Bool-cases (has_adjustment_for refund dispute_kind dispute_id p)) [
        | inl known ↦ (p, ground arith, known)
        | inr fresh ↦
            elim (Result-cases (refund_partial id amount reason dispute_kind dispute_id now p).1) [
              | inl (a, granted) ↦
                  (refunded_row p, ground (arith, granted), refunded_row_reports p granted)
              | inr (e, stopped) ↦ absurd (ground (arith, stopped))
            ]
      ]

module _ (ports : Ports) (id : ℕ) (amount : ℤ) (reason : Text) (dispute_id : ℕ) (now : Time) where
  one_row :
      (b : Books) (p : Payment)
      → b.payment ≡ some p
      → refund_for_booking ports id amount reason dispute_id now b
        ≡ refund_found ports id amount reason dispute_id now b p
  unfolding refund_for_booking
  one_row b p row = ground arith

  no_row :
      (b : Books)
      → b.payment ≡ none
      → (refund_for_booking ports id amount reason dispute_id now b).1 ≢ ok tt
  unfolding refund_for_booking
  no_row b row h = ground arith

refund_partial_over :
    (id : ℕ) (amount : ℤ) (reason : Text) (dispute_id : ℕ) (now : Time) (p : Payment)
    → Fits (p.refunded_cents +ℤ amount)
    → p.amount.amount_cents <ℤ p.refunded_cents +ℤ amount
    → (e : Error) × (refund_partial id amount reason dispute_kind dispute_id now p ≡ (p, err e))
unfolding refund_partial
refund_partial_over id amount reason dispute_id now p fits over =
    let exact = add64_exact p.refunded_cents amount fits in
    elim (Bool-cases (is_authorized p.status || is_captured p.status)) [
      | inr inactive ↦ (
        validation "only an authorized or captured payment can be refunded",
        ground (arith, inactive),
      )
      | inl active ↦ elim (Bool-cases (leb_ℤ amount (pos 0))) [
        | inl small ↦ (validation "refund amount must be positive", ground (arith, active, small))
        | inr some_cents ↦ (
          validation "refund exceeds remaining captured amount",
          ground (arith, active, some_cents, exact),
        )
      ]
    ]

-- A payment that reports the dispute is left alone.
refund_known :
    (ports : Ports) (id : ℕ) (amount : ℤ) (reason : Text) (dispute_id : ℕ) (now : Time) (b : Books)
    (p : Payment)
    → b.payment ≡ some p
    → has_adjustment_for refund dispute_kind dispute_id p ≡ true
    → refund_for_booking ports id amount reason dispute_id now b ≡ (b, ok tt)
unfolding refund_for_booking refund_found
refund_known ports id amount reason dispute_id now b p row known = ground arith

-- After a refund for a dispute has succeeded, any further request for that dispute succeeds
-- without changing the books or asking the gateway, whatever its amount.
pub refund_for_booking_once :
    (ports ports' : Ports) (id id' : ℕ) (amount amount' : ℤ) (reason reason' : Text)
    (dispute_id : ℕ) (now now' : Time) (b : Books)
    → (refund_for_booking ports id amount reason dispute_id now b).1 ≡ ok tt
    → let b' = (refund_for_booking ports id amount reason dispute_id now b).0 in
      refund_for_booking ports' id' amount' reason' dispute_id now' b' ≡ (b', ok tt)
refund_for_booking_once ports ports' id id' amount amount' reason reason' dispute_id now now' b h =
    elim (Option-cases b.payment) [
      | inl missing ↦ absurd (no_row ports id amount reason dispute_id now b missing h)
      | inr (p, row) ↦
          let opened = one_row ports id amount reason dispute_id now b p row in
          let (p', row', known) =
            refund_found_reports ports id amount reason dispute_id now b p row (rw opened at h) in
          rw opened (
            refund_known ports' id' amount' reason' dispute_id now'
              (refund_found ports id amount reason dispute_id now b p).0 p' row' known)
    ]

-- The gateway is asked before the payment is checked: a refund beyond what is left of an active
-- payment that the gateway grants is returned to the guest, and yet the call fails, no entry is
-- written, and the payment is as before; every retry pays again.
pub refund_for_booking_unbooked :
    (ports : Ports) (id : ℕ) (amount : ℤ) (reason : Text) (dispute_id : ℕ) (now : Time) (b : Books)
    (p : Payment)
    → b.payment ≡ some p
    → has_adjustment_for refund dispute_kind dispute_id p ≡ false
    → ports.gateway_refund p.gateway_ref amount ≡ none
    → Fits (p.refunded_cents +ℤ amount)
    → p.amount.amount_cents <ℤ p.refunded_cents +ℤ amount
    → let (b', result) = refund_for_booking ports id amount reason dispute_id now b in
      (b'.payment ≡ some p)
      × (b'.calls ≡ b.calls ++ refund_call p.gateway_ref amount ∷ [])
      × (e : Error) × (result ≡ err e)
unfolding refund_for_booking refund_found
refund_for_booking_unbooked ports id amount reason dispute_id now b p found fresh granted fits
      over =
    let stopped = refund_partial_over id amount reason dispute_id now p fits over in
    (ground (arith, stopped), ground (arith, stopped), stopped.0, ground (arith, stopped))
