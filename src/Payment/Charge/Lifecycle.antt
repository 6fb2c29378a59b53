-- ===== src/Payment/Charge/Lifecycle.antt =====
-- payment.go: refusals, closed payments, idempotency, and where the guards do not hold the line.
use airbnb.Common.{
  ℤ, pos, ◌+ℤ◌, ◌≤ℤ◌, ◌<ℤ◌, Fits, add64_exact, add64_overflow, Text, trim_space, text_eq_refl, Time,
  ok, Atomic, ℕ, ◌≡◌, refl, ◌∙◌, ◌↔◌, ◌⊎◌, true, List, [], ◌∷◌, ◌++◌, arith,
}
use airbnb.Shared.{Money}
use airbnb.Payment.Ledger.{
  refund as refund_kind, same_kind, AdjustmentKind, Adjustment, has_adjustment,
}
use airbnb.Payment.Charge.{
  authorized, captured, refunded, failed, Payment, authorize, reauthorize, capture, refund_all,
  entry, refund_partial, record_damage_claim, has_adjustment_for, fail,
}
use airbnb.Payment.Charge.Invariant.{
  Op, authorizing, reauthorizing, capturing, refunding_all, refunding, claiming, failing, apply,
  run, IsSound,
}

-- A call that returns an error leaves the payment exactly as it was.
pub apply-Atomic : (op : Op) (p : Payment) → Atomic p (apply op p)
unfolding apply authorize reauthorize capture refund_all refund_partial record_damage_claim
apply-Atomic (authorizing ref now) p = ground arith
apply-Atomic (reauthorizing ref m now) p = ground arith
apply-Atomic (capturing now) p = ground arith
apply-Atomic (refunding_all x now) p = ground arith
apply-Atomic (refunding i x r k j now) p = ground arith
apply-Atomic (claiming i x r k j now) p = ground arith
apply-Atomic (failing reason now) p = tt

-- A payment that was refunded in full or has failed.
abbrev pub IsClosed : Payment → Type 0
IsClosed p = (p.status ≡ refunded) ⊎ (p.status ≡ failed)

abbrev pub Settled : Payment → Payment → Type 0
Settled p q = IsClosed q × (q.amount ≡ p.amount) × (q.refunded_cents ≡ p.refunded_cents)

apply-Settled : (op : Op) (p : Payment) → IsClosed p → Settled p (apply op p).0
unfolding apply authorize reauthorize capture refund_all refund_partial record_damage_claim fail
apply-Settled (authorizing ref now) p h = ground arith
apply-Settled (reauthorizing ref m now) p h = ground arith
apply-Settled (capturing now) p h = ground arith
apply-Settled (refunding_all x now) p h = ground arith
apply-Settled (refunding i x r k j now) p h = ground arith
apply-Settled (claiming i x r k j now) p h = ground arith
apply-Settled (failing reason now) p h = ground arith

-- Once a payment is refunded or failed, no sequence of calls reopens it, and neither its amount
-- nor the sum refunded changes again.
pub run-Settled : (ops : List Op) (p : Payment) → IsClosed p → Settled p (run ops p)
unfolding run
run-Settled [] p h = (h, refl, refl)
run-Settled (op ∷ ops) p h =
    let (closed, same, kept) = apply-Settled op p h in
    let (closed', same', kept') = run-Settled ops (apply op p).0 closed in
    (closed', same' ∙ same, kept' ∙ kept)

-- For a payment in range and a sum that does not overflow, `refund_partial` succeeds exactly if
-- the payment is authorized or captured and the amount is positive and within what is left.
pub refund_partial_iff :
    (i : ℕ) (x : ℤ) (r k : Text) (j : ℕ) (now : Time) (p : Payment)
    → Fits (p.refunded_cents +ℤ x)
    → ((a : Adjustment) × ((refund_partial i x r k j now p).1 ≡ ok a)) ↔ (
        ((p.status ≡ authorized) ⊎ (p.status ≡ captured))
        × (pos 1 ≤ℤ x)
        × (p.refunded_cents +ℤ x ≤ℤ p.amount.amount_cents))
unfolding refund_partial
refund_partial_iff i x r k j now p f = (
  λ h. ground (arith, add64_exact p.refunded_cents x f, h.1),
  λ h. (entry refund_kind i x r k j now p.id, ground (arith, add64_exact p.refunded_cents x f)),
)

has_adjustment-append :
    (kind : AdjustmentKind) (k : Text) (j : ℕ) (rest : List Adjustment) (a : Adjustment)
    → same_kind a.kind kind ≡ true
    → a.ref_kind ≡ k
    → a.ref_id ≡ j
    → has_adjustment kind k j (rest ++ a ∷ []) ≡ true
unfolding has_adjustment
has_adjustment-append kind k j [] a s e f = rw (s, e, f) (ground (arith, text_eq_refl k))
has_adjustment-append kind k j (b ∷ rest) a s e f =
    ground (arith, has_adjustment-append kind k j rest a s e f)

-- After a partial refund for a source, the payment reports an adjustment for that source, under
-- the trimmed source kind that was stored: the caller's guard against a second refund works.
pub has_adjustment_for-refund_partial :
    (i : ℕ) (x : ℤ) (r k : Text) (j : ℕ) (now : Time) (p : Payment) {a : Adjustment}
    → (refund_partial i x r k j now p).1 ≡ ok a
    → has_adjustment_for refund_kind (trim_space k) j (refund_partial i x r k j now p).0 ≡ true
unfolding refund_partial has_adjustment_for
has_adjustment_for-refund_partial i x r k j now p h = ground (
  arith,
  has_adjustment-append refund_kind (trim_space k) j p.adjustments
      (entry refund_kind i x r k j now p.id) refl refl refl,
)

refunded-Fits : (p : Payment) → IsSound p → Fits p.refunded_cents
refunded-Fits p s = ground (arith, s.amount_fits, s.refunded_low, s.refunded_high)

-- The guard of `RefundPartial` adds before it compares: for an active payment that has been
-- refunded something, every amount that carries the sum past the largest `int64` is accepted and
-- leaves the refunded total negative.
pub refund_partial_overflow :
    (i : ℕ) (x : ℤ) (r k : Text) (j : ℕ) (now : Time) (p : Payment)
    → (p.status ≡ authorized) ⊎ (p.status ≡ captured)
    → IsSound p
    → Fits x
    → pos 1 ≤ℤ x
    → pos 9223372036854775808 ≤ℤ p.refunded_cents +ℤ x
    → let (p', result) = refund_partial i x r k j now p in
      ((a : Adjustment) × (result ≡ ok a)) × (p'.refunded_cents <ℤ pos 0)
unfolding refund_partial
refund_partial_overflow i x r k j now p st s f one big =
    let low = add64_overflow p.refunded_cents x (refunded-Fits p s) f big in
    (
      (entry refund_kind i x r k j now p.id, ground (arith, low, s.refunded_low, s.refunded_high)),
      ground (arith, low, s.refunded_low, s.refunded_high),
    )

-- `Reauthorize` does not look at earlier partial refunds: on an authorized payment every new
-- amount below the sum already refunded is accepted, and the refunds then exceed the payment.
pub reauthorize_below_refunded :
    (ref : Text) (m : Money) (now : Time) (p : Payment)
    → p.status ≡ authorized
    → m.amount_cents <ℤ p.refunded_cents
    → let (p', result) = reauthorize ref m now p in
      (result ≡ ok tt) × (p'.amount.amount_cents <ℤ p'.refunded_cents)
unfolding reauthorize
reauthorize_below_refunded ref m now p st h = ground arith
