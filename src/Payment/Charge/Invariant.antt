-- ===== src/Payment/Charge/Invariant.antt =====
-- payment.go: any sequence of calls on a payment, and the money that it keeps account of.
use airbnb.Common.{
  All, ℤ, pos, ◌+ℤ◌, ◌≤ℤ◌, +ℤ_parts, +ℤ_zero, Fits, add64_exact, Text, Time, Result, ok, err,
  Method, done, ℕ, ◌≡◌, List, [], ◌∷◌, arith,
}
use airbnb.Shared.{Money}
use airbnb.Payment.Ledger.{refund as refund_kind, damage_claim, booked, booked-append}
use airbnb.Payment.Charge.{
  Payment, authorize, reauthorize, capture, refund_all, entry, refund_partial, record_damage_claim,
  fail,
}

-- A call with the arguments that its caller supplies.
pub data Op : Type 0 where
  authorizing : Text → Time → Op
  reauthorizing : Text → Money → Time → Op
  capturing : Time → Op
  refunding_all : ℤ → Time → Op
  refunding : ℕ → ℤ → Text → Text → ℕ → Time → Op
  claiming : ℕ → ℤ → Text → Text → ℕ → Time → Op
  failing : Text → Time → Op

abbrev pub outcome : {A : Type 0} → Result A → Result (Unit {0})
outcome (ok _) = ok tt
outcome (err e) = err e

unfoldable pub apply : Op → Payment → Method Payment (Unit {0})
apply (authorizing ref now) p = authorize ref now p
apply (reauthorizing ref m now) p = reauthorize ref m now p
apply (capturing now) p = capture now p
apply (refunding_all x now) p = refund_all x now p
apply (refunding i x r k j now) p =
    let (p', result) = refund_partial i x r k j now p in (p', outcome result)
apply (claiming i x r k j now) p =
    let (p', result) = record_damage_claim i x r k j now p in (p', outcome result)
apply (failing reason now) p = done (fail reason now p)

unfoldable pub run : List Op → Payment → Payment
run [] p = p
run (op ∷ ops) p = run ops (apply op p).0

pub record IsSound (p : Payment) : Type 0 where
  pub amount_fits : Fits p.amount.amount_cents
  pub refunded_low : pos 0 ≤ℤ p.refunded_cents
  pub refunded_high : p.refunded_cents ≤ℤ p.amount.amount_cents

-- What a caller must respect: no `int64` overflow, and no new hold below what was refunded.
abbrev pub Fair : Op → Payment → Type 0
Fair (reauthorizing _ m _) p = Fits m.amount_cents × (p.refunded_cents ≤ℤ m.amount_cents)
Fair (refunding _ x _ _ _ _) p = Fits (p.refunded_cents +ℤ x)
Fair (claiming _ x _ _ _ _) p = Fits (p.damage_claim_cents +ℤ x)
Fair _ p = Unit

abbrev pub FairRun : List Op → Payment → Type 0
FairRun [] p = Unit
FairRun (op ∷ ops) p = Fair op p × FairRun ops (apply op p).0

refund_partial-IsSound :
    (i : ℕ) (x : ℤ) (r k : Text) (j : ℕ) (now : Time) (p : Payment)
    → Fits (p.refunded_cents +ℤ x)
    → IsSound p
    → IsSound (refund_partial i x r k j now p).0
unfolding refund_partial
refund_partial-IsSound i x r k j now p f s =
    ground (arith, add64_exact p.refunded_cents x f, +ℤ_parts p.refunded_cents x)

pub apply-IsSound : (op : Op) (p : Payment) → Fair op p → IsSound p → IsSound (apply op p).0
unfolding apply authorize reauthorize capture refund_all record_damage_claim fail
apply-IsSound (authorizing ref now) p f s = ground arith
apply-IsSound (reauthorizing ref m now) p f s = ground arith
apply-IsSound (capturing now) p f s = ground arith
apply-IsSound (refunding_all x now) p f s = ground arith
apply-IsSound (refunding i x r k j now) p f s = refund_partial-IsSound i x r k j now p f s
apply-IsSound (claiming i x r k j now) p f s = ground arith
apply-IsSound (failing reason now) p f s = ground arith

-- From a sound payment, after any sequence of calls that overflow no `int64` and set no new hold
-- below what was refunded, the refunds lie between nothing and the payment's amount.
pub run-IsSound : (ops : List Op) (p : Payment) → FairRun ops p → IsSound p → IsSound (run ops p)
unfolding run
run-IsSound [] p f s = s
run-IsSound (op ∷ ops) p f s = run-IsSound ops (apply op p).0 f.1 (apply-IsSound op p f.0 s)

-- The running totals are the sums of the ledger's entries.
pub record IsLedgered (p : Payment) : Type 0 where
  pub refunds : booked refund_kind p.adjustments ≡ p.refunded_cents
  pub claims : booked damage_claim p.adjustments ≡ p.damage_claim_cents

-- Every call but the one-shot refund, which writes no entry.
abbrev pub Entered : Op → Type 0
Entered (refunding_all _ _) = ⊥
Entered _ = Unit

refund_partial-IsLedgered :
    (i : ℕ) (x : ℤ) (r k : Text) (j : ℕ) (now : Time) (p : Payment)
    → Fits (p.refunded_cents +ℤ x)
    → IsLedgered p
    → IsLedgered (refund_partial i x r k j now p).0
unfolding refund_partial
refund_partial-IsLedgered i x r k j now p f s =
    let adj = entry refund_kind i x r k j now p.id in
    ground (
      arith,
      add64_exact p.refunded_cents x f,
      booked-append refund_kind p.adjustments adj,
      booked-append damage_claim p.adjustments adj,
      +ℤ_zero p.damage_claim_cents,
    )

claim-IsLedgered :
    (i : ℕ) (x : ℤ) (r k : Text) (j : ℕ) (now : Time) (p : Payment)
    → Fits (p.damage_claim_cents +ℤ x)
    → IsLedgered p
    → IsLedgered (record_damage_claim i x r k j now p).0
unfolding record_damage_claim
claim-IsLedgered i x r k j now p f s =
    let adj = entry damage_claim i x r k j now p.id in
    ground (
      arith,
      add64_exact p.damage_claim_cents x f,
      booked-append refund_kind p.adjustments adj,
      booked-append damage_claim p.adjustments adj,
      +ℤ_zero p.refunded_cents,
    )

pub apply-IsLedgered :
    (op : Op) (p : Payment) → Entered op → Fair op p → IsLedgered p → IsLedgered (apply op p).0
unfolding apply authorize reauthorize capture fail
apply-IsLedgered (authorizing ref now) p e f s = ground arith
apply-IsLedgered (reauthorizing ref m now) p e f s = ground arith
apply-IsLedgered (capturing now) p e f s = ground arith
apply-IsLedgered (refunding_all x now) p e f s = absurd e
apply-IsLedgered (refunding i x r k j now) p e f s = refund_partial-IsLedgered i x r k j now p f s
apply-IsLedgered (claiming i x r k j now) p e f s = claim-IsLedgered i x r k j now p f s
apply-IsLedgered (failing reason now) p e f s = ground arith

-- Where the totals are the sums of the ledger's entries, they stay so through any calls other than
-- the one-shot refund that overflow no `int64` and set no new hold below what was refunded.
pub run-IsLedgered :
    (ops : List Op) (p : Payment)
    → All Entered ops
    → FairRun ops p
    → IsLedgered p
    → IsLedgered (run ops p)
unfolding run
run-IsLedgered [] p e f s = s
run-IsLedgered (op ∷ ops) p e f s =
    run-IsLedgered ops (apply op p).0 e.1 f.1 (apply-IsLedgered op p e.0 f.0 s)
