-- ===== src/Payment/Charge.antt =====
-- payment.go: the aggregate `Payment`. A method takes the clock and the fresh ids that it uses.
pub mod Lifecycle
pub mod Invariant
use airbnb.Common.{
  ℕ, Bool, true, false, not, ◌||◌, List, [], ◌∷◌, ◌++◌, if◌then◌else◌, ℤ, pos, ltb_ℤ, leb_ℤ, eqb_ℤ,
  add64, Text, trim_space, Time, ok, err, validation, Method, done, refused,
}
use airbnb.Shared.{Money}
use airbnb.Payment.Ledger.{AdjustmentKind, refund, damage_claim, Adjustment, has_adjustment}

pub data Status : Type 0 where
  pending authorized captured refunded failed : Status

pub record Payment : Type 0 where
  pub id : ℕ
  pub booking_id : ℕ
  pub guest_id : ℕ
  pub amount : Money
  pub status : Status
  pub gateway_ref : Text
  pub failure_reason : Text
  pub refunded_cents : ℤ
  pub damage_claim_cents : ℤ
  pub adjustments : List Adjustment
  pub created_at : Time
  pub updated_at : Time

abbrev pub is_pending : Status → Bool
is_pending pending = true
is_pending _ = false

abbrev pub is_authorized : Status → Bool
is_authorized authorized = true
is_authorized _ = false

abbrev pub is_captured : Status → Bool
is_captured captured = true
is_captured _ = false

unfoldable pub new : ℕ → ℕ → ℕ → Money → Time → Payment
new id booking_id guest_id amount now = record {
  id = id;
  booking_id = booking_id;
  guest_id = guest_id;
  amount = amount;
  status = pending;
  gateway_ref = [];
  failure_reason = [];
  refunded_cents = pos 0;
  damage_claim_cents = pos 0;
  adjustments = [];
  created_at = now;
  updated_at = now;
}

unfoldable pub authorize : Text → Time → Payment → Method Payment (Unit {0})
authorize gateway_ref now p =
    if not (is_pending p.status)
    then refused p (validation "only a pending payment can be authorized")
    else done (record p { status = authorized; gateway_ref = gateway_ref; updated_at = now })

unfoldable pub reauthorize : Text → Money → Time → Payment → Method Payment (Unit {0})
reauthorize gateway_ref amount now p =
    if not (is_authorized p.status)
    then refused p (validation "only an authorized payment can be re-authorized")
    else done (record p { gateway_ref = gateway_ref; amount = amount; updated_at = now })

unfoldable pub capture : Time → Payment → Method Payment (Unit {0})
capture now p =
    if not (is_authorized p.status)
    then refused p (validation "only an authorized payment can be captured")
    else done (record p { status = captured; updated_at = now })

-- `Refund`, the one-shot refund of a cancellation.
unfoldable pub refund_all : ℤ → Time → Payment → Method Payment (Unit {0})
refund_all amount_cents now p =
    if not (is_authorized p.status || is_captured p.status)
    then refused p (validation "only an authorized or captured payment can be refunded")
    else if ltb_ℤ amount_cents (pos 0) || ltb_ℤ p.amount.amount_cents amount_cents
    then refused p (validation "refund amount is out of range")
    else done (record p { status = refunded; refunded_cents = amount_cents; updated_at = now })

-- The entry that `RefundPartial` and `RecordDamageClaim` append.
abbrev pub entry : AdjustmentKind → ℕ → ℤ → Text → Text → ℕ → Time → ℕ → Adjustment
entry kind id amount_cents reason ref_kind ref_id now payment_id = record {
  id = id;
  payment_id = payment_id;
  kind = kind;
  amount_cents = amount_cents;
  reason = trim_space reason;
  ref_kind = trim_space ref_kind;
  ref_id = ref_id;
  created_at = now;
}

unfoldable pub refund_partial : ℕ → ℤ → Text → Text → ℕ → Time → Payment → Method Payment Adjustment
refund_partial id amount_cents reason ref_kind ref_id now p =
    if not (is_authorized p.status || is_captured p.status)
    then refused p (validation "only an authorized or captured payment can be refunded")
    else if leb_ℤ amount_cents (pos 0)
    then refused p (validation "refund amount must be positive")
    else if ltb_ℤ p.amount.amount_cents (add64 p.refunded_cents amount_cents)
    then refused p (validation "refund exceeds remaining captured amount")
    else let adj = entry refund id amount_cents reason ref_kind ref_id now p.id in
      let total = add64 p.refunded_cents amount_cents in
      (
        record p {
          refunded_cents = total;
          status = if eqb_ℤ total p.amount.amount_cents then refunded else p.status;
          adjustments = p.adjustments ++ adj ∷ [];
          updated_at = now;
        },
        ok adj,
      )

unfoldable pub record_damage_claim :
    ℕ → ℤ → Text → Text → ℕ → Time → Payment → Method Payment Adjustment
record_damage_claim id amount_cents reason ref_kind ref_id now p =
    if leb_ℤ amount_cents (pos 0)
    then refused p (validation "damage amount must be positive")
    else let adj = entry damage_claim id amount_cents reason ref_kind ref_id now p.id in
      (
        record p {
          damage_claim_cents = add64 p.damage_claim_cents amount_cents;
          adjustments = p.adjustments ++ adj ∷ [];
          updated_at = now;
        },
        ok adj,
      )

unfoldable pub has_adjustment_for : AdjustmentKind → Text → ℕ → Payment → Bool
unfolding has_adjustment
has_adjustment_for kind ref_kind ref_id p = has_adjustment kind ref_kind ref_id p.adjustments

unfoldable pub fail : Text → Time → Payment → Payment
fail reason now p = record p { status = failed; failure_reason = reason; updated_at = now }
