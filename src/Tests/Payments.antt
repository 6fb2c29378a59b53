-- ===== src/Tests/Payments.antt =====
-- domain/payment at concrete payments and deposits.
use airbnb.Common.{
  wrap64, add64, ◌+ℤ◌, ℤ, pos, ◌≤ℤ◌, ◌<ℤ◌, Fits, codes, ok, ◌≡◌, refl, inl, none, List, [], ◌∷◌,
  arith,
}
use airbnb.Shared.{Money}
use airbnb.Payment.Ledger.{Adjustment, booked, refund as refund_kind}
use airbnb.Payment.Charge.{
  Payment, entry, new, authorized, refunded, authorize, refund_partial, capture,
  record_damage_claim, reauthorize,
}
use airbnb.Payment.Charge.Invariant.{
  Op, authorizing, capturing, refunding, claiming, apply, run, IsSound, FairRun, run-IsSound,
  IsLedgered, run-IsLedgered,
}
use airbnb.Payment.Charge.Lifecycle.{
  Settled, run-Settled, refund_partial_overflow, reauthorize_below_refunded,
}
use airbnb.Payment.Deposit.{DepositHold, Captured, taken_of, new_deposit_hold, capture_partial}
use airbnb.Payment.Deposit
use airbnb.Payment.Deposit.Invariant

abbrev eur : ℤ → Money
eur cents = record { amount_cents = cents; currency = codes "EUR" }

abbrev fresh : Payment
fresh = new 1 2 3 (eur (pos 10000)) 5

abbrev calls : List Op
calls =
    authorizing (codes "ref") 6
    ∷ refunding 7 (pos 2500) (codes "broken tap") (codes "dispute") 8 9
    ∷ capturing 10
    ∷ claiming 11 (pos 300) (codes "stain") (codes "dispute") 12 13
    ∷ []

calls_fair : FairRun calls fresh
unfolding apply new authorize refund_partial capture record_damage_claim ◌+ℤ◌ add64 wrap64
calls_fair = ground arith

fresh-IsSound : IsSound fresh
unfolding new
fresh-IsSound = ground arith

run-IsSound_example : IsSound (run calls fresh)
run-IsSound_example = run-IsSound calls fresh calls_fair fresh-IsSound

fresh-IsLedgered : IsLedgered fresh
unfolding new booked
fresh-IsLedgered = record { refunds = refl; claims = refl }

run-IsLedgered_example : IsLedgered (run calls fresh)
run-IsLedgered_example =
    run-IsLedgered calls fresh (tt, (tt, (tt, (tt, tt)))) calls_fair fresh-IsLedgered

-- An authorized payment, with 2500 of 10000 cents refunded before.
abbrev held : Payment
held = record fresh {
  status = authorized;
  refunded_cents = pos 2500;
  adjustments =
      record {
        id = 7;
        payment_id = 1;
        kind = refund_kind;
        amount_cents = pos 2500;
        reason = codes "broken tap";
        ref_kind = codes "dispute";
        ref_id = 8;
        created_at = 9;
      }
      ∷ [];
}

held-IsSound : IsSound held
unfolding new
held-IsSound = ground arith

held-IsLedgered : IsLedgered held
unfolding new booked ◌+ℤ◌
held-IsLedgered = record { refunds = refl; claims = refl }

abbrev closed : Payment
closed = record held { status = refunded }

run-Settled_example : Settled closed (run calls closed)
run-Settled_example = run-Settled calls closed (inl refl)

held-Fits : Fits (held.refunded_cents +ℤ pos 7501)
unfolding new ◌+ℤ◌
held-Fits = ground arith

refund_granted :
    (refund_partial 20 (pos 100) (codes "late") (codes " dispute ") 21 22 held).1
    ≡ ok (entry refund_kind 20 (pos 100) (codes "late") (codes " dispute ") 21 22 1)
unfolding new refund_partial ◌+ℤ◌ add64 wrap64
refund_granted = refl

past_max : pos 9223372036854775808 ≤ℤ held.refunded_cents +ℤ pos 9223372036854775807
unfolding new ◌+ℤ◌
past_max = ground arith

within_amount : pos 10000 ≤ℤ held.amount.amount_cents
unfolding new
within_amount = ground arith

refund_partial_overflow_example :
    let (p', result) =
      refund_partial 20 (pos 9223372036854775807) (codes "late") (codes "dispute") 21 22 held in
    ((a : Adjustment) × (result ≡ ok a)) × (p'.refunded_cents <ℤ pos 0)
refund_partial_overflow_example =
    refund_partial_overflow 20 (pos 9223372036854775807) (codes "late") (codes "dispute") 21 22 held
      (inl refl) held-IsSound (omega arith) (omega arith) past_max

reauthorize_below_refunded_example :
    let (p', result) = reauthorize (codes "new") (eur (pos 2000)) 30 held in
    (result ≡ ok tt) × (p'.amount.amount_cents <ℤ p'.refunded_cents)
reauthorize_below_refunded_example =
    reauthorize_below_refunded (codes "new") (eur (pos 2000)) 30 held refl (omega arith)

-- A hold of 5000 cents.
abbrev hold : DepositHold
hold = record {
  id = 40;
  booking_id = 2;
  guest_id = 3;
  amount = eur (pos 5000);
  captured_cents = pos 0;
  status = Deposit.DepositStatus.authorized;
  gateway_ref = codes "hold";
  failure_reason = [];
  adjustments = [];
  created_at = 5;
  updated_at = 6;
  released_at = none;
}

hold-IsSound : Deposit.Invariant.IsSound hold
unfolding booked
hold-IsSound = ground arith

abbrev hold_calls : List Deposit.Invariant.Op
hold_calls =
    Deposit.Invariant.Op.capturing 41 (pos 6000) (codes "sofa") (codes "dispute") 42 43
    ∷ Deposit.Invariant.Op.releasing 44
    ∷ []

hold_run-IsSound_example : Deposit.Invariant.IsSound (Deposit.Invariant.run hold_calls hold)
hold_run-IsSound_example = Deposit.Invariant.hold_run-IsSound hold_calls hold hold-IsSound
