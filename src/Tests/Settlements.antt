-- ===== src/Tests/Settlements.antt =====
-- The payment service at one booking: a refund made twice, a refund beyond what is left, and an
-- award larger than the deposit.
use airbnb.Common.{
  add64, wrap64, ◌+ℤ◌, ℤ, pos, ◌≤ℤ◌, ◌<ℤ◌, Fits, codes, Error, ok, err, ◌≡◌, refl, false, none,
  some, [], ◌∷◌, ◌++◌, arith,
}
use airbnb.Shared.{Money}
use airbnb.Payment.Ledger.{booked, has_adjustment, refund, damage_claim}
use airbnb.Payment.Charge.{Payment, captured, refund_partial, has_adjustment_for}
use airbnb.Payment.Deposit.{DepositHold, is_held}
use airbnb.Payment.Deposit
use airbnb.Payment.Deposit.Invariant.{IsSound}
use airbnb.Settlement.Service.{
  Ports, GatewayCall, Books, dispute_kind, refund_found, refund_for_booking, apply_damage,
}
use airbnb.Settlement.Refund.{refund_for_booking_once, refund_for_booking_unbooked}
use airbnb.Settlement.Damage.{given, asked, apply_damage_splits}

abbrev eur : ℤ → Money
eur cents = record { amount_cents = cents; currency = codes "EUR" }

abbrev paid : Payment
paid = record {
  id = 1;
  booking_id = 2;
  guest_id = 3;
  amount = eur (pos 10000);
  status = captured;
  gateway_ref = codes "ref";
  failure_reason = [];
  refunded_cents = pos 0;
  damage_claim_cents = pos 0;
  adjustments = [];
  created_at = 5;
  updated_at = 6;
}

abbrev hold : DepositHold
hold = record {
  id = 40;
  booking_id = 2;
  guest_id = 3;
  amount = eur (pos 5000);
  captured_cents = pos 0;
  status = Deposit.DepositStatus.authorized;
  gateway_ref = codes "hold";
  failure_reason = [];
  adjustments = [];
  created_at = 5;
  updated_at = 6;
  released_at = none;
}

-- A gateway and repositories that accept everything.
abbrev willing : Ports
willing = record {
  gateway_refund = λ ref cents. none;
  update_payment = λ p. none;
  update_deposit = λ d. none;
}

abbrev books : Books
books = record { payment = some paid; deposit = some hold; calls = [] }

refund_granted : (refund_for_booking willing 50 (pos 4000) (codes "noise") 51 7 books).1 ≡ ok tt
unfolding refund_for_booking refund_found has_adjustment_for has_adjustment refund_partial add64
    wrap64 ◌+ℤ◌
refund_granted = refl

refund_for_booking_once_example :
    let b' = (refund_for_booking willing 50 (pos 4000) (codes "noise") 51 7 books).0 in
    refund_for_booking willing 52 (pos 9000) (codes "again") 51 8 b' ≡ (b', ok tt)
refund_for_booking_once_example =
    refund_for_booking_once willing willing 50 52 (pos 4000) (pos 9000) (codes "noise")
      (codes "again") 51 7 8 books refund_granted

not_yet : has_adjustment_for refund dispute_kind 51 paid ≡ false
unfolding has_adjustment_for has_adjustment
not_yet = refl

sum-Fits : Fits (paid.refunded_cents +ℤ pos 10001)
unfolding ◌+ℤ◌
sum-Fits = ground arith

sum_over : paid.amount.amount_cents <ℤ paid.refunded_cents +ℤ pos 10001
unfolding ◌+ℤ◌
sum_over = ground arith

refund_for_booking_unbooked_example :
    let (b', result) = refund_for_booking willing 50 (pos 10001) (codes "noise") 51 7 books in
    (b'.payment ≡ some paid)
    × (b'.calls ≡ books.calls ++ GatewayCall.refund_call (codes "ref") (pos 10001) ∷ [])
    × (e : Error) × (result ≡ err e)
refund_for_booking_unbooked_example =
    refund_for_booking_unbooked willing 50 (pos 10001) (codes "noise") 51 7 books paid refl not_yet
      refl sum-Fits sum_over

hold-IsSound : IsSound hold
unfolding booked
hold-IsSound = ground arith

not_captured : Deposit.has_adjustment_for dispute_kind 51 hold ≡ false
unfolding Deposit.has_adjustment_for has_adjustment
not_captured = refl

not_claimed : has_adjustment_for damage_claim dispute_kind 51 paid ≡ false
unfolding has_adjustment_for has_adjustment
not_claimed = refl

room : paid.damage_claim_cents +ℤ pos 7000 ≤ℤ pos 9223372036854775807
unfolding ◌+ℤ◌
room = ground arith

apply_damage_splits_example :
    let (b', result) = apply_damage willing 60 61 (pos 7000) (codes "sofa") 51 7 books in
    (took rest : ℤ) × (result ≡ ok (took, rest))
    × (took ≡ given hold (pos 7000))
    × (b'.calls ≡ asked hold took books.calls)
    × (took +ℤ rest ≡ pos 7000)
    × (pos 0 ≤ℤ took)
    × (pos 0 ≤ℤ rest)
    × (dep' : DepositHold) × (b'.deposit ≡ some dep')
    × (dep'.captured_cents ≡ hold.captured_cents +ℤ took)
    × (p' : Payment) × (b'.payment ≡ some p')
    × (p'.damage_claim_cents ≡ paid.damage_claim_cents +ℤ rest)
apply_damage_splits_example =
    apply_damage_splits willing 60 61 (pos 7000) (codes "sofa") 51 7 books hold paid refl refl refl
      hold-IsSound not_captured not_claimed (omega arith) (omega arith) (omega arith) room
      (λ p. refl, λ d. refl)
