-- ===== src/Settlement/Service.antt =====
-- service.go: the operations of the payment service on one booking's rows. The gateway and the
-- database are not part of the model: a record of functions answers for them, and what was asked
-- of the gateway is kept in order. A lookup of a row answers with the row or with not-found: an
-- error of the database at a lookup is not modelled.
use airbnb.Common.{
  if◌then◌else◌, ℤ, pos, ltb_ℤ, leb_ℤ, sub64, Text, codes, Time, Error, validation, not_found, ok,
  err, Method, done, refused, ℕ, not, Option, none, some, List, [], ◌∷◌, ◌++◌,
}
use airbnb.Payment.Ledger.{refund, damage_claim}
use airbnb.Payment.Charge.{Payment, refund_partial, record_damage_claim, has_adjustment_for}
use airbnb.Payment.Deposit.{DepositHold, Captured, is_held, remaining, capture_partial}
use airbnb.Payment.Deposit

-- `payment.Gateway` and the two repositories, as far as an answer can be an error.
pub record Ports : Type 0 where
  pub gateway_refund : Text → ℤ → Option Error
  pub update_payment : Payment → Option Error
  pub update_deposit : DepositHold → Option Error

pub data GatewayCall : Type 0 where
  refund_call : Text → ℤ → GatewayCall
  capture_call : Text → GatewayCall

-- The rows of one booking, and the calls made so far.
pub record Books : Type 0 where
  pub payment : Option Payment
  pub deposit : Option DepositHold
  pub calls : List GatewayCall

-- `"dispute"`
abbrev pub dispute_kind : Text
dispute_kind = codes "dispute"

abbrev pub saved : {A : Type 0} → Books → Books → Option Error → A → Method Books A
saved before after none a = (after, ok a)
saved before after (some e) a = (before, err e)

-- `RefundForBooking`, once the payment is found.
unfoldable pub refund_found :
    Ports → ℕ → ℤ → Text → ℕ → Time → Books → Payment → Method Books (Unit {0})
refund_found ports id amount reason dispute_id now b p =
    if has_adjustment_for refund dispute_kind dispute_id p
    then done b
    else let asked = record b { calls = b.calls ++ refund_call p.gateway_ref amount ∷ [] } in
      elim (ports.gateway_refund p.gateway_ref amount) [
        | some e ↦ refused asked e
        | none ↦
            let (p', result) = refund_partial id amount reason dispute_kind dispute_id now p in
            elim result [
              | err e ↦ refused asked e
              | ok _ ↦ saved asked (record asked { payment = some p' }) (ports.update_payment p') tt
            ]
      ]

unfoldable pub refund_for_booking :
    Ports → ℕ → ℤ → Text → ℕ → Time → Books → Method Books (Unit {0})
refund_for_booking ports id amount reason dispute_id now b = elim b.payment [
  | none ↦ refused b not_found
  | some p ↦ refund_found ports id amount reason dispute_id now b p
]

-- The second stage of `applyDamage`: what the deposit did not cover becomes a claim.
unfoldable pub claim_overflow : Ports → ℕ → ℤ → ℤ → Text → ℕ → Time → Books → Method Books (ℤ × ℤ)
claim_overflow ports id took left reason dispute_id now b =
    if leb_ℤ left (pos 0) then (b, ok (took, left)) else elim b.payment [
      | none ↦ refused b not_found
      | some p ↦
          if has_adjustment_for damage_claim dispute_kind dispute_id p
          then (b, ok (took, left))
          else let (p', result) =
              record_damage_claim id left reason dispute_kind dispute_id now p in
            elim result [
              | err e ↦ refused b e
              | ok _ ↦
                  saved b (record b { payment = some p' }) (ports.update_payment p') (took, left)
            ]
    ]

-- The books after a capture that moved money: the gateway was asked to capture.
abbrev pub after_capture : ℤ → DepositHold → Books → Books
after_capture took dep b =
    if ltb_ℤ (pos 0) took
    then record b { calls = b.calls ++ capture_call dep.gateway_ref ∷ [] }
    else b

-- The first stage of `applyDamage` on a hold that is active, up to the row's update.
unfoldable pub capture_hold : Ports → ℕ → ℤ → Text → ℕ → Time → Books → DepositHold → Method Books ℤ
capture_hold ports id amount reason dispute_id now b dep =
    if leb_ℤ (remaining dep) (pos 0)
    then saved b (record b { deposit = some dep }) (ports.update_deposit dep) (pos 0)
    else let (dep', result) = capture_partial id amount reason dispute_kind dispute_id now dep in
      elim result [
        | err e ↦ refused b e
        | ok c ↦
            let b' = after_capture c.taken dep b in
            saved b' (record b' { deposit = some dep' }) (ports.update_deposit dep') c.taken
      ]

-- Both stages, from what the first one took.
unfoldable pub then_claim : Ports → ℕ → ℤ → Text → ℕ → Time → Method Books ℤ → Method Books (ℤ × ℤ)
then_claim ports id amount reason dispute_id now (b, err e) = refused b e
then_claim ports id amount reason dispute_id now (b, ok took) =
    claim_overflow ports id took (sub64 amount took) reason dispute_id now b

-- `applyDamage`; ids are for the entry on the deposit and the one on the payment.
unfoldable pub apply_damage : Ports → ℕ → ℕ → ℤ → Text → ℕ → Time → Books → Method Books (ℤ × ℤ)
apply_damage ports id id' amount reason dispute_id now b =
    if leb_ℤ amount (pos 0)
    then refused b (validation "damage amount must be positive")
    else elim b.deposit [
      | none ↦ claim_overflow ports id' (pos 0) amount reason dispute_id now b
      | some dep ↦
          if Deposit.has_adjustment_for dispute_kind dispute_id dep
          then (b, ok (pos 0, pos 0))
          else if not (is_held dep.status)
          then claim_overflow ports id' (pos 0) amount reason dispute_id now b
          else then_claim ports id' amount reason dispute_id now
              (capture_hold ports id amount reason dispute_id now b dep)
    ]
