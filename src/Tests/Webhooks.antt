-- ===== src/Tests/Webhooks.antt =====
-- The payment service at one pending payment: the gateway reports its authorization twice.
use mathlib.Core.List.{Permᴰ}
use airbnb.Common.{arith, pos, codes, ok, ◌≡◌, refl, true, false, [], ◌∷◌}
use airbnb.Payment.Charge.{Payment, pending, authorized, authorize}
use airbnb.Settlement.Webhook.{
  GatewayEvent, hook_authorized, Desk, find_by_ref, update_payment, find_by_gateway_ref, react,
  reconcile_found, reconcile_gateway_event,
}
use airbnb.Settlement.Redelivery.{bearers, reconcile_again}

abbrev waiting : Payment
waiting = record {
  id = 1;
  booking_id = 2;
  guest_id = 3;
  amount = record { amount_cents = pos 10000; currency = codes "EUR" };
  status = pending;
  gateway_ref = codes "mpesa:chg_1";
  failure_reason = [];
  refunded_cents = pos 0;
  damage_claim_cents = pos 0;
  adjustments = [];
  created_at = 5;
  updated_at = 5;
}

abbrev held : GatewayEvent
held = record {
  provider = codes "mpesa";
  event_id = codes "evt_1";
  reference = codes "chg_1";
  event_type = hook_authorized;
  amount_cents = pos 0;
  failure_reason = [];
}

-- A second payment; its row is visited first by the second delivery.
abbrev other : Payment
other = record waiting { id = 2; booking_id = 8; gateway_ref = codes "mpesa:chg_2" }

abbrev before : Desk
before = record { payments = waiting ∷ other ∷ []; published = [] }

abbrev after : Desk
after = record {
  payments = (record waiting { status = authorized; updated_at = 7 }) ∷ other ∷ [];
  published =
      record { booking_id = 2; payment_id = 1; guest_id = 3; gateway_ref = codes "mpesa:chg_1" }
      ∷ [];
}

first_delivery : reconcile_gateway_event held 7 before ≡ (after, ok true)
unfolding reconcile_gateway_event reconcile_found find_by_gateway_ref find_by_ref react authorize
    update_payment
first_delivery = refl

abbrev swapped : Desk
swapped = record after {
  payments = other ∷ (record waiting { status = authorized; updated_at = 7 }) ∷ [];
}

reconcile_again_example : reconcile_gateway_event held 9 swapped ≡ (swapped, ok false)
unfolding bearers
reconcile_again_example =
    reconcile_again held 7 9 before swapped.payments
      ((λ e. absurd (omega (arith, e)), tt), (tt, tt)) first_delivery (omega arith, omega arith)
      (Permᴰ.swap refl refl)
