-- ===== src/Tests/Payouts.antt =====
-- The host ledger at a host with one earning and one refund.
use airbnb.Common.{
  add64, sub64, wrap64, ◌+ℤ◌, ◌-ℤ◌, ℤ, pos, ◌≤ℤ◌, codes, validation_of, ok, err, ℕ, ◌≡◌, refl, [],
  ◌∷◌, arith,
}
use airbnb.Shared.{new_money}
use airbnb.Payout.Entries.{
  post, or_empty, net_cents, disbursed_of, balance_of, new_disbursement, Kind, earning, refund,
  Entry, in_flight, paid, Disbursement, Ledger,
}
use airbnb.Payout.Service.{available, reserve_disbursement}
use airbnb.Payout.Sums.{earned, refunded, committed}
use airbnb.Payout.Safety.{IsCovered, left, reserve_takes_all}

abbrev line : ℕ → Kind → ℤ → Entry
line i kind cents = record {
  id = i;
  host_id = 1;
  booking_id = 2;
  property_id = 3;
  kind = kind;
  amount = record { amount_cents = cents; currency = codes "EUR" };
  created_at = 5;
}

abbrev before : Ledger
before = record {
  entries = line 11 refund (pos 1000) ∷ line 10 earning (pos 9000) ∷ [];
  disbursements = [];
}

abbrev row : Disbursement
row = record {
  id = 20;
  host_id = 1;
  currency = codes "EUR";
  amount_cents = pos 8000;
  status = in_flight;
  gateway_ref = [];
  failure = [];
  created_at = 6;
  updated_at = 6;
}

before-IsCovered : IsCovered 1 (codes "EUR") before
unfolding earned refunded committed ◌+ℤ◌
before-IsCovered = ground arith

row_reserved : (reserve_disbursement 20 1 (codes "EUR") 6 before).1 ≡ ok row
unfolding reserve_disbursement available balance_of disbursed_of post or_empty net_cents new_money
    new_disbursement add64 sub64 wrap64 ◌+ℤ◌ ◌-ℤ◌
row_reserved = refl

reserve_takes_all_example :
    let l' = (reserve_disbursement 20 1 (codes "EUR") 6 before).0 in
    (l' ≡ record before { disbursements = row ∷ [] })
    × (row.amount_cents ≡ left 1 (codes "EUR") before)
    × (pos 1 ≤ℤ row.amount_cents)
    × (row.status ≡ in_flight)
    × (left 1 (codes "EUR") l' ≡ pos 0)
    × (reserve_disbursement 21 1 (codes "EUR") 7 l'
        ≡ (l', err (validation_of "no funds available to pay out in " (codes "EUR"))))
reserve_takes_all_example =
    reserve_takes_all 1 (codes "EUR") 20 21 6 7 before before-IsCovered row_reserved

abbrev paid_row : Disbursement
paid_row = record row { status = paid; gateway_ref = codes "tr"; updated_at = 8 }

abbrev after : Ledger
after = record before { disbursements = paid_row ∷ [] }
