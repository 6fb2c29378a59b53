-- ===== src/Tests/Splits.antt =====
-- domain/splitpayment at a plan of two payers.
use airbnb.Common.{
  add64, wrap64, ◌+ℤ◌, trim_space, to_upper, to_lower, trim_left, upper_byte, lower_byte, is_space,
  ℤ, pos, Fits, Text, codes, ok, ℕ, suc, ◌+◌, ◌≡◌, refl, none, List, [], ◌∷◌, arith,
}
use airbnb.SplitPayment.{
  fold_email, on_share, check_payer, pay, pending, share_pending, Share, SplitPayment,
  mark_share_paid,
}
use airbnb.SplitPayment.Create.{seen, seed_shares, ShareInput, new_split}
use airbnb.SplitPayment.Plan.{asked, total_of, IsPlan, new_split-IsPlan}
use airbnb.SplitPayment.Laws.{unpaid, Paid, mark_share_paid_progress}
use airbnb.SplitPayment.Runs.{Op, run, Keeps, run-Keeps}

abbrev inputs : List ShareInput
inputs =
    record { email = codes "Ana@x.pt"; asked_cents = pos 6000 }
    ∷ record { email = codes " rui@x.pt"; asked_cents = pos 4000 }
    ∷ []

abbrev ids : ℕ → ℕ
ids i = i + 10

abbrev share : ℕ → Text → ℤ → Share
share i email cents = record {
  id = i;
  split_payment_id = 1;
  payer_email = email;
  payer_user_id = none;
  amount_cents = cents;
  status = share_pending;
  gateway_ref = none;
  failure_reason = none;
  paid_at = none;
  created_at = 5;
  updated_at = 5;
}

abbrev plan : SplitPayment
plan = record {
  id = 1;
  booking_id = 2;
  organizer_id = 3;
  currency = codes "EUR";
  total_cents = pos 10000;
  status = pending;
  shares = share 10 (codes "ana@x.pt") (pos 6000) ∷ share 11 (codes "rui@x.pt") (pos 4000) ∷ [];
  created_at = 5;
  updated_at = 5;
  completed_at = none;
  cancelled_at = none;
}

inputs_fit : Fits (asked inputs)
unfolding asked ◌+ℤ◌
inputs_fit = ground arith

plan_made : new_split ids 1 2 3 (codes "ANA@x.pt") (codes "eur") (pos 10000) inputs 5 ≡ ok plan
unfolding new_split seed_shares seen fold_email trim_space trim_left to_upper to_lower upper_byte
    lower_byte is_space add64 wrap64 ◌+ℤ◌
plan_made = refl

new_split-IsPlan_example : IsPlan (fold_email (codes "ANA@x.pt")) (pos 10000) plan
new_split-IsPlan_example =
    new_split-IsPlan ids 1 2 3 (codes "ANA@x.pt") (codes "eur") (pos 10000) inputs 5 inputs_fit
      plan_made

share_paid_by_rui : (mark_share_paid 11 4 (codes "Rui@x.pt") (codes "ref") 6 plan).1 ≡ ok tt
unfolding mark_share_paid on_share pay check_payer fold_email trim_space trim_left to_lower
    lower_byte is_space
share_paid_by_rui = refl

mark_share_paid_progress_example :
    let sp' = (mark_share_paid 11 4 (codes "Rui@x.pt") (codes "ref") 6 plan).0 in
    (unpaid plan.shares ≡ suc (unpaid sp'.shares))
    × (total_of sp'.shares ≡ total_of plan.shares)
    × (plan.status ≡ pending)
    × (sp'.status ≡ pending)
    × Paid 4 11 (fold_email (codes "Rui@x.pt")) plan.shares sp'.shares
mark_share_paid_progress_example =
    mark_share_paid_progress 11 4 (codes "Rui@x.pt") (codes "ref") 6 plan share_paid_by_rui

abbrev calls : List Op
calls =
    Op.failing 10 3 (codes "ana@x.pt") (codes "declined") 6
    ∷ Op.paying 10 3 (codes "ana@x.pt") (codes "ref") 7
    ∷ Op.refunding 10 8
    ∷ Op.paying 10 3 (codes "ana@x.pt") (codes "again") 9
    ∷ Op.cancelling 10
    ∷ []

run-Keeps_example :
    Keeps plan.shares (run calls plan).shares
    × (total_of (run calls plan).shares ≡ total_of plan.shares)
run-Keeps_example = run-Keeps calls plan
