-- ===== src/Tests/Disputes.antt =====
-- domain/dispute at a concrete claim.
use airbnb.Common.{
  trim_space, to_upper, trim_left, upper_byte, is_space, pos, codes, ok, ◌≡◌, refl, none, some,
  List, [], ◌∷◌,
}
use airbnb.Dispute.{Dispute, new_dispute, open_status, rejected, damage, figure}
use airbnb.Dispute.Laws.{Op, run, IsSound, filed-IsSound}

abbrev claim : Dispute
claim = record {
  id = 1;
  booking_id = 2;
  opener_id = 3;
  kind = damage;
  reason = codes "broken lamp";
  requested_amount_cents = pos 4000;
  currency = codes "EUR";
  status = open_status;
  host_response = [];
  resolution = [];
  admin_id = 0;
  evidence = [];
  opened_at = 5;
  decided_at = none;
  updated_at = 5;
}

claim_filed : new_dispute 1 2 3 damage (codes "broken lamp ") (pos 4000) (codes "eur") 5 ≡ ok claim
unfolding new_dispute figure trim_space trim_left to_upper upper_byte is_space
claim_filed = refl

abbrev steps : List Op
steps =
    Op.adding 6 3 (codes "http://x") [] 7
    ∷ Op.responding (codes "it was old") 8
    ∷ Op.rejecting 9 (codes "no proof") 10
    ∷ Op.resolving 9 (codes "paid") 11
    ∷ []

filed-IsSound_example : IsSound (run steps claim)
filed-IsSound_example =
    filed-IsSound 1 2 3 damage (codes "broken lamp ") (pos 4000) (codes "eur") 5 steps claim_filed

abbrev closed : Dispute
closed = record claim {
  status = rejected;
  admin_id = 9;
  resolution = codes "no proof";
  decided_at = some 10;
}
