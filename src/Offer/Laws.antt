-- ===== src/Offer/Laws.antt =====
-- offer.go: an offer is answered once, and only while it is open.
use airbnb.Common.{
  if◌then◌else◌, ℤ, pos, ◌≤ℤ◌, Text, Time, truncate_day, truncate_day_whole, ok, Method, ℕ, ◌+◌,
  ◌≤◌, ◌≡◌, refl, ◌≢◌, ◌↔◌, true, List, [], ◌∷◌, arith,
}
use airbnb.Offer.{
  special_offer, pending, accepted, expired, is_pending, Offer, new_offer, is_open, accept, decline,
  withdraw,
}

-- What `New` promises: a stay of at least one whole day that is not past, between two people, and
-- a kind that says whether the price is the host's own.
pub record IsOffer (now : Time) (o : Offer) : Type 0 where
  pub apart : o.host_id ≢ o.guest_id
  pub stay : o.check_in + 86400000000000 ≤ o.check_out
  pub not_past : truncate_day now ≤ o.check_in
  pub party : pos 1 ≤ℤ o.guests
  pub priced : pos 0 ≤ℤ o.price_cents
  pub special : (o.kind ≡ special_offer) ↔ (pos 1 ≤ℤ o.price_cents)
  pub open_now : is_open now o ≡ true
  pub week : o.expires_at ≡ now + 604800000000000

-- Every offer that `New` makes is open, expires in seven days, spans at least one night from today
-- on, is not made to oneself, and is a special offer exactly if it names a price.
pub new_offer-IsOffer :
    (id property_id host_id guest_id : ℕ) (check_in check_out : Time) (guests price : ℤ)
    (currency message : Text) (now : Time) {o : Offer}
    → new_offer id property_id host_id guest_id check_in check_out guests price currency message now
      ≡ ok o
    → IsOffer now o
unfolding new_offer is_open
new_offer-IsOffer id property_id host_id guest_id check_in check_out guests price currency message
      now h =
    let from = truncate_day_whole check_in in
    let to = truncate_day_whole check_out in
    record {
      apart = ground arith;
      stay = ground (arith, from, to);
      not_past = ground arith;
      party = ground arith;
      priced = ground arith;
      special = (λ k. ground arith, λ k. ground arith);
      open_now = ground arith;
      week = ground arith;
    }

-- `accept` succeeds exactly on an open offer; on one that is pending but past its time it fails
-- and yet marks the offer expired; on any other it changes nothing.
pub accept_cases :
    (now : Time) (o : Offer)
    → (((accept now o).1 ≡ ok tt) ↔ (is_open now o ≡ true))
      × ((accept now o).0 ≡ (
          if is_open now o
          then record o { status = accepted }
          else if is_pending o.status
          then record o { status = expired }
          else o))
unfolding accept is_open
accept_cases now o = ((λ h. ground arith, λ h. ground arith), ground arith)

pub data Op : Type 0 where
  accepting : Time → Op
  declining withdrawing : Op

unfoldable pub apply : Op → Offer → Method Offer (Unit {0})
apply (accepting now) o = accept now o
apply declining o = decline o
apply withdrawing o = withdraw o

unfoldable pub run : List Op → Offer → Offer
run [] o = o
run (op ∷ ops) o = run ops (apply op o).0

apply_answered : (op : Op) (o : Offer) → o.status ≢ pending → (apply op o).0 ≡ o
unfolding apply accept decline withdraw
apply_answered (accepting now) o h = ground arith
apply_answered declining o h = ground arith
apply_answered withdrawing o h = ground arith

run_answered : (ops : List Op) (o : Offer) → o.status ≢ pending → run ops o ≡ o
unfolding run
run_answered [] o h = refl
run_answered (op ∷ ops) o h = rw (apply_answered op o h) (run_answered ops o h)

apply_answers : (op : Op) (o : Offer) → (apply op o).0.status ≢ pending
unfolding apply accept decline withdraw
apply_answers (accepting now) o = ground arith
apply_answers declining o = ground arith
apply_answers withdrawing o = ground arith

-- The first call settles an offer for good: whatever follows it, accepting a withdrawn offer or
-- withdrawing an accepted one included, the offer stays as the first call left it.
pub first_answer_stands : (op : Op) (ops : List Op) (o : Offer) → run (op ∷ ops) o ≡ (apply op o).0
unfolding run
first_answer_stands op ops o = run_answered ops (apply op o).0 (apply_answers op o)
