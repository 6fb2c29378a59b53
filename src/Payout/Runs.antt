-- ===== src/Payout/Runs.antt =====
-- No host is paid more than was earned, whatever calls and answers of the rail interleave.
use airbnb.Common.{pos, ◌≤ℤ◌, Text, Time, ok, ℕ, ◌≡◌, ◌⊎◌, ◌∷◌, List, Result, ◌≢◌, []}
use airbnb.Payout.Entries.{in_flight, Disbursement, Ledger, Entry, update_disbursement}
use airbnb.Payout.Service.{reserve_disbursement, settled}
use airbnb.Payout.Sums.{earned, refunded}
use airbnb.Payout.Safety.{Bounded}

-- The row with that id is `d`, in flight.
abbrev pub InFlight : Disbursement → List Disbursement → Type 0
InFlight d [] = ⊥
InFlight d (x ∷ rest) = ((x ≡ d) × (d.status ≡ in_flight)) ⊎ ((x.id ≢ d.id) × InFlight d rest)

abbrev pub Recorded : ℕ → Text → Ledger → Entry → Type 0
Recorded host cur l e =
    (pos 0 ≤ℤ e.amount.amount_cents)
    × Bounded (earned host cur (e ∷ l.entries))
    × Bounded (refunded host cur (e ∷ l.entries))

-- What may happen to the ledger: an earning or a refund is booked within the bounds, a request
-- reserves for any host and currency, or the rail answers for a row in flight.
pub data Step (host : ℕ) (cur : Text) : Ledger → Ledger → Type 0 where
  book :
      {l : Ledger} (e : Entry)
      → Recorded host cur l e
      → Step host cur l (record l { entries = e ∷ l.entries })
  reserve :
      {l : Ledger} (id any_host : ℕ) (any_cur : Text) (now : Time) {d : Disbursement}
      → (reserve_disbursement id any_host any_cur now l).1 ≡ ok d
      → Step host cur l (record l { disbursements = d ∷ l.disbursements })
  answer :
      {l : Ledger} (rail : Result Text) (reason : Text) (now : Time) (d : Disbursement)
      {rows : List Disbursement}
      → InFlight d l.disbursements
      → update_disbursement (settled rail reason now d) l.disbursements ≡ ok rows
      → Step host cur l (record l { disbursements = rows })

pub data Reach (host : ℕ) (cur : Text) (l : Ledger) : Ledger → Type 0 where
  here : Reach host cur l l
  next : {m n : Ledger} → Reach host cur l m → Step host cur m n → Reach host cur l n
