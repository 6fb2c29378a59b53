-- ===== src/Payout/Entries.antt =====
-- payout.go, and the sums of the payout repository in memory.go.
use airbnb.Common.{
  ◌==◌, if◌then◌else◌, ℤ, pos, leb_ℤ, add64, sub64, Text, text_eq, Time, validation, not_found,
  Result, ok, err, ◌>>=◌, ℕ, Bool, true, false, not, ◌&&◌, Option, none, some, List, [], ◌∷◌,
}
use airbnb.Shared.{Money}

pub data Kind : Type 0 where
  earning refund : Kind

abbrev pub is_refund : Kind → Bool
is_refund refund = true
is_refund earning = false

pub record Entry : Type 0 where
  pub id : ℕ
  pub host_id : ℕ
  pub booking_id : ℕ
  pub property_id : ℕ
  pub kind : Kind
  pub amount : Money
  pub created_at : Time

unfoldable pub new_entry : Kind → ℕ → ℕ → ℕ → ℕ → Money → Time → Entry
new_entry kind id host_id booking_id property_id amount now = record {
  id = id;
  host_id = host_id;
  booking_id = booking_id;
  property_id = property_id;
  kind = kind;
  amount = amount;
  created_at = now;
}

unfoldable pub new_earning : ℕ → ℕ → ℕ → ℕ → Money → Time → Entry
unfolding new_entry
new_earning = new_entry earning

unfoldable pub new_refund : ℕ → ℕ → ℕ → ℕ → Money → Time → Entry
unfolding new_entry
new_refund = new_entry refund

unfoldable pub signed_cents : Entry → ℤ
signed_cents e =
    if is_refund e.kind then sub64 (pos 0) e.amount.amount_cents else e.amount.amount_cents

pub record Balance : Type 0 where
  pub currency : Text
  pub earned_cents : ℤ
  pub refunded_cents : ℤ

unfoldable pub net_cents : Balance → ℤ
net_cents b = sub64 b.earned_cents b.refunded_cents

pub data DisbursementStatus : Type 0 where
  in_flight paid failed : DisbursementStatus

pub record Disbursement : Type 0 where
  pub id : ℕ
  pub host_id : ℕ
  pub currency : Text
  pub amount_cents : ℤ
  pub status : DisbursementStatus
  pub gateway_ref : Text
  pub failure : Text
  pub created_at : Time
  pub updated_at : Time

unfoldable pub new_disbursement : ℕ → ℕ → Text → ℤ → Time → Result Disbursement
new_disbursement id host_id currency amount_cents now =
    if leb_ℤ amount_cents (pos 0)
    then err (validation "a payout amount must be positive")
    else ok (record {
      id = id;
      host_id = host_id;
      currency = currency;
      amount_cents = amount_cents;
      status = in_flight;
      gateway_ref = [];
      failure = [];
      created_at = now;
      updated_at = now;
    })

unfoldable pub mark_paid : Text → Time → Disbursement → Disbursement
mark_paid ref now d = record d { status = paid; gateway_ref = ref; failure = []; updated_at = now }

unfoldable pub mark_failed : Text → Time → Disbursement → Disbursement
mark_failed reason now d = record d { status = failed; failure = reason; updated_at = now }

-- `Committed`, of the status.
abbrev pub is_committed : DisbursementStatus → Bool
is_committed in_flight = true
is_committed paid = true
is_committed failed = false

-- The tables `m` and `d` of the repository; a Go map is visited in any order, so a list stands
-- for it.
pub record Ledger : Type 0 where
  pub entries : List Entry
  pub disbursements : List Disbursement

abbrev pub concerns : ℕ → Text → Entry → Bool
concerns host cur e = e.host_id == host && text_eq e.amount.currency cur

abbrev pub pays : ℕ → Text → Disbursement → Bool
pays host cur d = d.host_id == host && text_eq d.currency cur && is_committed d.status

-- One round of the loop of `BalancesByHost`.
unfoldable pub post : Entry → Balance → Balance
post e b =
    if is_refund e.kind
    then record b { refunded_cents = add64 b.refunded_cents e.amount.amount_cents }
    else record b { earned_cents = add64 b.earned_cents e.amount.amount_cents }

-- `b, ok := byCurrency[cur]`, with a fresh row where there is none.
unfoldable pub or_empty : Text → Option Balance → Balance
or_empty cur none = record { currency = cur; earned_cents = pos 0; refunded_cents = pos 0 }
or_empty cur (some b) = b

-- `BalancesByHost`, read at one currency: nothing if the host has no entry in it.
unfoldable pub balance_of : ℕ → Text → List Entry → Option Balance
balance_of host cur [] = none
balance_of host cur (e ∷ rest) =
    let later = balance_of host cur rest in
    if not (concerns host cur e) then later else some (post e (or_empty cur later))

-- `DisbursedCentsByHost`, read at one currency.
unfoldable pub disbursed_of : ℕ → Text → List Disbursement → ℤ
disbursed_of host cur [] = pos 0
disbursed_of host cur (d ∷ rest) =
    let later = disbursed_of host cur rest in
    if pays host cur d then add64 later d.amount_cents else later

-- `UpdateDisbursement`: overwrites the row with that id.
unfoldable pub update_disbursement : Disbursement → List Disbursement → Result (List Disbursement)
update_disbursement d [] = err not_found
update_disbursement d (x ∷ rest) =
    let later = update_disbursement d rest in
    if x.id == d.id then ok (d ∷ rest) else (later >>= (λ rest'. ok (x ∷ rest')))
