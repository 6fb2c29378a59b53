-- ===== src/Payout/Service.antt =====
-- application/payout/service.go: the available balance, its reservation, and the payment by the
-- rail. The rail is not part of the repository: its answer is an argument.
use airbnb.Common.{
  if◌then◌else◌, ℤ, pos, negsuc, leb_ℤ, sub64, Text, is_empty, trim_space, to_upper, Time,
  validation, validation_of, Result, ok, err, ◌>>=◌, Method, refused, ℕ, Bool, not, ◌&&◌, Option,
  none, some, ◌∷◌,
}
use airbnb.Shared.{Money, new_money}
use airbnb.Payout.Entries.{
  net_cents, Disbursement, new_disbursement, mark_paid, mark_failed, Ledger, balance_of,
  disbursed_of, update_disbursement,
}

-- What the service reads of a host's account (domain/user/user.go).
pub record HostAccount : Type 0 where
  pub payout_account_id : Text
  pub payouts_enabled : Bool

-- `User.CanReceivePayouts`
unfoldable pub can_receive_payouts : HostAccount → Bool
can_receive_payouts u = not (is_empty u.payout_account_id) && u.payouts_enabled

-- `AvailableBalances`, read at one currency.
unfoldable pub available : ℕ → Text → Ledger → Option ℤ
available host cur l = elim (balance_of host cur l.entries) [
  | none ↦ none
  | some b ↦ some (sub64 (net_cents b) (disbursed_of host cur l.disbursements))
]

-- `var cents int64 = -1`, and the search for the currency.
abbrev pub or_minus_one : Option ℤ → ℤ
or_minus_one none = negsuc 0
or_minus_one (some cents) = cents

-- `reserveDisbursement`: check and insert, in one step under the host's lock.
unfoldable pub reserve_disbursement : ℕ → ℕ → Text → Time → Ledger → Method Ledger Disbursement
reserve_disbursement id host cur now l =
    let cents = or_minus_one (available host cur l) in
    if leb_ℤ cents (pos 0)
    then refused l (validation_of "no funds available to pay out in " cur)
    else elim (new_money cents cur >>= (λ amount. new_disbursement id host cur cents now)) [
      | err e ↦ refused l e
      | ok d ↦ (record l { disbursements = d ∷ l.disbursements }, ok d)
    ]

-- The row after the rail has answered.
unfoldable pub settled : Result Text → Text → Time → Disbursement → Disbursement
unfolding mark_paid mark_failed
settled (ok ref) reason now d = mark_paid ref now d
settled (err e) reason now d = mark_failed reason now d

-- What the caller of the rail returns.
abbrev pub reply : Result Text → Disbursement → Result Disbursement
reply (ok ref) d = ok d
reply (err e) d = err e

-- `RequestDisbursement`, for a host that was found; `reason` is the text of the rail's error.
unfoldable pub request_disbursement :
    HostAccount → Result Text → Text → ℕ → ℕ → Text → Time → Ledger → Method Ledger Disbursement
request_disbursement account rail reason id host raw_currency now l =
    let cur = to_upper (trim_space raw_currency) in
    if is_empty cur
    then refused l (validation "a currency is required")
    else if not (can_receive_payouts account)
    then refused l (validation "complete payout onboarding before requesting a payout")
    else let (l', reserved) = reserve_disbursement id host cur now l in
      elim reserved [
        | err e ↦ refused l' e
        | ok d ↦ elim (update_disbursement (settled rail reason now d) l'.disbursements) [
          | err e ↦ refused l' e
          | ok rows ↦ (record l' { disbursements = rows }, reply rail (settled rail reason now d))
        ]
      ]

-- `hostNet`: the guest's total less the platform's fee.
unfoldable pub host_net : Money → Money → Result Money
host_net total service_fee =
    new_money (sub64 total.amount_cents service_fee.amount_cents) total.currency
