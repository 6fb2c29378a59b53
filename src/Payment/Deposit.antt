-- ===== src/Payment/Deposit.antt =====
-- deposit.go: the aggregate `DepositHold`.
pub mod Invariant
use airbnb.Common.{
  ℕ, Bool, true, false, not, ◌||◌, ◌==◌, Option, none, some, List, [], ◌∷◌, ◌++◌, if◌then◌else◌, ℤ,
  pos, ltb_ℤ, leb_ℤ, eqb_ℤ, add64, sub64, Text, Time, Result, ok, err, validation, Method, done,
  refused,
}
use airbnb.Shared.{Money}
use airbnb.Payment.Ledger.{deposit_capture, Adjustment, has_adjustment}
use airbnb.Payment.Charge.{entry}

pub data DepositStatus : Type 0 where
  pending authorized partially_captured captured released failed : DepositStatus

-- `DepositStatus.IsTerminal`
abbrev pub is_terminal : DepositStatus → Bool
is_terminal captured = true
is_terminal released = true
is_terminal failed = true
is_terminal _ = false

abbrev pub is_pending : DepositStatus → Bool
is_pending pending = true
is_pending _ = false

-- The statuses under which `CapturePartial` proceeds.
abbrev pub is_held : DepositStatus → Bool
is_held authorized = true
is_held partially_captured = true
is_held _ = false

pub record DepositHold : Type 0 where
  pub id : ℕ
  pub booking_id : ℕ
  pub guest_id : ℕ
  pub amount : Money
  pub captured_cents : ℤ
  pub status : DepositStatus
  pub gateway_ref : Text
  pub failure_reason : Text
  pub adjustments : List Adjustment
  pub created_at : Time
  pub updated_at : Time
  pub released_at : Option Time

unfoldable pub new_deposit_hold : ℕ → ℕ → ℕ → Money → Time → Result DepositHold
new_deposit_hold id booking_id guest_id amount now =
    if booking_id == 0
    then err (validation "booking is required")
    else if guest_id == 0
    then err (validation "guest is required")
    else if leb_ℤ amount.amount_cents (pos 0)
    then err (validation "deposit amount must be positive")
    else ok (record {
      id = id;
      booking_id = booking_id;
      guest_id = guest_id;
      amount = amount;
      captured_cents = pos 0;
      status = pending;
      gateway_ref = [];
      failure_reason = [];
      adjustments = [];
      created_at = now;
      updated_at = now;
      released_at = none;
    })

unfoldable pub authorize : Text → Time → DepositHold → Method DepositHold (Unit {0})
authorize gateway_ref now d =
    if not (is_pending d.status)
    then refused d (validation "only a pending deposit can be authorized")
    else done (record d { gateway_ref = gateway_ref; status = authorized; updated_at = now })

unfoldable pub fail : Text → Time → DepositHold → DepositHold
fail reason now d = record d { status = failed; failure_reason = reason; updated_at = now }

unfoldable pub remaining : DepositHold → ℤ
remaining d = sub64 d.amount.amount_cents d.captured_cents

-- What `CapturePartial` returns beside the error: the entry, if one was made, and the amount.
pub record Captured : Type 0 where
  pub adjustment : Option Adjustment
  pub taken : ℤ

-- The smaller of the claim and what is left of the hold.
unfoldable pub taken_of : ℤ → ℤ → ℤ
taken_of left x = if ltb_ℤ left x then left else x

-- The rest of `CapturePartial`, once it knows what to take.
unfoldable pub take : ℤ → ℕ → Text → Text → ℕ → Time → DepositHold → Method DepositHold Captured
take taken id reason ref_kind ref_id now d =
    if eqb_ℤ taken (pos 0)
    then (d, ok (record { adjustment = none; taken = pos 0 }))
    else let adj = entry deposit_capture id taken reason ref_kind ref_id now d.id in
      let total = add64 d.captured_cents taken in
      (
        record d {
          captured_cents = total;
          status = if eqb_ℤ total d.amount.amount_cents then captured else partially_captured;
          adjustments = d.adjustments ++ adj ∷ [];
          updated_at = now;
        },
        ok (record { adjustment = some adj; taken = taken }),
      )

unfoldable pub capture_partial :
    ℕ → ℤ → Text → Text → ℕ → Time → DepositHold → Method DepositHold Captured
capture_partial id amount_cents reason ref_kind ref_id now d =
    if not (is_held d.status)
    then refused d (validation "deposit is not active")
    else if leb_ℤ amount_cents (pos 0)
    then refused d (validation "capture amount must be positive")
    else take (taken_of (remaining d) amount_cents) id reason ref_kind ref_id now d

-- The `switch` of `Release`: what each status answers.
release_from : DepositStatus → Time → DepositHold → Method DepositHold (Unit {0})
release_from released now d = done d
release_from captured now d = refused d (validation "deposit is already closed")
release_from failed now d = refused d (validation "deposit is already closed")
release_from pending now d = refused d (validation "a pending deposit cannot be released")
release_from _ now d =
    done (record d { status = released; released_at = some now; updated_at = now })

unfoldable pub release : Time → DepositHold → Method DepositHold (Unit {0})
unfolding release_from
release now d = release_from d.status now d

unfoldable pub has_adjustment_for : Text → ℕ → DepositHold → Bool
unfolding has_adjustment
has_adjustment_for ref_kind ref_id d = has_adjustment deposit_capture ref_kind ref_id d.adjustments
