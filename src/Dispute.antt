-- ===== src/Dispute.antt =====
-- The resolution centre (backend/internal/domain/dispute): claims after a stay and their decision.
pub mod Laws
use airbnb.Common.{
  ltb, ◌==◌, if◌then◌else◌, length, ℤ, pos, leb_ℤ, Text, is_empty, trim_space, to_upper, Time,
  validation, Result, ok, err, ◌>>=◌, ◌>>◌, fail_if, Method, done, refused, ℕ, ◌+◌, Bool, true,
  false, not, ◌&&◌, ◌||◌, Option, none, some, List, [], ◌∷◌, ◌++◌,
}

pub data Kind : Type 0 where
  refund_claim damage other unknown : Kind

-- `Kind.Valid`
abbrev pub is_valid_kind : Kind → Bool
is_valid_kind unknown = false
is_valid_kind _ = true

-- `kind == KindRefund || kind == KindDamage`
abbrev pub has_figure : Kind → Bool
has_figure refund_claim = true
has_figure damage = true
has_figure _ = false

pub data Status : Type 0 where
  open_status under_review resolved rejected : Status

-- `Status.IsTerminal`
abbrev pub is_terminal : Status → Bool
is_terminal resolved = true
is_terminal rejected = true
is_terminal _ = false

-- `if d.Status == StatusOpen { d.Status = StatusUnderReview }`
abbrev pub picked_up : Status → Status
picked_up open_status = under_review
picked_up s = s

-- `SLAWindow`: seven days.
abbrev pub sla_window : ℕ
sla_window = 604800000000000

pub record Evidence : Type 0 where
  pub evidence_id : ℕ
  pub url : Text
  pub note : Text
  pub added_by : ℕ
  pub added_at : Time

pub record Dispute : Type 0 where
  pub id : ℕ
  pub booking_id : ℕ
  pub opener_id : ℕ
  pub kind : Kind
  pub reason : Text
  pub requested_amount_cents : ℤ
  pub currency : Text
  pub status : Status
  pub host_response : Text
  pub resolution : Text
  pub admin_id : ℕ
  pub evidence : List Evidence
  pub opened_at : Time
  pub decided_at : Option Time
  pub updated_at : Time

-- The figure and the currency that `New` stores, by kind.
unfoldable pub figure : Kind → ℤ → Text → Result (ℤ × Text)
figure kind requested currency =
    let cur = to_upper (trim_space currency) in
    if not (has_figure kind)
    then ok (pos 0, cur)
    else if leb_ℤ requested (pos 0)
    then err (validation "a positive amount is required for refund/damage disputes")
    else if is_empty cur
    then err (validation "currency is required for refund/damage disputes")
    else ok (requested, cur)

unfoldable pub new_dispute : ℕ → ℕ → ℕ → Kind → Text → ℤ → Text → Time → Result Dispute
new_dispute id booking_id opener_id kind raw_reason requested currency now =
    let reason = trim_space raw_reason in
    do
      fail_if (booking_id == 0) (validation "booking is required")
      fail_if (opener_id == 0) (validation "opener is required")
      fail_if (not (is_valid_kind kind)) (validation "unknown dispute kind")
      fail_if (is_empty reason) (validation "reason is required")
      fail_if (ltb 2000 (length reason)) (validation "reason is too long")
      money ← figure kind requested currency
      ok (record {
        id = id;
        booking_id = booking_id;
        opener_id = opener_id;
        kind = kind;
        reason = reason;
        requested_amount_cents = money.0;
        currency = money.1;
        status = open_status;
        host_response = [];
        resolution = [];
        admin_id = 0;
        evidence = [];
        opened_at = now;
        decided_at = none;
        updated_at = now;
      })

unfoldable pub add_evidence : ℕ → ℕ → Text → Text → Time → Dispute → Method Dispute Evidence
add_evidence evidence_id added_by raw_url raw_note now d =
    if is_terminal d.status
    then refused d (validation "cannot add evidence to a closed dispute")
    else if added_by == 0
    then refused d (validation "contributor is required")
    else let url = trim_space raw_url in
      let note = trim_space raw_note in
      if is_empty url && is_empty note
      then refused d (validation "evidence requires a URL or a note")
      else let ev : Evidence = record {
        evidence_id = evidence_id;
        url = url;
        note = note;
        added_by = added_by;
        added_at = now;
      } in
        (record d { evidence = d.evidence ++ ev ∷ []; updated_at = now }, ok ev)

unfoldable pub host_respond : Text → Time → Dispute → Method Dispute (Unit {0})
host_respond raw_response now d =
    let response = trim_space raw_response in
    if is_terminal d.status
    then refused d (validation "dispute is already closed")
    else if is_empty response
    then refused d (validation "response is required")
    else if ltb 2000 (length response)
    then refused d (validation "response is too long")
    else done (record d { host_response = response; status = picked_up d.status; updated_at = now })

unfoldable pub admin_take_over : ℕ → Time → Dispute → Method Dispute (Unit {0})
admin_take_over admin_id now d =
    if is_terminal d.status
    then refused d (validation "dispute is already closed")
    else if admin_id == 0
    then refused d (validation "admin id is required")
    else done (record d { admin_id = admin_id; status = picked_up d.status; updated_at = now })

unfoldable pub decide : ℕ → Text → Status → Time → Dispute → Method Dispute (Unit {0})
decide admin_id raw_resolution target now d =
    let resolution = trim_space raw_resolution in
    if is_terminal d.status
    then refused d (validation "dispute is already closed")
    else if admin_id == 0
    then refused d (validation "admin id is required")
    else if is_empty resolution
    then refused d (validation "resolution text is required")
    else done (record d {
      admin_id = admin_id;
      resolution = resolution;
      status = target;
      decided_at = some now;
      updated_at = now;
    })

unfoldable pub admin_resolve : ℕ → Text → Time → Dispute → Method Dispute (Unit {0})
unfolding decide
admin_resolve admin_id resolution now d = decide admin_id resolution resolved now d

unfoldable pub admin_reject : ℕ → Text → Time → Dispute → Method Dispute (Unit {0})
unfolding decide
admin_reject admin_id resolution now d = decide admin_id resolution rejected now d

unfoldable pub due_at : Dispute → Time
due_at d = d.opened_at + sla_window

unfoldable pub is_overdue_at : Time → Dispute → Bool
unfolding due_at
is_overdue_at now d = if is_terminal d.status then false else ltb (due_at d) now
