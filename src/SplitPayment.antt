-- ===== src/SplitPayment.antt =====
-- The split-payment context (backend/internal/domain/splitpayment): the plan that divides a
-- booking's total among payers, and the life of its shares.
pub mod Create
pub mod Plan
pub mod Laws
pub mod Runs
use airbnb.Common.{
  ◌==◌, if◌then◌else◌, ℤ, Text, text_eq, is_empty, trim_space, to_lower, Time, validation,
  not_found, conflict, forbidden, Result, ok, err, ◌>>=◌, ◌>>◌, fail_if, Method, done, refused, ℕ,
  Bool, true, false, not, ◌||◌, Option, none, some, List, [], ◌∷◌,
}

pub data Status : Type 0 where
  pending completed cancelled : Status

pub data ShareStatus : Type 0 where
  share_pending share_paid share_failed share_refunded : ShareStatus

pub record Share : Type 0 where
  pub id : ℕ
  pub split_payment_id : ℕ
  pub payer_email : Text
  pub payer_user_id : Option ℕ
  pub amount_cents : ℤ
  pub status : ShareStatus
  pub gateway_ref : Option Text
  pub failure_reason : Option Text
  pub paid_at : Option Time
  pub created_at : Time
  pub updated_at : Time

pub record SplitPayment : Type 0 where
  pub id : ℕ
  pub booking_id : ℕ
  pub organizer_id : ℕ
  pub currency : Text
  pub total_cents : ℤ
  pub status : Status
  pub shares : List Share
  pub created_at : Time
  pub updated_at : Time
  pub completed_at : Option Time
  pub cancelled_at : Option Time

abbrev pub is_pending : Status → Bool
is_pending pending = true
is_pending _ = false

abbrev pub is_paid : ShareStatus → Bool
is_paid share_paid = true
is_paid _ = false

-- `Status == SharePaid || Status == ShareRefunded`
abbrev pub is_settled : ShareStatus → Bool
is_settled share_paid = true
is_settled share_refunded = true
is_settled _ = false

-- `strings.TrimSpace(strings.ToLower(email))`
unfoldable pub fold_email : Text → Text
fold_email email = trim_space (to_lower email)

-- The loops of the three `MarkShare…` methods: the first share with the id is handed to `change`.
unfoldable pub on_share : ℕ → (Share → Result Share) → List Share → Result (List Share)
on_share share_id change [] = err not_found
on_share share_id change (s ∷ rest) =
    let later = on_share share_id change rest in
    if not (s.id == share_id)
    then later >>= (λ rest'. ok (s ∷ rest'))
    else change s >>= (λ s'. ok (s' ∷ rest))

-- The guards that `MarkSharePaid` and `MarkShareFailed` share.
unfoldable pub check_payer : Text → Share → Result (Unit {0})
check_payer payer_email s = do
  fail_if (is_settled s.status) conflict
  fail_if (not (text_eq s.payer_email payer_email)) forbidden

unfoldable pub pay : ℕ → Text → Text → Time → Share → Result Share
pay payer_user_id payer_email gateway_ref now s = do
  check_payer payer_email s
  ok (record s {
    status = share_paid;
    paid_at = some now;
    payer_user_id = some payer_user_id;
    failure_reason = none;
    gateway_ref = if is_empty gateway_ref then s.gateway_ref else some gateway_ref;
    updated_at = now;
  })

unfoldable pub fail_share : ℕ → Text → Text → Time → Share → Result Share
fail_share payer_user_id payer_email reason now s = do
  check_payer payer_email s
  ok (record s {
    status = share_failed;
    payer_user_id = some payer_user_id;
    failure_reason = some reason;
    updated_at = now;
  })

unfoldable pub refund_share : Time → Share → Result Share
refund_share now s = do
  fail_if (not (is_paid s.status)) conflict
  ok (record s { status = share_refunded; updated_at = now })

-- What a method does with the object once its new shares or its error are known.
abbrev pub commit : Time → SplitPayment → Result (List Share) → Method SplitPayment (Unit {0})
commit now sp (ok shares) = done (record sp { shares = shares; updated_at = now })
commit now sp (err e) = refused sp e

unfoldable pub mark_share_paid :
    ℕ → ℕ → Text → Text → Time → SplitPayment → Method SplitPayment (Unit {0})
mark_share_paid share_id payer_user_id payer_email gateway_ref now sp =
    if not (is_pending sp.status)
    then refused sp conflict
    else commit now sp
        (on_share share_id (pay payer_user_id (fold_email payer_email) gateway_ref now) sp.shares)

unfoldable pub mark_share_failed :
    ℕ → ℕ → Text → Text → Time → SplitPayment → Method SplitPayment (Unit {0})
mark_share_failed share_id payer_user_id payer_email reason now sp =
    if not (is_pending sp.status)
    then refused sp conflict
    else commit now sp
        (on_share share_id (fail_share payer_user_id (fold_email payer_email) reason now) sp.shares)

unfoldable pub mark_share_refunded : ℕ → Time → SplitPayment → Method SplitPayment (Unit {0})
mark_share_refunded share_id now sp = commit now sp (on_share share_id (refund_share now) sp.shares)

-- The loop over the shares in `AllPaid` and `MarkCompleted`.
unfoldable pub every_paid : List Share → Bool
every_paid [] = true
every_paid (s ∷ rest) = if not (is_paid s.status) then false else every_paid rest

unfoldable pub all_paid : SplitPayment → Bool
all_paid sp = if not (is_pending sp.status) then false else every_paid sp.shares

unfoldable pub mark_completed : Time → SplitPayment → Method SplitPayment (Unit {0})
mark_completed now sp =
    if not (is_pending sp.status)
    then refused sp conflict
    else if not (every_paid sp.shares)
    then refused sp (validation "not every share is paid yet")
    else done (record sp { status = completed; completed_at = some now; updated_at = now })

unfoldable pub cancel : Time → SplitPayment → Method SplitPayment (Unit {0})
cancel now sp =
    if not (is_pending sp.status)
    then refused sp conflict
    else done (record sp { status = cancelled; cancelled_at = some now; updated_at = now })

-- The loop of `HasPayer`.
unfoldable pub any_payer : Text → List Share → Bool
any_payer email [] = false
any_payer email (s ∷ rest) = if text_eq s.payer_email email then true else any_payer email rest

unfoldable pub has_payer : Text → SplitPayment → Bool
unfolding fold_email
has_payer email sp = any_payer (fold_email email) sp.shares

-- `FindShare`, over the shares.
unfoldable pub find_share : ℕ → List Share → Option Share
find_share share_id [] = none
find_share share_id (s ∷ rest) = if s.id == share_id then some s else find_share share_id rest
