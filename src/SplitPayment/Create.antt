-- ===== src/SplitPayment/Create.antt =====
-- splitpayment.go: `New`, which checks and builds the plan.
use airbnb.Common.{
  ltb, ◌==◌, if◌then◌else◌, length, ℤ, pos, leb_ℤ, eqb_ℤ, add64, Text, text_eq, is_empty,
  trim_space, to_upper, Time, validation, validation_of, Result, ok, err, ◌>>=◌, ◌>>◌, fail_if, ℕ,
  suc, Bool, true, false, not, none, List, [], ◌∷◌, ◌++◌,
}
use airbnb.SplitPayment.{pending, share_pending, Share, SplitPayment, fold_email}

pub record ShareInput : Type 0 where
  pub email : Text
  pub asked_cents : ℤ

-- What the loop of `New` carries: the addresses seen, the sum, whether the organizer pays too, and
-- the shares built.
pub record Seeded : Type 0 where
  pub emails : List Text
  pub sum : ℤ
  pub organizer_included : Bool
  pub out : List Share

unfoldable pub seen : Text → List Text → Bool
seen email [] = false
seen email (e ∷ rest) = if text_eq e email then true else seen email rest

-- The share that one round appends.
abbrev pub fresh_share : ℕ → ℕ → Text → ℤ → Time → Share
fresh_share id split_id email amount now = record {
  id = id;
  split_payment_id = split_id;
  payer_email = email;
  payer_user_id = none;
  amount_cents = amount;
  status = share_pending;
  gateway_ref = none;
  failure_reason = none;
  paid_at = none;
  created_at = now;
  updated_at = now;
}

-- The loop: the ids of the shares come from `fresh`, by position.
unfoldable pub seed_shares :
    (ℕ → ℕ) → ℕ → Text → Time → ℕ → Seeded → List ShareInput → Result Seeded
seed_shares fresh split_id organizer now i acc [] = ok acc
seed_shares fresh split_id organizer now i acc (s ∷ rest) =
    let email = fold_email s.email in
    let next =
      seed_shares fresh split_id organizer now (suc i)
        (record {
          emails = email ∷ acc.emails;
          sum = add64 acc.sum s.asked_cents;
          organizer_included = if text_eq email organizer then true else acc.organizer_included;
          out = acc.out ++ fresh_share (fresh i) split_id email s.asked_cents now ∷ [];
        })
        rest in
    if is_empty email
    then err (validation "each share needs a payer email")
    else if seen email acc.emails
    then err (validation_of "each payer email must appear at most once: " email)
    else if leb_ℤ s.asked_cents (pos 0)
    then err (validation "each share amount must be positive")
    else next

abbrev pub nothing_seeded : Seeded
nothing_seeded = record { emails = []; sum = pos 0; organizer_included = false; out = [] }

-- `New`
unfoldable pub new_split :
    (ℕ → ℕ) → ℕ → ℕ → ℕ → Text → Text → ℤ → List ShareInput → Time → Result SplitPayment
new_split fresh split_id booking_id organizer_id organizer_email currency total_cents shares now =
    let cur = trim_space (to_upper currency) in
    let organizer = fold_email organizer_email in
    do
      fail_if (booking_id == 0) (validation "bookingID is required")
      fail_if (organizer_id == 0) (validation "organizerID is required")
      fail_if (is_empty cur) (validation "currency is required")
      fail_if (leb_ℤ total_cents (pos 0)) (validation "totalCents must be positive")
      fail_if (ltb (length shares) 2) (validation "a split needs at least two shares")
      fail_if (is_empty organizer) (validation "organizer email is required")
      seeded ← seed_shares fresh split_id organizer now 0 nothing_seeded shares
      fail_if (not (eqb_ℤ seeded.sum total_cents))
          (validation "share amounts must sum exactly to the booking total")
      fail_if (not seeded.organizer_included) (validation "the organizer must be one of the payers")
      ok (record {
        id = split_id;
        booking_id = booking_id;
        organizer_id = organizer_id;
        currency = cur;
        total_cents = total_cents;
        status = pending;
        shares = seeded.out;
        created_at = now;
        updated_at = now;
        completed_at = none;
        cancelled_at = none;
      })
