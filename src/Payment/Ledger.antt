-- ===== src/Payment/Ledger.antt =====
-- payment.go: the entries that refunds, damage claims and deposit captures leave.
use airbnb.Common.{
  ℕ, Bool, true, false, ◌&&◌, ◌≡◌, ◌==◌, List, [], ◌∷◌, ◌++◌, if◌then◌else◌, ℤ, pos, ◌+ℤ◌, int_laws,
  Text, Time, text_eq,
}

pub data AdjustmentKind : Type 0 where
  refund damage_claim deposit_capture : AdjustmentKind

pub record Adjustment : Type 0 where
  pub id : ℕ
  pub payment_id : ℕ
  pub kind : AdjustmentKind
  pub amount_cents : ℤ
  pub reason : Text
  pub ref_kind : Text
  pub ref_id : ℕ
  pub created_at : Time

abbrev pub same_kind : AdjustmentKind → AdjustmentKind → Bool
same_kind refund refund = true
same_kind damage_claim damage_claim = true
same_kind deposit_capture deposit_capture = true
same_kind _ _ = false

-- The loops of both `HasAdjustmentFor` methods.
unfoldable pub has_adjustment : AdjustmentKind → Text → ℕ → List Adjustment → Bool
has_adjustment kind ref_kind ref_id [] = false
has_adjustment kind ref_kind ref_id (a ∷ rest) =
    if same_kind a.kind kind && text_eq a.ref_kind ref_kind && a.ref_id == ref_id
    then true
    else has_adjustment kind ref_kind ref_id rest

-- The sum of the entries of one kind.
unfoldable pub booked : AdjustmentKind → List Adjustment → ℤ
booked kind [] = pos 0
booked kind (a ∷ rest) =
    (if same_kind a.kind kind then a.amount_cents else pos 0) +ℤ booked kind rest

pub booked-append :
    (kind : AdjustmentKind) (rest : List Adjustment) (a : Adjustment)
    → booked kind (rest ++ a ∷ [])
      ≡ booked kind rest +ℤ (if same_kind a.kind kind then a.amount_cents else pos 0)
unfolding booked
booked-append kind [] a = omega int_laws
booked-append kind (b ∷ rest) a = rw (booked-append kind rest a) (omega int_laws)
