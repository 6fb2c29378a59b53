-- ===== src/Payout/Sums.antt =====
-- The sums of one host's rows in one currency, as integers, against the repository's `int64` sums.
use airbnb.Common.{
  if◌then◌else◌, Bool-cases, ℤ, pos, ◌+ℤ◌, +ℤ_zero, +ℤ_comm, wrap64, add64, wrap64_exact,
  wrap64-add, Text, ℕ, ◌≡◌, refl, sym, ap, ◌∙◌, inl, inr, not, ◌&&◌, Option, none, some, List, [],
  ◌∷◌, arith, int_laws, true, false,
}
use airbnb.Payout.Entries.{
  is_refund, Entry, Balance, Disbursement, concerns, pays, balance_of, disbursed_of, post, or_empty,
}

sum_step : (x a s : ℤ) → x ≡ wrap64 s → add64 x a ≡ wrap64 (a +ℤ s)
unfolding add64
sum_step x a s h = rw h (wrap64-add s a ∙ ap wrap64 (+ℤ_comm s a))

sum_skip : (x s : ℤ) → x ≡ wrap64 s → x ≡ wrap64 (pos 0 +ℤ s)
sum_skip x s h = h ∙ ap wrap64 (sym (+ℤ_comm (pos 0) s ∙ +ℤ_zero s))

module _ (host : ℕ) (cur : Text) where
  unfoldable pub earned : List Entry → ℤ
  earned [] = pos 0
  earned (e ∷ rest) =
      (if concerns host cur e && not (is_refund e.kind) then e.amount.amount_cents else pos 0)
      +ℤ earned rest

  unfoldable pub refunded : List Entry → ℤ
  refunded [] = pos 0
  refunded (e ∷ rest) =
      (if concerns host cur e && is_refund e.kind then e.amount.amount_cents else pos 0)
      +ℤ refunded rest

  unfoldable pub committed : List Disbursement → ℤ
  committed [] = pos 0
  committed (d ∷ rest) = (if pays host cur d then d.amount_cents else pos 0) +ℤ committed rest

  pub disbursed_of-committed :
      (ds : List Disbursement) → disbursed_of host cur ds ≡ wrap64 (committed ds)
  unfolding disbursed_of committed add64
  disbursed_of-committed [] = sym (wrap64_exact (pos 0) (omega arith))
  disbursed_of-committed (d ∷ rest) = elim (Bool-cases (pays host cur d)) [
    | inl counted ↦ rw counted (
        sum_step (disbursed_of host cur rest) d.amount_cents (committed rest)
          (disbursed_of-committed rest))
    | inr passed ↦
        rw passed
          (sum_skip (disbursed_of host cur rest) (committed rest) (disbursed_of-committed rest))
  ]

  -- What the repository's balance says, if there is one.
  abbrev pub IsBalance : List Entry → Option Balance → Type 0
  IsBalance es none = (earned es ≡ pos 0) × (refunded es ≡ pos 0)
  IsBalance es (some b) =
      (b.earned_cents ≡ wrap64 (earned es)) × (b.refunded_cents ≡ wrap64 (refunded es))

  or_empty-IsBalance :
      (es : List Entry) (o : Option Balance) → IsBalance es o → IsBalance es (some (or_empty cur o))
  unfolding or_empty
  or_empty-IsBalance es none h =
      let zero_sum = sym (wrap64_exact (pos 0) (omega arith)) in (rw h.0 zero_sum, rw h.1 zero_sum)
  or_empty-IsBalance es (some b) h = h

  post-IsBalance :
      (e : Entry) (es : List Entry) (b : Balance)
      → concerns host cur e ≡ true
      → IsBalance es (some b)
      → IsBalance (e ∷ es) (some (post e b))
  unfolding post earned refunded
  post-IsBalance e es b c h = elim (Bool-cases (is_refund e.kind)) [
    | inl back ↦
        rw (c, back)
          (
            sum_skip b.earned_cents (earned es) h.0,
            sum_step b.refunded_cents e.amount.amount_cents (refunded es) h.1,
          )
    | inr gain ↦
        rw (c, gain)
          (
            sum_step b.earned_cents e.amount.amount_cents (earned es) h.0,
            sum_skip b.refunded_cents (refunded es) h.1,
          )
  ]

  skip-IsBalance :
      (e : Entry) (es : List Entry) (o : Option Balance)
      → concerns host cur e ≡ false
      → IsBalance es o
      → IsBalance (e ∷ es) o
  unfolding earned refunded
  skip-IsBalance e es none c h = rw (c, h.0, h.1) (omega int_laws, omega int_laws)
  skip-IsBalance e es (some b) c h =
      rw c (sum_skip b.earned_cents (earned es) h.0, sum_skip b.refunded_cents (refunded es) h.1)

  pub balance_of-IsBalance : (es : List Entry) → IsBalance es (balance_of host cur es)
  unfolding balance_of earned refunded
  balance_of-IsBalance [] = (refl, refl)
  balance_of-IsBalance (e ∷ rest) = elim (Bool-cases (concerns host cur e)) [
    | inl ours ↦ rw ours (
        post-IsBalance e rest (or_empty cur (balance_of host cur rest)) ours
          (or_empty-IsBalance rest (balance_of host cur rest) (balance_of-IsBalance rest)))
    | inr theirs ↦
        rw theirs
          (skip-IsBalance e rest (balance_of host cur rest) theirs (balance_of-IsBalance rest))
  ]
