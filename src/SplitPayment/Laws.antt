-- ===== src/SplitPayment/Laws.antt =====
-- splitpayment.go: the payment of a share, and the completion of a plan.
use airbnb.Common.{
  ◌==◌, if◌then◌else◌, Bool-cases, Text, text_eq→eq, Time, ok, Result-cases, ℕ, suc, ◌≡◌, refl, ◌↔◌,
  inl, inr, true, false, some, List, [], ◌∷◌, arith, ◌≢◌,
}
use airbnb.SplitPayment.{
  share_paid, Share, is_paid, is_settled, on_share, check_payer, pay, every_paid, find_share,
  pending, SplitPayment, is_pending, fold_email, mark_share_paid, all_paid, mark_completed,
}
use airbnb.SplitPayment.Plan.{total_of}

-- How many shares are not paid.
unfoldable pub unpaid : List Share → ℕ
unpaid [] = 0
unpaid (s ∷ rest) = if is_paid s.status then unpaid rest else suc (unpaid rest)

every_paid_iff : (shares : List Share) → (every_paid shares ≡ true) ↔ (unpaid shares ≡ 0)
unfolding every_paid unpaid
every_paid_iff [] = (λ h. refl, λ h. refl)
every_paid_iff (s ∷ rest) =
    let (from, to) = every_paid_iff rest in (λ h. ground (arith, from), λ h. ground (arith, to))

-- A share is paid at most once, by the holder of its address.
pay_effect :
    (user : ℕ) (email ref : Text) (now : Time) (s : Share) {s' : Share}
    → pay user email ref now s ≡ ok s'
    → (is_settled s.status ≡ false)
      × (s'.status ≡ share_paid)
      × (s.payer_email ≡ email)
      × (s'.amount_cents ≡ s.amount_cents)
      × (s'.id ≡ s.id)
      × (s'.payer_user_id ≡ some user)
unfolding pay check_payer
pay_effect user email ref now s h = ground (arith, text_eq→eq s.payer_email email)

-- How a payment by `user` changes a share of that address.
abbrev pub PaidBy : ℕ → Text → Share → Share → Type 0
PaidBy user email s s' =
    (is_settled s.status ≡ false)
    × (s'.status ≡ share_paid)
    × (s.payer_email ≡ email)
    × (s'.payer_user_id ≡ some user)
    × (s'.amount_cents ≡ s.amount_cents)

-- The share with the id is paid so, and the others are found as they were.
abbrev pub Paid : ℕ → ℕ → Text → List Share → List Share → Type 0
Paid user share_id email shares shares' =
    ((s s' : Share) × (find_share share_id shares ≡ some s)
      × (find_share share_id shares' ≡ some s')
      × PaidBy user email s s')
    × ((i : ℕ) → i ≢ share_id → find_share i shares' ≡ find_share i shares)

other_share :
    (s s' : Share) (rest rest' : List Share) (i : ℕ)
    → s'.id ≡ s.id
    → (s.id == i ≡ false → find_share i rest' ≡ find_share i rest)
    → (s.id == i ≡ true → s' ≡ s)
    → find_share i (s' ∷ rest') ≡ find_share i (s ∷ rest)
unfolding find_share
other_share s s' rest rest' i same later own = elim (Bool-cases (s.id == i)) [
  | inl here ↦ ground (arith, same, own here)
  | inr there ↦ ground (arith, same, later there)
]

module _ (user share_id : ℕ) (email ref : Text) (now : Time) where
  on_share-pay :
      (shares : List Share) {shares' : List Share}
      → on_share share_id (pay user email ref now) shares ≡ ok shares'
      → (unpaid shares ≡ suc (unpaid shares'))
        × (total_of shares' ≡ total_of shares)
        × Paid user share_id email shares shares'
  unfolding on_share unpaid find_share total_of
  on_share-pay [] h = cc
  on_share-pay (s ∷ rest) {shares'} h = elim (Bool-cases (s.id == share_id)) [
    | inl here ↦ elim (Result-cases (pay user email ref now s)) [
      | inl (s', paid) ↦
          let effect = pay_effect user email ref now s paid in
          (
            ground (arith, effect),
            ground (arith, effect),
            (
              (s, s', ground arith, ground (arith, effect), ground (arith, effect)),
              λ i apart. ground (arith, effect, apart),
            ),
          )
      | inr (e, stopped) ↦ ground arith
    ]
    | inr there ↦ elim (Result-cases (on_share share_id (pay user email ref now) rest)) [
      | inl (rest', later) ↦
          let (fewer, same, ((s0, s1, found, found', facts), others)) = on_share-pay rest later in
          (
            ground (arith, fewer),
            ground (arith, same),
            (
              (s0, s1, ground (arith, found), ground (arith, found'), facts),
              λ i apart. ground (arith, others i apart),
            ),
          )
      | inr (e, stopped) ↦ ground arith
    ]
  ]

-- A successful `MarkSharePaid` pays the share with that id: it was neither paid nor refunded and
-- has the caller's address, and afterwards the share found at the id is paid, by the caller, with
-- its amount; what is found at every other id stays; one share fewer is unpaid; the sum of the
-- shares and the status of the plan, which is pending, stay.
pub mark_share_paid_progress :
    (share_id user : ℕ) (email ref : Text) (now : Time) (sp : SplitPayment)
    → (mark_share_paid share_id user email ref now sp).1 ≡ ok tt
    → let sp' = (mark_share_paid share_id user email ref now sp).0 in
      (unpaid sp.shares ≡ suc (unpaid sp'.shares))
      × (total_of sp'.shares ≡ total_of sp.shares)
      × (sp.status ≡ pending)
      × (sp'.status ≡ pending)
      × Paid user share_id (fold_email email) sp.shares sp'.shares
unfolding mark_share_paid
mark_share_paid_progress share_id user email ref now sp h =
    elim (Result-cases (on_share share_id (pay user (fold_email email) ref now) sp.shares)) [
      | inl (shares', paid) ↦
          let (fewer, same, effect) =
            on_share-pay user share_id (fold_email email) ref now sp.shares paid in
          let pays : is_pending sp.status ≡ true = ground arith in
          let stored : (mark_share_paid share_id user email ref now sp).0.shares ≡ shares' =
            ground (arith, paid) in
          (
            ground (arith, fewer),
            ground (arith, same),
            ground arith,
            ground arith,
            rw stored effect,
          )
      | inr (e, stopped) ↦ ground arith
    ]

-- A plan can be completed exactly when it is pending and no share is left unpaid, which is when
-- `AllPaid` answers true; completing it changes no share.
pub mark_completed_iff :
    (now : Time) (sp : SplitPayment)
    → (((mark_completed now sp).1 ≡ ok tt) ↔ ((sp.status ≡ pending) × (unpaid sp.shares ≡ 0)))
      × ((all_paid sp ≡ true) ↔ ((sp.status ≡ pending) × (unpaid sp.shares ≡ 0)))
      × ((mark_completed now sp).0.shares ≡ sp.shares)
unfolding mark_completed all_paid
mark_completed_iff now sp =
    let (from, to) = every_paid_iff sp.shares in
    (
      (λ h. ground (arith, from), λ h. ground (arith, to)),
      (λ h. ground (arith, from), λ h. ground (arith, to)),
      ground arith,
    )
