-- ===== src/SplitPayment/Runs.antt =====
-- splitpayment.go: a plan under any sequence of calls.
use airbnb.Common.{
  ◌==◌, Bool-cases, Text, Time, ok, Result-cases, ℕ, ◌≡◌, refl, inl, inr, true, List, [], ◌∷◌,
  arith, Result, ◌∙◌, ◌≢◌, err, sym, subst, ok_inj,
}
use airbnb.SplitPayment.{
  Share, is_settled, on_share, check_payer, pay, pending, SplitPayment, is_pending, fold_email,
  fail_share, refund_share, commit, mark_share_paid, mark_share_failed, mark_share_refunded,
  mark_completed, cancel,
}
use airbnb.SplitPayment.Plan.{total_of}
use airbnb.SplitPayment.Laws.{mark_completed_iff}

pub data Op : Type 0 where
  paying failing : ℕ → ℕ → Text → Text → Time → Op
  refunding : ℕ → Time → Op
  completing cancelling : Time → Op

unfoldable pub apply : Op → SplitPayment → SplitPayment
apply (paying i user email ref now) sp = (mark_share_paid i user email ref now sp).0
apply (failing i user email reason now) sp = (mark_share_failed i user email reason now sp).0
apply (refunding i now) sp = (mark_share_refunded i now sp).0
apply (completing now) sp = (mark_completed now sp).0
apply (cancelling now) sp = (cancel now sp).0

unfoldable pub run : List Op → SplitPayment → SplitPayment
run [] sp = sp
run (op ∷ ops) sp = run ops (apply op sp)

-- What may become of one share: its id, its address and its amount stay, and once it is paid or
-- refunded it stays so.
abbrev pub KeepsShare : Share → Share → Type 0
KeepsShare s s' =
    (s'.id ≡ s.id)
    × (s'.payer_email ≡ s.payer_email)
    × (s'.amount_cents ≡ s.amount_cents)
    × (is_settled s.status ≡ true → is_settled s'.status ≡ true)

abbrev IsGentle : (Share → Result Share) → Type 0
IsGentle change = (s s' : Share) → change s ≡ ok s' → KeepsShare s s'

-- The same shares in the same order, each of them kept.
abbrev pub Keeps : List Share → List Share → Type 0
Keeps [] [] = Unit
Keeps (s ∷ rest) (s' ∷ rest') = KeepsShare s s' × Keeps rest rest'
Keeps _ _ = ⊥

Keeps-refl : (shares : List Share) → Keeps shares shares
Keeps-refl [] = tt
Keeps-refl (s ∷ rest) = ((refl, refl, refl, λ h. h), Keeps-refl rest)

Keeps-trans : (a b c : List Share) → Keeps a b → Keeps b c → Keeps a c
Keeps-trans [] [] [] h g = tt
Keeps-trans (x ∷ a) (y ∷ b) (z ∷ c) (h, h') (g, g') =
    ((g.0 ∙ h.0, g.1 ∙ h.1, g.2 ∙ h.2, λ e. g.3 (h.3 e)), Keeps-trans a b c h' g')
Keeps-trans [] [] (z ∷ c) h g = absurd g
Keeps-trans [] (y ∷ b) c h g = absurd h
Keeps-trans (x ∷ a) [] c h g = absurd h
Keeps-trans (x ∷ a) (y ∷ b) [] h g = absurd g

Keeps-total : (a b : List Share) → Keeps a b → total_of b ≡ total_of a
unfolding total_of
Keeps-total [] [] h = refl
Keeps-total (x ∷ a) (y ∷ b) (h, h') = ground (arith, h, Keeps-total a b h')
Keeps-total [] (y ∷ b) h = absurd h
Keeps-total (x ∷ a) [] h = absurd h

on_share-Keeps :
    (i : ℕ) (change : Share → Result Share) (shares : List Share) {shares' : List Share}
    → IsGentle change
    → on_share i change shares ≡ ok shares'
    → Keeps shares shares'
unfolding on_share
on_share-Keeps i change [] g h = cc
on_share-Keeps i change (s ∷ rest) {shares'} g h = elim (Bool-cases (s.id == i)) [
  | inl here ↦ elim (Result-cases (change s)) [
    | inl (s', done_it) ↦
        let kept = g s s' done_it in
        let eq : s' ∷ rest ≡ shares' = ok_inj (rw (here, done_it) at h) in
        subst (λ t. Keeps (s ∷ rest) t) eq (kept, Keeps-refl rest)
    | inr (e, stopped) ↦ ground arith
  ]
  | inr there ↦ elim (Result-cases (on_share i change rest)) [
    | inl (rest', later) ↦
        let eq : s ∷ rest' ≡ shares' = ok_inj (rw (there, later) at h) in
        subst (λ t. Keeps (s ∷ rest) t) eq
          ((refl, refl, refl, λ e. e), on_share-Keeps i change rest g later)
    | inr (e, stopped) ↦ ground arith
  ]
]

pay-IsGentle : (user : ℕ) (email ref : Text) (now : Time) → IsGentle (pay user email ref now)
unfolding pay check_payer
pay-IsGentle user email ref now s s' h = ground arith

fail_share-IsGentle :
    (user : ℕ) (email reason : Text) (now : Time) → IsGentle (fail_share user email reason now)
unfolding fail_share check_payer
fail_share-IsGentle user email reason now s s' h = ground arith

refund_share-IsGentle : (now : Time) → IsGentle (refund_share now)
unfolding refund_share
refund_share-IsGentle now s s' h = ground arith

commit-Keeps :
    (now : Time) (i : ℕ) (change : Share → Result Share) (sp : SplitPayment)
    → IsGentle change
    → Keeps sp.shares (commit now sp (on_share i change sp.shares)).0.shares
commit-Keeps now i change sp g = elim (Result-cases (on_share i change sp.shares)) [
  | inl (shares', done_it) ↦ rw done_it (on_share-Keeps i change sp.shares g done_it)
  | inr (e, stopped) ↦ rw stopped (Keeps-refl sp.shares)
]

apply-Keeps : (op : Op) (sp : SplitPayment) → Keeps sp.shares (apply op sp).shares
unfolding apply mark_share_paid mark_share_failed mark_share_refunded mark_completed cancel
apply-Keeps (paying i user email ref now) sp = elim (Bool-cases (is_pending sp.status)) [
  | inl live ↦
      rw (live, apply)
        (commit-Keeps now i (pay user (fold_email email) ref now) sp
          (pay-IsGentle user (fold_email email) ref now))
  | inr closed ↦ rw (closed, apply) (Keeps-refl sp.shares)
]
apply-Keeps (failing i user email reason now) sp = elim (Bool-cases (is_pending sp.status)) [
  | inl live ↦
      rw (live, apply)
        (commit-Keeps now i (fail_share user (fold_email email) reason now) sp
          (fail_share-IsGentle user (fold_email email) reason now))
  | inr closed ↦ rw (closed, apply) (Keeps-refl sp.shares)
]
apply-Keeps (refunding i now) sp =
    commit-Keeps now i (refund_share now) sp (refund_share-IsGentle now)
apply-Keeps (completing now) sp = rw (mark_completed_iff now sp).2 (Keeps-refl sp.shares)
apply-Keeps (cancelling now) sp = elim (Bool-cases (is_pending sp.status)) [
  | inl live ↦ rw (live, apply) (Keeps-refl sp.shares)
  | inr closed ↦ rw (closed, apply) (Keeps-refl sp.shares)
]

run_each : (ops : List Op) (sp : SplitPayment) → Keeps sp.shares (run ops sp).shares
unfolding run
run_each [] sp = Keeps-refl sp.shares
run_each (op ∷ ops) sp =
    Keeps-trans sp.shares (apply op sp).shares (run ops (apply op sp)).shares (apply-Keeps op sp)
      (run_each ops (apply op sp))

-- Whatever calls are made on a plan, it has the same shares in the same order, each with its id,
-- its address and its amount; every share that was paid, or paid and refunded, is still one of
-- the two; and the sum of the shares is the same.
pub run-Keeps :
    (ops : List Op) (sp : SplitPayment)
    → Keeps sp.shares (run ops sp).shares × (total_of (run ops sp).shares ≡ total_of sp.shares)
run-Keeps ops sp =
    let kept = run_each ops sp in (kept, Keeps-total sp.shares (run ops sp).shares kept)

commit_status :
    (now : Time) (sp : SplitPayment) (r : Result (List Share))
    → (commit now sp r).0.status ≡ sp.status
commit_status now sp (ok shares) = refl
commit_status now sp (err e) = refl

apply_closed :
    (op : Op) (sp : SplitPayment) → sp.status ≢ pending → (apply op sp).status ≡ sp.status
unfolding apply mark_share_paid mark_share_failed mark_share_refunded mark_completed cancel
apply_closed (paying i user email ref now) sp h = ground arith
apply_closed (failing i user email reason now) sp h = ground arith
apply_closed (refunding i now) sp h = commit_status now sp (on_share i (refund_share now) sp.shares)
apply_closed (completing now) sp h = ground arith
apply_closed (cancelling now) sp h = ground arith

-- A completed plan stays completed and a cancelled one cancelled, whatever is called.
pub run_closed :
    (ops : List Op) (sp : SplitPayment) → sp.status ≢ pending → (run ops sp).status ≡ sp.status
unfolding run
run_closed [] sp h = refl
run_closed (op ∷ ops) sp h =
    let same = apply_closed op sp h in run_closed ops (apply op sp) (λ e. h (sym same ∙ e)) ∙ same
