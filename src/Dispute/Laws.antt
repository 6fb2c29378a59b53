-- ===== src/Dispute/Laws.antt =====
-- dispute.go: what every sequence of calls on a dispute keeps.
use airbnb.Common.{
  is_some, ℤ, pos, ◌≤ℤ◌, Text, is_empty, Time, ok, ℕ, ◌≡◌, refl, ◌≢◌, true, false, List, [], ◌∷◌,
  ◌++◌, arith, Result-cases, ◌+◌, ◌<◌, sym, ap, ◌∙◌, ◌↔◌, inl, inr,
}
use mathlib.Core.List.{append-nil, append_assoc}
use airbnb.Dispute.{
  Kind, is_valid_kind, has_figure, is_terminal, Evidence, Dispute, figure, new_dispute,
  add_evidence, host_respond, admin_take_over, admin_resolve, admin_reject, is_overdue_at,
}

pub data Op : Type 0 where
  adding : ℕ → ℕ → Text → Text → Time → Op
  responding : Text → Time → Op
  taking_over : ℕ → Time → Op
  resolving rejecting : ℕ → Text → Time → Op

unfoldable pub apply : Op → Dispute → Dispute
apply (adding i by url note now) d = (add_evidence i by url note now d).0
apply (responding text now) d = (host_respond text now d).0
apply (taking_over admin now) d = (admin_take_over admin now d).0
apply (resolving admin text now) d = (admin_resolve admin text now d).0
apply (rejecting admin text now) d = (admin_reject admin text now d).0

unfoldable pub run : List Op → Dispute → Dispute
run [] d = d
run (op ∷ ops) d = run ops (apply op d)

apply_decided : (op : Op) (d : Dispute) → is_terminal d.status ≡ true → apply op d ≡ d
unfolding apply add_evidence host_respond admin_take_over admin_resolve admin_reject
apply_decided (adding i by url note now) d h = ground arith
apply_decided (responding text now) d h = ground arith
apply_decided (taking_over admin now) d h = ground arith
apply_decided (resolving admin text now) d h = ground arith
apply_decided (rejecting admin text now) d h = ground arith

-- A decision is final: on a resolved or rejected dispute no sequence of calls changes anything.
pub run_decided : (ops : List Op) (d : Dispute) → is_terminal d.status ≡ true → run ops d ≡ d
unfolding run
run_decided [] d h = refl
run_decided (op ∷ ops) d h = rw (apply_decided op d h) (run_decided ops d h)

-- A dispute is decided exactly when it has a decision time, and then an administrator and a text;
-- a claim for a refund or for damage has a positive figure and a currency.
pub record IsSound (d : Dispute) : Type 0 where
  pub decided_iff : is_terminal d.status ≡ is_some d.decided_at
  pub signed : is_terminal d.status ≡ true → d.admin_id ≢ 0
  pub explained : is_terminal d.status ≡ true → is_empty d.resolution ≡ false
  pub unexplained : is_terminal d.status ≡ false → d.resolution ≡ []
  pub claims : has_figure d.kind ≡ true → pos 1 ≤ℤ d.requested_amount_cents
  pub claims_in : has_figure d.kind ≡ true → is_empty d.currency ≡ false
  pub no_claim : has_figure d.kind ≡ false → d.requested_amount_cents ≡ pos 0
  pub known : is_valid_kind d.kind ≡ true
  pub reasoned : is_empty d.reason ≡ false

new_dispute-IsSound :
    (id booking_id opener_id : ℕ) (kind : Kind) (reason : Text) (requested : ℤ) (currency : Text)
    (now : Time) {d : Dispute}
    → new_dispute id booking_id opener_id kind reason requested currency now ≡ ok d
    → IsSound d
unfolding new_dispute figure
new_dispute-IsSound id booking_id opener_id kind reason requested currency now h = ground arith

apply-IsSound : (op : Op) (d : Dispute) → IsSound d → IsSound (apply op d)
unfolding apply add_evidence host_respond admin_take_over admin_resolve admin_reject
apply-IsSound (adding i by url note now) d s = ground arith
apply-IsSound (responding text now) d s = ground arith
apply-IsSound (taking_over admin now) d s = ground arith
apply-IsSound (resolving admin text now) d s = ground arith
apply-IsSound (rejecting admin text now) d s = ground arith

run-IsSound : (ops : List Op) (d : Dispute) → IsSound d → IsSound (run ops d)
unfolding run
run-IsSound [] d s = s
run-IsSound (op ∷ ops) d s = run-IsSound ops (apply op d) (apply-IsSound op d s)

-- Every dispute that was filed, after any calls, is decided exactly when it has a decision time,
-- an administrator and a text, and keeps a known kind, a reason, and a figure that fits the kind.
pub filed-IsSound :
    (id booking_id opener_id : ℕ) (kind : Kind) (reason : Text) (requested : ℤ) (currency : Text)
    (now : Time) (ops : List Op) {d : Dispute}
    → new_dispute id booking_id opener_id kind reason requested currency now ≡ ok d
    → IsSound (run ops d)
filed-IsSound id booking_id opener_id kind reason requested currency now ops {d} h =
    run-IsSound ops d
      (new_dispute-IsSound id booking_id opener_id kind reason requested currency now h)

apply_evidence :
    (op : Op) (d : Dispute) → (more : List Evidence) × ((apply op d).evidence ≡ d.evidence ++ more)
unfolding apply add_evidence host_respond admin_take_over admin_resolve admin_reject
apply_evidence (adding i by url note now) d =
    elim (Result-cases (add_evidence i by url note now d).1) [
      | inl (ev, added) ↦ (ev ∷ [], ground arith)
      | inr (e, stopped) ↦ ([], ground (arith, append-nil d.evidence))
    ]
apply_evidence (responding text now) d = ([], ground (arith, append-nil d.evidence))
apply_evidence (taking_over admin now) d = ([], ground (arith, append-nil d.evidence))
apply_evidence (resolving admin text now) d = ([], ground (arith, append-nil d.evidence))
apply_evidence (rejecting admin text now) d = ([], ground (arith, append-nil d.evidence))

-- Evidence is only ever appended: no sequence of calls removes or rewrites an entry.
pub run_evidence :
    (ops : List Op) (d : Dispute)
    → (more : List Evidence) × ((run ops d).evidence ≡ d.evidence ++ more)
unfolding run
run_evidence [] d = ([], sym (append-nil d.evidence))
run_evidence (op ∷ ops) d =
    let (first, here) = apply_evidence op d in
    let (later, there) = run_evidence ops (apply op d) in
    (
      first ++ later,
      there ∙ ap (λ (l : List Evidence). l ++ later) here ∙ append_assoc d.evidence first later,
    )

-- A dispute is overdue exactly if it is undecided and more than seven days have passed since it
-- was opened.
is_overdue_at_iff :
    (now : Time) (d : Dispute)
    → (is_overdue_at now d ≡ true)
      ↔ ((is_terminal d.status ≡ false) × (d.opened_at + 604800000000000 < now))
unfolding is_overdue_at
is_overdue_at_iff now d = (λ h. ground arith, λ h. ground arith)
