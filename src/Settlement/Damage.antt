-- ===== src/Settlement/Damage.antt =====
-- service.go: a damage award is split between the deposit and a claim, and what a failure halfway
-- loses.
use airbnb.Common.{
  Bool-cases, ℤ, pos, ◌+ℤ◌, ◌≤ℤ◌, leb_ℤ, Fits, add64_exact, Text, Time, ok, ℕ, ◌≡◌, inl, inr, true,
  false, none, some, arith, ◌-ℤ◌, -ℤ_parts, int_laws, ltb_ℤ, if◌then◌else◌, List, [], ◌∷◌, ◌++◌,
  +ℤ_zero, sub64, sub64_exact, sym, ap, ◌∙◌,
}
use airbnb.Payment.Ledger.{damage_claim}
use airbnb.Payment.Charge.{Payment, has_adjustment_for, record_damage_claim}
use airbnb.Payment.Deposit.{
  DepositHold, Captured, is_held, remaining, capture_partial, taken_of, take,
}
use airbnb.Payment.Deposit
use airbnb.Payment.Deposit.Invariant.{IsSound, capture_partial_takes, remaining_exact}
use airbnb.Settlement.Service.{
  Ports, GatewayCall, capture_call, Books, dispute_kind, claim_overflow, capture_hold, then_claim,
  apply_damage,
}

-- The repositories accept every row.
abbrev pub Saves : Ports → Type 0
Saves ports =
    ((p : Payment) → ports.update_payment p ≡ none)
    × ((d : DepositHold) → ports.update_deposit d ≡ none)

Fits-of_bounds : (a : ℤ) → pos 0 ≤ℤ a → a ≤ℤ pos 9223372036854775807 → Fits a
Fits-of_bounds a low high = ground arith

-- What a claim leaves on a payment with room for it.
claim_overflow_books :
    (ports : Ports) (id : ℕ) (took rest : ℤ) (reason : Text) (dispute_id : ℕ) (now : Time)
    (b : Books) (p : Payment)
    → b.payment ≡ some p
    → has_adjustment_for damage_claim dispute_kind dispute_id p ≡ false
    → Fits (p.damage_claim_cents +ℤ rest)
    → pos 0 ≤ℤ rest
    → Saves ports
    → let (b', result) = claim_overflow ports id took rest reason dispute_id now b in
      (result ≡ ok (took, rest))
      × (b'.deposit ≡ b.deposit)
      × (b'.calls ≡ b.calls)
      × (p' : Payment) × (b'.payment ≡ some p')
      × (p'.damage_claim_cents ≡ p.damage_claim_cents +ℤ rest)
unfolding claim_overflow record_damage_claim
claim_overflow_books ports id took rest reason dispute_id now b p row fresh fits low saves =
    elim (Bool-cases (leb_ℤ rest (pos 0))) [
      | inl covered ↦
          let nothing : rest ≤ℤ pos 0 = ground (arith, covered) in
          (
            ground arith,
            ground arith,
            ground arith,
            p,
            ground arith,
            omega (int_laws, nothing, low),
          )
      | inr open_part ↦
          let p' = (record_damage_claim id rest reason dispute_kind dispute_id now p).0 in
          let stored = saves.0 p' in
          let exact = add64_exact p.damage_claim_cents rest fits in
          (
            ground (arith, stored),
            ground (arith, stored),
            ground (arith, stored),
            p',
            ground (arith, stored),
            ground (arith, exact),
          )
    ]

-- What the deposit gives: all that is left of the hold, if that is less than the award, and the
-- award otherwise.
abbrev pub given : DepositHold → ℤ → ℤ
given dep amount =
    let left = dep.amount.amount_cents -ℤ dep.captured_cents in
    if ltb_ℤ left amount then left else amount

-- The gateway is asked to capture the hold exactly if the deposit gives something.
abbrev pub asked : DepositHold → ℤ → List GatewayCall → List GatewayCall
asked dep took calls =
    if ltb_ℤ (pos 0) took then calls ++ capture_call dep.gateway_ref ∷ [] else calls

-- A hold on which nothing is left gives nothing.
given_spent :
    (dep : DepositHold) (amount : ℤ)
    → IsSound dep
    → pos 1 ≤ℤ amount
    → dep.amount.amount_cents -ℤ dep.captured_cents ≤ℤ pos 0
    → given dep amount ≡ pos 0
given_spent dep amount s some_cents spent =
    let low : pos 0 ≤ℤ dep.amount.amount_cents -ℤ dep.captured_cents =
      omega (int_laws, s.captured_high) in
    ground (arith, low, spent, some_cents)

taken_of_bounds :
    (l x : ℤ) → pos 1 ≤ℤ l → pos 1 ≤ℤ x → (pos 0 ≤ℤ taken_of l x) × (taken_of l x ≤ℤ x)
unfolding taken_of
taken_of_bounds l x a b = ground arith

capture_hold_books :
    (ports : Ports) (id : ℕ) (amount : ℤ) (reason : Text) (dispute_id : ℕ) (now : Time) (b : Books)
    (dep : DepositHold)
    → is_held dep.status ≡ true
    → IsSound dep
    → pos 1 ≤ℤ amount
    → Saves ports
    → let (b', result) = capture_hold ports id amount reason dispute_id now b dep in
      (took : ℤ) × (result ≡ ok took)
      × (took ≡ given dep amount)
      × (b'.calls ≡ asked dep took b.calls)
      × (pos 0 ≤ℤ took)
      × (took ≤ℤ amount)
      × (b'.payment ≡ b.payment)
      × (dep' : DepositHold) × (b'.deposit ≡ some dep')
      × (dep'.captured_cents ≡ dep.captured_cents +ℤ took)
unfolding capture_hold taken_of
capture_hold_books ports id amount reason dispute_id now b dep held s some_cents saves =
    elim (Bool-cases (leb_ℤ (remaining dep) (pos 0))) [
      | inl spent ↦
          let stored = saves.1 dep in
          let none_left : remaining dep ≤ℤ pos 0 = ground (arith, spent) in
          (
            pos 0,
            ground (arith, stored),
            sym (given_spent dep amount s some_cents (rw (remaining_exact dep s) at none_left)),
            ground (arith, stored),
            omega arith,
            omega (arith, some_cents),
            ground (arith, stored),
            dep,
            ground (arith, stored),
            sym (+ℤ_zero dep.captured_cents),
          )
      | inr room ↦
          let (c, took, is_taken, moved, same) =
            capture_partial_takes id amount reason dispute_kind dispute_id now dep held some_cents
              s in
          let dep' = (capture_partial id amount reason dispute_kind dispute_id now dep).0 in
          let stored = saves.1 dep' in
          let bounds = taken_of_bounds (remaining dep) amount (ground (arith, room)) some_cents in
          let is_min : c.taken ≡ taken_of (remaining dep) amount =
            is_taken ∙ ap (λ (l : ℤ). taken_of l amount) (sym (remaining_exact dep s)) in
          (
            c.taken,
            ground (arith, took, stored),
            is_taken,
            ground (arith, took, stored),
            rw is_min bounds.0,
            rw is_min bounds.1,
            ground (arith, took, stored),
            dep',
            ground (arith, took, stored),
            moved,
          )
    ]

-- On a booking with a payment and a sound deposit that is held, neither of which has an entry for
-- this dispute: if the award is a positive `int64`, the payment's claims are not negative and with
-- the award stay in an `int64`, and the repositories accept every row, the award succeeds. The
-- deposit gives what is left of it, or the award if that is less, and the rest becomes a claim on
-- the payment; neither is negative, and together they are exactly the award. The deposit's captured
-- total and the payment's claims grow by just these, and the gateway is asked to capture the hold,
-- once, exactly if the deposit gives something.
pub apply_damage_splits :
    (ports : Ports) (id id' : ℕ) (amount : ℤ) (reason : Text) (dispute_id : ℕ) (now : Time)
    (b : Books) (dep : DepositHold) (p : Payment)
    → b.deposit ≡ some dep
    → b.payment ≡ some p
    → is_held dep.status ≡ true
    → IsSound dep
    → Deposit.has_adjustment_for dispute_kind dispute_id dep ≡ false
    → has_adjustment_for damage_claim dispute_kind dispute_id p ≡ false
    → pos 1 ≤ℤ amount
    → Fits amount
    → pos 0 ≤ℤ p.damage_claim_cents
    → p.damage_claim_cents +ℤ amount ≤ℤ pos 9223372036854775807
    → Saves ports
    → let (b', result) = apply_damage ports id id' amount reason dispute_id now b in
      (took rest : ℤ) × (result ≡ ok (took, rest))
      × (took ≡ given dep amount)
      × (b'.calls ≡ asked dep took b.calls)
      × (took +ℤ rest ≡ amount)
      × (pos 0 ≤ℤ took)
      × (pos 0 ≤ℤ rest)
      × (dep' : DepositHold) × (b'.deposit ≡ some dep')
      × (dep'.captured_cents ≡ dep.captured_cents +ℤ took)
      × (p' : Payment) × (b'.payment ≡ some p')
      × (p'.damage_claim_cents ≡ p.damage_claim_cents +ℤ rest)
unfolding apply_damage then_claim
apply_damage_splits ports id id' amount reason dispute_id now b dep p drow prow held s fresh fresh'
      some_cents fits low room saves =
    let (took, answer, most, called, took_low, took_high, payment_kept, dep', drow', grown) =
      capture_hold_books ports id amount reason dispute_id now b dep held s some_cents saves in
    let b1 = (capture_hold ports id amount reason dispute_id now b dep).0 in
    let rest = amount -ℤ took in
    let exact : sub64 amount took ≡ rest =
      sub64_exact amount took (ground (arith, -ℤ_parts amount took, took_low, took_high, fits)) in
    let rest_low : pos 0 ≤ℤ rest = omega (int_laws, took_high) in
    let claim_fits : Fits (p.damage_claim_cents +ℤ rest) =
      Fits-of_bounds (p.damage_claim_cents +ℤ rest) (omega (int_laws, low, rest_low))
        (omega (int_laws, room, took_low)) in
    let (answer', same, no_call, p', prow', claimed) =
      claim_overflow_books ports id' took rest reason dispute_id now b1 p (payment_kept ∙ prow)
        fresh' claim_fits rest_low saves in
    (
      took,
      rest,
      ground (arith, answer, exact, answer'),
      most,
      ground (arith, answer, exact, no_call, called),
      omega int_laws,
      took_low,
      rest_low,
      dep',
      ground (arith, answer, exact, same, drow'),
      grown,
      p',
      ground (arith, answer, exact, prow'),
      claimed,
    )
