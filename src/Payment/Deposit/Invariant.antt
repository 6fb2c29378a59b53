-- ===== src/Payment/Deposit/Invariant.antt =====
-- deposit.go: what a security deposit keeps through any sequence of calls.
use airbnb.Common.{
  ℤ, pos, ◌+ℤ◌, ◌-ℤ◌, ◌≤ℤ◌, ◌<ℤ◌, +ℤ_parts, -ℤ_parts, int_laws, Fits, sub64_exact, Text, Time, ok,
  ℕ, ◌≡◌, ◌⊎◌, true, arith, add64_exact, Bool-cases, pos_part, neg_part, leb_ℤ, eqb_ℤ, add64, refl,
  ap, ◌∙◌, inl, inr, none, some, List, [], ◌∷◌,
}
use airbnb.Shared.{Money}
use airbnb.Payment.Ledger.{deposit_capture, booked, booked-append}
use airbnb.Payment.Charge.{entry}
use airbnb.Payment.Deposit.{
  pending, authorized, partially_captured, captured, is_terminal, is_held, DepositHold,
  new_deposit_hold, authorize, fail, remaining, Captured, taken_of, take, capture_partial, release,
}

-- The hold's cents lie between nothing and its amount, the ledger adds up to them, and the status
-- says how they stand.
pub record IsSound (d : DepositHold) : Type 0 where
  pub amount_pos : pos 1 ≤ℤ d.amount.amount_cents
  pub amount_fits : Fits d.amount.amount_cents
  pub captured_low : pos 0 ≤ℤ d.captured_cents
  pub captured_high : d.captured_cents ≤ℤ d.amount.amount_cents
  pub ledger : booked deposit_capture d.adjustments ≡ d.captured_cents
  pub untouched : (d.status ≡ pending) ⊎ (d.status ≡ authorized) → d.captured_cents ≡ pos 0
  pub part : d.status ≡ partially_captured → d.captured_cents <ℤ d.amount.amount_cents
  pub full : d.status ≡ captured → d.captured_cents ≡ d.amount.amount_cents

-- A deposit that `NewDepositHold` makes from an `int64` amount is sound.
pub new_deposit_hold-IsSound :
    (id booking_id guest_id : ℕ) (m : Money) (now : Time) {d : DepositHold}
    → Fits m.amount_cents
    → new_deposit_hold id booking_id guest_id m now ≡ ok d
    → IsSound d
unfolding new_deposit_hold booked
new_deposit_hold-IsSound id booking_id guest_id m now f h = ground arith

captured-Fits : (d : DepositHold) → IsSound d → Fits d.captured_cents
captured-Fits d s = ground (arith, s.amount_fits, s.captured_low, s.captured_high)

pub remaining_exact :
    (d : DepositHold) → IsSound d → remaining d ≡ d.amount.amount_cents -ℤ d.captured_cents
unfolding remaining
remaining_exact d s = sub64_exact d.amount.amount_cents d.captured_cents (
    ground (
      arith,
      s.amount_fits,
      s.captured_low,
      s.captured_high,
      -ℤ_parts d.amount.amount_cents d.captured_cents,
    ))

taken_bounds :
    (left x : ℤ)
    → pos 0 ≤ℤ left
    → pos 1 ≤ℤ x
    → (pos 0 ≤ℤ taken_of left x) × (taken_of left x ≤ℤ left) × (taken_of left x ≤ℤ x)
unfolding taken_of
taken_bounds left x l h = ground arith

remaining_low : (d : DepositHold) → IsSound d → pos 0 ≤ℤ remaining d
remaining_low d s = rw (remaining_exact d s) (omega (int_laws, s.captured_high))

-- What is left after a capture, and that the capture stays within the hold.
record Takes (d : DepositHold) (taken : ℤ) : Type 0 where
  low : pos 0 ≤ℤ taken
  high : d.captured_cents +ℤ taken ≤ℤ d.amount.amount_cents
  exact : add64 d.captured_cents taken ≡ d.captured_cents +ℤ taken

Takes-of :
    (d : DepositHold) (taken : ℤ)
    → IsSound d
    → pos 0 ≤ℤ taken
    → taken ≤ℤ remaining d
    → Takes d taken
Takes-of d taken s low fit =
    let high : d.captured_cents +ℤ taken ≤ℤ d.amount.amount_cents =
      omega (int_laws, ap pos_part (remaining_exact d s), ap neg_part (remaining_exact d s)) in
    record {
      low = low;
      high = high;
      exact =
          add64_exact d.captured_cents taken
            (ground (arith, high, s.amount_fits, s.captured_low, +ℤ_parts d.captured_cents taken));
    }

module _ (taken : ℤ) (i : ℕ) (r k : Text) (j : ℕ) (now : Time) (d : DepositHold) where
  take_moves :
      Takes d taken
      → let (d', result) = take taken i r k j now d in
        (c : Captured) × (result ≡ ok c)
        × (c.taken ≡ taken)
        × (d'.captured_cents ≡ d.captured_cents +ℤ taken)
        × (d'.amount ≡ d.amount)
  unfolding take
  take_moves t = elim (Bool-cases (eqb_ℤ taken (pos 0))) [
    | inl zero_taken ↦ (
      record { adjustment = none; taken = pos 0 },
      ground arith,
      ground arith,
      ground (arith, +ℤ_parts d.captured_cents taken),
      ground arith,
    )
    | inr some_taken ↦ (
      record { adjustment = some (entry deposit_capture i taken r k j now d.id); taken = taken },
      ground arith,
      refl,
      ground (arith, t.exact),
      ground arith,
    )
  ]

  take-IsSound :
      is_held d.status ≡ true → IsSound d → Takes d taken → IsSound (take taken i r k j now d).0
  unfolding take
  take-IsSound a s t = ground (
    arith,
    t.exact,
    t.low,
    t.high,
    +ℤ_parts d.captured_cents taken,
    booked-append deposit_capture d.adjustments (entry deposit_capture i taken r k j now d.id),
  )

module _ (i : ℕ) (x : ℤ) (r k : Text) (j : ℕ) (now : Time) (d : DepositHold) where
  claim_Takes : pos 1 ≤ℤ x → IsSound d → Takes d (taken_of (remaining d) x)
  claim_Takes h s =
      let bounds = taken_bounds (remaining d) x (remaining_low d s) h in
      Takes-of d (taken_of (remaining d) x) s bounds.0 bounds.1

  -- On an active hold and a positive claim the call succeeds, takes the smaller of the claim and
  -- the amount less what was captured before, and moves exactly that into the captured total.
  pub capture_partial_takes :
      is_held d.status ≡ true
      → pos 1 ≤ℤ x
      → IsSound d
      → let (d', result) = capture_partial i x r k j now d in
        (c : Captured) × (result ≡ ok c)
        × (c.taken ≡ taken_of (d.amount.amount_cents -ℤ d.captured_cents) x)
        × (d'.captured_cents ≡ d.captured_cents +ℤ c.taken)
        × (d'.amount ≡ d.amount)
  unfolding capture_partial
  capture_partial_takes a h s =
      let (c, result, taken, moved, same) =
        take_moves (taken_of (remaining d) x) i r k j now d (claim_Takes h s) in
      (
        c,
        ground (arith, result),
        taken ∙ ap (λ (left : ℤ). taken_of left x) (remaining_exact d s),
        ground (arith, moved, taken),
        ground (arith, same),
      )

  capture_partial-IsSound : IsSound d → IsSound (capture_partial i x r k j now d).0
  unfolding capture_partial
  capture_partial-IsSound s = elim (Bool-cases (is_held d.status)) [
    | inr idle ↦ rw idle s
    | inl held ↦ elim (Bool-cases (leb_ℤ x (pos 0))) [
      | inl none_asked ↦ rw (held, none_asked) s
      | inr asked ↦
          rw (held, asked)
            (take-IsSound (taken_of (remaining d) x) i r k j now d held s
              (claim_Takes (ground arith) s))
    ]
  ]

pub data Op : Type 0 where
  authorizing failing : Text → Time → Op
  capturing : ℕ → ℤ → Text → Text → ℕ → Time → Op
  releasing : Time → Op

unfoldable pub apply : Op → DepositHold → DepositHold
apply (authorizing ref now) d = (authorize ref now d).0
apply (failing reason now) d = fail reason now d
apply (capturing i x r k j now) d = (capture_partial i x r k j now d).0
apply (releasing now) d = (release now d).0

unfoldable pub run : List Op → DepositHold → DepositHold
run [] d = d
run (op ∷ ops) d = run ops (apply op d)

apply-IsSound : (op : Op) (d : DepositHold) → IsSound d → IsSound (apply op d)
unfolding apply authorize fail release
apply-IsSound (authorizing ref now) d s = ground arith
apply-IsSound (failing reason now) d s = ground arith
apply-IsSound (capturing i x r k j now) d s = capture_partial-IsSound i x r k j now d s
apply-IsSound (releasing now) d s = ground arith

-- Every sequence of calls keeps a sound deposit sound: the captured cents stay between nothing and
-- the amount, equal the sum of the ledger's captures, and agree with the status.
pub hold_run-IsSound : (ops : List Op) (d : DepositHold) → IsSound d → IsSound (run ops d)
unfolding run
hold_run-IsSound [] d s = s
hold_run-IsSound (op ∷ ops) d s = hold_run-IsSound ops (apply op d) (apply-IsSound op d s)

-- A deposit in an end state: released, captured in full, or failed.
closed_apply :
    (op : Op) (d : DepositHold)
    → is_terminal d.status ≡ true
    → (is_terminal (apply op d).status ≡ true) × ((apply op d).captured_cents ≡ d.captured_cents)
unfolding apply authorize fail release capture_partial
closed_apply (authorizing ref now) d h = ground arith
closed_apply (failing reason now) d h = ground arith
closed_apply (capturing i x r k j now) d h = ground arith
closed_apply (releasing now) d h = ground arith

-- From an end state no sequence of calls leads back to a live hold, and no more money moves.
run_terminal :
    (ops : List Op) (d : DepositHold)
    → is_terminal d.status ≡ true
    → (is_terminal (run ops d).status ≡ true) × ((run ops d).captured_cents ≡ d.captured_cents)
unfolding run
run_terminal [] d h = (h, refl)
run_terminal (op ∷ ops) d h =
    let (closed, same) = closed_apply op d h in
    let (closed', same') = run_terminal ops (apply op d) closed in (closed', same' ∙ same)
