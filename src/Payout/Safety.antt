-- ===== src/Payout/Safety.antt =====
-- service.go: what a reservation takes, and what is left after it.
use airbnb.Common.{
  ℤ, pos, pos_part, neg_part, ◌-ℤ◌, ◌≤ℤ◌, -ℤ_parts, int_laws, wrap64, sub64, wrap64_exact,
  sub64_exact, Text, Time, validation_of, ok, err, ℕ, ◌≡◌, refl, ap, ◌⊎◌, inl, inr, Option, none,
  some, ◌∷◌, arith, ◌+ℤ◌, text_eq_refl, ◌∙◌, List, All,
}
use airbnb.Shared.{new_money}
use airbnb.Payout.Entries.{
  Balance, net_cents, in_flight, Disbursement, new_disbursement, Ledger, balance_of,
}
use airbnb.Payout.Service.{available, reserve_disbursement, or_minus_one}
use airbnb.Payout.Sums.{
  earned, refunded, committed, disbursed_of-committed, balance_of-IsBalance, IsBalance,
}

-- An amount between nothing and 2 ^ 62 cents.
abbrev pub Bounded : ℤ → Type 0
Bounded a = (pos 0 ≤ℤ a) × (a ≤ℤ pos 4611686018427387904)

-- What is paid out or in flight was earned, and the sums leave room in an `int64`.
pub record IsCovered (host : ℕ) (cur : Text) (l : Ledger) : Type 0 where
  pub earned_bounded : Bounded (earned host cur l.entries)
  pub refunded_bounded : Bounded (refunded host cur l.entries)
  pub committed_low : pos 0 ≤ℤ committed host cur l.disbursements
  pub rows_low : All (λ d. pos 0 ≤ℤ d.amount_cents) l.disbursements
  pub committed_high : committed host cur l.disbursements ≤ℤ earned host cur l.entries

-- What is left to withdraw, as an integer.
abbrev pub left : ℕ → Text → Ledger → ℤ
left host cur l =
    earned host cur l.entries -ℤ refunded host cur l.entries -ℤ committed host cur l.disbursements

three_sums :
    (e r c : ℤ)
    → Bounded e
    → Bounded r
    → pos 0 ≤ℤ c
    → c ≤ℤ e
    → sub64 (sub64 (wrap64 e) (wrap64 r)) (wrap64 c) ≡ e -ℤ r -ℤ c
three_sums e r c be br low high =
    let first = sub64_exact e r (ground (arith, -ℤ_parts e r)) in
    let second = sub64_exact (e -ℤ r) c (ground (arith, -ℤ_parts e r, -ℤ_parts (e -ℤ r) c)) in
    rw (
      wrap64_exact e (ground arith),
      wrap64_exact r (ground arith),
      wrap64_exact c (ground arith),
      first,
      second,
    )

module _ (host : ℕ) (cur : Text) where
  -- The service's figure is the exact balance; with no entry there is none, and nothing is left.
  available_exact :
      (l : Ledger) (o : Option Balance)
      → balance_of host cur l.entries ≡ o
      → IsBalance host cur l.entries o
      → IsCovered host cur l
      → ((available host cur l ≡ some (left host cur l))
          ⊎ ((available host cur l ≡ none) × (left host cur l ≤ℤ pos 0)))
  unfolding available net_cents
  available_exact l none e b s = inr (
    rw (e, available),
    omega (
      int_laws,
      ap pos_part b.0,
      ap neg_part b.0,
      ap pos_part b.1,
      ap neg_part b.1,
      s.committed_low,
    ),
  )
  available_exact l (some b) e h s = inl (
      rw (e, available, h.0, h.1, disbursed_of-committed host cur l.disbursements)
        (ap some (
          three_sums (earned host cur l.entries) (refunded host cur l.entries)
            (committed host cur l.disbursements) s.earned_bounded s.refunded_bounded s.committed_low
            s.committed_high)))

  available_lem :
      (l : Ledger)
      → IsCovered host cur l
      → ((available host cur l ≡ some (left host cur l))
          ⊎ ((available host cur l ≡ none) × (left host cur l ≤ℤ pos 0)))
  available_lem l s =
      available_exact l (balance_of host cur l.entries) refl
        (balance_of-IsBalance host cur l.entries) s

  -- The row that a successful reservation inserts.
  pub reserve_row :
      (id : ℕ) (now : Time) (l : Ledger) {d : Disbursement}
      → (reserve_disbursement id host cur now l).1 ≡ ok d
      → ((reserve_disbursement id host cur now l).0
          ≡ record l { disbursements = d ∷ l.disbursements })
        × (d.amount_cents ≡ or_minus_one (available host cur l))
        × (pos 1 ≤ℤ d.amount_cents)
        × (d.status ≡ in_flight)
        × (d.host_id ≡ host)
        × (d.currency ≡ cur)
        × (d.id ≡ id)
  unfolding reserve_disbursement new_money new_disbursement
  reserve_row id now l h = ground arith

  -- With nothing left every request is refused and changes nothing.
  reserve_nothing :
      (id : ℕ) (now : Time) (l : Ledger)
      → IsCovered host cur l
      → left host cur l ≤ℤ pos 0
      → reserve_disbursement id host cur now l
        ≡ (l, err (validation_of "no funds available to pay out in " cur))
  unfolding reserve_disbursement
  reserve_nothing id now l s h = elim (available_lem l s) [
    | inl exact ↦ rw exact (ground arith)
    | inr (nothing, low) ↦ rw nothing
  ]

  pub committed-row :
      (d : Disbursement) (ds : List Disbursement)
      → d.host_id ≡ host
      → d.currency ≡ cur
      → d.status ≡ in_flight
      → committed host cur (d ∷ ds) ≡ d.amount_cents +ℤ committed host cur ds
  unfolding committed
  committed-row d ds h c s = rw (h, c, s) (ground (arith, text_eq_refl cur))

  pub reserved_amount :
      (l : Ledger) (x : ℤ)
      → IsCovered host cur l
      → x ≡ or_minus_one (available host cur l)
      → pos 1 ≤ℤ x
      → x ≡ left host cur l
  reserved_amount l x s e h = elim (available_lem l s) [
    | inl exact ↦ e ∙ ap or_minus_one exact
    | inr (nothing, low) ↦ absurd (ground (arith, nothing))
  ]

  pub reserved-IsCovered :
      (d : Disbursement) (l : Ledger)
      → IsCovered host cur l
      → committed host cur (d ∷ l.disbursements)
        ≡ left host cur l +ℤ committed host cur l.disbursements
      → pos 0 ≤ℤ left host cur l
      → pos 0 ≤ℤ d.amount_cents
      → IsCovered host cur (record l { disbursements = d ∷ l.disbursements })
        × (left host cur (record l { disbursements = d ∷ l.disbursements }) ≡ pos 0)
  reserved-IsCovered d l s sum low some_cents = (
    record {
      earned_bounded = s.earned_bounded;
      refunded_bounded = s.refunded_bounded;
      committed_low = rw sum (omega (int_laws, s.committed_low));
      rows_low = (some_cents, s.rows_low);
      committed_high = rw sum (omega (int_laws, s.refunded_bounded));
    },
    rw sum (omega int_laws),
  )

  -- A successful reservation takes exactly what is left, which is positive, as one row in flight;
  -- afterwards nothing is left, and a second request is refused and changes nothing.
  pub reserve_takes_all :
      (id id' : ℕ) (now now' : Time) (l : Ledger) {d : Disbursement}
      → IsCovered host cur l
      → (reserve_disbursement id host cur now l).1 ≡ ok d
      → let l' = (reserve_disbursement id host cur now l).0 in
        (l' ≡ record l { disbursements = d ∷ l.disbursements })
        × (d.amount_cents ≡ left host cur l)
        × (pos 1 ≤ℤ d.amount_cents)
        × (d.status ≡ in_flight)
        × (left host cur l' ≡ pos 0)
        × (reserve_disbursement id' host cur now' l'
            ≡ (l', err (validation_of "no funds available to pay out in " cur)))
  reserve_takes_all id id' now now' l {d} s h =
      let (row, amount, some_cents, flying, mine, in_cur, same_id) = reserve_row id now l h in
      let whole = reserved_amount l d.amount_cents s amount some_cents in
      let sum : committed host cur (d ∷ l.disbursements)
          ≡ left host cur l +ℤ committed host cur l.disbursements =
        committed-row d l.disbursements mine in_cur flying
        ∙ ap (λ (x : ℤ). x +ℤ committed host cur l.disbursements) whole in
      let low : pos 0 ≤ℤ left host cur l = rw (← whole) (omega (arith, some_cents)) in
      let (covered, empty) = reserved-IsCovered d l s sum low (omega (arith, some_cents)) in
      let l' : Ledger = record l { disbursements = d ∷ l.disbursements } in
      rw row (
        refl,
        whole,
        some_cents,
        flying,
        empty,
        reserve_nothing id' now' l' covered (rw empty (omega arith)),
      )
