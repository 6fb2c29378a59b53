-- ===== src/SplitPayment/Plan.antt =====
-- splitpayment.go: every plan that `New` accepts is fair: it covers the total, each payer once.
use airbnb.Common.{
  if◌then◌else◌, length, All, All-append, ℤ, pos, ◌+ℤ◌, ◌≤ℤ◌, int_laws, wrap64, add64, wrap64-add,
  Text, text_eq, text_eq_comm, Time, ok, ℕ, ◌+◌, ◌≡◌, refl, sym, ◌∙◌, true, false, List, [], ◌∷◌,
  ◌++◌, arith, length-append, eqb_ℤ, eq_of_parts, +ℤ_zero, Fits, is_empty, Result-cases, suc, ◌≤◌,
  inl, inr, wrap64_exact,
}
use airbnb.SplitPayment.{share_pending, Share, any_payer, pending, SplitPayment, fold_email}
use airbnb.SplitPayment.Create.{
  ShareInput, Seeded, seen, seed_shares, fresh_share, nothing_seeded, new_split,
}

-- The sum of the shares, as integers.
unfoldable pub total_of : List Share → ℤ
total_of [] = pos 0
total_of (s ∷ rest) = s.amount_cents +ℤ total_of rest

-- The sum that the inputs ask for.
unfoldable pub asked : List ShareInput → ℤ
asked [] = pos 0
asked (s ∷ rest) = s.asked_cents +ℤ asked rest

-- No address pays twice.
abbrev pub Distinct : List Share → Type 0
Distinct [] = Unit
Distinct (s ∷ rest) = (any_payer s.payer_email rest ≡ false) × Distinct rest

abbrev pub IsFresh : Share → Type 0
IsFresh s = (s.status ≡ share_pending) × (pos 1 ≤ℤ s.amount_cents)

total_of-append :
    (out : List Share) (s : Share) → total_of (out ++ s ∷ []) ≡ total_of out +ℤ s.amount_cents
unfolding total_of
total_of-append [] s = omega int_laws
total_of-append (x ∷ out) s = rw (total_of-append out s) (omega int_laws)

any_payer-append :
    (e : Text) (out : List Share) (s : Share)
    → any_payer e (out ++ s ∷ []) ≡ (if text_eq s.payer_email e then true else any_payer e out)
unfolding any_payer
any_payer-append e [] s = refl
any_payer-append e (x ∷ out) s = ground (arith, any_payer-append e out s)

Distinct-append :
    (out : List Share) (s : Share)
    → Distinct out
    → any_payer s.payer_email out ≡ false
    → Distinct (out ++ s ∷ [])
unfolding any_payer
Distinct-append [] s d h = (refl, tt)
Distinct-append (x ∷ out) s d h = (
  ground
      (arith, any_payer-append x.payer_email out s, text_eq_comm x.payer_email s.payer_email, d.0),
  Distinct-append out s d.1 (ground (arith, h)),
)

-- What the loop keeps of its accumulator.
record IsSeeding (organizer : Text) (acc : Seeded) : Type 0 where
  emails_match : (e : Text) → seen e acc.emails ≡ any_payer e acc.out
  distinct : Distinct acc.out
  sums : acc.sum ≡ wrap64 (total_of acc.out)
  fresh : All IsFresh acc.out
  included : acc.organizer_included ≡ any_payer organizer acc.out

module _ (organizer : Text) (acc : Seeded) (s : Share) where
  abbrev extended : Seeded
  extended = record {
    emails = s.payer_email ∷ acc.emails;
    sum = add64 acc.sum s.amount_cents;
    organizer_included = if text_eq s.payer_email organizer then true else acc.organizer_included;
    out = acc.out ++ s ∷ [];
  }

  extended-IsSeeding :
      seen s.payer_email acc.emails ≡ false
      → IsFresh s
      → IsSeeding organizer acc
      → IsSeeding organizer extended
  unfolding seen add64
  extended-IsSeeding new_payer ready h = record {
    emails_match = λ e. ground (arith, any_payer-append e acc.out s, h.emails_match e);
    distinct =
        Distinct-append acc.out s h.distinct (sym (h.emails_match s.payer_email) ∙ new_payer);
    sums = rw (h.sums, wrap64-add, total_of-append acc.out s);
    fresh = All-append IsFresh acc.out (s ∷ []) h.fresh (ready, tt);
    included = ground (arith, any_payer-append organizer acc.out s, h.included);
  }

module _ (fresh : ℕ → ℕ) (split_id : ℕ) (organizer : Text) (now : Time) where
  -- The guards that a round has passed, and the call that it goes on with.
  seed_guards :
      (i : ℕ) (acc : Seeded) (s : ShareInput) (rest : List ShareInput) {acc' : Seeded}
      → seed_shares fresh split_id organizer now i acc (s ∷ rest) ≡ ok acc'
      → (is_empty (fold_email s.email) ≡ false)
        × (seen (fold_email s.email) acc.emails ≡ false)
        × (pos 1 ≤ℤ s.asked_cents)
  unfolding seed_shares
  seed_guards i acc s rest h = ground arith

  seed_rest :
      (i : ℕ) (acc : Seeded) (s : ShareInput) (rest : List ShareInput) {acc' : Seeded}
      → seed_shares fresh split_id organizer now i acc (s ∷ rest) ≡ ok acc'
      → seed_shares fresh split_id organizer now
          (suc i)
          (extended organizer acc
            (fresh_share (fresh i) split_id (fold_email s.email) s.asked_cents now))
          rest
        ≡ ok acc'
  unfolding seed_shares
  seed_rest i acc s rest h = ground arith

  regroup :
      (acc : Seeded) (share : Share) (rest : List ShareInput)
      → total_of (acc.out ++ share ∷ []) +ℤ asked rest
        ≡ total_of acc.out +ℤ (share.amount_cents +ℤ asked rest)
  regroup acc share rest = rw (total_of-append acc.out share) (omega int_laws)

  seed_shares-IsSeeding :
      (i : ℕ) (acc : Seeded) (shares : List ShareInput) {acc' : Seeded}
      → seed_shares fresh split_id organizer now i acc shares ≡ ok acc'
      → IsSeeding organizer acc
      → IsSeeding organizer acc'
        × (total_of acc'.out ≡ total_of acc.out +ℤ asked shares)
        × (length acc'.out ≡ length acc.out + length shares)
  unfolding seed_shares asked
  seed_shares-IsSeeding i acc [] {acc'} h good =
      let same : acc ≡ acc' = ground (arith, h) in
      rw (← same) (good, sym (+ℤ_zero (total_of acc.out)), omega arith)
  seed_shares-IsSeeding i acc (s ∷ rest) {acc'} h good =
      let email = fold_email s.email in
      let share = fresh_share (fresh i) split_id email s.asked_cents now in
      let (blank, again, amount) = seed_guards i acc s rest h in
      let next = extended organizer acc share in
      let (good', total, count) =
        seed_shares-IsSeeding (suc i) next rest (seed_rest i acc s rest h)
          (extended-IsSeeding organizer acc share again (refl, amount) good) in
      (
        good',
        total ∙ regroup acc share rest,
        omega (arith, length-append {0} acc.out (share ∷ []), count),
      )

-- What `New` promises of the plan that it returns.
pub record IsPlan (organizer : Text) (total : ℤ) (sp : SplitPayment) : Type 0 where
  pub open_plan : sp.status ≡ pending
  pub several : 2 ≤ length sp.shares
  pub positive_total : pos 1 ≤ℤ sp.total_cents
  pub total_kept : sp.total_cents ≡ total
  pub covered : total_of sp.shares ≡ sp.total_cents
  pub each_once : Distinct sp.shares
  pub all_fresh : All IsFresh sp.shares
  pub organizer_pays : any_payer organizer sp.shares ≡ true

eqb_ℤ→eq : (a b : ℤ) → eqb_ℤ a b ≡ true → a ≡ b
eqb_ℤ→eq a b h = eq_of_parts a b (ground (arith, h))

nothing-IsSeeding : (organizer : Text) → IsSeeding organizer nothing_seeded
unfolding seen any_payer total_of
nothing-IsSeeding organizer = record {
  emails_match = λ e. refl;
  distinct = tt;
  sums = sym (wrap64_exact (pos 0) (omega arith));
  fresh = tt;
  included = refl;
}

zero_plus : (a : ℤ) → total_of [] +ℤ a ≡ a
unfolding total_of
zero_plus a = omega int_laws

module _ (fresh : ℕ → ℕ) (split_id booking_id organizer_id : ℕ)
    (organizer_email currency : Text) where
  -- If the amounts asked for have a sum that an `int64` holds, a plan that `New` accepts is
  -- pending, has two shares or more, each pending, positive and for an address of its own, one of
  -- them the organizer's, and the shares add up exactly to the booking's total.
  pub new_split-IsPlan :
      (total : ℤ) (shares : List ShareInput) (now : Time) {sp : SplitPayment}
      → Fits (asked shares)
      → new_split fresh split_id booking_id organizer_id organizer_email currency total shares now
        ≡ ok sp
      → IsPlan (fold_email organizer_email) total sp
  unfolding new_split
  new_split-IsPlan total shares now {sp} fits h =
      elim (Result-cases
        (seed_shares fresh split_id (fold_email organizer_email) now 0 nothing_seeded shares)) [
          | inr (e, stopped) ↦ ground arith
          | inl (acc, seeded) ↦
              let (good, sum, count) =
                seed_shares-IsSeeding fresh split_id (fold_email organizer_email) now 0
                  nothing_seeded shares seeded (nothing-IsSeeding (fold_email organizer_email)) in
              let whole : total_of acc.out ≡ asked shares = sum ∙ zero_plus (asked shares) in
              let exact : acc.sum ≡ total_of acc.out =
                good.sums ∙ wrap64_exact (total_of acc.out) (rw whole fits) in
              let meets = eqb_ℤ→eq acc.sum total in
              let kept : sp.shares ≡ acc.out = ground arith in
              record {
                open_plan = ground arith;
                several = ground (arith, count);
                positive_total = ground arith;
                total_kept = ground arith;
                covered = ground (arith, exact, meets);
                each_once = rw kept good.distinct;
                all_fresh = rw kept good.fresh;
                organizer_pays = ground (arith, good.included);
              }
        ]
