-- ===== src/Tax/Laws.antt =====
-- calculator.go: what a quote is made of, whatever the order of the rules.
use mathlib.Core.List.{
  filter_map, filter_map-cons-none, filter_map-cons-some, Perm, append-nil, append_assoc,
}
use mathlib.Core.List.Perm
use airbnb.Common.{
  ℤ, pos, ◌+ℤ◌, +ℤ_comm, +ℤ_assoc, +ℤ_zero, ◌<ℤ◌, Fits, wrap64, add64, wrap64-add, wrap64_exact,
  wrap64-Fits, ok, ◌≡◌, refl, sym, ap, ◌∙◌, subst, inl, inr, false, none, some, List, [], ◌∷◌, ◌++◌,
  All, arith, Bool-cases, Option-cases, ok_inj, after-check,
}
use airbnb.Tax.Rule.{Rule, matches_stay}
use airbnb.Tax.Calculator.{
  StayInput, Line, Quote, line_of, gather, sort_lines, calculate, has_negative,
}
use airbnb.Tax.Service.{rules_for}
use airbnb.Tax.Sorting.{sum_cents, IsByName, sum_cents-perm, sort_lines-perm, sort_lines-IsByName}

-- One line for each rule that has one.
abbrev pub itemise : StayInput → List Rule → List Line
itemise stay = filter_map (line_of stay)

line_positive :
    (stay : StayInput) (r : Rule) {l : Line} → line_of stay r ≡ some l → pos 0 <ℤ l.line_cents
unfolding line_of
line_positive stay r h = ground arith

line_of-misfit :
    (stay : StayInput) (r : Rule)
    → matches_stay stay.country stay.city stay.check_in r ≡ false
    → line_of stay r ≡ none
unfolding line_of
line_of-misfit stay r h = rw h

gather_skips :
    (stay : StayInput) (r : Rule) (rest : List Rule) (lines : List Line) (total : ℤ)
    → line_of stay r ≡ none
    → gather stay (r ∷ rest) lines total ≡ gather stay rest lines total
unfolding gather
gather_skips stay r rest lines total skipped = rw (skipped, gather)

gather_takes :
    (stay : StayInput) (r : Rule) (rest : List Rule) (lines : List Line) (total : ℤ) {l : Line}
    → line_of stay r ≡ some l
    → gather stay (r ∷ rest) lines total
      ≡ gather stay rest (lines ++ l ∷ []) (add64 total l.line_cents)
unfolding gather
gather_takes stay r rest lines total has = rw (has, gather)

gather_lines :
    (stay : StayInput) (rules : List Rule) (lines : List Line) (total : ℤ)
    → (gather stay rules lines total).0 ≡ lines ++ itemise stay rules
unfolding gather
gather_lines stay [] lines total = unfold filter_map in sym (append-nil lines)
gather_lines stay (r ∷ rest) lines total = elim (Option-cases (line_of stay r)) [
  | inl skipped ↦
      rw
        (
          gather_skips stay r rest lines total skipped,
          filter_map-cons-none (line_of stay) r rest skipped,
        )
        (gather_lines stay rest lines total)
  | inr (l, has) ↦
      rw (gather_takes stay r rest lines total has, filter_map-cons-some (line_of stay) r rest has)
        (gather_lines stay rest (lines ++ l ∷ []) (add64 total l.line_cents)
          ∙ append_assoc lines (l ∷ []) (itemise stay rest))
]

gather_total :
    (stay : StayInput) (rules : List Rule) (lines : List Line) (total : ℤ)
    → Fits total
    → (gather stay rules lines total).1 ≡ wrap64 (total +ℤ sum_cents (itemise stay rules))
unfolding gather add64
gather_total stay [] lines total fits =
    unfold filter_map in sym (wrap64_exact total fits) ∙ ap wrap64 (sym (+ℤ_zero total))
gather_total stay (r ∷ rest) lines total fits = elim (Option-cases (line_of stay r)) [
  | inl skipped ↦
      rw
        (
          gather_skips stay r rest lines total skipped,
          filter_map-cons-none (line_of stay) r rest skipped,
        )
        (gather_total stay rest lines total fits)
  | inr (l, has) ↦
      let x = l.line_cents in
      let others = sum_cents (itemise stay rest) in
      rw (gather_takes stay r rest lines total has, filter_map-cons-some (line_of stay) r rest has)
        (gather_total stay rest (lines ++ l ∷ []) (wrap64 (total +ℤ x)) (wrap64-Fits (total +ℤ x))
          ∙ wrap64-add (total +ℤ x) others
          ∙ ap wrap64 (+ℤ_assoc total x others))
]

pub itemise-positive :
    (stay : StayInput) (rules : List Rule) → All (λ l. pos 0 <ℤ l.line_cents) (itemise stay rules)
itemise-positive stay [] = unfold filter_map in tt
itemise-positive stay (r ∷ rest) = elim (Option-cases (line_of stay r)) [
  | inl skipped ↦
      rw (filter_map-cons-none (line_of stay) r rest skipped) (itemise-positive stay rest)
  | inr (l, has) ↦
      rw (filter_map-cons-some (line_of stay) r rest has)
        (line_positive stay r has, itemise-positive stay rest)
]

-- What a quote is: its lines are those of the rules that have one, in the order of their names; the
-- total is their sum, in an `int64`.
pub record IsItemised (stay : StayInput) (rules : List Rule) (q : Quote) : Type 0 where
  pub same_lines : Perm q.lines (itemise stay rules)
  pub by_name : IsByName q.lines
  pub positive : All (λ l. pos 0 <ℤ l.line_cents) (itemise stay rules)
  pub sum : q.total_cents ≡ wrap64 (sum_cents q.lines)
  pub in_currency : q.currency ≡ stay.currency

calculated :
    (stay : StayInput) (rules : List Rule) {q : Quote}
    → calculate stay rules ≡ ok q
    → q ≡ record {
      lines = sort_lines (gather stay rules [] (pos 0)).0;
      total_cents = (gather stay rules [] (pos 0)).1;
      currency = stay.currency;
    }
unfolding calculate
calculated stay rules h = after-check _ _ _ h (λ _ e. sym (ok_inj e))

-- Every quote is itemised: a line for each rule that matches the stay in its currency and comes to
-- more than nothing, in the order of names, and the total is the sum of the lines.
pub calculate-IsItemised :
    (stay : StayInput) (rules : List Rule) {q : Quote}
    → calculate stay rules ≡ ok q
    → IsItemised stay rules q
calculate-IsItemised stay rules {q} h =
    let e = calculated stay rules h in
    let lines = gather_lines stay rules [] (pos 0) in
    let total = gather_total stay rules [] (pos 0) (omega arith) in
    let perm = sort_lines-perm (gather stay rules [] (pos 0)).0 in
    let same : Perm (sort_lines (gather stay rules [] (pos 0)).0) (itemise stay rules) =
      subst (λ ls. Perm (sort_lines (gather stay rules [] (pos 0)).0) ls) lines perm in
    subst (IsItemised stay rules) (sym e) (record {
      same_lines = same;
      by_name = sort_lines-IsByName (gather stay rules [] (pos 0)).0;
      positive = itemise-positive stay rules;
      sum =
          total
          ∙ ap wrap64 (+ℤ_comm (pos 0) (sum_cents (itemise stay rules)))
          ∙ ap wrap64 (+ℤ_zero (sum_cents (itemise stay rules)))
          ∙ ap wrap64 (sum_cents-perm (Perm.symm same));
      in_currency = refl;
    })

-- Only the stay decides whether there is a quote.
calculate_any :
    (stay : StayInput) (rules rules' : List Rule) {q : Quote}
    → calculate stay rules ≡ ok q
    → (q' : Quote) × (calculate stay rules' ≡ ok q')
unfolding calculate
calculate_any stay rules rules' h =
    let q' : Quote = record {
      lines = sort_lines (gather stay rules' [] (pos 0)).0;
      total_cents = (gather stay rules' [] (pos 0)).1;
      currency = stay.currency;
    } in
    elim (Bool-cases (has_negative stay)) [
      | inl wrong ↦ cc (rw wrong at h)
      | inr right ↦ (q', rw right)
    ]

-- If a list of rules has a quote, so has any rearrangement of it, with the same lines, up to their
-- order, and the same total.
pub calculate-perm :
    (stay : StayInput) (rules rules' : List Rule) {q : Quote}
    → Perm rules rules'
    → calculate stay rules ≡ ok q
    → (q' : Quote) × (calculate stay rules' ≡ ok q')
      × Perm q.lines q'.lines
      × (q'.total_cents ≡ q.total_cents)
calculate-perm stay rules rules' p h =
    let (q', again) = calculate_any stay rules rules' h in
    let first = calculate-IsItemised stay rules h in
    let second = calculate-IsItemised stay rules' again in
    let same =
      Perm.trans first.same_lines
        (Perm.trans (Perm.filter_map (line_of stay) p) (Perm.symm second.same_lines)) in
    (q', again, same, second.sum ∙ ap wrap64 (sym (sum_cents-perm same)) ∙ sym first.sum)

-- A scan of the repository drops only rules that have no line.
pub rules_for_itemised :
    (stay : StayInput) (rules : List Rule)
    → itemise stay (rules_for stay.country stay.city stay.check_in rules) ≡ itemise stay rules
unfolding rules_for
rules_for_itemised stay [] = refl
rules_for_itemised stay (r ∷ rest) =
    let ih = rules_for_itemised stay rest in
    elim (Bool-cases (matches_stay stay.country stay.city stay.check_in r)) [
      | inl fits ↦ elim (Option-cases (line_of stay r)) [
        | inl skipped ↦
            rw
              (
                fits,
                filter_map-cons-none (line_of stay) r rest skipped,
                filter_map-cons-none (line_of stay) r
                    (rules_for stay.country stay.city stay.check_in rest) skipped,
              )
              ih
        | inr (l, has) ↦
            rw
              (
                fits,
                filter_map-cons-some (line_of stay) r rest has,
                filter_map-cons-some (line_of stay) r
                    (rules_for stay.country stay.city stay.check_in rest) has,
              )
              (ap (λ ls. l ∷ ls) ih)
      ]
      | inr misfit ↦
          rw (misfit, filter_map-cons-none (line_of stay) r rest (line_of-misfit stay r misfit)) ih
    ]
