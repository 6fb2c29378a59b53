-- ===== src/Tax/Calculator.antt =====
-- calculator.go: the itemised quote. No rule of the list is nil, as no repository returns one.
use airbnb.Common.{
  ltb, ◌==◌, if◌then◌else◌, ℤ, pos, ltb_ℤ, leb_ℤ, add64, mul64, quot_ℕ, Text, text_eq, Time,
  validation, Result, ok, ◌>>◌, fail_if, ℕ, Bool, true, false, not, ◌&&◌, ◌||◌, Option, none, some,
  List, [], ◌∷◌, ◌++◌,
}
use airbnb.Tax.Rule.{Kind, percent, per_night_per_guest, per_stay, unknown, Rule, matches_stay}

pub record StayInput : Type 0 where
  pub country : Text
  pub city : Text
  pub check_in : Time
  pub nights : ℤ
  pub guests : ℤ
  pub subtotal_cents : ℤ
  pub currency : Text

pub record Line : Type 0 where
  pub rule_id : ℕ
  pub name : Text
  pub kind : Kind
  pub line_cents : ℤ

pub record Quote : Type 0 where
  pub lines : List Line
  pub total_cents : ℤ
  pub currency : Text

-- The nights charged by a rule with a cap.
unfoldable pub capped_nights : ℤ → ℤ → ℤ
capped_nights nights max_nights =
    if ltb_ℤ (pos 0) max_nights && ltb_ℤ max_nights nights then max_nights else nights

apply_kind : Kind → StayInput → Rule → ℤ
apply_kind percent stay r = quot_ℕ (mul64 stay.subtotal_cents r.rate_pct_bips) 10000
apply_kind per_night_per_guest stay r =
    mul64 (mul64 r.flat_amount_cents (capped_nights stay.nights r.max_nights)) stay.guests
apply_kind per_stay stay r = r.flat_amount_cents
apply_kind (unknown _) stay r = pos 0

-- `Rule.applyTo`
unfoldable pub apply_to : StayInput → Rule → ℤ
unfolding apply_kind capped_nights
apply_to stay r = apply_kind r.kind stay r

-- The line of a rule, if it has one: three tests skip it.
unfoldable pub line_of : StayInput → Rule → Option Line
line_of stay r =
    if not (matches_stay stay.country stay.city stay.check_in r)
    then none
    else if not (text_eq r.currency stay.currency)
    then none
    else if leb_ℤ (apply_to stay r) (pos 0)
    then none
    else some
        (record { rule_id = r.id; name = r.name; kind = r.kind; line_cents = apply_to stay r })

-- The loop of `Calculate`.
unfoldable pub gather : StayInput → List Rule → List Line → ℤ → List Line × ℤ
gather stay [] lines total = (lines, total)
gather stay (r ∷ rest) lines total = elim (line_of stay r) [
  | none ↦ gather stay rest lines total
  | some l ↦ gather stay rest (lines ++ l ∷ []) (add64 total l.line_cents)
]

-- `<` on strings, by bytes.
abbrev pub text_ltb : Text → Text → Bool
text_ltb [] [] = false
text_ltb [] (_ ∷ _) = true
text_ltb (_ ∷ _) [] = false
text_ltb (a ∷ s) (b ∷ t) = ltb a b || a == b && text_ltb s t

-- `sort.Slice` by name. It need not keep the order of equal names; nothing is said of it.
unfoldable pub insert_line : Line → List Line → List Line
insert_line l [] = l ∷ []
insert_line l (x ∷ rest) =
    let later = insert_line l rest in if text_ltb x.name l.name then x ∷ later else l ∷ x ∷ rest

unfoldable pub sort_lines : List Line → List Line
sort_lines [] = []
sort_lines (l ∷ rest) = insert_line l (sort_lines rest)

abbrev pub has_negative : StayInput → Bool
has_negative stay =
    ltb_ℤ stay.nights (pos 0) || ltb_ℤ stay.guests (pos 0) || ltb_ℤ stay.subtotal_cents (pos 0)

-- `Calculate`
unfoldable pub calculate : StayInput → List Rule → Result Quote
calculate stay rules =
    let gathered = gather stay rules [] (pos 0) in
    fail_if (has_negative stay) (validation "tax: stay inputs must be non-negative")
    >> ok (record {
      lines = sort_lines gathered.0;
      total_cents = gathered.1;
      currency = stay.currency;
    })
