-- ===== src/Tax/Rule.antt =====
-- rule.go: one taxation directive.
use airbnb.Common.{
  ltb, ◌==◌, if◌then◌else◌, ℤ, pos, ltb_ℤ, leb_ℤ, eqb_ℤ, length, Text, is_empty, trim_space,
  to_upper, equal_fold, Time, validation, validation_of, Result, ok, ◌>>◌, fail_if, ℕ, Bool, true,
  false, not, ◌&&◌, ◌||◌, [],
}

-- A string that is none of the three kinds is kept as it is.
pub data Kind : Type 0 where
  percent per_night_per_guest per_stay : Kind
  unknown : Text → Kind

-- `Kind.Valid`
abbrev pub valid : Kind → Bool
valid (unknown _) = false
valid _ = true

-- `string(kind)`, as far as the constructor shows it.
abbrev pub spelled : Kind → Text
spelled (unknown s) = s
spelled _ = []

pub record Rule : Type 0 where
  pub id : ℕ
  pub name : Text
  pub kind : Kind
  pub country : Text
  pub city : Text
  pub currency : Text
  pub rate_pct_bips : ℤ
  pub flat_amount_cents : ℤ
  pub max_nights : ℤ
  pub effective_from : Time
  pub effective_until : Time

-- The `switch` of `NewRule`: each kind has its own knobs.
unfoldable pub check_knobs : Kind → ℤ → ℤ → ℤ → Result (Unit {0})
check_knobs percent rate flat max_nights = do
  fail_if (leb_ℤ rate (pos 0)) (validation "tax: percent rule needs rateBips > 0")
  fail_if (not (eqb_ℤ flat (pos 0)) || not (eqb_ℤ max_nights (pos 0)))
      (validation "tax: percent rule must not set flat/maxNights")
check_knobs per_night_per_guest rate flat max_nights = do
  fail_if (leb_ℤ flat (pos 0)) (validation "tax: per-night-per-guest rule needs flatCents > 0")
  fail_if (not (eqb_ℤ rate (pos 0)))
      (validation "tax: per-night-per-guest rule must not set rateBips")
  fail_if (ltb_ℤ max_nights (pos 0)) (validation "tax: maxNights cannot be negative")
check_knobs per_stay rate flat max_nights = do
  fail_if (leb_ℤ flat (pos 0)) (validation "tax: per-stay rule needs flatCents > 0")
  fail_if (not (eqb_ℤ rate (pos 0)) || not (eqb_ℤ max_nights (pos 0)))
      (validation "tax: per-stay rule must not set rateBips/maxNights")
check_knobs (unknown _) rate flat max_nights = ok tt

-- `NewRule`
unfoldable pub new_rule :
    ℕ → Text → Kind → Text → Text → Text → ℤ → ℤ → ℤ → Time → Time → Result Rule
unfolding check_knobs
new_rule id raw_name kind country city raw_currency rate flat max_nights from until =
    let name = trim_space raw_name in
    let currency = to_upper (trim_space raw_currency) in
    do
      fail_if (is_empty name) (validation "tax: name is required")
      fail_if (not (valid kind)) (validation_of "tax: unknown kind " (spelled kind))
      fail_if (not (length currency == 3)) (validation "tax: currency must be a 3-letter ISO code")
      check_knobs kind rate flat max_nights
      fail_if (not (from == 0) && not (until == 0) && not (ltb from until))
          (validation "tax: effectiveUntil must be after effectiveFrom")
      ok (record {
        id = id;
        name = name;
        kind = kind;
        country = to_upper (trim_space country);
        city = trim_space city;
        currency = currency;
        rate_pct_bips = rate;
        flat_amount_cents = flat;
        max_nights = max_nights;
        effective_from = from;
        effective_until = until;
      })

-- `Rule.Matches`, of a rule that is not nil.
unfoldable pub matches_stay : Text → Text → Time → Rule → Bool
matches_stay country city at r =
    if not (is_empty r.country) && not (equal_fold r.country country)
    then false
    else if not (is_empty r.city) && not (equal_fold r.city city)
    then false
    else if not (r.effective_from == 0) && ltb at r.effective_from
    then false
    else if not (r.effective_until == 0) && not (ltb at r.effective_until)
    then false
    else true
