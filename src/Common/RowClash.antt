-- ===== src/Common/RowClash.antt =====
-- Tables of rows: ids are keys, and no two rows clash.
use Prim.Native.Nat.{ℕ}
use mathlib.Core.Path.{◌≡◌, refl, sym, subst, ◌∙◌}
use mathlib.Core.Logic.{◌≢◌, inl, inr}
use mathlib.Core.Bool.{Bool, false}
use mathlib.Core.List.{List, [], ◌∷◌}
use native.Mathlib.Omega.{arith}
use airbnb.Common.Tests.{◌==◌, Bool-cases}
use airbnb.Common.Lists.{All, All-map, All-zip}
use airbnb.Common.Rows.{
  find_row, create_row, update_row, found_row-All, created_row-All, updated_row-All,
}
use airbnb.Common.RowWrites.{Distinct}
use airbnb.Common.Outcome.{ok, Result-cases, ok_inj}

module _ {A : Type 0} (key : A → ℕ) where
  -- Ids are keys, and no two rows clash.
  module _ (clash : A → A → Bool) where
    abbrev pub RowsApart : A → A → Type 0
    RowsApart x y = (key x ≢ key y) × (clash x y ≡ false)

    abbrev pub NoClash : List A → Type 0
    NoClash [] = Unit
    NoClash (x ∷ rest) = All (RowsApart x) rest × NoClash rest

    -- What must hold of a new version of a row.
    abbrev pub ClearOf : A → List A → Type 0
    ClearOf row rows = All (λ x. key x ≢ key row → clash row x ≡ false) rows

    pub NoClash-Distinct : (rows : List A) → NoClash rows → Distinct key rows
    NoClash-Distinct [] c = tt
    NoClash-Distinct (x ∷ rest) c =
        (All-map rest (λ y apart. apart.0) c.0, NoClash-Distinct rest c.1)

    -- Replacing the one row with an id.
    pub replaced_row-All :
        (Q : A → Type 0) (row : A) (rows : List A) {rows' : List A}
        → update_row key row rows ≡ ok rows'
        → NoClash rows
        → Q row
        → All (λ x. key x ≢ key row → Q x) rows
        → All Q rows'
    unfolding update_row
    replaced_row-All Q row [] h c q a = cc
    replaced_row-All Q row (x ∷ rest) h c q a = elim (Bool-cases (key x == key row)) [
      | inl this ↦
          let same : key x ≡ key row = ground arith in
          subst (All Q) (ok_inj (rw this at h))
            (q, All-zip rest (λ y keep apart. keep (λ e. apart.0 (same ∙ sym e))) a.1 c.0)
      | inr other ↦ elim (Result-cases (update_row key row rest)) [
        | inl (rest', later) ↦
            let differs : key x ≢ key row = ground arith in
            subst (All Q) (ok_inj (rw (other, later) at h))
              (a.0 differs, replaced_row-All Q row rest later c.1 q a.1)
        | inr (e, stopped) ↦ cc (rw (other, stopped) at h)
      ]
    ]

    module _ (clash_sym : (x y : A) → clash x y ≡ clash y x) where
      pub created_row-NoClash :
          (row : A) (rows : List A) {rows' : List A}
          → create_row key row rows ≡ ok rows'
          → ClearOf row rows
          → NoClash rows
          → NoClash rows'
      unfolding create_row
      created_row-NoClash row [] h clear c = subst NoClash (ok_inj h) (tt, tt)
      created_row-NoClash row (x ∷ rest) h clear c = elim (Bool-cases (key x == key row)) [
        | inl taken ↦ cc (rw taken at h)
        | inr free ↦ elim (Result-cases (create_row key row rest)) [
          | inl (rest', later) ↦
              let differs : key x ≢ key row = ground arith in
              subst NoClash (ok_inj (rw (free, later) at h)) (
                created_row-All key (RowsApart x) row rest later
                    (differs, clash_sym x row ∙ clear.0 differs) c.0,
                created_row-NoClash row rest later clear.1 c.1,
              )
          | inr (e, stopped) ↦ cc (rw (free, stopped) at h)
        ]
      ]

      -- A found row clashes with no other.
      pub found_row-ClearOf :
          (id : ℕ) (rows : List A) {x : A}
          → find_row key id rows ≡ ok x
          → NoClash rows
          → ClearOf x rows
      unfolding find_row
      found_row-ClearOf id [] h c = tt
      found_row-ClearOf id (y ∷ rest) {x} h c = elim (Bool-cases (key y == id)) [
        | inl this ↦
            subst (λ z. ClearOf z (y ∷ rest)) (ok_inj (rw this at h))
              ((λ other. absurd (other refl)), All-map rest (λ z apart. λ other. apart.1) c.0)
        | inr other ↦
            let (apart, same) = found_row-All key (RowsApart y) id rest (rw other at h) c.0 in
            ((λ _. clash_sym x y ∙ apart.1), found_row-ClearOf id rest (rw other at h) c.1)
      ]

      -- A row that clashes with no other can be written.
      pub updated_row-NoClash :
          (row : A) (rows : List A) {rows' : List A}
          → update_row key row rows ≡ ok rows'
          → ClearOf row rows
          → NoClash rows
          → NoClash rows'
      unfolding update_row
      updated_row-NoClash row [] h clear c = cc
      updated_row-NoClash row (x ∷ rest) h clear c = elim (Bool-cases (key x == key row)) [
        | inl this ↦
            let same : key x ≡ key row = ground arith in
            subst NoClash (ok_inj (rw this at h)) (
              All-zip rest
                  (λ y apart free. ((λ e. apart.0 (same ∙ e)), free (λ e. apart.0 (same ∙ sym e))))
                  c.0 clear.1,
              c.1,
            )
        | inr other ↦
            let apart : key x ≢ key row = ground arith in
            elim (Result-cases (update_row key row rest)) [
              | inl (rest', later) ↦ subst NoClash (ok_inj (rw (other, later) at h)) (
                updated_row-All key (RowsApart x) row rest later
                    (apart, clash_sym x row ∙ clear.0 apart) c.0,
                updated_row-NoClash row rest later clear.1 c.1,
              )
              | inr (e, stopped) ↦ cc (rw (other, stopped) at h)
            ]
      ]
