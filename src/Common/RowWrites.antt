-- ===== src/Common/RowWrites.antt =====
-- Tables of rows: what a write leaves as it was, and what is found after it.
use Prim.Native.Nat.{ℕ}
use mathlib.Core.Path.{◌≡◌, sym, subst}
use mathlib.Core.Logic.{◌≢◌, inl, inr}
use mathlib.Core.List.{List, [], ◌∷◌}
use native.Mathlib.Omega.{arith}
use airbnb.Common.Tests.{◌==◌, Bool-cases}
use airbnb.Common.Lists.{All, All-zip}
use airbnb.Common.Rows.{find_row, create_row, update_row, delete_row}
use airbnb.Common.Outcome.{ok, Result-cases, ok_inj}

module _ {A : Type 0} (key : A → ℕ) where
  -- What holds of all ids after a write held before, and holds of the new row's.
  pub updated_row_back :
      (P : ℕ → Type 0) (row : A) (rows : List A) {rows' : List A}
      → update_row key row rows ≡ ok rows'
      → All (λ x. P (key x)) rows'
      → All (λ x. P (key x)) rows × P (key row)
  unfolding update_row
  updated_row_back P row [] h a = cc
  updated_row_back P row (x ∷ rest) h a = elim (Bool-cases (key x == key row)) [
    | inl this ↦
        let same : key x ≡ key row = ground arith in
        let now = subst (All (λ y. P (key y))) (sym (ok_inj (rw this at h))) a in
        ((subst P (sym same) now.0, now.1), now.0)
    | inr other ↦ elim (Result-cases (update_row key row rest)) [
      | inl (rest', later) ↦
          let now = subst (All (λ y. P (key y))) (sym (ok_inj (rw (other, later) at h))) a in
          let (before, own) = updated_row_back P row rest later now.1 in ((now.0, before), own)
      | inr (e, stopped) ↦ cc (rw (other, stopped) at h)
    ]
  ]

  pub created_row_back :
      (P : ℕ → Type 0) (row : A) (rows : List A) {rows' : List A}
      → create_row key row rows ≡ ok rows'
      → All (λ x. P (key x)) rows'
      → All (λ x. P (key x)) rows × P (key row)
  unfolding create_row
  created_row_back P row [] h a =
      let now = subst (All (λ y. P (key y))) (sym (ok_inj h)) a in (tt, now.0)
  created_row_back P row (x ∷ rest) h a = elim (Bool-cases (key x == key row)) [
    | inl taken ↦ cc (rw taken at h)
    | inr free ↦ elim (Result-cases (create_row key row rest)) [
      | inl (rest', later) ↦
          let now = subst (All (λ y. P (key y))) (sym (ok_inj (rw (free, later) at h))) a in
          let (before, own) = created_row_back P row rest later now.1 in ((now.0, before), own)
      | inr (e, stopped) ↦ cc (rw (free, stopped) at h)
    ]
  ]

  -- A write leaves the rows under other ids.
  pub updated_row_elsewhere :
      (row : A) (id : ℕ) (rows : List A) {rows' : List A}
      → update_row key row rows ≡ ok rows'
      → key row ≢ id
      → find_row key id rows' ≡ find_row key id rows
  unfolding update_row find_row
  updated_row_elsewhere row id [] h differs = cc
  updated_row_elsewhere row id (x ∷ rest) h differs = elim (Bool-cases (key x == key row)) [
    | inl this ↦
        subst (λ r. find_row key id r ≡ find_row key id (x ∷ rest)) (ok_inj (rw this at h))
          (ground arith)
    | inr other ↦ elim (Result-cases (update_row key row rest)) [
      | inl (rest', later) ↦
          let ih = updated_row_elsewhere row id rest later differs in
          subst (λ r. find_row key id r ≡ find_row key id (x ∷ rest))
            (ok_inj (rw (other, later) at h)) (ground (arith, ih))
      | inr (e, stopped) ↦ cc (rw (other, stopped) at h)
    ]
  ]

  pub created_row_elsewhere :
      (row : A) (id : ℕ) (rows : List A) {rows' : List A} {x : A}
      → create_row key row rows ≡ ok rows'
      → find_row key id rows ≡ ok x
      → find_row key id rows' ≡ ok x
  unfolding create_row find_row
  created_row_elsewhere row id [] h found = cc
  created_row_elsewhere row id (y ∷ rest) {rows'} {x} h found =
      elim (Bool-cases (key y == key row)) [
        | inl taken ↦ cc (rw taken at h)
        | inr free ↦ elim (Result-cases (create_row key row rest)) [
          | inr (e, stopped) ↦ cc (rw (free, stopped) at h)
          | inl (rest', later) ↦
              let ih = created_row_elsewhere row id rest later in
              subst (λ r. find_row key id r ≡ ok x) (ok_inj (rw (free, later) at h))
                (elim (Bool-cases (key y == id)) [
                  | inl this ↦ rw this (rw this at found)
                  | inr other ↦ rw other (ih (rw other at found))
                ])
        ]
      ]

  pub deleted_row_elsewhere :
      (row_id id : ℕ) (rows : List A) {rows' : List A}
      → delete_row key row_id rows ≡ ok rows'
      → row_id ≢ id
      → find_row key id rows' ≡ find_row key id rows
  unfolding delete_row find_row
  deleted_row_elsewhere row_id id [] h differs = cc
  deleted_row_elsewhere row_id id (x ∷ rest) h differs = elim (Bool-cases (key x == row_id)) [
    | inl this ↦
        subst (λ r. find_row key id r ≡ find_row key id (x ∷ rest)) (ok_inj (rw this at h))
          (ground arith)
    | inr other ↦ elim (Result-cases (delete_row key row_id rest)) [
      | inl (rest', later) ↦
          let ih = deleted_row_elsewhere row_id id rest later differs in
          subst (λ r. find_row key id r ≡ find_row key id (x ∷ rest))
            (ok_inj (rw (other, later) at h)) (ground (arith, ih))
      | inr (e, stopped) ↦ cc (rw (other, stopped) at h)
    ]
  ]

  -- What was written is found.
  pub updated_row_found :
      (row : A) (rows : List A) {rows' : List A}
      → update_row key row rows ≡ ok rows'
      → find_row key (key row) rows' ≡ ok row
  unfolding update_row find_row
  updated_row_found row [] h = cc
  updated_row_found row (x ∷ rest) h = elim (Bool-cases (key x == key row)) [
    | inl this ↦
        subst (λ r. find_row key (key row) r ≡ ok row) (ok_inj (rw this at h)) (ground arith)
    | inr other ↦ elim (Result-cases (update_row key row rest)) [
      | inl (rest', later) ↦
          subst (λ r. find_row key (key row) r ≡ ok row) (ok_inj (rw (other, later) at h))
            (rw other (updated_row_found row rest later))
      | inr (e, stopped) ↦ cc (rw (other, stopped) at h)
    ]
  ]

  -- A row that is found can be written.
  pub update_row_accepts :
      (row : A) (rows : List A) {x : A}
      → find_row key (key row) rows ≡ ok x
      → (rows' : List A) × (update_row key row rows ≡ ok rows')
  unfolding update_row find_row
  update_row_accepts row [] h = cc
  update_row_accepts row (x ∷ rest) h = elim (Bool-cases (key x == key row)) [
    | inl this ↦ (row ∷ rest, rw this)
    | inr other ↦
        let (rest', later) = update_row_accepts row rest (rw other at h) in
        (x ∷ rest', rw (other, later))
  ]

  -- Under distinct ids each row is found, and the others keep theirs.
  abbrev pub Distinct : List A → Type 0
  Distinct [] = Unit
  Distinct (x ∷ rest) = All (λ y. key x ≢ key y) rest × Distinct rest

  pub found_row_self :
      (rows : List A) → Distinct rows → All (λ x. find_row key (key x) rows ≡ ok x) rows
  unfolding find_row
  found_row_self [] d = tt
  found_row_self (x ∷ rest) d =
      let here : find_row key (key x) (x ∷ rest) ≡ ok x = ground arith in
      (
        here,
        All-zip rest
            (λ y found differs. let apart : key x ≢ key y = differs in ground (arith, found))
            (found_row_self rest d.1) d.0,
      )
