-- ===== src/Common/Rows.antt =====
-- A table of rows with an id, as the in-memory repositories keep it: a Go map, visited in any order,
-- for which a list stands.
use Prim.Native.Nat.{ℕ}
use mathlib.Core.Path.{◌≡◌, subst}
use mathlib.Core.Logic.{◌≢◌, inl, inr}
use mathlib.Core.List.{List, [], ◌∷◌}
use native.Mathlib.Omega.{arith}
use airbnb.Common.Tests.{◌==◌, if◌then◌else◌, Bool-cases}
use airbnb.Common.Lists.{All}
use airbnb.Common.Outcome.{not_found, conflict, Result, ok, err, ◌>>=◌, Result-cases, ok_inj}

module _ {A : Type 0} (key : A → ℕ) where
  -- `FindByID`
  unfoldable pub find_row : ℕ → List A → Result A
  find_row id [] = err not_found
  find_row id (x ∷ rest) = if key x == id then ok x else find_row id rest

  -- `Create`, which refuses an id that is taken.
  unfoldable pub create_row : A → List A → Result (List A)
  create_row row [] = ok (row ∷ [])
  create_row row (x ∷ rest) =
      let later = create_row row rest in
      if key x == key row then err conflict else (later >>= (λ rest'. ok (x ∷ rest')))

  -- `Update`, which overwrites the row with that id.
  unfoldable pub update_row : A → List A → Result (List A)
  update_row row [] = err not_found
  update_row row (x ∷ rest) =
      let later = update_row row rest in
      if key x == key row then ok (row ∷ rest) else (later >>= (λ rest'. ok (x ∷ rest')))

  -- `Delete`
  unfoldable pub delete_row : ℕ → List A → Result (List A)
  delete_row id [] = err not_found
  delete_row id (x ∷ rest) =
      let later = delete_row id rest in
      if key x == id then ok rest else (later >>= (λ rest'. ok (x ∷ rest')))

  All-true : (rows : List A) → All (λ x. Unit {0}) rows
  All-true [] = tt
  All-true (x ∷ rest) = (tt, All-true rest)

  pub found_row-All {κ} :
      (P : A → Type κ) (id : ℕ) (rows : List A) {x : A}
      → find_row id rows ≡ ok x
      → All P rows
      → P x × (key x ≡ id)
  unfolding find_row
  found_row-All P id [] h a = cc
  found_row-All P id (y ∷ rest) h a = elim (Bool-cases (key y == id)) [
    | inl this ↦
        let same = ok_inj (rw this at h) in subst (λ z. P z × (key z ≡ id)) same (a.0, ground arith)
    | inr other ↦ found_row-All P id rest (rw other at h) a.1
  ]

  pub found_row_key : (id : ℕ) (rows : List A) {x : A} → find_row id rows ≡ ok x → key x ≡ id
  found_row_key id rows h = (found_row-All (λ z. Unit {0}) id rows h (All-true rows)).1

  -- A row that is found is found under its own id.
  pub found_row_own :
      (id : ℕ) (rows : List A) {x : A} → find_row id rows ≡ ok x → find_row (key x) rows ≡ ok x
  unfolding find_row
  found_row_own id [] h = cc
  found_row_own id (y ∷ rest) {x} h = elim (Bool-cases (key y == id)) [
    | inl this ↦
        let same = ok_inj (rw this at h) in
        subst (λ z. find_row (key z) (y ∷ rest) ≡ ok z) same (ground arith)
    | inr other ↦
        let ih = found_row_own id rest (rw other at h) in
        let found : find_row id rest ≡ ok x = rw other at h in
        let own = found_row_key id rest found in ground (arith, ih, own)
  ]

  -- A new row goes beside the others.
  pub created_row-All {κ} :
      (P : A → Type κ) (row : A) (rows : List A) {rows' : List A}
      → create_row row rows ≡ ok rows'
      → P row
      → All P rows
      → All P rows'
  unfolding create_row
  created_row-All P row [] h p a = subst (All P) (ok_inj h) (p, tt)
  created_row-All P row (x ∷ rest) h p a = elim (Bool-cases (key x == key row)) [
    | inl taken ↦ cc (rw taken at h)
    | inr free ↦ elim (Result-cases (create_row row rest)) [
      | inl (rest', later) ↦
          subst (All P) (ok_inj (rw (free, later) at h))
            (a.0, created_row-All P row rest later p a.1)
      | inr (e, stopped) ↦ cc (rw (free, stopped) at h)
    ]
  ]

  -- A row is created only under an id that no row has.
  pub created_row_fresh :
      (row : A) (rows : List A) {rows' : List A}
      → create_row row rows ≡ ok rows'
      → All (λ x. key x ≢ key row) rows
  unfolding create_row
  created_row_fresh row [] h = tt
  created_row_fresh row (x ∷ rest) h = elim (Bool-cases (key x == key row)) [
    | inl taken ↦ cc (rw taken at h)
    | inr free ↦ elim (Result-cases (create_row row rest)) [
      | inl (rest', later) ↦ (ground arith, created_row_fresh row rest later)
      | inr (e, stopped) ↦ cc (rw (free, stopped) at h)
    ]
  ]

  pub updated_row-All {κ} :
      (P : A → Type κ) (row : A) (rows : List A) {rows' : List A}
      → update_row row rows ≡ ok rows'
      → P row
      → All P rows
      → All P rows'
  unfolding update_row
  updated_row-All P row [] h p a = cc
  updated_row-All P row (x ∷ rest) h p a = elim (Bool-cases (key x == key row)) [
    | inl this ↦ subst (All P) (ok_inj (rw this at h)) (p, a.1)
    | inr other ↦ elim (Result-cases (update_row row rest)) [
      | inl (rest', later) ↦
          subst (All P) (ok_inj (rw (other, later) at h))
            (a.0, updated_row-All P row rest later p a.1)
      | inr (e, stopped) ↦ cc (rw (other, stopped) at h)
    ]
  ]

  pub deleted_row-All {κ} :
      (P : A → Type κ) (id : ℕ) (rows : List A) {rows' : List A}
      → delete_row id rows ≡ ok rows'
      → All P rows
      → All P rows'
  unfolding delete_row
  deleted_row-All P id [] h a = cc
  deleted_row-All P id (x ∷ rest) h a = elim (Bool-cases (key x == id)) [
    | inl this ↦ subst (All P) (ok_inj (rw this at h)) a.1
    | inr other ↦ elim (Result-cases (delete_row id rest)) [
      | inl (rest', later) ↦
          subst (All P) (ok_inj (rw (other, later) at h)) (a.0, deleted_row-All P id rest later a.1)
      | inr (e, stopped) ↦ cc (rw (other, stopped) at h)
    ]
  ]
