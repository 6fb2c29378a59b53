-- ===== src/Tax/Sorting.antt =====
-- calculator.go: the sum of the lines, and the order of their names.
use mathlib.Core.List.{foldr, Perm}
use mathlib.Core.List.Perm
use airbnb.Common.{
  ℤ, pos, ◌+ℤ◌, int_laws, Text, ◌≡◌, refl, inl, inr, true, false, List, [], ◌∷◌, All, All-map,
  arith, Bool-cases,
}
use airbnb.Tax.Calculator.{Line, text_ltb, insert_line, sort_lines}

-- The exact sum of the lines.
abbrev pub sum_cents : List Line → ℤ
sum_cents = foldr (λ l total. l.line_cents +ℤ total) (pos 0)

insert_line-perm : (l : Line) (lines : List Line) → Perm (insert_line l lines) (l ∷ lines)
unfolding insert_line
insert_line-perm l [] = Perm.refl (l ∷ [])
insert_line-perm l (x ∷ rest) = elim (Bool-cases (text_ltb x.name l.name)) [
  | inl before ↦ rw before (Perm.trans (Perm.cons x (insert_line-perm l rest)) (Perm.swap l x rest))
  | inr after ↦ rw after (Perm.refl (l ∷ x ∷ rest))
]

pub sort_lines-perm : (lines : List Line) → Perm (sort_lines lines) lines
unfolding sort_lines
sort_lines-perm [] = Perm.refl []
sort_lines-perm (l ∷ rest) =
    Perm.trans (insert_line-perm l (sort_lines rest)) (Perm.cons l (sort_lines-perm rest))

ℤ-set : IsSet ℤ
ℤ-set = hlevel

pub sum_cents-perm :
    {lines lines' : List Line} → Perm lines lines' → sum_cents lines ≡ sum_cents lines'
sum_cents-perm p =
    Perm.foldr-eq ℤ-set (λ (l : Line) (total : ℤ). l.line_cents +ℤ total) (λ a b x. omega int_laws)
      p (pos 0)

-- No name stands before one that is smaller.
abbrev pub IsByName : List Line → Type 0
IsByName [] = Unit
IsByName (x ∷ rest) = All (λ y. text_ltb y.name x.name ≡ false) rest × IsByName rest

text_le_trans : (s t u : Text) → text_ltb t s ≡ false → text_ltb u t ≡ false → text_ltb u s ≡ false
text_le_trans [] t [] h k = refl
text_le_trans [] [] (c ∷ u) h k = k
text_le_trans [] (b ∷ t) (c ∷ u) h k = refl
text_le_trans (a ∷ s) [] u h k = cc
text_le_trans (a ∷ s) (b ∷ t) [] h k = cc
text_le_trans (a ∷ s) (b ∷ t) (c ∷ u) h k = ground (arith, text_le_trans s t u)

text_lt_le : (s t : Text) → text_ltb s t ≡ true → text_ltb t s ≡ false
text_lt_le [] [] h = cc
text_lt_le [] (_ ∷ _) h = refl
text_lt_le (_ ∷ _) [] h = cc
text_lt_le (a ∷ s) (b ∷ t) h = ground (arith, text_lt_le s t)

insert_line-All :
    (P : Line → Type 0) (l : Line) (lines : List Line)
    → P l
    → All P lines
    → All P (insert_line l lines)
unfolding insert_line
insert_line-All P l [] p a = (p, tt)
insert_line-All P l (x ∷ rest) p a = elim (Bool-cases (text_ltb x.name l.name)) [
  | inl before ↦ rw before (a.0, insert_line-All P l rest p a.1)
  | inr after ↦ rw after (p, a)
]

insert_line-IsByName :
    (l : Line) (lines : List Line) → IsByName lines → IsByName (insert_line l lines)
unfolding insert_line
insert_line-IsByName l [] s = (tt, tt)
insert_line-IsByName l (x ∷ rest) s = elim (Bool-cases (text_ltb x.name l.name)) [
  | inl before ↦ rw before (
    insert_line-All (λ y. text_ltb y.name x.name ≡ false) l rest (text_lt_le x.name l.name before)
        s.0,
    insert_line-IsByName l rest s.1,
  )
  | inr after ↦
      rw after
        ((after, All-map rest (λ y later. text_le_trans l.name x.name y.name after later) s.0), s)
]

pub sort_lines-IsByName : (lines : List Line) → IsByName (sort_lines lines)
unfolding sort_lines
sort_lines-IsByName [] = tt
sort_lines-IsByName (l ∷ rest) = insert_line-IsByName l (sort_lines rest) (sort_lines-IsByName rest)
