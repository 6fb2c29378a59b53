-- ===== src/Events/Scan.antt =====
-- outbox.go: which records a scan reads, and how a record may move while the relay works.
use airbnb.Common.{
  ltb, leb, ◌==◌, ℕ, suc, ◌+◌, ◌≤◌, ◌≡◌, refl, ap, ◌⊎◌, inl, inr, true, false, ◌&&◌, some, List, [],
  ◌∷◌, All, length, arith, Bool-cases,
}
use airbnb.Events.Outbox.{Record, Outbox, is_pending, fetch_from, find_record}
use airbnb.Events.Relay.{Weather}

-- A store that charges attempts and takes dead letters, whatever else it fails at.
abbrev pub IsSteady : Weather → Type 0
IsSteady air =
    ((i : ℕ) → air.increment_fails i ≡ false) × ((i : ℕ) → air.dead_letter_fails i ≡ false)

-- How the record `i` may have moved: pending now, it was so before, and its attempts only grew,
-- and not past the budget.
abbrev pub Ages : ℕ → ℕ → Outbox → Outbox → Type 0
Ages k i m m' =
    is_pending m' i ≡ true
    → (is_pending m i ≡ true)
      × (m.attempts i ≤ m'.attempts i)
      × (m.attempts i ≤ k → m'.attempts i ≤ k)

-- One visit charges the record.
abbrev pub Charges : ℕ → ℕ → Outbox → Outbox → Type 0
Charges k i m m' =
    is_pending m' i ≡ true → (suc (m.attempts i) ≤ m'.attempts i) × (m'.attempts i ≤ k)

abbrev pub Stored : ℕ → List Record → Type 0
Stored id rows = (r : Record) × (find_record id rows ≡ some r)

abbrev pub HasId : ℕ → List Record → Type 0
HasId i [] = ⊥
HasId i (r ∷ rest) = (r.id ≡ i) ⊎ HasId i rest

-- A scan with this limit reads all of these rows, when it has taken so many before.
abbrev pub Reads : ℕ → ℕ → List Record → Type 0
Reads limit taken rows = (limit ≡ 0) ⊎ (taken + length rows ≤ limit)

pub find_record-HasId : (i : ℕ) (rows : List Record) → HasId i rows → Stored i rows
unfolding find_record
find_record-HasId i [] h = absurd h
find_record-HasId i (r ∷ rest) h = elim (Bool-cases (r.id == i)) [
  | inl this ↦ (r, rw this)
  | inr other ↦ elim h [
    | inl same ↦ absurd (ground (arith, other, same))
    | inr later ↦ let (x, found) = find_record-HasId i rest later in (x, rw other found)
  ]
]

pub fetched-Stored :
    (m : Outbox) (limit taken : ℕ) (rows all : List Record)
    → ((i : ℕ) → HasId i rows → HasId i all)
    → All (λ r. Stored r.id all) (fetch_from m limit taken rows)
unfolding fetch_from
fetched-Stored m limit taken [] all inside = tt
fetched-Stored m limit taken (r ∷ rest) all inside =
    let skipped = fetched-Stored m limit taken rest all (λ i h. inside i (inr h)) in
    let more = fetched-Stored m limit (suc taken) rest all (λ i h. inside i (inr h)) in
    let here = find_record-HasId r.id all (inside r.id (inl refl)) in
    elim (Bool-cases (is_pending m r.id)) [
      | inr settled ↦ rw settled skipped
      | inl waits ↦ elim (Bool-cases (ltb 0 limit && leb limit (suc taken))) [
        | inl full ↦ rw (waits, full) (here, tt)
        | inr room ↦ rw (waits, room) (here, more)
      ]
    ]

pub HasId-length : (i : ℕ) (rows : List Record) → HasId i rows → 1 ≤ length rows
HasId-length i [] h = absurd h
HasId-length i (r ∷ rest) h = omega arith

-- A pending record is among those read.
pub fetched :
    (m : Outbox) (limit taken : ℕ) (rows : List Record) (i : ℕ)
    → is_pending m i ≡ true
    → Reads limit taken rows
    → HasId i rows
    → HasId i (fetch_from m limit taken rows)
unfolding fetch_from
fetched m limit taken [] i p reads h = h
fetched m limit taken (r ∷ rest) i p reads h = elim (Bool-cases (is_pending m r.id)) [
  | inr settled ↦ elim h [
    | inl same ↦ cc (ap (λ (j : ℕ). is_pending m j) same)
    | inr later ↦ rw settled (fetched m limit taken rest i p (ground arith) later)
  ]
  | inl waits ↦ elim (Bool-cases (ltb 0 limit && leb limit (suc taken))) [
    | inl full ↦ elim h [
      | inl same ↦ rw (waits, full) (inl same)
      | inr later ↦ let more = HasId-length i rest later in absurd (ground arith)
    ]
    | inr room ↦ elim h [
      | inl same ↦ rw (waits, room) (inl same)
      | inr later ↦
          rw (waits, room) (inr (fetched m limit (suc taken) rest i p (ground arith) later))
    ]
  ]
]
