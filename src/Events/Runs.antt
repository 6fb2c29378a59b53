-- ===== src/Events/Runs.antt =====
-- outbox.go: any course of writes, crashes, passes and requeues.
use airbnb.Common.{
  Text, Time, Result, ℕ, suc, ◌≡◌, refl, sym, ◌≢◌, inl, inr, true, ◌&&◌, List, [], ◌∷◌, ◌++◌, All,
  All-map, All-append, Bool-cases, ltb, leb, ◌∙◌,
}
use airbnb.Events.Outbox.{Record, Outbox, append, is_pending, fetch_from, fetch_unprocessed}
use airbnb.Events.Relay.{Weather, Config, recover}
use airbnb.Events.Scan.{HasId}
use airbnb.Events.Delivery.{note, Alike, Keyed, Reached, IsAnswered, visit_all-IsAnswered}

HasId-All :
    (P : Record → Type 0) (i : ℕ) (rows : List Record)
    → HasId i rows
    → All P rows
    → (x : Record) × (x.id ≡ i) × P x
HasId-All P i [] h a = absurd h
HasId-All P i (x ∷ rest) h a = elim h [
  | inl here ↦ (x, here, a.0)
  | inr later ↦ HasId-All P i rest later a.1
]

abbrev pub Stands : List Record → Record → Type 0
Stands rows r = HasId r.id rows × All (Alike r) rows

-- In a table of different ids a row is alike to itself only.
head-Stands :
    (r q : Record) (rest : List Record)
    → Keyed (r ∷ rest)
    → Alike q r
    → q.id ≡ r.id
    → Stands (r ∷ rest) q
head-Stands r q rest k like e =
    (inl (sym e), (like, All-map rest (λ x apart. λ same. absurd (apart (same ∙ e))) k.0))

tail-Stands :
    (r q : Record) (rest : List Record) → Keyed (r ∷ rest) → Stands rest q → Stands (r ∷ rest) q
tail-Stands r q rest k (has, alike) =
    let (y, same, apart) = HasId-All (λ x. x.id ≢ r.id) q.id rest has k.0 in
    (inr has, ((λ e. absurd (apart (same ∙ sym e))), alike))

-- What a scan reads stands in the table.
fetched-Stands :
    (m : Outbox) (limit taken : ℕ) (rows : List Record)
    → Keyed rows
    → All (Stands rows) (fetch_from m limit taken rows)
unfolding fetch_from
fetched-Stands m limit taken [] k = tt
fetched-Stands m limit taken (r ∷ rest) k =
    let widen = λ (batch : List Record) (all : All (Stands rest) batch).
      All-map {Q = Stands (r ∷ rest)} batch (λ q stands. tail-Stands r q rest k stands) all in
    let skipped = widen (fetch_from m limit taken rest) (fetched-Stands m limit taken rest k.1) in
    let more =
      widen (fetch_from m limit (suc taken) rest) (fetched-Stands m limit (suc taken) rest k.1) in
    let here =
      head-Stands r (record r { attempts = m.attempts r.id }) rest k (λ e. (refl, refl)) refl in
    elim (Bool-cases (is_pending m r.id)) [
      | inr settled ↦ rw settled skipped
      | inl waits ↦ elim (Bool-cases (ltb 0 limit && leb limit (suc taken))) [
        | inl full ↦ rw (waits, full) (here, tt)
        | inr room ↦ rw (waits, room) (here, more)
      ]
    ]

HasId-append : (i : ℕ) (rows more : List Record) → HasId i rows → HasId i (rows ++ more)
HasId-append i [] more h = absurd h
HasId-append i (x ∷ rest) more h = elim h [
  | inl here ↦ inl here
  | inr later ↦ inr (HasId-append i rest more later)
]

HasId-absent : (i : ℕ) (rows : List Record) → All (λ x. x.id ≢ i) rows → HasId i rows → ⊥
HasId-absent i rows a h = let (x, same, apart) = HasId-All (λ x. x.id ≢ i) i rows h a in apart same

pub Keyed-append :
    (rows : List Record) (r : Record)
    → Keyed rows
    → All (λ x. x.id ≢ r.id) rows
    → Keyed (rows ++ r ∷ [])
Keyed-append [] r k a = (tt, tt)
Keyed-append (x ∷ rest) r k a = (
  All-append (λ y. y.id ≢ x.id) rest (r ∷ []) k.0 ((λ e. a.0 (sym e)), tt),
  Keyed-append rest r k.1 a.1,
)

pub Keyed-Stands : (rows : List Record) → Keyed rows → All (Stands rows) rows
Keyed-Stands [] k = tt
Keyed-Stands (r ∷ rest) k = (
  head-Stands r r rest k (λ e. (refl, refl)) refl,
  All-map rest (λ q stands. tail-Stands r q rest k stands) (Keyed-Stands rest k.1),
)

module _ {E : Type 0} (decode : Text → Text → Result E) where
  -- A new record has an id that no row has.
  pub append-IsAnswered :
      (r : Record) (m : Outbox) (log : List E)
      → All (λ x. x.id ≢ r.id) m.records
      → IsAnswered decode m log
      → IsAnswered decode (append r m) log
  unfolding append
  append-IsAnswered r m log fresh s = record {
    keyed = Keyed-append m.records r s.keyed fresh;
    known = λ i marked. HasId-append i m.records (r ∷ []) (s.known i marked);
    answered =
        All-append (λ x. m.done x.id ≡ true → Reached decode log x) m.records (r ∷ []) s.answered
          ((λ marked. absurd (HasId-absent r.id m.records fresh (s.known r.id marked))), tt);
  }

  pub recover-IsAnswered :
      (cfg : Config) (air : Weather) (now : Time) (limit : ℕ) (m : Outbox) (log : List E)
      → IsAnswered decode m log
      → let out = recover decode note cfg air now limit m log in IsAnswered decode out.0 out.1
  unfolding recover fetch_unprocessed
  recover-IsAnswered cfg air now limit m log s =
      visit_all-IsAnswered decode cfg air now (fetch_from m limit 0 m.records) m log
        (fetched-Stands m limit 0 m.records s.keyed) s
