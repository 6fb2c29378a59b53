-- ===== src/Events/Outbox.antt =====
-- outbox.go: the records and the in-memory store. Its maps are functions of the record's id.
use airbnb.Common.{
  leb, ◌==◌, if◌then◌else◌, ltb, is_some, Text, Time, ℕ, suc, Bool, true, false, not, ◌&&◌, Option,
  none, some, List, [], ◌∷◌, ◌++◌, ◌-◌, ◌+◌,
}

pub record Record : Type 0 where
  pub id : ℕ
  pub name : Text
  pub payload : Text
  pub created_at : Time
  pub attempts : ℕ

pub record DeadLetteredRecord : Type 0 where
  pub letter : Record
  pub dead_lettered_at : Time
  pub last_error : Text

-- `memoryOutbox`
pub record Outbox : Type 0 where
  pub records : List Record
  pub done : ℕ → Bool
  pub attempts : ℕ → ℕ
  pub dlq : ℕ → Option DeadLetteredRecord

-- `m[id] = v`
abbrev pub update {ℓ} : {A : Type ℓ} → ℕ → A → (ℕ → A) → ℕ → A
update id v m i = if i == id then v else m i

-- `NewMemoryOutbox`
unfoldable pub new_memory_outbox : Outbox
new_memory_outbox = record { records = []; done = λ i. false; attempts = λ i. 0; dlq = λ i. none }

unfoldable pub append : Record → Outbox → Outbox
append r m = record m { records = m.records ++ r ∷ [] }

-- What a unit of work appends in its transaction (RecordingOutbox keeps the same records, which are
-- dispatched once the transaction has committed).
unfoldable pub append_all : List Record → Outbox → Outbox
append_all [] m = m
append_all (r ∷ rest) m = append_all rest (append r m)

-- Neither processed nor dead-lettered: what a scan picks up.
abbrev pub is_pending : Outbox → ℕ → Bool
is_pending m id = not (m.done id) && not (is_some (m.dlq id))

-- The loop of `FetchUnprocessed`; `taken` is the length of `out`.
unfoldable pub fetch_from : Outbox → ℕ → ℕ → List Record → List Record
fetch_from m limit taken [] = []
fetch_from m limit taken (r ∷ rest) =
    let skipped = fetch_from m limit taken rest in
    let more = fetch_from m limit (suc taken) rest in
    if not (is_pending m r.id)
    then skipped
    else record r { attempts = m.attempts r.id }
      ∷ (if ltb 0 limit && leb limit (suc taken) then [] else more)

-- `FetchUnprocessed`; a limit of 0 or less means none.
unfoldable pub fetch_unprocessed : ℕ → Outbox → List Record
fetch_unprocessed limit m = fetch_from m limit 0 m.records

unfoldable pub mark_processed : ℕ → Outbox → Outbox
mark_processed id m = record m { done = update id true m.done }

-- In memory a failed record is as terminal as a processed one.
unfoldable pub mark_failed : ℕ → Outbox → Outbox
unfolding mark_processed
mark_failed id m = mark_processed id m

-- The store after the call; its answer is the new count.
unfoldable pub increment_attempt : ℕ → Outbox → Outbox
increment_attempt id m = record m { attempts = update id (m.attempts id + 1) m.attempts }

-- The search of `DeadLetter`.
unfoldable pub find_record : ℕ → List Record → Option Record
find_record id [] = none
find_record id (r ∷ rest) = if r.id == id then some r else find_record id rest

unfoldable pub dead_letter : ℕ → Text → Time → Outbox → Outbox
dead_letter id reason now m = elim (find_record id m.records) [
  | none ↦ m
  | some r ↦ record m {
    dlq =
        update id (some (record { letter = r; dead_lettered_at = now; last_error = reason })) m.dlq;
  }
]

unfoldable pub requeue : ℕ → Outbox → Outbox
requeue id m = record m { dlq = update id none m.dlq; attempts = update id 0 m.attempts }

-- The loop of `ListDeadLettered`; `taken` is the length of `out`.
unfoldable pub list_from : Outbox → ℕ → ℕ → ℕ → List Record → List DeadLetteredRecord
list_from m limit offset taken [] = []
list_from m limit offset taken (r ∷ rest) = elim (m.dlq r.id) [
  | none ↦ list_from m limit offset taken rest
  | some dl ↦ elim (ltb 0 offset) [
    | true ↦ list_from m limit (offset - 1) taken rest
    | false ↦ elim (ltb 0 limit && leb limit (suc taken)) [
      | true ↦ dl ∷ []
      | false ↦ dl ∷ list_from m limit 0 (suc taken) rest
    ]
  ]
]

unfoldable pub list_dead_lettered : ℕ → ℕ → Outbox → List DeadLetteredRecord
list_dead_lettered limit offset m = list_from m limit offset 0 m.records

unfoldable pub count_pending : Outbox → List Record → ℕ
count_pending m [] = 0
count_pending m (r ∷ rest) =
    let others = count_pending m rest in if is_pending m r.id then suc others else others

unfoldable pub pending_count : Outbox → ℕ
pending_count m = count_pending m m.records
