-- ===== src/Events/Course.antt =====
-- outbox.go: any course of writes, crashes, passes and requeues, and the promise of the outbox.
use airbnb.Common.{
  Text, Time, Result, ok, ℕ, suc, ◌≤◌, ◌≡◌, refl, sym, subst, ◌∙◌, ◌≢◌, ◌⊎◌, inl, inr, true,
  is_some, List, [], ◌∷◌, ◌++◌, All, All-map, All-zip, length, arith, Bool-cases,
}
use mathlib.Core.List.{append_assoc, append-nil}
use airbnb.Events.Outbox.{Record, Outbox, new_memory_outbox, append, append_all, requeue}
use airbnb.Events.Relay.{Weather, Config, recover, run_passes, dispatch_records, publish_durably}
use airbnb.Events.Scan.{HasId, Reads, IsSteady}
use airbnb.Events.Budget.{recover-records, passes_settle}
use airbnb.Events.Delivery.{
  note, Keyed, Reached, IsAnswered, Standing, dispatch-IsAnswered, publish-IsAnswered,
}
use airbnb.Events.Runs.{Stands, Keyed-append, Keyed-Stands, append-IsAnswered, recover-IsAnswered}

-- What happens to the outbox: a unit of work commits its records, and hands them out, or crashes
-- first; an event is published on its own; the relay makes a pass; an administrator requeues.
pub data Op (E : Type 0) : Type 0 where
  committing : Weather → List Record → Op E
  crashing : List Record → Op E
  publishing : Weather → Record → E → Op E
  passing : Config → Weather → Time → ℕ → Op E
  requeueing : ℕ → Op E

All-right {ℓ κ} : {A : Type ℓ} (P : A → Type κ) (xs ys : List A) → All P (xs ++ ys) → All P ys
All-right P [] ys h = h
All-right P (x ∷ xs) ys h = All-right P xs ys h.1

HasId-self : (rows : List Record) → All (λ x. HasId x.id rows) rows
HasId-self [] = tt
HasId-self (r ∷ rest) = (inl refl, All-map rest (λ x h. inr h) (HasId-self rest))

append_all-records : (rs : List Record) (m : Outbox) → (append_all rs m).records ≡ m.records ++ rs
unfolding append_all append
append_all-records [] m = sym (append-nil m.records)
append_all-records (r ∷ rest) m =
    append_all-records rest (append r m) ∙ append_assoc m.records (r ∷ []) rest

module _ {E : Type 0} (decode : Text → Text → Result E) where
  unfoldable pub step : Op E → Outbox → List E → Outbox × List E
  step (committing air rs) m log = dispatch_records decode note air rs (append_all rs m) log
  step (crashing rs) m log = (append_all rs m, log)
  step (publishing air r e) m log = publish_durably decode note air r e m log
  step (passing cfg air now limit) m log =
      let (m', log', _) = recover decode note cfg air now limit m log in (m', log')
  step (requeueing id) m log = (requeue id m, log)

  unfoldable pub run : List (Op E) → Outbox → List E → Outbox × List E
  run [] m log = (m, log)
  run (op ∷ ops) m log = let (m', log') = step op m log in run ops m' log'

  -- New records have new ids.
  abbrev pub FreshRecords : List Record → Outbox → Type 0
  FreshRecords [] m = Unit
  FreshRecords (r ∷ rest) m = All (λ x. x.id ≢ r.id) m.records × FreshRecords rest (append r m)

  -- What is published on its own is read back as it was written.
  abbrev pub Fresh : Op E → Outbox → Type 0
  Fresh (committing air rs) m = FreshRecords rs m
  Fresh (crashing rs) m = FreshRecords rs m
  Fresh (publishing air r e) m = All (λ x. x.id ≢ r.id) m.records × (decode r.name r.payload ≡ ok e)
  Fresh _ m = Unit

  abbrev pub FreshRun : List (Op E) → Outbox → List E → Type 0
  FreshRun [] m log = Unit
  FreshRun (op ∷ ops) m log = Fresh op m × FreshRun ops (step op m log).0 (step op m log).1

  append_all-IsAnswered :
      (rs : List Record) (m : Outbox) (log : List E)
      → FreshRecords rs m
      → IsAnswered decode m log
      → IsAnswered decode (append_all rs m) log
  unfolding append_all
  append_all-IsAnswered [] m log fresh s = s
  append_all-IsAnswered (r ∷ rest) m log fresh s =
      append_all-IsAnswered rest (append r m) log fresh.1
        (append-IsAnswered decode r m log fresh.0 s)

  committed-Standing :
      (rs : List Record) (m : Outbox)
      → Keyed (append_all rs m).records
      → Standing decode (append_all rs m) rs
  committed-Standing rs m k =
      let e = append_all-records rs m in
      rw e (
        All-right (Stands (m.records ++ rs)) m.records rs
          (Keyed-Stands (m.records ++ rs) (rw e at k)))

  step-IsAnswered :
      (op : Op E) (m : Outbox) (log : List E)
      → Fresh op m
      → IsAnswered decode m log
      → IsAnswered decode (step op m log).0 (step op m log).1
  unfolding step requeue append_all append
  step-IsAnswered (committing air rs) m log fresh s =
      let s' = append_all-IsAnswered rs m log fresh s in
      dispatch-IsAnswered decode air rs (append_all rs m) log (committed-Standing rs m s'.keyed) s'
  step-IsAnswered (crashing rs) m log fresh s = append_all-IsAnswered rs m log fresh s
  step-IsAnswered (publishing air r e) m log fresh s =
      publish-IsAnswered decode air r e m log fresh.1 s (append-IsAnswered decode r m log fresh.0 s)
        (committed-Standing (r ∷ []) m (Keyed-append m.records r s.keyed fresh.0))
  step-IsAnswered (passing cfg air now limit) m log fresh s =
      recover-IsAnswered decode cfg air now limit m log s
  step-IsAnswered (requeueing id) m log fresh s = record {
    keyed = s.keyed;
    known = s.known;
    answered = s.answered;
  }

  run-IsAnswered :
      (ops : List (Op E)) (m : Outbox) (log : List E)
      → FreshRun ops m log
      → IsAnswered decode m log
      → IsAnswered decode (run ops m log).0 (run ops m log).1
  unfolding run
  run-IsAnswered [] m log fresh s = s
  run-IsAnswered (op ∷ ops) m log fresh s =
      run-IsAnswered ops (step op m log).0 (step op m log).1 fresh.1
        (step-IsAnswered op m log fresh.0 s)

  passes-IsAnswered :
      (cfg : Config) (limit : ℕ) (passes : List (Weather × Time)) (m : Outbox) (log : List E)
      → IsAnswered decode m log
      → let out = run_passes decode note cfg limit passes m log in IsAnswered decode out.0 out.1
  unfolding run_passes
  passes-IsAnswered cfg limit [] m log s = s
  passes-IsAnswered cfg limit ((air, now) ∷ rest) m log s =
      let out = recover decode note cfg air now limit m log in
      passes-IsAnswered cfg limit rest out.0 out.1
        (recover-IsAnswered decode cfg air now limit m log s)

  empty-IsAnswered : IsAnswered decode new_memory_outbox []
  unfolding new_memory_outbox
  empty-IsAnswered = record { keyed = tt; known = λ i marked. cc; answered = tt }

  -- The end of a record: handed out, unreadable, or among the dead letters.
  abbrev pub Ended : Outbox → List E → Record → Type 0
  Ended m log x = Reached decode log x ⊎ (is_some (m.dlq x.id) ≡ true)

  passes-records :
      (cfg : Config) (limit : ℕ) (passes : List (Weather × Time)) (m : Outbox) (log : List E)
      → (run_passes decode note cfg limit passes m log).0.records ≡ m.records
  unfolding run_passes
  passes-records cfg limit [] m log = refl
  passes-records cfg limit ((air, now) ∷ rest) m log =
      let out = recover decode note cfg air now limit m log in
      passes-records cfg limit rest out.0 out.1
      ∙ recover-records decode note cfg air now limit m log

  -- From an empty outbox, through any course of units of work, crashes after their commit, events
  -- published on their own, passes of the relay and requeues, each record under a new id, with any
  -- failures of the store: after one pass more than the budget, over a store that charges attempts
  -- and takes dead letters (and may fail to mark), each pass reading the whole table, every record
  -- that was ever stored has been handed out, or cannot be decoded, or stands among the dead
  -- letters.
  pub nothing_lost :
      (ops : List (Op E)) (cfg : Config) (limit : ℕ) (passes : List (Weather × Time))
      → FreshRun ops new_memory_outbox []
      → cfg.has_dlq ≡ true
      → 1 ≤ cfg.max_attempts
      → All (λ p. IsSteady p.0) passes
      → Reads limit 0 (run ops new_memory_outbox []).0.records
      → length passes ≡ suc cfg.max_attempts
      → let before = run ops new_memory_outbox [] in
        let after = run_passes decode note cfg limit passes before.0 before.1 in
        (after.0.records ≡ before.0.records) × All (Ended after.0 after.1) before.0.records
  nothing_lost ops cfg limit passes fresh dlq budget steady reads enough =
      let before = run ops new_memory_outbox [] in
      let after = run_passes decode note cfg limit passes before.0 before.1 in
      let same = passes-records cfg limit passes before.0 before.1 in
      let s =
        passes-IsAnswered cfg limit passes before.0 before.1
          (run-IsAnswered ops new_memory_outbox [] fresh empty-IsAnswered) in
      let answered : All (λ x. after.0.done x.id ≡ true → Reached decode after.1 x)
          before.0.records =
        subst (λ rows. All (λ x. after.0.done x.id ≡ true → Reached decode after.1 x) rows) same
          s.answered in
      (
        same,
        All-zip before.0.records
            (λ x answer has.
              let settled =
                passes_settle decode note cfg dlq budget limit passes before.0 before.1 x.id steady
                  reads has enough in
              elim (Bool-cases (after.0.done x.id)) [
                | inl marked ↦ inl (answer marked)
                | inr waits ↦ inr (ground (arith, settled, waits))
              ])
            answered (HasId-self before.0.records),
      )
