-- ===== src/Events/Delivery.antt =====
-- outbox.go: what was recorded is delivered, through failures, crashes and requeues.
use airbnb.Common.{
  ltb, ◌==◌, Text, codes, Time, Error, Result, ok, err, ℕ, ◌≡◌, refl, sym, ap, ◌∙◌, ◌≢◌, ◌⊎◌, inl,
  inr, Bool, true, false, not, ◌&&◌, List, [], ◌∷◌, ◌++◌, All, All-map, All-zip, arith, Bool-cases,
  Result-cases, Option-cases,
}
use mathlib.Core.List.{append-nil}
use airbnb.Events.Outbox.{
  Record, Outbox, append, mark_processed, mark_failed, increment_attempt, find_record, dead_letter,
}
use airbnb.Events.Relay.{
  Weather, Config, settle, deliver, attempt, charged, visit, visit_all, dispatch_records,
  publish_durably,
}
use airbnb.Events.Scan.{HasId}

module _ {E : Type 0} where
  -- The event is in the log.
  abbrev pub Sent : E → List E → Type 0
  Sent e [] = ⊥
  Sent e (x ∷ log) = (x ≡ e) ⊎ Sent e log

  Sent-append : (e : E) (log more : List E) → Sent e log → Sent e (log ++ more)
  Sent-append e [] more h = absurd h
  Sent-append e (x ∷ log) more h = elim h [
    | inl here ↦ inl here
    | inr later ↦ inr (Sent-append e log more later)
  ]

  Sent-last : (e : E) (log : List E) → Sent e (log ++ e ∷ [])
  Sent-last e [] = inl refl
  Sent-last e (x ∷ log) = inr (Sent-last e log)

  -- A dispatcher that writes each event down.
  abbrev pub note : E → List E → List E
  note e log = log ++ e ∷ []

-- Two rows with one id are one record, up to the count of attempts.
abbrev pub Alike : Record → Record → Type 0
Alike r x = x.id ≡ r.id → (x.name ≡ r.name) × (x.payload ≡ r.payload)

abbrev pub Keyed : List Record → Type 0
Keyed [] = Unit
Keyed (r ∷ rest) = All (λ x. x.id ≢ r.id) rest × Keyed rest

module _ {E : Type 0} (decode : Text → Text → Result E) where
  -- The record was handed out, or nobody can read it.
  abbrev pub Reached : List E → Record → Type 0
  Reached log r =
      ((e : E) × (decode r.name r.payload ≡ ok e) × Sent e log)
      ⊎ ((e : Error) × (decode r.name r.payload ≡ err e))

  pub Reached-append : (log more : List E) (r : Record) → Reached log r → Reached (log ++ more) r
  Reached-append log more r h = elim h [
    | inl (e, read, sent) ↦ inl (e, read, Sent-append e log more sent)
    | inr broken ↦ inr broken
  ]

  Reached-Alike :
      (log : List E) (r x : Record) → Alike r x → x.id ≡ r.id → Reached log r → Reached log x
  Reached-Alike log r x alike same h = let (name, payload) = alike same in rw (name, payload) h

  -- What holds of the store and the log: ids are keys, what is marked stands in the table, and was
  -- handed out or cannot be read.
  pub record IsAnswered (m : Outbox) (log : List E) : Type 0 where
    pub keyed : Keyed m.records
    pub known : (i : ℕ) → m.done i ≡ true → HasId i m.records
    pub answered : All (λ x. m.done x.id ≡ true → Reached log x) m.records

  -- How a visit of `r` may change what is marked, and the log.
  abbrev Marks : Record → Outbox → List E → Outbox → List E → Type 0
  Marks r m log m' log' =
      (m'.records ≡ m.records)
      × ((more : List E) × (log' ≡ log ++ more))
      × ((i : ℕ) → m'.done i ≡ true → (m.done i ≡ true) ⊎ ((i ≡ r.id) × Reached log' r))

  Marks-IsAnswered :
      (r : Record) (m m' : Outbox) (log log' : List E)
      → HasId r.id m.records
      → All (Alike r) m.records
      → Marks r m log m' log'
      → IsAnswered m log
      → IsAnswered m' log'
  Marks-IsAnswered r m m' log log' has alike (same, (more, grown), marks) s = record {
    keyed = rw same s.keyed;
    known = λ i marked.
        rw same
          (elim (marks i marked) [ inl before ↦ s.known i before | inr (this, _) ↦ rw this has ]);
    answered = rw same (
        All-zip m.records
          (λ x old like. λ marked. elim (marks x.id marked) [
            | inl before ↦ rw grown (Reached-append log more x (old before))
            | inr (this, reached) ↦ Reached-Alike log' r x like this reached
          ])
          s.answered alike);
  }

  marked_cases :
      (r : Record) (m : Outbox) (fails : Bool) (i : ℕ)
      → (settle fails m (mark_processed r.id m)).done i ≡ true
      → (m.done i ≡ true) ⊎ (i ≡ r.id)
  unfolding mark_processed
  marked_cases r m true i h = inl h
  marked_cases r m false i h = elim (Bool-cases (i == r.id)) [
    | inl this ↦ inr (ground arith)
    | inr other ↦ inl (rw other at h)
  ]

  settle-records :
      (r : Record) (m : Outbox) (fails : Bool)
      → (settle fails m (mark_processed r.id m)).records ≡ m.records
  unfolding mark_processed
  settle-records r m true = refl
  settle-records r m false = refl

  deliver-Marks :
      (air : Weather) (r : Record) (e : E) (m : Outbox) (log : List E)
      → decode r.name r.payload ≡ ok e
      → let out = deliver decode note air r e m log in Marks r m log out.0 out.1
  unfolding deliver
  deliver-Marks air r e m log read = (
    settle-records r m (air.mark_fails r.id),
    (e ∷ [], refl),
    λ i marked. elim (marked_cases r m (air.mark_fails r.id) i marked) [
      | inl before ↦ inl before
      | inr this ↦ inr (this, inl (e, read, Sent-last e log))
    ],
  )

  failed-Marks :
      (air : Weather) (r : Record) (m : Outbox) (log : List E) {e : Error}
      → decode r.name r.payload ≡ err e
      → Marks r m log (settle (air.mark_fails r.id) m (mark_failed r.id m)) log
  unfolding mark_failed
  failed-Marks air r m log {e} broken = (
    settle-records r m (air.mark_fails r.id),
    ([], sym (append-nil log)),
    λ i marked. elim (marked_cases r m (air.mark_fails r.id) i marked) [
      | inl before ↦ inl before
      | inr this ↦ inr (this, inr (e, broken))
    ],
  )

  dead_letter-keeps :
      (id : ℕ) (reason : Text) (now : Time) (m : Outbox)
      → ((dead_letter id reason now m).records ≡ m.records)
        × ((dead_letter id reason now m).done ≡ m.done)
  unfolding dead_letter
  dead_letter-keeps id reason now m = elim (Option-cases (find_record id m.records)) [
    | inl missing ↦ rw (missing, dead_letter) (refl, refl)
    | inr (x, found) ↦ rw (found, dead_letter) (refl, refl)
  ]

  dead-Marks :
      (r : Record) (reason : Text) (now : Time) (m : Outbox) (log : List E) (fails : Bool)
      → Marks r m log (settle fails m (dead_letter r.id reason now m)) log
  dead-Marks r reason now m log true = (refl, ([], sym (append-nil log)), λ i marked. inl marked)
  dead-Marks r reason now m log false =
      let (rows, done) = dead_letter-keeps r.id reason now m in
      (
        rows,
        ([], sym (append-nil log)),
        λ i marked. inl (ap (λ (d : ℕ → Bool). d i) (sym done) ∙ marked),
      )

  attempt-Marks :
      (cfg : Config) (air : Weather) (now : Time) (r : Record) (m : Outbox) (log : List E)
      → let out = attempt decode note cfg air now r m log in Marks r m log out.0 out.1
  unfolding attempt deliver
  attempt-Marks cfg air now r m log = elim (Result-cases (decode r.name r.payload)) [
    | inl (e, read) ↦
        let same : attempt decode note cfg air now r m log ≡ deliver decode note air r e m log =
          rw (read, attempt) in
        rw same (deliver-Marks air r e m log read)
    | inr (e, broken) ↦ elim (Bool-cases cfg.has_dlq) [
      | inl dlq ↦
          let same : attempt decode note cfg air now r m log ≡ (
            settle (air.dead_letter_fails r.id) m (dead_letter r.id (codes "undecodable") now m),
            log,
            false,
          ) =
            rw (broken, dlq, attempt) in
          rw same (dead-Marks r (codes "undecodable") now m log (air.dead_letter_fails r.id))
      | inr none_kept ↦
          let same : attempt decode note cfg air now r m log
              ≡ (settle (air.mark_fails r.id) m (mark_failed r.id m), log, false) =
            rw (broken, none_kept, attempt) in
          rw same (failed-Marks air r m log broken)
    ]
  ]

  charged-Marks :
      (cfg : Config) (air : Weather) (now : Time) (r : Record) (m : Outbox) (log : List E)
      → let out = charged decode note cfg air now r m log in Marks r m log out.0 out.1
  unfolding charged
  charged-Marks cfg air now r m log = elim (Bool-cases (ltb cfg.max_attempts (m.attempts r.id))) [
    | inl spent ↦ rw spent (dead-Marks r _ now m log (air.dead_letter_fails r.id))
    | inr left ↦ rw left (attempt-Marks cfg air now r m log)
  ]

  visit-Marks :
      (cfg : Config) (air : Weather) (now : Time) (r : Record) (m : Outbox) (log : List E)
      → let out = visit decode note cfg air now r m log in Marks r m log out.0 out.1
  unfolding visit increment_attempt
  visit-Marks cfg air now r m log =
      elim (Bool-cases (cfg.has_dlq && ltb 0 cfg.max_attempts && not (air.increment_fails r.id))) [
        | inl counted ↦ rw counted (charged-Marks cfg air now r (increment_attempt r.id m) log)
        | inr free ↦ rw free (attempt-Marks cfg air now r m log)
      ]

  -- A batch of records that stand in the table.
  abbrev pub Standing : Outbox → List Record → Type 0
  Standing m batch = All (λ r. HasId r.id m.records × All (Alike r) m.records) batch

  pub visit_all-IsAnswered :
      (cfg : Config) (air : Weather) (now : Time) (batch : List Record) (m : Outbox) (log : List E)
      → Standing m batch
      → IsAnswered m log
      → let out = visit_all decode note cfg air now batch m log in IsAnswered out.0 out.1
  unfolding visit_all
  visit_all-IsAnswered cfg air now [] m log standing s = s
  visit_all-IsAnswered cfg air now (r ∷ rest) m log standing s =
      let m1 = (visit decode note cfg air now r m log).0 in
      let log1 = (visit decode note cfg air now r m log).1 in
      let moved = visit-Marks cfg air now r m log in
      let standing1 : Standing m1 rest = rw moved.0 standing.1 in
      visit_all-IsAnswered cfg air now rest m1 log1 standing1
        (Marks-IsAnswered r m m1 log log1 standing.0.0 standing.0.1 moved s)

  pub dispatch-IsAnswered :
      (air : Weather) (batch : List Record) (m : Outbox) (log : List E)
      → Standing m batch
      → IsAnswered m log
      → let out = dispatch_records decode note air batch m log in IsAnswered out.0 out.1
  unfolding dispatch_records
  dispatch-IsAnswered air [] m log standing s = s
  dispatch-IsAnswered air (r ∷ rest) m log standing s =
      elim (Result-cases (decode r.name r.payload)) [
        | inl (e, read) ↦
            let m1 = (deliver decode note air r e m log).0 in
            let log1 = (deliver decode note air r e m log).1 in
            let moved = deliver-Marks air r e m log read in
            let standing1 : Standing m1 rest = rw moved.0 standing.1 in
            let same : dispatch_records decode note air (r ∷ rest) m log
                ≡ dispatch_records decode note air rest m1 log1 =
              rw (read, dispatch_records) in
            rw same (
              dispatch-IsAnswered air rest m1 log1 standing1
                (Marks-IsAnswered r m m1 log log1 standing.0.0 standing.0.1 moved s))
        | inr (e, broken) ↦
            let m1 = settle (air.mark_fails r.id) m (mark_failed r.id m) in
            let moved = failed-Marks air r m log broken in
            let standing1 : Standing m1 rest = rw moved.0 standing.1 in
            let same : dispatch_records decode note air (r ∷ rest) m log
                ≡ dispatch_records decode note air rest m1 log =
              rw (broken, dispatch_records) in
            rw same (
              dispatch-IsAnswered air rest m1 log standing1
                (Marks-IsAnswered r m m1 log log standing.0.0 standing.0.1 moved s))
      ]

  -- `Publish` of an event that its record reads back as.
  pub publish-IsAnswered :
      (air : Weather) (r : Record) (e : E) (m : Outbox) (log : List E)
      → decode r.name r.payload ≡ ok e
      → IsAnswered m log
      → IsAnswered (append r m) log
      → Standing (append r m) (r ∷ [])
      → let out = publish_durably decode note air r e m log in IsAnswered out.0 out.1
  unfolding publish_durably append
  publish-IsAnswered air r e m log read before after stands =
      elim (Bool-cases (air.append_fails r.id)) [
        | inl lost ↦ rw lost (record {
          keyed = before.keyed;
          known = before.known;
          answered =
              All-map m.records (λ x old. λ marked. Reached-append log (e ∷ []) x (old marked))
                before.answered;
        })
        | inr stored ↦
            let m1 = append r m in
            let out = deliver decode note air r e m1 log in
            rw stored (
              Marks-IsAnswered r m1 out.0 log out.1 stands.0.0 stands.0.1
                (deliver-Marks air r e m1 log read) after)
      ]
