-- ===== src/Events/Budget.antt =====
-- outbox.go: with a budget, no record is retried for ever.
use airbnb.Common.{
  Text, Time, Result, ℕ, suc, ◌+◌, ◌≤◌, ◌≡◌, refl, subst, ◌∙◌, ◌⊎◌, inl, inr, true, false, List, [],
  ◌∷◌, All, length, arith, Bool-cases,
}
use airbnb.Events.Outbox.{
  Record, Outbox, is_pending, fetch_from, fetch_unprocessed, mark_processed, mark_failed,
  increment_attempt, dead_letter,
}
use airbnb.Events.Relay.{
  Weather, Config, deliver, attempt, charged, visit, visit_all, recover, run_passes,
}
use airbnb.Events.Scan.{IsSteady, Ages, Charges, Stored, HasId, Reads, fetched-Stored, fetched}

module _ {S E : Type 0} (decode : Text → Text → Result E) (publish : E → S → S) where
  pub visit-records :
      (cfg : Config) (air : Weather) (now : Time) (r : Record) (m : Outbox) (s : S)
      → (visit decode publish cfg air now r m s).0.records ≡ m.records
  unfolding visit charged attempt deliver mark_processed mark_failed increment_attempt dead_letter
  visit-records cfg air now r m s = ground arith

  visit_all-records :
      (cfg : Config) (air : Weather) (now : Time) (batch : List Record) (m : Outbox) (s : S)
      → (visit_all decode publish cfg air now batch m s).0.records ≡ m.records
  unfolding visit_all
  visit_all-records cfg air now [] m s = refl
  visit_all-records cfg air now (r ∷ rest) m s =
      visit_all-records cfg air now rest (visit decode publish cfg air now r m s).0
        (visit decode publish cfg air now r m s).1
      ∙ visit-records cfg air now r m s

  pub recover-records :
      (cfg : Config) (air : Weather) (now : Time) (limit : ℕ) (m : Outbox) (s : S)
      → (recover decode publish cfg air now limit m s).0.records ≡ m.records
  unfolding recover
  recover-records cfg air now limit m s =
      visit_all-records cfg air now (fetch_unprocessed limit m) m s

  module _ (cfg : Config) (dlq : cfg.has_dlq ≡ true) (some_budget : 1 ≤ cfg.max_attempts) where
    visit-Ages :
        (air : Weather) (now : Time) (r : Record) (m : Outbox) (s : S) (i : ℕ)
        → IsSteady air
        → Stored r.id m.records
        → Ages cfg.max_attempts i m (visit decode publish cfg air now r m s).0
    unfolding visit charged attempt deliver mark_processed mark_failed increment_attempt dead_letter
    visit-Ages air now r m s i steady (x, stored) =
        ground (arith, steady.0 r.id, steady.1 r.id, dlq, some_budget, stored)

    visit-Charges :
        (air : Weather) (now : Time) (r : Record) (m : Outbox) (s : S)
        → IsSteady air
        → Stored r.id m.records
        → Charges cfg.max_attempts r.id m (visit decode publish cfg air now r m s).0
    unfolding visit charged attempt deliver mark_processed mark_failed increment_attempt dead_letter
    visit-Charges air now r m s steady (x, stored) =
        ground (arith, steady.0 r.id, steady.1 r.id, dlq, some_budget, stored)

    -- The pass over a batch ages every record, and charges those in the batch.
    batch-Ages :
        (air : Weather) (now : Time) (batch : List Record) (m : Outbox) (s : S) (i : ℕ)
        → IsSteady air
        → All (λ r. Stored r.id m.records) batch
        → Ages cfg.max_attempts i m (visit_all decode publish cfg air now batch m s).0
    unfolding visit_all
    batch-Ages air now [] m s i steady all = λ p. (p, omega arith, λ h. h)
    batch-Ages air now (r ∷ rest) m s i steady all =
        let m1 = (visit decode publish cfg air now r m s).0 in
        let s1 = (visit decode publish cfg air now r m s).1 in
        let here = visit-Ages air now r m s i steady all.0 in
        let stored : All (λ q. Stored q.id m1.records) rest =
          rw (visit-records cfg air now r m s) all.1 in
        let there = batch-Ages air now rest m1 s1 i steady stored in
        λ p.
          let (p1, grew1, kept1) = there p in
          let (p0, grew0, kept0) = here p1 in (p0, omega arith, λ h. kept1 (kept0 h))

    batch-Charges :
        (air : Weather) (now : Time) (batch : List Record) (m : Outbox) (s : S) (i : ℕ)
        → IsSteady air
        → All (λ r. Stored r.id m.records) batch
        → HasId i batch
        → Charges cfg.max_attempts i m (visit_all decode publish cfg air now batch m s).0
    unfolding visit_all
    batch-Charges air now [] m s i steady all h = absurd h
    batch-Charges air now (r ∷ rest) m s i steady all h =
        let m1 = (visit decode publish cfg air now r m s).0 in
        let s1 = (visit decode publish cfg air now r m s).1 in
        let stored : All (λ q. Stored q.id m1.records) rest =
          rw (visit-records cfg air now r m s) all.1 in
        elim h [
          | inl this ↦
              let charge =
                subst (λ j. Charges cfg.max_attempts j m m1) this
                  (visit-Charges air now r m s steady all.0) in
              λ p.
                let (p1, grew1, kept1) = batch-Ages air now rest m1 s1 i steady stored p in
                let (charged0, bound0) = charge p1 in (omega arith, kept1 bound0)
          | inr later ↦ λ p.
              let (charged1, bound1) = batch-Charges air now rest m1 s1 i steady stored later p in
              let (p1, _, _) = batch-Ages air now rest m1 s1 i steady stored p in
              let (_, grew0, _) = visit-Ages air now r m s i steady all.0 p1 in
              (omega arith, bound1)
        ]

    -- A pass that reads every record charges each that it leaves pending.
    recover_charges :
        (air : Weather) (now : Time) (limit : ℕ) (m : Outbox) (s : S) (i : ℕ)
        → IsSteady air
        → Reads limit 0 m.records
        → HasId i m.records
        → is_pending (recover decode publish cfg air now limit m s).0 i ≡ true
        → (suc (m.attempts i) ≤ (recover decode publish cfg air now limit m s).0.attempts i)
          × ((recover decode publish cfg air now limit m s).0.attempts i ≤ cfg.max_attempts)
    unfolding recover fetch_unprocessed
    recover_charges air now limit m s i steady reads has p =
        let batch = fetch_from m limit 0 m.records in
        let stored : All (λ q. Stored q.id m.records) batch =
          fetched-Stored m limit 0 m.records m.records (λ j h. h) in
        let (before, _, _) = batch-Ages air now batch m s i steady stored p in
        batch-Charges air now batch m s i steady stored
          (fetched m limit 0 m.records i before reads has) p

    recover-Ages :
        (air : Weather) (now : Time) (limit : ℕ) (m : Outbox) (s : S) (i : ℕ)
        → IsSteady air
        → Ages cfg.max_attempts i m (recover decode publish cfg air now limit m s).0
    unfolding recover fetch_unprocessed
    recover-Ages air now limit m s i steady =
        batch-Ages air now (fetch_from m limit 0 m.records) m s i steady
          (fetched-Stored m limit 0 m.records m.records (λ j h. h))

    passes_age :
        (limit : ℕ) (passes : List (Weather × Time)) (m : Outbox) (s : S) (i : ℕ)
        → All (λ p. IsSteady p.0) passes
        → Ages cfg.max_attempts i m (run_passes decode publish cfg limit passes m s).0
    unfolding run_passes
    passes_age limit [] m s i steady = λ p. (p, omega arith, λ h. h)
    passes_age limit ((air, now) ∷ rest) m s i steady = λ p.
        let m1 = (recover decode publish cfg air now limit m s).0 in
        let s1 = (recover decode publish cfg air now limit m s).1 in
        let (p1, grew1, kept1) = passes_age limit rest m1 s1 i steady.1 p in
        let (p0, grew0, kept0) = recover-Ages air now limit m s i steady.0 p1 in
        (p0, omega arith, λ h. kept1 (kept0 h))

    -- A record that is still pending has survived at most as many passes as the budget allows.
    passes_pending :
        (limit : ℕ) (passes : List (Weather × Time)) (m : Outbox) (s : S) (i n : ℕ)
        → All (λ p. IsSteady p.0) passes
        → Reads limit 0 m.records
        → HasId i m.records
        → n ≤ m.attempts i
        → is_pending (run_passes decode publish cfg limit passes m s).0 i ≡ true
        → (length passes ≡ 0) ⊎ (length passes + n ≤ cfg.max_attempts)
    unfolding run_passes
    passes_pending limit [] m s i n steady reads has old p = inl refl
    passes_pending limit ((air, now) ∷ rest) m s i n steady reads has old p =
        let m1 = (recover decode publish cfg air now limit m s).0 in
        let s1 = (recover decode publish cfg air now limit m s).1 in
        let same = recover-records cfg air now limit m s in
        let reads1 : Reads limit 0 m1.records = rw same reads in
        let has1 : HasId i m1.records = rw same has in
        let (p1, _, _) = passes_age limit rest m1 s1 i steady.1 p in
        let (charge, bound) = recover_charges air now limit m s i steady.0 reads has p1 in
        elim (passes_pending limit rest m1 s1 i (suc n) steady.1 reads1 has1 (omega arith) p) [
          | inl last ↦ inr (omega arith)
          | inr more ↦ inr (omega arith)
        ]

    -- With a store that charges attempts and takes dead letters, whether or not it marks what was
    -- delivered: after one pass more than the budget, each reading the whole table, no record that
    -- stands in it is pending.
    pub passes_settle :
        (limit : ℕ) (passes : List (Weather × Time)) (m : Outbox) (s : S) (i : ℕ)
        → All (λ p. IsSteady p.0) passes
        → Reads limit 0 m.records
        → HasId i m.records
        → length passes ≡ suc cfg.max_attempts
        → is_pending (run_passes decode publish cfg limit passes m s).0 i ≡ false
    passes_settle limit passes m s i steady reads has enough =
        elim (Bool-cases (is_pending (run_passes decode publish cfg limit passes m s).0 i)) [
          | inr settled ↦ settled
          | inl p ↦ elim (passes_pending limit passes m s i 0 steady reads has (omega arith) p) [
            | inl never ↦ absurd (omega arith)
            | inr few ↦ absurd (omega arith)
          ]
        ]
