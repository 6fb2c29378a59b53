-- ===== src/Events/Relay.antt =====
-- outbox.go: `DurablePublisher`. Decoding, the dispatcher and the store's failures are arguments; the
-- gauges and counters that only observe a pass are left out.
use airbnb.Common.{
  ltb, if◌then◌else◌, Text, codes, Time, Result, ok, err, ℕ, suc, Bool, false, not, ◌&&◌, List, [],
  ◌∷◌,
}
use airbnb.Events.Outbox.{
  Record, Outbox, append, fetch_unprocessed, mark_processed, mark_failed, increment_attempt,
  dead_letter,
}

-- Which calls of the store fail, by the record's id; a call that fails changes nothing.
pub record Weather : Type 0 where
  pub append_fails : ℕ → Bool
  pub increment_fails : ℕ → Bool
  pub dead_letter_fails : ℕ → Bool
  pub mark_fails : ℕ → Bool

-- What the publisher is built with: whether the store keeps dead letters, and the budget, where 0
-- means none.
pub record Config : Type 0 where
  pub has_dlq : Bool
  pub max_attempts : ℕ

abbrev pub settle : Bool → Outbox → Outbox → Outbox
settle fails before after = if fails then before else after

module _ {S E : Type 0} (decode : Text → Text → Result E) (publish : E → S → S) where
  -- A record that is delivered: fanned out, then marked.
  unfoldable pub deliver : Weather → Record → E → Outbox → S → Outbox × S × Bool
  deliver air r e m s = (
    settle (air.mark_fails r.id) m (mark_processed r.id m),
    publish e s,
    not (air.mark_fails r.id),
  )

  -- The part of a visit of `Recover` that decodes and delivers. Reasons are kept without details.
  unfoldable pub attempt : Config → Weather → Time → Record → Outbox → S → Outbox × S × Bool
  unfolding deliver
  attempt cfg air now r m s = elim (decode r.name r.payload) [
    | err e ↦ (
      if cfg.has_dlq
          then settle (air.dead_letter_fails r.id) m (dead_letter r.id (codes "undecodable") now m)
          else settle (air.mark_fails r.id) m (mark_failed r.id m),
      s,
      false,
    )
    | ok e ↦ deliver air r e m s
  ]

  -- A visit after the attempt was charged: past the budget the record is given up.
  unfoldable pub charged : Config → Weather → Time → Record → Outbox → S → Outbox × S × Bool
  unfolding attempt
  charged cfg air now r m s =
      if ltb cfg.max_attempts (m.attempts r.id)
      then (
        settle (air.dead_letter_fails r.id) m
            (dead_letter r.id (codes "exceeded max attempts") now m),
        s,
        false,
      )
      else attempt cfg air now r m s

  -- One round of the loop of `Recover`.
  unfoldable pub visit : Config → Weather → Time → Record → Outbox → S → Outbox × S × Bool
  unfolding charged
  visit cfg air now r m s =
      if cfg.has_dlq && ltb 0 cfg.max_attempts && not (air.increment_fails r.id)
      then charged cfg air now r (increment_attempt r.id m) s
      else attempt cfg air now r m s

  -- The loop of `Recover`: the store, the world, and the number delivered.
  unfoldable pub visit_all : Config → Weather → Time → List Record → Outbox → S → Outbox × S × ℕ
  visit_all cfg air now [] m s = (m, s, 0)
  visit_all cfg air now (r ∷ rest) m s =
      let (m1, s1, delivered) = visit cfg air now r m s in
      let (m2, s2, count) = visit_all cfg air now rest m1 s1 in
      (m2, s2, if delivered then suc count else count)

  -- `Recover`, where the store could be read.
  unfoldable pub recover : Config → Weather → Time → ℕ → Outbox → S → Outbox × S × ℕ
  recover cfg air now limit m s = visit_all cfg air now (fetch_unprocessed limit m) m s

  -- The relay of main.go: one pass at the start and one at each tick, each with its weather and its
  -- time.
  unfoldable pub run_passes : Config → ℕ → List (Weather × Time) → Outbox → S → Outbox × S
  run_passes cfg limit [] m s = (m, s)
  run_passes cfg limit ((air, now) ∷ rest) m s =
      let (m1, s1, _) = recover cfg air now limit m s in run_passes cfg limit rest m1 s1

  -- `DispatchRecords`
  unfoldable pub dispatch_records : Weather → List Record → Outbox → S → Outbox × S
  dispatch_records air [] m s = (m, s)
  dispatch_records air (r ∷ rest) m s = elim (decode r.name r.payload) [
    | err e ↦ dispatch_records air rest (settle (air.mark_fails r.id) m (mark_failed r.id m)) s
    | ok e ↦ let (m1, s1, _) = deliver air r e m s in dispatch_records air rest m1 s1
  ]

  -- `Publish`, of an event that could be encoded, as the record `r`.
  unfoldable pub publish_durably : Weather → Record → E → Outbox → S → Outbox × S
  unfolding deliver
  publish_durably air r e m s =
      if air.append_fails r.id
      then (m, publish e s)
      else let (m1, s1, _) = deliver air r e (append r m) s in (m1, s1)
