-- ===== src/Tests/Outbox.antt =====
-- The outbox: a unit of work whose marks fail, a crash after a commit, and a record nobody can read.
use airbnb.Common.{
  Text, codes, is_empty, Time, validation, Result, ok, err, ℕ, ◌≡◌, refl, true, false, List, [],
  ◌∷◌, All, inr, if◌then◌else◌, arith,
}
use airbnb.Events.Outbox.{
  Record, Outbox, new_memory_outbox, append, append_all, mark_processed, requeue,
}
use airbnb.Events.Relay.{Weather, Config, deliver, dispatch_records, run_passes}
use airbnb.Events.Delivery.{note}
use airbnb.Events.Course.{
  Op, committing, crashing, requeueing, step, run, FreshRun, Ended, nothing_lost,
}

abbrev read : Text → Text → Result Text
read name payload = if is_empty payload then err (validation "no payload") else ok payload

abbrev row : ℕ → Text → Record
row id payload = record {
  id = id;
  name = codes "booking";
  payload = payload;
  created_at = 5;
  attempts = 0;
}

-- A store that cannot mark what was delivered.
abbrev forgetful : Weather
forgetful = record {
  append_fails = λ i. false;
  increment_fails = λ i. false;
  dead_letter_fails = λ i. false;
  mark_fails = λ i. true;
}

abbrev course : List (Op Text)
course =
    committing forgetful (row 1 (codes "a") ∷ [])
    ∷ crashing (row 2 (codes "b") ∷ row 3 [] ∷ [])
    ∷ requeueing 1
    ∷ []

abbrev budget : Config
budget = record { has_dlq = true; max_attempts = 1 }

abbrev passes : List (Weather × Time)
passes = (forgetful, 7) ∷ (forgetful, 8) ∷ []

abbrev before : Outbox × List Text
before = run read course new_memory_outbox []

abbrev after : Outbox × List Text
after = run_passes read note budget 500 passes before.0 before.1

fresh : FreshRun read course new_memory_outbox []
unfolding step append_all append requeue dispatch_records deliver mark_processed new_memory_outbox
fresh = (
  (tt, tt),
  ((((λ e. omega arith), tt), (((λ e. omega arith), ((λ e. omega arith), tt)), tt)), (tt, tt)),
)

nothing_lost_example :
    (after.0.records ≡ before.0.records) × All (Ended read after.0 after.1) before.0.records
unfolding run step append_all append requeue dispatch_records deliver mark_processed
    new_memory_outbox
nothing_lost_example =
    nothing_lost read course budget 500 passes fresh refl (omega arith)
      (((λ i. refl), (λ i. refl)), (((λ i. refl), (λ i. refl)), tt)) (inr (omega arith)) refl
