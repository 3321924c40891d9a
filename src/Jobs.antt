-- ===== src/Jobs.antt =====
-- The job queue without BullMQ: `register`, and the runner that `add` starts, of
-- api/src/jobs/job-queue.service.ts.
-- A handler is a function of the program's state and the time, with whether it returned or threw. The
-- timers between the tries of one job are the times that the tries get; nothing else runs between.
pub mod Tries
mod Tests
use realtime_collaborative_e.Base.{
  ℕ, zero, suc, ◌+◌, ◌*◌, String, Bool, true, false, Option, none, some, List, [], ◌∷◌, ◌++◌, ltb,
  if◌then◌else◌,
}
use realtime_collaborative_e.Base.Map
use realtime_collaborative_e.Base.Map.{Map}

-- `JobHandler`
abbrev pub Handler : Type 0 → Type 0
Handler S = S → ℕ → S × Bool

-- The counters `jobs:processed` and `jobs:failed`, and the entries `jobs.fail` of the audit log by
-- their `tryNo`.
pub record Counts : Type 0 where
  pub processed : ℕ
  pub failed : ℕ
  pub failures : List ℕ

abbrev pub count_processed : Counts → Counts
count_processed c = record c { processed = c.processed + 1 }

abbrev pub count_failed : Counts → ℕ → Counts
count_failed c try_no = record c { failed = c.failed + 1; failures = c.failures ++ try_no ∷ [] }

module _ {S : Type 0} where
  -- `register`
  abbrev pub register : Map (Handler S) → String → Handler S → Map (Handler S)
  register handlers name handler = Map.set handlers name handler

  -- `run(tryNo)` for a handler that is registered, with the fuel of one unit for each try.
  pub run_handler : Handler S → ℕ → ℕ → ℕ → ℕ → S → Counts → Option (S × Counts)
  run_handler h attempts zero try_no now s c = none
  run_handler h attempts (suc fuel) try_no now s c =
      let (s', returned) = h s now in
      let c' = count_failed c try_no in
      let retry = run_handler h attempts fuel (try_no + 1) (now + 2000 * try_no) s' c' in
      if returned
      then some (s', count_processed c)
      else if ltb try_no attempts
      then retry
      else some (s', c')

  -- What `add` starts, once its delay has passed.
  pub run_job : Map (Handler S) → ℕ → String → ℕ → ℕ → S → Counts → Option (S × Counts)
  run_job handlers fuel name attempts now s c = elim (Map.get handlers name) [
    | none ↦ some (s, c)
    | some h ↦ run_handler h attempts fuel 1 now s c
  ]
