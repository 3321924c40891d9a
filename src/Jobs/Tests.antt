-- ===== src/Jobs/Tests.antt =====
-- A job that fails twice.
use realtime_collaborative_e.Base.{ℕ, ◌+◌, ◌≤◌, ◌≡◌, refl, ◌⊎◌, some, [], ◌∷◌, leb, arith}
use realtime_collaborative_e.Base.Map
use realtime_collaborative_e.Jobs.{Handler, Counts, run_job, run_handler}
use realtime_collaborative_e.Jobs.Tries.{run_job-Ends}

-- It counts its tries, and returns at the third.
abbrev third_time : Handler ℕ
third_time s now = (s + 1, leb 2 s)

abbrev none_yet : Counts
none_yet = record { processed = 0; failed = 0; failures = [] }

third_time-runs :
    run_job (("job", third_time) ∷ []) 3 "job" 3 0 0 none_yet
    ≡ some (3, record { processed = 1; failed = 2; failures = 1 ∷ 2 ∷ [] })
unfolding run_job run_handler Map.get
third_time-runs = refl

run_job-Ends_example :
    (s' : ℕ) × (c' : Counts) × (run_job (("job", third_time) ∷ []) 3 "job" 3 0 0 none_yet
      ≡ some (s', c'))
    × (((c'.processed ≡ 1) × (c'.failed ≤ 2)) ⊎ ((c'.processed ≡ 0) × (c'.failed ≡ 3)))
unfolding Map.get
run_job-Ends_example =
    run_job-Ends (("job", third_time) ∷ []) third_time 3 "job" 3 0 0 none_yet refl (omega arith)
