-- ===== src/Jobs/Tries.antt =====
-- How often a job is tried, and what is counted of it.
use realtime_collaborative_e.Base.{
  ℕ, zero, suc, ◌+◌, ◌-◌, ◌*◌, ◌≤◌, ◌<◌, String, ◌≡◌, refl, ◌⊎◌, inl, inr, Option, some, ltb, arith,
  Bool-cases,
}
use realtime_collaborative_e.Base.Map
use realtime_collaborative_e.Base.Map.{Map}
use realtime_collaborative_e.Jobs.{
  Handler, Counts, count_processed, count_failed, run_handler, run_job,
}

module _ {S : Type 0} where
  -- From a try on with `left` tries behind it: the job ends, processed once after at most `left`
  -- failures, or failed in every try.
  abbrev pub Ends : ℕ → Counts → Option (S × Counts) → Type 0
  Ends left c r =
      (s' : S) × (c' : Counts) × (r ≡ some (s', c'))
      × (((c'.processed ≡ c.processed + 1) × (c'.failed ≤ c.failed + left))
          ⊎ ((c'.processed ≡ c.processed) × (c'.failed ≡ c.failed + left + 1)))

  run_handler-Ends :
      (h : Handler S) (attempts fuel left try_no now : ℕ) (s : S) (c : Counts)
      → left ≡ attempts - try_no
      → left < fuel
      → Ends left c (run_handler h attempts fuel try_no now s c)
  unfolding run_handler
  run_handler-Ends h attempts zero left try_no now s c e room = absurd (omega arith)
  run_handler-Ends h attempts (suc fuel) left try_no now s c e room =
      elim (Bool-cases (h s now).1) [
        | inl returned ↦ rw returned ((h s now).0, count_processed c, refl, inl (refl, omega arith))
        | inr threw ↦ elim (Bool-cases (ltb try_no attempts)) [
          | inr last ↦
              rw (threw, last)
                ((h s now).0, count_failed c try_no, refl, inr (refl, ground (arith, e)))
          | inl again ↦
              let (s', c', done, tally) =
                run_handler-Ends h attempts fuel (left - 1) (try_no + 1) (now + 2000 * try_no)
                  (h s now).0 (count_failed c try_no) (omega (arith, e))
                  (ground (arith, e, room)) in
              let more : 0 < left = ground (arith, e) in
              rw (threw, again)
                (
                  s',
                  c',
                  done,
                  elim tally [
                    | inl (p, f) ↦ inl (p, omega (arith, more, f))
                    | inr (p, f) ↦ inr (p, omega (arith, more, f))
                  ],
                )
        ]
      ]

  -- A registered job that may be tried `attempts` times ends, and is counted: as processed once,
  -- after fewer failures than the greater of `attempts` and 1, or as failed that many times and not
  -- processed. Fuel for that many tries is enough.
  pub run_job-Ends :
      (handlers : Map (Handler S)) (h : Handler S) (fuel : ℕ) (name : String) (attempts now : ℕ)
      (s : S) (c : Counts)
      → Map.get handlers name ≡ some h
      → attempts - 1 < fuel
      → (s' : S) × (c' : Counts) × (run_job handlers fuel name attempts now s c ≡ some (s', c'))
        × (((c'.processed ≡ c.processed + 1) × (c'.failed ≤ c.failed + (attempts - 1)))
            ⊎ ((c'.processed ≡ c.processed) × (c'.failed ≡ c.failed + (attempts - 1) + 1)))
  unfolding run_job
  run_job-Ends handlers h fuel name attempts now s c g room =
      let (s', c', done, tally) =
        run_handler-Ends h attempts fuel (attempts - 1) 1 now s c refl room in
      (s', c', rw (g, run_job) done, tally)
