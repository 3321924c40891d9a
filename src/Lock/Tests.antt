-- ===== src/Lock/Tests.antt =====
-- The lock over a store in memory.
use realtime_collaborative_e.Base.{String, ◌≡◌, refl, none, List, [], ◌∷◌, arith, inr, ◌≢◌, eq_iff}
use realtime_collaborative_e.Redis.Memory.{memory}
use realtime_collaborative_e.Lock.{acquire}
use realtime_collaborative_e.Lock.Exclusion.{Call, acquires, releases, run, acquire_exclusive}

abbrev empty : (memory String).Store
empty j = none

abbrev rivals : List Call
rivals = acquires 110 "k" "b" 5000 ∷ releases 120 "k" "b" ∷ acquires 130 "j" "b" 5000 ∷ []

b_not_a : ◌≢◌ {A = String} "b" "a"
b_not_a = ground (arith, eq_iff "b" "a")

acquire_exclusive_example :
    acquire
      (memory String)
      (run (memory String) (acquire (memory String) empty 100 "k" "a" 5000).0 rivals)
      200
      "k"
      "c"
      9
    ≡ (run (memory String) (acquire (memory String) empty 100 "k" "a" 5000).0 rivals, none)
unfolding acquire
acquire_exclusive_example =
    acquire_exclusive (memory String) empty "k" "a" 100 5000 rivals 200 "c" 9 refl
      (
        omega arith,
        omega arith,
        (omega arith, omega arith, inr b_not_a, (omega arith, omega arith, tt)),
      )
      (omega arith) (omega arith)
