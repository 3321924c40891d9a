-- ===== src/Cache/Tests.antt =====
-- The cache run on small histories.
use realtime_collaborative_e.Base.{
  ℕ, String, ◌≡◌, refl, ◌≢◌, none, some, List, [], ◌∷◌, arith, eq_iff, ◌≤◌,
}
use realtime_collaborative_e.Base.Map
use realtime_collaborative_e.Cache.{Cache, Entry, get, set}
use realtime_collaborative_e.Cache.Bounds.{Call, gets, sets, step, run, IsValid, run-IsValid}
use realtime_collaborative_e.Cache.Lookup.{history, get_sound}

abbrev fresh : Cache ℕ
fresh = record { store = []; order = []; max = 1 }

a_named : ◌≢◌ {A = String} "a" ""
a_named = ground (arith, eq_iff "a" "")

b_named : ◌≢◌ {A = String} "b" ""
b_named = ground (arith, eq_iff "b" "")

abbrev calls : List (Call ℕ)
calls = sets 0 "a" 1 10 ∷ sets 5 "b" 2 10 ∷ gets 6 "a" ∷ []

fresh-IsValid : IsValid fresh
unfolding Map.get
fresh-IsValid = record { covered = λ k h. absurd (h refl); bounded = omega arith }

run-IsValid_example : IsValid (run fresh calls)
run-IsValid_example = run-IsValid calls fresh (a_named, (b_named, tt)) fresh-IsValid

-- The second key evicts the first.
evicted : run fresh calls ≡ record {
  store = ("b", record { value = 2; expires_at = 10005 }) ∷ [];
  order = "b" ∷ [];
  max = 1;
}
unfolding run step set get Map.set Map.get Map.delete
evicted = refl

get_sound_example :
    (e : Entry ℕ) × (history (λ _. none) calls "b" ≡ some e) × (e.value ≡ 2) × (9 ≤ e.expires_at)
unfolding run step set get Map.set Map.get Map.delete
get_sound_example = get_sound calls 1 9 "b" 2 refl
