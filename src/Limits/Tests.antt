-- ===== src/Limits/Tests.antt =====
-- The middleware over values in memory.
use realtime_collaborative_e.Base.{
  ℕ, ◌+◌, ◌≤◌, String, ◌≡◌, refl, ◌⊎◌, false, none, some, List, [], ◌∷◌, arith, length,
}
use realtime_collaborative_e.Base.Map
use realtime_collaborative_e.Base.Set
use realtime_collaborative_e.Redis.Memory.{memory, set_memory, counter_memory}
use realtime_collaborative_e.Gateway.Text.{trim}
use realtime_collaborative_e.Limits.Text.{before_comma, starts_with, is_comments_path}
use realtime_collaborative_e.Limits.{
  Window, Rules, Request, Stores, State, next, is_admin, get_ip, count_of, or_else, block_key,
  ip_key, owner_key, stamp,
}
use realtime_collaborative_e.Limits.Checks.{
  rate_limit, bump, check_emergency, check_ip, check_user, check_docs, check_comment, check_bot,
  too_many_distinct_paths,
}
use realtime_collaborative_e.Limits.Flight.{finished, rate_limit-finished}
use realtime_collaborative_e.Limits.Passed.{rate_limit-next}
use realtime_collaborative_e.Limits.Bots.{Passed, first, more, Passed-few}

abbrev stores : Stores
stores = record { counters = counter_memory; sets = set_memory; blocks = memory String }

abbrev per_minute : ℕ → Window
per_minute n = record { limit = n; window_sec = 60 }

abbrev rules : Rules
rules = record {
  docs_window = per_minute 100;
  default_ip_window = per_minute 600;
  default_user_window = per_minute 600;
  comment_window = per_minute 10;
  emergency_per_ip = 0;
  mention_max = 5;
  admin_emails = "root@x.org" ∷ [];
  max_concurrent_per_ip = 20;
  path_variety = 2;
  profanity_words = "foo" ∷ "bar" ∷ [];
  to_lower_case = λ s. s;
}

abbrev visited : List String → State stores
visited times = record {
  counters = λ k. 7;
  sets = λ k. (times, none);
  blocks = λ k. none;
  inflight = ("9.9.9.9", 3) ∷ [];
}

abbrev reads : Request
reads = record {
  forwarded_for = some "9.9.9.9, 10.0.0.1";
  remote_address = some "10.0.0.1";
  user_id = some "u1";
  email = some "ann@x.org";
  path = "/api/docs/d1";
  method = "GET";
  comment = none;
  text = none;
  content = none;
}

passes : (rate_limit stores rules (visited []) 5 reads).0.2 ≡ next
unfolding rate_limit check_emergency check_ip check_user check_docs check_comment check_bot
    too_many_distinct_paths bump before_comma starts_with is_comments_path trim Map.get Map.set
    Set.has Set.add
passes = refl

not_admin : is_admin rules reads ≡ false
unfolding Set.has
not_admin = refl

rate_limit-next_example :
    (or_else (stores.blocks.get (visited []).blocks 5 (block_key (get_ip reads))) none ≡ none)
    × (count_of (Map.get (visited []).inflight (get_ip reads)) + 1 ≤ 20)
    × (stores.counters.count (visited []).counters 5 (ip_key (get_ip reads)) + 1 ≤ 600)
    × ((starts_with "/api/docs/d1" "/api/docs" ≡ false)
        ⊎ (stores.counters.count
                (visited []).counters
                5
                (owner_key "docs" (some "u1") (get_ip reads))
              + 1
            ≤ 100))
rate_limit-next_example = rate_limit-next stores rules (visited []) 5 reads passes not_admin

rate_limit-finished_example :
    count_of (
      Map.get
        (finished stores rules
          (rate_limit stores rules (visited []) 5 reads)
          (get_ip reads)).inflight
        "9.9.9.9")
    ≡ count_of (Map.get (visited []).inflight "9.9.9.9")
rate_limit-finished_example = rate_limit-finished stores rules (visited []) 5 reads "9.9.9.9"

-- A second request, 3 milliseconds after the first.
again :
    (rate_limit stores rules (rate_limit stores rules (visited []) 5 reads).0.0 8 reads).0.2 ≡ next
unfolding rate_limit check_emergency check_ip check_user check_docs check_comment check_bot
    too_many_distinct_paths bump before_comma starts_with is_comments_path trim Map.get Map.set
    Set.has Set.add
again = refl

later : Set.has (stamp 5 ∷ []) (stamp 8) ≡ false
unfolding Set.has
later = refl

abbrev passed_once :
    Passed stores rules
      (get_ip reads)
      5
      (rate_limit stores rules (visited []) 5 reads).0.0
      (stamp 5 ∷ [])
passed_once = first (visited []) 5 reads refl refl passes

abbrev passed_twice :
    Passed stores rules
      (get_ip reads)
      8
      (rate_limit stores rules (rate_limit stores rules (visited []) 5 reads).0.0 8 reads).0.0
      (stamp 5 ∷ stamp 8 ∷ [])
passed_twice =
    more passed_once (rate_limit stores rules (visited []) 5 reads).0.0 8 reads refl refl
      (omega arith) (omega arith) later again

Passed-few_example : length (stamp 5 ∷ stamp 8 ∷ []) ≤ 2
Passed-few_example = Passed-few stores rules passed_twice
