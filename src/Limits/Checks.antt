-- ===== src/Limits/Checks.antt =====
-- The checks of api/src/common/rate-limit.middleware.ts, in the order in which it makes them.
use realtime_collaborative_e.Base.{
  ℕ, ◌+◌, ◌-◌, ◌*◌, String, Bool, true, false, ◌&&◌, not, none, some, List, [], ◌∷◌, ◌++◌, length,
  map, ltb, ◌==◌, ◌===◌, if◌then◌else◌,
}
use realtime_collaborative_e.Base.Map
use realtime_collaborative_e.Base.Map.{Map}
use realtime_collaborative_e.Base.Set
use realtime_collaborative_e.Limits.Text.{
  starts_with, is_comments_path, mentions, contains_profanity,
}
use realtime_collaborative_e.Limits.{
  Rules, Request, Event, Answer, Stores, State, or_else, get_ip, comment_text, is_admin, count_of,
  owner_key, ip_key, user_key, emergency_key, abuse_key, block_key, paths_key, stamp,
  rate_emergency, rate_ip, rate_user, rate_docs, comment_flood, comment_mentions, comment_profanity,
  bot_pattern, next, refused,
}

module _ (r : Stores) where
  abbrev pub Outcome : Type 0
  Outcome = State r × List Event × Answer

  -- The code after a check runs when the check has not answered.
  abbrev pub and_then : Outcome → (State r → Outcome) → Outcome
  and_then (s, es, refused c t m) f = (s, es, refused c t m)
  and_then (s, es, next) f = let (t, fs, a) = f s in (t, es ++ fs, a)

  unfoldable pub bump : State r → ℕ → String → ℕ → State r × ℕ
  bump s now key window_sec =
      let (counters, val) = r.counters.incr s.counters now key in
      let kept = r.counters.expire counters now key (window_sec * 1000) in
      (record s { counters = if val == 1 then kept else counters }, val)

  unfoldable pub too_many_distinct_paths : Rules → State r → ℕ → String → State r × Bool
  too_many_distinct_paths c s now ip =
      let key = paths_key ip in
      let sets = r.sets.expire (r.sets.sadd s.sets now key (stamp now)).0 now key 60000 in
      (record s { sets = sets }, ltb c.path_variety (length (r.sets.smembers sets now key)))

  abbrev pub block : State r → ℕ → String → ℕ → State r
  block s now ip sec = record s {
    blocks = r.blocks.set_ex s.blocks now (block_key ip) "1" (sec * 1000);
  }

  -- A refusal counts as abuse; more than `most` of them block the address.
  unfoldable pub punish : State r → ℕ → String → ℕ → State r
  punish s now ip most =
      let (t, b) = bump s now (abuse_key ip) 600 in if ltb most b then block t now ip 900 else t

  unfoldable pub check_emergency : Rules → State r → ℕ → String → Outcome
  check_emergency c s now ip =
      let (t, val) = bump s now (emergency_key ip) 60 in
      if c.emergency_per_ip == 0
      then (s, [], next)
      else if ltb c.emergency_per_ip val
      then (t, rate_emergency ip ∷ [], refused 429 (some 60) "Too many requests")
      else (t, [], next)

  unfoldable pub check_ip : Rules → State r → ℕ → String → Request → Outcome
  check_ip c s now ip q =
      let w = c.default_ip_window in
      let (t, count) = bump s now (ip_key ip) w.window_sec in
      if ltb w.limit count
      then (
        t,
        rate_ip ip q.path ∷ [],
        refused 429 (some w.window_sec) "Too many requests from this IP",
      )
      else (t, [], next)

  unfoldable pub check_user : Rules → State r → ℕ → Request → Outcome
  check_user c s now q = elim (or_else q.user_id none) [
    | none ↦ (s, [], next)
    | some user ↦
        let w = c.default_user_window in
        let (t, count) = bump s now (user_key user) w.window_sec in
        if ltb w.limit count
        then (
          t,
          rate_user user q.path ∷ [],
          refused 429 (some w.window_sec) "Too many requests for user",
        )
        else (t, [], next)
  ]

  unfoldable pub check_docs : Rules → State r → ℕ → String → Request → Outcome
  check_docs c s now ip q =
      let w = c.docs_window in
      let (t, val) = bump s now (owner_key "docs" (or_else q.user_id none) ip) w.window_sec in
      let e = rate_docs ip q.user_id q.path in
      if not (starts_with q.path "/api/docs")
      then (s, [], next)
      else if ltb w.limit val
      then (
        punish t now ip 50,
        e ∷ [],
        refused 429 (some w.window_sec) "Rate limit exceeded for documents",
      )
      else (t, [], next)

  unfoldable pub check_text : Rules → State r → String → Request → String → Outcome
  check_text c s ip q text =
      let n = length (Set.from (map c.to_lower_case (mentions text))) in
      if ltb c.mention_max n
      then (
        s,
        comment_mentions ip q.user_id n ∷ [],
        refused 400 none "Too many mentions in a single comment",
      )
      else if contains_profanity c.profanity_words (c.to_lower_case text)
      then (s, comment_profanity ip q.user_id ∷ [], refused 400 none "Profanity is not allowed")
      else (s, [], next)

  unfoldable pub check_comment : Rules → State r → ℕ → String → Request → Outcome
  check_comment c s now ip q =
      let w = c.comment_window in
      let (t, val) = bump s now (owner_key "comment" (or_else q.user_id none) ip) w.window_sec in
      if not (is_comments_path q.path && q.method === "POST")
      then (s, [], next)
      else if ltb w.limit val
      then (
        punish t now ip 20,
        comment_flood ip q.user_id ∷ [],
        refused 429 none "Too many comments",
      )
      else elim (comment_text q) [ none ↦ (t, [], next) | some text ↦ check_text c t ip q text ]

  -- The checks that an administrator passes by.
  abbrev pub check_usage : Rules → State r → ℕ → String → Request → Outcome
  check_usage c s now ip q = and_then (check_ip c s now ip q) λ s.
      and_then (check_user c s now q)
        λ s. and_then (check_docs c s now ip q) λ s. check_comment c s now ip q

  unfoldable pub check_bot : Rules → State r → ℕ → String → Outcome
  check_bot c s now ip =
      let (t, many) = too_many_distinct_paths c s now ip in
      if many
      then (
        block t now ip 600,
        bot_pattern ip ∷ [],
        refused 429 none "Blocked due to suspicious activity",
      )
      else (t, [], next)

  -- The code that runs once the request counts as in flight.
  abbrev pub check_admitted : Rules → State r → ℕ → String → Request → Outcome
  check_admitted c s now ip q =
      let checked = check_usage c s now ip q in
      and_then (if is_admin c q then (s, [], next) else checked) λ s. check_bot c s now ip

  -- The throttle on requests in flight, with whether the `finish` handler was set.
  abbrev pub throttle : Rules → State r → ℕ → String → Request → Outcome × Bool
  throttle c s now ip q =
      let n = count_of (Map.get s.inflight ip) + 1 in
      let up = Map.set s.inflight ip n in
      if ltb c.max_concurrent_per_ip n
      then (
        (
          record s { inflight = Map.set up ip (n - 1) },
          [],
          refused 429 none "Too many concurrent requests",
        ),
        false,
      )
      else (check_admitted c (record s { inflight = up }) now ip q, true)

  -- As `and_then`, for a step that tells whether it has set the handler.
  abbrev pub after_emergency : Outcome → (State r → Outcome × Bool) → Outcome × Bool
  after_emergency (s, es, refused c t m) f = ((s, es, refused c t m), false)
  after_emergency (s, es, next) f = let ((t, fs, a), set) = f s in ((t, es ++ fs, a), set)

  -- `rateLimit`, with whether the `finish` handler was set
  unfoldable pub rate_limit : Rules → State r → ℕ → Request → Outcome × Bool
  rate_limit c s now q =
      let ip = get_ip q in
      elim (or_else (r.blocks.get s.blocks now (block_key ip)) none) [
        | some _ ↦ ((s, [], refused 429 none "Temporarily blocked"), false)
        | none ↦ after_emergency (check_emergency c s now ip) λ s. throttle c s now ip q
      ]

  -- The handler of `finish`
  unfoldable pub finish : State r → String → State r
  finish s ip = record s { inflight = Map.set s.inflight ip (count_of (Map.get s.inflight ip) - 1) }
