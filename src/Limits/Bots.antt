-- ===== src/Limits/Bots.antt =====
-- The test on distinct paths, `tooManyDistinctPaths`, which counts the times of the requests and not
-- their paths.
use realtime_collaborative_e.Base.{
  ℕ, ◌+◌, ◌≤◌, ◌<◌, String, ◌≡◌, refl, ◌∙◌, inl, inr, false, none, List, [], ◌∷◌, ◌++◌, ltb, arith,
  length, Bool-cases, Option-cases,
}
use realtime_collaborative_e.Base.Map
use realtime_collaborative_e.Base.Set
use realtime_collaborative_e.Limits.{
  Rules, Request, Stores, State, next, refused, is_admin, get_ip, count_of, or_else, block_key,
  paths_key, stamp,
}
use realtime_collaborative_e.Limits.Checks.{
  Outcome, and_then, after_emergency, bump, punish, check_emergency, check_ip, check_user,
  check_docs, check_text, check_comment, check_usage, check_bot, check_admitted, throttle,
  rate_limit, too_many_distinct_paths,
}
use realtime_collaborative_e.Limits.Branches.{
  rate_limit_free, rate_limit_blocked, throttle_over, taken_up,
}

module _ (r : Stores) (c : Rules) where
  abbrev Same : State r → State r → Type 0
  Same s t = t.sets ≡ s.sets

  and_then-Same :
      (s : State r) (o : Outcome r) (f : State r → Outcome r)
      → Same s o.0
      → ((t : State r) → Same t (f t).0)
      → Same s (and_then r o f).0
  and_then-Same s (t, es, next) f h k = k t ∙ h
  and_then-Same s (t, es, refused n m e) f h k = h

  check_emergency-Same :
      (s : State r) (now : ℕ) (ip : String) → Same s (check_emergency r c s now ip).0
  unfolding check_emergency bump
  check_emergency-Same s now ip = ground arith

  check_ip-Same :
      (s : State r) (now : ℕ) (ip : String) (q : Request) → Same s (check_ip r c s now ip q).0
  unfolding check_ip bump
  check_ip-Same s now ip q = ground arith

  check_user-Same : (s : State r) (now : ℕ) (q : Request) → Same s (check_user r c s now q).0
  unfolding check_user bump
  check_user-Same s now q = ground arith

  check_docs-Same :
      (s : State r) (now : ℕ) (ip : String) (q : Request) → Same s (check_docs r c s now ip q).0
  unfolding check_docs bump punish
  check_docs-Same s now ip q = ground arith

  check_comment-Same :
      (s : State r) (now : ℕ) (ip : String) (q : Request) → Same s (check_comment r c s now ip q).0
  unfolding check_comment bump punish check_text
  check_comment-Same s now ip q = ground arith

  check_usage-Same :
      (s : State r) (now : ℕ) (ip : String) (q : Request) → Same s (check_usage r c s now ip q).0
  check_usage-Same s now ip q =
      and_then-Same s (check_ip r c s now ip q) _ (check_ip-Same s now ip q) λ s1.
        and_then-Same s1 (check_user r c s1 now q) _ (check_user-Same s1 now q) λ s2.
          and_then-Same s2 (check_docs r c s2 now ip q) _ (check_docs-Same s2 now ip q)
            λ s3. check_comment-Same s3 now ip q

  -- The sets once the time of a request is added.
  abbrev stamped : State r → ℕ → String → r.sets.Store
  stamped s now ip =
      r.sets.expire (r.sets.sadd s.sets now (paths_key ip) (stamp now)).0 now (paths_key ip) 60000

  -- That the time is added, and that no more are there than the threshold.
  abbrev IsCounted : State r → r.sets.Store → ℕ → String → Type 0
  IsCounted s t now ip =
      (t ≡ stamped s now ip)
      × (ltb c.path_variety (length (r.sets.smembers (stamped s now ip) now (paths_key ip)))
          ≡ false)

  IsCounted-from :
      (s s' : State r) (t : r.sets.Store) (now : ℕ) (ip : String)
      → Same s s'
      → IsCounted s' t now ip
      → IsCounted s t now ip
  IsCounted-from s s' t now ip h k = rw h at k

  check_bot-next :
      (s : State r) (now : ℕ) (ip : String)
      → (check_bot r c s now ip).2 ≡ next
      → IsCounted s (check_bot r c s now ip).0.sets now ip
  unfolding check_bot too_many_distinct_paths
  check_bot-next s now ip h =
      let test =
        ltb c.path_variety (length (r.sets.smembers (stamped s now ip) now (paths_key ip))) in
      elim (Bool-cases test) [ inl over ↦ cc (rw over at h) | inr few ↦ rw few (refl, refl) ]

  and_then-bot :
      (s : State r) (now : ℕ) (ip : String) (o : Outcome r)
      → Same s o.0
      → (and_then r o (λ t. check_bot r c t now ip)).2 ≡ next
      → IsCounted s (and_then r o (λ t. check_bot r c t now ip)).0.sets now ip
  and_then-bot s now ip (t, es, next) h e =
      IsCounted-from s t _ now ip h (check_bot-next t now ip e)
  and_then-bot s now ip (t, es, refused n m x) h e = cc

  check_admitted-next :
      (s : State r) (now : ℕ) (ip : String) (q : Request)
      → (check_admitted r c s now ip q).2 ≡ next
      → IsCounted s (check_admitted r c s now ip q).0.sets now ip
  check_admitted-next s now ip q h = elim (Bool-cases (is_admin c q)) [
    | inl admin ↦ rw admin (check_bot-next s now ip (rw admin at h))
    | inr other ↦ rw other (
        and_then-bot s now ip (check_usage r c s now ip q) (check_usage-Same s now ip q)
          (rw other at h))
  ]

  throttle-next :
      (s : State r) (now : ℕ) (ip : String) (q : Request)
      → (throttle r c s now ip q).0.2 ≡ next
      → IsCounted s (throttle r c s now ip q).0.0.sets now ip
  throttle-next s now ip q h =
      elim (Bool-cases (ltb c.max_concurrent_per_ip (count_of (Map.get s.inflight ip) + 1))) [
        | inl over ↦ cc (throttle_over r c s now ip q over)
        | inr under ↦ rw under (check_admitted-next (taken_up r c s ip) now ip q (rw under at h))
      ]

  after_emergency-next :
      (s : State r) (now : ℕ) (q : Request) (o : Outcome r)
      → Same s o.0
      → (after_emergency r o (λ t. throttle r c t now (get_ip q) q)).0.2 ≡ next
      → IsCounted s
          (after_emergency r o (λ t. throttle r c t now (get_ip q) q)).0.0.sets
          now
          (get_ip q)
  after_emergency-next s now q (t, es, next) h e =
      IsCounted-from s t _ now (get_ip q) h (throttle-next t now (get_ip q) q e)
  after_emergency-next s now q (t, es, refused n m x) h e = cc

  rate_limit-IsCounted :
      (s : State r) (now : ℕ) (q : Request)
      → (rate_limit r c s now q).0.2 ≡ next
      → IsCounted s (rate_limit r c s now q).0.0.sets now (get_ip q)
  rate_limit-IsCounted s now q h =
      let ip = get_ip q in
      elim (Option-cases (or_else (r.blocks.get s.blocks now (block_key ip)) none)) [
        | inr (v, blocked) ↦ cc (rate_limit_blocked r c s now q v blocked)
        | inl free ↦ rw (rate_limit_free r c s now q free) (
            after_emergency-next s now q (check_emergency r c s now ip)
              (check_emergency-Same s now ip) (rw (rate_limit_free r c s now q free) at h))
      ]

  -- Requests of one address that the middleware let pass, one after the other, each within a minute
  -- of the one before and none at the time of an earlier one, with the times of them all. What else
  -- happens between them leaves the sets alone.
  pub data Passed (ip : String) : ℕ → State r → List String → Type 0 where
    first :
        (s : State r) (now : ℕ) (q : Request)
        → get_ip q ≡ ip
        → r.sets.smembers s.sets now (paths_key ip) ≡ []
        → (rate_limit r c s now q).0.2 ≡ next
        → Passed ip now (rate_limit r c s now q).0.0 (stamp now ∷ [])
    more :
        {last : ℕ} {s : State r} {times : List String}
        → Passed ip last s times
        → (s' : State r) (now : ℕ) (q : Request) → s'.sets ≡ s.sets
        → get_ip q ≡ ip
        → last ≤ now
        → now < last + 60000
        → Set.has times (stamp now) ≡ false
        → (rate_limit r c s' now q).0.2 ≡ next
        → Passed ip now (rate_limit r c s' now q).0.0 (times ++ stamp now ∷ [])

  -- The set holds the times, and they are at most as many as the threshold.
  abbrev Holds : String → ℕ → State r → List String → Type 0
  Holds ip last s times =
      ((at : ℕ) → last ≤ at → at < last + 60000 → r.sets.smembers s.sets at (paths_key ip) ≡ times)
      × (length times ≤ c.path_variety)

  Holds-step :
      (ip : String) (s : State r) (now : ℕ) (q : Request) (times : List String)
      → get_ip q ≡ ip
      → r.sets.smembers s.sets now (paths_key ip) ≡ times
      → Set.has times (stamp now) ≡ false
      → (rate_limit r c s now q).0.2 ≡ next
      → Holds ip now (rate_limit r c s now q).0.0 (times ++ stamp now ∷ [])
  unfolding Set.add
  Holds-step ip s now q times a m f h =
      let key = paths_key ip in
      let counted : IsCounted s (rate_limit r c s now q).0.0.sets now ip =
        rw a at (rate_limit-IsCounted s now q h) in
      let added = (r.sets.sadd s.sets now key (stamp now)).0 in
      let grown : r.sets.smembers added now key ≡ times ++ stamp now ∷ [] =
        r.sets.smembers-sadd s.sets now key (stamp now) ∙ rw (m, f) in
      let kept : (at : ℕ)
          → now ≤ at
          → at < now + 60000
          → r.sets.smembers (stamped s now ip) at key ≡ times ++ stamp now ∷ [] =
        λ at lo hi. r.sets.smembers-expire added now at key 60000 lo hi ∙ grown in
      let few = rw (kept now (omega arith) (omega arith)) at counted.1 in
      (λ at lo hi. rw counted.0 (kept at lo hi), ground (arith, few))

  Passed-Holds :
      {ip : String} {last : ℕ} {s : State r} {times : List String}
      → Passed ip last s times
      → Holds ip last s times
  unfolding Set.has
  Passed-Holds {ip} (first s now q a m h) = Holds-step ip s now q [] a m refl h
  Passed-Holds {ip} (more {last} {s} {times} before s' now q same a lo hi f h) =
      let there = (Passed-Holds before).0 now lo hi in
      Holds-step ip s' now q times a (rw same there) f h

  -- Of the requests of one address, each less than a minute after the one before it, with no two at
  -- the same millisecond, from a moment when the address has no set of paths, and with no other
  -- change of the sets between them, the middleware lets at most as many pass in a row as the
  -- threshold on distinct paths: whatever paths they ask for, were it one, and whoever sends them.
  pub Passed-few :
      {ip : String} {last : ℕ} {s : State r} {times : List String}
      → Passed ip last s times
      → length times ≤ c.path_variety
  Passed-few h = (Passed-Holds h).1
