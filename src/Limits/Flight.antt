-- ===== src/Limits/Flight.antt =====
-- What `inflight` counts: the requests whose `finish` has not come yet.
use realtime_collaborative_e.Base.{
  ℕ, ◌+◌, ◌-◌, String, ◌≡◌, ◌∙◌, inl, inr, Bool, true, false, none, arith, eq_iff, Bool-cases,
  Option-cases,
}
use realtime_collaborative_e.Base.Map
use realtime_collaborative_e.Base.Map.{Map, get-set}
use realtime_collaborative_e.Limits.{
  Rules, Request, Stores, State, next, refused, is_admin, get_ip, count_of, or_else, block_key,
}
use realtime_collaborative_e.Limits.Checks.{
  Outcome, and_then, after_emergency, bump, punish, check_emergency, check_ip, check_user,
  check_docs, check_text, check_comment, check_usage, check_bot, check_admitted, throttle,
  rate_limit, finish, too_many_distinct_paths,
}
use realtime_collaborative_e.Limits.Branches.{rate_limit_free, rate_limit_blocked}

module _ (r : Stores) (c : Rules) where
  abbrev Same : State r → State r → Type 0
  Same s t = t.inflight ≡ s.inflight

  and_then-Same :
      (s : State r) (o : Outcome r) (f : State r → Outcome r)
      → Same s o.0
      → ((t : State r) → Same t (f t).0)
      → Same s (and_then r o f).0
  and_then-Same s (t, es, next) f h k = k t ∙ h
  and_then-Same s (t, es, refused n m e) f h k = h

  punish-Same : (s : State r) (now : ℕ) (ip : String) (most : ℕ) → Same s (punish r s now ip most)
  unfolding punish bump
  punish-Same s now ip most = ground arith

  pub check_emergency-Same :
      (s : State r) (now : ℕ) (ip : String) → Same s (check_emergency r c s now ip).0
  unfolding check_emergency bump
  check_emergency-Same s now ip = ground arith

  check_ip-Same :
      (s : State r) (now : ℕ) (ip : String) (q : Request) → Same s (check_ip r c s now ip q).0
  unfolding check_ip bump
  check_ip-Same s now ip q = ground arith

  check_user-Same : (s : State r) (now : ℕ) (q : Request) → Same s (check_user r c s now q).0
  unfolding check_user bump
  check_user-Same s now q = ground arith

  check_docs-Same :
      (s : State r) (now : ℕ) (ip : String) (q : Request) → Same s (check_docs r c s now ip q).0
  unfolding check_docs bump punish
  check_docs-Same s now ip q = ground arith

  check_text-Same :
      (s : State r) (ip : String) (q : Request) (text : String)
      → Same s (check_text r c s ip q text).0
  unfolding check_text
  check_text-Same s ip q text = ground arith

  check_comment-Same :
      (s : State r) (now : ℕ) (ip : String) (q : Request) → Same s (check_comment r c s now ip q).0
  unfolding check_comment bump punish check_text
  check_comment-Same s now ip q = ground arith

  check_bot-Same : (s : State r) (now : ℕ) (ip : String) → Same s (check_bot r c s now ip).0
  unfolding check_bot too_many_distinct_paths
  check_bot-Same s now ip = ground arith

  check_usage-Same :
      (s : State r) (now : ℕ) (ip : String) (q : Request) → Same s (check_usage r c s now ip q).0
  check_usage-Same s now ip q =
      and_then-Same s (check_ip r c s now ip q) _ (check_ip-Same s now ip q) λ s1.
        and_then-Same s1 (check_user r c s1 now q) _ (check_user-Same s1 now q) λ s2.
          and_then-Same s2 (check_docs r c s2 now ip q) _ (check_docs-Same s2 now ip q)
            λ s3. check_comment-Same s3 now ip q

  check_admitted-Same :
      (s : State r) (now : ℕ) (ip : String) (q : Request) → Same s (check_admitted r c s now ip q).0
  check_admitted-Same s now ip q = elim (Bool-cases (is_admin c q)) [
    | inl yes_admin ↦ rw yes_admin (check_bot-Same s now ip)
    | inr other ↦ rw other (
        and_then-Same s (check_usage r c s now ip q) _ (check_usage-Same s now ip q)
          λ t. check_bot-Same t now ip)
  ]

  -- The state once the response is sent, if it is.
  abbrev pub finished : Outcome r × Bool → String → State r
  finished (o, true) ip = finish r o.0 ip
  finished (o, false) ip = o.0

  throttle-finished :
      (s : State r) (now : ℕ) (ip j : String) (q : Request)
      → count_of (Map.get (finished (throttle r c s now ip q) ip).inflight j)
        ≡ count_of (Map.get s.inflight j)
  unfolding finish
  throttle-finished s now ip j q =
      let n = count_of (Map.get s.inflight ip) + 1 in
      let up : State r = record s { inflight = Map.set s.inflight ip n } in
      let kept = check_admitted-Same up now ip q in
      ground (
        arith,
        kept,
        eq_iff ip j,
        get-set s.inflight ip j n,
        get-set s.inflight ip ip n,
        eq_iff ip ip,
        get-set (Map.set s.inflight ip n) ip j (n - 1),
      )

  after_emergency-finished :
      (s : State r) (now : ℕ) (ip j : String) (q : Request) (o : Outcome r)
      → Same s o.0
      → count_of
          (Map.get (finished (after_emergency r o (λ t. throttle r c t now ip q)) ip).inflight j)
        ≡ count_of (Map.get s.inflight j)
  unfolding finish
  after_emergency-finished s now ip j q (t, es, refused n m e) h = rw h
  after_emergency-finished s now ip j q (t, es, next) h =
      ground (arith, throttle-finished t now ip j q, h)

  -- Whatever the middleware answers, once the request's response is sent the count of requests in
  -- flight of every address is what it was before the request: it is only left one higher until
  -- then, and the `finish` handler is set exactly when it is.
  pub rate_limit-finished :
      (s : State r) (now : ℕ) (q : Request) (j : String)
      → count_of (Map.get (finished (rate_limit r c s now q) (get_ip q)).inflight j)
        ≡ count_of (Map.get s.inflight j)
  rate_limit-finished s now q j =
      let ip = get_ip q in
      elim (Option-cases (or_else (r.blocks.get s.blocks now (block_key ip)) none)) [
        | inl free ↦ rw (rate_limit_free r c s now q free) (
            after_emergency-finished s now ip j q (check_emergency r c s now ip)
              (check_emergency-Same s now ip))
        | inr (v, blocked) ↦ rw (rate_limit_blocked r c s now q v blocked)
      ]
