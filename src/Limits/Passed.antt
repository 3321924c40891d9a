-- ===== src/Limits/Passed.antt =====
-- What holds of a request that the middleware lets pass.
use realtime_collaborative_e.Base.{
  ℕ, ◌*◌, ◌+◌, ◌≤◌, String, ◌≡◌, ◌≢◌, refl, sym, ◌∙◌, ap, ◌⊎◌, inl, inr, Bool, false, Option, none,
  some, ltb, arith, Bool-cases, Option-cases,
}
use Prim.Native.String
use realtime_collaborative_e.Limits.Names.{
  any_not_docs, emergency_not_any, emergency_not_docs, user_not_docs,
}
use realtime_collaborative_e.Base.Map
use realtime_collaborative_e.Base.Map.{Map, get-set}
use realtime_collaborative_e.Limits.Text.{starts_with}
use realtime_collaborative_e.Limits.{
  Rules, Request, Stores, State, next, refused, is_admin, get_ip, count_of, or_else, block_key,
  ip_key, user_key, emergency_key, owner_key,
}
use realtime_collaborative_e.Limits.Checks.{
  Outcome, and_then, after_emergency, bump, check_emergency, check_ip, check_user, check_docs,
  check_usage, check_admitted, throttle, rate_limit,
}
use realtime_collaborative_e.Limits.Branches.{
  rate_limit_free, rate_limit_blocked, taken_up, throttle_under, throttle_over,
  check_admitted_usual,
}
use realtime_collaborative_e.Limits.Flight.{check_emergency-Same}

below_same : {A : Type 0} {m n l : ℕ} → A ⊎ (m + 1 ≤ l) → m ≡ n → A ⊎ (n + 1 ≤ l)
below_same (inl a) e = inl a
below_same (inr h) e = inr (omega (arith, h, e))

below : {m n l : ℕ} → m ≡ n → m + 1 ≤ l → n + 1 ≤ l
below e h = omega (arith, h, e)

emergency_key_not_docs :
    (ip b : String) → emergency_key ip ≢ String.◌++◌ "rate:" (String.◌++◌ "docs" b)
emergency_key_not_docs ip b = emergency_not_docs (String.◌++◌ ip ":global") b

module _ (r : Stores) (c : Rules) where
  count : State r → ℕ → String → ℕ
  count s now key = r.counters.count s.counters now key

  and_then-next :
      (o : Outcome r) (f : State r → Outcome r)
      → (and_then r o f).2 ≡ next
      → (o.2 ≡ next) × ((f o.0).2 ≡ next)
  and_then-next (s, es, next) f h = (refl, h)
  and_then-next (s, es, refused n m e) f h = cc

  after_emergency-next :
      (o : Outcome r) (f : State r → Outcome r × Bool)
      → (after_emergency r o f).0.2 ≡ next
      → (o.2 ≡ next) × ((f o.0).0.2 ≡ next)
  after_emergency-next (s, es, next) f h = (refl, h)
  after_emergency-next (s, es, refused n m e) f h = cc

  bump-count :
      (s : State r) (now : ℕ) (key : String) (w : ℕ) → (bump r s now key w).1 ≡ count s now key + 1
  unfolding bump count
  bump-count s now key w = r.counters.incr-count s.counters now key

  bump-other :
      (s : State r) (now : ℕ) (key j : String) (w : ℕ)
      → key ≢ j
      → count (bump r s now key w).0 now j ≡ count s now j
  unfolding bump count
  bump-other s now key j w h =
      let t = (r.counters.incr s.counters now key).0 in
      let a = r.counters.count-other s.counters now key j (w * 1000) h in
      let b = r.counters.count-other t now key j (w * 1000) h in ground (arith, a.0, b.1)

  check_emergency-other :
      (s : State r) (now : ℕ) (ip j : String)
      → emergency_key ip ≢ j
      → count (check_emergency r c s now ip).0 now j ≡ count s now j
  unfolding check_emergency
  check_emergency-other s now ip j h = ground (arith, bump-other s now (emergency_key ip) j 60 h)

  check_ip-next :
      (s : State r) (now : ℕ) (ip : String) (q : Request)
      → (check_ip r c s now ip q).2 ≡ next
      → count s now (ip_key ip) + 1 ≤ c.default_ip_window.limit
  unfolding check_ip
  check_ip-next s now ip q h =
      ground (arith, bump-count s now (ip_key ip) c.default_ip_window.window_sec)

  check_ip-other :
      (s : State r) (now : ℕ) (ip j : String) (q : Request)
      → ip_key ip ≢ j
      → count (check_ip r c s now ip q).0 now j ≡ count s now j
  unfolding check_ip
  check_ip-other s now ip j q h =
      ground (arith, bump-other s now (ip_key ip) j c.default_ip_window.window_sec h)

  check_docs-next :
      (s : State r) (now : ℕ) (ip : String) (q : Request)
      → (check_docs r c s now ip q).2 ≡ next
      → (starts_with q.path "/api/docs" ≡ false)
        ⊎ (count s now (owner_key "docs" (or_else q.user_id none) ip) + 1 ≤ c.docs_window.limit)
  unfolding check_docs
  check_docs-next s now ip q h =
      let key = owner_key "docs" (or_else q.user_id none) ip in
      elim (Bool-cases (starts_with q.path "/api/docs")) [
        | inr f ↦ inl f
        | inl t ↦ inr (ground (arith, bump-count s now key c.docs_window.window_sec))
      ]

  docs_key_apart :
      (k : String) (u : Option String) (ip : String)
      → ((b : String) → k ≢ String.◌++◌ "rate:" (String.◌++◌ "docs" b))
      → k ≢ owner_key "docs" u ip
  docs_key_apart k none ip h = h (String.◌++◌ ":ip:" ip)
  docs_key_apart k (some u) ip h = h (String.◌++◌ ":user:" u)

  check_user-other :
      (s : State r) (now : ℕ) (q : Request) (j : String)
      → ((u : String) → user_key u ≢ j)
      → count (check_user r c s now q).0 now j ≡ count s now j
  unfolding check_user
  check_user-other s now q j h = elim (Option-cases (or_else q.user_id none)) [
    | inl e ↦ rw (e, check_user)
    | inr (u, e) ↦
        let kept = bump-other s now (user_key u) j c.default_user_window.window_sec (h u) in
        rw (e, check_user) (ground (arith, kept))
  ]

  check_usage-next :
      (s : State r) (now : ℕ) (ip : String) (q : Request)
      → (check_usage r c s now ip q).2 ≡ next
      → (count s now (ip_key ip) + 1 ≤ c.default_ip_window.limit)
        × ((starts_with q.path "/api/docs" ≡ false)
            ⊎ (count s now (owner_key "docs" (or_else q.user_id none) ip) + 1
                ≤ c.docs_window.limit))
  check_usage-next s now ip q h =
      let u = or_else q.user_id none in
      let docs = owner_key "docs" u ip in
      let s1 = (check_ip r c s now ip q).0 in
      let s2 = (check_user r c s1 now q).0 in
      let (first, h1) = and_then-next (check_ip r c s now ip q) _ h in
      let (_, h2) = and_then-next (check_user r c s1 now q) _ h1 in
      let (third, _) = and_then-next (check_docs r c s2 now ip q) _ h2 in
      let a = check_ip-other s now ip docs q (docs_key_apart (ip_key ip) u ip (any_not_docs ip)) in
      let b =
        check_user-other s1 now q docs (λ v. docs_key_apart (user_key v) u ip (user_not_docs v)) in
      (check_ip-next s now ip q first, below_same (check_docs-next s2 now ip q third) (b ∙ a))

  check_admitted-next :
      (s : State r) (now : ℕ) (ip : String) (q : Request)
      → (check_admitted r c s now ip q).2 ≡ next
      → is_admin c q ≡ false
      → (check_usage r c s now ip q).2 ≡ next
  check_admitted-next s now ip q h a =
      let usual = check_admitted_usual r c s now ip q a in
      (and_then-next (check_usage r c s now ip q) _ (sym (ap (λ o. o.2) usual) ∙ h)).0

  throttle-next :
      (s : State r) (now : ℕ) (ip : String) (q : Request)
      → (throttle r c s now ip q).0.2 ≡ next
      → is_admin c q ≡ false
      → (count_of (Map.get s.inflight ip) + 1 ≤ c.max_concurrent_per_ip)
        × ((check_usage r c (taken_up r c s ip) now ip q).2 ≡ next)
  throttle-next s now ip q h a =
      elim (Bool-cases (ltb c.max_concurrent_per_ip (count_of (Map.get s.inflight ip) + 1))) [
        | inl over ↦ cc (throttle_over r c s now ip q over)
        | inr under ↦
            let admitted = sym (ap (λ o. o.0.2) (throttle_under r c s now ip q under)) ∙ h in
            (ground (arith, under), check_admitted-next (taken_up r c s ip) now ip q admitted a)
      ]

  -- A request of a user who is no administrator that the middleware lets pass came from an address
  -- that is not blocked and has no more requests in flight than allowed, itself included; it is
  -- within the limit of its address; and if its path is one of the documents', within the limit on
  -- those for its user, or for its address if it has none.
  pub rate_limit-next :
      (s : State r) (now : ℕ) (q : Request)
      → (rate_limit r c s now q).0.2 ≡ next
      → is_admin c q ≡ false
      → (or_else (r.blocks.get s.blocks now (block_key (get_ip q))) none ≡ none)
        × (count_of (Map.get s.inflight (get_ip q)) + 1 ≤ c.max_concurrent_per_ip)
        × (r.counters.count s.counters now (ip_key (get_ip q)) + 1 ≤ c.default_ip_window.limit)
        × ((starts_with q.path "/api/docs" ≡ false)
            ⊎ (r.counters.count s.counters now
                    (owner_key "docs" (or_else q.user_id none) (get_ip q))
                  + 1
                ≤ c.docs_window.limit))
  unfolding count
  rate_limit-next s now q h a =
      let ip = get_ip q in
      let u = or_else q.user_id none in
      elim (Option-cases (or_else (r.blocks.get s.blocks now (block_key ip)) none)) [
        | inr (v, blocked) ↦ cc (rate_limit_blocked r c s now q v blocked)
        | inl free ↦
            let t = (check_emergency r c s now ip).0 in
            let run = sym (ap (λ o. o.0.2) (rate_limit_free r c s now q free)) ∙ h in
            let (_, throttled) = after_emergency-next (check_emergency r c s now ip) _ run in
            let (few, used) = throttle-next t now ip q throttled a in
            let (any, docs) = check_usage-next (taken_up r c t ip) now ip q used in
            let any_kept =
              check_emergency-other s now ip (ip_key ip)
                (emergency_not_any (String.◌++◌ ip ":global") ip) in
            let docs_kept =
              check_emergency-other s now ip (owner_key "docs" u ip)
                (docs_key_apart (emergency_key ip) u ip (emergency_key_not_docs ip)) in
            (
              free,
              below (ap (λ m. count_of (Map.get m ip)) (check_emergency-Same r c s now ip)) few,
              below any_kept any,
              below_same docs docs_kept,
            )
      ]
