-- ===== src/Limits/Branches.antt =====
-- The branches of the middleware, each as an equation.
use realtime_collaborative_e.Base.{ℕ, ◌+◌, String, ◌≡◌, true, false, none, some, [], ltb}
use realtime_collaborative_e.Base.Map
use realtime_collaborative_e.Limits.{
  Rules, Request, Stores, State, refused, is_admin, get_ip, count_of, or_else, block_key,
}
use realtime_collaborative_e.Limits.Checks.{
  and_then, after_emergency, check_emergency, check_usage, check_bot, check_admitted, throttle,
  rate_limit,
}

module _ (r : Stores) (c : Rules) where
  pub rate_limit_free :
      (s : State r) (now : ℕ) (q : Request)
      → or_else (r.blocks.get s.blocks now (block_key (get_ip q))) none ≡ none
      → rate_limit r c s now q
        ≡ after_emergency r
            (check_emergency r c s now (get_ip q))
            λ t. throttle r c t now (get_ip q) q
  unfolding rate_limit
  rate_limit_free s now q h = rw (h, rate_limit)

  pub rate_limit_blocked :
      (s : State r) (now : ℕ) (q : Request) (v : String)
      → or_else (r.blocks.get s.blocks now (block_key (get_ip q))) none ≡ some v
      → rate_limit r c s now q ≡ ((s, [], refused 429 none "Temporarily blocked"), false)
  unfolding rate_limit
  rate_limit_blocked s now q v h = rw (h, rate_limit)

  -- The state in which one more request of the address is in flight.
  abbrev pub taken_up : State r → String → State r
  taken_up s ip = record s {
    inflight = Map.set s.inflight ip (count_of (Map.get s.inflight ip) + 1);
  }

  pub throttle_under :
      (s : State r) (now : ℕ) (ip : String) (q : Request)
      → ltb c.max_concurrent_per_ip (count_of (Map.get s.inflight ip) + 1) ≡ false
      → throttle r c s now ip q ≡ (check_admitted r c (taken_up s ip) now ip q, true)
  throttle_under s now ip q h = rw (h, throttle)

  pub throttle_over :
      (s : State r) (now : ℕ) (ip : String) (q : Request)
      → ltb c.max_concurrent_per_ip (count_of (Map.get s.inflight ip) + 1) ≡ true
      → (throttle r c s now ip q).0.2 ≡ refused 429 none "Too many concurrent requests"
  throttle_over s now ip q h = rw (h, throttle)

  pub check_admitted_usual :
      (s : State r) (now : ℕ) (ip : String) (q : Request)
      → is_admin c q ≡ false
      → check_admitted r c s now ip q
        ≡ and_then r (check_usage r c s now ip q) λ t. check_bot r c t now ip
  check_admitted_usual s now ip q h = rw (h, check_admitted)

  pub check_admitted_admin :
      (s : State r) (now : ℕ) (ip : String) (q : Request)
      → is_admin c q ≡ true
      → check_admitted r c s now ip q ≡ check_bot r c s now ip
  check_admitted_admin s now ip q h = rw (h, check_admitted)
