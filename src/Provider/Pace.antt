-- ===== src/Provider/Pace.antt =====
-- How fast the provider tries again, and which presences it sends.
use realtime_collaborative_e.Base.{
  ℕ, ◌+◌, ◌*◌, ◌≤◌, ◌<◌, ◌≡◌, refl, ◌≢◌, ◌↔◌, ◌⊎◌, inl, inr, true, Option, none, some, ◌==◌,
  if◌then◌else◌, arith, Bool-cases,
}
use Prim.Native.Nat.{min}
use realtime_collaborative_e.Provider.{
  Reason, offline, unauthorized, rate_limit, server_error, network_error, next_backoff, Presence,
  distance, sends_presence,
}

next_backoff-grows :
    (m b : ℕ) (reason : Reason) (retry : Option ℕ) (jitter : ℕ)
    → reason ≢ rate_limit
    → next_backoff m b reason retry jitter
      ≡ (if b == 0 then 1000 + jitter else min (b * 2 + jitter) m)
unfolding next_backoff
next_backoff-grows m b rate_limit retry jitter other = absurd (other refl)
next_backoff-grows m b offline retry jitter other = refl
next_backoff-grows m b unauthorized retry jitter other = refl
next_backoff-grows m b server_error retry jitter other = refl
next_backoff-grows m b network_error retry jitter other = refl

-- After a failure that is no rate limit, from no backoff or one of at least a second, the next wait
-- is at least a second and at most the configured limit, and is at least doubled unless it is the
-- limit; the limit is at least 1300 ms, and the jitter below 300.
next_backoff_bounded :
    (max_backoff backoff : ℕ) (reason : Reason) (retry : Option ℕ) (jitter : ℕ)
    → reason ≢ rate_limit
    → jitter < 300
    → 1300 ≤ max_backoff
    → (backoff ≡ 0) ⊎ (1000 ≤ backoff)
    → let next = next_backoff max_backoff backoff reason retry jitter in
      (1000 ≤ next) × (next ≤ max_backoff) × ((backoff * 2 ≤ next) ⊎ (next ≡ max_backoff))
next_backoff_bounded m b reason retry jitter other small big start =
    rw (next_backoff-grows m b reason retry jitter other) (elim (Bool-cases (b == 0)) [
      | inl z ↦ rw z (omega arith, omega arith, inl (ground arith))
      | inr z ↦ rw z (ground arith, omega arith, ground arith)
    ])

-- A presence is sent exactly if there was none before, or the typing flag has changed, or the
-- selection has moved by at least 3 in all, or 120 ms have passed.
sends_presence_iff :
    (last p : Presence) (last_at now : ℕ)
    → (sends_presence none now p ≡ true)
      × ((sends_presence (some (last, last_at)) now p ≡ true) ↔ (
          (p.typing ≢ last.typing)
          ⊎ ((3 ≤ distance p.anchor last.anchor + distance p.head last.head)
              ⊎ (last_at + 120 ≤ now))))
unfolding sends_presence
sends_presence_iff last p last_at now = (refl, ground arith)
