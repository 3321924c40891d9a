-- ===== src/Lock/Exclusion.antt =====
-- While a lock is held, no call of another holder takes it or frees it.
use realtime_collaborative_e.Base.{
  ℕ, ◌+◌, ◌≤◌, ◌<◌, String, ◌≡◌, sym, ◌≢◌, ◌↔◌, ◌⊎◌, inl, inr, false, none, some, List, [], ◌∷◌,
  ◌===◌, if◌then◌else◌, arith, eq_iff, eq_refl, lt→ltb, Option-cases, Bool-cases,
}
use realtime_collaborative_e.Redis.{KeyStore}
use realtime_collaborative_e.Lock.{acquire, release}

-- A call of the lock service by any process, with the time at which the server runs it.
pub data Call : Type 0 where
  acquires : (now : ℕ) (key token : String) (ttl : ℕ) → Call
  releases : (now : ℕ) (key token : String) → Call

abbrev pub at_of : Call → ℕ
at_of (acquires now _ _ _) = now
at_of (releases now _ _) = now

-- The calls come in the order of their times, from `now` on and before `deadline`, and none
-- releases `key` with `token`.
abbrev pub Foreign : String → String → ℕ → ℕ → List Call → Type 0
Foreign key token now deadline [] = Unit {0}
Foreign key token now deadline (acquires t k w ttl ∷ cs) =
    (now ≤ t) × (t < deadline) × Foreign key token t deadline cs
Foreign key token now deadline (releases t k w ∷ cs) =
    (now ≤ t) × (t < deadline) × ((k ≢ key) ⊎ (w ≢ token)) × Foreign key token t deadline cs

-- The time of the last call.
abbrev pub last : ℕ → List Call → ℕ
last now [] = now
last now (c ∷ cs) = last (at_of c) cs

false-ne-some : (token : String) → (if false then some token else none) ≢ some token
false-ne-some token e = cc

module _ (redis : KeyStore String) where
  open redis use {Store, get, set_ex, set_nx, del, get-set_ex, get-del, set_nx-none, set_nx-some}

  unfoldable pub step : Store → Call → Store
  step s (acquires now key token ttl) = (acquire redis s now key token ttl).0
  step s (releases now key token) = release redis s now key token

  unfoldable pub run : Store → List Call → Store
  run s [] = s
  run s (c ∷ cs) = run (step s c) cs

  -- From `now` until `deadline` the key holds the token.
  abbrev pub Holds : String → String → ℕ → ℕ → Store → Type 0
  Holds key token now deadline s = (at : ℕ) → now ≤ at → at < deadline → get s at key ≡ some token

  acquire-Holds :
      (s : Store) (key token k w : String) (now t deadline ttl : ℕ)
      → Holds key token now deadline s
      → now ≤ t
      → t < deadline
      → Holds key token t deadline (acquire redis s t k w ttl).0
  unfolding acquire
  acquire-Holds s key token k w now t deadline ttl h n d at a b = elim (Option-cases (get s t k)) [
    | inl e ↦ elim (Bool-cases (k === key)) [
      | inl same ↦ cc (e, h t n d, (eq_iff k key).0 same)
      | inr other ↦
          rw (set_nx-none s t k w ttl e, get-set_ex s t at k key w ttl a, other)
            (h at (omega arith) b)
    ]
    | inr (v, e) ↦ rw (set_nx-some s t k w v ttl e) (h at (omega arith) b)
  ]

  release-Holds :
      (s : Store) (key token k w : String) (now t deadline : ℕ)
      → Holds key token now deadline s
      → now ≤ t
      → t < deadline
      → (k ≢ key) ⊎ (w ≢ token)
      → Holds key token t deadline (release redis s t k w)
  unfolding release
  release-Holds s key token k w now t deadline h n d f at a b =
      ground (arith, h at, h t, get-del s at k key, eq_iff k key, eq_iff token w)

  run-Holds :
      (cs : List Call) (s : Store) (key token : String) (now deadline : ℕ)
      → Holds key token now deadline s
      → Foreign key token now deadline cs
      → Holds key token (last now cs) deadline (run s cs)
  unfolding run step
  run-Holds [] s key token now deadline h f = h
  run-Holds (acquires t k w ttl ∷ cs) s key token now deadline h (n, d, f) =
      run-Holds cs _ key token t deadline (acquire-Holds s key token k w now t deadline ttl h n d) f
  run-Holds (releases t k w ∷ cs) s key token now deadline h (n, d, o, f) =
      run-Holds cs _ key token t deadline (release-Holds s key token k w now t deadline h n d o) f

  acquired-Holds :
      (s : Store) (key token : String) (now ttl : ℕ)
      → (acquire redis s now key token ttl).1 ≡ some token
      → Holds key token now (now + ttl) (acquire redis s now key token ttl).0
  unfolding acquire
  acquired-Holds s key token now ttl got at a b = elim (Option-cases (get s now key)) [
    | inl e ↦ rw (
      set_nx-none s now key token ttl e,
      get-set_ex s now at key key token ttl a,
      eq_refl key,
      lt→ltb at (now + ttl) b,
    )
    | inr (v, e) ↦ absurd (false-ne-some token (rw (set_nx-some s now key token v ttl e) at got))
  ]

  pub acquire_held :
      (s : Store) (at : ℕ) (key token other : String) (ttl : ℕ)
      → get s at key ≡ some token
      → acquire redis s at key other ttl ≡ (s, none)
  unfolding acquire
  acquire_held s at key token other ttl h = rw (set_nx-some s at key other token ttl h)

  acquire_free :
      (s : Store) (at : ℕ) (key other : String) (ttl : ℕ)
      → get s at key ≡ none
      → (acquire redis s at key other ttl).1 ≡ some other
  unfolding acquire
  acquire_free s at key other ttl h = rw (set_nx-none s at key other ttl h)

  release_own :
      (s : Store) (now : ℕ) (key token : String)
      → get s now key ≡ some token
      → get (release redis s now key token) now key ≡ none
  unfolding release
  release_own s now key token h = ground (arith, eq_refl token, get-del s now key key, eq_refl key)

  release_other :
      (s : Store) (now : ℕ) (key token w : String)
      → get s now key ≡ some token
      → token === w ≡ false
      → release redis s now key w ≡ s
  unfolding release
  release_other s now key token w h f = ground arith

  -- Mutual exclusion. Once `acquire` has returned its token, every later `acquire` of the key is
  -- refused and changes nothing until the time to live has passed, whatever calls come in between,
  -- provided that none of them releases the key with that token.
  pub acquire_exclusive :
      (s : Store) (key token : String) (now ttl : ℕ) (cs : List Call) (at : ℕ) (other : String)
      (ttl' : ℕ)
      → (acquire redis s now key token ttl).1 ≡ some token
      → Foreign key token now (now + ttl) cs
      → last now cs ≤ at
      → at < now + ttl
      → let s' = run (acquire redis s now key token ttl).0 cs in
        acquire redis s' at key other ttl' ≡ (s', none)
  acquire_exclusive s key token now ttl cs at other ttl' got f a b =
      acquire_held _ at key token other ttl'
        (run-Holds cs _ key token now (now + ttl) (acquired-Holds s key token now ttl got) f at a b)

  -- After `release` with a token, an `acquire` of the held key succeeds exactly if the token was the
  -- holder's.
  acquire-release :
      (s : Store) (key token w other : String) (now ttl : ℕ)
      → get s now key ≡ some token
      → ((acquire redis (release redis s now key w) now key other ttl).1 ≡ some other) ↔ (w ≡ token)
  acquire-release s key token w other now ttl h = elim (Bool-cases (token === w)) [
    | inl t ↦ (
      λ _. sym ((eq_iff token w).0 t),
      λ e. acquire_free _ now key other ttl (rw e (release_own s now key token h)),
    )
    | inr f ↦
        rw (release_other s now key token w h f, acquire_held s now key token other ttl h)
          (λ e. cc, λ e. cc (f, e, eq_refl token))
  ]
