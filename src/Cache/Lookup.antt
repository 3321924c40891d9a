-- ===== src/Cache/Lookup.antt =====
-- What a cache may answer: never anything but the last value set under the key.
use realtime_collaborative_e.Base.{
  ℕ, ◌+◌, ◌*◌, ◌≤◌, ◌<◌, String, ◌≡◌, inl, inr, false, Option, none, some, List, [], ◌∷◌, ltb,
  ◌===◌, if◌then◌else◌, arith, eq_refl, Bool-cases, Option-cases,
}
use realtime_collaborative_e.Base.Map
use realtime_collaborative_e.Base.Map.{Map}
use realtime_collaborative_e.Cache.{Cache, Entry, del, get, evict_loop, set}
use realtime_collaborative_e.Cache.Bounds.{Call, gets, sets, dels, step, run}

-- The specification: what an unbounded cache that never forgets holds under each key.
abbrev pub Ideal : Type 0 → Type 0
Ideal V = String → Option (Entry V)

module _ {V : Type 0} where
  abbrev pub note : Ideal V → Call V → Ideal V
  note m (gets now key) j = m j
  note m (sets now key value ttl) j =
      if key === j then some (record { value = value; expires_at = now + ttl * 1000 }) else m j
  note m (dels key) j = if key === j then none else m j

  abbrev pub history : Ideal V → List (Call V) → Ideal V
  history m [] = m
  history m (x ∷ xs) = history (note m x) xs

  -- Every entry of the store is the specification's.
  abbrev pub Within : Map (Entry V) → Ideal V → Type 0
  Within store m = (k : String) (e : Entry V) → Map.get store k ≡ some e → m k ≡ some e

  delete-Within :
      (store : Map (Entry V)) (m : Ideal V) (key : String)
      → Within store m
      → Within (Map.delete store key) m
  delete-Within store m key h k e p = ground (arith, h k e, Map.get-delete store key k)

  evict_loop-Within :
      (max : ℕ) (store : Map (Entry V)) (order : List String) (m : Ideal V)
      → Within store m
      → Within (evict_loop max store order).0 m
  unfolding evict_loop
  evict_loop-Within max store [] m h = h
  evict_loop-Within max store (k ∷ order) m h = elim (Bool-cases (ltb max (Map.size store))) [
    | inr fits ↦ rw fits h
    | inl big ↦ elim (Bool-cases (k === "")) [
      | inl e ↦ rw (big, e) (evict_loop-Within max store order m h)
      | inr n ↦
          rw (big, n)
            (evict_loop-Within max (Map.delete store k) order m (delete-Within store m k h))
    ]
  ]

  pub get-Within :
      (c : Cache V) (m : Ideal V) (now : ℕ) (key : String)
      → Within c.store m
      → Within (get c now key).0.store m
  unfolding get del
  get-Within c m now key h = elim (Option-cases (Map.get c.store key)) [
    | inl e ↦ rw e h
    | inr (entry, e) ↦ elim (Bool-cases (ltb entry.expires_at now)) [
      | inr fresh ↦ rw (e, fresh) h
      | inl old ↦ rw (e, old) (delete-Within c.store m key h)
    ]
  ]

  pub set-Within :
      (c : Cache V) (m : Ideal V) (now : ℕ) (key : String) (value : V) (ttl : ℕ)
      → Within c.store m
      → Within (set c now key value ttl).store (note m (sets now key value ttl))
  unfolding set
  set-Within c m now key value ttl h =
      let e : Entry V = record { value = value; expires_at = now + ttl * 1000 } in
      let kept : Within (Map.set c.store key e) (note m (sets now key value ttl)) =
        λ k x p. ground (arith, h k x, Map.get-set c.store key k e) in
      elim (Bool-cases (ltb c.max (Map.size (Map.set c.store key e)))) [
        | inl big ↦ rw big (evict_loop-Within c.max _ _ (note m (sets now key value ttl)) kept)
        | inr fits ↦ rw fits kept
      ]

  step-Within :
      (c : Cache V) (m : Ideal V) (x : Call V)
      → Within c.store m
      → Within (step c x).store (note m x)
  unfolding step del
  step-Within c m (gets now key) h = get-Within c m now key h
  step-Within c m (sets now key value ttl) h = set-Within c m now key value ttl h
  step-Within c m (dels key) h = λ k e p. ground (arith, h k e, Map.get-delete c.store key k)

  run-Within :
      (cs : List (Call V)) (c : Cache V) (m : Ideal V)
      → Within c.store m
      → Within (run c cs).store (history m cs)
  unfolding run
  run-Within [] c m h = h
  run-Within (x ∷ cs) c m h = run-Within cs (step c x) (note m x) (step-Within c m x h)

  pub get-some :
      (c : Cache V) (now : ℕ) (key : String) (value : V)
      → (get c now key).1 ≡ some value
      → (e : Entry V) × (Map.get c.store key ≡ some e) × (e.value ≡ value) × (now ≤ e.expires_at)
  unfolding get
  get-some c now key value h = elim (Option-cases (Map.get c.store key)) [
    | inl e ↦ absurd (ground arith)
    | inr (entry, e) ↦ (entry, e, ground arith, ground arith)
  ]

  -- Refinement: whatever a cache answers after any history from a new one is the last value set
  -- under that key and not deleted since, and its time to live has not passed.
  pub get_sound :
      (cs : List (Call V)) (max now : ℕ) (key : String) (value : V)
      → (get (run (record { store = []; order = []; max = max }) cs) now key).1 ≡ some value
      → (e : Entry V) × (history (λ _. none) cs key ≡ some e)
        × (e.value ≡ value)
        × (now ≤ e.expires_at)
  unfolding Map.get
  get_sound cs max now key value h =
      let (e, found, v, live) =
        get-some (run (record { store = []; order = []; max = max }) cs) now key value h in
      (
        e,
        run-Within cs (record { store = []; order = []; max = max }) (λ _. none) (λ k x p. cc) key e
            found,
        v,
        live,
      )

  -- With room in the cache, a value is read back after `set` until its time to live has passed; a
  -- read after that removes it.
  pub get-set :
      (c : Cache V) (now at : ℕ) (key : String) (value : V) (ttl : ℕ)
      → Map.size c.store < c.max
      → let c' = set c now key value ttl in
        get c' at key ≡ (if ltb (now + ttl * 1000) at then (del c' key, none) else (c', some value))
  unfolding get set
  get-set c now at key value ttl b =
      let e : Entry V = record { value = value; expires_at = now + ttl * 1000 } in
      let fits : ltb c.max (Map.size (Map.set c.store key e)) ≡ false =
        ground (arith, Map.length-set c.store key e) in
      rw (fits, Map.get-set c.store key key e, eq_refl key)
