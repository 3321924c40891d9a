-- ===== src/Cache/Bounds.antt =====
-- The size of the cache in any history, and the growth of its list of keys.
use realtime_collaborative_e.Base.{
  ℕ, zero, suc, ◌+◌, ◌*◌, ◌≤◌, String, ◌≡◌, refl, ◌≢◌, inl, inr, true, false, none, List, [], ◌∷◌,
  ◌++◌, ltb, ◌===◌, if◌then◌else◌, arith, eq_iff, eq_refl, Bool-cases, Option-cases, length,
  length-append, replicate, ◌∙◌,
}
use realtime_collaborative_e.Base.Map
use realtime_collaborative_e.Base.Map.{Map}
use realtime_collaborative_e.Base.Set
use realtime_collaborative_e.Cache.{Cache, Entry, del, get, evict_loop, set}

-- A call of the cache's methods, with the clock at which it runs.
pub data Call (V : Type 0) : Type 0 where
  gets : (now : ℕ) (key : String) → Call V
  sets : (now : ℕ) (key : String) (value : V) (ttl_seconds : ℕ) → Call V
  dels : (key : String) → Call V

module _ {V : Type 0} where
  unfoldable pub step : Cache V → Call V → Cache V
  step c (gets now key) = (get c now key).0
  step c (sets now key value ttl) = set c now key value ttl
  step c (dels key) = del c key

  unfoldable pub run : Cache V → List (Call V) → Cache V
  run c [] = c
  run c (x ∷ xs) = run (step c x) xs

  -- No key is the empty text.
  abbrev pub Named : List (Call V) → Type 0
  Named [] = Unit {0}
  Named (sets now key value ttl ∷ cs) = (key ≢ "") × Named cs
  Named (gets now key ∷ cs) = Named cs
  Named (dels key ∷ cs) = Named cs

  -- Every key of the store is in the list of keys, and is not the empty text.
  abbrev pub Covered : Map (Entry V) → List String → Type 0
  Covered store order = (k : String) → Map.get store k ≢ none → (k ≢ "") × (Set.has order k ≡ true)

  pub record IsValid (c : Cache V) : Type 0 where
    pub covered : Covered c.store c.order
    pub bounded : Map.size c.store ≤ c.max

  Covered-nil : (store : Map (Entry V)) → Covered store [] → store ≡ []
  unfolding Map.get Set.has
  Covered-nil [] h = refl
  Covered-nil ((j, e) ∷ store) h = absurd (ground (arith, h j, eq_refl j))

  Covered-tail :
      (store : Map (Entry V)) (k : String) (order : List String)
      → Covered store (k ∷ order)
      → Covered (if k === "" then store else Map.delete store k) order
  unfolding Set.has
  Covered-tail store k order h j e =
      ground (arith, h j, Map.get-delete store k j, eq_iff k "", eq_iff k j)

  Covered-delete :
      (store : Map (Entry V)) (k : String) (order : List String)
      → Covered store order
      → Covered (Map.delete store k) order
  Covered-delete store k order h j e = ground (arith, h j, Map.get-delete store k j)

  Covered-set :
      (store : Map (Entry V)) (k : String) (e : Entry V) (order : List String)
      → k ≢ ""
      → Covered store order
      → Covered (Map.set store k e) (order ++ k ∷ [])
  Covered-set store k e order n h j p =
      ground (arith, h j, Map.get-set store k j e, Set.has-append order k j, eq_iff k j)

  evict_loop-IsValid :
      (max : ℕ) (store : Map (Entry V)) (order : List String)
      → Covered store order
      → let (s, o) = evict_loop max store order in Covered s o × (Map.size s ≤ max)
  unfolding evict_loop
  evict_loop-IsValid max store [] h = (h, rw (Covered-nil store h) (omega arith))
  evict_loop-IsValid max store (k ∷ order) h = elim (Bool-cases (ltb max (Map.size store))) [
    | inl big ↦ rw big (
        evict_loop-IsValid max (if k === "" then store else Map.delete store k) order
          (Covered-tail store k order h))
    | inr fits ↦ rw fits (h, ground arith)
  ]

  set-IsValid :
      (c : Cache V) (now : ℕ) (key : String) (value : V) (ttl : ℕ)
      → key ≢ ""
      → IsValid c
      → IsValid (set c now key value ttl)
  unfolding set
  set-IsValid c now key value ttl n v =
      let e : Entry V = record { value = value; expires_at = now + ttl * 1000 } in
      let covered = Covered-set c.store key e c.order n v.covered in
      elim (Bool-cases (ltb c.max (Map.size (Map.set c.store key e)))) [
        | inl big ↦
            let (h, b) = evict_loop-IsValid c.max _ _ covered in
            rw big (record { covered = h; bounded = b })
        | inr fits ↦ rw fits (record { covered = covered; bounded = ground arith })
      ]

  del-IsValid : (c : Cache V) (key : String) → IsValid c → IsValid (del c key)
  unfolding del
  del-IsValid c key v = record {
    covered = Covered-delete c.store key c.order v.covered;
    bounded = omega (arith, v.bounded, Map.length-delete-le c.store key);
  }

  get-IsValid : (c : Cache V) (now : ℕ) (key : String) → IsValid c → IsValid (get c now key).0
  unfolding get
  get-IsValid c now key v = elim (Option-cases (Map.get c.store key)) [
    | inl e ↦ rw e v
    | inr (entry, e) ↦ elim (Bool-cases (ltb entry.expires_at now)) [
      | inr fresh ↦ rw (e, fresh) v
      | inl old ↦ rw (e, old) (del-IsValid c key v)
    ]
  ]

  step-IsValid : (c : Cache V) (x : Call V) → Named (x ∷ []) → IsValid c → IsValid (step c x)
  unfolding step
  step-IsValid c (gets now key) n v = get-IsValid c now key v
  step-IsValid c (sets now key value ttl) n v = set-IsValid c now key value ttl n.0 v
  step-IsValid c (dels key) n v = del-IsValid c key v

  -- From a valid cache, such as the new one, every history of calls with keys other than the empty
  -- text leaves a valid cache: no more than `max` entries, each of them open to eviction.
  pub run-IsValid : (cs : List (Call V)) (c : Cache V) → Named cs → IsValid c → IsValid (run c cs)
  unfolding run
  run-IsValid [] c n v = v
  run-IsValid (gets now key ∷ cs) c n v = run-IsValid cs _ n (step-IsValid c (gets now key) tt v)
  run-IsValid (sets now key value ttl ∷ cs) c n v =
      run-IsValid cs _ n.1 (step-IsValid c (sets now key value ttl) (n.0, tt) v)
  run-IsValid (dels key ∷ cs) c n v = run-IsValid cs _ n (step-IsValid c (dels key) tt v)

  set-held :
      (c : Cache V) (now : ℕ) (key : String) (value : V) (ttl : ℕ)
      → Map.size c.store ≤ c.max
      → Map.get c.store key ≢ none
      → let c' = set c now key value ttl in
        (Map.size c'.store ≡ Map.size c.store)
        × (length c'.order ≡ length c.order + 1)
        × (c'.max ≡ c.max)
        × (Map.get c'.store key ≢ none)
  unfolding set
  set-held c now key value ttl b h = elim (Option-cases (Map.get c.store key)) [
    | inl e ↦ absurd (h e)
    | inr (old, e) ↦
        let entry : Entry V = record { value = value; expires_at = now + ttl * 1000 } in
        let same : Map.size (Map.set c.store key entry) ≡ Map.size c.store =
          ground (arith, Map.length-set c.store key entry) in
        let fits : ltb c.max (Map.size (Map.set c.store key entry)) ≡ false = ground arith in
        rw fits (
          same,
          length-append c.order (key ∷ []) ∙ omega arith,
          refl,
          ground (arith, Map.get-set c.store key key entry, eq_refl key),
        )
  ]

  -- A defect: `order` takes one more entry at each `set` of a key that the cache holds, while the
  -- number of entries stays the same, so that `n` writes of one key cost `n` places for ever.
  order_grows :
      (n : ℕ) (c : Cache V) (now : ℕ) (key : String) (value : V) (ttl : ℕ)
      → Map.size c.store ≤ c.max
      → Map.get c.store key ≢ none
      → let c' = run c (replicate n (sets now key value ttl)) in
        (Map.size c'.store ≡ Map.size c.store) × (length c'.order ≡ length c.order + n)
  unfolding run step
  order_grows zero c now key value ttl b h = (refl, omega arith)
  order_grows (suc n) c now key value ttl b h =
      let (same, longer, cap, held) = set-held c now key value ttl b h in
      let (same', longer') =
        order_grows n (set c now key value ttl) now key value ttl (omega arith) held in
      (omega arith, omega arith)
