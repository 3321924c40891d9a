-- ===== src/Cache.antt =====
-- The in-process cache, `MemoryCacheService` of api/src/common/memory-cache.service.ts. The clock is
-- an argument, in milliseconds, and `max` is the value of MEM_CACHE_MAX.
pub mod Bounds
pub mod Lookup
mod Tests
use realtime_collaborative_e.Base.{
  ℕ, ◌+◌, ◌*◌, ◌<◌, String, Bool, true, false, Option, none, some, List, [], ◌∷◌, ◌++◌, ltb, ◌===◌,
  if◌then◌else◌,
}
use realtime_collaborative_e.Base.Map
use realtime_collaborative_e.Base.Map.{Map}

pub record Entry (V : Type 0) : Type 0 where
  pub value : V
  pub expires_at : ℕ

-- The keys of `order` are those of the calls of `set`, oldest first.
pub record Cache (V : Type 0) : Type 0 where
  pub store : Map (Entry V)
  pub order : List String
  pub max : ℕ

module _ {V : Type 0} where
  unfoldable pub del : Cache V → String → Cache V
  del c key = record c { store = Map.delete c.store key }

  abbrev pub lookup_entry : Cache V → ℕ → String → Option (Entry V) → Cache V × Option V
  lookup_entry c now key none = (c, none)
  lookup_entry c now key (some e) =
      if ltb e.expires_at now then (del c key, none) else (c, some e.value)

  unfoldable pub get : Cache V → ℕ → String → Cache V × Option V
  unfolding del
  get c now key = lookup_entry c now key (Map.get c.store key)

  -- The loop of `evict`: `k && store.delete(k)` skips the empty text.
  pub evict_loop : ℕ → Map (Entry V) → List String → Map (Entry V) × List String
  evict_loop max store [] = (store, [])
  evict_loop max store (k ∷ order) =
      let rest = evict_loop max (if k === "" then store else Map.delete store k) order in
      if ltb max (Map.size store) then rest else (store, k ∷ order)

  pub evict : Cache V → Cache V
  unfolding evict_loop
  evict c =
      let (store, order) = evict_loop c.max c.store c.order in
      record c { store = store; order = order }

  unfoldable pub set : Cache V → ℕ → String → V → ℕ → Cache V
  unfolding evict
  set c now key value ttl_seconds =
      let entry : Entry V = record { value = value; expires_at = now + ttl_seconds * 1000 } in
      let c' : Cache V = record c {
        store = Map.set c.store key entry;
        order = c.order ++ key ∷ [];
      } in
      if ltb c.max (Map.size c'.store) then evict c' else c'
