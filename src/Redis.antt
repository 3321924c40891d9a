-- ===== src/Redis.antt =====
-- What the code relies on of Redis's keys with an expiry: an interface, since Redis is a service.
-- Times are milliseconds; each command is given the time at which the server runs it.
pub mod Memory
use realtime_collaborative_e.Base.Set
use realtime_collaborative_e.Base.{
  ℕ, ◌+◌, ◌-◌, ◌≤◌, ◌<◌, String, ◌≡◌, ◌≢◌, Bool, true, false, ◌&&◌, Option, none, some, List, [],
  ◌∷◌, ◌++◌, ltb, ◌===◌, if◌then◌else◌, length, drop,
}

-- Values of the type `V` under text keys.
pub record KeyStore (V : Type 0) : Type 1 where
  pub Store : Type 0
  -- `GET key`
  pub get : Store → ℕ → String → Option V
  -- `SET key value PX ttl`
  pub set_ex : Store → ℕ → String → V → ℕ → Store
  -- `SET key value PX ttl NX`, with whether it was set
  pub set_nx : Store → ℕ → String → V → ℕ → Store × Bool
  -- `DEL key`
  pub del : Store → String → Store
  -- A value is there until its expiry, and other keys keep theirs.
  pub get-set_ex :
      (s : Store) (now at : ℕ) (k j : String) (v : V) (ttl : ℕ)
      → now ≤ at
      → get (set_ex s now k v ttl) at j
        ≡ (if k === j then (if ltb at (now + ttl) then some v else none) else get s at j)
  pub get-del :
      (s : Store) (at : ℕ) (k j : String)
      → get (del s k) at j ≡ (if k === j then none else get s at j)
  pub set_nx-none :
      (s : Store) (now : ℕ) (k : String) (v : V) (ttl : ℕ)
      → get s now k ≡ none
      → set_nx s now k v ttl ≡ (set_ex s now k v ttl, true)
  pub set_nx-some :
      (s : Store) (now : ℕ) (k : String) (v w : V) (ttl : ℕ)
      → get s now k ≡ some w
      → set_nx s now k v ttl ≡ (s, false)
  -- Without a command a value can only expire.
  pub get_earlier :
      (s : Store) (now at : ℕ) (k : String) (v : V)
      → now ≤ at
      → get s at k ≡ some v
      → get s now k ≡ some v

-- Sets of texts under text keys, each key with an expiry or none.
pub record SetStore : Type 1 where
  pub Store : Type 0
  pub has : Store → ℕ → String → String → Bool
  -- `SADD key member`, with the number of members added
  pub sadd : Store → ℕ → String → String → Store × ℕ
  -- `EXPIRE key ttl`
  pub expire : Store → ℕ → String → ℕ → Store
  -- `SREM key member`
  pub srem : Store → ℕ → String → String → Store
  -- `SMEMBERS key`
  pub smembers : Store → ℕ → String → List String
  pub has-smembers :
      (s : Store) (now : ℕ) (k m : String) → has s now k m ≡ Set.has (smembers s now k) m
  pub has-srem :
      (s : Store) (now : ℕ) (k j m n : String)
      → has (srem s now k m) now j n ≡ (if k === j && m === n then false else has s now j n)
  pub smembers-sadd :
      (s : Store) (now : ℕ) (k m : String)
      → smembers (sadd s now k m).0 now k ≡ Set.add (smembers s now k) m
  -- The set stays until the expiry set for it.
  pub smembers-expire :
      (s : Store) (now at : ℕ) (k : String) (ttl : ℕ)
      → now ≤ at
      → at < now + ttl
      → smembers (expire s now k ttl) at k ≡ smembers s now k
  pub sadd-new :
      (s : Store) (now : ℕ) (k m : String) → has s now k m ≡ false → (sadd s now k m).1 ≡ 1
  pub sadd-old :
      (s : Store) (now : ℕ) (k m : String) → has s now k m ≡ true → (sadd s now k m).1 ≡ 0
  -- A member that was added is there until the expiry set after it.
  pub has-expire-sadd :
      (s : Store) (now at : ℕ) (k m : String) (ttl : ℕ)
      → now ≤ at
      → at < now + ttl
      → has (expire (sadd s now k m).0 now k ttl) at k m ≡ true

-- Counters under text keys; a key that is not there counts 0.
pub record Counters : Type 1 where
  pub Store : Type 0
  pub count : Store → ℕ → String → ℕ
  -- `INCR key`, with the new value
  pub incr : Store → ℕ → String → Store × ℕ
  -- `EXPIRE key ttl`
  pub expire : Store → ℕ → String → ℕ → Store
  -- `DEL key`
  pub del : Store → String → Store
  pub count-del : (s : Store) (now : ℕ) (k : String) → count (del s k) now k ≡ 0
  pub incr-count : (s : Store) (now : ℕ) (k : String) → (incr s now k).1 ≡ count s now k + 1
  pub count-incr :
      (s : Store) (now : ℕ) (k : String) → count (incr s now k).0 now k ≡ count s now k + 1
  pub count-expire :
      (s : Store) (now : ℕ) (k : String) (ttl : ℕ)
      → 0 < ttl
      → count (expire s now k ttl) now k ≡ count s now k
  -- A command leaves the other keys alone.
  pub count-other :
      (s : Store) (now : ℕ) (k j : String) (ttl : ℕ)
      → k ≢ j
      → (count (incr s now k).0 now j ≡ count s now j)
        × (count (expire s now k ttl) now j ≡ count s now j)

-- Lists under text keys, each key with an expiry or none.
pub record ListStore (V : Type 0) : Type 1 where
  pub Store : Type 0
  -- the elements from the right end, the one that `RPOP` takes first
  pub items : Store → ℕ → String → List V
  -- `LPUSH key value`
  pub lpush : Store → ℕ → String → V → Store
  -- `LTRIM key 0 stop`
  pub ltrim : Store → ℕ → String → ℕ → Store
  -- `RPOP key`
  pub rpop : Store → ℕ → String → Store × Option V
  -- `EXPIRE key ttl`
  pub expire : Store → ℕ → String → ℕ → Store
  pub items-lpush :
      (s : Store) (now : ℕ) (k : String) (v : V)
      → items (lpush s now k v) now k ≡ items s now k ++ v ∷ []
  pub items-ltrim :
      (s : Store) (now : ℕ) (k : String) (stop : ℕ)
      → items (ltrim s now k stop) now k
        ≡ drop (length (items s now k) - (stop + 1)) (items s now k)
  -- The list stays until the expiry set for it.
  pub items-expire :
      (s : Store) (now at : ℕ) (k : String) (ttl : ℕ)
      → now ≤ at
      → at < now + ttl
      → items (expire s now k ttl) at k ≡ items s now k
  pub rpop-nil : (s : Store) (now : ℕ) (k : String) → items s now k ≡ [] → rpop s now k ≡ (s, none)
  pub rpop-cons :
      (s : Store) (now : ℕ) (k : String) (v : V) (vs : List V)
      → items s now k ≡ v ∷ vs
      → ((rpop s now k).1 ≡ some v) × (items (rpop s now k).0 now k ≡ vs)
  -- A command leaves the other keys alone.
  pub items-other :
      (s : Store) (now at : ℕ) (k j : String) (v : V) (stop ttl : ℕ)
      → k ≢ j
      → (items (lpush s now k v) at j ≡ items s at j)
        × (items (ltrim s now k stop) at j ≡ items s at j)
        × (items (expire s now k ttl) at j ≡ items s at j)
