-- ===== src/Gateway/Offline.antt =====
-- The queue for users who are away: `queueForOffline` and `flushOfflineQueue` of
-- api/src/ws/ws.gateway.ts.
-- An event is queued as its JSON text, here as itself. The Redis commands succeed.
pub mod Fifo
use Prim.Native.String
use realtime_collaborative_e.Base.{
  ℕ, zero, suc, String, Bool, Option, none, some, List, [], ◌∷◌, if◌then◌else◌,
}
use realtime_collaborative_e.Base.Set
use realtime_collaborative_e.Redis.{ListStore}
use realtime_collaborative_e.Access.{Doc, Directory}

-- The answers of `permsRepo.list` and `membersRepo.listMembers`, by their `userId`.
pub record Audience : Type 0 where
  pub list : String → List String
  pub list_members : String → List String

abbrev pub queue_key : String → String → String
queue_key id user = String.◌++◌ "ws:queue:" (String.◌++◌ id (String.◌++◌ ":" user))

-- `for (const x of xs) intended.add(x)`
abbrev pub add_all : List String → List String → List String
add_all intended [] = intended
add_all intended (x ∷ xs) = add_all (Set.add intended x) xs

-- `for (const uid of online) intended.delete(uid)`
abbrev pub delete_all : List String → List String → List String
delete_all intended [] = intended
delete_all intended (x ∷ xs) = delete_all (Set.delete intended x) xs

-- `intended`, before the users who are online are taken out.
abbrev pub intended_users : Audience → String → Doc → List String
intended_users au id d =
    add_all (add_all (Set.add [] d.owner_id) (au.list id)) (au.list_members d.workspace_id)

module _ {V : Type 0} (redis : ListStore V) where
  -- The commands for one user: the list is cut to 1000 and kept for a day.
  abbrev pub push_event : redis.Store → ℕ → String → V → redis.Store
  push_event s now key e =
      redis.expire (redis.ltrim (redis.lpush s now key e) now key 999) now key 86400000

  -- `for (const uid of intended)`
  pub push_all : redis.Store → ℕ → String → List String → V → redis.Store
  push_all s now id [] e = s
  push_all s now id (uid ∷ uids) e = push_all (push_event s now (queue_key id uid) e) now id uids e

  -- `queueForOffline`; `online` is the set of users online in the document.
  pub queue_for_offline :
      Directory → Audience → redis.Store → ℕ → String → List String → V → redis.Store
  queue_for_offline dir au s now id online e = elim (dir.find_by_id id) [
    | none ↦ s
    | some d ↦ push_all s now id (delete_all (intended_users au id d) online) e
  ]

  -- The loop of `flushOfflineQueue`, with what it emits.
  pub flush_loop : ℕ → redis.Store → ℕ → String → redis.Store × List V
  flush_loop zero s now key = (s, [])
  flush_loop (suc i) s now key =
      let (s', raw) = redis.rpop s now key in
      let (s'', rest) = flush_loop i s' now key in
      elim raw [ none ↦ (s', []) | some e ↦ (s'', e ∷ rest) ]

  -- `flushOfflineQueue`
  pub flush_offline_queue : redis.Store → ℕ → String → String → redis.Store × List V
  flush_offline_queue s now id user = flush_loop 1000 s now (queue_key id user)
