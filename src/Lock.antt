-- ===== src/Lock.antt =====
-- The distributed lock, api/src/common/lock.service.ts, over the keys of Redis.
pub mod Exclusion
mod Tests
use realtime_collaborative_e.Base.{
  ℕ, String, Bool, true, false, Option, none, some, List, [], ◌∷◌, ◌===◌, if◌then◌else◌,
}
use realtime_collaborative_e.Redis.{KeyStore}

-- `release` runs a script on the server, which swallows no command but the deletion.
module _ (redis : KeyStore String) where
  open redis use {Store, get, set_nx, del}

  -- `acquire`; `token` is the random text that the call makes.
  unfoldable pub acquire : Store → ℕ → String → String → ℕ → Store × Option String
  acquire s now key token ttl =
      let (s', set) = set_nx s now key token ttl in (s', if set then some token else none)

  -- `release`: the script deletes the key if it still holds the token.
  unfoldable pub release : Store → ℕ → String → String → Store
  release s now key token = elim (get s now key) [
    | none ↦ s
    | some held ↦ if held === token then del s key else s
  ]
