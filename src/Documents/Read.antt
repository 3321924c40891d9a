-- ===== src/Documents/Read.antt =====
-- `getYState` of api/src/documents/documents.service.ts: the in-process cache, Redis, the database.
use realtime_collaborative_e.Base.{
  ℕ, String, ◌&&◌, not, Option, none, some, ◌===◌, if◌then◌else◌, Result, ok, err,
}
use realtime_collaborative_e.Cache
use realtime_collaborative_e.Documents.{
  World, State, Content, YState, Error, corrupt_state, state_get, integrity_mismatch, log, y_state,
  state_key, cache_state,
}

module _ (w : World) where
  open w use {yjs, config}
  open yjs use {Bytes, empty, gunzip, to_base64, sha256}

  abbrev pub check_integrity : State w → Content Bytes → Bytes → State w
  check_integrity s rec raw =
      if not (rec.checksum === "") && not (sha256 raw === rec.checksum)
      then log w s integrity_mismatch
      else s

  -- The state from the database. The counters of hits and misses are left out.
  unfoldable pub read_content :
      State w → ℕ → String → Option (Content Bytes) → State w × Result Error YState
  read_content s now id none = (cache_state w s now id (y_state w empty), ok (y_state w empty))
  read_content s now id (some rec) = elim (gunzip rec.state) [
    | none ↦ (s, err corrupt_state)
    | some raw ↦
        let out : YState = record { update = to_base64 raw; vector = to_base64 rec.vector } in
        (cache_state w (log w (check_integrity s rec raw) state_get) now id out, ok out)
  ]

  unfoldable pub read_redis : State w → ℕ → String → Option YState → State w × Result Error YState
  unfolding read_content
  read_redis s now id (some out) =
      (record s { memory = Cache.set s.memory now (state_key w id) out config.mem_ttl }, ok out)
  read_redis s now id none = read_content s now id (w.contents.find s.contents id)

  unfoldable pub get_y_state : State w → ℕ → String → State w × Result Error YState
  unfolding read_redis
  get_y_state s now id =
      let (memory, hit) = Cache.get s.memory now (state_key w id) in
      let s' = record s { memory = memory } in
      elim hit [
        | some out ↦ (s', ok out)
        | none ↦ read_redis s' now id (w.states.get s.states now (state_key w id))
      ]
