-- ===== src/Documents/Apply.antt =====
-- `applyYUpdate` of api/src/documents/documents.service.ts, in its two parts: what it does before it
-- takes the lock, and what it does under the lock and after.
use Prim.Native.String
use realtime_collaborative_e.Base.{
  ℕ, ◌-◌, ◌*◌, ◌/◌, ◌%◌, String, Bool, ◌&&◌, Option, none, some, ltb, ◌==◌, ◌===◌, if◌then◌else◌,
  Result, ok, err,
}
use realtime_collaborative_e.Cache
use realtime_collaborative_e.Lock
use realtime_collaborative_e.Documents.{
  World, State, Error, invalid_update, busy, duplicate_update, size_limit, size_warn,
  update_applied, log_threshold, limit, warn, log, compact_up_to, inc_version, load, decode, pack,
  y_state, state_key, cache_state,
}

module _ (w : World) where
  open w use {yjs, config}
  open yjs use {Bytes, YDoc, apply, encode, byte_length, gzip, from_base64}

  abbrev pub note_key : String → String
  note_key id = String.◌++◌ "doc:size:" id

  abbrev pub lock_key : String → String
  lock_key id = String.◌++◌ "lock:doc:" id

  -- The size limit and its warning; a document over the limit is written all the same.
  unfoldable pub note_size : State w → ℕ → String → ℕ → State w
  note_size s now id bytes =
      if ltb config.max_state_bytes bytes
      then record (log w s (size_limit bytes)) {
        notes =
            w.notes.set_ex s.notes now (note_key id) (record { level = limit; bytes = bytes })
              120000;
      }
      else if ltb (config.max_state_bytes * 4 / 5) bytes
      then record (log w s (size_warn bytes)) {
        notes =
            w.notes.set_ex s.notes now (note_key id) (record { level = warn; bytes = bytes })
              120000;
      }
      else record s { notes = w.notes.del s.notes (note_key id) }

  -- Before the lock: the stored document with the update applied, and the update decoded.
  unfoldable pub prepare : State w → ℕ → String → String → State w × Result Error (YDoc × Bytes)
  prepare s now id update_b64 =
      let update = decode w (from_base64 update_b64) in
      elim (apply (load w (w.contents.find s.contents id)) update) [
        | none ↦ (s, err invalid_update)
        | some d ↦ (note_size s now id (byte_length (encode d)), ok (d, update))
      ]

  -- The log has a row of the document with the sequence number already.
  abbrev pub is_taken : State w → String → ℕ → Bool
  is_taken s id seq =
      ltb 0 (w.updates.count s.updates (λ r. (r.document_id === id) && (r.seq == seq)))

  abbrev pub insert : State w → String → ℕ → Bytes → State w
  insert s id seq update = record s {
    updates =
        w.updates.create s.updates (record { document_id = id; seq = seq; update = gzip update });
  }

  -- `DocumentUpdateRepository.append`, which throws on a duplicate of the unique index
  -- `(documentId, seq)`.
  abbrev pub append : State w → String → ℕ → Bytes → Option (State w)
  append s id seq update = if is_taken s id seq then none else some (insert s id seq update)

  abbrev pub upsert_state : State w → String → YDoc → State w
  upsert_state s id d = record s { contents = w.contents.upsert s.contents id (pack w d) }

  -- `seq % takeEvery === 0`, which is false where `takeEvery` is 0.
  abbrev pub take_snapshot : State w → String → ℕ → YDoc → State w
  take_snapshot s id seq d =
      if ltb 0 config.snapshot_every && (seq % config.snapshot_every) == 0
      then record s {
        snaps = w.snaps.create s.snaps (record { document_id = id; seq = seq; content = pack w d });
      }
      else s

  -- The transaction, and the sequence number that it gave the update. An error aborts it, and nothing
  -- of it is written.
  unfoldable pub transact : State w → String → YDoc → Bytes → Option (State w × ℕ)
  transact s id d update =
      let (s', seq) = inc_version w s id in
      elim (append s' id seq update) [
        | none ↦ none
        | some s'' ↦ some (take_snapshot (upsert_state s'' id d) id seq d, seq)
      ]

  unfoldable pub compact : State w → String → ℕ → State w
  compact s id seq =
      if ltb config.update_keep seq then compact_up_to w s id (seq - config.update_keep) else s

  -- Metrics, and the caches refreshed.
  unfoldable pub publish : State w → ℕ → String → YDoc → Bytes → State w
  publish s now id d update =
      let total = w.updates.count s.updates (λ r. r.document_id === id) in
      let s' = if ltb config.alert_threshold total then log w s (log_threshold total) else s in
      let s'' = log w s' (update_applied (byte_length update)) in
      cache_state w
        (record s'' {
          memory = Cache.del s''.memory (state_key w id);
          states = w.states.del s''.states (state_key w id);
        })
        now id (y_state w d)

  abbrev pub release_lock : State w → ℕ → String → String → State w
  release_lock s now id token = record s {
    locks = Lock.release w.locks s.locks now (lock_key id) token;
  }

  abbrev pub after_transact :
      State w
      → ℕ
      → String
      → String
      → YDoc
      → Bytes
      → Option (State w × ℕ)
      → State w × Result Error (Unit {0})
  after_transact s now id token d update none = (release_lock s now id token, err duplicate_update)
  after_transact s now id token d update (some (s', seq)) =
      (publish (release_lock (compact s' id seq) now id token) now id d update, ok tt)

  -- Under the lock, and after its release.
  unfoldable pub locked :
      State w → ℕ → String → String → YDoc → Bytes → State w × Result Error (Unit {0})
  locked s now id token d update = after_transact s now id token d update (transact s id d update)

  -- With the lock service's answer: its keys, and the token if it gave the lock.
  abbrev pub with_lock :
      State w
      → ℕ
      → String
      → YDoc
      → Bytes
      → w.locks.Store × Option String
      → State w × Result Error (Unit {0})
  with_lock s now id d update (locks, none) = (record s { locks = locks }, err busy)
  with_lock s now id d update (locks, some t) =
      locked (record s { locks = locks }) now id t d update

  unfoldable pub commit :
      State w → ℕ → String → String → YDoc → Bytes → State w × Result Error (Unit {0})
  commit s now id token d update =
      with_lock s now id d update (Lock.acquire w.locks s.locks now (lock_key id) token 5000)

  abbrev pub after_prepare :
      ℕ
      → String
      → String
      → State w × Result Error (YDoc × Bytes)
      → State w × Result Error (Unit {0})
  after_prepare now id token (s, err e) = (s, err e)
  after_prepare now id token (s, ok (d, update)) = commit s now id token d update

  -- `token` is the text that the lock service draws.
  unfoldable pub apply_y_update :
      State w → ℕ → String → String → String → State w × Result Error (Unit {0})
  apply_y_update s now id token update_b64 =
      after_prepare now id token (prepare s now id update_b64)
