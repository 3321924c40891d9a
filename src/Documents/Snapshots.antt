-- ===== src/Documents/Snapshots.antt =====
-- Snapshots: `rollbackToSnapshot` and `diffSnapshots` of api/src/documents/documents.service.ts, and
-- `processCompact` of api/src/jobs/document-jobs.service.ts with `latestSeq` of
-- api/src/database/repositories/document-update.repo.ts.
-- `find` is the answer of `snaps.findById` at the time of the call.
pub mod Rollback
use realtime_collaborative_e.Base.{
  ℕ, ◌-◌, max, String, Bool, ◌&&◌, Option, none, some, List, [], ◌∷◌, filter, ltb, ◌===◌,
  if◌then◌else◌, Result, ok, err,
}
use realtime_collaborative_e.Cache
use realtime_collaborative_e.Documents.{
  World, State, Snapshot, Content, LogRow, Error, snapshot_not_found, rollback, log, load,
  state_key, compact_up_to,
}

-- The answer of `diffSnapshots`: the sequence numbers, the sizes, by how much the second is larger or
-- smaller than the first, and the patch.
pub record Diff : Type 0 where
  pub from_seq : ℕ
  pub from_bytes : ℕ
  pub to_seq : ℕ
  pub to_bytes : ℕ
  pub grown : ℕ
  pub shrunk : ℕ
  pub patch_b64 : String

module _ (w : World) where
  open w use {yjs, config}
  open yjs use {Bytes}

  -- The snapshot, if it is one of the document's.
  abbrev pub snapshot_of :
      (String → Option (Snapshot Bytes)) → String → String → Option (Snapshot Bytes)
  snapshot_of find id snapshot_id = elim (find snapshot_id) [
    | none ↦ none
    | some sn ↦ if sn.document_id === id then some sn else none
  ]

  -- `rollbackToSnapshot`
  unfoldable pub rollback_to_snapshot :
      State w
      → (String → Option (Snapshot Bytes))
      → String
      → String
      → State w × Result Error (Unit {0})
  rollback_to_snapshot s find id snapshot_id = elim (snapshot_of find id snapshot_id) [
    | none ↦ (s, err snapshot_not_found)
    | some sn ↦
        let t : State w = record s {
          contents = w.contents.upsert s.contents id sn.content;
          memory = Cache.del s.memory (state_key w id);
          states = w.states.del s.states (state_key w id);
        } in
        (log w t rollback, ok tt)
  ]

  abbrev pub diff_of : Snapshot Bytes → Snapshot Bytes → Diff
  diff_of a b =
      let m = yjs.byte_length a.content.state in
      let n = yjs.byte_length b.content.state in
      let v = yjs.vector (load w (some a.content)) in
      record {
        from_seq = a.seq;
        from_bytes = m;
        to_seq = b.seq;
        to_bytes = n;
        grown = n - m;
        shrunk = m - n;
        patch_b64 = yjs.to_base64 (yjs.encode_since (load w (some b.content)) v);
      }

  -- `diffSnapshots`
  unfoldable pub diff_snapshots :
      (String → Option (Snapshot Bytes)) → String → String → String → Result Error Diff
  diff_snapshots find id from_id to_id = elim (snapshot_of find id from_id) [
    | none ↦ err snapshot_not_found
    | some a ↦ elim (snapshot_of find id to_id) [
      | none ↦ err snapshot_not_found
      | some b ↦ ok (diff_of a b)
    ]
  ]

  abbrev pub highest : List (LogRow Bytes) → ℕ
  highest [] = 0
  highest (r ∷ rs) = max r.seq (highest rs)

  -- `latestSeq`
  abbrev pub latest_seq : State w → String → ℕ
  latest_seq s id = highest (filter (λ r. r.document_id === id) (w.updates.rows s.updates))

  -- `processCompact`, without its entry in the audit log
  abbrev pub process_compact : State w → String → State w
  process_compact s id =
      let cutoff = latest_seq s id - config.update_keep in
      if ltb 0 cutoff then compact_up_to w s id cutoff else s
