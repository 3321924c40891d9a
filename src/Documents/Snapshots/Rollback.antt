-- ===== src/Documents/Snapshots/Rollback.antt =====
-- What a rollback brings back, and what becomes of it.
use realtime_collaborative_e.Base.{
  ℕ, ◌<◌, String, ◌≡◌, refl, ap, ◌∙◌, Option, none, some, [], length, arith, eq_refl, ok,
}
use realtime_collaborative_e.Base.Map
use realtime_collaborative_e.Cache
use realtime_collaborative_e.Documents.{
  World, State, Snapshot, rollback, snapshot_regenerated, log, pack, y_state, state_key,
}
use realtime_collaborative_e.Documents.Read.{get_y_state}
use realtime_collaborative_e.Documents.Rebuild.{store_rebuilt, rebuild, process_snapshot}
use realtime_collaborative_e.Documents.Sync.{InSync}
use realtime_collaborative_e.Documents.Sync.Replay.{rows_of, rebuild_loop-Runs}
use realtime_collaborative_e.Documents.Written.{Stored, Coherent, get_y_state-Coherent}
use realtime_collaborative_e.Documents.Snapshots.{snapshot_of, rollback_to_snapshot}

module _ (w : World) where
  open w use {yjs}
  open yjs use {Bytes, YDoc, empty}

  -- The state after a rollback to the content of `sn`.
  abbrev pub rolled_back : State w → String → Snapshot Bytes → State w
  rolled_back s id sn =
      log w
        (record s {
          contents = w.contents.upsert s.contents id sn.content;
          memory = Cache.del s.memory (state_key w id);
          states = w.states.del s.states (state_key w id);
        })
        rollback

  rollback-some :
      (s : State w) (find : String → Option (Snapshot Bytes)) (id snapshot_id : String)
      (sn : Snapshot Bytes)
      → snapshot_of w find id snapshot_id ≡ some sn
      → rollback_to_snapshot w s find id snapshot_id ≡ (rolled_back s id sn, ok tt)
  unfolding rollback_to_snapshot
  rollback-some s find id snapshot_id sn h = rw (h, rollback_to_snapshot)

  rolled_back-Stored :
      (s : State w) (id : String) (sn : Snapshot Bytes) (e : YDoc)
      → sn.content ≡ pack w e
      → Stored w (rolled_back s id sn) id e
  rolled_back-Stored s id sn e h =
      w.contents.find-upsert s.contents id id sn.content ∙ rw (eq_refl id) (ap some h)

  rolled_back-Coherent :
      (s : State w) (id : String) (sn : Snapshot Bytes) (e : YDoc) (now : ℕ)
      → Coherent w (rolled_back s id sn) id e now
  unfolding Cache.del
  rolled_back-Coherent s id sn e now =
      let key = state_key w id in
      let no_memory : Map.get (Map.delete s.memory.store key) key ≡ none =
        Map.get-delete s.memory.store key key ∙ rw (eq_refl key) in
      record {
        in_memory = λ v p. absurd (cc (no_memory, p));
        in_redis = λ at v lo p.
            let no_redis : w.states.get (w.states.del s.states key) at key ≡ none =
              w.states.get-del s.states at key key ∙ rw (eq_refl key) in
            absurd (cc (no_redis, p));
      }

  -- A rollback to a snapshot of a document brings its state to the readers at once; but the update
  -- log stays, so that the next regeneration of the snapshot from the complete log, with a fuel that
  -- is enough, puts the content from before the rollback back.
  pub rollback_to_snapshot-undone :
      (s : State w) (find : String → Option (Snapshot Bytes)) (now fuel n : ℕ)
      (id snapshot_id : String) (sn : Snapshot Bytes) (d e : YDoc)
      → InSync w s id d n
      → snapshot_of w find id snapshot_id ≡ some sn
      → sn.content ≡ pack w e
      → length (rows_of w s id) < fuel
      → (t : State w) × (u : State w) × (rollback_to_snapshot w s find id snapshot_id ≡ (t, ok tt))
        × ((get_y_state w t now id).1 ≡ ok (y_state w e))
        × (process_snapshot w fuel t id ≡ some u)
        × (w.contents.find u.contents id ≡ some (pack w d))
  unfolding process_snapshot rebuild
  rollback_to_snapshot-undone s find now fuel n id snapshot_id sn d e v found content room =
      let t = rolled_back s id sn in
      let stored = rolled_back-Stored s id sn e content in
      let done =
        rebuild_loop-Runs w t id 1000 fuel [] (rows_of w s id) empty d 0 (omega arith) refl tt
          v.ascends v.replays room in
      (
        t,
        log w (store_rebuilt w t id d) snapshot_regenerated,
        rollback-some s find id snapshot_id sn found,
        get_y_state-Coherent w t now now id e stored (rolled_back-Coherent s id sn e now)
            (omega arith),
        rw (done, process_snapshot),
        w.contents.find-upsert t.contents id id (pack w d) ∙ rw (eq_refl id),
      )
