-- ===== src/Documents/Rebuild.antt =====
-- The rebuild of a document from its update log: `processSnapshot` of
-- api/src/jobs/document-jobs.service.ts and `validateAndRepair` of
-- api/src/documents/documents.service.ts.
-- The loop over the batches has fuel; `none` means that it ran out.
use realtime_collaborative_e.Base.{
  ℕ, zero, suc, String, Bool, true, false, ◌&&◌, not, Option, none, some, List, [], ◌∷◌, ltb, ◌==◌,
  ◌===◌, if◌then◌else◌, length,
}
use realtime_collaborative_e.Documents.{
  World, State, Content, LogRow, snapshot_regenerated, repaired, log, list_asc, pack, y_state,
  cache_state,
}

module _ (w : World) where
  open w use {yjs}
  open yjs use {Bytes, YDoc, empty, apply, gunzip, sha256, no_bytes}

  -- One row, in its `try`: a row that fails moves neither the document nor the cursor.
  unfoldable pub replay_row : YDoc × ℕ → LogRow Bytes → YDoc × ℕ
  replay_row (d, cursor) r = elim (gunzip r.update) [
    | none ↦ (d, cursor)
    | some b ↦ elim (apply d b) [ none ↦ (d, cursor) | some d' ↦ (d', r.seq) ]
  ]

  unfoldable pub replay_batch : YDoc × ℕ → List (LogRow Bytes) → YDoc × ℕ
  replay_batch p [] = p
  replay_batch p (r ∷ rs) = replay_batch (replay_row p r) rs

  -- `while (true)` over batches of `most` rows.
  unfoldable pub rebuild_loop : ℕ → ℕ → State w → String → YDoc × ℕ → Option (YDoc × ℕ)
  rebuild_loop zero most s id p = none
  rebuild_loop (suc fuel) most s id p =
      let batch = list_asc w s id p.1 most in
      let rest = rebuild_loop fuel most s id (replay_batch p batch) in
      if length batch == 0
      then some p
      else if ltb (length batch) most
      then some (replay_batch p batch)
      else rest

  unfoldable pub rebuild : ℕ → State w → String → Option (YDoc × ℕ)
  unfolding rebuild_loop
  rebuild fuel s id = rebuild_loop fuel 1000 s id (empty, 0)

  abbrev pub store_rebuilt : State w → String → YDoc → State w
  store_rebuilt s id d = record s { contents = w.contents.upsert s.contents id (pack w d) }

  -- `processSnapshot`
  unfoldable pub process_snapshot : ℕ → State w → String → Option (State w)
  process_snapshot fuel s id = elim (rebuild fuel s id) [
    | none ↦ none
    | some (d, cursor) ↦ some (log w (store_rebuilt s id d) snapshot_regenerated)
  ]

  abbrev pub raw_of : Content Bytes → Bytes
  raw_of rec = elim (gunzip rec.state) [ none ↦ no_bytes | some b ↦ b ]

  -- `validateAndRepair`, with whether it repaired.
  unfoldable pub validate_and_repair : ℕ → State w → ℕ → String → Option (State w × Bool)
  validate_and_repair fuel s now id = elim (w.contents.find s.contents id) [
    | none ↦ some (s, false)
    | some rec ↦
        if not (rec.checksum === "") && (sha256 (raw_of rec) === rec.checksum)
        then some (s, false)
        else elim (rebuild fuel s id) [
          | none ↦ none
          | some (d, cursor) ↦
              some
                (cache_state w (log w (store_rebuilt s id d) repaired) now id (y_state w d), true)
        ]
  ]
