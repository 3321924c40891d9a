-- ===== src/Gateway/Batches/Loss.antt =====
-- What `flushDoc` loses when the document service refuses a batch.
use realtime_collaborative_e.Base.{
  ℕ, String, ◌≡◌, refl, sym, ◌∙◌, ap, Bool, true, false, Option, none, some, List, [], ◌∷◌, arith,
  eq_refl, Result, ok, err,
}
use realtime_collaborative_e.Base.Map
use realtime_collaborative_e.Base.Map.{Map}
use realtime_collaborative_e.Lock.Exclusion.{acquire_held}
use realtime_collaborative_e.Documents.{World, State, Error, busy, load, decode}
use realtime_collaborative_e.Documents.Apply.{
  apply_y_update, commit, note_size, with_lock, lock_key,
}
use realtime_collaborative_e.Documents.Sync.{apply_some, note_size-SameTables}
use realtime_collaborative_e.Gateway.Batches.History.{take-pending}
use realtime_collaborative_e.Gateway.Batches.{Batch, take_updates, flush_doc, pending}

module _ (w : World) where
  open w use {yjs}
  open yjs use {Bytes, YDoc, apply, encode, byte_length, from_base64, to_base64}

  abbrev pub delivered_by : State w × Result Error (Unit {0}) → State w × Bool
  delivered_by (s, ok _) = (s, true)
  delivered_by (s, err _) = (s, false)

  -- The delivery of `flushDoc`: `merge` is `Y.mergeUpdates`, which may throw.
  pub deliver :
      (List Bytes → Option Bytes) → ℕ → String → String → State w → List Bytes → State w × Bool
  deliver merge now id token s updates = elim (merge updates) [
    | none ↦ (s, false)
    | some merged ↦ delivered_by (apply_y_update w s now id token (to_base64 merged))
  ]

  note_size-locks :
      (s : State w) (now : ℕ) (id : String) (n : ℕ) → (note_size w s now id n).locks ≡ s.locks
  unfolding note_size
  note_size-locks s now id n = ground arith

  commit-busy :
      (s : State w) (now : ℕ) (id token held : String) (d : YDoc) (u : Bytes)
      → w.locks.get s.locks now (lock_key w id) ≡ some held
      → commit w s now id token d u ≡ (s, err busy)
  unfolding commit
  commit-busy s now id token held d u h =
      ap (with_lock w s now id d u)
        (acquire_held w.locks s.locks now (lock_key w id) held token 5000 h)

  deliver-busy :
      (merge : List Bytes → Option Bytes) (s : State w) (now : ℕ) (id token held : String)
      (us : List Bytes) (merged : Bytes) (d : YDoc)
      → merge us ≡ some merged
      → apply (load w (w.contents.find s.contents id)) (decode w merged) ≡ some d
      → w.locks.get s.locks now (lock_key w id) ≡ some held
      → deliver merge now id token s us ≡ (note_size w s now id (byte_length (encode d)), false)
  unfolding deliver
  deliver-busy merge s now id token held us merged d m a h =
      let read : apply (load w (w.contents.find s.contents id))
            (decode w (from_base64 (to_base64 merged)))
          ≡ some d =
        rw (yjs.from_base64-to_base64 merged) a in
      rw (m, deliver)
        (ap delivered_by (
          apply_some w s now id token (to_base64 merged) _ d refl read
          ∙ commit-busy _ now id token held d _
              (rw (note_size-locks s now id (byte_length (encode d))) h)))

  -- A defect: `flushDoc` empties the batch before it hands the updates over. While another writer
  -- holds the lock of the document, the service refuses them; then nothing is delivered, the
  -- stored content is unchanged, and the updates, which were acknowledged, wait no more.
  pub flush_doc-busy :
      (merge : List Bytes → Option Bytes) (s : State w) (now : ℕ) (id token held : String)
      (batches : Map (Batch Bytes)) (b : Batch Bytes) (u : Bytes) (us : List Bytes) (merged : Bytes)
      (d : YDoc)
      → Map.get batches id ≡ some b
      → b.updates ≡ u ∷ us
      → merge (u ∷ us) ≡ some merged
      → apply (load w (w.contents.find s.contents id)) (decode w merged) ≡ some d
      → w.locks.get s.locks now (lock_key w id) ≡ some held
      → let (s', rest, out) = flush_doc (deliver merge now id token) s batches id in
        (out ≡ []) × (pending rest id ≡ []) × (s'.contents ≡ s.contents)
  unfolding flush_doc
  flush_doc-busy merge s now id token held batches b u us merged d g p m a h =
      let busy_result = deliver-busy merge s now id token held (u ∷ us) merged d m a h in
      let taken : (take_updates batches id).1 ≡ u ∷ us = ground arith in
      (
        rw (taken, busy_result),
        (take-pending batches id id).1 ∙ rw (eq_refl id),
        rw (taken, busy_result) (sym (note_size-SameTables w s now id (byte_length (encode d))).0),
      )
