-- ===== src/Gateway/Batches.antt =====
-- The batches of updates: `enqueueUpdate`, `flushDoc` and `pruneIdle` of api/src/ws/ws.gateway.ts.
-- A timer is armed or not; when it fires, the runtime calls `flushDoc`. What `flushDoc` does with
-- the merged updates is its argument `deliver`, the write by the document service and the broadcast.
pub mod History
pub mod Loss
use realtime_collaborative_e.Base.{
  ℕ, ◌+◌, ◌-◌, ◌≤◌, ◌<◌, String, ◌≡◌, refl, sym, ◌≢◌, ◌∙◌, ap, inl, inr, Bool, true, false, Option,
  none, some, List, [], ◌∷◌, ◌++◌, ltb, ◌===◌, if◌then◌else◌, arith, eq_iff, eq_refl, Option-cases,
  Bool-cases,
}
use realtime_collaborative_e.Base.Map
use realtime_collaborative_e.Base.Map.{Map}

pub record Batch (Bytes : Type 0) : Type 0 where
  pub updates : List Bytes
  pub timer : Bool
  pub last : ℕ

module _ {Bytes : Type 0} where
  abbrev pub entry_of : Option (Batch Bytes) → ℕ → Batch Bytes
  entry_of none now = record { updates = []; timer = false; last = now }
  entry_of (some b) now = b

  -- `enqueueUpdate`
  unfoldable pub enqueue_update : Map (Batch Bytes) → ℕ → String → Bytes → Map (Batch Bytes)
  enqueue_update batches now id update =
      let entry = entry_of (Map.get batches id) now in
      Map.set batches id
        (record { updates = entry.updates ++ update ∷ []; timer = true; last = now })

  -- The first part of `flushDoc`: the batch is emptied, and its timer cleared.
  abbrev pub take_updates : Map (Batch Bytes) → String → Map (Batch Bytes) × List Bytes
  take_updates batches id = elim (Map.get batches id) [
    | none ↦ (batches, [])
    | some b ↦ (Map.set batches id (record b { updates = []; timer = false }), b.updates)
  ]

  -- The delivery of a batch that is not empty, and the updates that it delivered.
  abbrev pub deliver_batch :
      {S : Type 0} → (S → List Bytes → S × Bool) → S → List Bytes → S × List Bytes
  deliver_batch deliver s [] = (s, [])
  deliver_batch deliver s (u ∷ us) =
      let (s', delivered) = deliver s (u ∷ us) in (s', if delivered then u ∷ us else [])

  -- `flushDoc`: an error of the delivery is caught and logged.
  pub flush_doc :
      {S : Type 0}
      → (S → List Bytes → S × Bool)
      → S
      → Map (Batch Bytes)
      → String
      → S × Map (Batch Bytes) × List Bytes
  flush_doc deliver s batches id =
      let (rest, updates) = take_updates batches id in
      let (s', out) = deliver_batch deliver s updates in (s', rest, out)

  -- `pruneIdle`
  abbrev pub prune_idle : ℕ → Map (Batch Bytes) → ℕ → Map (Batch Bytes)
  prune_idle idle [] now = []
  prune_idle idle ((id, b) ∷ batches) now =
      let rest = prune_idle idle batches now in
      if ltb idle (now - b.last) then rest else (id, b) ∷ rest

  -- What waits for a document.
  abbrev pub pending : Map (Batch Bytes) → String → List Bytes
  pending batches id = elim (Map.get batches id) [ none ↦ [] | some b ↦ b.updates ]

  -- Whatever waits has a timer that will flush it.
  abbrev pub IsArmed : Map (Batch Bytes) → Type 0
  IsArmed batches =
      (id : String) (b : Batch Bytes)
      → Map.get batches id ≡ some b
      → b.updates ≢ []
      → b.timer ≡ true
