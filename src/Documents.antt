-- ===== src/Documents.antt =====
-- The document service, api/src/documents/documents.service.ts, with the repositories that it
-- writes through (api/src/database/repositories/document-update.repo.ts, document-content.repo.ts,
-- document-snapshot.repo.ts and `incVersion` of document.repo.ts) and the rebuild of
-- api/src/jobs/document-jobs.service.ts.
-- An operation takes one clock for all its steps. A transaction is one step of the state,
-- which an error undoes.
pub mod Apply
pub mod Read
pub mod Rebuild
pub mod Sync
pub mod Written
pub mod Lost
pub mod Answers
pub mod Snapshots
pub mod Library
pub mod Sample
mod Tests
use realtime_collaborative_e.Base.{
  ℕ, zero, suc, ◌+◌, ◌-◌, ◌*◌, ◌/◌, ◌%◌, String, ◌≡◌, Bool, true, false, ◌&&◌, not, Option, none,
  some, List, [], ◌∷◌, ◌++◌, ltb, leb, ◌==◌, ◌===◌, if◌then◌else◌, filter, length, Result, ok, err,
  ◌>>=◌, or_throw,
}
use Prim.Native.String
use realtime_collaborative_e.Redis.{KeyStore}
use realtime_collaborative_e.Platform.{Yjs, Collection, Table}
use realtime_collaborative_e.Cache
use realtime_collaborative_e.Cache.{Cache}
use realtime_collaborative_e.Lock

-- The settings read from the environment.
pub record Config : Type 0 where
  pub max_state_bytes : ℕ
  pub snapshot_every : ℕ
  pub update_keep : ℕ
  pub alert_threshold : ℕ
  pub mem_ttl : ℕ
  pub redis_ttl : ℕ

-- `{ update, vector }`, in base64.
pub record YState : Type 0 where
  pub update : String
  pub vector : String

pub data Level : Type 0 where
  limit warn : Level

-- `{ level, bytes }` under `doc:size:…`
pub record SizeNote : Type 0 where
  pub level : Level
  pub bytes : ℕ

pub record Content (Bytes : Type 0) : Type 0 where
  pub state : Bytes
  pub vector : Bytes
  pub checksum : String

pub record LogRow (Bytes : Type 0) : Type 0 where
  pub document_id : String
  pub seq : ℕ
  pub update : Bytes

pub record Snapshot (Bytes : Type 0) : Type 0 where
  pub document_id : String
  pub seq : ℕ
  pub content : Content Bytes

pub data Error : Type 0 where
  invalid_update busy duplicate_update snapshot_not_found no_state corrupt_state : Error

-- Entries of the audit log.
pub data Event : Type 0 where
  size_limit size_warn : ℕ → Event
  update_applied log_threshold : ℕ → Event
  state_get integrity_mismatch : Event
  rollback snapshot_regenerated : Event
  repaired : Event

-- The services that the document service is built over.
pub record World : Type 1 where
  pub yjs : Yjs
  pub versions : Table ℕ
  pub contents : Table (Content yjs.Bytes)
  pub updates : Collection (LogRow yjs.Bytes)
  pub snaps : Collection (Snapshot yjs.Bytes)
  pub locks : KeyStore String
  pub notes : KeyStore SizeNote
  pub states : KeyStore YState
  pub config : Config

pub record State (w : World) : Type 0 where
  pub versions : w.versions.State
  pub contents : w.contents.State
  pub updates : w.updates.State
  pub snaps : w.snaps.State
  pub locks : w.locks.Store
  pub notes : w.notes.Store
  pub states : w.states.Store
  pub memory : Cache YState
  pub audit : List Event

module _ (w : World) where
  open w use {yjs, config}
  open yjs use {
    Bytes, YDoc, empty, apply, encode, byte_length, gzip, gunzip, to_base64, from_base64, sha256,
  }

  abbrev pub log : State w → Event → State w
  log s e = record s { audit = s.audit ++ e ∷ [] }

  -- `DocumentUpdateRepository.listAsc`
  abbrev pub list_asc : State w → String → ℕ → ℕ → List (LogRow Bytes)
  list_asc s id after most =
      w.updates.find_asc s.updates (λ r. (r.document_id === id) && ltb after r.seq) (λ r. r.seq)
        most

  -- `DocumentUpdateRepository.compactUpTo`
  abbrev pub compact_up_to : State w → String → ℕ → State w
  compact_up_to s id seq = record s {
    updates = w.updates.delete_many s.updates (λ r. (r.document_id === id) && leb r.seq seq);
  }

  -- `DocumentRepository.incVersion`, with `v?.version ?? 0`: a missing document has no version.
  abbrev pub inc_version : State w → String → State w × ℕ
  inc_version s id = elim (w.versions.find s.versions id) [
    | none ↦ (s, 0)
    | some v ↦ (record s { versions = w.versions.upsert s.versions id (v + 1) }, v + 1)
  ]

  -- `doc:y:…`, in both caches
  abbrev pub state_key : String → String
  state_key id = String.◌++◌ "doc:y:" id

  -- Both caches, as every writer of a state fills them.
  abbrev pub cache_state : State w → ℕ → String → YState → State w
  cache_state s now id out = record s {
    memory = Cache.set s.memory now (state_key id) out config.mem_ttl;
    states = w.states.set_ex s.states now (state_key id) out (config.redis_ttl * 1000);
  }

  -- What `Y.applyUpdate` leaves of a document when a `catch` swallows its error.
  abbrev pub apply_or_keep : YDoc → Option Bytes → YDoc
  apply_or_keep d none = d
  apply_or_keep d (some b) = elim (apply d b) [ none ↦ d | some d' ↦ d' ]

  -- The document that a content row stands for.
  abbrev pub load : Option (Content Bytes) → YDoc
  load none = empty
  load (some c) = apply_or_keep empty (gunzip c.state)

  -- `gunzipSync(raw)`, or the raw bytes where that throws.
  abbrev pub decode : Bytes → Bytes
  decode raw = elim (gunzip raw) [ none ↦ raw | some b ↦ b ]

  abbrev pub pack : YDoc → Content Bytes
  pack d = record { state = gzip (encode d); vector = yjs.vector d; checksum = sha256 (encode d) }

  abbrev pub y_state : YDoc → YState
  y_state d = record { update = to_base64 (encode d); vector = to_base64 (yjs.vector d) }
