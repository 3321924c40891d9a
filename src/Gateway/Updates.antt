-- ===== src/Gateway/Updates.antt =====
-- `onYUpdate` of api/src/ws/ws.gateway.ts, and `allowWsMessage` of api/src/common/ws-rate.ts.
pub mod Laws
pub mod Order
use Prim.Native.String
use realtime_collaborative_e.Base.{
  ℕ, ◌+◌, String, Bool, true, false, ◌||◌, Option, none, some, List, leb, ltb, ◌==◌, ◌===◌,
  if◌then◌else◌, Result, ok, err,
}
use realtime_collaborative_e.Base.Map.{Map}
use realtime_collaborative_e.Base.Set
use realtime_collaborative_e.Redis.{KeyStore, SetStore, Counters}
use realtime_collaborative_e.Platform.{Yjs}
use realtime_collaborative_e.Gateway.{
  Client, Throw, not_authenticated, rate_limited, invalid_payload, not_in_room, update_too_large,
  invalid_update,
}
use realtime_collaborative_e.Gateway.Text.{trim}
use realtime_collaborative_e.Gateway.Batches.{Batch, enqueue_update}

pub record Payload : Type 0 where
  pub document_id : String
  pub update_b64 : String
  pub msg_id : Option String
  pub seq : Option ℕ

-- The `status` of an `ack`.
pub data Status : Type 0 where
  accepted duplicate out_of_order : Status

-- The services, and the settings WS_MSGS_PER_SEC and WS_UPDATE_MAX_BYTES.
pub record Server : Type 1 where
  pub yjs : Yjs
  pub counters : Counters
  pub sets : SetStore
  pub seqs : KeyStore ℕ
  pub msgs_per_sec : ℕ
  pub update_max_bytes : ℕ

pub record State (v : Server) : Type 0 where
  pub counters : v.counters.Store
  pub sets : v.sets.Store
  pub seqs : v.seqs.Store
  pub batches : Map (Batch v.yjs.Bytes)

module _ (v : Server) where
  open v use {yjs}
  open yjs use {Bytes, empty, apply, byte_length, gunzip, from_base64}

  -- `allowWsMessage`
  unfoldable pub allow_ws_message : v.counters.Store → ℕ → String → v.counters.Store × Bool
  allow_ws_message s now key_id =
      let key = String.◌++◌ "ws:" (String.◌++◌ key_id ":1s") in
      let (s', val) = v.counters.incr s now key in
      (if val == 1 then v.counters.expire s' now key 1000 else s', leb val v.msgs_per_sec)

  -- `decodeUpdate`
  abbrev pub decode_update : String → Bytes
  decode_update b64 = elim (gunzip (from_base64 b64)) [ none ↦ from_base64 b64 | some b ↦ b ]

  abbrev pub dedup_key : String → String
  dedup_key id = String.◌++◌ "ws:dedup:" id

  abbrev pub seq_key : String → String → String
  seq_key id user = String.◌++◌ "ws:lastseq:" (String.◌++◌ id (String.◌++◌ ":" user))

  -- The end of the handler: the update is decoded, checked and put into the batch.
  unfoldable pub accept : State v → ℕ → String → String → State v × Result Throw Status
  accept s now id update_b64 =
      let upd = decode_update update_b64 in
      if ltb v.update_max_bytes (byte_length upd)
      then (s, err update_too_large)
      else elim (apply empty upd) [
        | none ↦ (s, err invalid_update)
        | some _ ↦ (record s { batches = enqueue_update s.batches now id upd }, ok accepted)
      ]

  -- The check of the order, for a sender that numbers its messages.
  unfoldable pub check_seq :
      State v → ℕ → String → String → String → Option ℕ → State v × Result Throw Status
  check_seq s now id user update_b64 none = accept s now id update_b64
  check_seq s now id user update_b64 (some seq) =
      if leb seq (elim (v.seqs.get s.seqs now (seq_key id user)) [ none ↦ 0 | some last ↦ last ])
      then (s, ok out_of_order)
      else accept (record s { seqs = v.seqs.set_ex s.seqs now (seq_key id user) seq 300000 }) now id
          update_b64

  -- The removal of duplicates, for a message with an identifier.
  unfoldable pub check_msg :
      State v
      → ℕ
      → String
      → String
      → String
      → Option ℕ
      → Option String
      → State v × Result Throw Status
  check_msg s now id user update_b64 seq none = check_seq s now id user update_b64 seq
  check_msg s now id user update_b64 seq (some msg) =
      if msg === ""
      then check_seq s now id user update_b64 seq
      else let (sets, added) = v.sets.sadd s.sets now (dedup_key id) msg in
        let s' : State v = record s { sets = v.sets.expire sets now (dedup_key id) 60000 } in
        if added == 0 then (s', ok duplicate) else check_seq s' now id user update_b64 seq

  -- The rest of `onYUpdate` once the limit has answered.
  unfoldable pub dispatch :
      State v → ℕ → Client → Payload → String → Bool → State v × Result Throw Status
  dispatch s now client payload user false = (s, err rate_limited)
  dispatch s now client payload user true =
      let id = trim payload.document_id in
      let update_b64 = trim payload.update_b64 in
      if id === "" || update_b64 === ""
      then (s, err invalid_payload)
      else if Set.has client.joined_docs id
      then check_msg s now id user update_b64 payload.seq payload.msg_id
      else (s, err not_in_room)

  -- `allowWsMessage` for a user: the counters after it, and its answer.
  abbrev pub limited : State v → ℕ → String → State v
  limited s now user = record s {
    counters = (allow_ws_message s.counters now (String.◌++◌ "user:" user)).0;
  }

  abbrev pub allowed : State v → ℕ → String → Bool
  allowed s now user = (allow_ws_message s.counters now (String.◌++◌ "user:" user)).1

  -- `onYUpdate`
  unfoldable pub on_y_update : State v → ℕ → Client → Payload → State v × Result Throw Status
  on_y_update s now client payload = elim client.user [
    | none ↦ (s, err not_authenticated)
    | some user ↦ dispatch (limited s now user) now client payload user (allowed s now user)
  ]
