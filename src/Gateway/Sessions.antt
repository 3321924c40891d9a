-- ===== src/Gateway/Sessions.antt =====
-- The life of a socket in a document: `onJoin`, `onYSync`, `handleDisconnect` and `maybeGzip` of
-- api/src/ws/ws.gateway.ts, with the end of `onLeave` in `Channels`.
-- The Redis commands succeed; what is stored there as JSON text is stored as itself. Emissions to the
-- socket are values, in order.
pub mod Admission
pub mod Sync
pub mod Ghosts
mod Tests
use Prim.Native.String
use realtime_collaborative_e.Base.{
  ℕ, ◌+◌, ltb, leb, String, Bool, true, false, Option, none, some, List, [], ◌∷◌, ◌++◌, length,
  ◌===◌, if◌then◌else◌, Result, ok, err,
}
use realtime_collaborative_e.Base.Map
use realtime_collaborative_e.Base.Map.{Map}
use realtime_collaborative_e.Base.Set
use realtime_collaborative_e.Redis.{KeyStore, SetStore, ListStore}
use realtime_collaborative_e.Platform.{Yjs}
use realtime_collaborative_e.Access.{Doc, Directory, has_doc_access}
use realtime_collaborative_e.Documents.{World, YState, SizeNote}
use realtime_collaborative_e.Documents
use realtime_collaborative_e.Documents.Apply.{note_key}
use realtime_collaborative_e.Documents.Read.{get_y_state}
use realtime_collaborative_e.Gateway.{
  Client, Throw, not_authenticated, document_required, document_not_found, forbidden, room_full,
  sync_failed,
}
use realtime_collaborative_e.Gateway.Text.{trim}
use realtime_collaborative_e.Gateway.Channels.{Channels, subscribe_doc_channel}
use realtime_collaborative_e.Gateway.Claims.{Claim, set_key}
use realtime_collaborative_e.Gateway.Offline.{flush_offline_queue}
use realtime_collaborative_e.Gateway.Presence.{PresenceEvent}

-- What an instance is built over, and its settings WS_ROOM_CAPACITY and WS_COMPRESS_THRESHOLD; `V` is
-- the type of the queued events.
pub record Instance (V : Type 0) : Type 1 where
  pub world : World
  pub directory : Directory
  pub sets : SetStore
  pub presences : KeyStore PresenceEvent
  pub claims : KeyStore Claim
  pub queues : ListStore V
  pub max_room_capacity : ℕ
  pub compress_threshold : ℕ

-- The sockets of each room, the stores, and the channels of the instance.
pub record Session {V : Type 0} (i : Instance V) : Type 0 where
  pub rooms : Map (List String)
  pub docs : Documents.State i.world
  pub sets : i.sets.Store
  pub presences : i.presences.Store
  pub claims : i.claims.Store
  pub queues : i.queues.Store
  pub channels : Channels

-- What is emitted to the socket.
pub data Emission (V : Type 0) : Type 0 where
  joined : String → Emission V
  presence_list : String → List PresenceEvent → Emission V
  size_notice : String → SizeNote → Emission V
  queued : V → Emission V
  y_init : String → String → String → Bool → Emission V
  y_sync : String → String → Bool → String → Emission V
  section_list : String → List Claim → Emission V

abbrev pub online_key : String → String
online_key id = String.◌++◌ "ws:online:doc:" id

abbrev pub presence_users_key : String → String
presence_users_key id = String.◌++◌ "ws:presence:doc:" (String.◌++◌ id ":users")

abbrev pub presence_value_key : String → String → String
presence_value_key id user = String.◌++◌ "ws:presence:doc:" (String.◌++◌ id (String.◌++◌ ":" user))

abbrev pub room_name : String → String
room_name id = String.◌++◌ "doc:" id

-- `rooms.get(room)?.size || 0`, and the sockets behind it.
abbrev pub sockets_of : Map (List String) → String → List String
sockets_of rooms room = elim (Map.get rooms room) [ none ↦ [] | some l ↦ l ]

-- The values under some keys that are there.
abbrev pub values_at : {A : Type 0} → (String → Option A) → List String → List A
values_at get [] = []
values_at get (k ∷ ks) =
    let rest = values_at get ks in elim (get k) [ none ↦ rest | some a ↦ a ∷ rest ]

module _ {V : Type 0} where
  -- A list is only emitted if it has an entry.
  abbrev pub unless_none : {A : Type 0} → (List A → Emission V) → List A → List (Emission V)
  unless_none f [] = []
  unless_none f (a ∷ l) = f (a ∷ l) ∷ []

  abbrev pub emit_all : List V → List (Emission V)
  emit_all [] = []
  emit_all (e ∷ es) = queued e ∷ emit_all es

module _ {V : Type 0} (i : Instance V) where
  open i use {world}
  open world use {yjs}

  -- `maybeGzip`
  pub maybe_gzip : yjs.Bytes → String × Bool
  maybe_gzip buf =
      if leb i.compress_threshold (yjs.byte_length buf)
      then (yjs.to_base64 (yjs.gzip buf), true)
      else (yjs.to_base64 buf, false)

  abbrev pub init_emission : String → Result Documents.Error YState → List (Emission V)
  init_emission id (err _) = []
  init_emission id (ok state) =
      let (b64, gz) = maybe_gzip (yjs.from_base64 state.update) in
      y_init id b64 state.vector gz ∷ []

  abbrev pub size_emission : String → Option SizeNote → List (Emission V)
  size_emission id none = []
  size_emission id (some note) = size_notice id note ∷ []

  -- `onJoin` from `client.join(room)` on; `socket` is the socket's identifier.
  pub enter_room :
      Session i → ℕ → String → Client → String → String → Session i × Client × List (Emission V)
  enter_room s now socket client user id =
      let room = room_name id in
      let sets =
        i.sets.expire (i.sets.sadd s.sets now (online_key id) user).0 now (online_key id) 3600000 in
      let present =
        values_at (λ uid. i.presences.get s.presences now (presence_value_key id uid))
          (i.sets.smembers sets now (presence_users_key id)) in
      let (queues, missed) = flush_offline_queue i.queues s.queues now id user in
      let (docs, state) = get_y_state world s.docs now id in
      let claims = values_at (i.claims.get s.claims now) (i.sets.smembers sets now (set_key id)) in
      (
        record s {
          rooms = Map.set s.rooms room (Set.add (sockets_of s.rooms room) socket);
          docs = docs;
          sets = sets;
          queues = queues;
          channels = subscribe_doc_channel s.channels id;
        },
        record client { joined_docs = Set.add client.joined_docs id },
        (joined id ∷ unless_none (presence_list id) present)
            ++ (size_emission id (world.notes.get s.docs.notes now (note_key world id))
                ++ (emit_all missed
                    ++ (init_emission id state ++ unless_none (section_list id) claims))),
      )

  -- `onJoin`
  pub on_join :
      Session i
      → ℕ
      → String
      → Client
      → String
      → Session i × Client × List (Emission V) × Result Throw (Unit {0})
  on_join s now socket client document_id = elim client.user [
    | none ↦ (s, client, [], err not_authenticated)
    | some user ↦
        let id = trim document_id in
        let (s', client', out) = enter_room s now socket client user id in
        if id === ""
        then (s, client, [], err document_required)
        else elim (i.directory.find_by_id id) [
          | none ↦ (s, client, [], err document_not_found)
          | some doc ↦
              if has_doc_access i.directory user id "viewer" (some doc)
              then (if leb i.max_room_capacity (length (sockets_of s.rooms (room_name id)))
                  then (s, client, [], err room_full)
                  else (s', client', out, ok tt))
              else (s, client, [], err forbidden)
        ]
  ]

  -- The base document of `onYSync`.
  abbrev pub sync_update : yjs.YDoc → Option String → yjs.Bytes
  sync_update base none = yjs.encode base
  sync_update base (some v) =
      if v === "" then yjs.encode base else yjs.encode_since base (yjs.from_base64 v)

  abbrev pub sync_answer :
      String
      → Option String
      → Result Documents.Error YState
      → List (Emission V) × Result Throw (Unit {0})
  sync_answer id vector_b64 (err _) = ([], err sync_failed)
  sync_answer id vector_b64 (ok state) = elim (yjs.apply yjs.empty (yjs.from_base64 state.update)) [
    | none ↦ ([], err sync_failed)
    | some base ↦
        let (b64, gz) = maybe_gzip (sync_update base vector_b64) in
        (y_sync id b64 gz state.vector ∷ [], ok tt)
  ]

  -- `onYSync`
  pub on_y_sync :
      Session i
      → ℕ
      → Client
      → String
      → Option String
      → Session i × List (Emission V) × Result Throw (Unit {0})
  on_y_sync s now client document_id vector_b64 = elim client.user [
    | none ↦ (s, [], err not_authenticated)
    | some user ↦
        let id = trim document_id in
        let (docs, state) = get_y_state world s.docs now id in
        let (out, answer) = sync_answer id vector_b64 state in
        if id === ""
        then (s, [], err document_required)
        else (record s { docs = docs }, out, answer)
  ]

  -- The loop of `handleDisconnect`.
  pub forget_docs : Session i → ℕ → String → List String → Session i
  forget_docs s now user [] = s
  forget_docs s now user (id ∷ ids) =
      let sets = i.sets.srem s.sets now (online_key id) user in
      forget_docs
        (record s {
          sets = i.sets.srem sets now (presence_users_key id) user;
          presences = i.presences.del s.presences (presence_value_key id user);
        })
        now user ids

  -- socket.io takes a socket that disconnects out of its rooms.
  abbrev pub leave_rooms : Map (List String) → String → Map (List String)
  leave_rooms [] socket = []
  leave_rooms ((room, l) ∷ rooms) socket = (room, Set.delete l socket) ∷ leave_rooms rooms socket

  -- `handleDisconnect`
  pub handle_disconnect : Session i → ℕ → String → Client → Session i
  handle_disconnect s now socket client =
      let s' : Session i = record s { rooms = leave_rooms s.rooms socket } in
      elim client.user [ none ↦ s' | some user ↦ forget_docs s' now user client.joined_docs ]
