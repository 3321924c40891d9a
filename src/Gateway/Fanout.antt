-- ===== src/Gateway/Fanout.antt =====
-- Events between instances: `publishFanout` and the handler of `bindPubSubEvents` of
-- api/src/ws/ws.gateway.ts. Redis hands a message on a channel to every instance that is subscribed to
-- it, the sender included. A message is its JSON text, here itself, and `P` is the type of payloads;
-- the document that a payload names itself is the field `payload_document`.
pub mod Once
mod Tests
use Prim.Native.String
use realtime_collaborative_e.Base.{
  ℕ, String, Bool, true, false, ◌&&◌, ◌||◌, not, Option, none, some, List, [], ◌∷◌, ◌++◌, or_text,
  ◌===◌, if◌then◌else◌,
}
use realtime_collaborative_e.Base.Set
use realtime_collaborative_e.Gateway.Sessions.{room_name}

-- An instance, by `instanceId`, and the documents whose channel it is subscribed to.
pub record Node : Type 0 where
  pub instance_id : String
  pub subscribed : List String

module _ (P : Type 0) where
  pub record Message : Type 0 where
    pub origin : Option String
    pub type : String
    pub document_id : Option String
    pub payload_document : Option String
    pub payload : P

  -- An event that an instance emits to the sockets of a room.
  pub record Emitted : Type 0 where
    pub instance_id : String
    pub room : String
    pub type : String
    pub payload : P

  -- The types that the handler passes on.
  unfoldable pub is_known : String → Bool
  is_known type =
      type === "y-update"
      || type === "doc:msg"
      || type === "presence"
      || type === "section:claimed"
      || type === "section:released"
      || type === "comment:created"
      || type === "comment:updated"
      || type === "comment:deleted"
      || type === "comment:resolved"

  abbrev pub from_here : Node → Message → Bool
  from_here n m = elim m.origin [
    | none ↦ false
    | some origin ↦ not (origin === "") && (origin === n.instance_id)
  ]

  -- `data.payload?.documentId || data.documentId || channel.replace(…)`, for the channel of `id`
  abbrev pub document_of : String → Message → String
  document_of id m = or_text m.payload_document (or_text m.document_id id)

  -- The handler, for a message on the channel of the document `id`
  unfoldable pub on_message : Node → String → Message → List Emitted
  on_message n id m =
      let e : Emitted = record {
        instance_id = n.instance_id;
        room = room_name (document_of id m);
        type = m.type;
        payload = m.payload;
      } in
      if from_here n m then [] else if is_known m.type then e ∷ [] else []

  -- What Redis makes of a message on the channel of the document `id`.
  unfoldable pub publish : List Node → String → Message → List Emitted
  unfolding on_message
  publish [] id m = []
  publish (n ∷ nodes) id m =
      (if Set.has n.subscribed id then on_message n id m else []) ++ publish nodes id m

  -- The message of `publishFanout`
  abbrev pub fanout : Node → String → String → P → Message
  fanout n id type payload = record {
    origin = some n.instance_id;
    type = type;
    document_id = some id;
    payload_document = some id;
    payload = payload;
  }

  -- What a handler does with an event of a room: it emits it to its own sockets and publishes it.
  abbrev pub emit_everywhere : List Node → Node → String → String → P → List Emitted
  emit_everywhere nodes n id type payload =
      record { instance_id = n.instance_id; room = room_name id; type = type; payload = payload }
      ∷ publish nodes id (fanout n id type payload)
