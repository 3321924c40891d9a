-- ===== src/Gateway/Presence.antt =====
-- `onPresence` of api/src/ws/ws.gateway.ts.
-- A position is an integer that `| 0` leaves as it is, here a natural number. What the chaos settings
-- decide, to drop the message or not, is an argument; the fanout to other instances is part of
-- `emits`.
pub mod Throttle
use Prim.Native.String
use realtime_collaborative_e.Base.{
  ℕ, ◌+◌, String, Bool, true, false, Option, none, some, List, [], ◌∷◌, ltb, ◌===◌, if◌then◌else◌,
  Result, ok, err,
}
use realtime_collaborative_e.Base.Map
use realtime_collaborative_e.Base.Map.{Map}
use realtime_collaborative_e.Gateway.{
  Client, Throw, not_authenticated, rate_limited, document_required,
}
use realtime_collaborative_e.Gateway.Text.{trim}
use realtime_collaborative_e.Gateway.Updates.{Server, allow_ws_message}

-- `PresencePayload`
pub record PresencePayload : Type 0 where
  pub document_id : String
  pub anchor : ℕ
  pub head : ℕ
  pub typing : Bool

-- `evt`
pub record PresenceEvent : Type 0 where
  pub document_id : String
  pub anchor : ℕ
  pub head : ℕ
  pub typing : Bool
  pub user_id : String
  pub ts : ℕ

-- What the handler does outside: it keeps the presence in Redis, and sends it to the room.
pub data Act : Type 0 where
  keeps emits : PresenceEvent → Act

-- The counters of the limit, and `presenceLast`.
pub record Presences (v : Server) : Type 0 where
  pub counters : v.counters.Store
  pub last : Map ℕ

abbrev pub presence_key : String → String → String
presence_key id user = String.◌++◌ id (String.◌++◌ ":" user)

-- `this.presenceLast.get(k) || 0`
abbrev pub last_of : Map ℕ → String → ℕ
last_of last k = elim (Map.get last k) [ none ↦ 0 | some t ↦ t ]

module _ (v : Server) (presence_min_ms : ℕ) where
  -- The handler from the throttle on.
  unfoldable pub announce :
      Presences v → ℕ → String → PresencePayload → Bool → Presences v × List Act
  announce s now user payload drop =
      let id = trim payload.document_id in
      let k = presence_key id user in
      let evt : PresenceEvent = record {
        document_id = id;
        anchor = payload.anchor;
        head = payload.head;
        typing = payload.typing;
        user_id = user;
        ts = now;
      } in
      if ltb now (last_of s.last k + presence_min_ms) then (s, []) else (
        record s { last = Map.set s.last k now },
        if drop then keeps evt ∷ [] else keeps evt ∷ emits evt ∷ [],
      )

  -- The rest of `onPresence` once the limit has answered.
  unfoldable pub admit :
      Presences v
      → ℕ
      → String
      → PresencePayload
      → Bool
      → Bool
      → Presences v × List Act × Result Throw (Unit {0})
  admit s now user payload drop false = (s, [], err rate_limited)
  admit s now user payload drop true =
      let (s', acts) = announce s now user payload drop in
      if trim payload.document_id === "" then (s, [], err document_required) else (s', acts, ok tt)

  -- `onPresence`
  unfoldable pub on_presence :
      Presences v
      → ℕ
      → Client
      → PresencePayload
      → Bool
      → Presences v × List Act × Result Throw (Unit {0})
  on_presence s now client payload drop = elim client.user [
    | none ↦ (s, [], err not_authenticated)
    | some user ↦
        let (counters, allowed) = allow_ws_message v s.counters now (String.◌++◌ "user:" user) in
        admit (record s { counters = counters }) now user payload drop allowed
  ]
