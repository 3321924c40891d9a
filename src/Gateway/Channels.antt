-- ===== src/Gateway/Channels.antt =====
-- The subscriptions of an instance to the channels of its documents: `subscribeDocChannel` and
-- `unsubscribeDocChannel` of api/src/ws/ws.gateway.ts, and `onLeave` and the end of `onJoin`, which
-- call them. `this.sub` is there, and its calls succeed.
pub mod Counts
use Prim.Native.String
use realtime_collaborative_e.Base.{
  ℕ, zero, suc, ◌+◌, ◌-◌, ◌≤◌, ◌<◌, String, ◌≡◌, refl, sym, ◌≢◌, ◌↔◌, inl, inr, Bool, true, false,
  ◌||◌, not, Option, none, some, List, [], ◌∷◌, ◌++◌, ltb, leb, ◌==◌, ◌===◌, if◌then◌else◌, arith,
  eq_iff, eq_refl, Result, ok, err, Option-cases, Bool-cases,
}
use realtime_collaborative_e.Base.Map
use realtime_collaborative_e.Base.Map.{Map}
use realtime_collaborative_e.Base.Set
use realtime_collaborative_e.Gateway.{Client, Throw, not_authenticated}
use realtime_collaborative_e.Gateway.Text.{trim}

-- The counts of `subRefs`, and the documents whose channel the connection is subscribed to.
pub record Channels : Type 0 where
  pub sub_refs : Map ℕ
  pub subscribed : List String

-- `this.subRefs.get(documentId) || 0`
abbrev pub refs : Channels → String → ℕ
refs c id = elim (Map.get c.sub_refs id) [ none ↦ 0 | some n ↦ n ]

pub subscribe_doc_channel : Channels → String → Channels
subscribe_doc_channel c id =
    let n = refs c id + 1 in
    record {
      sub_refs = Map.set c.sub_refs id n;
      subscribed = if n == 1 then Set.add c.subscribed id else c.subscribed;
    }

-- `n <= 0` after the subtraction, which may reach -1 where there was no count.
pub unsubscribe_doc_channel : Channels → String → Channels
unsubscribe_doc_channel c id =
    if leb (refs c id) 1
    then record { sub_refs = Map.delete c.sub_refs id; subscribed = Set.delete c.subscribed id }
    else record c { sub_refs = Map.set c.sub_refs id (refs c id - 1) }

-- What a handler asks of the server, Redis and the socket, in order.
pub data Effect : Type 0 where
  leave_room : String → Effect
  audit_leave : String → String → Effect
  remove_online : String → String → Effect
  remove_presence : String → String → Effect
  emit_left : String → Effect

-- `onLeave`
pub on_leave :
    Channels → Client → String → Channels × Client × List Effect × Result Throw (Unit {0})
on_leave c client document_id = elim client.user [
  | none ↦ (c, client, [], err not_authenticated)
  | some user ↦
      let id = trim document_id in
      (
        unsubscribe_doc_channel c id,
        record client { joined_docs = Set.delete client.joined_docs id },
        leave_room (String.◌++◌ "doc:" id)
            ∷ audit_leave user id
            ∷ remove_online id user
            ∷ remove_presence id user
            ∷ emit_left id
            ∷ [],
        ok tt,
      )
]

-- The instance is subscribed to the channel of a document exactly if it counts a reference to it,
-- and no count is 0.
pub record IsBound (c : Channels) : Type 0 where
  pub counted : (id : String) → Set.has c.subscribed id ≡ Map.has c.sub_refs id
  pub positive : (id : String) → Map.get c.sub_refs id ≢ some 0

pub subscribe-IsBound :
    (c : Channels) (id : String) → IsBound c → IsBound (subscribe_doc_channel c id)
unfolding subscribe_doc_channel
subscribe-IsBound c id b = record {
  counted = λ j. ground (
    arith,
    b.counted j,
    b.counted id,
    b.positive id,
    Map.get-set c.sub_refs id j (refs c id + 1),
    Set.has-add c.subscribed id j,
    eq_iff id j,
  );
  positive = λ j. ground (arith, b.positive j, Map.get-set c.sub_refs id j (refs c id + 1));
}

pub unsubscribe-IsBound :
    (c : Channels) (id : String) → IsBound c → IsBound (unsubscribe_doc_channel c id)
unfolding unsubscribe_doc_channel
unsubscribe-IsBound c id b = record {
  counted = λ j. ground (
    arith,
    b.counted j,
    b.counted id,
    Map.get-delete c.sub_refs id j,
    Map.get-set c.sub_refs id j (refs c id - 1),
    Set.has-delete c.subscribed id j,
    eq_iff id j,
  );
  positive = λ j. ground (
    arith,
    b.positive j,
    Map.get-delete c.sub_refs id j,
    Map.get-set c.sub_refs id j (refs c id - 1),
  );
}
