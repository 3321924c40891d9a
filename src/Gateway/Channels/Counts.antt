-- ===== src/Gateway/Channels/Counts.antt =====
-- The counts behind the subscriptions, and who can end a subscription.
use realtime_collaborative_e.Base.{
  ◌+◌, ◌-◌, ◌<◌, String, ◌≡◌, ◌↔◌, true, false, some, ◌∙◌, ◌===◌, if◌then◌else◌, arith, eq_iff,
  eq_refl,
}
use realtime_collaborative_e.Base.Map
use realtime_collaborative_e.Base.Set
use realtime_collaborative_e.Gateway.{Client}
use realtime_collaborative_e.Gateway.Text.{trim}
use realtime_collaborative_e.Gateway.Channels.{
  Channels, refs, subscribe_doc_channel, unsubscribe_doc_channel, on_leave, IsBound,
  subscribe-IsBound, unsubscribe-IsBound,
}

pub refs-subscribe :
    (c : Channels) (j id : String)
    → refs (subscribe_doc_channel c j) id ≡ (if j === id then refs c id + 1 else refs c id)
unfolding subscribe_doc_channel
refs-subscribe c j id = ground (arith, Map.get-set c.sub_refs j id (refs c j + 1), eq_iff j id)

refs-unsubscribe :
    (c : Channels) (j id : String)
    → refs (unsubscribe_doc_channel c j) id ≡ (if j === id then refs c id - 1 else refs c id)
unfolding unsubscribe_doc_channel
refs-unsubscribe c j id =
    ground (
      arith,
      Map.get-set c.sub_refs j id (refs c j - 1),
      Map.get-delete c.sub_refs j id,
      eq_iff j id,
    )

pub has-refs :
    (c : Channels) (id : String) → IsBound c → (Set.has c.subscribed id ≡ true) ↔ (0 < refs c id)
has-refs c id b = ground (arith, b.counted id, b.positive id)

-- A defect: `onLeave` does not ask whether the socket has joined. After the first join of a document
-- is counted, the instance is subscribed to the document's channel; then a leave of any signed-in
-- socket that has not joined the document ends the subscription, the member who joined being still
-- there.
on_leave_unjoined :
    (c : Channels) (client : Client) (user document_id id : String)
    → IsBound c
    → refs c id ≡ 0
    → client.user ≡ some user
    → trim document_id ≡ id
    → Set.has client.joined_docs id ≡ false
    → let joined = subscribe_doc_channel c id in
      let r = on_leave joined client document_id in
      (Set.has joined.subscribed id ≡ true)
      × (Set.has r.0.subscribed id ≡ false)
      × (Set.has r.1.joined_docs id ≡ false)
unfolding on_leave
on_leave_unjoined c client user document_id id b none_yet u t j =
    let joined = subscribe_doc_channel c id in
    let bound = subscribe-IsBound c id b in
    let one : refs joined id ≡ 1 = refs-subscribe c id id ∙ rw (eq_refl id, none_yet) in
    let none_left : refs (unsubscribe_doc_channel joined id) id ≡ 0 =
      refs-unsubscribe joined id id ∙ rw (eq_refl id, one) in
    rw (u, t, on_leave)
      (
        (has-refs joined id bound).1 (omega (arith, one)),
        ground (
          arith,
          has-refs (unsubscribe_doc_channel joined id) id (unsubscribe-IsBound joined id bound),
          none_left,
        ),
        ground (arith, Set.has-delete client.joined_docs id id, eq_refl id),
      )
