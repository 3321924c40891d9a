-- ===== src/Gateway/Sessions/Ghosts.antt =====
-- What a socket that disconnects leaves behind.
use realtime_collaborative_e.Base.{
  ℕ, String, ◌≡◌, refl, ap, ◌∙◌, inl, inr, true, false, some, List, [], ◌∷◌, ◌===◌, arith, eq_iff,
  eq_refl, ok, Bool-cases, Option-cases,
}
use realtime_collaborative_e.Base.Set
use realtime_collaborative_e.Gateway.{Client}
use realtime_collaborative_e.Gateway.Text.{trim}
use realtime_collaborative_e.Gateway.Channels.{
  refs, subscribe_doc_channel, IsBound, subscribe-IsBound,
}
use realtime_collaborative_e.Gateway.Channels.Counts.{refs-subscribe, has-refs}
use realtime_collaborative_e.Gateway.Sessions.{
  Instance, Session, online_key, presence_users_key, room_name, sockets_of, enter_room, on_join,
  forget_docs, handle_disconnect,
}
use realtime_collaborative_e.Gateway.Sessions.Admission.{
  on_join-Admitted, disconnect-rooms, sockets_of-leave, enter_room-sockets,
}

module _ {V : Type 0} (i : Instance V) where
  -- Taking a user out of sets puts nobody in.
  srem-absent :
      (s : i.sets.Store) (now : ℕ) (k j m n : String)
      → i.sets.has s now j n ≡ false
      → i.sets.has (i.sets.srem s now k m) now j n ≡ false
  srem-absent s now k j m n h = rw (i.sets.has-srem s now k j m n, h) (ground arith)

  forget_docs-absent :
      (ids : List String) (s : Session i) (now : ℕ) (user k : String)
      → i.sets.has s.sets now k user ≡ false
      → i.sets.has (forget_docs i s now user ids).sets now k user ≡ false
  unfolding forget_docs
  forget_docs-absent [] s now user k h = h
  forget_docs-absent (id ∷ ids) s now user k h = forget_docs-absent ids _ now user k (
      srem-absent _ now (presence_users_key id) k user user
        (srem-absent s.sets now (online_key id) k user user h))

  forget_docs-offline :
      (ids : List String) (s : Session i) (now : ℕ) (user id : String)
      → Set.has ids id ≡ true
      → i.sets.has (forget_docs i s now user ids).sets now (online_key id) user ≡ false
  unfolding forget_docs Set.has
  forget_docs-offline [] s now user id h = absurd cc
  forget_docs-offline (j ∷ ids) s now user id h = elim (Bool-cases (j === id)) [
    | inr other ↦ forget_docs-offline ids _ now user id (rw other at h)
    | inl same ↦
        let gone : i.sets.has (i.sets.srem s.sets now (online_key id) user) now (online_key id) user
            ≡ false =
          i.sets.has-srem s.sets now (online_key id) (online_key id) user user
          ∙ rw (eq_refl (online_key id), eq_refl user) in
        forget_docs-absent ids _ now user (online_key id) (
          srem-absent _ now (presence_users_key j) (online_key id) user user
            (rw ((eq_iff j id).0 same) gone))
  ]

  forget_docs-channels :
      (ids : List String) (s : Session i) (now : ℕ) (user : String)
      → (forget_docs i s now user ids).channels ≡ s.channels
  unfolding forget_docs
  forget_docs-channels [] s now user = refl
  forget_docs-channels (id ∷ ids) s now user = forget_docs-channels ids _ now user

  disconnect-channels :
      (s : Session i) (now : ℕ) (socket : String) (client : Client)
      → (handle_disconnect i s now socket client).channels ≡ s.channels
  unfolding handle_disconnect
  disconnect-channels s now socket client = elim (Option-cases client.user) [
    | inl u ↦ rw (u, handle_disconnect)
    | inr (user, u) ↦ rw (u, handle_disconnect) (forget_docs-channels client.joined_docs _ now user)
  ]

  -- After a disconnect the user is online in none of the documents that the socket joined.
  pub handle_disconnect-offline :
      (s : Session i) (now : ℕ) (socket : String) (client : Client) (user id : String)
      → client.user ≡ some user
      → Set.has client.joined_docs id ≡ true
      → i.sets.has (handle_disconnect i s now socket client).sets now (online_key id) user ≡ false
  unfolding handle_disconnect
  handle_disconnect-offline s now socket client user id u joined =
      rw (u, handle_disconnect) (forget_docs-offline client.joined_docs _ now user id joined)

  delete-only : (socket : String) → Set.delete (Set.add [] socket) socket ≡ []
  unfolding Set.delete Set.add Set.has
  delete-only socket = rw (eq_refl socket)

  -- A defect: `handleDisconnect` does not end the subscription that `onJoin` began. When the only
  -- socket in a room that it joined disconnects, the room is empty, but the instance counts one
  -- member more than none and stays subscribed to the document's channel.
  pub join_disconnect-subscribed :
      (s : Session i) (now at : ℕ) (socket : String) (client : Client) (document_id : String)
      → IsBound s.channels
      → refs s.channels (trim document_id) ≡ 0
      → sockets_of s.rooms (room_name (trim document_id)) ≡ []
      → (on_join i s now socket client document_id).3 ≡ ok tt
      → let (s', client', _, _) = on_join i s now socket client document_id in
        let s'' = handle_disconnect i s' at socket client' in
        (sockets_of s''.rooms (room_name (trim document_id)) ≡ [])
        × (refs s''.channels (trim document_id) ≡ 1)
        × (Set.has s''.channels.subscribed (trim document_id) ≡ true)
  unfolding enter_room
  join_disconnect-subscribed s now at socket client document_id bound zero_refs alone done =
      let id = trim document_id in
      elim (on_join-Admitted i s now socket client document_id) [
        | inl (refused, _, _, _) ↦ absurd (refused done)
        | inr (a, e) ↦
            let entered = enter_room i s now socket client a.user id in
            let chans : (handle_disconnect i entered.0 at socket entered.1).channels
                ≡ subscribe_doc_channel s.channels id =
              disconnect-channels entered.0 at socket entered.1 in
            let one : refs (subscribe_doc_channel s.channels id) id ≡ 1 =
              refs-subscribe s.channels id id ∙ rw (eq_refl id, zero_refs) in
            let inside : sockets_of entered.0.rooms (room_name id) ≡ Set.add [] socket =
              enter_room-sockets i s now socket client a.user id (room_name id)
              ∙ rw (eq_refl (room_name id), alone) in
            rw e (
              ap (λ r. sockets_of r (room_name id))
                    (disconnect-rooms i entered.0 at socket entered.1)
                  ∙ sockets_of-leave i entered.0.rooms socket (room_name id)
                  ∙ ap (λ l. Set.delete l socket) inside
                  ∙ delete-only socket,
              ap (λ c. refs c id) chans ∙ one,
              ap (λ c. Set.has c.subscribed id) chans
                  ∙ (has-refs (subscribe_doc_channel s.channels id) id
                        (subscribe-IsBound s.channels id bound)).1
                      (omega (arith, one)),
            )
      ]
