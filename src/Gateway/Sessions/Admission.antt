-- ===== src/Gateway/Sessions/Admission.antt =====
-- Who enters a room, and how full it gets.
use realtime_collaborative_e.Base.{
  ℕ, ◌+◌, ◌≤◌, ◌<◌, String, ◌≡◌, refl, ◌≢◌, ◌⊎◌, inl, inr, true, false, some, List, [], ◌∷◌, leb,
  length, ◌===◌, if◌then◌else◌, arith, eq_iff, ok, Bool-cases, Option-cases,
}
use realtime_collaborative_e.Base.Map
use realtime_collaborative_e.Base.Map.{Map}
use realtime_collaborative_e.Base.Set
use realtime_collaborative_e.Access.{Doc, has_doc_access}
use realtime_collaborative_e.Gateway.{Client}
use realtime_collaborative_e.Gateway.Text.{trim}
use realtime_collaborative_e.Gateway.Sessions.{
  Instance, Session, online_key, room_name, sockets_of, enter_room, on_join, forget_docs,
  leave_rooms, handle_disconnect,
}

module _ {V : Type 0} (i : Instance V) where
  -- What a join that is let in has passed.
  pub record Admitted (s : Session i) (client : Client) (id : String) : Type 0 where
    pub user : String
    pub doc : Doc
    pub signed_in : client.user ≡ some user
    pub named : (id === "") ≡ false
    pub found : i.directory.find_by_id id ≡ some doc
    pub reads : has_doc_access i.directory user id "viewer" (some doc) ≡ true
    pub room : length (sockets_of s.rooms (room_name id)) < i.max_room_capacity

  -- The join is refused and nothing changes, or it is let in and the socket enters.
  pub on_join-Admitted :
      (s : Session i) (now : ℕ) (socket : String) (client : Client) (document_id : String)
      → let (s', client', out, answer) = on_join i s now socket client document_id in
        ((answer ≢ ok tt) × (s' ≡ s) × (client' ≡ client) × (out ≡ []))
        ⊎ ((a : Admitted s client (trim document_id)) × (on_join i s now socket client document_id
              ≡ (let e = enter_room i s now socket client a.user (trim document_id) in
                  (e.0, e.1, e.2, ok tt))))
  unfolding on_join
  on_join-Admitted s now socket client document_id =
      let id = trim document_id in
      elim (Option-cases client.user) [
        | inl u ↦ rw u (inl ((λ e. cc), refl, refl, refl))
        | inr (user, u) ↦ elim (Bool-cases (id === "")) [
          | inl n ↦ rw (u, n) (inl ((λ e. cc), refl, refl, refl))
          | inr n ↦ elim (Option-cases (i.directory.find_by_id id)) [
            | inl f ↦ rw (u, n, f) (inl ((λ e. cc), refl, refl, refl))
            | inr (doc, f) ↦
                elim (Bool-cases (has_doc_access i.directory user id "viewer" (some doc))) [
                  | inr r ↦ rw (u, n, f, r) (inl ((λ e. cc), refl, refl, refl))
                  | inl r ↦
                      elim (Bool-cases
                        (leb i.max_room_capacity (length (sockets_of s.rooms (room_name id))))) [
                          | inl full ↦ rw (u, n, f, r, full) (inl ((λ e. cc), refl, refl, refl))
                          | inr free ↦
                              rw (u, n, f, r, free)
                                (inr (
                                  record {
                                    user = user;
                                    doc = doc;
                                    signed_in = refl;
                                    named = n;
                                    found = f;
                                    reads = r;
                                    room = ground arith;
                                  },
                                  refl,
                                ))
                        ]
                ]
          ]
        ]
      ]

  -- No room has more sockets than the capacity.
  abbrev pub RoomsFit : Session i → Type 0
  RoomsFit s = (room : String) → length (sockets_of s.rooms room) ≤ i.max_room_capacity

  sockets_of-set :
      (rooms : Map (List String)) (room j : String) (l : List String)
      → sockets_of (Map.set rooms room l) j ≡ (if room === j then l else sockets_of rooms j)
  sockets_of-set rooms room j l = ground (arith, Map.get-set rooms room j l)

  pub sockets_of-leave :
      (rooms : Map (List String)) (socket j : String)
      → sockets_of (leave_rooms i rooms socket) j ≡ Set.delete (sockets_of rooms j) socket
  unfolding Map.get Set.delete
  sockets_of-leave [] socket j = refl
  sockets_of-leave ((room, l) ∷ rooms) socket j = ground (arith, sockets_of-leave rooms socket j)

  pub enter_room-sockets :
      (s : Session i) (now : ℕ) (socket : String) (client : Client) (user id j : String)
      → sockets_of (enter_room i s now socket client user id).0.rooms j ≡ (
          if room_name id === j
          then Set.add (sockets_of s.rooms (room_name id)) socket
          else sockets_of s.rooms j)
  unfolding enter_room
  enter_room-sockets s now socket client user id j =
      sockets_of-set s.rooms (room_name id) j (Set.add (sockets_of s.rooms (room_name id)) socket)

  on_join-RoomsFit :
      (s : Session i) (now : ℕ) (socket : String) (client : Client) (document_id : String)
      → RoomsFit s
      → RoomsFit (on_join i s now socket client document_id).0
  on_join-RoomsFit s now socket client document_id h =
      let id = trim document_id in
      elim (on_join-Admitted s now socket client document_id) [
        | inl (_, same, _, _) ↦ rw same h
        | inr (a, e) ↦ rw e λ room.
            rw (enter_room-sockets s now socket client a.user id room)
              (elim (Bool-cases (room_name id === room)) [
                | inl here ↦ rw here (
                    omega
                      (arith, Set.length-add-le (sockets_of s.rooms (room_name id)) socket, a.room))
                | inr there ↦ rw there (h room)
              ])
      ]

  forget_docs-rooms :
      (ids : List String) (s : Session i) (now : ℕ) (user : String)
      → (forget_docs i s now user ids).rooms ≡ s.rooms
  unfolding forget_docs
  forget_docs-rooms [] s now user = refl
  forget_docs-rooms (id ∷ ids) s now user = forget_docs-rooms ids _ now user

  pub disconnect-rooms :
      (s : Session i) (now : ℕ) (socket : String) (client : Client)
      → (handle_disconnect i s now socket client).rooms ≡ leave_rooms i s.rooms socket
  unfolding handle_disconnect
  disconnect-rooms s now socket client = elim (Option-cases client.user) [
    | inl u ↦ rw (u, handle_disconnect)
    | inr (user, u) ↦ rw (u, handle_disconnect) (forget_docs-rooms client.joined_docs _ now user)
  ]

  disconnect-RoomsFit :
      (s : Session i) (now : ℕ) (socket : String) (client : Client)
      → RoomsFit s
      → RoomsFit (handle_disconnect i s now socket client)
  disconnect-RoomsFit s now socket client h room =
      rw (disconnect-rooms s now socket client, sockets_of-leave s.rooms socket room)
        (omega (arith, Set.length-delete-le (sockets_of s.rooms room) socket, h room))

  -- What sockets do.
  pub data Move : Type 0 where
    joins : ℕ → String → Client → String → Move
    disconnects : ℕ → String → Client → Move

  pub run : Session i → List Move → Session i
  run s [] = s
  run s (joins now socket client document_id ∷ moves) =
      run (on_join i s now socket client document_id).0 moves
  run s (disconnects now socket client ∷ moves) =
      run (handle_disconnect i s now socket client) moves

  -- Whatever sockets join and disconnect, one after the other, no room gets more sockets than the
  -- capacity.
  pub run-RoomsFit :
      (moves : List Move) (s : Session i)
      → RoomsFit s
      → (room : String) → length (sockets_of (run s moves).rooms room) ≤ i.max_room_capacity
  unfolding run
  run-RoomsFit [] s h = h
  run-RoomsFit (joins now socket client document_id ∷ moves) s h =
      run-RoomsFit moves _ (on_join-RoomsFit s now socket client document_id h)
  run-RoomsFit (disconnects now socket client ∷ moves) s h =
      run-RoomsFit moves _ (disconnect-RoomsFit s now socket client h)

  -- A socket newly counts a document among those it joined only if its user is signed in, the
  -- document exists, and the user may read it; and then the user is online in it for an hour.
  pub on_join-reads :
      (s : Session i) (now at : ℕ) (socket : String) (client : Client) (document_id id : String)
      → Set.has client.joined_docs id ≡ false
      → Set.has (on_join i s now socket client document_id).1.joined_docs id ≡ true
      → now ≤ at
      → at < now + 3600000
      → (user : String) × (doc : Doc) × (client.user ≡ some user)
        × (i.directory.find_by_id id ≡ some doc)
        × (has_doc_access i.directory user id "viewer" (some doc) ≡ true)
        × (i.sets.has (on_join i s now socket client document_id).0.sets at (online_key id) user
            ≡ true)
  unfolding enter_room
  on_join-reads s now at socket client document_id id before after lo hi =
      elim (on_join-Admitted s now socket client document_id) [
        | inl (_, _, same, _) ↦ absurd (cc (before, after, same))
        | inr (a, e) ↦
            let new : Set.has (Set.add client.joined_docs (trim document_id)) id ≡ true =
              rw e at after in
            let here : trim document_id ≡ id = ground (
              arith,
              Set.has-add client.joined_docs (trim document_id) id,
              eq_iff (trim document_id) id,
            ) in
            (
              a.user,
              a.doc,
              a.signed_in,
              rw (← here) a.found,
              rw (← here) a.reads,
              rw (← here, e)
                  (i.sets.has-expire-sadd s.sets now at (online_key (trim document_id)) a.user
                    3600000 lo hi),
            )
      ]
