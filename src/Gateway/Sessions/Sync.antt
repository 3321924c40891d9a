-- ===== src/Gateway/Sessions/Sync.antt =====
-- What a client makes of the answer to `y-sync`.
use realtime_collaborative_e.Base.{
  ℕ, String, ◌≡◌, ap, ◌∙◌, inl, inr, Bool, true, false, Option, some, [], ◌∷◌, leb, ◌===◌, ok,
  Bool-cases,
}
use realtime_collaborative_e.Documents.{y_state}
use realtime_collaborative_e.Documents.Read.{get_y_state}
use realtime_collaborative_e.Gateway.{Client}
use realtime_collaborative_e.Gateway.Text.{trim}
use realtime_collaborative_e.Gateway.Sessions.{
  Instance, Session, y_sync, maybe_gzip, sync_update, sync_answer, on_y_sync,
}

module _ {V : Type 0} (i : Instance V) where
  open i use {world}
  open world use {yjs}

  -- The bytes that a client reads from a message, by its flag `gz`.
  abbrev pub unpack : String → Bool → Option yjs.Bytes
  unpack b64 true = yjs.gunzip (yjs.from_base64 b64)
  unpack b64 false = some (yjs.from_base64 b64)

  maybe_gzip-unpack : (b : yjs.Bytes) → unpack (maybe_gzip i b).0 (maybe_gzip i b).1 ≡ some b
  unfolding maybe_gzip
  maybe_gzip-unpack b = elim (Bool-cases (leb i.compress_threshold (yjs.byte_length b))) [
    | inl big ↦ rw big (ap yjs.gunzip (yjs.from_base64-to_base64 (yjs.gzip b)) ∙ yjs.gunzip-gzip b)
    | inr small ↦ rw small (ap some (yjs.from_base64-to_base64 b))
  ]

  sync_update-apply :
      (d e : yjs.YDoc)
      → yjs.apply e (sync_update i d (some (yjs.to_base64 (yjs.vector e))))
        ≡ yjs.apply e (yjs.encode d)
  sync_update-apply d e = elim (Bool-cases (yjs.to_base64 (yjs.vector e) === "")) [
    | inl none_sent ↦ rw none_sent
    | inr sent ↦ rw (sent, yjs.from_base64-to_base64 (yjs.vector e)) (yjs.apply-encode_since d e)
  ]

  -- A signed-in client that sends the state vector of its document, for a document whose state is
  -- that of `d`, gets one message; what the message carries, unpacked and applied to the client's
  -- document, gives what the whole state of `d` would give.
  pub on_y_sync-apply :
      (s : Session i) (now : ℕ) (client : Client) (user document_id : String) (d e : yjs.YDoc)
      → client.user ≡ some user
      → (trim document_id === "") ≡ false
      → (get_y_state world s.docs now (trim document_id)).1 ≡ ok (y_state world d)
      → (b64 : String) × (gz : Bool) × (update : yjs.Bytes) × ((on_y_sync i s now client document_id
            (some (yjs.to_base64 (yjs.vector e)))).1
          ≡ y_sync (trim document_id) b64 gz (yjs.to_base64 (yjs.vector d)) ∷ [])
        × (unpack b64 gz ≡ some update)
        × (yjs.apply e update ≡ yjs.apply e (yjs.encode d))
  unfolding on_y_sync
  on_y_sync-apply s now client user document_id d e u n state =
      let update = sync_update i d (some (yjs.to_base64 (yjs.vector e))) in
      let m = maybe_gzip i update in
      let read : yjs.apply yjs.empty (yjs.from_base64 (yjs.to_base64 (yjs.encode d))) ≡ some d =
        rw (yjs.from_base64-to_base64 (yjs.encode d)) (yjs.apply-encode d) in
      (
        m.0,
        m.1,
        update,
        rw (u, n, state) (rw (sync_answer, read)),
        maybe_gzip-unpack update,
        sync_update-apply d e,
      )
