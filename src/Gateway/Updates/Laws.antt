-- ===== src/Gateway/Updates/Laws.antt =====
-- What becomes of a message to `onYUpdate` of api/src/ws/ws.gateway.ts.
use realtime_collaborative_e.Base.{
  ℕ, ◌≤◌, String, ◌≡◌, refl, ap, ◌∙◌, ◌≢◌, ◌⊎◌, inl, inr, Bool, true, false, Option, none, some,
  leb, ltb, ◌==◌, ◌===◌, arith, Result, ok, err, Option-cases, Bool-cases,
}
use realtime_collaborative_e.Base.Set
use realtime_collaborative_e.Gateway.{Client, Throw, update_too_large, invalid_update}
use realtime_collaborative_e.Gateway.Text.{trim}
use realtime_collaborative_e.Gateway.Batches.{enqueue_update}
use realtime_collaborative_e.Gateway.Updates.{
  Server, State, Payload, Status, accepted, decode_update, dedup_key, seq_key, accept, check_seq,
  check_msg, dispatch, limited, allowed, on_y_update,
}

module _ (v : Server) where
  open v use {yjs}
  open yjs use {Bytes, empty, apply, byte_length}

  -- The message is accepted, is within the limits, and its update is enqueued; or it is not
  -- accepted, and no batch changes.
  abbrev pub Fate : State v → ℕ → String → String → State v × Result Throw Status → Type 0
  Fate s now id b64 (s', r) =
      ((r ≡ ok accepted)
        × (s'.batches ≡ enqueue_update s.batches now id (decode_update v b64))
        × (byte_length (decode_update v b64) ≤ v.update_max_bytes)
        × (apply empty (decode_update v b64) ≢ none))
      ⊎ ((r ≢ ok accepted) × (s'.batches ≡ s.batches))

  accept-Fate :
      (s : State v) (now : ℕ) (id b64 : String) → Fate s now id b64 (accept v s now id b64)
  unfolding accept
  accept-Fate s now id b64 =
      elim (Bool-cases (ltb v.update_max_bytes (byte_length (decode_update v b64)))) [
        | inl big ↦ rw big (inr ((λ e. cc), refl))
        | inr fits ↦ elim (Option-cases (apply empty (decode_update v b64))) [
          | inl e ↦ rw (fits, e) (inr ((λ p. cc), refl))
          | inr (d, e) ↦ rw (fits, e) (inl (refl, refl, ground arith, λ p. cc))
        ]
      ]

  check_seq-Fate :
      (s : State v) (now : ℕ) (id user b64 : String) (seq : Option ℕ)
      → Fate s now id b64 (check_seq v s now id user b64 seq)
  unfolding check_seq
  check_seq-Fate s now id user b64 none = accept-Fate s now id b64
  check_seq-Fate s now id user b64 (some n) =
      elim (Bool-cases (
        leb n (elim (v.seqs.get s.seqs now (seq_key v id user)) [ none ↦ 0 | some last ↦ last ]))) [
          | inl old ↦ rw old (inr ((λ p. cc), refl))
          | inr new ↦ rw new (
              accept-Fate
                (record s { seqs = v.seqs.set_ex s.seqs now (seq_key v id user) n 300000 }) now id
                b64)
        ]

  check_msg-Fate :
      (s : State v) (now : ℕ) (id user b64 : String) (seq : Option ℕ) (msg : Option String)
      → Fate s now id b64 (check_msg v s now id user b64 seq msg)
  unfolding check_msg
  check_msg-Fate s now id user b64 seq none = check_seq-Fate s now id user b64 seq
  check_msg-Fate s now id user b64 seq (some msg) = elim (Bool-cases (msg === "")) [
    | inl e ↦ rw e (check_seq-Fate s now id user b64 seq)
    | inr n ↦
        let s' : State v = record s {
          sets =
              v.sets.expire (v.sets.sadd s.sets now (dedup_key v id) msg).0 now (dedup_key v id)
                60000;
        } in
        elim (Bool-cases ((v.sets.sadd s.sets now (dedup_key v id) msg).1 == 0)) [
          | inl old ↦ rw (n, old) (inr ((λ p. cc), refl))
          | inr new ↦ rw (n, new) (check_seq-Fate s' now id user b64 seq)
        ]
  ]

  -- The handler came as far as the removal of duplicates.
  abbrev pub IsLate : Result Throw Status → Type 0
  IsLate (ok _) = Unit
  IsLate (err update_too_large) = Unit
  IsLate (err invalid_update) = Unit
  IsLate (err _) = ⊥

  -- What `onYUpdate` has checked when it comes so far, and the rest of it.
  pub record Passed (s : State v) (now : ℕ) (client : Client) (p : Payload) : Type 0 where
    pub user : String
    pub state : State v
    pub signed_in : client.user ≡ some user
    pub named : (trim p.document_id === "") ≡ false
    pub joined : Set.has client.joined_docs (trim p.document_id) ≡ true
    pub sets : state.sets ≡ s.sets
    pub seqs : state.seqs ≡ s.seqs
    pub batches : state.batches ≡ s.batches
    pub rest :
        on_y_update v s now client p
        ≡ check_msg v state now (trim p.document_id) user (trim p.update_b64) p.seq p.msg_id

  -- Or the handler threw before, and changed no batch.
  abbrev Stopped : State v → State v × Result Throw Status → Type 0
  Stopped s (s', r) = (IsLate r → ⊥) × (s'.batches ≡ s.batches)

  on_user :
      (s : State v) (now : ℕ) (client : Client) (p : Payload) (user : String)
      → client.user ≡ some user
      → on_y_update v s now client p
        ≡ dispatch v (limited v s now user) now client p user (allowed v s now user)
  unfolding on_y_update
  on_user s now client p user u = rw u

  dispatch-stops :
      (s : State v) (now : ℕ) (client : Client) (p : Payload) (user : String) (b : Bool)
      → Stopped s (dispatch v s now client p user b)
        ⊎ ((b ≡ true)
            × ((trim p.document_id === "") ≡ false)
            × (Set.has client.joined_docs (trim p.document_id) ≡ true)
            × (dispatch v s now client p user b
                ≡ check_msg v s now (trim p.document_id) user (trim p.update_b64) p.seq p.msg_id))
  unfolding dispatch
  dispatch-stops s now client p user false = inl ((λ h. h), refl)
  dispatch-stops s now client p user true = elim (Bool-cases (trim p.document_id === "")) [
    | inl e ↦ rw e (inl ((λ h. h), refl))
    | inr e ↦ elim (Bool-cases (trim p.update_b64 === "")) [
      | inl u ↦ rw (e, u) (inl ((λ h. h), refl))
      | inr u ↦ elim (Bool-cases (Set.has client.joined_docs (trim p.document_id))) [
        | inl j ↦ rw (e, u, j) (inr (refl, refl, refl, refl))
        | inr j ↦ rw (e, u, j) (inl ((λ h. h), refl))
      ]
    ]
  ]

  -- Either the handler came to the removal of duplicates, or it threw and no batch changed.
  pub passes :
      (s : State v) (now : ℕ) (client : Client) (p : Payload)
      → Passed s now client p ⊎ Stopped s (on_y_update v s now client p)
  unfolding on_y_update
  passes s now client p = elim (Option-cases client.user) [
    | inl u ↦ rw u (inr ((λ h. h), refl))
    | inr (user, u) ↦
        elim (dispatch-stops (limited v s now user) now client p user (allowed v s now user)) [
          | inl stop ↦ inr (rw (on_user s now client p user u) stop)
          | inr (_, e, j, eq) ↦ inl (record {
            user = user;
            state = limited v s now user;
            signed_in = u;
            named = e;
            joined = j;
            sets = refl;
            seqs = refl;
            batches = refl;
            rest = on_user s now client p user u ∙ eq;
          })
        ]
  ]

  -- A message is accepted, and then its sender has joined the document, its update is within the
  -- size limit and can be applied to an empty document, and exactly that update is enqueued for the
  -- document; or it is not accepted, and no batch changes.
  pub on_y_update-enqueues :
      (s : State v) (now : ℕ) (client : Client) (p : Payload)
      → let (s', r) = on_y_update v s now client p in
        let id = trim p.document_id in
        let update = decode_update v (trim p.update_b64) in
        ((r ≡ ok accepted)
          × (Set.has client.joined_docs id ≡ true)
          × (byte_length update ≤ v.update_max_bytes)
          × (apply empty update ≢ none)
          × (s'.batches ≡ enqueue_update s.batches now id update))
        ⊎ ((r ≢ ok accepted) × (s'.batches ≡ s.batches))
  on_y_update-enqueues s now client p = elim (passes s now client p) [
    | inr (early, same) ↦ inr ((λ e. early (rw e tt)), same)
    | inl q ↦
        let b64 = trim p.update_b64 in
        elim (rw (← q.rest) at
          (check_msg-Fate q.state now (trim p.document_id) q.user b64 p.seq p.msg_id)) [
            | inl (r, enq, small, applies) ↦ inl (
              r,
              q.joined,
              small,
              applies,
              enq
                  ∙ ap (λ b. enqueue_update b now (trim p.document_id) (decode_update v b64))
                      q.batches,
            )
            | inr (r, same) ↦ inr (r, same ∙ q.batches)
          ]
  ]
