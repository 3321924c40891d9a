-- ===== src/Gateway/Updates/Order.antt =====
-- Which messages of a sender are duplicates, and in which order its numbered messages are accepted:
-- `onYUpdate` of api/src/ws/ws.gateway.ts.
use realtime_collaborative_e.Base.{
  ℕ, ◌+◌, ◌≤◌, ◌<◌, String, ◌≡◌, refl, sym, ap, ◌∙◌, inl, inr, true, false, Option, none, some, leb,
  ◌==◌, ◌===◌, arith, eq_refl, ok, Bool-cases,
}
use realtime_collaborative_e.Gateway.{Client}
use realtime_collaborative_e.Gateway.Text.{trim}
use realtime_collaborative_e.Gateway.Updates.{
  Server, State, Payload, accepted, duplicate, dedup_key, seq_key, accept, check_seq, check_msg,
  on_y_update,
}
use realtime_collaborative_e.Gateway.Updates.Laws.{IsLate, passes}

module _ (v : Server) where
  accept-keeps :
      (s : State v) (now : ℕ) (id b64 : String)
      → ((accept v s now id b64).0.sets ≡ s.sets) × ((accept v s now id b64).0.seqs ≡ s.seqs)
  unfolding accept
  accept-keeps s now id b64 = (ground arith, ground arith)

  check_seq-sets :
      (s : State v) (now : ℕ) (id user b64 : String) (seq : Option ℕ)
      → (check_seq v s now id user b64 seq).0.sets ≡ s.sets
  unfolding check_seq
  check_seq-sets s now id user b64 none = (accept-keeps s now id b64).0
  check_seq-sets s now id user b64 (some n) =
      elim (Bool-cases (
        leb n (elim (v.seqs.get s.seqs now (seq_key v id user)) [ none ↦ 0 | some last ↦ last ]))) [
          | inl old ↦ rw old
          | inr new ↦
              rw new
                (accept-keeps
                  (record s { seqs = v.seqs.set_ex s.seqs now (seq_key v id user) n 300000 }) now id
                  b64).0
        ]

  check_msg-sets :
      (s : State v) (now : ℕ) (id user b64 : String) (seq : Option ℕ) (msg : String)
      → (msg === "") ≡ false
      → (check_msg v s now id user b64 seq (some msg)).0.sets
        ≡ v.sets.expire (v.sets.sadd s.sets now (dedup_key v id) msg).0 now (dedup_key v id) 60000
  unfolding check_msg
  check_msg-sets s now id user b64 seq msg n =
      elim (Bool-cases ((v.sets.sadd s.sets now (dedup_key v id) msg).1 == 0)) [
        | inl old ↦ rw (n, old)
        | inr new ↦ rw (n, new) (check_seq-sets _ now id user b64 seq)
      ]

  check_msg-old :
      (s : State v) (now : ℕ) (id user b64 : String) (seq : Option ℕ) (msg : String)
      → (msg === "") ≡ false
      → v.sets.has s.sets now (dedup_key v id) msg ≡ true
      → ((check_msg v s now id user b64 seq (some msg)).1 ≡ ok duplicate)
        × ((check_msg v s now id user b64 seq (some msg)).0.batches ≡ s.batches)
  unfolding check_msg
  check_msg-old s now id user b64 seq msg n h =
      rw (n, v.sets.sadd-old s.sets now (dedup_key v id) msg h) (refl, refl)

  -- A message with an identifier that came past the checks of the sender, whatever became of it, is
  -- remembered: within a minute, as long as the sets of identifiers are those that it left, no other
  -- message having come between, a message with the same identifier for the same document that comes
  -- as far is answered as a duplicate and changes no batch, from whatever sender it is.
  pub on_y_update-duplicate :
      (s : State v) (now : ℕ) (client : Client) (p : Payload) (msg : String) (s' : State v) (at : ℕ)
      (client' : Client) (p' : Payload)
      → p.msg_id ≡ some msg
      → (msg === "") ≡ false
      → IsLate v (on_y_update v s now client p).1
      → s'.sets ≡ (on_y_update v s now client p).0.sets
      → now ≤ at
      → at < now + 60000
      → p'.msg_id ≡ some msg
      → trim p'.document_id ≡ trim p.document_id
      → IsLate v (on_y_update v s' at client' p').1
      → ((on_y_update v s' at client' p').1 ≡ ok duplicate)
        × ((on_y_update v s' at client' p').0.batches ≡ s'.batches)
  on_y_update-duplicate s now client p msg s' at client' p' m ne late link lo hi m' same late' =
      elim (passes v s now client p) [
        | inr (early, _) ↦ absurd (early late)
        | inl q ↦ elim (passes v s' at client' p') [
          | inr (early, _) ↦ absurd (early late')
          | inl q' ↦
              let id = trim p.document_id in
              let b64 = trim p.update_b64 in
              let after : s'.sets
                  ≡ v.sets.expire (v.sets.sadd q.state.sets now (dedup_key v id) msg).0 now
                      (dedup_key v id) 60000 =
                link
                ∙ ap (λ r. r.0.sets) q.rest
                ∙ ap (λ o. (check_msg v q.state now id q.user b64 p.seq o).0.sets) m
                ∙ check_msg-sets q.state now id q.user b64 p.seq msg ne in
              let there : v.sets.has q'.state.sets at (dedup_key v (trim p'.document_id)) msg
                  ≡ true =
                rw (q'.sets, after, same)
                  (v.sets.has-expire-sadd q.state.sets now at (dedup_key v id) msg 60000 lo hi) in
              let old =
                check_msg-old q'.state at (trim p'.document_id) q'.user (trim p'.update_b64) p'.seq
                  msg ne there in
              let rest' =
                q'.rest
                ∙ ap
                    (check_msg v q'.state at (trim p'.document_id) q'.user (trim p'.update_b64)
                      p'.seq)
                    m' in
              (ap (λ r. r.1) rest' ∙ old.0, ap (λ r. r.0.batches) rest' ∙ old.1 ∙ q'.batches)
        ]
      ]

  -- What an accepted message with a number leaves: it was greater than the last number of its
  -- sender in the document, and it is the last number now.
  check_seq-accepted :
      (s : State v) (now : ℕ) (id user b64 : String) (n : ℕ)
      → (check_seq v s now id user b64 (some n)).1 ≡ ok accepted
      → ((last : ℕ) → v.seqs.get s.seqs now (seq_key v id user) ≡ some last → last < n)
        × ((check_seq v s now id user b64 (some n)).0.seqs
            ≡ v.seqs.set_ex s.seqs now (seq_key v id user) n 300000)
  unfolding check_seq
  check_seq-accepted s now id user b64 n h =
      elim (Bool-cases (
        leb n (elim (v.seqs.get s.seqs now (seq_key v id user)) [ none ↦ 0 | some last ↦ last ]))) [
          | inl old ↦ absurd (ground arith)
          | inr new ↦ (
            λ last e. ground arith,
            rw new
                (accept-keeps
                  (record s { seqs = v.seqs.set_ex s.seqs now (seq_key v id user) n 300000 }) now id
                  b64).1,
          )
        ]

  check_msg-accepted :
      (s : State v) (now : ℕ) (id user b64 : String) (n : ℕ) (msg : Option String)
      → (check_msg v s now id user b64 (some n) msg).1 ≡ ok accepted
      → ((last : ℕ) → v.seqs.get s.seqs now (seq_key v id user) ≡ some last → last < n)
        × ((check_msg v s now id user b64 (some n) msg).0.seqs
            ≡ v.seqs.set_ex s.seqs now (seq_key v id user) n 300000)
  unfolding check_msg
  check_msg-accepted s now id user b64 n none h = check_seq-accepted s now id user b64 n h
  check_msg-accepted s now id user b64 n (some msg) h = elim (Bool-cases (msg === "")) [
    | inl e ↦ rw e (check_seq-accepted s now id user b64 n (rw e at h))
    | inr ne ↦
        let s' : State v = record s {
          sets =
              v.sets.expire (v.sets.sadd s.sets now (dedup_key v id) msg).0 now (dedup_key v id)
                60000;
        } in
        elim (Bool-cases ((v.sets.sadd s.sets now (dedup_key v id) msg).1 == 0)) [
          | inl old ↦ absurd (cc (rw (ne, old) at h))
          | inr new ↦ rw (ne, new) (check_seq-accepted s' now id user b64 n (rw (ne, new) at h))
        ]
  ]

  seq_stored :
      (q : v.seqs.Store) (now at : ℕ) (k : String) (n : ℕ)
      → now ≤ at
      → at < now + 300000
      → v.seqs.get (v.seqs.set_ex q now k n 300000) at k ≡ some n
  seq_stored q now at k n lo hi =
      v.seqs.get-set_ex q now at k k n 300000 lo ∙ ground (arith, eq_refl k)

  -- If two messages with numbers, of one sender for one document and less than five minutes apart,
  -- are both accepted, and the later one finds the numbers that the former left, then the later one
  -- has the greater number.
  pub on_y_update-ascends :
      (s : State v) (now : ℕ) (client : Client) (p : Payload) (user : String) (n : ℕ) (s' : State v)
      (at : ℕ) (client' : Client) (p' : Payload) (m : ℕ)
      → client.user ≡ some user
      → client'.user ≡ some user
      → p.seq ≡ some n
      → p'.seq ≡ some m
      → trim p'.document_id ≡ trim p.document_id
      → s'.seqs ≡ (on_y_update v s now client p).0.seqs
      → now ≤ at
      → at < now + 300000
      → (on_y_update v s now client p).1 ≡ ok accepted
      → (on_y_update v s' at client' p').1 ≡ ok accepted
      → n < m
  on_y_update-ascends s now client p user n s' at client' p' m u u' sn sm same link lo hi a a' =
      elim (passes v s now client p) [
        | inr (early, _) ↦ absurd (early (rw a tt))
        | inl q ↦ elim (passes v s' at client' p') [
          | inr (early, _) ↦ absurd (early (rw a' tt))
          | inl q' ↦
              let id = trim p.document_id in
              let rest =
                q.rest
                ∙ ap (λ o. check_msg v q.state now id q.user (trim p.update_b64) o p.msg_id) sn in
              let rest' =
                q'.rest
                ∙ ap
                    (λ o.
                      check_msg v q'.state at (trim p'.document_id) q'.user (trim p'.update_b64) o
                        p'.msg_id)
                    sm in
              let first =
                check_msg-accepted q.state now id q.user (trim p.update_b64) n p.msg_id
                  (sym (ap (λ r. r.1) rest) ∙ a) in
              let second =
                check_msg-accepted q'.state at (trim p'.document_id) q'.user (trim p'.update_b64) m
                  p'.msg_id (sym (ap (λ r. r.1) rest') ∙ a') in
              let one : q'.user ≡ q.user = cc (q.signed_in, q'.signed_in, u, u') in
              let seqs = q'.seqs ∙ link ∙ ap (λ r. r.0.seqs) rest ∙ first.1 in
              second.0 n (
                rw (seqs, same, one) (seq_stored q.state.seqs now at (seq_key v id q.user) n lo hi))
        ]
      ]
