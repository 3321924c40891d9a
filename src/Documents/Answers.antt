-- ===== src/Documents/Answers.antt =====
-- What `applyYUpdate` answers.
use realtime_collaborative_e.Base.{
  ℕ, ltb, ◌&&◌, ◌==◌, ◌===◌, if◌then◌else◌, String, ◌≡◌, refl, ap, ◌∙◌, Option, none, some, arith,
  Option-cases, Bool-cases, inl, inr, ok, err, Result,
}
use realtime_collaborative_e.Lock
use realtime_collaborative_e.Documents.{
  World, State, Error, invalid_update, busy, duplicate_update, load, decode, inc_version,
}
use realtime_collaborative_e.Documents.Apply.{
  apply_y_update, commit, locked, note_size, lock_key, is_taken,
}
use realtime_collaborative_e.Documents.Sync.{apply_some, apply_none, locked_taken, locked_free}

module _ (w : World) where
  open w use {yjs}
  open yjs use {Bytes, YDoc, apply, encode, byte_length, from_base64}

  -- The answer under the lock: the version of the document, one further, is not yet in the log.
  abbrev write_answer : State w → String → Result Error (Unit {0})
  write_answer s id = if is_taken w s id (inc_version w s id).1 then err duplicate_update else ok tt

  -- With what the lock's key holds.
  abbrev lock_answer : State w → String → Option String → Result Error (Unit {0})
  lock_answer s id none = write_answer s id
  lock_answer s id (some _) = err busy

  is_taken_same :
      (s t : State w) (id : String) (n : ℕ)
      → s.updates ≡ t.updates
      → is_taken w s id n ≡ is_taken w t id n
  is_taken_same s t id n h =
      ap (λ u. ltb 0 (w.updates.count u (λ r. (r.document_id === id) && (r.seq == n)))) h

  inc_version-updates : (s : State w) (id : String) → (inc_version w s id).0.updates ≡ s.updates
  inc_version-updates s id = ground arith

  locked-answer :
      (s : State w) (now : ℕ) (id token : String) (d : YDoc) (u : Bytes)
      → (locked w s now id token d u).1 ≡ write_answer s id
  locked-answer s now id token d u =
      let seq = (inc_version w s id).1 in
      let same = is_taken_same (inc_version w s id).0 s id seq (inc_version-updates s id) in
      elim (Bool-cases (is_taken w s id seq)) [
        | inl e ↦ ap (λ p. p.1) (locked_taken w s now id token d u (same ∙ e)) ∙ rw e
        | inr e ↦ ap (λ p. p.1) (locked_free w s now id token d u (same ∙ e)) ∙ rw e
      ]

  locks-answer :
      (s : State w) (id : String) (locks : w.locks.Store)
      → write_answer (record s { locks = locks }) id ≡ write_answer s id
  locks-answer s id locks = ground arith

  commit-answer :
      (s : State w) (now : ℕ) (id token : String) (d : YDoc) (u : Bytes)
      → (commit w s now id token d u).1 ≡ lock_answer s id (w.locks.get s.locks now (lock_key w id))
  unfolding commit Lock.acquire
  commit-answer s now id token d u =
      let key = lock_key w id in
      elim (Option-cases (w.locks.get s.locks now key)) [
        | inl e ↦
            rw (e, w.locks.set_nx-none s.locks now key token 5000 e)
              (locked-answer _ now id _ d u ∙ locks-answer s id _)
        | inr (held, e) ↦ rw (e, w.locks.set_nx-some s.locks now key token held 5000 e)
      ]

  note_size-locks :
      (s : State w) (now : ℕ) (id : String) (n : ℕ) → (note_size w s now id n).locks ≡ s.locks
  unfolding note_size
  note_size-locks s now id n = ground arith

  note_size-answer :
      (s : State w) (now : ℕ) (id : String) (n : ℕ) (held : Option String)
      → lock_answer (note_size w s now id n) id held ≡ lock_answer s id held
  unfolding note_size
  note_size-answer s now id n held = ground arith

  -- `applyYUpdate` refuses an update that does not apply to the stored document as invalid, and any
  -- other as busy if the document is locked; then, if the log has a row with the document's version
  -- one further, or with 0 where there is no document, it fails as a duplicate, and in every other
  -- case it succeeds.
  pub apply_y_update-answer :
      (s : State w) (now : ℕ) (id token update_b64 : String)
      → (apply_y_update w s now id token update_b64).1
        ≡ (elim (apply
            (load w (w.contents.find s.contents id))
            (decode w (from_base64 update_b64))) [
              | none ↦ err invalid_update
              | some _ ↦ elim (w.locks.get s.locks now (lock_key w id)) [
                | none ↦
                    if is_taken w s id (inc_version w s id).1 then err duplicate_update else ok tt
                | some _ ↦ err busy
              ]
            ])
  apply_y_update-answer s now id token update_b64 =
      let before = load w (w.contents.find s.contents id) in
      elim (Option-cases (apply before (decode w (from_base64 update_b64)))) [
        | inl a ↦ ap (λ p. p.1) (apply_none w s now id token update_b64 before refl a) ∙ rw a
        | inr (d', a) ↦
            ap (λ p. p.1) (apply_some w s now id token update_b64 before d' refl a)
            ∙ commit-answer _ now id token d' _
            ∙ note_size-answer s now id (byte_length (encode d')) _
            ∙ rw (note_size-locks s now id (byte_length (encode d')), a)
      ]
