-- ===== src/Documents/Lost.antt =====
-- What two writers, or a rebuild, lose.
use realtime_collaborative_e.Base.{
  ℕ, ◌<◌, String, ◌≡◌, refl, sym, ap, subst, ◌∙◌, Bool, not, some, List, [], ◌∷◌, leb, ◌===◌, arith,
  eq_refl, filter, length, Option-cases, inl, inr, ok, ◌&&◌,
}
use realtime_collaborative_e.Platform.{Ascends}
use realtime_collaborative_e.Documents.{
  World, State, load, decode, pack, compact_up_to, snapshot_regenerated, log,
}
use realtime_collaborative_e.Documents.Apply.{commit, prepare}
use realtime_collaborative_e.Documents.Rebuild.{rebuild, process_snapshot, store_rebuilt}
use realtime_collaborative_e.Documents.Sync.{
  load-content, prepare-some, prepare-none, note_size-SameTables,
}
use realtime_collaborative_e.Documents.Sync.Replay.{rows_of, seq_of, Runs, rebuild_loop-Runs}
use realtime_collaborative_e.Documents.Written.{Stored, commit-Stored}

filter_left :
    {A : Type 0} (p q : A → Bool) (xs : List A)
    → filter p (filter (λ x. not (p x && q x)) xs) ≡ filter (λ x. not (q x)) (filter p xs)
filter_left p q [] = refl
filter_left p q (x ∷ xs) = ground (arith, filter_left p q xs)

module _ (w : World) where
  open w use {yjs, config}
  open yjs use {
    Bytes, YDoc, empty, apply, encode, gunzip, gzip, apply-encode, gunzip-gzip, sha256, from_base64,
    to_base64, byte_length,
  }

  prepare-ok :
      (s s' : State w) (now : ℕ) (id b64 : String) (d : YDoc) (u : Bytes)
      → prepare w s now id b64 ≡ (s', ok (d, u))
      → (apply (load w (w.contents.find s.contents id)) (decode w (from_base64 b64)) ≡ some d)
        × (s.contents ≡ s'.contents)
  prepare-ok s s' now id b64 d u h =
      let before = load w (w.contents.find s.contents id) in
      elim (Option-cases (apply before (decode w (from_base64 b64)))) [
        | inl a ↦ cc (prepare-none w s now id b64 before refl a, h)
        | inr (d', a) ↦
            let e = sym (prepare-some w s now id b64 before d' refl a) ∙ h in
            (
              cc (a, e),
              (note_size-SameTables w s now id (byte_length (encode d'))).0
                  ∙ ap (λ p. p.0.contents) e,
            )
      ]

  -- A defect: `applyYUpdate` reads the stored document before it takes the lock. When two writers
  -- both read before either writes, and the lock then serialises their writes, the stored document
  -- is the one that the second made from what it read: the first one's update is not in it, although
  -- both writers were told that they succeeded.
  pub interleaved_loses :
      (s s₁ s₂ s₃ s₄ : State w) (now : ℕ) (id token token' a_b64 b_b64 : String) (d da db : YDoc)
      (ua ub : Bytes)
      → Stored w s id d
      → prepare w s now id a_b64 ≡ (s₁, ok (da, ua))
      → prepare w s₁ now id b_b64 ≡ (s₂, ok (db, ub))
      → commit w s₂ now id token da ua ≡ (s₃, ok tt)
      → commit w s₃ now id token' db ub ≡ (s₄, ok tt)
      → Stored w s₄ id db × (apply d (decode w (from_base64 b_b64)) ≡ some db)
  interleaved_loses s s₁ s₂ s₃ s₄ now id token token' a_b64 b_b64 d da db ua ub st pa pb ca cb =
      let (_, same) = prepare-ok s s₁ now id a_b64 da ua pa in
      let (applied, _) = prepare-ok s₁ s₂ now id b_b64 db ub pb in
      let loaded : load w (w.contents.find s₁.contents id) ≡ d =
        ap (λ x. load w (w.contents.find x id)) (sym same) ∙ load-content w s id d st in
      (
        commit-Stored w s₃ s₄ now id token' db ub cb,
        subst (λ x. apply x (decode w (from_base64 b_b64)) ≡ some db) loaded applied,
      )

  -- The rows of a document that a compaction leaves.
  rows_of-compact :
      (s : State w) (id : String) (cut : ℕ)
      → rows_of w (compact_up_to w s id cut) id ≡ filter (λ r. not (leb r.seq cut)) (rows_of w s id)
  rows_of-compact s id cut =
      ap (filter (λ r. r.document_id === id)) (w.updates.rows-delete_many s.updates _)
      ∙ filter_left (λ r. r.document_id === id) (λ r. leb r.seq cut) (w.updates.rows s.updates)

  -- A defect: a rebuild starts from a new document. After the compaction has deleted the rows up to
  -- `cut`, the regenerated content is the replay of the rows that are left, whatever the content
  -- was: the deleted updates are lost.
  pub process_snapshot-compacted :
      (s : State w) (id : String) (cut fuel : ℕ) (e : YDoc)
      → Ascends (seq_of w) 0 (filter (λ r. not (leb r.seq cut)) (rows_of w s id))
      → Runs w empty (filter (λ r. not (leb r.seq cut)) (rows_of w s id)) e
      → length (filter (λ r. not (leb r.seq cut)) (rows_of w s id)) < fuel
      → (s' : State w) × (process_snapshot w fuel (compact_up_to w s id cut) id ≡ some s')
        × Stored w s' id e
  unfolding process_snapshot rebuild
  process_snapshot-compacted s id cut fuel e up runs room =
      let t : State w = compact_up_to w s id cut in
      let left = rows_of-compact s id cut in
      let done =
        rebuild_loop-Runs w t id 1000 fuel [] (rows_of w t id) empty e 0 (omega arith) refl tt
          (subst (λ x. Ascends (seq_of w) 0 x) (sym left) up)
          (subst (λ x. Runs w empty x e) (sym left) runs)
          (subst (λ x. length x < fuel) (sym left) room) in
      (
        log w (store_rebuilt w t id e) snapshot_regenerated,
        rw (done, process_snapshot),
        w.contents.find-upsert s.contents id id (pack w e) ∙ rw (eq_refl id),
      )
