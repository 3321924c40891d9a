-- ===== src/Documents/Sync.antt =====
-- When the stored state of a document is the replay of its update log, and what keeps it so.
pub mod Replay
use realtime_collaborative_e.Base.{
  ℕ, zero, suc, ◌+◌, ◌-◌, ◌≤◌, ◌<◌, String, ◌≡◌, refl, sym, ap, subst, ◌∙◌, Bool, true, false, ◌&&◌,
  Option, none, some, List, [], ◌∷◌, ◌++◌, ltb, lt→ltb, ◌===◌, arith, eq_iff, eq_refl, filter,
  length, filter-append, Bool-cases, Option-cases, inl, inr, if◌then◌else◌, ok, err, Result, ◌≢◌,
}
use realtime_collaborative_e.Lock
use realtime_collaborative_e.Platform.{Yjs, Ascends}
use realtime_collaborative_e.Documents.{
  World, Error, State, invalid_update, duplicate_update, Content, LogRow, snapshot_regenerated,
  apply_or_keep, load, decode, pack, inc_version, log,
}
use realtime_collaborative_e.Documents.Apply.{
  after_prepare, note_size, lock_key, compact, publish, commit, prepare, apply_y_update,
  take_snapshot, is_taken, insert, append, upsert_state, release_lock, locked, transact,
  after_transact,
}
use realtime_collaborative_e.Documents.Rebuild.{
  store_rebuilt, rebuild, process_snapshot, validate_and_repair,
}
use Replay.{Rows, rows_of, seq_of, Runs, last_seq, Runs-append, Ascends-append, rebuild_loop-Runs}

ltb-false : (a b : ℕ) → b ≤ a → ltb a b ≡ false
ltb-false a b h = ground arith

pub err-ne-ok :
    {S : Type 0} {s s' : S} {e : Error}
    → ◌≢◌ {A = S × Result Error (Unit {0})} (s, err e) (s', ok tt)
err-ne-ok h = cc

module _ (w : World) where
  open w use {yjs, config}
  open yjs use {
    byte_length, Bytes, YDoc, empty, apply, encode, gunzip, gzip, apply-encode, gunzip-gzip, sha256,
    from_base64,
  }

  -- The stored content is the document `d`, its log replays to `d` from a new document, and the
  -- log's sequence numbers ascend up to the document's version `n`.
  pub record InSync (s : State w) (id : String) (d : YDoc) (n : ℕ) : Type 0 where
    pub content : w.contents.find s.contents id ≡ some (pack w d)
    pub version : w.versions.find s.versions id ≡ some n
    pub ascends : Ascends (seq_of w) 0 (rows_of w s id)
    pub bounded : last_seq w 0 (rows_of w s id) ≤ n
    pub replays : Runs w empty (rows_of w s id) d

  load-pack : (d : YDoc) → load w (some (pack w d)) ≡ d
  load-pack d = rw (gunzip-gzip (encode d), apply_or_keep, apply-encode d)

  -- The regeneration of a snapshot from a complete log changes neither the content nor the log: it
  -- finds the document that the writers stored.
  pub process_snapshot-InSync :
      (s : State w) (id : String) (d : YDoc) (n fuel : ℕ)
      → InSync s id d n
      → length (rows_of w s id) < fuel
      → (s' : State w) × (process_snapshot w fuel s id ≡ some s') × InSync s' id d n
  unfolding process_snapshot rebuild
  process_snapshot-InSync s id d n fuel v room =
      let done =
        rebuild_loop-Runs w s id 1000 fuel [] (rows_of w s id) empty d 0 (omega arith) refl tt
          v.ascends v.replays room in
      (
        log w (store_rebuilt w s id d) snapshot_regenerated,
        rw (done, process_snapshot),
        record {
          content = w.contents.find-upsert s.contents id id (pack w d) ∙ rw (eq_refl id);
          version = v.version;
          ascends = v.ascends;
          bounded = v.bounded;
          replays = v.replays;
        },
      )

  -- The collections that `InSync` reads are the same.
  abbrev pub SameTables : State w → State w → Type 0
  SameTables s t = (s.contents ≡ t.contents) × (s.versions ≡ t.versions) × (s.updates ≡ t.updates)

  SameTables-InSync :
      (s t : State w) (id : String) (d : YDoc) (n : ℕ)
      → SameTables s t
      → InSync s id d n
      → InSync t id d n
  SameTables-InSync s t id d n (c, v, u) h = record {
    content = ap (λ x. w.contents.find x id) (sym c) ∙ h.content;
    version = ap (λ x. w.versions.find x id) (sym v) ∙ h.version;
    ascends =
        subst (λ x. Ascends (seq_of w) 0 (filter (λ r. r.document_id === id) (w.updates.rows x))) u
          h.ascends;
    bounded =
        subst (λ x. last_seq w 0 (filter (λ r. r.document_id === id) (w.updates.rows x)) ≤ n) u
          h.bounded;
    replays =
        subst (λ x. Runs w empty (filter (λ r. r.document_id === id) (w.updates.rows x)) d) u
          h.replays;
  }

  pub note_size-SameTables :
      (s : State w) (now : ℕ) (id : String) (k : ℕ) → SameTables s (note_size w s now id k)
  unfolding note_size
  note_size-SameTables s now id k = ground arith

  pub publish-SameTables :
      (s : State w) (now : ℕ) (id : String) (d : YDoc) (u : Bytes)
      → SameTables s (publish w s now id d u)
  unfolding publish
  publish-SameTables s now id d u = ground arith

  pub take_snapshot-SameTables :
      (s : State w) (id : String) (n : ℕ) (d : YDoc) → SameTables s (take_snapshot w s id n d)
  take_snapshot-SameTables s id n d = ground arith

  -- The log with one row more.
  rows_of-create :
      (s : State w) (id : String) (n : ℕ) (b : Bytes)
      → rows_of w (insert w s id n b) id
        ≡ rows_of w s id ++ record { document_id = id; seq = n; update = gzip b } ∷ []
  rows_of-create s id n b =
      ap (filter (λ r. r.document_id === id)) (w.updates.rows-create s.updates _)
      ∙ filter-append (λ r. r.document_id === id) (w.updates.rows s.updates) _
      ∙ rw (eq_refl id)

  inc_version-some :
      (s : State w) (id : String) (n : ℕ)
      → w.versions.find s.versions id ≡ some n
      → inc_version w s id
        ≡ (record s { versions = w.versions.upsert s.versions id (n + 1) }, n + 1)
  inc_version-some s id n e = rw (e, inc_version)

  -- What a transaction that is not aborted writes.
  unfoldable pub written : State w → String → YDoc → Bytes → State w × ℕ
  written s id d u =
      let (s', seq) = inc_version w s id in
      (take_snapshot w (upsert_state w (insert w s' id seq u) id d) id seq d, seq)

  -- What is left once it is committed.
  unfoldable pub settled : State w → ℕ → String → String → YDoc → Bytes → State w
  settled s now id token d u =
      let (s', seq) = written s id d u in
      publish w (release_lock w (compact w s' id seq) now id token) now id d u

  transact_taken :
      (s : State w) (id : String) (d : YDoc) (u : Bytes)
      → is_taken w (inc_version w s id).0 id (inc_version w s id).1 ≡ true
      → transact w s id d u ≡ none
  unfolding transact
  transact_taken s id d u h = rw (h, transact)

  transact_free :
      (s : State w) (id : String) (d : YDoc) (u : Bytes)
      → is_taken w (inc_version w s id).0 id (inc_version w s id).1 ≡ false
      → transact w s id d u ≡ some (written s id d u)
  unfolding transact written
  transact_free s id d u h = rw (h, transact)

  pub locked_taken :
      (s : State w) (now : ℕ) (id token : String) (d : YDoc) (u : Bytes)
      → is_taken w (inc_version w s id).0 id (inc_version w s id).1 ≡ true
      → locked w s now id token d u ≡ (release_lock w s now id token, err duplicate_update)
  unfolding locked
  locked_taken s now id token d u h =
      ap (after_transact w s now id token d u) (transact_taken s id d u h)

  pub locked_free :
      (s : State w) (now : ℕ) (id token : String) (d : YDoc) (u : Bytes)
      → is_taken w (inc_version w s id).0 id (inc_version w s id).1 ≡ false
      → locked w s now id token d u ≡ (settled s now id token d u, ok tt)
  unfolding locked settled
  locked_free s now id token d u h =
      ap (after_transact w s now id token d u) (transact_free s id d u h)

  locked-ok :
      (s s' : State w) (now : ℕ) (id token : String) (d : YDoc) (u : Bytes)
      → locked w s now id token d u ≡ (s', ok tt)
      → s' ≡ settled s now id token d u
  locked-ok s s' now id token d u e =
      elim (Bool-cases (is_taken w (inc_version w s id).0 id (inc_version w s id).1)) [
        | inl h ↦ absurd (err-ne-ok (sym (locked_taken s now id token d u h) ∙ e))
        | inr h ↦ sym (ap (λ p. p.0) (sym (locked_free s now id token d u h) ∙ e))
      ]

  -- The rows that the transaction writes, before a snapshot is taken.
  stored-InSync :
      (s : State w) (id : String) (d d' : YDoc) (n : ℕ) (u : Bytes)
      → InSync s id d n
      → apply d u ≡ some d'
      → InSync
          (upsert_state w
            (insert w
              (record s { versions = w.versions.upsert s.versions id (n + 1) })
              id
              (n + 1)
              u)
            id
            d')
          id
          d'
          (n + 1)
  stored-InSync s id d d' n u h a =
      let s' : State w = record s { versions = w.versions.upsert s.versions id (n + 1) } in
      let r : LogRow Bytes = record { document_id = id; seq = n + 1; update = gzip u } in
      let same : rows_of w (insert w s' id (n + 1) u) id ≡ rows_of w s id ++ r ∷ [] =
        rows_of-create s' id (n + 1) u in
      let (up, end) = Ascends-append w 0 n (rows_of w s id) r h.ascends h.bounded (omega arith) in
      record {
        content = w.contents.find-upsert s.contents id id (pack w d') ∙ rw (eq_refl id);
        version = w.versions.find-upsert s.versions id id (n + 1) ∙ rw (eq_refl id);
        ascends = subst (λ x. Ascends (seq_of w) 0 x) (sym same) up;
        bounded = subst (λ x. last_seq w 0 x ≤ n + 1) (sym same) (omega (arith, end));
        replays =
            subst (λ x. Runs w empty x d') (sym same)
              (Runs-append w empty d d' (rows_of w s id) r u h.replays (gunzip-gzip u) a);
      }

  written-InSync :
      (s : State w) (id : String) (d d' : YDoc) (n : ℕ) (u : Bytes)
      → InSync s id d n
      → apply d u ≡ some d'
      → InSync (written s id d' u).0 id d' (n + 1) × ((written s id d' u).1 ≡ n + 1)
  unfolding written
  written-InSync s id d d' n u h a = rw (inc_version-some s id n h.version) (
    SameTables-InSync _ _ id d' (n + 1) (take_snapshot-SameTables _ id (n + 1) d')
        (stored-InSync s id d d' n u h a),
    refl,
  )

  compact-le : (s : State w) (id : String) (n : ℕ) → n ≤ config.update_keep → compact w s id n ≡ s
  unfolding compact
  compact-le s id n h = rw (ltb-false config.update_keep n h)

  settled-InSync :
      (s : State w) (now : ℕ) (id token : String) (d d' : YDoc) (n : ℕ) (u : Bytes)
      → InSync s id d n
      → apply d u ≡ some d'
      → n < config.update_keep
      → InSync (settled s now id token d' u) id d' (n + 1)
  unfolding settled
  settled-InSync s now id token d d' n u h a keep =
      let (stored, seq) = written-InSync s id d d' n u h a in
      let t : State w = (written s id d' u).0 in
      rw (compact-le t id (written s id d' u).1 (omega (arith, seq)))
        (SameTables-InSync t _ id d' (n + 1) (publish-SameTables _ now id d' u) stored)

  pub load-content :
      (s : State w) (id : String) (d : YDoc)
      → w.contents.find s.contents id ≡ some (pack w d)
      → load w (w.contents.find s.contents id) ≡ d
  load-content s id d h = ap (load w) h ∙ load-pack d

  pub prepare-none :
      (s : State w) (now : ℕ) (id update_b64 : String) (d : YDoc)
      → load w (w.contents.find s.contents id) ≡ d
      → apply d (decode w (from_base64 update_b64)) ≡ none
      → prepare w s now id update_b64 ≡ (s, err invalid_update)
  unfolding prepare
  prepare-none s now id update_b64 d l a = rw (l, a, prepare)

  pub prepare-some :
      (s : State w) (now : ℕ) (id update_b64 : String) (d d' : YDoc)
      → load w (w.contents.find s.contents id) ≡ d
      → apply d (decode w (from_base64 update_b64)) ≡ some d'
      → prepare w s now id update_b64 ≡ (
        note_size w s now id (byte_length (encode d')),
        ok (d', decode w (from_base64 update_b64)),
      )
  unfolding prepare
  prepare-some s now id update_b64 d d' l a = rw (l, a, prepare)

  -- `applyYUpdate` on a stored document, by whether the update applies to it.
  pub apply_none :
      (s : State w) (now : ℕ) (id token update_b64 : String) (d : YDoc)
      → load w (w.contents.find s.contents id) ≡ d
      → apply d (decode w (from_base64 update_b64)) ≡ none
      → apply_y_update w s now id token update_b64 ≡ (s, err invalid_update)
  unfolding apply_y_update
  apply_none s now id token update_b64 d l a =
      ap (after_prepare w now id token) (prepare-none s now id update_b64 d l a)

  pub apply_some :
      (s : State w) (now : ℕ) (id token update_b64 : String) (d d' : YDoc)
      → load w (w.contents.find s.contents id) ≡ d
      → apply d (decode w (from_base64 update_b64)) ≡ some d'
      → apply_y_update w s now id token update_b64
        ≡ commit w
            (note_size w s now id (byte_length (encode d')))
            now
            id
            token
            d'
            (decode w (from_base64 update_b64))
  unfolding apply_y_update
  apply_some s now id token update_b64 d d' l a =
      ap (after_prepare w now id token) (prepare-some s now id update_b64 d d' l a)

  pub commit-ok :
      (s s' : State w) (now : ℕ) (id token : String) (d : YDoc) (u : Bytes)
      → commit w s now id token d u ≡ (s', ok tt)
      → (t : String) × (locks : w.locks.Store) × (s'
          ≡ settled (record s { locks = locks }) now id t d u)
  unfolding commit
  commit-ok s s' now id token d u e =
      elim (Option-cases (Lock.acquire w.locks s.locks now (lock_key w id) token 5000).1) [
        | inl g ↦ absurd (ground arith)
        | inr (t, g) ↦ (
          t,
          (Lock.acquire w.locks s.locks now (lock_key w id) token 5000).0,
          locked-ok
              (record s { locks = (Lock.acquire w.locks s.locks now (lock_key w id) token 5000).0 })
              s' now id t d u (rw (g, commit) at e),
        )
      ]

  -- An update that is written keeps the stored content equal to the replay of the log, one update
  -- and one version further, as long as the log is not yet longer than the compaction keeps.
  pub apply_y_update-InSync :
      (s s' : State w) (now : ℕ) (id token update_b64 : String) (d : YDoc) (n : ℕ)
      → InSync s id d n
      → n < config.update_keep
      → apply_y_update w s now id token update_b64 ≡ (s', ok tt)
      → (d' : YDoc) × (apply d (decode w (from_base64 update_b64)) ≡ some d')
        × InSync s' id d' (n + 1)
  apply_y_update-InSync s s' now id token update_b64 d n h keep e =
      let loaded = load-content s id d h.content in
      elim (Option-cases (apply d (decode w (from_base64 update_b64)))) [
        | inl a ↦ absurd (err-ne-ok (sym (apply_none s now id token update_b64 d loaded a) ∙ e))
        | inr (d', a) ↦
            let (t, locks, same) =
              commit-ok (note_size w s now id (byte_length (encode d'))) s' now id token d'
                (decode w (from_base64 update_b64))
                (sym (apply_some s now id token update_b64 d d' loaded a) ∙ e) in
            (
              d',
              a,
              subst (λ x. InSync x id d' (n + 1)) (sym same)
                  (settled-InSync _ now id t d d' n _
                    (SameTables-InSync s _ id d n (note_size-SameTables s now id _) h) a keep),
            )
      ]
