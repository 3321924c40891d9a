-- ===== src/Documents/Written.antt =====
-- What a successful write leaves behind.
use realtime_collaborative_e.Base.{
  ℕ, ◌≤◌, String, ◌≡◌, refl, sym, ap, subst, ◌∙◌, false, some, arith, eq_refl, Option-cases, inl,
  inr, ok, ◌*◌,
}
use realtime_collaborative_e.Base.Map
use realtime_collaborative_e.Cache
use realtime_collaborative_e.Cache.{Entry}
use realtime_collaborative_e.Cache.Lookup.{set-Within, get-some}
use realtime_collaborative_e.Documents.{
  World, State, YState, load, decode, pack, y_state, state_key, cache_state,
}
use realtime_collaborative_e.Documents.Apply.{compact, publish, commit, apply_y_update, note_size}
use realtime_collaborative_e.Documents.Read.{get_y_state, read_redis, read_content}
use realtime_collaborative_e.Documents.Rebuild.{validate_and_repair, raw_of}
use realtime_collaborative_e.Documents.Sync.{
  written, settled, commit-ok, publish-SameTables, take_snapshot-SameTables, apply_some, apply_none,
  err-ne-ok,
}

module _ (w : World) where
  open w use {yjs, config}
  open yjs use {
    Bytes, YDoc, empty, apply, encode, gunzip, gzip, apply-encode, gunzip-gzip, sha256, from_base64,
    to_base64, byte_length,
  }

  -- The content row that stands for the document `d`.
  abbrev pub Stored : State w → String → YDoc → Type 0
  Stored s id d = w.contents.find s.contents id ≡ some (pack w d)

  -- Both caches hold the state of `d` or nothing, from `now` on.
  pub record Coherent (s : State w) (id : String) (d : YDoc) (now : ℕ) : Type 0 where
    pub in_memory :
        (e : Entry YState)
        → Map.get s.memory.store (state_key w id) ≡ some e
        → e.value ≡ y_state w d
    pub in_redis :
        (at : ℕ) (v : YState)
        → now ≤ at
        → w.states.get s.states at (state_key w id) ≡ some v
        → v ≡ y_state w d

  written-Stored :
      (s : State w) (id : String) (d : YDoc) (u : Bytes) → Stored (written w s id d u).0 id d
  unfolding written
  written-Stored s id d u =
      ap (λ x. w.contents.find x id) (sym (take_snapshot-SameTables w _ id _ d).0)
      ∙ w.contents.find-upsert _ id id (pack w d)
      ∙ rw (eq_refl id)

  compact-contents : (s : State w) (id : String) (n : ℕ) → (compact w s id n).contents ≡ s.contents
  unfolding compact
  compact-contents s id n = ground arith

  settled-Stored :
      (s : State w) (now : ℕ) (id token : String) (d : YDoc) (u : Bytes)
      → Stored (settled w s now id token d u) id d
  unfolding settled
  settled-Stored s now id token d u =
      ap (λ x. w.contents.find x id)
        (sym (publish-SameTables w _ now id d u).0
          ∙ compact-contents (written w s id d u).0 id (written w s id d u).1)
      ∙ written-Stored s id d u

  pub commit-Stored :
      (s s' : State w) (now : ℕ) (id token : String) (d : YDoc) (u : Bytes)
      → commit w s now id token d u ≡ (s', ok tt)
      → Stored s' id d
  commit-Stored s s' now id token d u e =
      let (t, locks, same) = commit-ok w s s' now id token d u e in
      subst (λ x. Stored x id d) (sym same) (settled-Stored _ now id t d u)

  cache_state-Coherent :
      (s : State w) (now : ℕ) (id : String) (d : YDoc)
      → Coherent (cache_state w s now id (y_state w d)) id d now
  cache_state-Coherent s now id d = record {
    in_memory = λ e p. ground (
      arith,
      set-Within s.memory (Map.get s.memory.store) now (state_key w id) (y_state w d) config.mem_ttl
          (λ k x q. q) (state_key w id) e p,
      eq_refl (state_key w id),
    );
    in_redis = λ at v h p. ground (
      arith,
      w.states.get-set_ex s.states now at (state_key w id) (state_key w id) (y_state w d)
          (config.redis_ttl * 1000) h,
      eq_refl (state_key w id),
    );
  }

  commit-Coherent :
      (s s' : State w) (now : ℕ) (id token : String) (d : YDoc) (u : Bytes)
      → commit w s now id token d u ≡ (s', ok tt)
      → Coherent s' id d now
  unfolding settled publish
  commit-Coherent s s' now id token d u e =
      let (t, locks, same) = commit-ok w s s' now id token d u e in
      subst (λ x. Coherent x id d now) (sym same) (cache_state-Coherent _ now id d)

  apply_y_update-commit :
      (s s' : State w) (now : ℕ) (id token update_b64 : String)
      → apply_y_update w s now id token update_b64 ≡ (s', ok tt)
      → (d' : YDoc) × (apply
            (load w (w.contents.find s.contents id))
            (decode w (from_base64 update_b64))
          ≡ some d')
        × (commit w
              (note_size w s now id (byte_length (encode d')))
              now
              id
              token
              d'
              (decode w (from_base64 update_b64))
            ≡ (s', ok tt))
  apply_y_update-commit s s' now id token update_b64 e =
      let d = load w (w.contents.find s.contents id) in
      elim (Option-cases (apply d (decode w (from_base64 update_b64)))) [
        | inl a ↦ absurd (err-ne-ok (sym (apply_none w s now id token update_b64 d refl a) ∙ e))
        | inr (d', a) ↦ (d', a, sym (apply_some w s now id token update_b64 d d' refl a) ∙ e)
      ]

  read_redis-Coherent :
      (s : State w) (at : ℕ) (id : String) (d : YDoc)
      → Stored s id d
      → ((v : YState) → w.states.get s.states at (state_key w id) ≡ some v → v ≡ y_state w d)
      → (read_redis w s at id (w.states.get s.states at (state_key w id))).1 ≡ ok (y_state w d)
  unfolding read_redis read_content
  read_redis-Coherent s at id d c h =
      elim (Option-cases (w.states.get s.states at (state_key w id))) [
        | inr (out, e) ↦ rw e (ap ok (h out e))
        | inl e ↦ rw (e, c, read_redis, read_content, gunzip-gzip (encode d))
      ]

  pub get_y_state-Coherent :
      (s : State w) (now at : ℕ) (id : String) (d : YDoc)
      → Stored s id d
      → Coherent s id d now
      → now ≤ at
      → (get_y_state w s at id).1 ≡ ok (y_state w d)
  unfolding get_y_state
  get_y_state-Coherent s now at id d c h a =
      elim (Option-cases (Cache.get s.memory at (state_key w id)).1) [
        | inl g ↦
            rw (g, get_y_state)
              (read_redis-Coherent
                (record s { memory = (Cache.get s.memory at (state_key w id)).0 }) at id d c
                (λ v e. h.in_redis at v a e))
        | inr (out, g) ↦
            let (e, found, v, live) = get-some s.memory at (state_key w id) out g in
            rw (g, get_y_state) (ap ok (sym v ∙ h.in_memory e found))
      ]

  raw_of-pack : (d : YDoc) → raw_of w (pack w d) ≡ encode d
  raw_of-pack d = rw (gunzip-gzip (encode d), raw_of)

  -- After an update has been written, a reader gets the state of the document with the update
  -- applied, at whatever later time, whether a cache still holds it or not; and the content passes
  -- its integrity check, so that a repair leaves it alone.
  pub apply_y_update-get_y_state :
      (s s' : State w) (now at fuel : ℕ) (id token update_b64 : String)
      → apply_y_update w s now id token update_b64 ≡ (s', ok tt)
      → now ≤ at
      → (d' : YDoc) × (apply
            (load w (w.contents.find s.contents id))
            (decode w (from_base64 update_b64))
          ≡ some d')
        × ((get_y_state w s' at id).1 ≡ ok (y_state w d'))
        × (validate_and_repair w fuel s' at id ≡ some (s', false))
  unfolding validate_and_repair
  apply_y_update-get_y_state s s' now at fuel id token update_b64 e later =
      let (d', a, c) = apply_y_update-commit s s' now id token update_b64 e in
      let stored = commit-Stored _ s' now id token d' _ c in
      (
        d',
        a,
        get_y_state-Coherent s' now at id d' stored (commit-Coherent _ s' now id token d' _ c)
            later,
        rw (
          stored,
          validate_and_repair,
          raw_of-pack d',
          yjs.sha256-ne-empty (encode d'),
          eq_refl (sha256 (encode d')),
        ),
      )
