-- ===== src/Documents/Library/Fresh.antt =====
-- The cached list of a workspace is its present list.
use text.Mathlib.TextLemmas.{append_cancel_left}
use realtime_collaborative_e.Base.{
  ℕ, ◌+◌, ◌≤◌, String, ◌≡◌, refl, sym, ap, ◌∙◌, inl, inr, Bool, true, false, none, some, List, [],
  ◌∷◌, filter, ltb, ◌===◌, if◌then◌else◌, arith, eq_iff, Bool-cases, Option-cases,
}
use realtime_collaborative_e.Base.Map
use realtime_collaborative_e.Base.Map.{Map}
use realtime_collaborative_e.Redis.{KeyStore}
use realtime_collaborative_e.Documents.Library.{
  Record, CreateInput, UpdateInput, Query, Outside, Library, list_key, values, in_workspace,
  sort_latest, current, is_full, new_record, put, create, list, updated, change, update,
  soft_delete, deleted, truthy,
}

-- A record of another workspace, new or in the place of one, changes no list of this workspace.
other_workspace :
    (docs : Map Record) (ws id : String) (d : Record)
    → (d.workspace_id === ws) ≡ false
    → ((old : Record) → Map.get docs id ≡ some old → (old.workspace_id === ws) ≡ false)
    → filter (in_workspace ws) (values (Map.set docs id d)) ≡ filter (in_workspace ws) (values docs)
unfolding Map.get Map.set
other_workspace [] ws id d h k = rw h
other_workspace ((j, w) ∷ docs) ws id d h k = elim (Bool-cases (j === id)) [
  | inl here ↦ rw here (rw (h, k w (rw here)))
  | inr there ↦
      rw there (ground (arith, other_workspace docs ws id d h (λ old e. k old (rw there e))))
]

cached_now : {A : Type 0} (m l : A) (b : Bool) → (if b then some m else none) ≡ some l → l ≡ m
cached_now m l true e = cc (e)
cached_now m l false e = absurd (cc (e))

module _ (lists : KeyStore (List Record)) (o : Outside) where
  -- From `now` on a cached list is the present one.
  abbrev pub IsFresh : Library lists → ℕ → Type 0
  IsFresh s now =
      (at : ℕ) (ws : String) (l : List Record)
      → now ≤ at
      → lists.get s.cache at (list_key ws) ≡ some l
      → l ≡ current s.docs ws

  dropped :
      (c : lists.Store) (at : ℕ) (k j : String)
      → (k === j) ≡ true
      → lists.get (lists.del c k) at j ≡ none
  dropped c at k j h = lists.get-del c at k j ∙ ap (λ b. if b then none else lists.get c at j) h

  left :
      (c : lists.Store) (at : ℕ) (k j : String)
      → (k === j) ≡ false
      → lists.get (lists.del c k) at j ≡ lists.get c at j
  left c at k j h = lists.get-del c at k j ∙ ap (λ b. if b then none else lists.get c at j) h

  put-IsFresh :
      (s : Library lists) (now : ℕ) (d : Record)
      → ((old : Record) → Map.get s.docs d.id ≡ some old → old.workspace_id ≡ d.workspace_id)
      → IsFresh s now
      → IsFresh (put lists o s d) now
  unfolding current
  put-IsFresh s now d same h at ws l lo e =
      let key = list_key d.workspace_id in
      elim (Bool-cases (d.workspace_id === ws)) [
        | inl here ↦
            let same_key =
              (eq_iff key (list_key ws)).1 (ap list_key ((eq_iff d.workspace_id ws).0 here)) in
            absurd (cc (e, dropped s.cache at key (list_key ws) same_key))
        | inr there ↦ elim (Bool-cases (key === list_key ws)) [
          | inl same_key ↦ absurd (cc (e, dropped s.cache at key (list_key ws) same_key))
          | inr other_key ↦
              h at ws l lo (sym (left s.cache at key (list_key ws) other_key) ∙ e)
              ∙ ap sort_latest
                  (sym (other_workspace s.docs ws d.id d there (λ old g. rw (same old g) there)))
        ]
      ]

  change-IsFresh :
      (s : Library lists) (now : ℕ) (id : String) (f : Record → Record)
      → IsFresh s now
      → IsFresh (change lists o s id f).0 now
  change-IsFresh s now id f h = elim (Option-cases (Map.get s.docs id)) [
    | inl missing ↦ rw (missing, change) h
    | inr (d, found) ↦
        rw (found, change)
          (put-IsFresh s now (record (f d) { id = id; workspace_id = d.workspace_id })
            (λ old g. cc (found, g)) h)
  ]

  create-IsFresh :
      (s : Library lists) (now : ℕ) (id : String) (input : CreateInput)
      → Map.get s.docs id ≡ none
      → IsFresh s now
      → IsFresh (create lists o s now id input).0 now
  create-IsFresh s now id input drawn h =
      elim (Bool-cases (is_full lists o s.docs input.workspace_id)) [
        | inl full ↦ rw (full, create) h
        | inr space ↦
            rw (space, create)
              (put-IsFresh s now (new_record lists o now id input) (λ old g. absurd (cc (drawn, g)))
                h)
      ]

  set-IsFresh :
      (s : Library lists) (now : ℕ) (ws : String)
      → IsFresh s now
      → IsFresh
          (record s { cache = lists.set_ex s.cache now (list_key ws) (current s.docs ws) 30000 })
          now
  set-IsFresh s now ws h at ws' l lo e =
      let set =
        lists.get-set_ex s.cache now at (list_key ws) (list_key ws') (current s.docs ws) 30000 lo in
      elim (Bool-cases (list_key ws === list_key ws')) [
        | inl same_key ↦
            let same =
              append_cancel_left "docs:ws:" ws ws'
                ((eq_iff (list_key ws) (list_key ws')).0 same_key) in
            cached_now (current s.docs ws) l (ltb at (now + 30000)) (rw same_key at (sym set ∙ e))
            ∙ ap (current s.docs) same
        | inr other_key ↦ h at ws' l lo (rw other_key at (sym set ∙ e))
      ]

  -- What a listing without a query leaves behind and answers.
  list-IsFresh :
      (s : Library lists) (now : ℕ) (ws : String) (query : Query)
      → IsFresh s now
      → IsFresh (list lists o s now ws query).0 now
  list-IsFresh s now ws query h = elim (Bool-cases (truthy query.q)) [
    | inl q ↦ rw (q, list) h
    | inr no_q ↦ elim (Bool-cases (truthy query.tag)) [
      | inl t ↦ rw (no_q, list) (rw t h)
      | inr no_t ↦ elim (Option-cases (lists.get s.cache now (list_key ws))) [
        | inl missing ↦ rw (no_q, list) (rw no_t (rw missing (set-IsFresh s now ws h)))
        | inr (l, found) ↦ rw (no_q, list) (rw no_t (rw found h))
      ]
    ]
  ]

  list-current :
      (s : Library lists) (now : ℕ) (ws : String) (query : Query)
      → truthy query.q ≡ false
      → truthy query.tag ≡ false
      → IsFresh s now
      → (list lists o s now ws query).1 ≡ current s.docs ws
  list-current s now ws query q t h = elim (Option-cases (lists.get s.cache now (list_key ws))) [
    | inl missing ↦ rw (q, list) (rw t (rw missing refl))
    | inr (l, found) ↦ rw (q, list) (rw t (rw found (h now ws l (omega arith) found)))
  ]

  -- What users do with the documents.
  pub data Call : Type 0 where
    creates : ℕ → String → CreateInput → Call
    lists_all : ℕ → String → Query → Call
    updates : ℕ → String → UpdateInput → Call
    deletes : ℕ → String → Call

  abbrev pub step : Library lists → Call → Library lists
  step s (creates now id input) = (create lists o s now id input).0
  step s (lists_all now ws query) = (list lists o s now ws query).0
  step s (updates now id input) = (update lists o s now id input).0
  step s (deletes now id) = (soft_delete lists o s now id).0

  abbrev pub run : Library lists → List Call → Library lists
  run s [] = s
  run s (c ∷ calls) = run (step s c) calls

  -- The calls come at times that ascend from `now`, and an identifier that is drawn is new.
  abbrev pub Allowed : Library lists → ℕ → List Call → ℕ → Type 0
  Allowed s now [] end = now ≤ end
  Allowed s now (creates at id input ∷ calls) end =
      (now ≤ at) × (Map.get s.docs id ≡ none) × Allowed (step s (creates at id input)) at calls end
  Allowed s now (lists_all at ws query ∷ calls) end =
      (now ≤ at) × Allowed (step s (lists_all at ws query)) at calls end
  Allowed s now (updates at id input ∷ calls) end =
      (now ≤ at) × Allowed (step s (updates at id input)) at calls end
  Allowed s now (deletes at id ∷ calls) end =
      (now ≤ at) × Allowed (step s (deletes at id)) at calls end

  later : (s : Library lists) (now at : ℕ) → now ≤ at → IsFresh s now → IsFresh s at
  later s now at h fresh t ws l lo e = fresh t ws l (omega (arith, h, lo)) e

  run-IsFresh :
      (calls : List Call) (s : Library lists) (now end : ℕ)
      → Allowed s now calls end
      → IsFresh s now
      → IsFresh (run s calls) end
  run-IsFresh [] s now end h fresh = later s now end h fresh
  run-IsFresh (creates at id input ∷ calls) s now end (lo, drawn, h) fresh =
      run-IsFresh calls _ at end h (create-IsFresh s at id input drawn (later s now at lo fresh))
  run-IsFresh (lists_all at ws query ∷ calls) s now end (lo, h) fresh =
      run-IsFresh calls _ at end h (list-IsFresh s at ws query (later s now at lo fresh))
  run-IsFresh (updates at id input ∷ calls) s now end (lo, h) fresh =
      run-IsFresh calls _ at end h
        (change-IsFresh s at id (updated lists o at input) (later s now at lo fresh))
  run-IsFresh (deletes at id ∷ calls) s now end (lo, h) fresh =
      run-IsFresh calls _ at end h
        (change-IsFresh s at id (deleted lists o at) (later s now at lo fresh))

  -- Whatever documents are created, listed, updated and deleted, one after the other, if no list was
  -- cached at first then a listing without a query answers the present documents of its workspace,
  -- whether a cache still holds them or not.
  pub run-current :
      (calls : List Call) (s : Library lists) (now end : ℕ) (ws : String) (query : Query)
      → Allowed s now calls end
      → ((at : ℕ) (w : String) → lists.get s.cache at (list_key w) ≡ none)
      → truthy query.q ≡ false
      → truthy query.tag ≡ false
      → (list lists o (run s calls) end ws query).1 ≡ current (run s calls).docs ws
  run-current calls s now end ws query h empty q t =
      list-current (run s calls) end ws query q t
        (run-IsFresh calls s now end h (λ at w l lo e. absurd (cc (empty at w, e))))
