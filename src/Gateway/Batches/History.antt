-- ===== src/Gateway/Batches/History.antt =====
-- Histories of the batches of an instance: what becomes of every update, and in which order.
use realtime_collaborative_e.Base.{
  ℕ, ◌-◌, ltb, String, ◌≡◌, refl, sym, ◌∙◌, ap, inl, inr, Bool, true, false, none, some, List, [],
  ◌∷◌, ◌++◌, ◌===◌, if◌then◌else◌, arith, eq_iff, Option-cases, Bool-cases,
}
use mathlib.Core.List.{append_assoc, append-nil}
use realtime_collaborative_e.Base.Map
use realtime_collaborative_e.Base.Map.{Map}
use realtime_collaborative_e.Gateway.Batches.{
  Batch, entry_of, enqueue_update, prune_idle, take_updates, deliver_batch, flush_doc, pending,
  IsArmed,
}

pub data Call (Bytes : Type 0) : Type 0 where
  enqueues : (now : ℕ) (id : String) → Bytes → Call Bytes
  flushes : (id : String) → Call Bytes
  prunes : (now : ℕ) → Call Bytes

-- What became of an update: its batch was delivered, its delivery failed, or its batch was pruned.
pub data Fate : Type 0 where
  delivered failed pruned : Fate

-- What became of the updates of each document, in order.
abbrev pub Ledger : Type 0 → Type 0
Ledger Bytes = String → List (Bytes × Fate)

module _ {Bytes : Type 0} where
  enqueue-pending :
      (batches : Map (Batch Bytes)) (now : ℕ) (id j : String) (u : Bytes)
      → pending (enqueue_update batches now id u) j
        ≡ (if id === j then pending batches j ++ u ∷ [] else pending batches j)
  unfolding enqueue_update
  enqueue-pending batches now id j u = ground (
    arith,
    Map.get-set batches id j (record {
      updates = (entry_of (Map.get batches id) now).updates ++ u ∷ [];
      timer = true;
      last = now;
    }),
    eq_iff id j,
  )

  enqueue-IsArmed :
      (batches : Map (Batch Bytes)) (now : ℕ) (id : String) (u : Bytes)
      → IsArmed batches
      → IsArmed (enqueue_update batches now id u)
  unfolding enqueue_update
  enqueue-IsArmed batches now id u h j b e n = elim (Bool-cases (id === j)) [
    | inl same ↦ ground (arith, rw (Map.get-set batches id j, same) at e)
    | inr other ↦ h j b (rw (Map.get-set batches id j, other) at e) n
  ]

  take-IsArmed :
      (batches : Map (Batch Bytes)) (id : String)
      → IsArmed batches
      → IsArmed (take_updates batches id).0
  take-IsArmed batches id h = elim (Option-cases (Map.get batches id)) [
    | inl e ↦ rw (e, take_updates) h
    | inr (c, e) ↦
        rw (e, take_updates)
          λ j b p n.
            ground
              (arith, h j b, Map.get-set batches id j (record c { updates = []; timer = false }))
  ]

  pub take-pending :
      (batches : Map (Batch Bytes)) (id j : String)
      → ((take_updates batches id).1 ≡ pending batches id)
        × (pending (take_updates batches id).0 j ≡ (if id === j then [] else pending batches j))
  take-pending batches id j = elim (Option-cases (Map.get batches id)) [
    | inl e ↦ (ground arith, ground (arith, eq_iff id j))
    | inr (c, e) ↦ (
      ground arith,
      ground
          (arith, Map.get-set batches id j (record c { updates = []; timer = false }), eq_iff id j),
    )
  ]

  -- Each key stands once.
  abbrev Unique : Map (Batch Bytes) → Type 0
  Unique [] = Unit {0}
  Unique ((k, b) ∷ m) = (Map.get m k ≡ none) × Unique m

  get-set-none :
      (m : Map (Batch Bytes)) (k j : String) (b : Batch Bytes)
      → (k === j) ≡ false
      → Map.get m j ≡ none
      → Map.get (Map.set m k b) j ≡ none
  get-set-none m k j b n e = rw (Map.get-set m k j b, n) e

  set-Unique :
      (m : Map (Batch Bytes)) (k : String) (b : Batch Bytes) → Unique m → Unique (Map.set m k b)
  unfolding Map.get Map.set
  set-Unique [] k b h = (refl, tt)
  set-Unique ((j, c) ∷ m) k b (new, h) = elim (Bool-cases (j === k)) [
    | inl same ↦ rw same (new, h)
    | inr other ↦
        let apart : (k === j) ≡ false = ground (arith, eq_iff j k, eq_iff k j) in
        rw other (get-set-none m k j b apart new, set-Unique m k b h)
  ]

  take-Unique : (m : Map (Batch Bytes)) (id : String) → Unique m → Unique (take_updates m id).0
  take-Unique m id h = elim (Option-cases (Map.get m id)) [
    | inl e ↦ rw (e, take_updates) h
    | inr (c, e) ↦ rw (e, take_updates) (set-Unique m id _ h)
  ]

  get-prune :
      (m : Map (Batch Bytes)) (idle now : ℕ) (j : String)
      → Unique m
      → Map.get (prune_idle idle m now) j ≡ (elim (Map.get m j) [
        | none ↦ none
        | some b ↦ if ltb idle (now - b.last) then none else some b
      ])
  unfolding Map.get
  get-prune [] idle now j h = refl
  get-prune ((k, b) ∷ m) idle now j (new, h) = ground (arith, eq_iff k j, get-prune m idle now j h)

  prune-Unique : (m : Map (Batch Bytes)) (idle now : ℕ) → Unique m → Unique (prune_idle idle m now)
  unfolding Map.get
  prune-Unique [] idle now h = tt
  prune-Unique ((k, b) ∷ m) idle now (new, h) =
      ground (arith, get-prune m idle now k h, prune-Unique m idle now h)

  prune-IsArmed :
      (m : Map (Batch Bytes)) (idle now : ℕ)
      → Unique m
      → IsArmed m
      → IsArmed (prune_idle idle m now)
  prune-IsArmed m idle now h armed j b e n = ground (arith, get-prune m idle now j h, armed j b)

  abbrev pub tagged : Fate → List Bytes → List (Bytes × Fate)
  tagged f [] = []
  tagged f (u ∷ us) = (u, f) ∷ tagged f us

  abbrev pub updates_of : List (Bytes × Fate) → List Bytes
  updates_of [] = []
  updates_of ((u, f) ∷ l) = u ∷ updates_of l

  updates_of-tagged :
      (l : List (Bytes × Fate)) (f : Fate) (us : List Bytes)
      → updates_of (l ++ tagged f us) ≡ updates_of l ++ us
  updates_of-tagged [] f [] = refl
  updates_of-tagged [] f (u ∷ us) = ap (◌∷◌ u) (updates_of-tagged [] f us)
  updates_of-tagged ((u, g) ∷ l) f us = ap (◌∷◌ u) (updates_of-tagged l f us)

  -- The documents whose batches a pruning deleted lose what waited there.
  abbrev pub dropped : Map (Batch Bytes) → Map (Batch Bytes) → String → List Bytes
  dropped batches rest j = elim (Map.get rest j) [ none ↦ pending batches j | some _ ↦ [] ]

  prune-moves :
      (m : Map (Batch Bytes)) (idle now : ℕ) (j : String) (before : List (Bytes × Fate))
      → Unique m
      → updates_of (before ++ tagged pruned (dropped m (prune_idle idle m now) j))
          ++ pending (prune_idle idle m now) j
        ≡ updates_of before ++ pending m j
  prune-moves m idle now j before h =
      let rest = prune_idle idle m now in
      let parts : dropped m rest j ++ pending rest j ≡ pending m j =
        ground (arith, get-prune m idle now j h, append-nil (pending m j)) in
      rw (updates_of-tagged before pruned (dropped m rest j)) (
        append_assoc (updates_of before) (dropped m rest j) (pending rest j)
        ∙ ap (◌++◌ (updates_of before)) parts)

  module _ {S : Type 0} (deliver : String → S → List Bytes → S × Bool) (idle : ℕ) where
    -- The delivery, with a note of what it was handed and how that went.
    abbrev pub recording : String → S × Ledger Bytes → List Bytes → (S × Ledger Bytes) × Bool
    recording id (s, l) us =
        let (s', done) = deliver id s us in
        (
          (
            s',
            λ j. if id === j then l j ++ tagged (if done then delivered else failed) us else l j,
          ),
          done,
        )

    -- The state behind the delivery, what became of the updates, and the batches.
    pub record Instance : Type 0 where
      pub state : S
      pub ledger : Ledger Bytes
      pub batches : Map (Batch Bytes)

    unfoldable pub step : Instance → Call Bytes → Instance
    step x (enqueues now id u) = record x { batches = enqueue_update x.batches now id u }
    step x (flushes id) =
        let ((s, l), batches, out) = flush_doc (recording id) (x.state, x.ledger) x.batches id in
        record { state = s; ledger = l; batches = batches }
    step x (prunes now) =
        let rest = prune_idle idle x.batches now in
        record x {
          ledger = λ j. x.ledger j ++ tagged pruned (dropped x.batches rest j);
          batches = rest;
        }

    unfoldable pub run : Instance → List (Call Bytes) → Instance
    run x [] = x
    run x (c ∷ cs) = run (step x c) cs

    -- What a history enqueues for a document, in order.
    abbrev pub enqueued : String → List (Call Bytes) → List Bytes
    enqueued j [] = []
    enqueued j (enqueues now id u ∷ cs) =
        let rest = enqueued j cs in if id === j then u ∷ rest else rest
    enqueued j (flushes id ∷ cs) = enqueued j cs
    enqueued j (prunes now ∷ cs) = enqueued j cs

    recorded :
        (id j : String) (s : S) (l : Ledger Bytes) (us : List Bytes)
        → updates_of ((deliver_batch (recording id) (s, l) us).0.1 j)
          ≡ (if id === j then updates_of (l j) ++ us else updates_of (l j))
    recorded id j s l [] = ground (arith, append-nil (updates_of (l j)))
    recorded id j s l (u ∷ us) =
        let f = if (deliver id s (u ∷ us)).1 then delivered else failed in
        ground (arith, updates_of-tagged (l j) f (u ∷ us))

    -- A flush moves what waits for its document into what has met its fate.
    flush-moves :
        (s : S) (l : Ledger Bytes) (batches : Map (Batch Bytes)) (id j : String)
        → let (x, rest, out) = flush_doc (recording id) (s, l) batches id in
          updates_of (x.1 j) ++ pending rest j ≡ updates_of (l j) ++ pending batches j
    unfolding flush_doc
    flush-moves s l batches id j =
        let (taken, left) = take-pending batches id j in
        let noted = recorded id j s l (take_updates batches id).1 in
        elim (Bool-cases (id === j)) [
          | inr other ↦ rw (noted, other) (ap (◌++◌ (updates_of (l j))) (left ∙ rw other))
          | inl same ↦
              rw (noted, same)
                (ap (◌++◌ (updates_of (l j) ++ (take_updates batches id).1)) (left ∙ rw same)
                  ∙ append-nil _
                  ∙ ap (◌++◌ (updates_of (l j)))
                      (taken ∙ ap (pending batches) ((eq_iff id j).0 same)))
        ]

    run-moves :
        (cs : List (Call Bytes)) (x : Instance) (j : String)
        → Unique x.batches
        → updates_of ((run x cs).ledger j) ++ pending (run x cs).batches j
          ≡ (updates_of (x.ledger j) ++ pending x.batches j) ++ enqueued j cs
    unfolding run step enqueue_update flush_doc
    run-moves [] x j h = sym (append-nil _)
    run-moves (enqueues now id u ∷ cs) x j h =
        let next = run-moves cs (step x (enqueues now id u)) j (set-Unique x.batches id _ h) in
        elim (Bool-cases (id === j)) [
          | inr other ↦ next ∙ rw (enqueue-pending x.batches now id j u, other)
          | inl same ↦ next ∙ rw (enqueue-pending x.batches now id j u, same) (simp append_assoc)
        ]
    run-moves (flushes id ∷ cs) x j h =
        run-moves cs (step x (flushes id)) j (take-Unique x.batches id h)
        ∙ ap (λ l. l ++ enqueued j cs) (flush-moves x.state x.ledger x.batches id j)
    run-moves (prunes now ∷ cs) x j h =
        run-moves cs (step x (prunes now)) j (prune-Unique x.batches idle now h)
        ∙ ap (λ l. l ++ enqueued j cs) (prune-moves x.batches idle now j (x.ledger j) h)

    run-IsArmed :
        (cs : List (Call Bytes)) (x : Instance)
        → Unique x.batches
        → IsArmed x.batches
        → IsArmed (run x cs).batches
    unfolding run step flush_doc enqueue_update
    run-IsArmed [] x u h = h
    run-IsArmed (enqueues now id b ∷ cs) x u h =
        run-IsArmed cs _ (set-Unique x.batches id _ u) (enqueue-IsArmed x.batches now id b h)
    run-IsArmed (flushes id ∷ cs) x u h =
        run-IsArmed cs _ (take-Unique x.batches id u) (take-IsArmed x.batches id h)
    run-IsArmed (prunes now ∷ cs) x u h =
        run-IsArmed cs _ (prune-Unique x.batches idle now u) (prune-IsArmed x.batches idle now u h)

    -- After any history of updates enqueued, flushes and prunings of a new instance, every update
    -- enqueued for a document has met one fate, in the order in which they were enqueued: it was
    -- handed over once, and its delivery succeeded or failed, or it was deleted with its batch as
    -- idle; or it waits behind all of these, and then the timer of its batch is armed.
    pub updates_delivered :
        (cs : List (Call Bytes)) (s : S) (j : String)
        → let x = run (record { state = s; ledger = λ _. []; batches = [] }) cs in
          (updates_of (x.ledger j) ++ pending x.batches j ≡ enqueued j cs) × IsArmed x.batches
    unfolding Map.get
    updates_delivered cs s j =
        let new : Instance = record { state = s; ledger = λ _. []; batches = [] } in
        (run-moves cs new j tt, run-IsArmed cs new tt (λ id b e n. cc))
