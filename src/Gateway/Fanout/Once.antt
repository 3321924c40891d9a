-- ===== src/Gateway/Fanout/Once.antt =====
-- Every instance emits an event at most once.
use realtime_collaborative_e.Base.{
  ℕ, suc, ◌+◌, String, ◌≡◌, refl, sym, ap, ◌∙◌, inl, inr, true, false, Option, none, some, List, [],
  ◌∷◌, ◌++◌, length, filter, filter-append, length-append, ◌===◌, if◌then◌else◌, arith, eq_iff,
  eq_refl, Bool-cases,
}
use realtime_collaborative_e.Base.Set
use realtime_collaborative_e.Gateway.Fanout.{
  Node, Message, Emitted, is_known, from_here, on_message, publish, fanout, emit_everywhere,
}

abbrev pub ids : List Node → List String
ids [] = []
ids (n ∷ nodes) = n.instance_id ∷ ids nodes

some_inj : {A : Type 0} {a b : A} → Path (Option A) (some a) (some b) → a ≡ b
some_inj e = cc (e)

sum_left : {a b : ℕ} (c : ℕ) → a ≡ b → c ≡ 0 → a + c ≡ b
sum_left c e z = omega (arith, e, z)

sum_right : {b c : ℕ} (a : ℕ) → a ≡ 0 → c ≡ b → a + c ≡ b
sum_right a z e = omega (arith, e, z)

module _ (P : Type 0) where
  -- How often the instance `i` emits.
  abbrev pub times : String → List (Emitted P) → ℕ
  times i es = length (filter (λ e. e.instance_id === i) es)

  times-append :
      (i : String) (es fs : List (Emitted P)) → times i (es ++ fs) ≡ times i es + times i fs
  times-append i es fs =
      ap length (filter-append (λ e. e.instance_id === i) es fs)
      ∙ length-append (filter (λ e. e.instance_id === i) es) (filter (λ e. e.instance_id === i) fs)

  -- The instances have different identifiers.
  abbrev pub Distinct : List Node → Type 0
  Distinct [] = Unit
  Distinct (n ∷ nodes) = (Set.has (ids nodes) n.instance_id ≡ false) × Distinct nodes

  on_message-times :
      (n : Node) (i id : String) (m : Message P)
      → from_here P n m ≡ false
      → is_known P m.type ≡ true
      → times i (on_message P n id m) ≡ (if n.instance_id === i then 1 else 0)
  unfolding on_message
  on_message-times n i id m f k = ground (arith, f, k)

  on_message_other :
      (n : Node) (i id : String) (m : Message P)
      → (n.instance_id === i) ≡ false
      → times i (on_message P n id m) ≡ 0
  unfolding on_message
  on_message_other n i id m h = ground (arith, h)

  on_message_here :
      (n : Node) (i id : String) (m : Message P)
      → from_here P n m ≡ true
      → times i (on_message P n id m) ≡ 0
  unfolding on_message
  on_message_here n i id m h = ground (arith, h)

  -- What an instance emits for a message, if it is subscribed.
  abbrev heard : Node → String → Message P → List (Emitted P)
  heard n id m = if Set.has n.subscribed id then on_message P n id m else []

  heard_other :
      (n : Node) (i id : String) (m : Message P)
      → (n.instance_id === i) ≡ false
      → times i (heard n id m) ≡ 0
  heard_other n i id m h = elim (Bool-cases (Set.has n.subscribed id)) [
    | inl s ↦ rw s (on_message_other n i id m h)
    | inr s ↦ rw s refl
  ]

  quiet :
      (n : Node) (id : String) (m : Message P)
      → from_here P n m ≡ true
      → times n.instance_id (heard n id m) ≡ 0
  quiet n id m h = elim (Bool-cases (Set.has n.subscribed id)) [
    | inl s ↦ rw s (on_message_here n n.instance_id id m h)
    | inr s ↦ rw s refl
  ]

  loud :
      (n : Node) (id : String) (m : Message P)
      → from_here P n m ≡ false
      → is_known P m.type ≡ true
      → times n.instance_id (heard n id m) ≡ (if Set.has n.subscribed id then 1 else 0)
  loud n id m h k = elim (Bool-cases (Set.has n.subscribed id)) [
    | inl s ↦ rw s (on_message-times n n.instance_id id m h k ∙ rw (eq_refl n.instance_id))
    | inr s ↦ rw s refl
  ]

  publish_absent :
      (nodes : List Node) (i id : String) (m : Message P)
      → Set.has (ids nodes) i ≡ false
      → times i (publish P nodes id m) ≡ 0
  unfolding publish Set.has
  publish_absent [] i id m h = refl
  publish_absent (n ∷ nodes) i id m h = elim (Bool-cases (n.instance_id === i)) [
    | inl here ↦ absurd (cc (rw here at h))
    | inr there ↦
        let rest = publish_absent nodes i id m (rw there at h) in
        let sum = times-append i (heard n id m) (publish P nodes id m) in
        sum ∙ omega (arith, heard_other n i id m there, rest)
  ]

  -- The instance with an identifier.
  abbrev pub node_of : List Node → String → Option Node
  node_of [] i = none
  node_of (n ∷ nodes) i = let rest = node_of nodes i in if n.instance_id === i then some n else rest

  publish-times :
      (nodes : List Node) (n : Node) (id : String) (m : Message P)
      → Distinct nodes
      → node_of nodes n.instance_id ≡ some n
      → times n.instance_id (publish P nodes id m) ≡ times n.instance_id (heard n id m)
  unfolding publish
  publish-times [] n id m d e = absurd (cc (e))
  publish-times (k ∷ nodes) n id m (fresh, d) e =
      elim (Bool-cases (k.instance_id === n.instance_id)) [
        | inl here ↦
            let same : k ≡ n = some_inj (rw here at e) in
            let absent : Set.has (ids nodes) n.instance_id ≡ false =
              sym (ap (λ x. Set.has (ids nodes) x) ((eq_iff k.instance_id n.instance_id).0 here))
              ∙ fresh in
            times-append n.instance_id (heard k id m) (publish P nodes id m)
            ∙ sum_left _ (ap (λ x. times n.instance_id (heard x id m)) same)
                (publish_absent nodes n.instance_id id m absent)
        | inr there ↦
            times-append n.instance_id (heard k id m) (publish P nodes id m)
            ∙ sum_right _ (heard_other k n.instance_id id m there)
                (publish-times nodes n id m d (rw there at e))
      ]

  -- An event of a room that an instance emits and publishes is emitted once by that instance, once
  -- by each other instance that is subscribed to the document's channel, and by no other, if the
  -- instances have different identifiers and the handler knows the type of the event.
  pub emit_everywhere-once :
      (nodes : List Node) (origin n : Node) (id type : String) (payload : P)
      → Distinct nodes
      → (origin.instance_id === "") ≡ false
      → is_known P type ≡ true
      → node_of nodes n.instance_id ≡ some n
      → times n.instance_id (emit_everywhere P nodes origin id type payload) ≡ (
          if origin.instance_id === n.instance_id
          then 1
          else if Set.has n.subscribed id
          then 1
          else 0)
  emit_everywhere-once nodes origin n id type payload d named known e =
      let m = fanout P origin id type payload in
      let spread = publish-times nodes n id m d e in
      elim (Bool-cases (origin.instance_id === n.instance_id)) [
        | inl own ↦
            let here : from_here P n m ≡ true = rw (named, own) in
            let silent = quiet n id m here in rw own (ap suc (spread ∙ silent))
        | inr other ↦
            let away : from_here P n m ≡ false = rw (named, other) in
            rw other (spread ∙ loud n id m away known)
      ]
