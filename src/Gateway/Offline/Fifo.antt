-- ===== src/Gateway/Offline/Fifo.antt =====
-- What a user who comes back is given.
use text.Mathlib.TextLemmas.{append_cancel_left}
use realtime_collaborative_e.Base.{
  ℕ, zero, suc, ◌+◌, ◌-◌, ◌≤◌, ◌<◌, String, ◌≡◌, refl, sym, ap, ◌∙◌, subst, ◌≢◌, inl, inr, true,
  false, some, List, [], ◌∷◌, ◌++◌, ◌===◌, if◌then◌else◌, length, drop, length-drop, append_nil,
  append_assoc, length-append, arith, eq_iff, Bool-cases, leb,
}
use realtime_collaborative_e.Base.Set
use realtime_collaborative_e.Redis.{ListStore}
use realtime_collaborative_e.Access.{Doc, Directory}
use realtime_collaborative_e.Gateway.Offline.{
  Audience, queue_key, add_all, delete_all, intended_users, push_event, push_all, queue_for_offline,
  flush_loop, flush_offline_queue,
}

-- The last `n` entries.
abbrev pub last_n : {A : Type 0} → ℕ → List A → List A
last_n n xs = drop (length xs - n) xs

drop-snoc :
    {A : Type 0} (j : ℕ) (xs : List A) (x : A)
    → j ≤ length xs
    → drop j xs ++ x ∷ [] ≡ drop j (xs ++ x ∷ [])
drop-snoc zero xs x h = refl
drop-snoc (suc j) [] x h = absurd (omega arith)
drop-snoc (suc j) (y ∷ xs) x h = drop-snoc j xs x (omega arith)

drop-nil : {A : Type 0} (i : ℕ) → ◌≡◌ {A = List A} (drop i []) []
drop-nil zero = refl
drop-nil (suc i) = refl

drop-drop : {A : Type 0} (i j : ℕ) (xs : List A) → drop i (drop j xs) ≡ drop (j + i) xs
drop-drop i zero xs = ap (λ k. drop k xs) (omega arith)
drop-drop i (suc j) [] = drop-nil i ∙ sym (drop-nil (suc j + i))
drop-drop i (suc j) (x ∷ xs) =
    let e : suc (j + i) ≡ suc j + i = omega arith in drop-drop i j xs ∙ ap (λ k. drop k (x ∷ xs)) e

-- To cut the list after each push is to cut it once.
last_n-snoc :
    {A : Type 0} (n : ℕ) (xs : List A) (x : A)
    → 0 < n
    → last_n n (last_n n xs ++ x ∷ []) ≡ last_n n (xs ++ x ∷ [])
last_n-snoc n xs x h =
    let j = length xs - n in
    let same : last_n n xs ++ x ∷ [] ≡ drop j (xs ++ x ∷ []) = drop-snoc j xs x (omega arith) in
    let long = length-append xs (x ∷ []) in
    ap (last_n n) same
    ∙ drop-drop (length (drop j (xs ++ x ∷ [])) - n) j (xs ++ x ∷ [])
    ∙ ap (λ k. drop k (xs ++ x ∷ [])) (omega (arith, length-drop j (xs ++ x ∷ []), long))

length-last_n : {A : Type 0} (n : ℕ) (xs : List A) → length (last_n n xs) ≤ n
length-last_n n xs = omega (arith, length-drop (length xs - n) xs)

queue_key-other : (id a b : String) → a ≢ b → queue_key id a ≢ queue_key id b
queue_key-other id a b h e =
    h (
      append_cancel_left ":" a b (append_cancel_left id _ _ (append_cancel_left "ws:queue:" _ _ e)))

-- How often a user is in a set.
abbrev pub occurs : List String → String → ℕ
occurs [] u = 0
occurs (v ∷ s) u = let n = occurs s u in if v === u then n + 1 else n

has-occurs : (s : List String) (u : String) → Set.has s u ≡ leb 1 (occurs s u)
unfolding Set.has
has-occurs [] u = refl
has-occurs (v ∷ s) u = ground (arith, has-occurs s u)

occurs-snoc :
    (s : List String) (k u : String)
    → occurs (s ++ k ∷ []) u ≡ (if k === u then occurs s u + 1 else occurs s u)
occurs-snoc [] k u = ground arith
occurs-snoc (v ∷ s) k u = ground (arith, occurs-snoc s k u)

occurs-add : (s : List String) (k u : String) → occurs s u ≤ 1 → occurs (Set.add s k) u ≤ 1
unfolding Set.add
occurs-add s k u h = ground (arith, occurs-snoc s k u, has-occurs s u, has-occurs s k, eq_iff k u)

occurs-delete : (s : List String) (k u : String) → occurs (Set.delete s k) u ≤ occurs s u
unfolding Set.delete
occurs-delete [] k u = omega arith
occurs-delete (v ∷ s) k u = ground (arith, occurs-delete s k u)

occurs-add_all : (xs s : List String) (u : String) → occurs s u ≤ 1 → occurs (add_all s xs) u ≤ 1
occurs-add_all [] s u h = h
occurs-add_all (x ∷ xs) s u h = occurs-add_all xs (Set.add s x) u (occurs-add s x u h)

occurs-delete_all : (xs s : List String) (u : String) → occurs (delete_all s xs) u ≤ occurs s u
occurs-delete_all [] s u = omega arith
occurs-delete_all (x ∷ xs) s u =
    omega (arith, occurs-delete_all xs (Set.delete s x) u, occurs-delete s x u)

has-delete_all :
    (xs s : List String) (u : String)
    → Set.has xs u ≡ false
    → Set.has (delete_all s xs) u ≡ Set.has s u
unfolding Set.has
has-delete_all [] s u h = refl
has-delete_all (x ∷ xs) s u h =
    has-delete_all xs (Set.delete s x) u (ground arith) ∙ ground (arith, Set.has-delete s x u)

-- A user who is intended and not online is queued for once.
recipient :
    (au : Audience) (id : String) (d : Doc) (online : List String) (u : String)
    → Set.has (intended_users au id d) u ≡ true
    → Set.has online u ≡ false
    → occurs (delete_all (intended_users au id d) online) u ≡ 1
recipient au id d online u h away =
    let all = intended_users au id d in
    let once : occurs all u ≤ 1 =
      occurs-add_all (au.list_members d.workspace_id) _ u
        (occurs-add_all (au.list id) _ u (occurs-add [] d.owner_id u (omega arith))) in
    ground (
      arith,
      once,
      occurs-delete_all online all u,
      has-occurs (delete_all all online) u,
      has-delete_all online all u away,
    )

module _ {V : Type 0} (redis : ListStore V) where
  -- The list under a key for a day.
  abbrev pub Holds : redis.Store → ℕ → String → List V → Type 0
  Holds s now k l = (at : ℕ) → now ≤ at → at < now + 86400000 → redis.items s at k ≡ l

  push_event-Holds :
      (s : redis.Store) (now : ℕ) (k : String) (e : V) (l : List V)
      → redis.items s now k ≡ l
      → Holds (push_event redis s now k e) now k (last_n 1000 (l ++ e ∷ []))
  push_event-Holds s now k e l h at lo hi =
      let pushed : redis.items (redis.lpush s now k e) now k ≡ l ++ e ∷ [] =
        redis.items-lpush s now k e ∙ ap (λ x. x ++ e ∷ []) h in
      redis.items-expire _ now at k 86400000 lo hi
      ∙ redis.items-ltrim _ now k 999
      ∙ ap (last_n 1000) pushed

  push_event-other :
      (s : redis.Store) (now at : ℕ) (k j : String) (e : V)
      → k ≢ j
      → redis.items (push_event redis s now k e) at j ≡ redis.items s at j
  push_event-other s now at k j e h =
      let (pushed, _, _) = redis.items-other s now at k j e 999 86400000 h in
      let (_, cut, _) = redis.items-other (redis.lpush s now k e) now at k j e 999 86400000 h in
      let (_, _, kept) =
        redis.items-other (redis.ltrim (redis.lpush s now k e) now k 999) now at k j e 999 86400000
          h in
      kept ∙ cut ∙ pushed

  push_all-none :
      (uids : List String) (s : redis.Store) (now at : ℕ) (id u : String) (e : V)
      → occurs uids u ≡ 0
      → redis.items (push_all redis s now id uids e) at (queue_key id u)
        ≡ redis.items s at (queue_key id u)
  unfolding push_all
  push_all-none [] s now at id u e h = refl
  push_all-none (v ∷ uids) s now at id u e h =
      let other : v ≢ u = ground (arith, eq_iff v u) in
      push_all-none uids _ now at id u e (ground arith)
      ∙ push_event-other s now at (queue_key id v) (queue_key id u) e (queue_key-other id v u other)

  push_all-once :
      (uids : List String) (s : redis.Store) (now : ℕ) (id u : String) (e : V) (l : List V)
      → occurs uids u ≡ 1
      → redis.items s now (queue_key id u) ≡ l
      → Holds (push_all redis s now id uids e) now (queue_key id u) (last_n 1000 (l ++ e ∷ []))
  unfolding push_all
  push_all-once [] s now id u e l h at = absurd (omega (arith, h))
  push_all-once (v ∷ uids) s now id u e l h got = elim (Bool-cases (v === u)) [
    | inl same ↦ λ at lo hi.
        push_all-none uids _ now at id u e (ground arith)
        ∙ subst
            (λ x.
              Holds (push_event redis s now (queue_key id x) e) now (queue_key id u)
                (last_n 1000 (l ++ e ∷ [])))
            (sym ((eq_iff v u).0 same)) (push_event-Holds s now (queue_key id u) e l got) at lo hi
    | inr other ↦ push_all-once uids _ now id u e l (ground arith) (
        push_event-other s now now (queue_key id v) (queue_key id u) e
          (queue_key-other id v u (ground (arith, eq_iff v u)))
        ∙ got)
  ]

  flush_loop-all :
      (n : ℕ) (s : redis.Store) (now : ℕ) (k : String) (l : List V)
      → redis.items s now k ≡ l
      → length l ≤ n
      → (flush_loop redis n s now k).1 ≡ l
  unfolding flush_loop
  flush_loop-all zero s now k [] h short = refl
  flush_loop-all zero s now k (e ∷ l) h short = absurd (omega arith)
  flush_loop-all (suc n) s now k [] h short = rw (redis.rpop-nil s now k h, flush_loop)
  flush_loop-all (suc n) s now k (e ∷ l) h short =
      let (got, left) = redis.rpop-cons s now k e l h in
      rw (got, flush_loop) (ap (◌∷◌ e) (flush_loop-all n _ now k l left (omega arith)))

  module _ (dir : Directory) (au : Audience) (id : String) where
    -- Events with the time of each and who is online then.
    abbrev pub Sent : Type 0
    Sent = List (ℕ × List String × V)

    -- The events queued one after the other.
    abbrev pub queue_events : redis.Store → Sent → redis.Store
    queue_events s [] = s
    queue_events s ((now, online, e) ∷ evs) =
        queue_events (queue_for_offline redis dir au s now id online e) evs

    -- The times ascend by less than a day from `now` to the return at `back`, and the user is away.
    abbrev pub Away : String → ℕ → Sent → ℕ → Type 0
    Away u now [] back = (now ≤ back) × (back < now + 86400000)
    Away u now ((at, online, _) ∷ evs) back =
        (now ≤ at) × (at < now + 86400000) × (Set.has online u ≡ false) × Away u at evs back

    abbrev pub events_of : Sent → List V
    events_of [] = []
    events_of ((_, _, e) ∷ evs) = e ∷ events_of evs

    queue_for_offline-Holds :
        (d : Doc) (u : String) (s : redis.Store) (now : ℕ) (online : List String) (e : V)
        (l : List V)
        → dir.find_by_id id ≡ some d
        → Set.has (intended_users au id d) u ≡ true
        → Set.has online u ≡ false
        → redis.items s now (queue_key id u) ≡ l
        → Holds
            (queue_for_offline redis dir au s now id online e)
            now
            (queue_key id u)
            (last_n 1000 (l ++ e ∷ []))
    unfolding queue_for_offline
    queue_for_offline-Holds d u s now online e l found meant away h =
        rw (found, queue_for_offline)
          (push_all-once (delete_all (intended_users au id d) online) s now id u e l
            (recipient au id d online u meant away) h)

    events-Holds :
        (evs : Sent) (d : Doc) (u : String) (s : redis.Store) (now back : ℕ) (before : List V)
        → dir.find_by_id id ≡ some d
        → Set.has (intended_users au id d) u ≡ true
        → Holds s now (queue_key id u) (last_n 1000 before)
        → Away u now evs back
        → redis.items (queue_events s evs) back (queue_key id u)
          ≡ last_n 1000 (before ++ events_of evs)
    events-Holds [] d u s now back before found meant h (lo, hi) =
        h back lo hi ∙ ap (last_n 1000) (sym (append_nil before))
    events-Holds ((at, online, e) ∷ evs) d u s now back before found meant h (lo, hi, away, rest) =
        let one =
          queue_for_offline-Holds d u s at online e (last_n 1000 before) found meant away
            (h at lo hi) in
        events-Holds evs d u _ at back (before ++ e ∷ []) found meant
          (λ t a b. one t a b ∙ last_n-snoc 1000 before e (omega arith)) rest
        ∙ ap (last_n 1000) (append_assoc before (e ∷ []) (events_of evs))

    -- A user whom the document concerns, who is away while events of it are queued and comes back
    -- within a day of each, is given the last 1000 of these events, in their order, if the queue was
    -- empty before.
    pub flush_offline_queue-events :
        (evs : Sent) (d : Doc) (u : String) (s : redis.Store) (now back : ℕ)
        → dir.find_by_id id ≡ some d
        → Set.has (intended_users au id d) u ≡ true
        → Holds s now (queue_key id u) []
        → Away u now evs back
        → (flush_offline_queue redis (queue_events s evs) back id u).1 ≡ last_n 1000 (events_of evs)
    unfolding flush_offline_queue
    flush_offline_queue-events evs d u s now back found meant h away =
        flush_loop-all 1000 _ back (queue_key id u) (last_n 1000 (events_of evs))
          (events-Holds evs d u s now back [] found meant h away)
          (length-last_n 1000 (events_of evs))
