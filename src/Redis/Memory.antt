-- ===== src/Redis/Memory.antt =====
-- A store in memory that meets the interface: each key has its value and its expiry.
use realtime_collaborative_e.Base.{
  ◌∷◌, ◌∙◌, ◌++◌, ◌-◌, drop, length, eq_iff, Bool-cases, inl, inr, ◌&&◌, ℕ, ◌+◌, ◌≤◌, String, ◌≡◌,
  refl, Bool, true, false, Option, none, some, ltb, ◌===◌, arith, List, [], ◌<◌, lt→ltb, eq_refl,
  if◌then◌else◌,
}
use realtime_collaborative_e.Base.Set
use realtime_collaborative_e.Redis.{KeyStore, SetStore, Counters, ListStore}

abbrev Cells : Type 0 → Type 0
Cells V = String → Option (V × ℕ)

abbrev read : {V : Type 0} → Option (V × ℕ) → ℕ → Option V
read none at = none
read (some (v, expiry)) at = if ltb at expiry then some v else none

abbrev write : {V : Type 0} → Cells V → ℕ → String → V → ℕ → Cells V
write s now k v ttl j = if k === j then some (v, now + ttl) else s j

abbrev write_nx : {V : Type 0} → Cells V → ℕ → String → V → ℕ → Option V → Cells V × Bool
write_nx s now k v ttl none = (write s now k v ttl, true)
write_nx s now k v ttl (some _) = (s, false)

pub read-write :
    {V : Type 0} (s : Cells V) (now at : ℕ) (k j : String) (v : V) (ttl : ℕ)
    → now ≤ at
    → read (write s now k v ttl j) at
      ≡ (if k === j then (if ltb at (now + ttl) then some v else none) else read (s j) at)
read-write s now at k j v ttl h = ground arith

pub read_earlier :
    {V : Type 0} (c : Option (V × ℕ)) (now at : ℕ) (v : V)
    → now ≤ at
    → read c at ≡ some v
    → read c now ≡ some v
read_earlier none now at v h e = cc
read_earlier (some (w, x)) now at v h e = ground arith

pub read-del :
    {V : Type 0} (s : Cells V) (at : ℕ) (k j : String)
    → read (if k === j then none else s j) at ≡ (if k === j then none else read (s j) at)
read-del s at k j = ground arith

abbrev pub memory : (V : Type 0) → KeyStore V
memory V = record {
  Store = Cells V;
  get = λ s at k. read (s k) at;
  set_ex = λ s now k v ttl. write s now k v ttl;
  set_nx = λ s now k v ttl. write_nx s now k v ttl (read (s k) now);
  del = λ s k j. if k === j then none else s j;
  get-set_ex = read-write;
  get-del = λ s at k j. read-del s at k j;
  set_nx-none = λ s now k v ttl e. rw e;
  set_nx-some = λ s now k v w ttl e. rw e;
  get_earlier = λ s now at k v h e. read_earlier (s k) now at v h e;
}

-- A set under each key, and its expiry if it has one.
abbrev Cell : Type 0
Cell = List String × Option ℕ

abbrev alive : Option ℕ → ℕ → Bool
alive none at = true
alive (some expiry) at = ltb at expiry

abbrev live : Cell → ℕ → Cell
live (v, e) at = if alive e at then (v, e) else ([], none)

abbrev member : Cell → ℕ → String → Bool
member c at m = Set.has (live c at).0 m

abbrev with_member : Cell → ℕ → String → Cell
with_member c now m = (Set.add (live c now).0 m, (live c now).1)

-- A set without members is no key any more.
abbrev unless_empty : List String → Option ℕ → Cell
unless_empty [] e = ([], none)
unless_empty (m ∷ v) e = (m ∷ v, e)

abbrev without : Cell → ℕ → String → Cell
without c now m = unless_empty (Set.delete (live c now).0 m) (live c now).1

abbrev with_expiry : Cell → ℕ → ℕ → Cell
with_expiry c now ttl = if alive c.1 now then (c.0, some (now + ttl)) else c

alive-live : (c : Cell) (now : ℕ) → alive (live c now).1 now ≡ true
alive-live (v, none) now = refl
alive-live (v, some e) now = ground arith

pub member-with :
    (c : Cell) (now at : ℕ) (m : String) (ttl : ℕ)
    → now ≤ at
    → at < now + ttl
    → member (with_expiry (with_member c now m) now ttl) at m ≡ true
member-with c now at m ttl h k =
    rw (alive-live c now, lt→ltb at (now + ttl) k, Set.has-add (live c now).0 m m)
      (ground (arith, eq_refl m))

member-unless_empty :
    (v : List String) (e : Option ℕ) (now : ℕ) (n : String)
    → alive e now ≡ true
    → member (unless_empty v e) now n ≡ Set.has v n
member-unless_empty [] e now n h = refl
member-unless_empty (m ∷ v) e now n h = rw h

member-without :
    (c : Cell) (now : ℕ) (m n : String)
    → member (without c now m) now n ≡ (if m === n then false else member c now n)
member-without c now m n =
    member-unless_empty (Set.delete (live c now).0 m) (live c now).1 now n (alive-live c now)
    ∙ Set.has-delete (live c now).0 m n

pub has-srem_memory :
    (s : String → Cell) (now : ℕ) (k j m n : String)
    → member (if k === j then without (s k) now m else s j) now n
      ≡ (if k === j && m === n then false else member (s j) now n)
has-srem_memory s now k j m n = elim (Bool-cases (k === j)) [
  | inr f ↦ rw f
  | inl e ↦ rw (e, (eq_iff k j).0 e) (member-without (s j) now m n)
]

pub smembers-with :
    (c : Cell) (now : ℕ) (m : String)
    → (live (with_member c now m) now).0 ≡ Set.add (live c now).0 m
smembers-with c now m = rw (alive-live c now)

-- A key that has expired is there no more.
pub live-expiry :
    (c : Cell) (now at : ℕ) (ttl : ℕ)
    → now ≤ at
    → at < now + ttl
    → (live (with_expiry c now ttl) at).0 ≡ (live c now).0
live-expiry (v, none) now at ttl h l = rw (lt→ltb at (now + ttl) l)
live-expiry (v, some e) now at ttl h l = ground arith

abbrev pub set_memory : SetStore
set_memory = record {
  Store = String → Cell;
  has = λ s at k m. member (s k) at m;
  sadd = λ s now k m.
      (λ j. if k === j then with_member (s k) now m else s j, if member (s k) now m then 0 else 1);
  expire = λ s now k ttl j. if k === j then with_expiry (s k) now ttl else s j;
  srem = λ s now k m j. if k === j then without (s k) now m else s j;
  smembers = λ s now k. (live (s k) now).0;
  has-smembers = λ s now k m. refl;
  has-srem = has-srem_memory;
  smembers-sadd = λ s now k m. rw (eq_refl k) (smembers-with (s k) now m);
  smembers-expire = λ s now at k ttl h l. rw (eq_refl k) (live-expiry (s k) now at ttl h l);
  sadd-new = λ s now k m h. rw h;
  sadd-old = λ s now k m h. rw h;
  has-expire-sadd = λ s now at k m ttl h l. rw (eq_refl k) (member-with (s k) now at m ttl h l);
}

abbrev pub pop_first :
    {V : Type 0} → (String → List V) → String → List V → (String → List V) × Option V
pop_first s k [] = (s, none)
pop_first s k (v ∷ vs) = (λ j. if k === j then vs else s j, some v)

-- Counters that never expire.
abbrev pub counter_memory : Counters
counter_memory = record {
  Store = String → ℕ;
  count = λ s now k. s k;
  incr = λ s now k. (λ j. if k === j then s k + 1 else s j, s k + 1);
  expire = λ s now k ttl. s;
  del = λ s k j. if k === j then 0 else s j;
  count-del = λ s now k. rw (eq_refl k);
  incr-count = λ s now k. refl;
  count-incr = λ s now k. rw (eq_refl k);
  count-expire = λ s now k ttl h. refl;
  count-other = λ s now k j ttl h. (ground (arith, eq_iff k j), refl);
}

-- Lists that never expire, from the right end.
abbrev pub list_memory : (V : Type 0) → ListStore V
list_memory V = record {
  Store = String → List V;
  items = λ s at k. s k;
  lpush = λ s now k v j. if k === j then s k ++ v ∷ [] else s j;
  ltrim = λ s now k stop j. if k === j then drop (length (s k) - (stop + 1)) (s k) else s j;
  rpop = λ s now k. pop_first s k (s k);
  expire = λ s now k ttl. s;
  items-lpush = λ s now k v. rw (eq_refl k);
  items-ltrim = λ s now k stop. rw (eq_refl k);
  items-expire = λ s now at k ttl a b. refl;
  rpop-nil = λ s now k h. rw h;
  rpop-cons = λ s now k v vs h. rw h (refl, rw (eq_refl k));
  items-other =
      λ s now at k j v stop ttl h. (ground (arith, eq_iff k j), ground (arith, eq_iff k j), refl);
}
