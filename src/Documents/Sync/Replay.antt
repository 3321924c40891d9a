-- ===== src/Documents/Sync/Replay.antt =====
-- The loop of the rebuild, over a log whose rows all apply and ascend in their sequence numbers.
use realtime_collaborative_e.Base.{
  ℕ, zero, suc, ◌≤◌, ◌<◌, String, ◌≡◌, refl, sym, ap, ◌∙◌, ◌&&◌, Option, some, List, [], ◌∷◌, ◌++◌,
  ltb, ltb→lt, lt→ltb, ◌==◌, ==_iff, All-append, ◌===◌, arith, filter, take, drop, length, All,
  filter-append, filter-and, take-append-drop, length-take, length-drop, Bool-cases, inl, inr,
}
use mathlib.Core.List.{append_assoc}
use realtime_collaborative_e.Platform.{Ascends}
use realtime_collaborative_e.Documents.{World, State, LogRow, list_asc}
use realtime_collaborative_e.Documents.Rebuild.{replay_row, replay_batch, rebuild_loop}

module _ (w : World) where
  open w use {yjs}
  open yjs use {Bytes, YDoc, empty, apply, gunzip}

  abbrev pub Rows : Type 0
  Rows = List (LogRow Bytes)

  abbrev pub seq_of : LogRow Bytes → ℕ
  seq_of r = r.seq

  -- The rows of a document, in the order in which they were appended.
  abbrev pub rows_of : State w → String → Rows
  rows_of s id = filter (λ r. r.document_id === id) (w.updates.rows s.updates)

  -- Every row of the list applies, one after the other, and leads from the first document to the
  -- second.
  abbrev pub Runs : YDoc → Rows → YDoc → Type 0
  Runs d [] e = d ≡ e
  Runs d (r ∷ rs) e =
      (b : Bytes) × (d' : YDoc) × (gunzip r.update ≡ some b) × (apply d b ≡ some d') × Runs d' rs e

  -- The sequence number of the last row, or the cursor before them.
  abbrev pub last_seq : ℕ → Rows → ℕ
  last_seq n [] = n
  last_seq n (r ∷ rs) = last_seq r.seq rs

  Ascends-le-last : (n : ℕ) (xs : Rows) → Ascends seq_of n xs → n ≤ last_seq n xs
  Ascends-le-last n [] a = omega arith
  Ascends-le-last n (r ∷ xs) (h, a) = omega (arith, Ascends-le-last r.seq xs a)

  pub Ascends-All : (n : ℕ) (xs : Rows) → Ascends seq_of n xs → All (λ r. r.seq ≤ last_seq n xs) xs
  Ascends-All n [] a = tt
  Ascends-All n (r ∷ xs) (h, a) = (Ascends-le-last r.seq xs a, Ascends-All r.seq xs a)

  Ascends-drop :
      (k n : ℕ) (xs : Rows)
      → Ascends seq_of n xs
      → Ascends seq_of (last_seq n (take k xs)) (drop k xs)
  Ascends-drop zero n xs a = a
  Ascends-drop (suc k) n [] a = tt
  Ascends-drop (suc k) n (r ∷ xs) (h, a) = Ascends-drop k r.seq xs a

  Ascends-take : (k n : ℕ) (xs : Rows) → Ascends seq_of n xs → Ascends seq_of n (take k xs)
  Ascends-take zero n xs a = tt
  Ascends-take (suc k) n [] a = tt
  Ascends-take (suc k) n (r ∷ xs) (h, a) = (h, Ascends-take k r.seq xs a)

  Ascends-mono : (m n : ℕ) (xs : Rows) → m ≤ n → Ascends seq_of n xs → Ascends seq_of m xs
  Ascends-mono m n [] h a = tt
  Ascends-mono m n (r ∷ xs) h (l, a) = (omega arith, a)

  filter-above : (n : ℕ) (xs : Rows) → Ascends seq_of n xs → filter (λ r. ltb n r.seq) xs ≡ xs
  filter-above n [] a = refl
  filter-above n (r ∷ xs) (h, a) =
      rw (lt→ltb n r.seq h)
        (ap (◌∷◌ r) (filter-above n xs (Ascends-mono n r.seq xs (omega arith) a)))

  filter-below : (n : ℕ) (xs : Rows) → All (λ r. r.seq ≤ n) xs → filter (λ r. ltb n r.seq) xs ≡ []
  filter-below n [] a = refl
  filter-below n (r ∷ xs) (h, a) = ground (arith, filter-below n xs a)

  All-le : (m n : ℕ) (xs : Rows) → m ≤ n → All (λ r. r.seq ≤ m) xs → All (λ r. r.seq ≤ n) xs
  All-le m n [] h a = tt
  All-le m n (r ∷ xs) h (l, a) = (omega arith, All-le m n xs h a)

  Runs-split :
      (k : ℕ) (d e : YDoc) (xs : Rows)
      → Runs d xs e
      → (m : YDoc) × Runs d (take k xs) m × Runs m (drop k xs) e
  Runs-split zero d e xs r = (d, refl, r)
  Runs-split (suc k) d e [] r = (d, refl, r)
  Runs-split (suc k) d e (x ∷ xs) (b, d', g, a, r) =
      let (m, front, back) = Runs-split k d' e xs r in (m, (b, d', g, a, front), back)

  pub Runs-append :
      (d e e' : YDoc) (xs : Rows) (r : LogRow Bytes) (b : Bytes)
      → Runs d xs e
      → gunzip r.update ≡ some b
      → apply e b ≡ some e'
      → Runs d (xs ++ r ∷ []) e'
  Runs-append d e e' [] r b p g a = (b, e', g, rw p a, refl)
  Runs-append d e e' (x ∷ xs) r b (c, d', g', a', p) g a =
      (c, d', g', a', Runs-append d' e e' xs r b p g a)

  pub Ascends-append :
      (n m : ℕ) (xs : Rows) (r : LogRow Bytes)
      → Ascends seq_of n xs
      → last_seq n xs ≤ m
      → m < r.seq
      → Ascends seq_of n (xs ++ r ∷ []) × (last_seq n (xs ++ r ∷ []) ≡ r.seq)
  Ascends-append n m [] r a h l = ((omega arith, tt), refl)
  Ascends-append n m (x ∷ xs) r (k, a) h l =
      let (up, end) = Ascends-append x.seq m xs r a h l in ((k, up), end)

  replay_row-applied :
      (x : LogRow Bytes) (d d' : YDoc) (n : ℕ) (b : Bytes)
      → gunzip x.update ≡ some b
      → apply d b ≡ some d'
      → replay_row w (d, n) x ≡ (d', x.seq)
  unfolding replay_row
  replay_row-applied x d d' n b g a = rw (g, a, replay_row)

  replay_batch-Runs :
      (xs : Rows) (d e : YDoc) (n : ℕ) → Runs d xs e → replay_batch w (d, n) xs ≡ (e, last_seq n xs)
  unfolding replay_batch
  replay_batch-Runs [] d e n r = ap (λ x. (x, n)) r
  replay_batch-Runs (x ∷ xs) d e n (b, d', g, a, r) =
      ap (λ p. replay_batch w p xs) (replay_row-applied x d d' n b g a)
      ∙ replay_batch-Runs xs d' e x.seq r

  -- What a batch lists: the rows behind the cursor, up to the limit.
  list_asc-rest :
      (s : State w) (id : String) (pre rest : Rows) (n most : ℕ)
      → rows_of s id ≡ pre ++ rest
      → All (λ r. r.seq ≤ n) pre
      → Ascends seq_of n rest
      → list_asc w s id n most ≡ take most rest
  list_asc-rest s id pre rest n most e below above =
      let same : filter (λ r. (r.document_id === id) && ltb n r.seq) (w.updates.rows s.updates)
          ≡ rest =
        filter-and (λ r. r.document_id === id) (λ r. ltb n r.seq) (w.updates.rows s.updates)
        ∙ ap (filter (λ r. ltb n r.seq)) e
        ∙ filter-append (λ r. ltb n r.seq) pre rest
        ∙ rw (filter-below n pre below) (filter-above n rest above) in
      w.updates.find_asc-Ascends s.updates _ seq_of most n (rw same above) ∙ ap (take most) same

  last_seq-append : (n : ℕ) (xs ys : Rows) → last_seq n (xs ++ ys) ≡ last_seq (last_seq n xs) ys
  last_seq-append n [] ys = refl
  last_seq-append n (x ∷ xs) ys = last_seq-append x.seq xs ys

  -- A batch shorter than the limit is all that was left.
  take_all : (k : ℕ) (xs : Rows) → length (take k xs) < k → drop k xs ≡ []
  take_all zero xs h = absurd (omega arith)
  take_all (suc k) [] h = refl
  take_all (suc k) (x ∷ xs) h = take_all k xs (omega arith)

  last_seq-split :
      (k n : ℕ) (xs : Rows) → last_seq (last_seq n (take k xs)) (drop k xs) ≡ last_seq n xs
  last_seq-split zero n xs = refl
  last_seq-split (suc k) n [] = refl
  last_seq-split (suc k) n (x ∷ xs) = last_seq-split k x.seq xs

  take_none : (k : ℕ) (xs : Rows) → 0 < k → length (take k xs) ≡ 0 → xs ≡ []
  take_none zero xs p h = absurd (omega arith)
  take_none (suc k) [] p h = refl
  take_none (suc k) (x ∷ xs) p h = absurd (omega arith)

  Runs-nil :
      (n : ℕ) (d e : YDoc) (xs : Rows)
      → xs ≡ []
      → Runs d xs e
      → ◌≡◌ {A = Option (YDoc × ℕ)} (some (d, n)) (some (e, last_seq n xs))
  Runs-nil n d e [] h r = ap (λ x. some (x, n)) r
  Runs-nil n d e (x ∷ xs) h r = cc

  module _ (s : State w) (id : String) (most : ℕ) where
    -- With a row of fuel for each row that is left, and one more, the loop replays them all.
    pub rebuild_loop-Runs :
        (fuel : ℕ) (pre rest : Rows) (d e : YDoc) (n : ℕ)
        → 0 < most
        → rows_of s id ≡ pre ++ rest
        → All (λ r. r.seq ≤ n) pre
        → Ascends seq_of n rest
        → Runs d rest e
        → length rest < fuel
        → rebuild_loop w fuel most s id (d, n) ≡ some (e, last_seq n rest)
    unfolding rebuild_loop
    rebuild_loop-Runs zero pre rest d e n pos eq below above runs room = absurd (omega arith)
    rebuild_loop-Runs (suc fuel) pre rest d e n pos eq below above runs room =
        let batch = take most rest in
        let listed = list_asc-rest s id pre rest n most eq below above in
        let (m, front, back) = Runs-split most d e rest runs in
        let replayed = replay_batch-Runs batch d m n front in
        let up = Ascends-take most n rest above in
        rw listed (elim (Bool-cases (length batch == 0)) [
          | inl none_left ↦
              rw none_left
                (Runs-nil n d e rest (take_none most rest pos ((==_iff _ 0).0 none_left)) runs)
          | inr some_left ↦ elim (Bool-cases (ltb (length batch) most)) [
            | inl short ↦
                rw (some_left, short, replayed)
                  (Runs-nil (last_seq n batch) m e (drop most rest)
                      (take_all most rest (ltb→lt (length batch) most short)) back
                    ∙ ap (λ k. some (e, k)) (last_seq-split most n rest))
            | inr full ↦
                rw (some_left, full, replayed)
                  (rebuild_loop-Runs fuel (pre ++ batch) (drop most rest) m e (last_seq n batch) pos
                      (eq
                        ∙ ap (◌++◌ pre) (sym (take-append-drop most rest))
                        ∙ sym (append_assoc pre batch _))
                      (All-append (λ r. r.seq ≤ last_seq n batch) pre batch
                        (All-le n (last_seq n batch) pre (Ascends-le-last n batch up) below)
                        (Ascends-All n batch up))
                      (Ascends-drop most n rest above) back
                      (ground (arith, length-drop most rest, length-take most rest))
                    ∙ ap (λ k. some (e, k)) (last_seq-split most n rest))
          ]
        ])
