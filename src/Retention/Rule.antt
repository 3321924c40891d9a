-- ===== src/Retention/Rule.antt =====
-- The two programs of the rule delete the same snapshots, and which these are.
use realtime_collaborative_e.Base.{
  ℕ, zero, suc, ◌+◌, ◌-◌, ◌≤◌, String, ◌≡◌, refl, sym, ◌∙◌, ap, inl, inr, true, false, List, [],
  ◌∷◌, ◌++◌, ltb, leb, length, drop, filter, arith, Bool-cases,
}
use mathlib.Core.List.{map}
use realtime_collaborative_e.Retention.{
  Item, expires, enforce_loop, enforce_retention, items_from, sweep_loop, snapshot_retention, sweep,
  limit, over_full, sweep_all,
}

-- The rule: of all but the newest `keep_last`, those that are old and no milestones.
abbrev pub due : ℕ → ℕ → List Item → List String
due keep_last cutoff list = map (λ s. s.id) (filter (expires cutoff) (drop keep_last list))

append_assoc1 :
    {A : Type 0} (xs : List A) (x : A) (ys : List A) → (xs ++ x ∷ []) ++ ys ≡ xs ++ x ∷ ys
append_assoc1 [] x ys = refl
append_assoc1 (y ∷ xs) x ys = ap (◌∷◌ y) (append_assoc1 xs x ys)

append_nil : {A : Type 0} (xs : List A) → xs ++ [] ≡ xs
append_nil [] = refl
append_nil (x ∷ xs) = ap (◌∷◌ x) (append_nil xs)

sweep_loop-due :
    (cutoff : ℕ) (list : List Item) (acc : List String)
    → sweep_loop cutoff list acc ≡ acc ++ map (λ s. s.id) (filter (expires cutoff) list)
sweep_loop-due cutoff [] acc = sym (append_nil acc)
sweep_loop-due cutoff (s ∷ rest) acc = elim (Bool-cases (expires cutoff s)) [
  | inl e ↦ rw e (sweep_loop-due cutoff rest (acc ++ s.id ∷ []) ∙ append_assoc1 acc s.id _)
  | inr e ↦ rw e (sweep_loop-due cutoff rest acc)
]

-- With `n` snapshots still to keep, the loop that counts does what the loop behind them does.
enforce-sweep :
    (n keep cutoff : ℕ) (list : List Item) (kept : ℕ) (acc : List String)
    → n ≡ keep - kept
    → enforce_loop keep cutoff list kept acc ≡ sweep_loop cutoff (drop n list) acc
enforce-sweep zero keep cutoff [] kept acc h = refl
enforce-sweep (suc n) keep cutoff [] kept acc h = refl
enforce-sweep zero keep cutoff (s ∷ rest) kept acc h =
    let past : leb (kept + 1) keep ≡ false = ground arith in
    rw past (enforce-sweep zero keep cutoff rest (kept + 1) _ (omega arith))
enforce-sweep (suc n) keep cutoff (s ∷ rest) kept acc h =
    let inside : leb (kept + 1) keep ≡ true = ground arith in
    rw inside (enforce-sweep n keep cutoff rest (kept + 1) acc (omega arith))

items-drop : (n : ℕ) (list : List Item) → items_from n list ≡ drop n list
items-drop zero list = refl
items-drop (suc n) [] = refl
items-drop (suc n) (s ∷ list) = items-drop n list

drop_short : (n : ℕ) (list : List Item) → length list ≤ n → drop n list ≡ []
drop_short zero [] h = refl
drop_short zero (s ∷ list) h = absurd (omega arith)
drop_short (suc n) [] h = refl
drop_short (suc n) (s ∷ list) h = drop_short n list (omega arith)

enforce_retention-due :
    (keep_last cutoff : ℕ) (list : List Item)
    → enforce_retention keep_last cutoff list ≡ due keep_last cutoff list
unfolding enforce_retention
enforce_retention-due keep_last cutoff list =
    enforce-sweep keep_last keep_last cutoff list 0 [] (omega arith)
    ∙ sweep_loop-due cutoff (drop keep_last list) []

sweep-due :
    (keep_last cutoff : ℕ) (list : List Item)
    → sweep keep_last cutoff list ≡ due keep_last cutoff list
sweep-due keep_last cutoff list =
    rw (items-drop keep_last list) (sweep_loop-due cutoff (drop keep_last list) [])

-- What `enforceRetention` deletes, called for one document after the other.
abbrev pub enforce_all : ℕ → ℕ → List (List Item) → List String
enforce_all keep_last cutoff [] = []
enforce_all keep_last cutoff (list ∷ docs) =
    enforce_retention keep_last cutoff list ++ enforce_all keep_last cutoff docs

sweep_all-enforce :
    (keep_last cutoff : ℕ) (rows : List (List Item))
    → sweep_all keep_last cutoff rows ≡ enforce_all keep_last cutoff rows
sweep_all-enforce keep_last cutoff [] = refl
sweep_all-enforce keep_last cutoff (list ∷ rows) = rw (
  sweep-due keep_last cutoff list,
  enforce_retention-due keep_last cutoff list,
  sweep_all-enforce keep_last cutoff rows,
)

-- A document with no more snapshots than are kept loses none.
enforce_all-over_full :
    (keep_last cutoff : ℕ) (docs : List (List Item))
    → enforce_all keep_last cutoff (over_full keep_last docs) ≡ enforce_all keep_last cutoff docs
enforce_all-over_full keep_last cutoff [] = refl
enforce_all-over_full keep_last cutoff (list ∷ docs) =
    let rest = enforce_all-over_full keep_last cutoff docs in
    elim (Bool-cases (ltb keep_last (length list))) [
      | inl long ↦ rw (long, rest)
      | inr short ↦
          rw
            (
              short,
              enforce_retention-due keep_last cutoff list,
              drop_short keep_last list (ground arith),
            )
            rest
    ]

limit_all : (n : ℕ) (rows : List (List Item)) → length rows ≤ n → limit n rows ≡ rows
limit_all zero [] h = refl
limit_all zero (row ∷ rows) h = absurd (omega arith)
limit_all (suc n) [] h = refl
limit_all (suc n) (row ∷ rows) h = ap (◌∷◌ row) (limit_all n rows (omega arith))

-- The repository's retention deletes, of all but the newest `keep_last` snapshots of a document,
-- exactly those that are older than the cutoff and no milestones. The scheduled job deletes what it
-- deletes for the first 200 of the documents with more snapshots than are kept, in the order in
-- which the database groups them, and nothing else.
pub enforce_retention-eq-snapshot_retention :
    (keep_last cutoff : ℕ) (list : List Item) (docs : List (List Item))
    → (enforce_retention keep_last cutoff list ≡ due keep_last cutoff list)
      × (snapshot_retention keep_last cutoff docs
          ≡ enforce_all keep_last cutoff (limit 200 (over_full keep_last docs)))
unfolding snapshot_retention
enforce_retention-eq-snapshot_retention keep_last cutoff list docs = (
  enforce_retention-due keep_last cutoff list,
  sweep_all-enforce keep_last cutoff (limit 200 (over_full keep_last docs)),
)

-- With at most 200 such documents the job deletes what the repository's retention does for all.
snapshot_retention-all :
    (keep_last cutoff : ℕ) (docs : List (List Item))
    → length (over_full keep_last docs) ≤ 200
    → snapshot_retention keep_last cutoff docs ≡ enforce_all keep_last cutoff docs
snapshot_retention-all keep_last cutoff docs few =
    (enforce_retention-eq-snapshot_retention keep_last cutoff [] docs).1
    ∙ ap (enforce_all keep_last cutoff) (limit_all 200 (over_full keep_last docs) few)
    ∙ enforce_all-over_full keep_last cutoff docs
