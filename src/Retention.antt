-- ===== src/Retention.antt =====
-- The retention of snapshots: `enforceRetention` of
-- api/src/database/repositories/document-snapshot.repo.ts, and the loop of `snapshotRetention` of
-- api/src/jobs/maintenance.service.ts, which writes the same rule a second time.
-- A list is a document's snapshots, the newest first, as both queries sort it. The job's error
-- handling, its audit entries and what else writes while it runs are left out.
pub mod Rule
mod Tests
use realtime_collaborative_e.Base.{
  ℕ, zero, suc, ◌+◌, ◌-◌, String, Bool, true, false, ◌&&◌, not, List, [], ◌∷◌, ◌++◌, ltb, leb,
  if◌then◌else◌, length,
}

-- `{ _id, isMilestone, createdAt }`
pub record Item : Type 0 where
  pub id : String
  pub is_milestone : Bool
  pub created_at : ℕ

-- `!s.isMilestone && isOld`
abbrev pub expires : ℕ → Item → Bool
expires cutoff s = not s.is_milestone && ltb s.created_at cutoff

-- The loop of `enforceRetention`, with `kept` and `toDelete`.
abbrev pub enforce_loop : ℕ → ℕ → List Item → ℕ → List String → List String
enforce_loop keep_last cutoff [] kept to_delete = to_delete
enforce_loop keep_last cutoff (s ∷ rest) kept to_delete =
    enforce_loop keep_last cutoff rest (kept + 1) (
      if leb (kept + 1) keep_last
      then to_delete
      else if expires cutoff s
      then to_delete ++ s.id ∷ []
      else to_delete)

-- What `enforceRetention` deletes.
pub enforce_retention : ℕ → ℕ → List Item → List String
enforce_retention keep_last cutoff list = enforce_loop keep_last cutoff list 0 []

-- `list[i]` for `i` from `from` on, as long as it is there.
abbrev pub items_from : ℕ → List Item → List Item
items_from zero list = list
items_from (suc i) [] = []
items_from (suc i) (s ∷ list) = items_from i list

abbrev pub sweep_loop : ℕ → List Item → List String → List String
sweep_loop cutoff [] to_delete = to_delete
sweep_loop cutoff (s ∷ rest) to_delete =
    sweep_loop cutoff rest (if expires cutoff s then to_delete ++ s.id ∷ [] else to_delete)

-- What `snapshotRetention` deletes of a document.
abbrev pub sweep : ℕ → ℕ → List Item → List String
sweep keep_last cutoff list = sweep_loop cutoff (items_from keep_last list) []

-- The first `n` elements.
abbrev pub limit : ℕ → List (List Item) → List (List Item)
limit zero rows = []
limit (suc n) [] = []
limit (suc n) (row ∷ rows) = row ∷ limit n rows

-- The documents with more snapshots than are kept: `$match`.
abbrev pub over_full : ℕ → List (List Item) → List (List Item)
over_full keep_last [] = []
over_full keep_last (list ∷ docs) =
    let rest = over_full keep_last docs in if ltb keep_last (length list) then list ∷ rest else rest

abbrev pub sweep_all : ℕ → ℕ → List (List Item) → List String
sweep_all keep_last cutoff [] = []
sweep_all keep_last cutoff (list ∷ rows) =
    sweep keep_last cutoff list ++ sweep_all keep_last cutoff rows

-- What `snapshotRetention` deletes, of the snapshots of all documents in the order in which the
-- database groups them: it looks at the first 200 documents that have more than it keeps.
pub snapshot_retention : ℕ → ℕ → List (List Item) → List String
snapshot_retention keep_last cutoff docs =
    sweep_all keep_last cutoff (limit 200 (over_full keep_last docs))
