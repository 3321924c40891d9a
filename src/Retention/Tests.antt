-- ===== src/Retention/Tests.antt =====
-- The retention of a short list of snapshots.
use realtime_collaborative_e.Base.{◌≡◌, refl, List, [], ◌∷◌, true, false}
use realtime_collaborative_e.Retention.{
  Item, enforce_retention, snapshot_retention, limit, over_full,
}
use realtime_collaborative_e.Retention.Rule.{
  due, enforce_all, enforce_retention-eq-snapshot_retention,
}

abbrev snapshots : List Item
snapshots =
    record { id = "d"; is_milestone = false; created_at = 9 }
    ∷ record { id = "c"; is_milestone = false; created_at = 3 }
    ∷ record { id = "b"; is_milestone = true; created_at = 2 }
    ∷ record { id = "a"; is_milestone = false; created_at = 1 }
    ∷ []

enforce_retention-eq-snapshot_retention_example :
    (enforce_retention 1 5 snapshots ≡ due 1 5 snapshots)
    × (snapshot_retention 1 5 (snapshots ∷ [] ∷ [])
        ≡ enforce_all 1 5 (limit 200 (over_full 1 (snapshots ∷ [] ∷ []))))
enforce_retention-eq-snapshot_retention_example =
    enforce_retention-eq-snapshot_retention 1 5 snapshots (snapshots ∷ [] ∷ [])

job_deletes : snapshot_retention 1 5 (snapshots ∷ [] ∷ []) ≡ "c" ∷ "a" ∷ []
unfolding snapshot_retention
job_deletes = refl
