-- ===== src/Comments/Changes.antt =====
-- The changes of comments: the handlers of api/src/comments/comments.controller.ts behind `Comments`
-- that change a comment which is there.
use realtime_collaborative_e.Base.{
  or_text, int32, ℕ, ◌+◌, min, max, String, Option, none, some, [], ◌∷◌, ◌++◌, ◌==◌, ◌===◌,
  if◌then◌else◌, ok, err,
}
use realtime_collaborative_e.Base.Map
use realtime_collaborative_e.Base.Map.{Map}
use realtime_collaborative_e.Access.{truthy}
use realtime_collaborative_e.Comments.Text.{slice}
use realtime_collaborative_e.Comments.{
  Anchor, Comment, Patch, Author, State, Answer, update_by_id, document_of, publish_room,
  publish_comment, patched, user_text, room, room_id, integration, metric, not_found, not_owner,
  missing_anchor, missing_assignee, missing_due, invalid_due,
}

abbrev pub resolve : State → ℕ → String → Answer (Option Comment)
resolve s now id =
    let (t, rec) =
      update_by_id s now id λ c. record c { status = "resolved"; resolved_at = some now } in
    let doc = document_of rec in
    (
      t,
      publish_room doc (room_id doc "comment:resolved" id)
          ++ integration "comment.resolved" doc id ∷ metric "resolved" ∷ [],
      ok rec,
    )

-- Both `update` and `remove` go on behind this test.
abbrev pub owned : {A : Type 0} → State → String → Option Author → (Comment → Answer A) → Answer A
owned s id user k = elim (Map.get s.comments id) [
  | none ↦ (s, [], err not_found)
  | some existing ↦
      let go = k existing in
      if existing.author_id === user_text user then go else (s, [], err not_owner)
]

unfoldable pub update : State → ℕ → String → Patch → Option Author → Answer (Option Comment)
update s now id body user = owned s id user λ existing.
    let (t, rec) = update_by_id s now id (patched body) in
    let doc = document_of rec in
    (t, publish_comment rec "comment:updated" ++ integration "comment.updated" doc id ∷ [], ok rec)

unfoldable pub remove : State → ℕ → String → Option Author → Answer (Option Comment)
remove s now id user = owned s id user λ existing.
    let (t, rec) = update_by_id s now id λ c. record c { deleted_at = some now } in
    let doc = existing.document_id in
    (
      t,
      publish_room doc (room_id doc "comment:deleted" id)
          ++ integration "comment.deleted" doc id ∷ metric "deleted" ∷ [],
      ok rec,
    )

-- `Math.max(1, n | 0)`
abbrev pub anchor_at : ℕ → ℕ
anchor_at n = max 1 (int32 0 n)

abbrev pub anchor_of : Anchor → Anchor
anchor_of a = record a { from = anchor_at a.from; to = anchor_at a.to }

unfoldable pub update_anchor : State → ℕ → String → Anchor → Answer (Option Comment)
update_anchor s now id body =
    let (t, rec) = update_by_id s now id λ c. record c { anchor = some (anchor_of body) } in
    if body.from == 0
    then (s, [], err missing_anchor)
    else if body.to == 0
    then (s, [], err missing_anchor)
    else (t, [], ok rec)

abbrev pub count_of : Option ℕ → ℕ
count_of none = 0
count_of (some n) = n

abbrev pub with_reaction : Map ℕ → String → Map ℕ
with_reaction m emoji = Map.set m emoji (count_of (Map.get m emoji) + 1)

unfoldable pub react : State → ℕ → String → Option String → Answer (Option Comment)
react s now id wanted = elim (Map.get s.comments id) [
  | none ↦ (s, [], err not_found)
  | some rec ↦
      let emoji = slice 8 (or_text wanted "👍") in
      let reactions = with_reaction rec.reactions emoji in
      let (t, updated) = update_by_id s now id λ c. record c { reactions = reactions } in
      let doc = rec.document_id in
      (
        t,
        elim updated [ none ↦ [] | some c ↦ publish_room doc (room doc "comment:updated" c) ]
            ++ integration "comment.reacted" doc id ∷ metric "reacted" ∷ [],
        ok updated,
      )
]

abbrev pub set_moderation : State → ℕ → String → String → Answer (Option Comment)
set_moderation s now id status =
    let (t, rec) = update_by_id s now id λ c. record c { moderation_status = status } in
    (t, [], ok rec)

abbrev pub approve : State → ℕ → String → Answer (Option Comment)
approve s now id = set_moderation s now id "approved"

abbrev pub reject : State → ℕ → String → Answer (Option Comment)
reject s now id = set_moderation s now id "rejected"

unfoldable pub assign : State → ℕ → String → Option String → Answer (Option Comment)
assign s now id body = elim (truthy body) [
  | none ↦ (s, [], err missing_assignee)
  | some assignee ↦
      let (t, rec) =
        update_by_id s now id
          λ c. record c { assignee_id = some assignee; moderation_status = "approved" } in
      (t, [], ok rec)
]

unfoldable pub escalate : State → ℕ → String → Answer (Option Comment)
escalate s now id = elim (Map.get s.comments id) [
  | none ↦ (s, [], err not_found)
  | some rec ↦
      let priority = min 10 (rec.priority + 1) in
      let (t, updated) =
        update_by_id s now id λ c. record c { priority = priority; escalated_at = some now } in
      (t, [], ok updated)
]

-- `due`; `parse` is `new Date(…)`, which gives no time for a text that is no date.
unfoldable pub due :
    (String → Option ℕ) → State → ℕ → String → Option String → Answer (Option Comment)
due parse s now id body = elim (truthy body) [
  | none ↦ (s, [], err missing_due)
  | some text ↦ elim (parse text) [
    | none ↦ (s, [], err invalid_due)
    | some at ↦
        let (t, rec) = update_by_id s now id λ c. record c { due_at = some at } in (t, [], ok rec)
  ]
]
