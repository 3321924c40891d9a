-- ===== src/Comments.antt =====
-- The comments: api/src/comments/comments.controller.ts, on
-- api/src/database/repositories/comment.repo.ts and its schema. The collection is a map by
-- identifier; identifiers are well-formed, and the commands of the database and of Redis succeed.
-- A number in a request is not negative. What is published is a list, with each payload's fields.
pub mod Text
pub mod Changes
pub mod Score
pub mod Threads
pub mod Owners
pub mod Scales
mod Tests
use Prim.Native.String
use realtime_collaborative_e.Base.{
  or_text, int32, ℕ, ◌+◌, ◌*◌, ◌%◌, ◌^◌, min, max, String, Bool, true, false, not, Option, none,
  some, List, [], ◌∷◌, ◌++◌, ltb, leb, ◌==◌, ◌===◌, if◌then◌else◌, Result, ok, err,
}
use realtime_collaborative_e.Base.Map
use realtime_collaborative_e.Base.Map.{Map}
use realtime_collaborative_e.Base.Set
use realtime_collaborative_e.Access.{Directory, truthy, can_access_doc}
use realtime_collaborative_e.Comments.Text.{slice}
use realtime_collaborative_e.Comments.Score.{Sentiment}

pub record Anchor : Type 0 where
  pub from : ℕ
  pub to : ℕ
  pub vector_b64 : Option String

-- `CommentDoc`
pub record Comment : Type 0 where
  pub id : String
  pub document_id : String
  pub author_id : String
  pub parent_id : Option String
  pub thread_id : Option String
  pub text : String
  pub status : String
  pub tags : List String
  pub priority : ℕ
  pub resolved_at : Option ℕ
  pub deleted_at : Option ℕ
  pub anchor : Option Anchor
  pub reactions : Map ℕ
  pub moderation_status : String
  pub assignee_id : Option String
  pub due_at : Option ℕ
  pub escalated_at : Option ℕ
  pub sentiment : Option Sentiment
  pub quality : Option ℕ
  pub updated_at : ℕ

-- The body of a `PATCH`: a field that is absent stays as it is.
pub record Patch : Type 0 where
  pub document_id : Option String
  pub author_id : Option String
  pub parent_id : Option String
  pub thread_id : Option String
  pub text : Option String
  pub status : Option String
  pub tags : Option (List String)
  pub priority : Option ℕ
  pub resolved_at : Option ℕ
  pub deleted_at : Option ℕ
  pub anchor : Option Anchor
  pub reactions : Option (Map ℕ)
  pub moderation_status : Option String
  pub assignee_id : Option String
  pub due_at : Option ℕ
  pub escalated_at : Option ℕ
  pub sentiment : Option Sentiment
  pub quality : Option ℕ

-- The body of a comment or a reply.
pub record Body : Type 0 where
  pub document_id : Option String
  pub text : Option String
  pub parent_id : Option String
  pub thread_id : Option String
  pub status : Option String
  pub tags : Option (List String)
  pub priority : ℕ
  pub anchor : Option Anchor

-- `req.user`; a guest has the token of a share.
pub record Author : Type 0 where
  pub id : String
  pub guest : Bool
  pub share_token : Option String

-- `NotificationDoc`, with the fields of `data`
pub record Notification : Type 0 where
  pub user_id : String
  pub type : String
  pub document_id : String
  pub comment_id : String
  pub thread_id : String
  pub by : Option String
  pub text : String

pub data Publication : Type 0 where
  -- a message on `ws:room:…` with the comment, or with its identifier alone
  room : String → String → Comment → Publication
  room_id : String → String → String → Publication
  -- a message on `ws:notify`
  notify : Notification → Publication
  -- a message on `integrations:comments`, with the identifier of the comment
  integration : String → String → String → Publication
  -- `INCR metrics:comments:…`
  metric : String → Publication

pub data Refusal : Type 0 where
  missing_fields not_found not_owner missing_anchor missing_assignee missing_due invalid_due :
      Refusal

pub record State : Type 0 where
  pub comments : Map Comment
  pub notifications : List Notification

abbrev pub Answer : Type 0 → Type 0
Answer A = State × List Publication × Result Refusal A

-- `this.users.findByEmail`, with the identifier of the user, `toLowerCase`, and the access queries.
pub record Services : Type 0 where
  pub directory : Directory
  pub find_by_email : String → Option String
  pub to_lower_case : String → String

abbrev pub given {ℓ} : {A : Type ℓ} → Option A → A → A
given none a = a
given (some b) a = b

abbrev pub kept {ℓ} : {A : Type ℓ} → Option A → Option A → Option A
kept none a = a
kept (some b) a = some b

-- `findByIdAndUpdate(id, data, { new: true })`
abbrev pub update_found :
    State → ℕ → String → (Comment → Comment) → Option Comment → State × Option Comment
update_found s now id change none = (s, none)
update_found s now id change (some c) =
    let d : Comment = record (change c) { updated_at = now } in
    (record s { comments = Map.set s.comments id d }, some d)

unfoldable pub update_by_id : State → ℕ → String → (Comment → Comment) → State × Option Comment
update_by_id s now id change = update_found s now id change (Map.get s.comments id)

-- `String(rec?.documentId || '')`
abbrev pub document_of : Option Comment → String
document_of none = ""
document_of (some c) = c.document_id

-- `publishRoom`
abbrev pub publish_room : String → Publication → List Publication
publish_room document_id p = if document_id === "" then [] else p ∷ []

-- `publishRoom` with the record of an update
abbrev pub publish_comment : Option Comment → String → List Publication
publish_comment none type = []
publish_comment (some c) type = publish_room c.document_id (room c.document_id type c)

abbrev pub patched : Patch → Comment → Comment
patched p c = record {
  id = c.id;
  document_id = given p.document_id c.document_id;
  author_id = given p.author_id c.author_id;
  parent_id = kept p.parent_id c.parent_id;
  thread_id = kept p.thread_id c.thread_id;
  text = given p.text c.text;
  status = given p.status c.status;
  tags = given p.tags c.tags;
  priority = given p.priority c.priority;
  resolved_at = kept p.resolved_at c.resolved_at;
  deleted_at = kept p.deleted_at c.deleted_at;
  anchor = kept p.anchor c.anchor;
  reactions = given p.reactions c.reactions;
  moderation_status = given p.moderation_status c.moderation_status;
  assignee_id = kept p.assignee_id c.assignee_id;
  due_at = kept p.due_at c.due_at;
  escalated_at = kept p.escalated_at c.escalated_at;
  sentiment = kept p.sentiment c.sentiment;
  quality = kept p.quality c.quality;
  updated_at = c.updated_at;
}

-- `String(req.user?.id)`
abbrev pub user_text : Option Author → String
user_text none = "undefined"
user_text (some a) = a.id
