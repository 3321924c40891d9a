-- ===== src/Comments/Threads.antt =====
-- The comments and replies that api/src/comments/comments.controller.ts creates, and whom they
-- notify.
pub mod Notified
use Prim.Native.String
use realtime_collaborative_e.Base.{
  or_text, filter, ℕ, String, Bool, true, false, not, Option, none, some, List, [], ◌∷◌, ◌++◌, map,
  ◌===◌, if◌then◌else◌, Result, ok, err,
}
use realtime_collaborative_e.Base.Map
use realtime_collaborative_e.Base.Set
use realtime_collaborative_e.Access.{truthy, can_access_doc}
use realtime_collaborative_e.Comments.Text.{addresses, slice, guest_id}
use realtime_collaborative_e.Comments.Score.{simple_sentiment, simple_quality}
use realtime_collaborative_e.Comments.{
  Anchor, Comment, Body, Author, Notification, Publication, room, notify, integration, metric,
  missing_fields, State, Answer, Services, given, update_by_id, publish_room, user_text,
}
use realtime_collaborative_e.Comments.Changes.{anchor_of}

abbrev pub is_guest : Option Author → Bool
is_guest none = false
is_guest (some a) = a.guest

-- `resolveAuthorId`
unfoldable pub resolve_author_id : Option Author → String
resolve_author_id none = ""
resolve_author_id (some a) = if a.guest then guest_id (or_text a.share_token "guest") else a.id

-- The fields that the schema fills in.
abbrev pub new_comment : String → ℕ → String → String → String → Comment
new_comment id now document_id author_id text = record {
  id = id;
  document_id = document_id;
  author_id = author_id;
  parent_id = none;
  thread_id = none;
  text = text;
  status = "open";
  tags = [];
  priority = 0;
  resolved_at = none;
  deleted_at = none;
  anchor = none;
  reactions = [];
  moderation_status = "pending";
  assignee_id = none;
  due_at = none;
  escalated_at = none;
  sentiment = none;
  quality = none;
  updated_at = now;
}

module _ (v : Services) where
  -- The second loop of `extractMentions`, over the set of addresses.
  unfoldable pub users_of : List String → String → List String
  users_of [] document_id = []
  users_of (email ∷ emails) document_id =
      let rest = users_of emails document_id in
      elim (v.find_by_email email) [
        | none ↦ rest
        | some u ↦ if can_access_doc v.directory u document_id then u ∷ rest else rest
      ]

  -- `extractMentions`
  unfoldable pub extract_mentions : String → String → List String
  extract_mentions text document_id =
      users_of (Set.from (map v.to_lower_case (addresses text))) document_id

-- What one notification of a comment holds; the published one has less of the text.
abbrev pub notification : String → Comment → String → Option Author → String → Notification
notification type c thread_id user to = record {
  user_id = to;
  type = type;
  document_id = c.document_id;
  comment_id = c.id;
  thread_id = thread_id;
  by = elim user [ none ↦ none | some a ↦ some a.id ];
  text = slice 200 c.text;
}

-- The loop over the users mentioned.
unfoldable pub notify_each :
    State → String → Comment → String → Option Author → List String → State × List Publication
notify_each s type c thread_id user [] = (s, [])
notify_each s type c thread_id user (uid ∷ uids) =
    let n = notification type c thread_id user uid in
    let told = record s { notifications = s.notifications ++ n ∷ [] } in
    let (t, ps) = notify_each told type c thread_id user uids in
    let skipped = notify_each s type c thread_id user uids in
    let sent = notify (record n { text = slice 120 c.text }) in
    if uid === user_text user then skipped else (t, sent ∷ ps)

abbrev pub store : State → Comment → State
store s c = record s { comments = Map.set s.comments c.id c }

module _ (v : Services) where
  -- What follows the creation: the notifications, unless the author is a guest, and the messages.
  unfoldable pub announce :
      State
      → String
      → Comment
      → String
      → Option Author
      → Publication
      → Publication
      → State × List Publication
  announce s type c thread_id user event counted =
      let told = notify_each s type c thread_id user (extract_mentions v c.text c.document_id) in
      let (t, ps) = if is_guest user then (s, []) else told in
      (
        t,
        ps
            ++ publish_room c.document_id (room c.document_id "comment:created" c)
            ++ event ∷ counted ∷ [],
      )

  abbrev pub comment_of : String → ℕ → Option Author → Body → String → String → Comment
  comment_of id now user body document_id text =
      let c = new_comment id now document_id (resolve_author_id user) text in
      let common : Comment = record c {
        status = or_text body.status "open";
        tags = given body.tags [];
        priority = body.priority;
      } in
      elim (truthy body.parent_id) [
        | none ↦ record common {
          anchor = elim body.anchor [ none ↦ none | some a ↦ some (anchor_of a) ];
        }
        | some parent ↦ record common {
          parent_id = some parent;
          thread_id = some (or_text body.thread_id parent);
        }
      ]

  -- The scores, stored in a second command.
  abbrev pub scored : State → ℕ → String → String → State
  scored s now id text =
      (update_by_id s now id λ c. record c {
        sentiment = some (simple_sentiment (v.to_lower_case text));
        quality = some (simple_quality text);
      }).0

  -- `create`; `id` is the identifier that the database draws.
  unfoldable pub create : State → ℕ → String → Body → Option Author → Answer Comment
  create s now id body user = elim (truthy body.document_id) [
    | none ↦ (s, [], err missing_fields)
    | some document_id ↦ elim (truthy body.text) [
      | none ↦ (s, [], err missing_fields)
      | some text ↦
          let saved = comment_of id now user body document_id text in
          let type : String = elim (truthy body.parent_id) [
            | none ↦ "mention"
            | some _ ↦ "reply"
          ] in
          let (t, ps) =
            announce (scored (store s saved) now id text) type saved (or_text saved.thread_id id)
              user (integration "comment.created" document_id id) (metric "created") in
          (t, ps, ok saved)
    ]
  ]

  -- `reply`, for a body with a document
  unfoldable pub reply :
      State → ℕ → String → String → String → Body → Option Author → Answer Comment
  reply s now id parent document_id body user = elim (truthy body.text) [
    | none ↦ (s, [], err missing_fields)
    | some text ↦
        let thread = or_text body.thread_id parent in
        let c = new_comment id now document_id (resolve_author_id user) text in
        let rec : Comment = record c { parent_id = some parent; thread_id = some thread } in
        let (t, ps) =
          announce (store s rec) "reply" rec thread user
            (integration "comment.reply" document_id id) (metric "replied") in
        (t, ps, ok rec)
  ]

-- What a search for users gives.
pub record Person : Type 0 where
  pub id : String
  pub email : String
  pub name : Option String

-- `mentionSearch`; `search` is `this.users.search`.
abbrev pub mention_search :
    Services → (String → ℕ → List Person) → Option String → Option String → List Person
mention_search v search q document_id =
    let found = search (or_text q "") 10 in
    elim (truthy document_id) [
      | none ↦ found
      | some id ↦ filter (λ u. can_access_doc v.directory u.id id) found
    ]
