-- ===== src/Comments/Tests.antt =====
-- Comments over concrete services.
use realtime_collaborative_e.Base.{
  ◌≡◌, refl, false, none, some, List, [], ◌∷◌, ◌++◌, All, ◌===◌, if◌then◌else◌, or_text,
}
use realtime_collaborative_e.Base.Map
use realtime_collaborative_e.Access.{Directory}
use realtime_collaborative_e.Comments.{Comment, Patch, Body, Author, Notification, State, Services}
use realtime_collaborative_e.Comments.Changes.{update}
use realtime_collaborative_e.Comments.Threads.{new_comment, create}
use realtime_collaborative_e.Comments.Threads.Notified.{Addressed, create-Addressed}
use realtime_collaborative_e.Comments.Owners.{update-moves}

-- A document of ann's in a workspace of bob's.
abbrev directory : Directory
directory = record {
  find_by_id = λ id. some (record { owner_id = "ann"; workspace_id = "w" });
  find_perm = λ id user. none;
  find_role = λ ws user. if user === "bob" then some "viewer" else none;
}

abbrev services : Services
services = record {
  directory = directory;
  find_by_email = λ email. if email === "bob@x.org" then some "bob" else some "eve";
  to_lower_case = λ s. s;
}

abbrev empty : State
empty = record { comments = []; notifications = [] }

abbrev ann : Author
ann = record { id = "ann"; guest = false; share_token = none }

abbrev body : Body
body = record {
  document_id = some "doc";
  text = some "@bob@x.org @eve@x.org";
  parent_id = none;
  thread_id = none;
  status = none;
  tags = none;
  priority = 0;
  anchor = none;
}

create-Addressed_example :
    (ns : List Notification) × ((create services empty 5 "c1" body (some ann)).0.notifications
      ≡ [] ++ ns)
    × All (Addressed services (or_text (some "doc") "") (some ann)) ns
create-Addressed_example = create-Addressed services empty 5 "c1" body (some ann)

abbrev comment : Comment
comment = new_comment "c1" 5 "doc" "ann" "hello"

abbrev held : State
held = record { comments = ("c1", comment) ∷ []; notifications = [] }

abbrev handed_over : Patch
handed_over = record {
  document_id = some "other";
  author_id = some "eve";
  parent_id = none;
  thread_id = none;
  text = none;
  status = none;
  tags = none;
  priority = none;
  resolved_at = none;
  deleted_at = none;
  anchor = none;
  reactions = none;
  moderation_status = none;
  assignee_id = none;
  due_at = none;
  escalated_at = none;
  sentiment = none;
  quality = none;
}

there : Map.get held.comments "c1" ≡ some comment
unfolding Map.get
there = refl

update-moves_example :
    (d : Comment) × (Map.get (update held 9 "c1" handed_over (some ann)).0.comments "c1" ≡ some d)
    × (d.author_id ≡ "eve")
    × (d.document_id ≡ "other")
    × (Map.get (update held 9 "c1" handed_over (some ann)).0.comments "c2"
        ≡ (if "c1" === "c2" then some d else Map.get held.comments "c2"))
update-moves_example =
    update-moves held 9 "c1" "c2" handed_over (some ann) comment "eve" "other" there refl refl refl
