-- ===== src/Access.antt =====
-- Who may act on a document or a workspace: api/src/documents/document.guard.ts,
-- api/src/workspaces/workspace.guard.ts, `hasDocAccess` of api/src/ws/ws.gateway.ts and
-- `canAccessDoc` of api/src/comments/comments.controller.ts.
-- The three database queries that these make are the parameter `Directory`. A role is the text that
-- the database holds; a role that a rank table lacks compares as JavaScript's `undefined` does.
pub mod Laws
pub mod Roles
mod Tests
use realtime_collaborative_e.Base.{
  ℕ, String, Bool, true, false, ◌&&◌, ◌||◌, not, Option, none, some, List, [], ◌∷◌, leb, ◌===◌,
  if◌then◌else◌, Result, ok, err, ◌>>=◌,
}

pub record Doc : Type 0 where
  pub owner_id : String
  pub workspace_id : String

-- `DocumentRepository.findById`, `DocumentPermissionRepository.find` and
-- `WorkspaceMemberRepository.findRole`, the latter two with the role of the record found.
pub record Directory : Type 0 where
  pub find_by_id : String → Option Doc
  pub find_perm : String → String → Option String
  pub find_role : String → String → Option String

pub record Share : Type 0 where
  pub document_id : String
  pub role : String

-- `req.user`; a guest has a share. The identifier of a signed-in user is an object of the database
-- (`_id`), that of a guest a text. Either is written here as its text, which is what the queries
-- compare; but JavaScript's `===` finds no text equal to an object.
pub record User : Type 0 where
  pub id : String
  pub is_object : Bool
  pub share : Option Share

pub record Request : Type 0 where
  pub user : Option User
  pub id_param : Option String
  pub document_id_param : Option String

-- A text that JavaScript takes for true.
abbrev pub truthy : Option String → Option String
truthy none = none
truthy (some s) = if s === "" then none else some s

-- `a || b`
abbrev pub or_else : Option String → Option String → Option String
or_else a b = elim (truthy a) [ none ↦ b | some s ↦ some s ]

pub data Forbidden : Type 0 where
  not_authenticated share_insufficient document_not_found not_member insufficient : Forbidden

-- An entry of `security.permission.denied`, by its `reason`.
pub data Denial : Type 0 where
  share_insufficient_role unknown_document no_workspace_membership insufficient_role : Denial
  no_membership workspace_role : Denial

-- What the guard writes to the audit log, and its answer.
abbrev pub Outcome : Type 0
Outcome = List Denial × Result Forbidden (Unit {0})

-- `rank[role]` of the document roles.
pub rank : String → Option ℕ
rank role =
    if role === "viewer"
    then some 1
    else if role === "editor"
    then some 2
    else if role === "owner"
    then some 3
    else none

-- `a >= b` on numbers that may be `undefined`.
abbrev pub at_least : Option ℕ → Option ℕ → Bool
at_least (some a) (some b) = leb b a
at_least _ _ = false

-- The document role that a workspace role stands for.
pub mapped : String → String
mapped ws_role =
    if ws_role === "viewer" then "viewer" else if ws_role === "editor" then "editor" else "owner"

abbrev pub covers : Option String → String → Bool
covers none required = false
covers (some role) required = at_least (rank role) (rank required)

-- `req.user.share && String(req.user.share.documentId) === String(docId)`
abbrev pub bound_share : Option Share → String → Option String
bound_share none doc_id = none
bound_share (some s) doc_id = if s.document_id === doc_id then some s.role else none

abbrev pub required_role : Option String → String
required_role meta = elim (truthy meta) [ none ↦ "viewer" | some r ↦ r ]

-- `(req.params as any)?.id || (req.params as any)?.documentId`
abbrev pub doc_param : Request → Option String
doc_param req = truthy (or_else req.id_param req.document_id_param)

-- `req.user?.id`
abbrev pub user_id : Option User → Option String
user_id none = none
user_id (some u) = truthy (some u.id)

-- Whether `req.user.id` is an object.
abbrev pub user_is_object : Option User → Bool
user_is_object none = false
user_is_object (some u) = u.is_object

abbrev pub user_share : Option User → Option Share
user_share none = none
user_share (some u) = u.share

-- `doc || found`
abbrev pub doc_or : Option Doc → Option Doc → Option Doc
doc_or none found = found
doc_or (some d) found = some d

module _ (dir : Directory) where
  -- The part of `canActivate` behind the ownership test.
  pub inherited : String → String → String → Doc → Outcome
  inherited required user doc_id doc =
      if covers (dir.find_perm doc_id user) required
      then ([], ok tt)
      else elim (dir.find_role doc.workspace_id user) [
        | none ↦ (no_workspace_membership ∷ [], err not_member)
        | some ws_role ↦
            if at_least (rank (mapped ws_role)) (rank required)
            then ([], ok tt)
            else (insufficient_role ∷ [], err insufficient)
      ]

  pub check_document : String → String → Bool → String → Outcome
  unfolding inherited
  check_document required user is_object doc_id = elim (dir.find_by_id doc_id) [
    | none ↦ (unknown_document ∷ [], err document_not_found)
    | some doc ↦
        if not is_object && (doc.owner_id === user)
        then ([], ok tt)
        else inherited required user doc_id doc
  ]

  -- `DocumentGuard.canActivate`; the first argument is the metadata `document:role`.
  pub can_activate : Option String → Request → Outcome
  unfolding check_document
  can_activate meta req = elim (user_id req.user) [
    | none ↦ ([], err not_authenticated)
    | some user ↦ elim (doc_param req) [
      | none ↦ ([], ok tt)
      | some doc_id ↦ elim (bound_share (user_share req.user) doc_id) [
        | some share_role ↦
            if at_least (rank share_role) (rank (required_role meta))
            then ([], ok tt)
            else (share_insufficient_role ∷ [], err share_insufficient)
        | none ↦ check_document (required_role meta) user (user_is_object req.user) doc_id
      ]
    ]
  ]

  -- `WsGateway.hasDocAccess`; the last argument is the document that the caller already has.
  pub has_doc_access : String → String → String → Option Doc → Bool
  has_doc_access user doc_id role given = elim (doc_or given (dir.find_by_id doc_id)) [
    | none ↦ false
    | some d ↦
        if d.owner_id === user
        then true
        else if covers (dir.find_perm doc_id user) role
        then true
        else elim (dir.find_role d.workspace_id user) [
          | none ↦ false
          | some ws_role ↦ at_least (rank (mapped ws_role)) (rank role)
        ]
  ]

  -- `CommentsController.canAccessDoc`
  pub can_access_doc : String → String → Bool
  can_access_doc user doc_id = elim (dir.find_by_id doc_id) [
    | none ↦ false
    | some d ↦ if d.owner_id === user then true else elim (dir.find_perm doc_id user) [
      | some _ ↦ true
      | none ↦ elim (dir.find_role d.workspace_id user) [ none ↦ false | some _ ↦ true ]
    ]
  ]

-- `rank[role]` of the workspace roles.
pub workspace_rank : String → Option ℕ
workspace_rank role =
    if role === "viewer"
    then some 1
    else if role === "editor"
    then some 2
    else if role === "admin"
    then some 3
    else if role === "owner"
    then some 4
    else none

pub record WorkspaceRequest : Type 0 where
  pub params_id : Option String
  pub body_id : Option String
  pub query_id : Option String
  pub user : Option User

-- `WorkspaceGuard.canActivate`
pub can_activate_workspace : Directory → Option String → WorkspaceRequest → Outcome
can_activate_workspace dir meta req =
    elim (truthy (or_else (or_else req.params_id req.body_id) req.query_id)) [
      | none ↦ ([], ok tt)
      | some ws_id ↦ elim (user_id req.user) [
        | none ↦ ([], err not_authenticated)
        | some user ↦ elim (dir.find_role ws_id user) [
          | none ↦ (no_membership ∷ [], err not_member)
          | some role ↦
              if at_least (workspace_rank role) (workspace_rank (required_role meta))
              then ([], ok tt)
              else (workspace_role ∷ [], err insufficient)
        ]
      ]
    ]
