-- ===== src/Documents/Library.antt =====
-- The documents of a workspace: `create`, `list`, `update` and `softDelete` of
-- api/src/documents/documents.service.ts, with `listByWorkspace` and `countByWorkspace` of
-- api/src/database/repositories/document.repo.ts; and the permissions on them, with
-- api/src/database/repositories/document-permission.repo.ts.
-- The records are a map by identifier; `matches` is the database's test of a query on a record. The
-- commands succeed. A cached list is stored as its JSON text, here as itself.
pub mod Fresh
use Prim.Native.String
use realtime_collaborative_e.Base.{
  ℕ, String, Bool, true, false, ◌&&◌, not, Option, none, some, List, [], ◌∷◌, filter, length, leb,
  ◌==◌, ◌===◌, if◌then◌else◌, Result, ok, err,
}
use realtime_collaborative_e.Base.Map
use realtime_collaborative_e.Base.Map.{Map}
use realtime_collaborative_e.Redis.{KeyStore}

pub record Record : Type 0 where
  pub id : String
  pub workspace_id : String
  pub owner_id : String
  pub title : String
  pub status : String
  pub tags : List String
  pub deleted_at : Option ℕ
  pub updated_at : ℕ

pub record CreateInput : Type 0 where
  pub workspace_id : String
  pub owner_id : String
  pub title : String

-- The fields that an update gives.
pub record UpdateInput : Type 0 where
  pub title : Option String
  pub status : Option String
  pub tags : Option (List String)

pub data Refusal : Type 0 where
  limit_reached not_found : Refusal

-- `opts` of a listing
pub record Query : Type 0 where
  pub q : Option String
  pub tag : Option String

-- The settings of a workspace, as far as they are read: `maxDocuments`.
pub record Outside : Type 0 where
  pub max_documents : String → Option ℕ
  pub matches : Query → Record → Bool

pub record Library (lists : KeyStore (List Record)) : Type 0 where
  pub docs : Map Record
  pub cache : lists.Store

-- `docs:ws:…`
abbrev pub list_key : String → String
list_key ws = String.◌++◌ "docs:ws:" ws

abbrev pub values : Map Record → List Record
values [] = []
values ((_, d) ∷ m) = d ∷ values m

-- The query of both repository calls.
abbrev pub in_workspace : String → Record → Bool
in_workspace ws d = (d.workspace_id === ws) && not (d.status === "deleted")

-- `sort({ updatedAt: -1 })`
abbrev pub insert_latest : Record → List Record → List Record
insert_latest d [] = d ∷ []
insert_latest d (e ∷ l) =
    let rest = insert_latest d l in if leb e.updated_at d.updated_at then d ∷ e ∷ l else e ∷ rest

abbrev pub sort_latest : List Record → List Record
sort_latest [] = []
sort_latest (d ∷ l) = insert_latest d (sort_latest l)

unfoldable pub current : Map Record → String → List Record
current docs ws = sort_latest (filter (in_workspace ws) (values docs))

abbrev pub count_by_workspace : Map Record → String → ℕ
count_by_workspace docs ws = length (filter (in_workspace ws) (values docs))

abbrev pub truthy : Option String → Bool
truthy none = false
truthy (some s) = not (s === "")

abbrev pub given {ℓ} : {A : Type ℓ} → Option A → A → A
given none a = a
given (some b) a = b

module _ (lists : KeyStore (List Record)) (o : Outside) where
  -- Whether the limit of a workspace is reached; a limit of 0 is none.
  abbrev pub is_full : Map Record → String → Bool
  is_full docs ws = elim (o.max_documents ws) [
    | none ↦ false
    | some n ↦ not (n == 0) && leb n (count_by_workspace docs ws)
  ]

  abbrev pub new_record : ℕ → String → CreateInput → Record
  new_record now id input = record {
    id = id;
    workspace_id = input.workspace_id;
    owner_id = input.owner_id;
    title = input.title;
    status = "active";
    tags = [];
    deleted_at = none;
    updated_at = now;
  }

  -- What every write does: the record is stored, and the cached list of its workspace dropped.
  abbrev pub put : Library lists → Record → Library lists
  put s d = record {
    docs = Map.set s.docs d.id d;
    cache = lists.del s.cache (list_key d.workspace_id);
  }

  -- `create`; `id` is what the database draws.
  abbrev pub create :
      Library lists → ℕ → String → CreateInput → Library lists × Result Refusal Record
  create s now id input =
      let d = new_record now id input in
      if is_full s.docs input.workspace_id then (s, err limit_reached) else (put s d, ok d)

  -- `list`
  abbrev pub list : Library lists → ℕ → String → Query → Library lists × List Record
  list s now ws query =
      let l = current s.docs ws in
      let cached : Library lists × List Record = elim (lists.get s.cache now (list_key ws)) [
        | none ↦ (record s { cache = lists.set_ex s.cache now (list_key ws) l 30000 }, l)
        | some found ↦ (s, found)
      ] in
      if truthy query.q
      then (s, filter (o.matches query) l)
      else if truthy query.tag
      then (s, filter (o.matches query) l)
      else cached

  abbrev pub updated : ℕ → UpdateInput → Record → Record
  updated now input d = record d {
    title = given input.title d.title;
    status = given input.status d.status;
    tags = given input.tags d.tags;
    updated_at = now;
  }

  -- `update` and `softDelete`, by what they change of a record; neither changes its identifier or
  -- its workspace.
  abbrev pub change :
      Library lists → String → (Record → Record) → Library lists × Result Refusal Record
  change s id f = elim (Map.get s.docs id) [
    | none ↦ (s, err not_found)
    | some d ↦
        let e : Record = record (f d) { id = id; workspace_id = d.workspace_id } in (put s e, ok e)
  ]

  abbrev pub update :
      Library lists → ℕ → String → UpdateInput → Library lists × Result Refusal Record
  update s now id input = change s id (updated now input)

  abbrev pub deleted : ℕ → Record → Record
  deleted now d = record d { status = "deleted"; deleted_at = some now; updated_at = now }

  abbrev pub soft_delete : Library lists → ℕ → String → Library lists × Result Refusal Record
  soft_delete s now id = change s id (deleted now)

-- The permissions on documents: the role under the document and the user.
pub record Grants : Type 0 where
  pub document_id : String
  pub user_id : String
  pub role : String

-- `DocumentPermissionRepository.upsert`
abbrev pub upsert : List Grants → String → String → String → List Grants
upsert [] doc user role = record { document_id = doc; user_id = user; role = role } ∷ []
upsert (g ∷ gs) doc user role =
    let rest = upsert gs doc user role in
    if (g.document_id === doc) && (g.user_id === user)
    then record g { role = role } ∷ gs
    else g ∷ rest

-- A text that JavaScript takes for true.
abbrev or_none : Option String → Option String
or_none none = none
or_none (some s) = if s === "" then none else some s

-- `addPermission`; `find_by_email` gives the identifier of a user. The address is in lower case and
-- trimmed.
abbrev pub add_permission :
    (String → Option String)
    → List Grants
    → String
    → Option String
    → Option String
    → String
    → Result Refusal (List Grants)
add_permission find_by_email gs doc user_id email role =
    let found : Result Refusal (List Grants) = elim (or_none email) [
      | none ↦ err not_found
      | some e ↦ elim (find_by_email e) [
        | none ↦ err not_found
        | some u ↦ ok (upsert gs doc u role)
      ]
    ] in
    elim (or_none user_id) [ none ↦ found | some u ↦ ok (upsert gs doc u role) ]

-- `removePermission`
abbrev pub remove_permission : List Grants → String → String → List Grants
remove_permission [] doc user = []
remove_permission (g ∷ gs) doc user =
    let rest = remove_permission gs doc user in
    if (g.document_id === doc) && (g.user_id === user) then gs else g ∷ rest
