-- ===== src/Access/Tests.antt =====
-- The checks on one directory.
use realtime_collaborative_e.Base.{
  String, ◌≡◌, refl, ◌↔◌, ◌⊎◌, ◌∷◌, err, inl, ◌≢◌, true, none, some, [], ok, ◌===◌, if◌then◌else◌,
}
use realtime_collaborative_e.Access.{
  Directory, Request, no_workspace_membership, not_member, rank, mapped, inherited, check_document,
  can_activate, has_doc_access,
}
use realtime_collaborative_e.Access.Laws.{
  IsAllowed, Covers, Grants, Owns, can_activate-iff-Grants, has_doc_access-iff-can_activate,
}

-- "ann" owns the document, "bob" has a permission to read it, and "cat" edits in its workspace.
abbrev directory : Directory
directory = record {
  find_by_id =
      λ id. if id === "doc" then some (record { owner_id = "ann"; workspace_id = "ws" }) else none;
  find_perm = λ id user. if user === "bob" then some "viewer" else none;
  find_role = λ ws user. if user === "cat" then some "editor" else none;
}

abbrev request : String → Request
request user = record {
  user = some (record { id = user; is_object = true; share = none });
  id_param = some "doc";
  document_id_param = none;
}

can_activate-iff-Grants_example :
    IsAllowed (can_activate directory (some "editor") (request "cat"))
    ↔ Grants directory "cat" "doc" "editor"
can_activate-iff-Grants_example =
    can_activate-iff-Grants directory (some "editor") (request "cat") "cat" "doc" refl refl refl
      refl

has_doc_access-iff-can_activate_example :
    (has_doc_access directory "ann" "doc" "editor" none ≡ true) ↔ (
      IsAllowed (can_activate directory (some "editor") (request "ann"))
      ⊎ Owns directory "ann" "doc")
has_doc_access-iff-can_activate_example =
    has_doc_access-iff-can_activate directory (some "editor") (request "ann") "ann" "doc" none refl
      refl refl refl (inl refl)

-- The owner, who is in no workspace, is refused.
ann_refused :
    can_activate directory none (request "ann") ≡ (no_workspace_membership ∷ [], err not_member)
unfolding can_activate check_document inherited rank mapped
ann_refused = refl

bob_reads : can_activate directory none (request "bob") ≡ ([], ok tt)
unfolding can_activate check_document inherited rank mapped
bob_reads = refl

editor-Covers : Covers "editor" "viewer"
unfolding rank
editor-Covers = refl

cat_edits : IsAllowed (can_activate directory (some "editor") (request "cat"))
unfolding can_activate check_document inherited rank mapped
cat_edits = refl

known : (role : String) → directory.find_perm "doc" "bob" ≡ some role → rank role ≢ none
unfolding rank
known role e = cc
