-- ===== src/Access/Roles.antt =====
-- How the answers of the checks depend on the roles, and what a refusal leaves in the audit log.
use realtime_collaborative_e.Base.{
  ℕ, Bool, String, ◌≡◌, ◌≢◌, ◌↔◌, inl, inr, true, Option, none, some, ok, err, arith, ◌===◌,
  Bool-cases, Option-cases, length,
}
use realtime_collaborative_e.Access.{
  Directory, Request, Outcome, truthy, or_else, rank, at_least, mapped, covers, bound_share,
  required_role, doc_param, user_id, user_is_object, user_share, inherited, check_document,
  can_activate, has_doc_access, can_access_doc, workspace_rank, WorkspaceRequest,
  can_activate_workspace,
}
use realtime_collaborative_e.Access.Laws.{IsAllowed, Covers}

at_least_trans :
    (a b c : Option ℕ) → at_least a b ≡ true → at_least b c ≡ true → at_least a c ≡ true
at_least_trans (some a) (some b) (some c) h k = ground arith
at_least_trans none _ _ h k = cc
at_least_trans (some a) none _ h k = cc
at_least_trans (some a) (some b) none h k = cc

covers_trans :
    (held : Option String) (r r' : String)
    → covers held r ≡ true
    → Covers r r'
    → covers held r' ≡ true
covers_trans none r r' h k = cc
covers_trans (some role) r r' h k = at_least_trans (rank role) (rank r) (rank r') h k

check_document-weaken :
    (dir : Directory) (user doc_id r r' : String) (is_object : Bool)
    → Covers r r'
    → IsAllowed (check_document dir r user is_object doc_id)
    → IsAllowed (check_document dir r' user is_object doc_id)
unfolding check_document inherited
check_document-weaken dir user doc_id r r' is_object k h =
    elim (Option-cases (dir.find_by_id doc_id)) [
      | inl e ↦ absurd (ground arith)
      | inr (d, e) ↦
          let held = covers_trans (dir.find_perm doc_id user) r r' in
          elim (Option-cases (dir.find_role d.workspace_id user)) [
            | inl m ↦ ground (arith, held)
            | inr (role, m) ↦
                ground (arith, held, at_least_trans (rank (mapped role)) (rank r) (rank r'))
          ]
    ]

-- Whoever passes the document guard for a role, guest or user, passes it for every role below.
can_activate-weaken :
    (dir : Directory) (m m' : Option String) (req : Request)
    → Covers (required_role m) (required_role m')
    → IsAllowed (can_activate dir m req)
    → IsAllowed (can_activate dir m' req)
unfolding can_activate
can_activate-weaken dir m m' req k h = elim (Option-cases (user_id req.user)) [
  | inl u ↦ absurd (ground arith)
  | inr (user, u) ↦ elim (Option-cases (doc_param req)) [
    | inl d ↦ rw (u, d, can_activate)
    | inr (doc_id, d) ↦ elim (Option-cases (bound_share (user_share req.user) doc_id)) [
      | inl s ↦
          rw (u, d, s, can_activate)
            (check_document-weaken dir user doc_id (required_role m) (required_role m')
              (user_is_object req.user) k (rw (u, d, s, can_activate) at h))
      | inr (role, s) ↦
          ground
            (arith, at_least_trans (rank role) (rank (required_role m)) (rank (required_role m')))
    ]
  ]
]

mapped-Covers : (role : String) → Covers (mapped role) "viewer"
unfolding rank mapped
mapped-Covers role = elim (Bool-cases (role === "viewer")) [
  | inl v ↦ rw (v, mapped)
  | inr v ↦ elim (Bool-cases (role === "editor")) [
    | inl e ↦ rw (v, e, mapped)
    | inr e ↦ rw (v, e, mapped)
  ]
]

rank-Covers : (role : String) → rank role ≢ none → Covers role "viewer"
unfolding rank
rank-Covers role h = ground arith

-- The comment controller lets in exactly the users whom the gateway lets in as viewers, provided
-- that a permission on the document, if the user has one, holds a known role.
can_access_doc-eq-has_doc_access :
    (dir : Directory) (user doc_id : String)
    → ((role : String) → dir.find_perm doc_id user ≡ some role → rank role ≢ none)
    → can_access_doc dir user doc_id ≡ has_doc_access dir user doc_id "viewer" none
unfolding has_doc_access can_access_doc
can_access_doc-eq-has_doc_access dir user doc_id known =
    elim (Option-cases (dir.find_by_id doc_id)) [
      | inl e ↦ ground arith
      | inr (d, e) ↦ elim (Option-cases (dir.find_perm doc_id user)) [
        | inr (role, p) ↦ ground (arith, rank-Covers role (known role p))
        | inl p ↦ elim (Option-cases (dir.find_role d.workspace_id user)) [
          | inl m ↦ ground arith
          | inr (role, m) ↦ ground (arith, mapped-Covers role)
        ]
      ]
    ]

-- The workspace guard, on a request that names a workspace, passes exactly the signed-in members
-- whose role ranks at least the required one.
can_activate_workspace_iff :
    (dir : Directory) (meta : Option String) (req : WorkspaceRequest) (ws_id : String)
    → truthy (or_else (or_else req.params_id req.body_id) req.query_id) ≡ some ws_id
    → IsAllowed (can_activate_workspace dir meta req) ↔ (
        (user : String) × (role : String) × (user_id req.user ≡ some user)
        × (dir.find_role ws_id user ≡ some role)
        × (at_least (workspace_rank role) (workspace_rank (required_role meta)) ≡ true))
unfolding can_activate_workspace
can_activate_workspace_iff dir meta req ws_id w =
    rw (w, can_activate_workspace)
      (
        λ h. elim (Option-cases (user_id req.user)) [
          | inl u ↦ absurd (ground arith)
          | inr (user, u) ↦ elim (Option-cases (dir.find_role ws_id user)) [
            | inl m ↦ absurd (ground arith)
            | inr (role, m) ↦ (user, role, u, m, ground arith)
          ]
        ],
        λ (user, role, u, m, c). rw (u, m, c),
      )

abbrev IsAudited : Outcome → Type 0
IsAudited o = length o.0 ≡ (elim o.1 [ ok _ ↦ 0 | err _ ↦ 1 ])

check_document-IsAudited :
    (dir : Directory) (user doc_id required : String) (is_object : Bool)
    → IsAudited (check_document dir required user is_object doc_id)
unfolding check_document
check_document-IsAudited dir user doc_id required is_object = ground arith

-- A refusal of a request whose sender and document are known leaves one entry in the audit log, and
-- a request that passes leaves none.
can_activate_audits :
    (dir : Directory) (meta : Option String) (req : Request) (user : String)
    → user_id req.user ≡ some user
    → length (can_activate dir meta req).0
      ≡ (elim (can_activate dir meta req).1 [ ok _ ↦ 0 | err _ ↦ 1 ])
unfolding can_activate
can_activate_audits dir meta req user u = elim (Option-cases (doc_param req)) [
  | inl d ↦ rw (u, d, can_activate)
  | inr (doc_id, d) ↦ elim (Option-cases (bound_share (user_share req.user) doc_id)) [
    | inl s ↦
        rw (u, d, s, can_activate)
          (check_document-IsAudited dir user doc_id (required_role meta) (user_is_object req.user))
    | inr (role, s) ↦ rw (u, d, s, can_activate) (ground arith)
  ]
]
