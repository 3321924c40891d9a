-- ===== src/Access/Laws.antt =====
-- What the guards of `Access` decide, against a statement of the granting rules, and how the three
-- checks of a document agree.
use realtime_collaborative_e.Base.{
  [], refl, String, ◌≡◌, ◌↔◌, ◌⊎◌, inl, inr, true, Option, none, some, ok, arith, eq_iff, ◌===◌,
  Bool-cases, Option-cases,
}
use realtime_collaborative_e.Access.{
  Doc, Directory, Request, Outcome, rank, at_least, mapped, bound_share, required_role, doc_param,
  user_id, user_is_object, user_share, inherited, check_document, can_activate, has_doc_access,
}

abbrev pub IsAllowed : Outcome → Type 0
IsAllowed o = o.1 ≡ ok tt

-- A role that satisfies a requirement.
abbrev pub Covers : String → String → Type 0
Covers role required = at_least (rank role) (rank required) ≡ true

-- The rules by which the guard lets a signed-in user act on a document in a role.
pub data Grants (dir : Directory) (user doc_id required : String) : Type 0 where
  by_permission :
      (d : Doc) (role : String)
      → dir.find_by_id doc_id ≡ some d
      → dir.find_perm doc_id user ≡ some role
      → Covers role required
      → Grants dir user doc_id required
  by_membership :
      (d : Doc) (role : String)
      → dir.find_by_id doc_id ≡ some d
      → dir.find_role d.workspace_id user ≡ some role
      → Covers (mapped role) required
      → Grants dir user doc_id required

-- The documents that a user owns.
abbrev pub Owns : Directory → String → String → Type 0
Owns dir user doc_id = (d : Doc) × (dir.find_by_id doc_id ≡ some d) × (d.owner_id ≡ user)

inherited_sound :
    (dir : Directory) (user doc_id required : String) (d : Doc)
    → dir.find_by_id doc_id ≡ some d
    → IsAllowed (inherited dir required user doc_id d)
    → Grants dir user doc_id required
unfolding inherited
inherited_sound dir user doc_id required d found h =
    elim (Option-cases (dir.find_perm doc_id user)) [
      | inl p ↦ elim (Option-cases (dir.find_role d.workspace_id user)) [
        | inl m ↦ absurd (ground arith)
        | inr (role, m) ↦ by_membership d role found m (ground arith)
      ]
      | inr (held, p) ↦ elim (Bool-cases (at_least (rank held) (rank required))) [
        | inl c ↦ by_permission d held found p c
        | inr c ↦ elim (Option-cases (dir.find_role d.workspace_id user)) [
          | inl m ↦ absurd (ground arith)
          | inr (role, m) ↦ by_membership d role found m (ground arith)
        ]
      ]
    ]

inherited_complete :
    (dir : Directory) (user doc_id required : String) (d : Doc)
    → dir.find_by_id doc_id ≡ some d
    → Grants dir user doc_id required
    → IsAllowed (inherited dir required user doc_id d)
unfolding inherited
inherited_complete dir user doc_id required d found (by_permission d' role e p c) = ground arith
inherited_complete dir user doc_id required d found (by_membership d' role e m c) = ground arith

check_sound :
    (dir : Directory) (user doc_id required : String)
    → IsAllowed (check_document dir required user true doc_id)
    → Grants dir user doc_id required
unfolding check_document
check_sound dir user doc_id required h = elim (Option-cases (dir.find_by_id doc_id)) [
  | inl e ↦ absurd (ground arith)
  | inr (d, e) ↦ inherited_sound dir user doc_id required d e (rw (e, check_document) at h)
]

check_complete :
    (dir : Directory) (user doc_id required : String)
    → Grants dir user doc_id required
    → IsAllowed (check_document dir required user true doc_id)
unfolding check_document
check_complete dir user doc_id required (by_permission d role e p c) =
    rw (e, check_document)
      (inherited_complete dir user doc_id required d e (by_permission d role e p c))
check_complete dir user doc_id required (by_membership d role e m c) =
    rw (e, check_document)
      (inherited_complete dir user doc_id required d e (by_membership d role e m c))

-- On a route with a document in its path, a signed-in user without a share on the document passes
-- the document guard exactly when the document is there and a permission on it, or the document role
-- that stands for the membership of its workspace, gives the required role. To own the document is neither required nor enough: the
-- identifier of a signed-in user is an object, which the guard compares with a text.
pub can_activate-iff-Grants :
    (dir : Directory) (meta : Option String) (req : Request) (user doc_id : String)
    → user_id req.user ≡ some user
    → user_is_object req.user ≡ true
    → doc_param req ≡ some doc_id
    → bound_share (user_share req.user) doc_id ≡ none
    → IsAllowed (can_activate dir meta req) ↔ Grants dir user doc_id (required_role meta)
unfolding can_activate
can_activate-iff-Grants dir meta req user doc_id u o d s =
    rw (u, d, s, o, can_activate)
      (
        check_sound dir user doc_id (required_role meta),
        check_complete dir user doc_id (required_role meta),
      )

has_doc_access-found :
    (dir : Directory) (user doc_id r : String)
    → has_doc_access dir user doc_id r (dir.find_by_id doc_id)
      ≡ has_doc_access dir user doc_id r none
unfolding has_doc_access
has_doc_access-found dir user doc_id r = ground arith

has-owner :
    (dir : Directory) (user doc_id r : String)
    → Owns dir user doc_id
    → has_doc_access dir user doc_id r none ≡ true
unfolding has_doc_access
has-owner dir user doc_id r (d, e, o) = ground (arith, eq_iff d.owner_id user)

has-check :
    (dir : Directory) (user doc_id r : String)
    → IsAllowed (check_document dir r user true doc_id)
    → has_doc_access dir user doc_id r none ≡ true
unfolding has_doc_access check_document inherited
has-check dir user doc_id r h = ground arith

check-has :
    (dir : Directory) (user doc_id r : String)
    → has_doc_access dir user doc_id r none ≡ true
    → IsAllowed (check_document dir r user true doc_id) ⊎ Owns dir user doc_id
unfolding has_doc_access check_document inherited
check-has dir user doc_id r h = elim (Option-cases (dir.find_by_id doc_id)) [
  | inl e ↦ absurd (ground arith)
  | inr (d, e) ↦ elim (Bool-cases (d.owner_id === user)) [
    | inl o ↦ inr (d, e, (eq_iff d.owner_id user).0 o)
    | inr o ↦ inl (ground arith)
  ]
]

-- For a signed-in user without a share on the document of the path, the gateway's check, which has
-- his identifier as a text and is given the document found or nothing, passes exactly if the
-- document guard does or the user owns the document: the two differ on owners whom neither a
-- permission nor a membership gives the role.
pub has_doc_access-iff-can_activate :
    (dir : Directory) (meta : Option String) (req : Request) (user doc_id : String)
    (given : Option Doc)
    → user_id req.user ≡ some user
    → user_is_object req.user ≡ true
    → doc_param req ≡ some doc_id
    → bound_share (user_share req.user) doc_id ≡ none
    → (given ≡ none) ⊎ (given ≡ dir.find_by_id doc_id)
    → (has_doc_access dir user doc_id (required_role meta) given ≡ true)
      ↔ (IsAllowed (can_activate dir meta req) ⊎ Owns dir user doc_id)
unfolding can_activate
has_doc_access-iff-can_activate dir meta req user doc_id given u o d s g =
    let r = required_role meta in
    let same : has_doc_access dir user doc_id r given ≡ has_doc_access dir user doc_id r none =
      elim g [ inl n ↦ rw n | inr f ↦ rw f (has_doc_access-found dir user doc_id r) ] in
    rw (u, d, s, o, same, can_activate)
      (
        check-has dir user doc_id r,
        λ x. elim x [
          | inl h ↦ has-check dir user doc_id r h
          | inr w ↦ has-owner dir user doc_id r w
        ],
      )

-- A share of a document passes the guard by its role alone.
pub can_activate-share :
    (dir : Directory) (meta : Option String) (req : Request) (user doc_id role : String)
    → user_id req.user ≡ some user
    → doc_param req ≡ some doc_id
    → bound_share (user_share req.user) doc_id ≡ some role
    → at_least (rank role) (rank (required_role meta)) ≡ true
    → can_activate dir meta req ≡ ([], ok tt)
unfolding can_activate
can_activate-share dir meta req user doc_id role u d s h = rw (u, d, s, h, can_activate)

-- A route without a document in its path passes every signed-in user.
pub can_activate-no_param :
    (dir : Directory) (meta : Option String) (req : Request) (user : String)
    → user_id req.user ≡ some user
    → doc_param req ≡ none
    → can_activate dir meta req ≡ ([], ok tt)
unfolding can_activate
can_activate-no_param dir meta req user u d = rw (u, d, can_activate)

-- The role of owners covers every route's.
pub owner_is_enough : at_least (rank "owner") (rank "owner") ≡ true
unfolding rank
owner_is_enough = refl
