-- ===== src/Sharing.antt =====
-- Links for guests: api/src/sharing/sharing.controller.ts, with the guard that reads them,
-- api/src/auth/auth.guard.ts. The comparison and the hash of passwords and the verification of bearer
-- tokens are parameters; `toLowerCase` is one, too. A link is stored as its JSON text, here as
-- itself. The Redis commands succeed. Times are milliseconds.
pub mod Links
mod Tests
use Prim.Native.Char.{code}
use Prim.Native.String
use realtime_collaborative_e.Base.{
  ℕ, ◌+◌, ◌*◌, min, max, String, Bool, true, false, not, Option, none, some, List, [], ◌∷◌, map,
  filter, or_text, ◌==◌, ◌===◌, if◌then◌else◌, Result, ok, err,
}
use realtime_collaborative_e.Redis.{KeyStore}
use realtime_collaborative_e.Access.{
  Directory, Share, User, Request, Forbidden, truthy, or_else, user_id, can_activate,
}
use realtime_collaborative_e.Gateway.Text.{trim}
use realtime_collaborative_e.Limits.Text.{strip}

pub record LinkBody : Type 0 where
  pub document_id : Option String
  pub role : Option String
  pub expires_in_sec : ℕ
  pub password : Option String
  pub allow_anonymous_comment : Bool
  pub allowed_domains_csv : Option String

-- `payload`
pub record Link : Type 0 where
  pub document_id : String
  pub role : String
  pub allow_anonymous_comment : Bool
  pub allowed_domains : List String
  pub created_by : String
  pub created_at : ℕ
  pub expires_at : ℕ
  pub password_hash : Option String

pub data Refusal : Type 0 where
  forbidden : Forbidden → Refusal
  missing_document invalid_or_expired : Refusal
  missing_bearer password_required invalid_password invalid_user : Refusal

-- `bcrypt`, `jwt.verify` with `users.findById`, which give the identifier of a user, and
-- `toLowerCase`.
pub record Checks : Type 0 where
  pub compare : String → String → Bool
  pub hash : String → String
  pub user_of : String → Option String
  pub to_lower_case : String → String

-- The headers and the query of a request, as far as the guard reads them.
pub record Headers : Type 0 where
  pub authorization : Option String
  pub share_token_header : Option String
  pub share_token_query : Option String
  pub share_pass_header : Option String
  pub share_pass_query : Option String

abbrev pub prepend : String → List String → List String
prepend s [] = s ∷ []
prepend s (t ∷ ts) = String.◌++◌ s t ∷ ts

-- `split(',')`
abbrev pub split_commas : String → List String
split_commas String.[] = "" ∷ []
split_commas (String.◌∷◌ c s) =
    let rest = split_commas s in
    if code c == 44 then "" ∷ rest else prepend (String.◌∷◌ c String.[]) rest

abbrev pub link_key : String → String
link_key token = String.◌++◌ "share:link:" token

abbrev pub lifetime : ℕ → ℕ
lifetime n = max 60 (min 2592000 (if n == 0 then 86400 else n))

module _ (links : KeyStore Link) (c : Checks) where
  abbrev pub new_link : ℕ → String → String → LinkBody → Link
  new_link now user document_id body = record {
    document_id = document_id;
    role = or_text body.role "viewer";
    allow_anonymous_comment = body.allow_anonymous_comment;
    allowed_domains =
        filter (λ d. not (d === ""))
          (map (λ d. c.to_lower_case (trim d))
            (split_commas (or_text body.allowed_domains_csv "")));
    created_by = user;
    created_at = now;
    expires_at = now + lifetime body.expires_in_sec * 1000;
    password_hash = elim (truthy body.password) [ none ↦ none | some p ↦ some (c.hash p) ];
  }

  -- `createLink`; `token` is what it draws.
  abbrev pub create_link :
      links.Store → ℕ → String → LinkBody → String → links.Store × Result Refusal String
  create_link s now user body token = elim (truthy body.document_id) [
    | none ↦ (s, err missing_document)
    | some id ↦
        let ttl = lifetime body.expires_in_sec in
        (links.set_ex s now (link_key token) (new_link now user id body) (ttl * 1000), ok token)
  ]

  -- The route `links`, whose path has no parameter, with the guard in front of it.
  unfoldable pub post_link :
      Directory → links.Store → ℕ → User → LinkBody → String → links.Store × Result Refusal String
  post_link dir s now user body token =
      let request : Request = record {
        user = some user;
        id_param = none;
        document_id_param = none;
      } in
      elim (can_activate dir (some "editor") request).1 [
        | err e ↦ (s, err (forbidden e))
        | ok _ ↦ create_link s now user.id body token
      ]

  -- `resolve`
  abbrev pub resolve : links.Store → ℕ → String → Result Refusal Link
  resolve s now token = elim (links.get s now (link_key token)) [
    | none ↦ err invalid_or_expired
    | some l ↦ ok l
  ]

  abbrev pub bearer : Option String → Option String
  bearer none = none
  bearer (some header) = truthy (strip "Bearer " header)

  -- The guest that a link admits.
  abbrev pub guest : String → Link → User
  guest token l = record {
    id = String.◌++◌ "guest:" token;
    is_object = false;
    share = some (record { document_id = l.document_id; role = l.role });
  }

  abbrev pub check_pass : String → Link → Option String → Result Refusal User
  check_pass token l pass = elim (truthy l.password_hash) [
    | none ↦ ok (guest token l)
    | some h ↦ elim (truthy pass) [
      | none ↦ err password_required
      | some p ↦ if c.compare p h then ok (guest token l) else err invalid_password
    ]
  ]

  -- `AuthGuard.canActivate`, with the user that it puts into the request
  unfoldable pub auth_guard : links.Store → ℕ → Headers → Result Refusal User
  auth_guard s now h = elim (bearer h.authorization) [
    | some token ↦ elim (c.user_of token) [
      | none ↦ err invalid_or_expired
      | some id ↦ ok (record { id = id; is_object = true; share = none })
    ]
    | none ↦ elim (truthy (or_else h.share_token_header h.share_token_query)) [
      | none ↦ err missing_bearer
      | some token ↦ elim (links.get s now (link_key token)) [
        | none ↦ err invalid_or_expired
        | some l ↦ check_pass token l (or_else h.share_pass_header h.share_pass_query)
      ]
    ]
  ]
