-- ===== src/Auth/Login.antt =====
-- The ways in: `login`, `refresh`, `logout`, `oauth` and the ways to a new password of
-- api/src/auth/auth.controller.ts, with `validateUser` of api/src/auth/auth.service.ts and
-- api/src/common/captcha.ts. A cookie that is set is part of the answer. What `logout` reads from
-- its token with the secret of the environment is a parameter of it.
pub mod Guards
pub mod Ways
use Prim.Native.String
use realtime_collaborative_e.Base.{
  or_text, ℕ, ◌+◌, ◌*◌, String, Bool, true, false, ◌&&◌, ◌||◌, not, Option, none, some, List, [],
  ◌∷◌, ◌++◌, ltb, ◌==◌, ◌===◌, if◌then◌else◌, Result, ok, err,
}
use realtime_collaborative_e.Base.Map
use realtime_collaborative_e.Base.Map.{Map}
use realtime_collaborative_e.Base.Set
use realtime_collaborative_e.Gateway.Text.{trim}
use realtime_collaborative_e.Auth.{
  Meta, Origin, TokenPair, Unauthorized, invalid_credentials, account_locked, too_many_attempts,
  captcha_required, invalid_or_expired, missing_refresh, Stores, State, generate_token_pair,
  rotate_refresh_token, revoke_refresh, new_password_reset_token, consume_password_reset_token,
  incr, session_key, user_sessions_key,
}

pub record User : Type 0 where
  pub id : String
  pub email : String
  pub password_hash : String

-- `bcrypt`, `authenticator`, and what is read from the environment.
pub record Checks : Type 0 where
  pub compare : String → String → Bool
  pub hash : String → String
  pub check_otp : String → String → Bool
  pub mfa_secret : String
  pub admin_emails : List String
  pub captcha_enabled : Bool
  pub captcha_test_mode : Bool
  pub to_lower_case : String → String

pub record LoginRequest : Type 0 where
  pub email : String
  pub password : String
  pub otp : Option String
  pub remember_me : Bool
  pub captcha_token : Option String
  pub forwarded_for : Option String
  pub remote_address : Option String
  pub ua : Option String

-- The audit log.
pub data Event : Type 0 where
  lockout captcha_needed login_failed mfa_failed : String → String → Event
  login_success : String → String → String → Event
  refreshed logged_out : Event
  oauth_done reset_requested : String → Event
  reset_done : String → Event
  session_revoked : String → String → Event

-- The users by their addresses, and the stores.
pub record Site (r : Stores) : Type 0 where
  pub users : Map User
  pub auth : State r

-- A pair, the days that its cookie is kept, and the user it is for.
pub record Entry (T : Type 0) : Type 0 where
  pub pair : TokenPair T
  pub cookie_days : ℕ
  pub user : User

abbrev pub ip_of : Option String → Option String → String
ip_of forwarded remote = or_text forwarded (or_text remote "ip-unknown")

abbrev pub rate_key : String → String → String
rate_key email ip = String.◌++◌ "login:" (String.◌++◌ email (String.◌++◌ ":" ip))

abbrev pub lock_key : String → String
lock_key email = String.◌++◌ "lock:" email

-- `verifyCaptcha`
abbrev pub verify_captcha : Checks → Option String → Bool
verify_captcha c token =
    if c.captcha_enabled
    then (if c.captcha_test_mode
        then elim token [ none ↦ false | some t ↦ t === "pass" ]
        else false)
    else true

-- `validateUser`
abbrev pub validate_user : Checks → Map User → String → String → Option User
validate_user c users email password = elim (Map.get users (trim (c.to_lower_case email))) [
  | none ↦ none
  | some u ↦ if c.compare password u.password_hash then some u else none
]

-- The second factor, which the addresses of administrators need.
abbrev pub passes_mfa : Checks → User → Option String → Bool
passes_mfa c u otp =
    if Set.has c.admin_emails (c.to_lower_case u.email)
    then elim otp [
      | none ↦ false
      | some code ↦ not (code === "") && not (c.mfa_secret === "") && c.check_otp code c.mfa_secret
    ]
    else true

-- `users.updateById(id, { passwordHash })`
abbrev pub set_password : Map User → String → String → Map User
set_password [] id h = []
set_password ((email, u) ∷ users) id h =
    (email, if u.id === id then record u { password_hash = h } else u) ∷ set_password users id h

module _ (r : Stores) (c : Checks) where
  abbrev pub Outcome : Type 0 → Type 0
  Outcome A = Site r × List Event × Result Unauthorized A

  -- A limit on the attempts has been passed.
  abbrev pub admit :
      Site r → ℕ → LoginRequest → String → User → String → Outcome (Entry r.tokens.Token)
  admit s now q ip u jti =
      let ttl : Option ℕ = if q.remember_me then some 2592000 else none in
      let o : Origin = record { ip = some ip; ua = q.ua } in
      let (t, pair) = generate_token_pair r s.auth now u.id ttl o jti in
      let key = rate_key q.email ip in
      (
        record s { auth = record t { counters = r.counters.del t.counters key } },
        login_success u.id u.email ip ∷ [],
        ok (record { pair = pair; cookie_days = if q.remember_me then 30 else 7; user = u }),
      )

  -- The `try` of `login`, whose `catch` answers one error for all.
  abbrev pub try_login :
      Site r → ℕ → LoginRequest → String → String → Outcome (Entry r.tokens.Token)
  try_login s now q ip jti = elim (validate_user c s.users q.email q.password) [
    | none ↦ (s, login_failed q.email ip ∷ [], err invalid_credentials)
    | some u ↦
        if passes_mfa c u q.otp
        then admit s now q ip u jti
        else (s, mfa_failed u.email ip ∷ login_failed q.email ip ∷ [], err invalid_credentials)
  ]

  -- `login` once the attempt is counted.
  abbrev pub attempt :
      Site r → ℕ → LoginRequest → String → ℕ → String → Outcome (Entry r.tokens.Token)
  attempt s now q ip attempts jti =
      let tried = try_login s now q ip jti in
      let locks = r.locks.set_ex s.auth.locks now (lock_key q.email) 1 600000 in
      if ltb 5 attempts
      then (
        record s { auth = record s.auth { locks = locks } },
        lockout q.email ip ∷ [],
        err too_many_attempts,
      )
      else if ltb 3 attempts && c.captcha_enabled && not (verify_captcha c q.captcha_token)
      then (s, captcha_needed q.email ip ∷ [], err captcha_required)
      else tried

  abbrev pub is_locked : Site r → ℕ → String → Bool
  is_locked s now email = elim (r.locks.get s.auth.locks now (lock_key email)) [
    | none ↦ false
    | some n ↦ not (n == 0)
  ]

  -- `login`; `jti` is the identifier drawn for the session.
  unfoldable pub login : Site r → ℕ → LoginRequest → String → Outcome (Entry r.tokens.Token)
  login s now q jti =
      let ip = ip_of q.forwarded_for q.remote_address in
      let (t, attempts) = incr r s.auth now (rate_key q.email ip) 60 in
      let counted = attempt (record s { auth = t }) now q ip attempts jti in
      if is_locked s now q.email then (s, [], err account_locked) else counted

  -- `oauth`; `id`, `password` and `jti` are what it draws.
  unfoldable pub oauth :
      Site r → ℕ → String → Origin → String → String → String → Outcome (Entry r.tokens.Token)
  oauth s now given o id password jti =
      let email = trim (c.to_lower_case given) in
      let fresh : User = record { id = id; email = email; password_hash = c.hash password } in
      let known : User = elim (Map.get s.users email) [ none ↦ fresh | some u ↦ u ] in
      let users : Map User = elim (Map.get s.users email) [
        | none ↦ Map.set s.users email fresh
        | some _ ↦ s.users
      ] in
      let (t, pair) = generate_token_pair r s.auth now known.id none o jti in
      (
        record { users = users; auth = t },
        oauth_done email ∷ [],
        ok (record { pair = pair; cookie_days = 7; user = known }),
      )

  -- `refresh`, with the token of the cookie
  abbrev pub refresh :
      Site r → ℕ → Option r.tokens.Token → Origin → String → Outcome (TokenPair r.tokens.Token)
  refresh s now cookie o jti = elim cookie [
    | none ↦ (s, [], err missing_refresh)
    | some token ↦
        let (t, answer) = rotate_refresh_token r s.auth now token o jti in
        (record s { auth = t }, elim answer [ ok _ ↦ refreshed ∷ [] | err _ ↦ [] ], answer)
  ]

  -- `logout`; `said` is the identifier that the token of the cookie holds, if it is verified.
  abbrev pub logout : Site r → ℕ → Option String → Outcome (Unit {0})
  logout s now said = (
    elim said [
      | none ↦ s
      | some jti ↦ if jti === "" then s else record s { auth = revoke_refresh r s.auth now jti }
    ],
    logged_out ∷ [],
    ok tt,
  )

  -- `sessions`, with the identifiers of a user's sessions that have their record
  abbrev pub metas_of : Site r → ℕ → List String → List (String × Meta)
  metas_of s now [] = []
  metas_of s now (jti ∷ jtis) = elim (r.metas.get s.auth.metas now (session_key jti)) [
    | none ↦ metas_of s now jtis
    | some m ↦ (jti, m) ∷ metas_of s now jtis
  ]

  abbrev pub sessions : Site r → ℕ → String → List (String × Meta)
  sessions s now user =
      metas_of s now (r.user_sessions.smembers s.auth.user_sessions now (user_sessions_key user))

  -- `revokeSession`
  abbrev pub revoke_session : Site r → ℕ → String → String → Outcome (Unit {0})
  revoke_session s now user refresh_id = (
    record s { auth = revoke_refresh r s.auth now refresh_id },
    session_revoked refresh_id user ∷ [],
    ok tt,
  )

  -- `requestPasswordReset`, with the token that it answers
  unfoldable pub request_password_reset : Site r → ℕ → String → String → Outcome (Option String)
  request_password_reset s now given token = elim (Map.get s.users (trim (c.to_lower_case given))) [
    | none ↦ (s, [], ok none)
    | some u ↦ (
      record s { auth = new_password_reset_token r s.auth now u.id token },
      reset_requested given ∷ [],
      ok (some token),
    )
  ]

  -- `resetPassword`
  unfoldable pub reset_password : Site r → ℕ → String → String → Outcome (Unit {0})
  reset_password s now token new =
      let (t, user) = consume_password_reset_token r s.auth now token in
      elim user [
        | none ↦ (record s { auth = t }, [], err invalid_or_expired)
        | some id ↦ (
          record { users = set_password s.users id (c.hash new); auth = t },
          reset_done id ∷ [],
          ok tt,
        )
      ]
