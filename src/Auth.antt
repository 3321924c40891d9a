-- ===== src/Auth.antt =====
-- Accounts and sessions: api/src/auth/auth.service.ts and the login, the refresh, the sign-in by a
-- provider and the sessions of api/src/auth/auth.controller.ts, with `incr` of
-- api/src/redis/cache.service.ts.
-- The signing and the verification of tokens, the comparison of passwords, the one-time codes and
-- the captcha are parameters, as are the identifiers drawn. The commands of the database and of
-- Redis succeed; an error that `verify` throws is `invalid_token` too. Times are milliseconds, and a
-- call runs at one of them.
pub mod Sessions
pub mod Login
mod Tests
use Prim.Native.String
use realtime_collaborative_e.Base.{
  ℕ, ◌+◌, ◌*◌, String, ◌≡◌, Bool, true, false, ◌&&◌, not, Option, none, some, List, [], ◌∷◌, ltb,
  ◌==◌, ◌===◌, if◌then◌else◌, Result, ok, err, or_throw,
}
use realtime_collaborative_e.Base.Set
use realtime_collaborative_e.Redis.{KeyStore, SetStore, Counters}

-- `{ userId, jti }` under `refresh:…`
pub record Refresh : Type 0 where
  pub user_id : String
  pub jti : String

-- `meta`, under `session:…`
pub record Meta : Type 0 where
  pub user_id : String
  pub jti : String
  pub ip : Option String
  pub ua : Option String
  pub created_at : ℕ
  pub last_rotated_at : ℕ

-- The payload of a token that was verified, by the fields that the code reads.
pub record Payload : Type 0 where
  pub sub : String
  pub type : Option String
  pub jti : Option String

pub record TokenPair (T : Type 0) : Type 0 where
  pub access_token : T
  pub refresh_token : T
  pub refresh_id : String

pub record Origin : Type 0 where
  pub ip : Option String
  pub ua : Option String

pub data Unauthorized : Type 0 where
  invalid_credentials invalid_token refresh_expired account_locked too_many_attempts : Unauthorized
  captcha_required invalid_or_expired missing_refresh : Unauthorized

-- `JwtKeysService.sign` and `verify`: an access token and a refresh token of a user, made at a time
-- with a lifetime in seconds, and what a token says at a time.
pub record Tokens : Type 1 where
  pub Token : Type 0
  pub sign_access : ℕ → String → ℕ → Token
  pub sign_refresh : ℕ → String → String → ℕ → Token
  pub verify : ℕ → Token → Option Payload
  pub verify-sign_refresh :
      (now at : ℕ) (user jti : String) (ttl : ℕ)
      → ltb at (now + ttl * 1000) ≡ true
      → verify at (sign_refresh now user jti ttl)
        ≡ some (record { sub = user; type = some "refresh"; jti = some jti })

pub record Stores : Type 1 where
  pub refreshes : KeyStore Refresh
  pub metas : KeyStore Meta
  pub tokens_of_users : KeyStore String
  pub locks : KeyStore ℕ
  pub user_sessions : SetStore
  pub counters : Counters
  pub tokens : Tokens
  pub access_ttl_sec : ℕ
  pub refresh_ttl_sec : ℕ

pub record State (r : Stores) : Type 0 where
  pub refreshes : r.refreshes.Store
  pub metas : r.metas.Store
  pub tokens_of_users : r.tokens_of_users.Store
  pub locks : r.locks.Store
  pub user_sessions : r.user_sessions.Store
  pub counters : r.counters.Store

abbrev pub refresh_key : String → String
refresh_key jti = String.◌++◌ "refresh:" jti

abbrev pub session_key : String → String
session_key jti = String.◌++◌ "session:" jti

abbrev pub user_sessions_key : String → String
user_sessions_key user = String.◌++◌ "user-sessions:" user

abbrev pub verify_key : String → String
verify_key token = String.◌++◌ "verify:" token

abbrev pub reset_key : String → String
reset_key token = String.◌++◌ "reset:" token

abbrev pub ttl_or : Option ℕ → ℕ → ℕ
ttl_or none n = n
ttl_or (some m) n = m

module _ (r : Stores) where
  abbrev pub new_meta : ℕ → String → String → Origin → Meta
  new_meta now user jti o = record {
    user_id = user;
    jti = jti;
    ip = o.ip;
    ua = o.ua;
    created_at = now;
    last_rotated_at = now;
  }

  -- `generateTokenPair`; `jti` is the identifier that it draws.
  unfoldable pub generate_token_pair :
      State r → ℕ → String → Option ℕ → Origin → String → State r × TokenPair r.tokens.Token
  generate_token_pair s now user refresh_ttl o jti =
      let ttl = ttl_or refresh_ttl r.refresh_ttl_sec in
      let sets = (r.user_sessions.sadd s.user_sessions now (user_sessions_key user) jti).0 in
      let t : State r = record s {
        refreshes =
            r.refreshes.set_ex s.refreshes now (refresh_key jti)
              (record { user_id = user; jti = jti }) (ttl * 1000);
        metas = r.metas.set_ex s.metas now (session_key jti) (new_meta now user jti o) (ttl * 1000);
        user_sessions = r.user_sessions.expire sets now (user_sessions_key user) (ttl * 1000);
      } in
      (
        t,
        record {
          access_token = r.tokens.sign_access now user r.access_ttl_sec;
          refresh_token = r.tokens.sign_refresh now user jti ttl;
          refresh_id = jti;
        },
      )

  -- The identifier in a token for a refresh.
  abbrev pub refresh_of : Option Payload → Option (String × String)
  refresh_of none = none
  refresh_of (some p) = elim p.type [
    | none ↦ none
    | some type ↦ elim p.jti [
      | none ↦ none
      | some jti ↦ if type === "refresh" && not (jti === "") then some (p.sub, jti) else none
    ]
  ]

  abbrev pub invalidate : State r → ℕ → String → String → State r
  invalidate s now user jti = record s {
    refreshes = r.refreshes.del s.refreshes (refresh_key jti);
    metas = r.metas.del s.metas (session_key jti);
    user_sessions = r.user_sessions.srem s.user_sessions now (user_sessions_key user) jti;
  }

  -- `rotateRefreshToken`
  unfoldable pub rotate_refresh_token :
      State r
      → ℕ
      → r.tokens.Token
      → Origin
      → String
      → State r × Result Unauthorized (TokenPair r.tokens.Token)
  rotate_refresh_token s now old o fresh = elim (refresh_of (r.tokens.verify now old)) [
    | none ↦ (s, err invalid_token)
    | some (sub, jti) ↦ elim (r.refreshes.get s.refreshes now (refresh_key jti)) [
      | none ↦ (s, err refresh_expired)
      | some session ↦
          let (t, pair) = generate_token_pair (invalidate s now sub jti) now sub none o fresh in
          (t, ok pair)
    ]
  ]

  -- `revokeRefresh`
  unfoldable pub revoke_refresh : State r → ℕ → String → State r
  revoke_refresh s now jti =
      let t : State r = record s {
        refreshes = r.refreshes.del s.refreshes (refresh_key jti);
        metas = r.metas.del s.metas (session_key jti);
      } in
      elim (r.metas.get s.metas now (session_key jti)) [
        | none ↦ t
        | some m ↦ if m.user_id === "" then t else record t {
          user_sessions =
              r.user_sessions.srem s.user_sessions now (user_sessions_key m.user_id) jti;
        }
      ]

  -- `newEmailVerificationToken` and `newPasswordResetToken`, by the key and the lifetime.
  abbrev pub new_token : (String → String) → ℕ → State r → ℕ → String → String → State r
  new_token key ttl s now user token = record s {
    tokens_of_users = r.tokens_of_users.set_ex s.tokens_of_users now (key token) user (ttl * 1000);
  }

  abbrev pub new_email_verification_token : State r → ℕ → String → String → State r
  new_email_verification_token = new_token verify_key 86400

  abbrev pub new_password_reset_token : State r → ℕ → String → String → State r
  new_password_reset_token = new_token reset_key 1800

  -- `consumeEmailVerificationToken` and `consumePasswordResetToken`, by the key.
  abbrev pub consume : (String → String) → State r → ℕ → String → State r × Option String
  consume key s now token = elim (r.tokens_of_users.get s.tokens_of_users now (key token)) [
    | none ↦ (s, none)
    | some user ↦ (
      record s { tokens_of_users = r.tokens_of_users.del s.tokens_of_users (key token) },
      some user,
    )
  ]

  abbrev pub consume_email_verification_token : State r → ℕ → String → State r × Option String
  consume_email_verification_token = consume verify_key

  abbrev pub consume_password_reset_token : State r → ℕ → String → State r × Option String
  consume_password_reset_token = consume reset_key

  -- `CacheService.incr`
  abbrev pub incr : State r → ℕ → String → ℕ → State r × ℕ
  incr s now key ttl =
      let (counters, val) = r.counters.incr s.counters now key in
      let kept = r.counters.expire counters now key (ttl * 1000) in
      (record s { counters = if val == 1 then kept else counters }, val)
