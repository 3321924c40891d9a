-- ===== src/Auth/Tests.antt =====
-- Accounts over values in memory.
use Prim.Native.String
use realtime_collaborative_e.Base.{
  ℕ, ◌+◌, ◌*◌, ◌≤◌, String, ◌≡◌, ◌≢◌, refl, true, false, Option, none, some, [], ◌∷◌, ltb, ◌===◌,
  if◌then◌else◌, ok, err, arith, eq_iff,
}
use realtime_collaborative_e.Base.Map
use realtime_collaborative_e.Base.Set
use realtime_collaborative_e.Gateway.Text.{trim}
use realtime_collaborative_e.Redis.Memory.{memory, set_memory, counter_memory}
use realtime_collaborative_e.Auth.{
  Refresh, Meta, Payload, TokenPair, Origin, Tokens, Stores, State, refresh_expired,
  generate_token_pair, rotate_refresh_token, refresh_key,
}
use realtime_collaborative_e.Auth.Sessions.{rotate_refresh_token-once}
use realtime_collaborative_e.Auth.Login.{
  User, Checks, LoginRequest, Site, Entry, is_locked, passes_mfa, login, request_password_reset,
  reset_password, reset_requested, reset_done,
}
use realtime_collaborative_e.Auth.Login.Guards.{login-ok}
use realtime_collaborative_e.Auth.Login.Ways.{reset_password-requested}

-- A token is what it says and the time until which it does.
abbrev Token : Type 0
Token = Payload × ℕ

abbrev read_token : ℕ → Token → Option Payload
read_token at (p, expiry) = if ltb at expiry then some p else none

abbrev tokens : Tokens
tokens = record {
  Token = Token;
  sign_access = λ now user ttl. (record { sub = user; type = none; jti = none }, now + ttl * 1000);
  sign_refresh = λ now user jti ttl.
      (record { sub = user; type = some "refresh"; jti = some jti }, now + ttl * 1000);
  verify = read_token;
  verify-sign_refresh = λ now at user jti ttl h. rw h;
}

abbrev stores : Stores
stores = record {
  refreshes = memory Refresh;
  metas = memory Meta;
  tokens_of_users = memory String;
  locks = memory ℕ;
  user_sessions = set_memory;
  counters = counter_memory;
  tokens = tokens;
  access_ttl_sec = 900;
  refresh_ttl_sec = 604800;
}

abbrev nothing : State stores
nothing = record {
  refreshes = λ k. none;
  metas = λ k. none;
  tokens_of_users = λ k. none;
  locks = λ k. none;
  user_sessions = λ k. ([], none);
  counters = λ k. 0;
}

abbrev ann : User
ann = record { id = "u1"; email = "ann@x.org"; password_hash = "#secret" }

abbrev checks : Checks
checks = record {
  compare = λ password hash. String.◌++◌ "#" password === hash;
  hash = λ password. String.◌++◌ "#" password;
  check_otp = λ code secret. code === secret;
  mfa_secret = "123456";
  admin_emails = [];
  captcha_enabled = false;
  captcha_test_mode = false;
  to_lower_case = λ s. s;
}

abbrev site : Site stores
site = record { users = ("ann@x.org", ann) ∷ []; auth = nothing }

abbrev here : Origin
here = record { ip = some "1.2.3.4"; ua = none }

abbrev signed_in : State stores × TokenPair Token
unfolding generate_token_pair
signed_in = generate_token_pair stores nothing 0 "u1" none here "j1"

another_key : ◌≢◌ {A = String} (refresh_key "j2") (refresh_key "j1")
another_key = ground (arith, eq_iff "refresh:j2" "refresh:j1")

rotate_refresh_token-once_example :
    rotate_refresh_token stores
      (rotate_refresh_token stores signed_in.0 1000 signed_in.1.refresh_token here "j2").0
      2000
      signed_in.1.refresh_token
      here
      "j3"
    ≡ (
      (rotate_refresh_token stores signed_in.0 1000 signed_in.1.refresh_token here "j2").0,
      err refresh_expired,
    )
unfolding signed_in
rotate_refresh_token-once_example =
    rotate_refresh_token-once stores signed_in.0 1000 2000 signed_in.1.refresh_token "u1" "j1" "j2"
      "j3" here here (record { user_id = "u1"; jti = "j1" }) (omega arith) another_key refl refl
      refl

abbrev ann_comes : LoginRequest
ann_comes = record {
  email = "ann@x.org ";
  password = "secret";
  otp = none;
  remember_me = true;
  captcha_token = none;
  forwarded_for = none;
  remote_address = some "1.2.3.4";
  ua = none;
}

abbrev entered : Entry Token
entered = record {
  pair = (generate_token_pair stores nothing 5 "u1" (some 2592000) here "j1").1;
  cookie_days = 30;
  user = ann;
}

login_succeeds : (login stores checks site 5 ann_comes "j1").2 ≡ ok entered
unfolding login trim generate_token_pair Map.get Set.has
login_succeeds = refl

login-ok_example :
    (is_locked stores checks site 5 "ann@x.org " ≡ false)
    × (1 ≤ 5)
    × (Map.get site.users (trim "ann@x.org ") ≡ some ann)
    × (checks.compare "secret" "#secret" ≡ true)
    × (passes_mfa checks ann none ≡ true)
login-ok_example = login-ok stores checks site 5 ann_comes "j1" entered login_succeeds

known : Map.get site.users (trim (checks.to_lower_case "ann@x.org")) ≡ some ann
unfolding Map.get trim
known = refl

reset_password-requested_example :
    (t : Site stores) × (v : Site stores) × (request_password_reset stores checks site 5 "ann@x.org"
        "tok"
      ≡ (t, reset_requested "ann@x.org" ∷ [], ok (some "tok")))
    × (reset_password stores checks t 9 "tok" "mine" ≡ (v, reset_done "u1" ∷ [], ok tt))
    × (Map.get v.users (trim "ann@x.org") ≡ some (record ann { password_hash = "#mine" }))
reset_password-requested_example =
    reset_password-requested stores checks site 5 9 "ann@x.org" "tok" "mine" ann known (omega arith)
      (omega arith)
