-- ===== src/Auth/Login/Guards.antt =====
-- What stands before a session: the lock, the attempts, the password and the second factor; and the
-- ways around them.
use realtime_collaborative_e.Base.{
  ℕ, ◌+◌, ◌≤◌, String, ◌≡◌, sym, ap, ◌∙◌, inl, inr, true, false, ◌&&◌, not, Option, some, [], ltb,
  Result, ok, err, arith, Bool-cases, Option-cases,
}
use realtime_collaborative_e.Base.Map
use realtime_collaborative_e.Gateway.Text.{trim}
use realtime_collaborative_e.Auth.{TokenPair, account_locked, Stores, incr}
use realtime_collaborative_e.Auth.Login.{
  User, Checks, LoginRequest, Site, Entry, ip_of, rate_key, validate_user, passes_mfa, try_login,
  attempt, is_locked, login, verify_captcha,
}

entry_user :
    {E T : Type 0} {p : TokenPair T} {n : ℕ} {u : User} {e : Entry T}
    → Path (Result E (Entry T)) (ok (record { pair = p; cookie_days = n; user = u })) (ok e)
    → u ≡ e.user
entry_user h = cc (h)

module _ (r : Stores) (c : Checks) where
  compared :
      (password : String) (v u : User)
      → Path (Option User) (some v) (some u)
      → c.compare password v.password_hash ≡ true
      → c.compare password u.password_hash ≡ true
  compared password v u e h = cc (e, h)

  pub login_unlocked :
      (s : Site r) (now : ℕ) (q : LoginRequest) (jti : String)
      → is_locked r c s now q.email ≡ false
      → login r c s now q jti ≡ (
          let ip = ip_of q.forwarded_for q.remote_address in
          let (t, attempts) = incr r s.auth now (rate_key q.email ip) 60 in
          attempt r c (record s { auth = t }) now q ip attempts jti)
  unfolding login
  login_unlocked s now q jti h = rw (h, login)

  pub login_locked :
      (s : Site r) (now : ℕ) (q : LoginRequest) (jti : String)
      → is_locked r c s now q.email ≡ true
      → login r c s now q jti ≡ (s, [], err account_locked)
  unfolding login
  login_locked s now q jti h = rw (h, login)

  validate_user-some :
      (users : Map.Map User) (email password : String) (u : User)
      → validate_user c users email password ≡ some u
      → (Map.get users (trim (c.to_lower_case email)) ≡ some u)
        × (c.compare password u.password_hash ≡ true)
  validate_user-some users email password u h =
      elim (Option-cases (Map.get users (trim (c.to_lower_case email)))) [
        | inl missing ↦ cc (rw (missing, validate_user) at h)
        | inr (v, found) ↦ elim (Bool-cases (c.compare password v.password_hash)) [
          | inl same ↦
              let e : some v ≡ some u = rw (found, same, validate_user) at h in
              (found ∙ e, compared password v u e same)
          | inr other ↦ cc (rw (found, other, validate_user) at h)
        ]
      ]

  try_login-ok :
      (s : Site r) (now : ℕ) (q : LoginRequest) (ip jti : String) (e : Entry r.tokens.Token)
      → (try_login r c s now q ip jti).2 ≡ ok e
      → (validate_user c s.users q.email q.password ≡ some e.user)
        × (passes_mfa c e.user q.otp ≡ true)
  try_login-ok s now q ip jti e h =
      elim (Option-cases (validate_user c s.users q.email q.password)) [
        | inl missing ↦ cc (rw (missing, try_login) at h)
        | inr (u, found) ↦ elim (Bool-cases (passes_mfa c u q.otp)) [
          | inr refused ↦ cc (rw (found, refused, try_login) at h)
          | inl passed ↦
              let same : u ≡ e.user = entry_user (rw (found, passed, try_login) at h) in
              (found ∙ ap some same, sym (ap (λ v. passes_mfa c v q.otp) same) ∙ passed)
        ]
      ]

  attempt-ok :
      (s : Site r) (now : ℕ) (q : LoginRequest) (ip jti : String) (n : ℕ) (e : Entry r.tokens.Token)
      → (attempt r c s now q ip n jti).2 ≡ ok e
      → (n ≤ 5) × ((try_login r c s now q ip jti).2 ≡ ok e)
  attempt-ok s now q ip jti n e h = elim (Bool-cases (ltb 5 n)) [
    | inl many ↦ cc (rw (many, attempt) at h)
    | inr few ↦
        elim (Bool-cases (ltb 3 n && c.captcha_enabled && not (verify_captcha c q.captcha_token))) [
          | inl wanted ↦ cc (rw (few, wanted, attempt) at h)
          | inr passed ↦ (ground (arith, few), rw (few, passed, attempt) at h)
        ]
  ]

  -- A login that succeeds is one for an address that is not locked, at most the fifth attempt that
  -- counts for the address and where it comes from, with the password of the user of that address,
  -- and with a one-time code if the user is an administrator.
  pub login-ok :
      (s : Site r) (now : ℕ) (q : LoginRequest) (jti : String) (e : Entry r.tokens.Token)
      → (login r c s now q jti).2 ≡ ok e
      → (is_locked r c s now q.email ≡ false)
        × (r.counters.count s.auth.counters now
                (rate_key q.email (ip_of q.forwarded_for q.remote_address))
              + 1
            ≤ 5)
        × (Map.get s.users (trim (c.to_lower_case q.email)) ≡ some e.user)
        × (c.compare q.password e.user.password_hash ≡ true)
        × (passes_mfa c e.user q.otp ≡ true)
  login-ok s now q jti e h = elim (Bool-cases (is_locked r c s now q.email)) [
    | inl locked ↦ cc (sym (ap (λ o. o.2) (login_locked s now q jti locked)) ∙ h)
    | inr open_ ↦
        let ip = ip_of q.forwarded_for q.remote_address in
        let key = rate_key q.email ip in
        let counted = r.counters.incr-count s.auth.counters now key in
        let (t, attempts) = incr r s.auth now key 60 in
        let run = sym (ap (λ o. o.2) (login_unlocked s now q jti open_)) ∙ h in
        let (few, tried) = attempt-ok (record s { auth = t }) now q ip jti attempts e run in
        let (valid, mfa) = try_login-ok (record s { auth = t }) now q ip jti e tried in
        let (found, same) = validate_user-some s.users q.email q.password e.user valid in
        (open_, omega (arith, few, counted), found, same, mfa)
  ]
