-- ===== src/Auth/Login/Ways.antt =====
-- The lock of an address, and two ways to an account that ask for no password.
use realtime_collaborative_e.Base.{
  ℕ, ◌+◌, ◌≤◌, ◌<◌, String, ◌≡◌, refl, ap, subst, ◌∙◌, inl, inr, true, false, Option, none, some,
  [], ◌∷◌, ltb, ◌===◌, if◌then◌else◌, ok, err, eq_refl, arith, Bool-cases, lt→ltb,
}
use realtime_collaborative_e.Base.Map
use realtime_collaborative_e.Base.Map.{Map}
use realtime_collaborative_e.Gateway.Text.{trim}
use realtime_collaborative_e.Auth.{
  account_locked, too_many_attempts, Stores, incr, new_password_reset_token, reset_key,
}
use realtime_collaborative_e.Auth.Sessions.{consume_found}
use realtime_collaborative_e.Auth.Login.{
  User, Checks, LoginRequest, Site, lockout, ip_of, rate_key, lock_key, attempt, is_locked, login,
  request_password_reset, reset_password, set_password, reset_requested, reset_done,
}
use realtime_collaborative_e.Auth.Login.Guards.{login_locked, login_unlocked}

module _ (r : Stores) (c : Checks) where
  attempt_many :
      (s : Site r) (now : ℕ) (q : LoginRequest) (ip jti : String) (n : ℕ)
      → ltb 5 n ≡ true
      → attempt r c s now q ip n jti ≡ (
        record s {
          auth = record s.auth {
            locks = r.locks.set_ex s.auth.locks now (lock_key q.email) 1 600000;
          };
        },
        lockout q.email ip ∷ [],
        err too_many_attempts,
      )
  attempt_many s now q ip jti n h = rw (h, attempt)

  -- After five attempts that count, the next one locks the address for ten minutes: in that time
  -- every attempt for it is refused, the right password or another place notwithstanding.
  pub login-locks :
      (s : Site r) (now at : ℕ) (q p : LoginRequest) (jti later : String)
      → is_locked r c s now q.email ≡ false
      → 5
        ≤ r.counters.count s.auth.counters now
            (rate_key q.email (ip_of q.forwarded_for q.remote_address))
      → p.email ≡ q.email
      → now ≤ at
      → at < now + 600000
      → ((login r c s now q jti).2 ≡ err too_many_attempts)
        × (login r c (login r c s now q jti).0 at p later
            ≡ ((login r c s now q jti).0, [], err account_locked))
  login-locks s now at q p jti later open_ many same h b =
      let ip = ip_of q.forwarded_for q.remote_address in
      let (t, n) = incr r s.auth now (rate_key q.email ip) 60 in
      let counted = r.counters.incr-count s.auth.counters now (rate_key q.email ip) in
      let run =
        login_unlocked r c s now q jti open_
        ∙ attempt_many (record s { auth = t }) now q ip jti n
            (lt→ltb 5 n (omega (arith, many, counted))) in
      let key = lock_key q.email in
      let set : r.locks.get (r.locks.set_ex s.auth.locks now key 1 600000) at key ≡ some 1 =
        r.locks.get-set_ex s.auth.locks now at key key 1 600000 h
        ∙ rw (eq_refl key, lt→ltb at (now + 600000) b) in
      let found = ap (λ o. r.locks.get o.0.auth.locks at key) run ∙ set in
      let locked : is_locked r c (login r c s now q jti).0 at p.email ≡ true =
        rw (same, found, is_locked) refl in
      (ap (λ o. o.2) run, login_locked r c (login r c s now q jti).0 at p later locked)

password_of :
    (v u : User) (h : String)
    → Path (Option User) (some v) (some u)
    → some (if v.id === u.id then record v { password_hash = h } else v)
      ≡ some (record u { password_hash = h })
password_of v u h e =
    subst
      (λ o. elim o [
        | none ↦ Unit
        | some w ↦
            some (if v.id === w.id then record v { password_hash = h } else v)
            ≡ some (record w { password_hash = h })
      ])
      e (rw (eq_refl v.id))

set_password-get :
    (users : Map User) (email h : String) (u : User)
    → Map.get users email ≡ some u
    → Map.get (set_password users u.id h) email ≡ some (record u { password_hash = h })
unfolding Map.get
set_password-get [] email h u e = cc
set_password-get ((k, v) ∷ users) email h u e = elim (Bool-cases (k === email)) [
  | inr other ↦ rw other (set_password-get users email h u (rw other at e))
  | inl same ↦ let v_is_u : some v ≡ some u = rw same at e in rw same (password_of v u h v_is_u)
]

module _ (r : Stores) (c : Checks) where
  -- The request for a new password answers with the token that should go to the user's mail box, so
  -- that whoever knows the address of a user can set his password, and so take over the account.
  pub reset_password-requested :
      (s : Site r) (now at : ℕ) (given token new : String) (u : User)
      → Map.get s.users (trim (c.to_lower_case given)) ≡ some u
      → now ≤ at
      → at < now + 1800000
      → (t : Site r) × (v : Site r) × (request_password_reset r c s now given token
          ≡ (t, reset_requested given ∷ [], ok (some token)))
        × (reset_password r c t at token new ≡ (v, reset_done u.id ∷ [], ok tt))
        × (Map.get v.users (trim (c.to_lower_case given))
            ≡ some (record u { password_hash = c.hash new }))
  unfolding request_password_reset reset_password
  reset_password-requested s now at given token new u found h b =
      let key = reset_key token in
      let made = new_password_reset_token r s.auth now u.id token in
      let stored =
        r.tokens_of_users.get-set_ex s.auth.tokens_of_users now at key key u.id 1800000 h
        ∙ rw (eq_refl key, lt→ltb at (now + 1800000) b) in
      let used = consume_found r made at token u.id stored in
      let state = ap (λ o. o.0) used in
      let t : Site r = record s { auth = made } in
      let v : Site r = record {
        users = set_password s.users u.id (c.hash new);
        auth = record made { tokens_of_users = r.tokens_of_users.del made.tokens_of_users key };
      } in
      (
        t,
        v,
        rw (found, request_password_reset),
        rw (used, reset_password) (rw state),
        set_password-get s.users (trim (c.to_lower_case given)) (c.hash new) u found,
      )
