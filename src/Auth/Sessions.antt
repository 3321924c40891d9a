-- ===== src/Auth/Sessions.antt =====
-- A refresh token is good once, and not after its session is revoked.
use realtime_collaborative_e.Base.{
  ℕ, ◌+◌, ◌*◌, ◌≤◌, ◌<◌, String, ◌≡◌, ◌≢◌, refl, ap, ◌∙◌, false, Option, none, some, ltb, ◌===◌,
  if◌then◌else◌, ok, err, eq_iff, eq_refl, arith, lt→ltb,
}
use realtime_collaborative_e.Auth.{
  Refresh, TokenPair, Origin, Stores, State, refresh_expired, refresh_key, reset_key,
  generate_token_pair, refresh_of, invalidate, rotate_refresh_token, revoke_refresh,
  new_password_reset_token, consume, consume_password_reset_token,
}

apart_none :
    {V : Type 0} {o : Option V} {k j : String} (p : Option V)
    → k ≢ j
    → o ≡ none
    → (if k === j then p else o) ≡ none
apart_none {k} {j} p h e = ground (arith, eq_iff k j, e)

module _ (r : Stores) where
  rotate_gone :
      (s : State r) (now : ℕ) (old : r.tokens.Token) (user jti fresh : String) (o : Origin)
      → refresh_of r (r.tokens.verify now old) ≡ some (user, jti)
      → r.refreshes.get s.refreshes now (refresh_key jti) ≡ none
      → rotate_refresh_token r s now old o fresh ≡ (s, err refresh_expired)
  unfolding rotate_refresh_token
  rotate_gone s now old user jti fresh o v g = rw (v, rotate_refresh_token) (rw g)

  pub rotate_live :
      (s : State r) (now : ℕ) (old : r.tokens.Token) (user jti fresh : String) (o : Origin)
      (f : Refresh)
      → refresh_of r (r.tokens.verify now old) ≡ some (user, jti)
      → r.refreshes.get s.refreshes now (refresh_key jti) ≡ some f
      → rotate_refresh_token r s now old o fresh ≡ (
          let (t, pair) =
            generate_token_pair r (invalidate r s now user jti) now user none o fresh in
          (t, ok pair))
  unfolding rotate_refresh_token
  rotate_live s now old user jti fresh o f v g = rw (v, rotate_refresh_token) (rw g)

  pub generated-get :
      (s : State r) (now at : ℕ) (user fresh : String) (o : Origin) (key : String)
      → now ≤ at
      → r.refreshes.get (generate_token_pair r s now user none o fresh).0.refreshes at key ≡ (
          if refresh_key fresh === key
          then (if ltb at (now + r.refresh_ttl_sec * 1000)
              then some (record { user_id = user; jti = fresh })
              else none)
          else r.refreshes.get s.refreshes at key)
  unfolding generate_token_pair
  generated-get s now at user fresh o key h =
      r.refreshes.get-set_ex s.refreshes now at (refresh_key fresh) key _ (r.refresh_ttl_sec * 1000)
        h

  -- A refresh token is good once. Where the identifier drawn for the new pair is another, a token
  -- that has been exchanged is refused from then on as long as it says the same, and the state stays.
  pub rotate_refresh_token-once :
      (s : State r) (now at : ℕ) (old : r.tokens.Token) (user jti fresh later : String)
      (o p : Origin) (f : Refresh)
      → now ≤ at
      → refresh_key fresh ≢ refresh_key jti
      → refresh_of r (r.tokens.verify now old) ≡ some (user, jti)
      → refresh_of r (r.tokens.verify at old) ≡ some (user, jti)
      → r.refreshes.get s.refreshes now (refresh_key jti) ≡ some f
      → rotate_refresh_token r (rotate_refresh_token r s now old o fresh).0 at old p later
        ≡ ((rotate_refresh_token r s now old o fresh).0, err refresh_expired)
  rotate_refresh_token-once s now at old user jti fresh later o p f h other v w g =
      let t = (rotate_refresh_token r s now old o fresh).0 in
      let made = ap (λ x. x.0.refreshes) (rotate_live s now old user jti fresh o f v g) in
      let key = refresh_key jti in
      let base = invalidate r s now user jti in
      let kept = generated-get base now at user fresh o key h in
      let deleted = r.refreshes.get-del s.refreshes at key key in
      let gone : r.refreshes.get t.refreshes at key ≡ none =
        ap (λ l. r.refreshes.get l at key) made
        ∙ kept
        ∙ apart_none _ other (deleted ∙ rw (eq_refl key)) in
      rotate_gone t at old user jti later p w gone

  -- The pair that a rotation gives can be rotated in turn until the refresh token expires.
  pub rotate_refresh_token-again :
      (s : State r) (now at : ℕ) (old : r.tokens.Token) (user jti fresh later : String)
      (o p : Origin) (f : Refresh)
      → now ≤ at
      → at < now + r.refresh_ttl_sec * 1000
      → (fresh === "") ≡ false
      → refresh_of r (r.tokens.verify now old) ≡ some (user, jti)
      → r.refreshes.get s.refreshes now (refresh_key jti) ≡ some f
      → (t : State r) × (pair : TokenPair r.tokens.Token) × (u : State r) × (next : TokenPair
          r.tokens.Token)
        × (rotate_refresh_token r s now old o fresh ≡ (t, ok pair))
        × (rotate_refresh_token r t at pair.refresh_token p later ≡ (u, ok next))
        × (next.refresh_id ≡ later)
  unfolding generate_token_pair
  rotate_refresh_token-again s now at old user jti fresh later o p f h b named v g =
      let base = invalidate r s now user jti in
      let (t, pair) = generate_token_pair r base now user none o fresh in
      let (u, next) = generate_token_pair r (invalidate r t at user fresh) at user none p later in
      let in_time = lt→ltb at (now + r.refresh_ttl_sec * 1000) b in
      let says : refresh_of r (r.tokens.verify at pair.refresh_token) ≡ some (user, fresh) =
        ap (refresh_of r) (r.tokens.verify-sign_refresh now at user fresh r.refresh_ttl_sec in_time)
        ∙ rw named in
      let live =
        generated-get base now at user fresh o (refresh_key fresh) h
        ∙ rw (eq_refl (refresh_key fresh), in_time) in
      (
        t,
        pair,
        u,
        next,
        rotate_live s now old user jti fresh o f v g,
        rotate_live t at pair.refresh_token user fresh later p
            (record { user_id = user; jti = fresh }) says live,
        refl,
      )

  revoke_refresh-refreshes :
      (s : State r) (now : ℕ) (jti : String)
      → (revoke_refresh r s now jti).refreshes ≡ r.refreshes.del s.refreshes (refresh_key jti)
  unfolding revoke_refresh
  revoke_refresh-refreshes s now jti = ground arith

  -- Once a session is revoked, by whoever knows its identifier, its refresh token is refused.
  pub rotate_refresh_token-revoked :
      (s : State r) (now at : ℕ) (old : r.tokens.Token) (user jti fresh : String) (o : Origin)
      → refresh_of r (r.tokens.verify at old) ≡ some (user, jti)
      → rotate_refresh_token r (revoke_refresh r s now jti) at old o fresh
        ≡ (revoke_refresh r s now jti, err refresh_expired)
  rotate_refresh_token-revoked s now at old user jti fresh o v =
      let key = refresh_key jti in
      let gone : r.refreshes.get (revoke_refresh r s now jti).refreshes at key ≡ none =
        ap (λ l. r.refreshes.get l at key) (revoke_refresh-refreshes s now jti)
        ∙ r.refreshes.get-del s.refreshes at key key
        ∙ rw (eq_refl key) in
      rotate_gone (revoke_refresh r s now jti) at old user jti fresh o v gone

  pub consume_found :
      (s : State r) (now : ℕ) (token user : String)
      → r.tokens_of_users.get s.tokens_of_users now (reset_key token) ≡ some user
      → consume_password_reset_token r s now token ≡ (
        record s { tokens_of_users = r.tokens_of_users.del s.tokens_of_users (reset_key token) },
        some user,
      )
  consume_found s now token user h = rw (h, consume_password_reset_token, consume)

  consume_missing :
      (s : State r) (now : ℕ) (token : String)
      → r.tokens_of_users.get s.tokens_of_users now (reset_key token) ≡ none
      → consume_password_reset_token r s now token ≡ (s, none)
  consume_missing s now token h = rw (h, consume_password_reset_token, consume)

  -- A token for a new password is good once, within half an hour, and gives the user it was made for.
  pub consume-new_password_reset_token :
      (s : State r) (now at later : ℕ) (user token : String)
      → now ≤ at
      → at < now + 1800000
      → ((consume_password_reset_token r (new_password_reset_token r s now user token) at token).1
          ≡ some user)
        × ((consume_password_reset_token r
              (consume_password_reset_token r
                (new_password_reset_token r s now user token)
                at
                token).0
              later
              token).1
            ≡ none)
  consume-new_password_reset_token s now at later user token h b =
      let made = new_password_reset_token r s now user token in
      let key = reset_key token in
      let found =
        r.tokens_of_users.get-set_ex s.tokens_of_users now at key key user 1800000 h
        ∙ rw (eq_refl key, lt→ltb at (now + 1800000) b) in
      let used = consume_found made at token user found in
      let gone = r.tokens_of_users.get-del made.tokens_of_users later key key ∙ rw (eq_refl key) in
      (
        ap (λ o. o.1) used,
        ap (λ o. (consume_password_reset_token r o.0 later token).1) used
            ∙ ap (λ o. o.1)
                (consume_missing
                  (record made { tokens_of_users = r.tokens_of_users.del made.tokens_of_users key })
                  later token gone),
      )
