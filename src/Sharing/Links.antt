-- ===== src/Sharing/Links.antt =====
-- What a link grants, and to whom the route grants links.
use Prim.Native.String
use text.Mathlib.TextLemmas.{append-eq-nil_iff}
use realtime_collaborative_e.Base.{
  ℕ, ◌+◌, ◌*◌, ◌≤◌, ◌<◌, String, ◌≡◌, refl, ap, ◌∙◌, true, false, Option, none, some, [], ◌===◌,
  ltb, lt→ltb, ok, eq_refl, eq_iff, Bool-cases, inl, inr, arith, or_text,
}
use realtime_collaborative_e.Redis.{KeyStore}
use realtime_collaborative_e.Access.{
  Directory, User, Request, truthy, or_else, can_activate, at_least, rank, required_role,
}
use realtime_collaborative_e.Access.Laws.{can_activate-share, can_activate-no_param}
use realtime_collaborative_e.Sharing.{
  Link, LinkBody, Checks, Headers, link_key, lifetime, new_link, create_link, post_link, bearer,
  guest, check_pass, auth_guard,
}

truthy_named : (s : String) → (s === "") ≡ false → truthy (some s) ≡ some s
truthy_named s h = rw h

or_else_named : (s : String) → (s === "") ≡ false → or_else (some s) none ≡ some s
or_else_named s h = ap (λ o. elim o [ none ↦ none | some t ↦ some t ]) (truthy_named s h)

guest_named : (token : String) → (String.◌++◌ "guest:" token === "") ≡ false
guest_named token = elim (Bool-cases (String.◌++◌ "guest:" token === "")) [
  | inr other ↦ other
  | inl e ↦ ground (
    arith,
    eq_iff "guest:" "",
    (append-eq-nil_iff.0 ((eq_iff (String.◌++◌ "guest:" token) "").0 e)).0,
  )
]

module _ (links : KeyStore Link) (c : Checks) (dir : Directory) where
  post_link-stored :
      (s : links.Store) (now : ℕ) (user : User) (body : LinkBody) (token id : String)
      → (user.id === "") ≡ false
      → truthy body.document_id ≡ some id
      → post_link links c dir s now user body token ≡ (
        links.set_ex s now
            (link_key token)
            (new_link links c now user.id id body)
            (lifetime body.expires_in_sec * 1000),
        ok token,
      )
  unfolding post_link
  post_link-stored s now user body token id u d =
      let request : Request = record {
        user = some user;
        id_param = none;
        document_id_param = none;
      } in
      let passes = can_activate-no_param dir (some "editor") request user.id (rw u) refl in
      rw (passes, post_link) (rw (d, create_link))

  auth_guard-guest :
      (s : links.Store) (now : ℕ) (h : Headers) (token : String) (l : Link)
      → bearer links c h.authorization ≡ none
      → truthy (or_else h.share_token_header h.share_token_query) ≡ some token
      → links.get s now (link_key token) ≡ some l
      → truthy l.password_hash ≡ none
      → auth_guard links c s now h ≡ ok (guest links c token l)
  unfolding auth_guard
  auth_guard-guest s now h token l b t g p = rw (b, t, g, auth_guard) (rw (p, check_pass))

  -- The route that makes links has no document in its path, so that its guard passes every signed-in
  -- user: he can make a link for any document, of any role. If he sets no password, then for at least
  -- a minute a request with its token and without a bearer token passes both guards of a route for
  -- that document that needs a role which the link's role covers, whatever the permissions are.
  pub post_link-opens :
      (s : links.Store) (now at : ℕ) (user : User) (body : LinkBody) (token id : String)
      (meta : Option String) (h : Headers)
      → (user.id === "") ≡ false
      → truthy body.document_id ≡ some id
      → (id === "") ≡ false
      → truthy body.password ≡ none
      → at_least (rank (or_text body.role "viewer")) (rank (required_role meta)) ≡ true
      → bearer links c h.authorization ≡ none
      → truthy (or_else h.share_token_header h.share_token_query) ≡ some token
      → now ≤ at
      → at < now + 60000
      → (g : User) × ((post_link links c dir s now user body token).1 ≡ ok token)
        × (auth_guard links c (post_link links c dir s now user body token).0 at h ≡ ok g)
        × (can_activate dir meta
              (record { user = some g; id_param = some id; document_id_param = none })
            ≡ ([], ok tt))
  post_link-opens s now at user body token id meta h u d named p covers b t lo hi =
      let l = new_link links c now user.id id body in
      let g = guest links c token l in
      let stored = post_link-stored s now user body token id u d in
      let key = link_key token in
      let live : ltb at (now + lifetime body.expires_in_sec * 1000) ≡ true =
        lt→ltb at _ (omega (arith, hi)) in
      let found : links.get (post_link links c dir s now user body token).0 at key ≡ some l =
        ap (λ o. links.get o.0 at key) stored
        ∙ links.get-set_ex s now at key key l (lifetime body.expires_in_sec * 1000) lo
        ∙ rw (eq_refl key, live) in
      let open_ : truthy l.password_hash ≡ none =
        ap (λ o. truthy (elim o [ none ↦ none | some w ↦ some (c.hash w) ])) p in
      (
        g,
        ap (λ o. o.1) stored,
        auth_guard-guest (post_link links c dir s now user body token).0 at h token l b t found
            open_,
        can_activate-share dir meta
            (record { user = some g; id_param = some id; document_id_param = none }) g.id id l.role
            (rw (guest_named token)) (ap truthy (or_else_named id named) ∙ truthy_named id named)
            (rw (eq_refl id)) covers,
      )
