-- ===== src/Comments/Threads/Notified.antt =====
-- Whom a new comment notifies.
use realtime_collaborative_e.Base.{
  or_text, ℕ, String, ◌≡◌, refl, inl, inr, true, false, Option, none, some, List, [], ◌∷◌, ◌++◌,
  All, ◌===◌, arith, Bool-cases, Option-cases, append_assoc, append_nil, sym, subst, ap, ◌∙◌,
}
use realtime_collaborative_e.Access.{truthy, can_access_doc}
use realtime_collaborative_e.Comments.{
  Comment, Body, Author, Notification, Publication, State, Services, user_text, update_by_id,
  integration, metric,
}
use realtime_collaborative_e.Comments.Threads.{
  users_of, extract_mentions, notify_each, announce, notification, create, comment_of, store,
  scored, is_guest,
}

or_text-truthy : (o : Option String) (t : String) → truthy o ≡ some t → t ≡ or_text o ""
or_text-truthy none t h = cc
or_text-truthy (some a) t h = ground (arith, h)

module _ (v : Services) where
  -- Somebody else who may open the document.
  abbrev pub Addressed : String → Option Author → Notification → Type 0
  Addressed document_id user n =
      ((n.user_id === user_text user) ≡ false)
      × (can_access_doc v.directory n.user_id document_id ≡ true)
      × (n.document_id ≡ document_id)

  MayOpen : String → String → Type 0
  MayOpen document_id u = can_access_doc v.directory u document_id ≡ true

  users_of-MayOpen :
      (emails : List String) (document_id : String)
      → All (MayOpen document_id) (users_of v emails document_id)
  unfolding users_of MayOpen
  users_of-MayOpen [] document_id = tt
  users_of-MayOpen (email ∷ emails) document_id =
      let rest = users_of-MayOpen emails document_id in
      elim (Option-cases (v.find_by_email email)) [
        | inl none_found ↦ rw (none_found, users_of) rest
        | inr (u, found) ↦ elim (Bool-cases (can_access_doc v.directory u document_id)) [
          | inl allowed ↦ rw (found, users_of) (rw allowed (allowed, rest))
          | inr denied ↦ rw (found, users_of) (rw denied rest)
        ]
      ]

  -- The notifications that a call has added are all of the kind.
  Adds : State → State → (Notification → Type 0) → Type 0
  Adds s t P = (ns : List Notification) × (t.notifications ≡ s.notifications ++ ns) × All P ns

  notify_each-Adds :
      (s : State) (type : String) (c : Comment) (thread : String) (user : Option Author)
      (uids : List String)
      → All (MayOpen c.document_id) uids
      → Adds s (notify_each s type c thread user uids).0 (Addressed c.document_id user)
  unfolding notify_each MayOpen Adds
  notify_each-Adds s type c thread user [] h = ([], sym (append_nil s.notifications), tt)
  notify_each-Adds s type c thread user (uid ∷ uids) (h, hs) =
      let n = notification type c thread user uid in
      let told : State = record s { notifications = s.notifications ++ n ∷ [] } in
      elim (Bool-cases (uid === user_text user)) [
        | inl self ↦ rw (self, notify_each) (notify_each-Adds s type c thread user uids hs)
        | inr other ↦
            let (ns, e, a) = notify_each-Adds told type c thread user uids hs in
            (
              n ∷ ns,
              rw (other, notify_each) (rw e (append_assoc s.notifications (n ∷ []) ns)),
              ((other, h, refl), a),
            )
      ]

  announce-Adds :
      (s : State) (type : String) (c : Comment) (thread : String) (user : Option Author)
      (event counted : Publication)
      → Adds s (announce v s type c thread user event counted).0 (Addressed c.document_id user)
  unfolding announce Adds extract_mentions
  announce-Adds s type c thread user event counted = elim (Bool-cases (is_guest user)) [
    | inl g ↦ rw (g, announce) ([], sym (append_nil s.notifications), tt)
    | inr g ↦
        rw (g, announce)
          (notify_each-Adds s type c thread user (extract_mentions v c.text c.document_id)
            (users_of-MayOpen _ c.document_id))
  ]

  comment_of-document :
      (id : String) (now : ℕ) (user : Option Author) (body : Body) (doc text : String)
      → (comment_of v id now user body doc text).document_id ≡ doc
  comment_of-document id now user body doc text = elim (Option-cases (truthy body.parent_id)) [
    | inl root ↦ rw (root, comment_of)
    | inr (p, e) ↦ rw (e, comment_of)
  ]

  scored-notifications :
      (s : State) (now : ℕ) (id text : String)
      → (scored v s now id text).notifications ≡ s.notifications
  unfolding update_by_id
  scored-notifications s now id text = ground arith

  -- Every notification that the creation of a comment adds is about its document, and goes to
  -- somebody other than the author who may open that document.
  pub create-Addressed :
      (s : State) (now : ℕ) (id : String) (body : Body) (user : Option Author)
      → (ns : List Notification) × ((create v s now id body user).0.notifications
          ≡ s.notifications ++ ns)
        × All (Addressed (or_text body.document_id "") user) ns
  unfolding create Adds
  create-Addressed s now id body user = elim (Option-cases (truthy body.document_id)) [
    | inl missing ↦ rw (missing, create) ([], sym (append_nil s.notifications), tt)
    | inr (doc, has_doc) ↦ elim (Option-cases (truthy body.text)) [
      | inl missing ↦ rw (has_doc, create) (rw missing ([], sym (append_nil s.notifications), tt))
      | inr (text, has_text) ↦
          let saved = comment_of v id now user body doc text in
          let type : String = elim (truthy body.parent_id) [
            | none ↦ "mention"
            | some _ ↦ "reply"
          ] in
          let stored = scored v (store s saved) now id text in
          let (ns, e, a) =
            announce-Adds stored type saved (or_text saved.thread_id id) user
              (integration "comment.created" doc id) (metric "created") in
          rw (has_doc, create)
            (rw has_text (
              ns,
              e ∙ ap (λ l. l ++ ns) (scored-notifications (store s saved) now id text),
              subst (λ d. All (Addressed d user) ns)
                  (comment_of-document id now user body doc text
                    ∙ or_text-truthy body.document_id doc has_doc)
                  a,
            ))
    ]
  ]
