-- ===== src/Comments/Owners.antt =====
-- Who may change or delete a comment, and what a change may touch.
use realtime_collaborative_e.Base.{
  ℕ, String, ◌≡◌, ap, ◌∙◌, true, false, Option, some, [], ◌===◌, if◌then◌else◌, eq_refl, err,
}
use realtime_collaborative_e.Base.Map
use realtime_collaborative_e.Base.Map.{get-set}
use realtime_collaborative_e.Comments.{
  Comment, Patch, Author, not_owner, State, update_by_id, user_text, patched, Answer,
}
use realtime_collaborative_e.Comments.Changes.{owned, update, remove}

pub update_by_id-get :
    (s : State) (now : ℕ) (id j : String) (change : Comment → Comment) (c : Comment)
    → Map.get s.comments id ≡ some c
    → Map.get (update_by_id s now id change).0.comments j
      ≡ (if id === j then some (record (change c) { updated_at = now }) else Map.get s.comments j)
unfolding update_by_id
update_by_id-get s now id j change c h =
    rw h (get-set s.comments id j (record (change c) { updated_at = now }))

owned_other :
    {A : Type 0} (s : State) (id : String) (user : Option Author) (k : Comment → Answer A)
    (c : Comment)
    → Map.get s.comments id ≡ some c
    → (c.author_id === user_text user) ≡ false
    → owned s id user k ≡ (s, [], err not_owner)
owned_other s id user k c h n = rw (h, owned) (rw n)

owned_self :
    {A : Type 0} (s : State) (id : String) (user : Option Author) (k : Comment → Answer A)
    (c : Comment)
    → Map.get s.comments id ≡ some c
    → (c.author_id === user_text user) ≡ true
    → owned s id user k ≡ k c
owned_self s id user k c h n = rw (h, owned) (rw n)

-- Somebody who is not the author of a comment can neither change nor delete it: both calls answer
-- that he is not the owner, change no comment and publish nothing.
pub update_remove-not_owner :
    (s : State) (now : ℕ) (id : String) (body : Patch) (user : Option Author) (c : Comment)
    → Map.get s.comments id ≡ some c
    → (c.author_id === user_text user) ≡ false
    → (update s now id body user ≡ (s, [], err not_owner))
      × (remove s now id user ≡ (s, [], err not_owner))
unfolding update remove
update_remove-not_owner s now id body user c h n =
    (owned_other s id user _ c h n, owned_other s id user _ c h n)

-- The body of a change is stored as it comes, the fields of no reader's concern included: an author
-- can hand his comment over to anybody and to any document. If the body names an author and a
-- document, the comment then has these; and the other comments stay.
pub update-moves :
    (s : State) (now : ℕ) (id j : String) (body : Patch) (user : Option Author) (c : Comment)
    (author document_id : String)
    → Map.get s.comments id ≡ some c
    → (c.author_id === user_text user) ≡ true
    → body.author_id ≡ some author
    → body.document_id ≡ some document_id
    → (d : Comment) × (Map.get (update s now id body user).0.comments id ≡ some d)
      × (d.author_id ≡ author)
      × (d.document_id ≡ document_id)
      × (Map.get (update s now id body user).0.comments j
          ≡ (if id === j then some d else Map.get s.comments j))
unfolding update
update-moves s now id j body user c author document_id h n a b =
    let d : Comment = record (patched body c) { updated_at = now } in
    let same = ap (λ o. o.0.comments) (owned_self s id user _ c h n) in
    let at_id = update_by_id-get s now id id (patched body) c h in
    (
      d,
      ap (λ m. Map.get m id) same ∙ at_id ∙ (rw (eq_refl id)),
      rw a,
      rw b,
      ap (λ m. Map.get m j) same ∙ update_by_id-get s now id j (patched body) c h,
    )
