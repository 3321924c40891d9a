-- ===== src/Comments/Scales.antt =====
-- Bounds: the priority of a comment that is escalated, and the length of a guest's identifier.
use Prim.Native.String
use text.Mathlib.TextLemmas.{length-append, length-cons}
use realtime_collaborative_e.Base.{
  ℕ, zero, suc, ◌+◌, min, String, ◌≡◌, refl, ◌∙◌, some, List, [], ◌∷◌, arith, eq_refl, length, inl,
  inr, Bool-cases, ltb,
}
use realtime_collaborative_e.Base.Map
use realtime_collaborative_e.Comments.{Comment, State}
use realtime_collaborative_e.Comments.Changes.{escalate}
use realtime_collaborative_e.Comments.Owners.{update_by_id-get}
use realtime_collaborative_e.Comments.Text.{slice, guest_id, hex, bytes}

-- One escalation at each of the times.
abbrev pub escalate_all : State → String → List ℕ → State
escalate_all s id [] = s
escalate_all s id (now ∷ times) = escalate_all (escalate s now id).0 id times

escalate-get :
    (s : State) (now : ℕ) (id : String) (c : Comment)
    → Map.get s.comments id ≡ some c
    → (d : Comment) × (Map.get (escalate s now id).0.comments id ≡ some d)
      × (d.priority ≡ min 10 (c.priority + 1))
unfolding escalate
escalate-get s now id c h =
    let change : Comment → Comment =
      λ d. record d { priority = min 10 (c.priority + 1); escalated_at = some now } in
    (
      record (change c) { updated_at = now },
      rw (h, escalate) (update_by_id-get s now id id change c h ∙ rw (eq_refl id)),
      refl,
    )

-- However often a comment is escalated, at least once, its priority is the first one and the number
-- of escalations together, but at most 10: one that starts above 10 comes down to 10.
pub escalate_all-priority :
    (s : State) (id : String) (now : ℕ) (times : List ℕ) (c : Comment)
    → Map.get s.comments id ≡ some c
    → (d : Comment) × (Map.get (escalate_all s id (now ∷ times)).comments id ≡ some d)
      × (d.priority ≡ min 10 (c.priority + length (now ∷ times)))
escalate_all-priority s id now [] c h = escalate-get s now id c h
escalate_all-priority s id now (later ∷ times) c h =
    let (d, g, p) = escalate-get s now id c h in
    let (e, f, q) = escalate_all-priority (escalate s now id).0 id later times d g in
    (e, f, omega (arith, p, q))

count_nil : String.count String.[] ≡ 0
count_nil = refl

pub count-slice : (n : ℕ) (s : String) → String.count (slice n s) ≡ min n (String.count s)
unfolding slice
count-slice zero s = omega arith
count-slice (suc n) String.[] = omega (arith, count_nil)
count-slice (suc n) (String.◌∷◌ c s) =
    omega (arith, count-slice n s, length-cons c s, length-cons c (slice n s))

-- The identifier of a guest has 24 digits, as many as the database wants, whatever his token.
pub count-guest_id : (token : String) → String.count (guest_id token) ≡ 24
unfolding guest_id
count-guest_id token =
    let h : String = hex (bytes token) in
    let zeros : String = "000000000000000000000000" in
    let more = length-append h zeros in
    elim (Bool-cases (ltb (String.count h) 24)) [
      | inl short ↦
          rw (short, guest_id)
            (omega (
              arith,
              more,
              count-slice 24 (String.◌++◌ h zeros),
              count-slice 24 (slice 24 (String.◌++◌ h zeros)),
            ))
      | inr long ↦ rw (long, guest_id) (ground (arith, count-slice 24 h, long))
    ]
