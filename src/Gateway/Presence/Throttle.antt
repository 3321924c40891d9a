-- ===== src/Gateway/Presence/Throttle.antt =====
-- How often a user's presence in a document is let through.
use Prim.Native.String
use realtime_collaborative_e.Base.{
  ℕ, ◌+◌, ◌≤◌, String, ◌≡◌, refl, ap, ◌∙◌, ◌≢◌, ◌⊎◌, inl, inr, Bool, true, false, none, some, List,
  [], ltb, ◌===◌, arith, eq_refl, Bool-cases,
}
use realtime_collaborative_e.Base.Map
use realtime_collaborative_e.Gateway.{Client}
use realtime_collaborative_e.Gateway.Text.{trim}
use realtime_collaborative_e.Gateway.Updates.{Server, allow_ws_message}
use realtime_collaborative_e.Gateway.Presence.{
  PresencePayload, Act, Presences, presence_key, last_of, announce, admit, on_presence,
}

last_of-set : (m : Map.Map ℕ) (k : String) (now : ℕ) → last_of (Map.set m k now) k ≡ now
last_of-set m k now =
    let stored : Map.get (Map.set m k now) k ≡ some now =
      Map.get-set m k k now ∙ ground (arith, eq_refl k) in
    ap (λ o. elim o [ none ↦ 0 | some t ↦ t ]) stored

module _ (v : Server) (presence_min_ms : ℕ) where
  -- Nothing is done of the presence, or it was not throttled, and leaves its time behind.
  abbrev Spaced : Presences v → ℕ → String → Presences v → List Act → Type 0
  Spaced s now k s' acts =
      (acts ≡ []) ⊎ ((last_of s.last k + presence_min_ms ≤ now) × (last_of s'.last k ≡ now))

  announce-Spaced :
      (s : Presences v) (now : ℕ) (user : String) (p : PresencePayload) (drop : Bool)
      → let r = announce v presence_min_ms s now user p drop in
        Spaced s now (presence_key (trim p.document_id) user) r.0 r.1
  unfolding announce
  announce-Spaced s now user p drop =
      let k = presence_key (trim p.document_id) user in
      elim (Bool-cases (ltb now (last_of s.last k + presence_min_ms))) [
        | inl early ↦ inl (rw early)
        | inr late ↦ rw late (inr (ground arith, last_of-set s.last k now))
      ]

  admit-Spaced :
      (s : Presences v) (now : ℕ) (user : String) (p : PresencePayload) (drop b : Bool)
      → let r = admit v presence_min_ms s now user p drop b in
        Spaced s now (presence_key (trim p.document_id) user) r.0 r.1
  unfolding admit
  admit-Spaced s now user p drop false = inl refl
  admit-Spaced s now user p drop true = elim (Bool-cases (trim p.document_id === "")) [
    | inl e ↦ rw e (inl refl)
    | inr e ↦ rw e (announce-Spaced s now user p drop)
  ]

  on_presence-Spaced :
      (s : Presences v) (now : ℕ) (client : Client) (user : String) (p : PresencePayload)
      (drop : Bool)
      → client.user ≡ some user
      → let r = on_presence v presence_min_ms s now client p drop in
        Spaced s now (presence_key (trim p.document_id) user) r.0 r.1
  unfolding on_presence
  on_presence-Spaced s now client user p drop u =
      let limit = allow_ws_message v s.counters now (String.◌++◌ "user:" user) in
      rw u (admit-Spaced (record s { counters = limit.0 }) now user p drop limit.1)

  -- Two presences of one user in one document of which the handler keeps or sends something, the
  -- later one with the times that the former left, are at least `presence_min_ms` apart.
  pub on_presence-spaced :
      (s : Presences v) (now : ℕ) (client : Client) (p : PresencePayload) (drop : Bool)
      (user : String) (s' : Presences v) (at : ℕ) (client' : Client) (p' : PresencePayload)
      (drop' : Bool)
      → client.user ≡ some user
      → client'.user ≡ some user
      → trim p'.document_id ≡ trim p.document_id
      → s'.last ≡ (on_presence v presence_min_ms s now client p drop).0.last
      → (on_presence v presence_min_ms s now client p drop).1 ≢ []
      → (on_presence v presence_min_ms s' at client' p' drop').1 ≢ []
      → now + presence_min_ms ≤ at
  on_presence-spaced s now client p drop user s' at client' p' drop' u u' same link acts acts' =
      elim (on_presence-Spaced s now client user p drop u) [
        | inl none_done ↦ absurd (acts none_done)
        | inr (_, left) ↦ elim (on_presence-Spaced s' at client' user p' drop' u') [
          | inl none_done ↦ absurd (acts' none_done)
          | inr (late, _) ↦
              let k = presence_key (trim p.document_id) user in
              let found : last_of s'.last (presence_key (trim p'.document_id) user) ≡ now =
                ap (λ id. last_of s'.last (presence_key id user)) same
                ∙ ap (λ m. last_of m k) link
                ∙ left in
              omega (arith, late, found)
        ]
      ]
