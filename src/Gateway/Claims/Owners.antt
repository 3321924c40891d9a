-- ===== src/Gateway/Claims/Owners.antt =====
-- How long a claim stands, and who can end it.
use realtime_collaborative_e.Base.{
  int32, ℕ, ◌+◌, ◌*◌, ◌≤◌, ◌<◌, max, String, ◌≡◌, refl, ◌∙◌, true, false, none, some, [], ◌∷◌,
  ◌===◌, if◌then◌else◌, arith, eq_refl, ok, Bool-cases, inl, inr, lt→ltb,
}
use realtime_collaborative_e.Gateway.{Client}
use realtime_collaborative_e.Gateway.Claims.{
  ClaimPayload, ReleasePayload, Claim, claimed, released, ack, Stores, ClaimState, set_key,
  claim_key, claim_from, claim_ttl, store_claim, on_section_claim, try_release, on_section_release,
}

module _ (r : Stores) where
  -- The claim that `onSectionClaim` makes.
  abbrev pub made : ℕ → String → ClaimPayload → String → Claim
  made now user p claim_id = record {
    claim_id = claim_id;
    document_id = p.document_id;
    from = claim_from p.from;
    to = max (claim_from p.from) (int32 0 p.to);
    user_id = user;
    ts = now;
    ttl = claim_ttl p.ttl_sec;
  }

  claim-eq :
      (s : ClaimState r) (now : ℕ) (client : Client) (p : ClaimPayload) (claim_id user : String)
      → client.user ≡ some user
      → (p.document_id === "") ≡ false
      → on_section_claim r s now client p claim_id ≡ (
        store_claim r s now (made now user p claim_id),
        claimed (made now user p claim_id) ∷ ack p.msg_id (some claim_id) ∷ [],
        ok tt,
      )
  unfolding on_section_claim
  claim-eq s now client p claim_id user u d = rw (u, d, on_section_claim)

  -- A claim of a signed-in client is an interval from 1 on, stands for at least ten seconds and at
  -- most ten minutes, and until then is found under its key and in the set of its document.
  pub on_section_claim-stands :
      (s : ClaimState r) (now at : ℕ) (client : Client) (p : ClaimPayload) (claim_id user : String)
      → client.user ≡ some user
      → (p.document_id === "") ≡ false
      → now ≤ at
      → at < now + claim_ttl p.ttl_sec * 1000
      → let s' = (on_section_claim r s now client p claim_id).0 in
        (c : Claim) × (c.user_id ≡ user)
        × (1 ≤ c.from)
        × (c.from ≤ c.to)
        × (10 ≤ c.ttl)
        × (c.ttl ≤ 600)
        × (r.claims.get s'.claims at (claim_key p.document_id claim_id) ≡ some c)
        × (r.sets.has s'.sets at (set_key p.document_id) (claim_key p.document_id claim_id) ≡ true)
  on_section_claim-stands s now at client p claim_id user u d lo hi =
      let c = made now user p claim_id in
      let key = claim_key p.document_id claim_id in
      let found : r.claims.get (r.claims.set_ex s.claims now key c (c.ttl * 1000)) at key ≡ some c =
        r.claims.get-set_ex s.claims now at key key c (c.ttl * 1000) lo
        ∙ rw (eq_refl key, lt→ltb at (now + c.ttl * 1000) hi) in
      let listed =
        r.sets.has-expire-sadd s.sets now at (set_key p.document_id) key (max c.ttl 120 * 1000) lo
          (omega (arith, hi)) in
      (
        c,
        refl,
        omega arith,
        omega arith,
        omega arith,
        omega arith,
        rw (claim-eq s now client p claim_id user u d) found,
        rw (claim-eq s now client p claim_id user u d) listed,
      )

  release-eq :
      (s : ClaimState r) (now : ℕ) (client : Client) (p : ReleasePayload) (user : String)
      → client.user ≡ some user
      → (p.document_id === "") ≡ false
      → (p.claim_id === "") ≡ false
      → on_section_release r s now client p ≡ (
        try_release r s now user p.document_id p.claim_id,
        released p.claim_id p.document_id user ∷ ack p.msg_id none ∷ [],
        ok tt,
      )
  unfolding on_section_release
  release-eq s now client p user u d c = rw (u, d, c, on_section_release)

  -- A claim that stands is gone after a release exactly if the releasing user made it; a defect: in
  -- either case the room is told that it was released, and the client that it succeeded.
  pub on_section_release-owner :
      (s : ClaimState r) (now : ℕ) (client : Client) (p : ReleasePayload) (user : String)
      (c : Claim)
      → client.user ≡ some user
      → (p.document_id === "") ≡ false
      → (p.claim_id === "") ≡ false
      → r.claims.get s.claims now (claim_key p.document_id p.claim_id) ≡ some c
      → let (s', acts, answer) = on_section_release r s now client p in
        (r.claims.get s'.claims now (claim_key p.document_id p.claim_id)
          ≡ (if c.user_id === user then none else some c))
        × (acts ≡ released p.claim_id p.document_id user ∷ ack p.msg_id none ∷ [])
        × (answer ≡ ok tt)
  unfolding try_release
  on_section_release-owner s now client p user c u d e got =
      let key = claim_key p.document_id p.claim_id in
      let gone : r.claims.get (r.claims.del s.claims key) now key ≡ none =
        r.claims.get-del s.claims now key key ∙ rw (eq_refl key) in
      rw (release-eq s now client p user u d e) (elim (Bool-cases (c.user_id === user)) [
        | inl own ↦ (rw (got, own, try_release) gone, refl, refl)
        | inr other ↦ (rw (got, other, try_release) got, refl, refl)
      ])
