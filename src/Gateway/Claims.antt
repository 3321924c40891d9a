-- ===== src/Gateway/Claims.antt =====
-- The claims of sections: `onSectionClaim` and `onSectionRelease` of api/src/ws/ws.gateway.ts.
-- A number in a message is not negative; where its lowest 32 bits make it so, `from` and `to` are as
-- 0 here and `ttlSec` as 1, which come to the same. A
-- claim is stored as its JSON text, here as itself. The Redis commands succeed, and an event to the
-- room is also sent to the other instances.
pub mod Owners
use Prim.Native.String
use realtime_collaborative_e.Base.{
  int32, ℕ, ◌+◌, ◌*◌, min, max, String, Bool, true, false, ◌||◌, Option, none, some, List, [], ◌∷◌,
  ◌==◌, ◌===◌, if◌then◌else◌, Result, ok, err,
}
use realtime_collaborative_e.Redis.{KeyStore, SetStore}
use realtime_collaborative_e.Gateway.{
  Client, Throw, not_authenticated, document_required, invalid_payload,
}

pub record ClaimPayload : Type 0 where
  pub document_id : String
  pub from : ℕ
  pub to : ℕ
  pub ttl_sec : ℕ
  pub msg_id : Option String

pub record ReleasePayload : Type 0 where
  pub document_id : String
  pub claim_id : String
  pub msg_id : Option String

-- `data`
pub record Claim : Type 0 where
  pub claim_id : String
  pub document_id : String
  pub from : ℕ
  pub to : ℕ
  pub user_id : String
  pub ts : ℕ
  pub ttl : ℕ

pub data Act : Type 0 where
  claimed : Claim → Act
  released : String → String → String → Act
  ack : Option String → Option String → Act

-- The keys of the claims, and the set of them for each document.
pub record Stores : Type 1 where
  pub claims : KeyStore Claim
  pub sets : SetStore

pub record ClaimState (r : Stores) : Type 0 where
  pub claims : r.claims.Store
  pub sets : r.sets.Store

-- `ws:section:doc:…`
abbrev pub set_key : String → String
set_key id = String.◌++◌ "ws:section:doc:" id

abbrev pub claim_key : String → String → String
claim_key id claim_id = String.◌++◌ (set_key id) (String.◌++◌ ":" claim_id)

abbrev pub claim_from : ℕ → ℕ
claim_from n = max 1 (int32 0 n)

abbrev pub claim_ttl : ℕ → ℕ
claim_ttl n = let m = int32 1 n in min 600 (max 10 (if m == 0 then 60 else m))

module _ (r : Stores) where
  abbrev pub store_claim : ClaimState r → ℕ → Claim → ClaimState r
  store_claim s now c =
      let key = claim_key c.document_id c.claim_id in
      let sets = (r.sets.sadd s.sets now (set_key c.document_id) key).0 in
      record {
        claims = r.claims.set_ex s.claims now key c (c.ttl * 1000);
        sets = r.sets.expire sets now (set_key c.document_id) (max c.ttl 120 * 1000);
      }

  -- `onSectionClaim`; `claim_id` is the identifier that it draws.
  pub on_section_claim :
      ClaimState r
      → ℕ
      → Client
      → ClaimPayload
      → String
      → ClaimState r × List Act × Result Throw (Unit {0})
  on_section_claim s now client p claim_id = elim client.user [
    | none ↦ (s, [], err not_authenticated)
    | some user ↦
        let from = claim_from p.from in
        let c : Claim = record {
          claim_id = claim_id;
          document_id = p.document_id;
          from = from;
          to = max from (int32 0 p.to);
          user_id = user;
          ts = now;
          ttl = claim_ttl p.ttl_sec;
        } in
        if p.document_id === ""
        then (s, [], err document_required)
        else (store_claim s now c, claimed c ∷ ack p.msg_id (some claim_id) ∷ [], ok tt)
  ]

  abbrev pub forget_claim : ClaimState r → ℕ → String → String → ClaimState r
  forget_claim s now id claim_id = record {
    claims = r.claims.del s.claims (claim_key id claim_id);
    sets = r.sets.srem s.sets now (set_key id) (claim_key id claim_id);
  }

  -- The `try` of `onSectionRelease`, whose `catch` also takes the error `Not owner`.
  pub try_release : ClaimState r → ℕ → String → String → String → ClaimState r
  try_release s now user id claim_id = elim (r.claims.get s.claims now (claim_key id claim_id)) [
    | none ↦ forget_claim s now id claim_id
    | some c ↦ if c.user_id === user then forget_claim s now id claim_id else s
  ]

  -- `onSectionRelease`
  pub on_section_release :
      ClaimState r → ℕ → Client → ReleasePayload → ClaimState r × List Act × Result Throw (Unit {0})
  on_section_release s now client p = elim client.user [
    | none ↦ (s, [], err not_authenticated)
    | some user ↦
        if p.document_id === "" || p.claim_id === "" then (s, [], err invalid_payload) else (
          try_release s now user p.document_id p.claim_id,
          released p.claim_id p.document_id user ∷ ack p.msg_id none ∷ [],
          ok tt,
        )
  ]
