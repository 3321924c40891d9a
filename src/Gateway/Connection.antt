-- ===== src/Gateway/Connection.antt =====
-- `handleConnection` of api/src/ws/ws.gateway.ts. `verify` stands for the verification of a token with
-- the secret of the environment, with the subject and the address in it; `drop` is whether the chaos
-- settings disconnect this client. The audit log and Redis answer.
use Prim.Native.String
use realtime_collaborative_e.Base.{
  String, ◌≡◌, refl, inl, inr, Bool, true, false, Option, none, some, List, [], or_text,
  if◌then◌else◌, Bool-cases, Option-cases,
}
use realtime_collaborative_e.Base.Set
use realtime_collaborative_e.Access.{truthy, or_else}
use realtime_collaborative_e.Gateway.{Client}
use realtime_collaborative_e.Limits.Text.{strip}

pub record Handshake : Type 0 where
  pub origin : Option String
  pub auth_token : Option String
  pub query_token : Option String
  pub authorization : Option String

-- `JwtPayload`, by the fields that are read.
pub record Claims : Type 0 where
  pub sub : String
  pub email : Option String

pub data Refused : Type 0 where
  missing_token invalid_token origin_not_allowed : Refused

-- The socket after the handler: with a user, in the room of the user, or disconnected, in the end
-- with an entry in the audit log.
pub data Outcome : Type 0 where
  connected : Client → String → String → Outcome
  denied : Refused → Outcome
  dropped : Outcome

-- `replace('Bearer ', '')`: the first occurrence
unfoldable pub without_bearer : String → String
without_bearer String.[] = String.[]
without_bearer (String.◌∷◌ c s) =
    let rest = without_bearer s in
    elim (strip "Bearer " (String.◌∷◌ c s)) [ none ↦ String.◌∷◌ c rest | some t ↦ t ]

abbrev pub token_of : Handshake → Option String
token_of h = truthy (
    or_else h.auth_token (
      or_else h.query_token
        (elim h.authorization [ none ↦ none | some a ↦ some (without_bearer a) ])))

abbrev pub is_allowed : List String → Option String → Bool
is_allowed allow origin = elim (truthy origin) [ none ↦ true | some o ↦ Set.has allow o ]

user_of :
    {e m r s : String} (client : Client) (c : Claims)
    → connected (record { user = some c.sub; joined_docs = [] }) e r ≡ connected client m s
    → client.user ≡ some c.sub
user_of client c h = cc (h)

module _ (verify : String → Option Claims) (allow : List String) where
  abbrev pub check_claims : Handshake → Option Claims → Outcome
  check_claims h none = denied invalid_token
  check_claims h (some c) =
      if is_allowed allow h.origin
      then connected (record { user = some c.sub; joined_docs = [] }) (or_text c.email "")
          (String.◌++◌ "user:" c.sub)
      else denied origin_not_allowed

  -- `handleConnection`
  unfoldable pub handle_connection : Bool → Handshake → Outcome
  handle_connection drop h =
      let checked : Outcome = elim (token_of h) [
        | none ↦ denied missing_token
        | some token ↦ check_claims h (verify token)
      ] in
      if drop then dropped else checked

  -- A socket is connected only with a token that is verified, from an origin that is allowed or not
  -- given, and as the subject of the token.
  pub handle_connection-connected :
      (drop : Bool) (h : Handshake) (client : Client) (email room : String)
      → handle_connection drop h ≡ connected client email room
      → (token : String) × (c : Claims) × (token_of h ≡ some token)
        × (verify token ≡ some c)
        × (is_allowed allow h.origin ≡ true)
        × (client.user ≡ some c.sub)
  unfolding handle_connection
  handle_connection-connected true h client email room e = absurd (cc (e))
  handle_connection-connected false h client email room e = elim (Option-cases (token_of h)) [
    | inl missing ↦ absurd (cc (rw missing at e))
    | inr (token, t) ↦ elim (Option-cases (verify token)) [
      | inl bad ↦ absurd (cc (rw (t, bad) at e))
      | inr (c, good) ↦ elim (Bool-cases (is_allowed allow h.origin)) [
        | inl fine ↦ (token, c, t, good, fine, user_of client c (rw (t, good, fine) at e))
        | inr other ↦ absurd (cc (rw (t, good, other) at e))
      ]
    ]
  ]

bearer_off : without_bearer "Bearer abc" ≡ "abc"
unfolding without_bearer strip
bearer_off = refl
