-- ===== src/Keys.antt =====
-- The keys that sign access tokens, and their rotation: api/src/security/jwt-keys.service.ts.
-- The ring is the value under the key `jwt:keys` of Redis; an operation is given the seconds of the
-- clock and the secret that it draws.
pub mod Rotation
mod Tests
use Prim.Native.String
use realtime_collaborative_e.Base.{
  ℕ, zero, suc, ◌+◌, ◌-◌, ◌*◌, ◌/◌, ◌%◌, String, Bool, true, false, Option, none, some, List, [],
  ◌∷◌, ltb, leb, ◌==◌, ◌===◌, if◌then◌else◌, ◌≡◌, refl,
}
use realtime_collaborative_e.Base.Map
use realtime_collaborative_e.Base.Map.{Map}

pub record KeyRecord : Type 0 where
  pub secret : String
  pub created_at : ℕ

-- `KeyStore`
pub record KeyRing : Type 0 where
  pub current_kid : String
  pub keys : Map KeyRecord

abbrev digit : ℕ → String
digit n =
    if n == 0
    then "0"
    else if n == 1
    then "1"
    else if n == 2
    then "2"
    else if n == 3
    then "3"
    else if n == 4
    then "4"
    else if n == 5
    then "5"
    else if n == 6
    then "6"
    else if n == 7
    then "7"
    else if n == 8
    then "8"
    else "9"

-- The decimal text of a number of at most as many digits as the fuel.
abbrev pub decimal : ℕ → ℕ → String
decimal zero n = ""
decimal (suc fuel) n =
    let before = decimal fuel (n / 10) in
    if ltb n 10 then digit n else String.◌++◌ before (digit (n % 10))

-- `'k' + n`; a number has fewer digits than its successor counts.
pub kid_of : ℕ → String
kid_of n = String.◌++◌ "k" (decimal (n + 1) n)

kid_of-120 : kid_of 120 ≡ "k120"
unfolding kid_of
kid_of-120 = refl

-- `ensureInitialized`; `env` is the secret `JWT_SECRET`, unless it is unset or empty.
pub ensure_initialized : KeyRing → ℕ → Option String → String → KeyRing
ensure_initialized store now env fresh =
    if store.current_kid === ""
    then record {
      current_kid = "k1";
      keys =
          Map.set store.keys "k1"
            (record { secret = elim env [ none ↦ fresh | some s ↦ s ]; created_at = now });
    }
    else store

-- Whether a key is to be pruned, for the time before which it is too old.
abbrev pub is_old : ℕ → Option KeyRecord → Bool
is_old cutoff none = false
is_old cutoff (some rec) = ltb rec.created_at cutoff

-- The loop over the entries of the ring `all`, which deletes from the ring `keys`.
abbrev pub prune : ℕ → Map KeyRecord → Map KeyRecord → Map KeyRecord → Map KeyRecord
prune cutoff all [] keys = keys
prune cutoff all ((id, _) ∷ entries) keys =
    prune cutoff all entries (if is_old cutoff (Map.get all id) then Map.delete keys id else keys)

-- 60 * 60 * 24
abbrev pub day : ℕ
day = 86400

-- A new key is made, and the old ones are pruned.
pub rotate : ℕ → KeyRing → ℕ → String → KeyRing
rotate rotate_days store now fresh =
    let kid = kid_of (Map.size store.keys + 1) in
    let keys = Map.set store.keys kid (record { secret = fresh; created_at = now }) in
    record { current_kid = kid; keys = prune (now - rotate_days * 3 * day) keys keys keys }

-- `ensureRotation`
pub ensure_rotation : ℕ → KeyRing → ℕ → Option String → String → KeyRing
ensure_rotation rotate_days store now env fresh = elim (Map.get store.keys store.current_kid) [
  | none ↦ ensure_initialized store now env fresh
  | some curr ↦
      if leb (curr.created_at + rotate_days * day) now
      then rotate rotate_days store now fresh
      else store
]

-- `getCurrent`, which throws where the current key is missing, and `getByKid`.
pub get_by_kid : KeyRing → String → Option String
get_by_kid store kid = elim (Map.get store.keys kid) [ none ↦ none | some rec ↦ some rec.secret ]

pub get_current : ℕ → KeyRing → ℕ → Option String → String → KeyRing × Option (String × String)
get_current rotate_days s now env fresh =
    let store = ensure_rotation rotate_days s now env fresh in
    (
      store,
      elim (get_by_kid store store.current_kid) [
        | none ↦ none
        | some secret ↦ some (store.current_kid, secret)
      ],
    )
