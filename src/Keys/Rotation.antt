-- ===== src/Keys/Rotation.antt =====
-- What a rotation keeps and what it replaces.
use realtime_collaborative_e.Base.{
  ℕ, ◌+◌, ◌-◌, ◌*◌, ◌≤◌, String, ◌≡◌, refl, sym, ◌∙◌, ap, ◌≢◌, ◌⊎◌, inl, inr, true, false, Option,
  none, some, [], ◌∷◌, leb, ◌===◌, if◌then◌else◌, arith, eq_iff, eq_refl, Bool-cases, Option-cases,
}
use realtime_collaborative_e.Base.Map
use realtime_collaborative_e.Base.Map.{Map}
use realtime_collaborative_e.Keys.{
  KeyRecord, KeyRing, kid_of, ensure_initialized, is_old, prune, day, rotate, ensure_rotation,
  get_by_kid, get_current,
}

get-prune :
    (cutoff : ℕ) (all entries keys : Map KeyRecord) (k : String)
    → is_old cutoff (Map.get all k) ≡ false
    → Map.get (prune cutoff all entries keys) k ≡ Map.get keys k
get-prune cutoff all [] keys k h = refl
get-prune cutoff all ((id, rec) ∷ entries) keys k h =
    get-prune cutoff all entries _ k h ∙ ground (arith, Map.get-delete keys id k, eq_iff id k)

-- A key of the ring that is young enough is found after the rotation as it was, unless the new key
-- takes its name, and the new key is the current one.
rotate-get :
    (days : ℕ) (s : KeyRing) (now : ℕ) (fresh k : String)
    → is_old (now - days * 3 * day) (Map.get s.keys k) ≡ false
    → Map.get (rotate days s now fresh).keys k ≡ (
        if kid_of (Map.size s.keys + 1) === k
        then some (record { secret = fresh; created_at = now })
        else Map.get s.keys k)
unfolding rotate
rotate-get days s now fresh k h =
    let kid = kid_of (Map.size s.keys + 1) in
    let r : KeyRecord = record { secret = fresh; created_at = now } in
    get-prune (now - days * 3 * day) (Map.set s.keys kid r) (Map.set s.keys kid r)
      (Map.set s.keys kid r) k (rw (Map.get-set s.keys kid k r) (ground arith))
    ∙ Map.get-set s.keys kid k r

rotate-current :
    (days : ℕ) (s : KeyRing) (now : ℕ) (fresh : String)
    → Map.get (rotate days s now fresh).keys (rotate days s now fresh).current_kid
      ≡ some (record { secret = fresh; created_at = now })
unfolding rotate
rotate-current days s now fresh =
    let kid = kid_of (Map.size s.keys + 1) in
    let r : KeyRecord = record { secret = fresh; created_at = now } in
    let stored : Map.get (Map.set s.keys kid r) kid ≡ some r =
      Map.get-set s.keys kid kid r ∙ ground (arith, eq_refl kid) in
    get-prune (now - days * 3 * day) (Map.set s.keys kid r) (Map.set s.keys kid r)
      (Map.set s.keys kid r) kid (rw stored (ground arith))
    ∙ stored

rotate-kid :
    (days : ℕ) (s : KeyRing) (now : ℕ) (fresh : String)
    → (rotate days s now fresh).current_kid ≡ kid_of (Map.size s.keys + 1)
unfolding rotate
rotate-kid days s now fresh = refl

-- The ring has its current key, or was never initialized.
abbrev pub IsReady : KeyRing → Type 0
IsReady s = (s.current_kid ≡ "") ⊎ (Map.get s.keys s.current_kid ≢ none)

ensure-missing :
    (days : ℕ) (s : KeyRing) (now : ℕ) (env : Option String) (fresh : String)
    → Map.get s.keys s.current_kid ≡ none
    → ensure_rotation days s now env fresh ≡ ensure_initialized s now env fresh
unfolding ensure_rotation
ensure-missing days s now env fresh e = rw (e, ensure_rotation)

ensure-due :
    (days : ℕ) (s : KeyRing) (now : ℕ) (env : Option String) (fresh : String) (curr : KeyRecord)
    → Map.get s.keys s.current_kid ≡ some curr
    → leb (curr.created_at + days * day) now ≡ true
    → ensure_rotation days s now env fresh ≡ rotate days s now fresh
unfolding ensure_rotation
ensure-due days s now env fresh curr e d = rw (e, d, ensure_rotation)

ensure-young :
    (days : ℕ) (s : KeyRing) (now : ℕ) (env : Option String) (fresh : String) (curr : KeyRecord)
    → Map.get s.keys s.current_kid ≡ some curr
    → leb (curr.created_at + days * day) now ≡ false
    → ensure_rotation days s now env fresh ≡ s
unfolding ensure_rotation
ensure-young days s now env fresh curr e d = rw (e, d, ensure_rotation)

abbrev pub HasKey : KeyRing → Type 0
HasKey s = Map.get s.keys s.current_kid ≢ none

initialized-HasKey :
    (s : KeyRing) (now : ℕ) (env : Option String) (fresh : String)
    → s.current_kid ≡ ""
    → HasKey (ensure_initialized s now env fresh)
unfolding ensure_initialized
initialized-HasKey s now env fresh e = rw e λ p. cc (
  p,
  Map.get-set s.keys "k1" "k1"
      (record { secret = elim env [ none ↦ fresh | some s ↦ s ]; created_at = now }),
)

ensure_rotation-HasKey :
    (days : ℕ) (s : KeyRing) (now : ℕ) (env : Option String) (fresh : String)
    → IsReady s
    → HasKey (ensure_rotation days s now env fresh)
ensure_rotation-HasKey days s now env fresh ready =
    elim (Option-cases (Map.get s.keys s.current_kid)) [
      | inl missing ↦ elim ready [
        | inl new ↦
            rw (ensure-missing days s now env fresh missing)
              (initialized-HasKey s now env fresh new)
        | inr there ↦ absurd (there missing)
      ]
      | inr (curr, e) ↦ elim (Bool-cases (leb (curr.created_at + days * day) now)) [
        | inl due ↦
            rw (ensure-due days s now env fresh curr e due)
              λ p. cc (p, rotate-current days s now fresh)
        | inr young ↦ rw (ensure-young days s now env fresh curr e young) λ p. cc (p, e)
      ]
    ]

-- A ring that was never initialized or has its current key always gives a key to sign with, that
-- the ring finds under its name; the ring it leaves has its current key.
pub get_current-IsReady :
    (days : ℕ) (s : KeyRing) (now : ℕ) (env : Option String) (fresh : String)
    → IsReady s
    → let (s', key) = get_current days s now env fresh in
      IsReady s'
      × ((secret : String) × (key ≡ some (s'.current_kid, secret))
          × (get_by_kid s' s'.current_kid ≡ some secret))
unfolding get_current get_by_kid
get_current-IsReady days s now env fresh ready =
    let r = ensure_rotation days s now env fresh in
    let there : HasKey r = ensure_rotation-HasKey days s now env fresh ready in
    (
      inr there,
      elim (Option-cases (Map.get r.keys r.current_kid)) [
        | inl e ↦ absurd (there e)
        | inr (rec, e) ↦
            (rec.secret, rw (e, get_current, get_by_kid) refl, rw (e, get_current, get_by_kid) refl)
      ],
    )

-- A key younger than three periods still verifies after a rotation check, unless the check makes a
-- new key and gives it the same name.
ensure_rotation-keeps :
    (days : ℕ) (s : KeyRing) (now : ℕ) (env : Option String) (fresh k : String) (rec : KeyRecord)
    → HasKey s
    → Map.get s.keys k ≡ some rec
    → now ≤ rec.created_at + days * 3 * day
    → k ≢ kid_of (Map.size s.keys + 1)
    → get_by_kid (ensure_rotation days s now env fresh) k ≡ some rec.secret
unfolding get_by_kid
ensure_rotation-keeps days s now env fresh k rec ready e recent other =
    elim (Option-cases (Map.get s.keys s.current_kid)) [
      | inl missing ↦ absurd (ready missing)
      | inr (curr, c) ↦ elim (Bool-cases (leb (curr.created_at + days * day) now)) [
        | inl due ↦
            rw
              (
                ensure-due days s now env fresh curr c due,
                rotate-get days s now fresh k (rw e (ground arith)),
                get_by_kid,
              )
              (ground (arith, eq_iff (kid_of (Map.size s.keys + 1)) k))
        | inr young ↦ rw (ensure-young days s now env fresh curr c young, e, get_by_kid)
      ]
    ]

-- A defect: the name of a new key is the number of keys in the ring plus one, and pruning makes that
-- number smaller. If the current key has that name when its period ends, its secret is replaced
-- under the same name, so that what it signed a moment ago is checked against another secret.
pub ensure_rotation-overwrites :
    (days : ℕ) (s : KeyRing) (now : ℕ) (env : Option String) (fresh : String) (rec : KeyRecord)
    → Map.get s.keys s.current_kid ≡ some rec
    → s.current_kid ≡ kid_of (Map.size s.keys + 1)
    → rec.created_at + days * day ≤ now
    → rec.secret ≢ fresh
    → let s' = ensure_rotation days s now env fresh in
      (s'.current_kid ≡ s.current_kid)
      × (get_by_kid s' s.current_kid ≡ some fresh)
      × (get_by_kid s' s.current_kid ≢ get_by_kid s s.current_kid)
unfolding get_by_kid
ensure_rotation-overwrites days s now env fresh rec e same old differs =
    let due = ensure-due days s now env fresh rec e (ground arith) in
    let kid : (rotate days s now fresh).current_kid ≡ s.current_kid =
      rotate-kid days s now fresh ∙ sym same in
    let stored : Map.get (rotate days s now fresh).keys s.current_kid
        ≡ some (record { secret = fresh; created_at = now }) =
      ap (Map.get (rotate days s now fresh).keys) (sym kid) ∙ rotate-current days s now fresh in
    (
      ap (λ r. r.current_kid) due ∙ kid,
      rw (due, stored, get_by_kid),
      rw (due, stored, e, get_by_kid) λ p. differs (cc p),
    )
