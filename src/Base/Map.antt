-- ===== src/Base/Map.antt =====
-- A JavaScript `Map` or plain object with text keys: an association list in insertion order. Setting
-- a key that is there keeps its place, as `Map.prototype.set` does.
use Prim.Native.Nat.{ℕ, suc, ◌≤◌}
use Prim.Native.String.{String}
use mathlib.Core.Path.{◌≡◌, refl}
use mathlib.Core.Bool.{Bool, true, false}
use mathlib.Core.Option.{Option, none, some}
use mathlib.Core.List.{List, [], ◌∷◌}
use native.Mathlib.Omega.{arith}
use text.Mathlib.TextEquality.{eq_iff}
use realtime_collaborative_e.Base.Tests.{◌===◌, if◌then◌else◌}
use realtime_collaborative_e.Base.Lists.{length}

-- `Map<string, V>`
abbrev pub Map {ℓ} : Type ℓ → Type ℓ
Map V = List (String × V)

module _ {ℓ} {V : Type ℓ} where
  unfoldable pub get : Map V → String → Option V
  get [] k = none
  get ((j, v) ∷ m) k = if j === k then some v else get m k

  unfoldable pub set : Map V → String → V → Map V
  set [] k v = (k, v) ∷ []
  set ((j, w) ∷ m) k v = let rest = set m k v in if j === k then (j, v) ∷ m else (j, w) ∷ rest

  unfoldable pub delete : Map V → String → Map V
  delete [] k = []
  delete ((j, w) ∷ m) k = let rest = delete m k in if j === k then rest else (j, w) ∷ rest

  abbrev pub size : Map V → ℕ
  size m = length m

  abbrev pub has : Map V → String → Bool
  has m k = elim (get m k) [ none ↦ false | some _ ↦ true ]

  pub get-set :
      (m : Map V) (k j : String) (v : V) → get (set m k v) j ≡ (if k === j then some v else get m j)
  unfolding get set
  get-set [] k j v = refl
  get-set ((i, w) ∷ m) k j v = ground (arith, eq_iff k j, eq_iff i k, eq_iff i j, get-set m k j v)

  pub get-delete :
      (m : Map V) (k j : String) → get (delete m k) j ≡ (if k === j then none else get m j)
  unfolding get delete
  get-delete [] k j = ground arith
  get-delete ((i, w) ∷ m) k j = ground (arith, eq_iff k j, eq_iff i k, eq_iff i j, get-delete m k j)

  pub length-set :
      (m : Map V) (k : String) (v : V)
      → length (set m k v) ≡ (elim (get m k) [ none ↦ suc (length m) | some _ ↦ length m ])
  unfolding get set
  length-set [] k v = refl
  length-set ((i, w) ∷ m) k v = ground (arith, length-set m k v)

  pub length-delete-le : (m : Map V) (k : String) → length (delete m k) ≤ length m
  unfolding delete
  length-delete-le [] k = omega arith
  length-delete-le ((i, w) ∷ m) k = ground (arith, length-delete-le m k)
