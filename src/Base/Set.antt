-- ===== src/Base/Set.antt =====
-- A JavaScript `Set` of texts, in insertion order.
use Prim.Native.Nat.{◌+◌, ◌≤◌}
use Prim.Native.String.{String}
use realtime_collaborative_e.Base.Lists.{length, length-append}
use mathlib.Core.Path.{◌≡◌}
use mathlib.Core.Bool.{Bool, true, false, ◌||◌}
use mathlib.Core.List.{List, [], ◌∷◌, ◌++◌}
use native.Mathlib.Omega.{arith}
use text.Mathlib.TextEquality.{eq_iff}
use realtime_collaborative_e.Base.Tests.{◌===◌, if◌then◌else◌}

unfoldable pub has : List String → String → Bool
has [] k = false
has (j ∷ s) k = if j === k then true else has s k

unfoldable pub add : List String → String → List String
unfolding has
add s k = if has s k then s else s ++ k ∷ []

unfoldable pub delete : List String → String → List String
delete [] k = []
delete (j ∷ s) k = let rest = delete s k in if j === k then rest else j ∷ rest

abbrev add_all : List String → List String → List String
add_all s [] = s
add_all s (k ∷ l) = add_all (add s k) l

-- `new Set(list)`
abbrev pub from : List String → List String
from l = add_all [] l

pub has-append : (s : List String) (k j : String) → has (s ++ k ∷ []) j ≡ (has s j || (k === j))
unfolding has
has-append [] k j = ground arith
has-append (i ∷ s) k j = ground (arith, has-append s k j)

pub has-add : (s : List String) (k j : String) → has (add s k) j ≡ (has s j || (k === j))
unfolding add
has-add s k j = ground (arith, has-append s k j, eq_iff k j)

pub has-delete :
    (s : List String) (k j : String) → has (delete s k) j ≡ (if k === j then false else has s j)
unfolding has delete
has-delete [] k j = ground arith
has-delete (i ∷ s) k j = ground (arith, eq_iff k j, eq_iff i k, eq_iff i j, has-delete s k j)

pub length-add-le : (s : List String) (k : String) → length (add s k) ≤ length s + 1
unfolding add
length-add-le s k = ground (arith, length-append s (k ∷ []))

pub length-delete-le : (s : List String) (k : String) → length (delete s k) ≤ length s
unfolding delete
length-delete-le [] k = omega arith
length-delete-le (j ∷ s) k = ground (arith, length-delete-le s k)
