-- ===== src/Gateway/Text.antt =====
-- `String.prototype.trim`.
use Prim.Native.Char.{code}
use Prim.Native.String.{String, [], ◌∷◌}
use realtime_collaborative_e.Base.{ℕ, Bool, ◌||◌, ◌&&◌, ◌==◌, ◌===◌, leb, if◌then◌else◌, ◌≡◌, refl}

-- White space and line ends, by their code points.
abbrev pub is_space : ℕ → Bool
is_space c =
    (leb 9 c && leb c 13)
    || c == 32
    || c == 160
    || c == 0x1680
    || (leb 0x2000 c && leb c 0x200a)
    || c == 0x2028
    || c == 0x2029
    || c == 0x202f
    || c == 0x205f
    || c == 0x3000
    || c == 0xfeff

abbrev trim_start : String → String
trim_start [] = []
trim_start (c ∷ s) = let rest = trim_start s in if is_space (code c) then rest else c ∷ s

abbrev trim_end : String → String
trim_end [] = []
trim_end (c ∷ s) =
    let rest = trim_end s in if rest === "" && is_space (code c) then "" else c ∷ rest

unfoldable pub trim : String → String
trim s = trim_end (trim_start s)

trim_both : trim "  a b " ≡ "a b"
unfolding trim
trim_both = refl
