-- ===== src/Limits/Text.antt =====
-- The tests on texts in api/src/common/rate-limit.middleware.ts and api/src/common/profanity.ts.
use Prim.Native.Char.{code}
use Prim.Native.String.{String, [], ◌∷◌}
use mathlib.Core.List.{List}
use realtime_collaborative_e.Base.{
  ℕ, Bool, true, false, ◌||◌, ◌&&◌, not, Option, none, some, ◌==◌, ◌===◌, leb, if◌then◌else◌, any,
  ◌≡◌, refl,
}

-- `split(',')[0]`
unfoldable pub before_comma : String → String
before_comma [] = []
before_comma (c ∷ s) = let rest = before_comma s in if code c == 44 then [] else c ∷ rest

-- What follows the text `w` at the start.
unfoldable pub strip : String → String → Option String
strip [] s = some s
strip (c ∷ w) [] = none
strip (c ∷ w) (d ∷ s) = let rest = strip w s in if code c == code d then rest else none

unfoldable pub starts_with : String → String → Bool
unfolding strip
starts_with s w = elim (strip w s) [ none ↦ false | some _ ↦ true ]

unfoldable pub includes : String → String → Bool
unfolding starts_with
includes [] w = w === ""
includes (c ∷ s) w = let rest = includes s w in if starts_with (c ∷ s) w then true else rest

ends_or_slash : String → Bool
ends_or_slash [] = true
ends_or_slash (c ∷ s) = code c == 47

comments_here : String → Bool
unfolding strip ends_or_slash
comments_here s = elim (strip "/comments" s) [ none ↦ false | some rest ↦ ends_or_slash rest ]

-- `/\/comments(\/|$)/.test`
unfoldable pub is_comments_path : String → Bool
unfolding comments_here
is_comments_path [] = false
is_comments_path (c ∷ s) =
    let rest = is_comments_path s in if comments_here (c ∷ s) then true else rest

-- `[a-zA-Z0-9_\-.]`
abbrev is_name_char : ℕ → Bool
is_name_char c =
    (leb 97 c && leb c 122)
    || (leb 65 c && leb c 90)
    || (leb 48 c && leb c 57)
    || c == 95
    || c == 45
    || c == 46

name_at : String → String
name_at [] = []
name_at (c ∷ s) = let rest = name_at s in if is_name_char (code c) then c ∷ rest else []

-- `text.match(/@([a-zA-Z0-9_\-.]+)/g)`
unfoldable pub mentions : String → List String
unfolding name_at
mentions [] = List.[]
mentions (c ∷ s) =
    let rest = mentions s in
    let name = name_at s in
    if code c == 64 && not (name === "") then List.◌∷◌ (c ∷ name) rest else rest

-- `containsProfanity`, with the list of words and the text in lower case
unfoldable pub contains_profanity : List String → String → Bool
unfolding includes
contains_profanity words lower = any (λ w. not (w === "") && includes lower w) words

two_mentions : mentions "hi @ann, @Bob.x!@" ≡ List.◌∷◌ "@ann" (List.◌∷◌ "@Bob.x" List.[])
unfolding mentions
two_mentions = refl

comments_paths : is_comments_path "/api/docs/1/comments" ≡ true
unfolding is_comments_path
comments_paths = refl
