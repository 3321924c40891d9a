-- ===== src/Comments/Score.antt =====
-- The scores of a comment's text: `simpleSentiment` and `simpleQuality` of
-- api/src/comments/comments.controller.ts. A sentiment is a number of thirds, with its sign.
-- The rounding is that of the exact number, which is never half-way.
use Prim.Native.Char.{code}
use Prim.Native.String.{String, [], ◌∷◌}
use mathlib.Core.List
use mathlib.Core.List.{List}
use realtime_collaborative_e.Base.{
  ℕ, ◌+◌, ◌-◌, ◌*◌, ◌/◌, ◌≤◌, min, Bool, true, false, ◌||◌, ◌&&◌, not, none, some, ◌==◌, leb, ltb,
  if◌then◌else◌, ◌≡◌, refl, arith,
}
use realtime_collaborative_e.Gateway.Text.{is_space, trim}
use realtime_collaborative_e.Limits.Text.{includes, strip}

pub data Sentiment : Type 0 where
  up : ℕ → Sentiment
  down : ℕ → Sentiment

abbrev pub hits : List String → String → ℕ
hits List.[] t = 0
hits (List.◌∷◌ w ws) t = let rest = hits ws t in if includes t w then rest + 1 else rest

abbrev word_list : String → String → String → String → String → List String
word_list a b c d e = List.◌∷◌ a (List.◌∷◌ b (List.◌∷◌ c (List.◌∷◌ d (List.◌∷◌ e List.[]))))

abbrev pub pos : List String
pos =
    List.◌++◌ (word_list "good" "great" "excellent" "love" "like")
      (word_list "thanks" "helpful" "clear" "nice" "awesome")

abbrev pub neg : List String
neg =
    List.◌++◌ (word_list "bad" "terrible" "awful" "hate" "dislike")
      (word_list "bug" "broken" "confusing" "slow" "issue")

-- `simpleSentiment`, of the text in lower case
unfoldable pub simple_sentiment : String → Sentiment
simple_sentiment t =
    let p = hits pos t in
    let n = hits neg t in if leb n p then up (min 3 (p - n)) else down (min 3 (n - p))

-- `length`, in code units
abbrev pub units : String → ℕ
units [] = 0
units (c ∷ s) = (if ltb (code c) 0x10000 then 1 else 2) + units s

-- A letter of a flag `i`, in ASCII.
abbrev fold_case : ℕ → ℕ
fold_case c = if leb 65 c && leb c 90 then c + 32 else c

starts_folded : String → String → Bool
starts_folded s [] = true
starts_folded [] (c ∷ w) = false
starts_folded (d ∷ s) (c ∷ w) =
    let rest = starts_folded s w in if fold_case (code d) == code c then rest else false

-- `/(https?:\/\/|www\.)/i`
unfoldable pub has_link : String → Bool
unfolding starts_folded
has_link [] = false
has_link (c ∷ s) =
    has_link s
    || starts_folded (c ∷ s) "http://"
    || starts_folded (c ∷ s) "https://"
    || starts_folded (c ∷ s) "www."

abbrev is_tick : ℕ → Bool
is_tick c = c == 96

has_tick : String → Bool
has_tick [] = false
has_tick (c ∷ s) = is_tick (code c) || has_tick s

closes : String → Bool
unfolding has_tick
closes [] = false
closes (c ∷ s) = not (is_tick (code c)) && has_tick s

fenced : String → Bool
unfolding strip includes
fenced s = elim (strip "```" s) [ none ↦ false | some rest ↦ includes rest "```" ]

-- `` /`{1,3}[^`]+`{1,3}/ `` or `` /```[\s\S]*?```/ ``
unfoldable pub has_code : String → Bool
unfolding closes fenced
has_code [] = false
has_code (c ∷ s) = has_code s || (is_tick (code c) && closes s) || fenced (c ∷ s)

begins_space : String → Bool
begins_space [] = false
begins_space (c ∷ s) = is_space (code c)

abbrev ends_sentence : ℕ → Bool
ends_sentence c = c == 46 || c == 33 || c == 63

-- `/[.!?]\s|\n/`
unfoldable pub has_structure : String → Bool
unfolding begins_space
has_structure [] = false
has_structure (c ∷ s) =
    has_structure s || (ends_sentence (code c) && begins_space s) || code c == 10

abbrev five_if : Bool → ℕ
five_if b = if b then 5 else 0

-- `simpleQuality`
unfoldable pub simple_quality : String → ℕ
simple_quality text =
    let len = min 500 (units (trim text)) in
    let score = 40 + (4 * len + 25) / 50 in
    min 100
      (score + five_if (has_structure text) + five_if (has_link text) + five_if (has_code text))

-- The quality of a text lies between 40 and 95: neither end of the clamp to 0 and 100 is reached.
pub simple_quality-bounds :
    (text : String) → (40 ≤ simple_quality text) × (simple_quality text ≤ 95)
unfolding simple_quality
simple_quality-bounds text = ground arith

good_quality : simple_quality "See http://x.org. Use `f x`." ≡ 57
unfolding simple_quality has_link has_code has_structure includes trim
good_quality = refl
