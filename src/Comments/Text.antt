-- ===== src/Comments/Text.antt =====
-- What api/src/comments/comments.controller.ts reads in texts: the addresses mentioned, and the
-- identifier of a guest. A position in a text counts characters, as the source does where none is
-- outside the basic plane.
use Prim.Native.Char.{code}
use Prim.Native.String
use Prim.Native.String.{String, [], ◌∷◌}
use mathlib.Core.List
use mathlib.Core.List.{List}
use realtime_collaborative_e.Base.{
  ℕ, zero, suc, ◌+◌, ◌/◌, ◌%◌, Bool, true, false, ◌||◌, ◌&&◌, Option, none, some, ◌==◌, leb, ltb,
  if◌then◌else◌, ◌≡◌, refl,
}

abbrev is_letter : ℕ → Bool
is_letter c = (leb 97 c && leb c 122) || (leb 65 c && leb c 90)

abbrev is_digit : ℕ → Bool
is_digit c = leb 48 c && leb c 57

-- `[A-Za-z0-9._%+-]`
abbrev is_local : ℕ → Bool
is_local c = is_letter c || is_digit c || c == 46 || c == 95 || c == 37 || c == 43 || c == 45

-- `[A-Za-z0-9.-]`
abbrev is_domain : ℕ → Bool
is_domain c = is_letter c || is_digit c || c == 46 || c == 45

letters : String → String
letters [] = []
letters (c ∷ s) = let rest = letters s in if is_letter (code c) then c ∷ rest else []

at_least_two : String → Bool
at_least_two [] = false
at_least_two (c ∷ []) = false
at_least_two (c ∷ d ∷ s) = true

prepend : String → Option String → Option String
prepend s none = none
prepend s (some t) = some (String.◌++◌ s t)

first_of : Option String → Option String → Option String
first_of none b = b
first_of (some a) b = some a

-- `[A-Za-z0-9.-]*\.[A-Za-z]{2}`, the longest way first
domain_rest : String → Option String
unfolding letters prepend first_of at_least_two
domain_rest [] = none
domain_rest (c ∷ s) =
    let longer = domain_rest s in
    let here = if code c == 46 && at_least_two (letters s) then some (c ∷ letters s) else none in
    first_of (if is_domain (code c) then prepend (c ∷ []) longer else none) here

-- `[A-Za-z0-9.-]+\.[A-Za-z]{2}`
domain : String → Option String
unfolding domain_rest
domain [] = none
domain (c ∷ s) = if is_domain (code c) then prepend (c ∷ []) (domain_rest s) else none

-- `[A-Za-z0-9._%+-]*@` and the domain
address_rest : String → Option String
unfolding domain
address_rest [] = none
address_rest (c ∷ s) =
    let longer = address_rest s in
    if is_local (code c)
    then prepend (c ∷ []) longer
    else if code c == 64
    then prepend (c ∷ []) (domain s)
    else none

address : String → Option String
unfolding address_rest
address [] = none
address (c ∷ s) = if is_local (code c) then prepend (c ∷ []) (address_rest s) else none

-- The loop over `re.exec`; `skip` characters belong to the last match.
addresses_from : ℕ → String → List String
unfolding address
addresses_from skip [] = List.[]
addresses_from (suc skip) (c ∷ s) = addresses_from skip s
addresses_from zero (c ∷ s) = elim (if code c == 64 then address s else none) [
  | none ↦ addresses_from zero s
  | some m ↦ List.◌∷◌ m (addresses_from (String.count m) s)
]

unfoldable pub addresses : String → List String
unfolding addresses_from
addresses text = addresses_from 0 text

-- `text.slice(0, n)`
unfoldable pub slice : ℕ → String → String
slice zero s = []
slice (suc n) [] = []
slice (suc n) (c ∷ s) = c ∷ slice n s

-- The bytes of a character in UTF-8.
abbrev utf8 : ℕ → List ℕ
utf8 c =
    if ltb c 0x80
    then List.◌∷◌ c List.[]
    else if ltb c 0x800
    then List.◌∷◌ (192 + c / 64) (List.◌∷◌ (128 + c % 64) List.[])
    else if ltb c 0x10000
    then List.◌∷◌ (224 + c / 4096)
        (List.◌∷◌ (128 + (c / 64) % 64) (List.◌∷◌ (128 + c % 64) List.[]))
    else List.◌∷◌ (240 + c / 262144) (
        List.◌∷◌ (128 + (c / 4096) % 64)
          (List.◌∷◌ (128 + (c / 64) % 64) (List.◌∷◌ (128 + c % 64) List.[])))

abbrev pub bytes : String → List ℕ
bytes [] = List.[]
bytes (c ∷ s) = List.◌++◌ (utf8 (code c)) (bytes s)

-- The character of a text at an index, as a text.
abbrev at : String → ℕ → String
at [] n = ""
at (c ∷ s) zero = c ∷ []
at (c ∷ s) (suc n) = at s n

abbrev hex_digit : ℕ → String
hex_digit n = at "0123456789abcdef" n

-- `Buffer.from(…).toString('hex')`
unfoldable pub hex : List ℕ → String
hex List.[] = ""
hex (List.◌∷◌ b bs) = String.◌++◌ (hex_digit (b / 16)) (String.◌++◌ (hex_digit (b % 16)) (hex bs))

-- The identifier of a guest: 24 digits from the token of the share.
unfoldable pub guest_id : String → String
unfolding slice
guest_id token =
    let h = hex (bytes token) in
    let padded = slice 24 (String.◌++◌ h "000000000000000000000000") in
    slice 24 (if ltb (String.count h) 24 then padded else h)

guest_id_short : guest_id "aé" ≡ "61c3a9000000000000000000"
unfolding guest_id hex
guest_id_short = refl

two_addresses :
    addresses "@ann@x.org and @bob@y.co.uk." ≡ List.◌∷◌ "ann@x.org" (List.◌∷◌ "bob@y.co.uk" List.[])
unfolding addresses
two_addresses = refl
