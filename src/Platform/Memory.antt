-- ===== src/Platform/Memory.antt =====
-- Values in memory that meet the interfaces of `Platform`: a document is the text of all that was
-- applied to it, a compressed text carries a mark, and a collection is the list of its rows.
use Prim.Native.Char.{Char, code}
use Prim.Native.String
use text.Mathlib.TextLemmas.{nil-append}
use realtime_collaborative_e.Base.{
  String, ◌≡◌, refl, ap, false, not, Option, none, some, List, [], ◌∷◌, ◌++◌, ◌==◌, ◌===◌,
  if◌then◌else◌, filter, take, length, eq_iff, Bool-cases, inl, inr,
}
use realtime_collaborative_e.Platform.{Yjs, Collection, Table}

abbrev pub mark : Char → String → String
mark c s = String.◌∷◌ c s

abbrev pub unmark : String → Option String
unmark String.[] = none
unmark (String.◌∷◌ c s) = if code c == b'z' then some s else none

-- An update is a text behind its own mark; any other text is refused.
abbrev pub append_update : String → String → Option String
append_update d String.[] = none
append_update d (String.◌∷◌ c s) = if code c == b'd' then some (String.◌++◌ d s) else none

pub append_update-mark : (d : String) → append_update "" (mark "d" d) ≡ some d
append_update-mark d = ap some (nil-append d)

pub marked-ne-empty : (c : Char) (s : String) → (mark c s === "") ≡ false
marked-ne-empty c s = elim (Bool-cases (mark c s === "")) [
  | inl e ↦ cc ((eq_iff (mark c s) "").0 e)
  | inr e ↦ e
]

abbrev pub text_yjs : Yjs
text_yjs = record {
  Bytes = String;
  YDoc = String;
  empty = "";
  apply = append_update;
  encode = mark "d";
  vector = λ d. d;
  encode_since = λ d v. mark "d" d;
  byte_length = λ b. String.len b;
  gzip = mark "z";
  no_bytes = "";
  gunzip = unmark;
  to_base64 = λ b. b;
  from_base64 = λ s. s;
  sha256 = mark "#";
  apply-encode = append_update-mark;
  apply-encode_since = λ d e. refl;
  gunzip-gzip = λ b. refl;
  sha256-ne-empty = marked-ne-empty "#";
  from_base64-to_base64 = λ b. refl;
}

abbrev pub list_collection : (Row : Type 0) → Collection Row
list_collection Row = record {
  State = List Row;
  rows = λ s. s;
  create = λ s r. s ++ r ∷ [];
  delete_many = λ s p. filter (λ r. not (p r)) s;
  find_asc = λ s p key limit. take limit (filter p s);
  count = λ s p. length (filter p s);
  rows-create = λ s r. refl;
  rows-delete_many = λ s p. refl;
  count-length = λ s p. refl;
  find_asc-Ascends = λ s p key limit n h. refl;
}

abbrev pub function_table : (Row : Type 0) → Table Row
function_table Row = record {
  State = String → Option Row;
  find = λ s k. s k;
  upsert = λ s k r j. if k === j then some r else s j;
  find-upsert = λ s k j r. refl;
}
