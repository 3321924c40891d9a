-- ===== src/Platform.antt =====
-- What the document service relies on outside the repository: Yjs, zlib, the hash and the text form
-- of binary data, and the MongoDB collections that its repositories query. Each is an interface.
pub mod Memory
use realtime_collaborative_e.Base.{
  ℕ, ◌+◌, ◌<◌, String, ◌≡◌, Bool, false, Option, none, some, List, [], ◌∷◌, ◌++◌, filter, take,
  length, ltb, ◌===◌, if◌then◌else◌, suc, All, not,
}

-- Yjs documents and the encodings of their updates.
pub record Yjs : Type 1 where
  pub Bytes : Type 0
  pub YDoc : Type 0
  -- `new Y.Doc()`
  pub empty : YDoc
  -- `Y.applyUpdate`; `none` where it throws
  pub apply : YDoc → Bytes → Option YDoc
  -- `Y.encodeStateAsUpdate` and `Y.encodeStateVector`
  pub encode : YDoc → Bytes
  pub vector : YDoc → Bytes
  -- `Y.encodeStateAsUpdate` with the state vector of another document
  pub encode_since : YDoc → Bytes → Bytes
  pub byte_length : Bytes → ℕ
  pub gzip : Bytes → Bytes
  -- `Buffer.alloc(0)`
  pub no_bytes : Bytes
  -- `none` where the bytes are no gzip stream
  pub gunzip : Bytes → Option Bytes
  pub to_base64 : Bytes → String
  pub from_base64 : String → Bytes
  pub sha256 : Bytes → String
  -- A document's whole state, applied to a new document, gives the document.
  pub apply-encode : (d : YDoc) → apply empty (encode d) ≡ some d
  -- What another document lacks, applied to it, does what the whole state does.
  pub apply-encode_since : (d e : YDoc) → apply e (encode_since d (vector e)) ≡ apply e (encode d)
  pub gunzip-gzip : (b : Bytes) → gunzip (gzip b) ≡ some b
  -- A digest is never the empty text.
  pub sha256-ne-empty : (b : Bytes) → (sha256 b === "") ≡ false
  pub from_base64-to_base64 : (b : Bytes) → from_base64 (to_base64 b) ≡ b

-- The rows ascend strictly in a key, from above `n`.
abbrev pub Ascends : {Row : Type 0} → (Row → ℕ) → ℕ → List Row → Type 0
Ascends key n [] = Unit {0}
Ascends key n (r ∷ rs) = (n < key r) × Ascends key (key r) rs

-- A collection of rows that a repository adds to, deletes from and lists.
pub record Collection (Row : Type 0) : Type 1 where
  pub State : Type 0
  -- the rows, in the order of insertion
  pub rows : State → List Row
  -- `create`
  pub create : State → Row → State
  -- `deleteMany(filter)`
  pub delete_many : State → (Row → Bool) → State
  -- `find(filter).sort({ key: 1 }).limit(n)`
  pub find_asc : State → (Row → Bool) → (Row → ℕ) → ℕ → List Row
  -- `countDocuments(filter)`
  pub count : State → (Row → Bool) → ℕ
  pub rows-create : (s : State) (r : Row) → rows (create s r) ≡ rows s ++ r ∷ []
  pub rows-delete_many :
      (s : State) (p : Row → Bool) → rows (delete_many s p) ≡ filter (λ r. not (p r)) (rows s)
  pub count-length : (s : State) (p : Row → Bool) → count s p ≡ length (filter p (rows s))
  -- The matches that stand in the order of the key are listed as they stand, up to the limit.
  pub find_asc-Ascends :
      (s : State) (p : Row → Bool) (key : Row → ℕ) (limit n : ℕ)
      → Ascends key n (filter p (rows s))
      → find_asc s p key limit ≡ take limit (filter p (rows s))

-- A collection with one row under each identifier.
pub record Table (Row : Type 0) : Type 1 where
  pub State : Type 0
  pub find : State → String → Option Row
  -- `findOneAndUpdate(…, { upsert: true })`
  pub upsert : State → String → Row → State
  pub find-upsert :
      (s : State) (k j : String) (r : Row)
      → find (upsert s k r) j ≡ (if k === j then some r else find s j)
