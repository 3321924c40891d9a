-- ===== src/Limits.antt =====
-- The limits on requests: api/src/common/rate-limit.middleware.ts. `Rules` holds what the code reads
-- from the environment; the numbers there are numbers. The Redis commands succeed, and what is sent
-- to the security log is a list of records. `toLowerCase` is a parameter. Only a string under
-- `comment`, `text` or `content` counts as the text of a comment.
pub mod Text
pub mod Checks
pub mod Branches
pub mod Names
pub mod Flight
pub mod Passed
pub mod Bots
mod Tests
use Prim.Native.String
use realtime_collaborative_e.Base.{
  or_text, ℕ, ◌+◌, ◌-◌, ◌*◌, String, Bool, true, false, ◌&&◌, not, Option, none, some, List, [],
  ◌∷◌, ◌++◌, length, map, any, ltb, ◌==◌, ◌===◌, if◌then◌else◌,
}
use realtime_collaborative_e.Base.Map
use realtime_collaborative_e.Base.Map.{Map}
use realtime_collaborative_e.Base.Set
use realtime_collaborative_e.Redis.{KeyStore, SetStore, Counters}
use realtime_collaborative_e.Gateway.Text.{trim}
use realtime_collaborative_e.Keys.{decimal}
use realtime_collaborative_e.Limits.Text.{
  before_comma, starts_with, is_comments_path, mentions, contains_profanity,
}

pub record Window : Type 0 where
  pub limit : ℕ
  pub window_sec : ℕ

pub record Rules : Type 0 where
  pub docs_window : Window
  pub default_ip_window : Window
  pub default_user_window : Window
  pub comment_window : Window
  pub emergency_per_ip : ℕ
  pub mention_max : ℕ
  pub admin_emails : List String
  pub max_concurrent_per_ip : ℕ
  pub path_variety : ℕ
  pub profanity_words : List String
  pub to_lower_case : String → String

pub record Request : Type 0 where
  pub forwarded_for : Option String
  pub remote_address : Option String
  pub user_id : Option String
  pub email : Option String
  pub path : String
  pub method : String
  pub comment : Option String
  pub text : Option String
  pub content : Option String

-- `audit.log`
pub data Event : Type 0 where
  rate_emergency : String → Event
  rate_ip : String → String → Event
  rate_user : String → String → Event
  rate_docs : String → Option String → String → Event
  comment_flood : String → Option String → Event
  comment_mentions : String → Option String → ℕ → Event
  comment_profanity : String → Option String → Event
  bot_pattern : String → Event

-- `next()`, or a status with its `Retry-After` and its error.
pub data Answer : Type 0 where
  next : Answer
  refused : ℕ → Option ℕ → String → Answer

pub record Stores : Type 1 where
  pub counters : Counters
  pub sets : SetStore
  pub blocks : KeyStore String

pub record State (r : Stores) : Type 0 where
  pub counters : r.counters.Store
  pub sets : r.sets.Store
  pub blocks : r.blocks.Store
  -- `inflight`
  pub inflight : Map ℕ

-- `a || b` on texts that may be absent
abbrev pub or_else : Option String → Option String → Option String
or_else none b = b
or_else (some a) b = if a === "" then b else some a

abbrev pub get_ip : Request → String
get_ip q = trim (
    or_text (elim q.forwarded_for [ none ↦ none | some l ↦ some (before_comma l) ])
      (or_text q.remote_address ""))

abbrev pub comment_text : Request → Option String
comment_text q = or_else q.comment (or_else q.text (or_else q.content none))

abbrev pub is_admin : Rules → Request → Bool
is_admin c q = elim (or_else q.email none) [
  | none ↦ false
  | some e ↦ Set.has c.admin_emails (c.to_lower_case e)
]

abbrev pub count_of : Option ℕ → ℕ
count_of none = 0
count_of (some n) = n

-- `rate:docs:user:…` or `rate:docs:ip:…`, and the same for comments
abbrev pub owner_key : String → Option String → String → String
owner_key name none ip = String.◌++◌ "rate:" (String.◌++◌ name (String.◌++◌ ":ip:" ip))
owner_key name (some user) ip = String.◌++◌ "rate:" (String.◌++◌ name (String.◌++◌ ":user:" user))

abbrev pub ip_key : String → String
ip_key ip = String.◌++◌ "rate:any:ip:" ip

abbrev pub user_key : String → String
user_key user = String.◌++◌ "rate:any:user:" user

abbrev pub emergency_key : String → String
emergency_key ip = String.◌++◌ "rate:ip:" (String.◌++◌ ip ":global")

abbrev pub abuse_key : String → String
abuse_key ip = String.◌++◌ "abuse:ip:" ip

abbrev pub block_key : String → String
block_key ip = String.◌++◌ "block:ip:" ip

abbrev pub paths_key : String → String
paths_key ip = String.◌++◌ "paths:" ip

-- `Date.now().toString()`
abbrev pub stamp : ℕ → String
stamp now = decimal (now + 1) now
