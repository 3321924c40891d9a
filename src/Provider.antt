-- ===== src/Provider.antt =====
-- The client's provider, `SimpleYProvider` of web/src/lib/yjsProvider.ts: the queue of updates for the
-- HTTP interface, its backoff, and the throttle of presence messages.
-- A request is two steps, `flush_start` and one of `flush_ok` and `flush_failed`. The timers are
-- armed or not; the status events and the analytics counters are left out.
pub mod Delivery
pub mod Pace
mod Tests
use realtime_collaborative_e.Base.{
  ℕ, ◌+◌, ◌-◌, ◌*◌, String, Bool, true, false, ◌&&◌, ◌||◌, not, Option, none, some, List, [], ◌∷◌,
  ◌++◌, leb, ◌==◌, if◌then◌else◌,
}
use Prim.Native.Nat.{min}
use realtime_collaborative_e.Platform.{Yjs}

-- The types of a failure, as `flush` classifies it.
pub data Reason : Type 0 where
  offline unauthorized rate_limit server_error network_error : Reason

-- The classification, from `navigator.onLine` and the status of the response, if there was one.
abbrev pub classify : Bool → Option ℕ → Reason
classify online none = if online then network_error else offline
classify online (some code) =
    if not online
    then offline
    else if code == 401
    then unauthorized
    else if code == 429
    then rate_limit
    else if leb 500 code
    then server_error
    else network_error

-- The fields of the provider that the queue concerns; `stored` is the queue in the local storage.
pub record Provider (Bytes : Type 0) : Type 0 where
  pub queue : List Bytes
  pub timer : Bool
  pub backoff_ms : ℕ
  pub last_sync_at : Option ℕ
  pub read_only : Bool
  pub consecutive_failures : ℕ
  pub stored : List Bytes

-- `scheduleBackoff`: the time that it waits; `retry_after` is the header's number of seconds.
pub next_backoff : ℕ → ℕ → Reason → Option ℕ → ℕ → ℕ
next_backoff max_backoff backoff rate_limit none jitter = 2000 + jitter
next_backoff max_backoff backoff rate_limit (some seconds) jitter = seconds * 1000 + jitter
next_backoff max_backoff backoff _ retry_after jitter =
    if backoff == 0 then 1000 + jitter else min (backoff * 2 + jitter) max_backoff

module _ (yjs : Yjs) where
  open yjs use {Bytes, YDoc, empty, apply, encode}

  -- `enqueue`: while the timer is armed it only adds to the queue.
  pub enqueue : Provider Bytes → Bytes → Provider Bytes
  enqueue p update =
      let q = p.queue ++ update ∷ [] in
      if p.timer then record p { queue = q } else record p { queue = q; timer = true; stored = q }

  -- `Y.applyUpdate` for each update in turn.
  abbrev pub apply_all : YDoc → List Bytes → Option YDoc
  apply_all d [] = some d
  apply_all d (u ∷ us) = elim (apply d u) [ none ↦ none | some d' ↦ apply_all d' us ]

  abbrev pub merged_update : List Bytes → YDoc → Option Bytes
  merged_update [] temp = none
  merged_update (_ ∷ _) temp = some (encode temp)

  -- `flush` up to the request: the merged update that it sends, if it sends one. Where the merge
  -- throws, the queue is left as it is.
  pub flush_start : Provider Bytes → Provider Bytes × Option Bytes
  flush_start p = elim (apply_all empty p.queue) [
    | none ↦ (record p { timer = false }, none)
    | some d ↦ (record p { timer = false; queue = [] }, merged_update p.queue d)
  ]

  -- `flush` after a response that is ok.
  pub flush_ok : Provider Bytes → ℕ → Provider Bytes
  flush_ok p now = record p {
    last_sync_at = some now;
    backoff_ms = 0;
    consecutive_failures = 0;
    stored = p.queue;
  }

  abbrev is_unauthorized : Reason → Bool
  is_unauthorized unauthorized = true
  is_unauthorized _ = false

  -- The `catch` of `flush`, with `scheduleBackoff`.
  pub flush_failed : ℕ → Provider Bytes → Bytes → Reason → Option ℕ → ℕ → Provider Bytes
  flush_failed max_backoff p merged reason retry_after jitter =
      let p' = enqueue (record p { consecutive_failures = p.consecutive_failures + 1 }) merged in
      record p' {
        read_only = is_unauthorized reason || p'.read_only;
        backoff_ms = next_backoff max_backoff p'.backoff_ms reason retry_after jitter;
      }

  -- A new page: `restoreQueue` of the constructor, over the local storage that the old one left.
  pub restore : Provider Bytes → Provider Bytes
  restore old = record {
    queue = old.stored;
    timer = false;
    backoff_ms = 0;
    last_sync_at = none;
    read_only = false;
    consecutive_failures = 0;
    stored = old.stored;
  }

-- A presence; a position is a natural number below 2 ^ 31, which `| 0` leaves as it is.
pub record Presence : Type 0 where
  pub anchor : ℕ
  pub head : ℕ
  pub typing : Bool

abbrev pub distance : ℕ → ℕ → ℕ
distance a b = (a - b) + (b - a)

abbrev pub differs : Bool → Bool → Bool
differs a b = if a then not b else b

-- `sendPresence`: whether it emits, from the last presence and when that was.
pub sends_presence : Option (Presence × ℕ) → ℕ → Presence → Bool
sends_presence none now p = true
sends_presence (some (last, last_at)) now p =
    let typing_changed = differs p.typing last.typing in
    let moved_enough = leb 3 (distance p.anchor last.anchor + distance p.head last.head) in
    let time_ok = leb (last_at + 120) now in
    if not typing_changed && not moved_enough && not time_ok
    then false
    else if not time_ok && typing_changed
    then true
    else if not time_ok && not moved_enough
    then false
    else true
