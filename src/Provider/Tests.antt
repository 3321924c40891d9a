-- ===== src/Provider/Tests.antt =====
-- The provider over documents of two flags, which updates set.
use Prim.Native.String
use realtime_collaborative_e.Base.{
  String, ◌≡◌, refl, ap, ◌∙◌, sym, Bool, true, false, ◌||◌, none, some, List, [], ◌∷◌, ◌===◌, arith,
}
use realtime_collaborative_e.Platform.{Yjs}
use realtime_collaborative_e.Platform.Memory.{mark, unmark, marked-ne-empty}
use realtime_collaborative_e.Provider.{network_error, apply_all, enqueue, flush_start, flush_failed}
use realtime_collaborative_e.Provider.Delivery.{
  Exchange, Reach, here, edits, sends, serves, loses, Reach-delivers,
}

abbrev Flags : Type 0
Flags = Bool × Bool

abbrev shown : Flags → String
shown (true, true) = "xy"
shown (true, false) = "x"
shown (false, true) = "y"
shown (false, false) = ""

abbrev set_flags : Flags → String → Flags
set_flags (a, b) s = (a || (s === "x") || (s === "xy"), b || (s === "y") || (s === "xy"))

set_flags-shown : (d : Flags) → some (set_flags (false, false) (shown d)) ≡ some d
set_flags-shown (true, true) = refl
set_flags-shown (true, false) = refl
set_flags-shown (false, true) = refl
set_flags-shown (false, false) = refl

abbrev flags_yjs : Yjs
flags_yjs = record {
  Bytes = String;
  YDoc = Flags;
  empty = (false, false);
  apply = λ d s. some (set_flags d s);
  encode = shown;
  vector = shown;
  encode_since = λ d v. shown d;
  byte_length = λ b. String.len b;
  gzip = mark "z";
  no_bytes = "";
  gunzip = unmark;
  to_base64 = λ b. b;
  from_base64 = λ s. s;
  sha256 = mark "#";
  apply-encode = set_flags-shown;
  apply-encode_since = λ d e. refl;
  gunzip-gzip = λ b. refl;
  sha256-ne-empty = marked-ne-empty "#";
  from_base64-to_base64 = λ b. refl;
}

-- The flags of either.
abbrev joined : Flags → Flags → Flags
joined (a, b) (c, d) = (a || c, b || d)

joined-apply : (s d : Flags) (u : String) → set_flags (joined s d) u ≡ joined s (set_flags d u)
joined-apply (a, b) (c, d) u = ground arith

joined-apply_all :
    (s d d' : Flags) (us : List String)
    → apply_all flags_yjs d us ≡ some d'
    → apply_all flags_yjs (joined s d) us ≡ some (joined s d')
joined-apply_all s d d' [] e = ap some (ap (joined s) (cc e))
joined-apply_all s d d' (u ∷ us) e =
    ap (λ x. apply_all flags_yjs x us) (joined-apply s d u)
    ∙ joined-apply_all s (set_flags d u) d' us e

joined-none : (s : Flags) → joined s (false, false) ≡ s
joined-none (a, b) = ground arith

set_flags-joined : (s d : Flags) → set_flags s (shown d) ≡ joined s d
set_flags-joined (a, b) (true, true) = ground arith
set_flags-joined (a, b) (true, false) = ground arith
set_flags-joined (a, b) (false, true) = ground arith
set_flags-joined (a, b) (false, false) = ground arith

flags_merge :
    (s d : Flags) (us : List String)
    → apply_all flags_yjs (false, false) us ≡ some d
    → some (set_flags s (shown d)) ≡ apply_all flags_yjs s us
flags_merge s d us e =
    ap some (set_flags-joined s d)
    ∙ sym (joined-apply_all s (false, false) d us e)
    ∙ ap (λ x. apply_all flags_yjs x us) (joined-none s)

flags_commute :
    (s : Flags) (u v : String)
    → apply_all flags_yjs s (u ∷ v ∷ []) ≡ apply_all flags_yjs s (v ∷ u ∷ [])
flags_commute (a, b) u v = ground arith

flags_idempotent :
    (s d : Flags) (u : String) → some (set_flags s u) ≡ some d → some (set_flags d u) ≡ some d
flags_idempotent (a, b) (c, d) u e = ground arith

abbrev start : Exchange flags_yjs 30000
start = record {
  provider = record {
    queue = [];
    timer = false;
    backoff_ms = 0;
    last_sync_at = none;
    read_only = false;
    consecutive_failures = 0;
    stored = [];
  };
  doc = (false, false);
  sent = [];
  served = [];
}

abbrev edited : Exchange flags_yjs 30000
edited = record start { provider = enqueue flags_yjs start.provider "x" }

abbrev requested : Exchange flags_yjs 30000
requested = record edited { provider = (flush_start flags_yjs edited.provider).0; sent = "x" ∷ [] }

-- The second edit comes while the first is under way.
abbrev edited_again : Exchange flags_yjs 30000
edited_again = record requested { provider = enqueue flags_yjs requested.provider "y" }

abbrev saved : Exchange flags_yjs 30000
saved = record edited_again { doc = (true, false); sent = []; served = "x" ∷ [] }

-- The response is lost.
abbrev requeued : Exchange flags_yjs 30000
requeued = record saved {
  provider = flush_failed flags_yjs 30000 saved.provider "x" network_error none 7;
  served = [];
}

starts : (flush_start flags_yjs edited.provider).1 ≡ some "x"
unfolding flush_start enqueue
starts = refl

history : Reach flags_yjs 30000 start requeued ("x" ∷ "y" ∷ [])
history =
    loses (serves (edits (sends (edits here "x") "x" starts) "y") [] "x" [] (true, false) refl refl)
      [] "x" [] refl network_error none 7

Reach-delivers_example :
    apply_all flags_yjs (true, false) requeued.provider.queue ≡ some (true, true)
Reach-delivers_example =
    Reach-delivers flags_yjs 30000 flags_merge flags_commute flags_idempotent refl refl history

queued_last : requeued.provider.queue ≡ "y" ∷ "x" ∷ []
unfolding flush_start flush_failed enqueue
queued_last = refl
