-- ===== src/Gateway/Tests.antt =====
-- The gateway over values in memory.
use Prim.Native.String
use realtime_collaborative_e.Base.{
  ℕ, ◌<◌, ◌≤◌, String, ◌≡◌, refl, ◌⊎◌, ◌≢◌, Bool, true, false, Option, none, some, List, [], ◌∷◌,
  ◌++◌, Result, ok, arith,
}
use realtime_collaborative_e.Base.Map
use realtime_collaborative_e.Base.Map.{Map}
use realtime_collaborative_e.Base.Set
use realtime_collaborative_e.Redis.Memory.{memory, set_memory, counter_memory}
use realtime_collaborative_e.Platform.Memory.{text_yjs, mark}
use realtime_collaborative_e.Documents
use realtime_collaborative_e.Documents.Sample.{world, written}
use realtime_collaborative_e.Gateway.{Client, Throw}
use realtime_collaborative_e.Gateway.Text.{trim}
use realtime_collaborative_e.Gateway.Batches.{Batch, IsArmed, pending, flush_doc, enqueue_update}
use realtime_collaborative_e.Gateway.Batches.History
use realtime_collaborative_e.Gateway.Batches.Loss.{deliver, flush_doc-busy}
use realtime_collaborative_e.Gateway.Updates.{
  Server, State, Payload, Status, accepted, duplicate, on_y_update, dispatch, check_msg, check_seq,
  accept, allow_ws_message,
}
use realtime_collaborative_e.Gateway.Updates.Laws.{on_y_update-enqueues}
use realtime_collaborative_e.Gateway.Updates.Order.{on_y_update-duplicate, on_y_update-ascends}
use realtime_collaborative_e.Gateway.Presence.{
  PresencePayload, Presences, on_presence, admit, announce,
}
use realtime_collaborative_e.Gateway.Presence.Throttle.{on_presence-spaced}

-- The text of an update without its mark.
abbrev body : String → String
body String.[] = ""
body (String.◌∷◌ c s) = s

abbrev bodies : List String → String
bodies [] = ""
bodies (u ∷ us) = String.◌++◌ (body u) (bodies us)

abbrev merge : List String → Option String
merge us = some (mark "d" (bodies us))

-- Two updates are delivered, one waits for too long, and one waits.
abbrev history : List (History.Call String)
history =
    History.enqueues 1 "doc" "dc"
    ∷ History.enqueues 2 "doc" "dd"
    ∷ History.flushes "doc"
    ∷ History.enqueues 3 "doc" "de"
    ∷ History.prunes 900
    ∷ History.enqueues 950 "doc" "df"
    ∷ []

abbrev deliver_at_7 : String → Documents.State world → List String → Documents.State world × Bool
deliver_at_7 id = deliver world merge 7 id "t"

abbrev after : History.Instance deliver_at_7 600
after =
    History.run deliver_at_7 600 (record { state = written; ledger = λ _. []; batches = [] })
      history

updates_delivered_example :
    (History.updates_of (after.ledger "doc") ++ pending after.batches "doc"
      ≡ "dc" ∷ "dd" ∷ "de" ∷ "df" ∷ [])
    × IsArmed after.batches
updates_delivered_example = History.updates_delivered deliver_at_7 600 history written "doc"

abbrev contended : Documents.State world
contended = record written { locks = λ k. some ("other", 100) }

abbrev waiting : Map (Batch String)
waiting = ("doc", record { updates = "dc" ∷ "dd" ∷ []; timer = true; last = 5 }) ∷ []

flush_doc-busy_example :
    let (s', rest, out) = flush_doc (deliver world merge 7 "doc" "t") contended waiting "doc" in
    (out ≡ []) × (pending rest "doc" ≡ []) × (s'.contents ≡ contended.contents)
unfolding Map.get
flush_doc-busy_example =
    flush_doc-busy world merge contended 7 "doc" "t" "other" waiting
      (record { updates = "dc" ∷ "dd" ∷ []; timer = true; last = 5 }) "dc" ("dd" ∷ []) "dcd" "abcd"
      refl refl refl refl refl

abbrev server : Server
server = record {
  yjs = text_yjs;
  counters = counter_memory;
  sets = set_memory;
  seqs = memory ℕ;
  msgs_per_sec = 100;
  update_max_bytes = 64;
}

abbrev fresh : State server
fresh = record { counters = λ k. 0; sets = λ k. ([], none); seqs = λ k. none; batches = [] }

abbrev member : Client
member = record { user = some "ann"; joined_docs = "doc" ∷ [] }

abbrev message : ℕ → String → Payload
message n text = record { document_id = "doc"; update_b64 = text; msg_id = some "m"; seq = some n }

abbrev sent : State server × Result Throw Status
sent = on_y_update server fresh 100 member (message 1 "dx")

service : Unit {0}
unfolding on_y_update dispatch check_msg check_seq accept allow_ws_message enqueue_update trim
    Set.has Set.add Map.get Map.set
service = tt

on_y_update-enqueues_example :
    ((sent.1 ≡ ok accepted)
      × (Set.has member.joined_docs "doc" ≡ true)
      × (text_yjs.byte_length "dx" ≤ 64)
      × (text_yjs.apply "" "dx" ≢ none)
      × (sent.0.batches ≡ enqueue_update [] 100 "doc" "dx"))
    ⊎ ((sent.1 ≢ ok accepted) × (sent.0.batches ≡ []))
unfolding service
on_y_update-enqueues_example = on_y_update-enqueues server fresh 100 member (message 1 "dx")

on_y_update-duplicate_example :
    ((on_y_update server sent.0 200 member (message 2 "dy")).1 ≡ ok duplicate)
    × ((on_y_update server sent.0 200 member (message 2 "dy")).0.batches ≡ sent.0.batches)
unfolding service
on_y_update-duplicate_example =
    on_y_update-duplicate server fresh 100 member (message 1 "dx") "m" sent.0 200 member
      (message 2 "dy") refl refl tt refl (omega arith) (omega arith) refl refl tt

on_y_update-ascends_example : 1 < 2
unfolding service
on_y_update-ascends_example =
    on_y_update-ascends server fresh 100 member (message 1 "dx") "ann" 1 sent.0 200 member
      (record (message 2 "dy") { msg_id = none }) 2 refl refl refl refl refl refl (omega arith)
      (omega arith) refl refl

abbrev present : PresencePayload
present = record { document_id = "doc"; anchor = 3; head = 3; typing = false }

abbrev quiet : Presences server
quiet = record { counters = λ k. 0; last = [] }

abbrev announced : Presences server
announced = (on_presence server 60 quiet 100 member present false).0

presence_service : Unit {0}
unfolding on_presence admit announce allow_ws_message trim Map.get Map.set
presence_service = tt

on_presence-spaced_example : 160 ≤ 170
unfolding presence_service
on_presence-spaced_example =
    on_presence-spaced server 60 quiet 100 member present false "ann" announced 170 member present
      false refl refl refl refl (λ e. cc) (λ e. cc)
