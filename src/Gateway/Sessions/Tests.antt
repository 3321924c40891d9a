-- ===== src/Gateway/Sessions/Tests.antt =====
-- The life of a socket, the queue of the absent and the claims, over values in memory.
use realtime_collaborative_e.Base.{
  ℕ, ◌≤◌, String, ◌≡◌, refl, Bool, true, false, none, some, List, [], ◌∷◌, length, ◌===◌,
  if◌then◌else◌, ok, arith,
}
use realtime_collaborative_e.Base.Map
use realtime_collaborative_e.Cache
use realtime_collaborative_e.Base.Set
use realtime_collaborative_e.Redis.Memory.{memory, set_memory, list_memory}
use realtime_collaborative_e.Platform.Memory.{text_yjs, mark}
use realtime_collaborative_e.Documents.{y_state}
use realtime_collaborative_e.Documents.Read.{get_y_state}
use realtime_collaborative_e.Documents.Sample.{world, written}
use realtime_collaborative_e.Access.{Directory}
use realtime_collaborative_e.Gateway.{Client}
use realtime_collaborative_e.Gateway.Text.{trim}
use realtime_collaborative_e.Gateway.Presence.{PresenceEvent}
use realtime_collaborative_e.Gateway.Offline.{Audience, intended_users, flush_offline_queue}
use realtime_collaborative_e.Gateway.Offline.Fifo.{queue_events, last_n, flush_offline_queue-events}
use realtime_collaborative_e.Gateway.Claims.{
  Claim, ReleasePayload, Stores, ClaimState, released, ack, claim_key, on_section_release,
}
use realtime_collaborative_e.Gateway.Claims.Owners.{on_section_release-owner}
use realtime_collaborative_e.Gateway.Sessions.{Instance, Session, sockets_of, y_sync, on_y_sync}
use realtime_collaborative_e.Gateway.Sessions.Admission.{
  Move, joins, disconnects, run, run-RoomsFit,
}
use realtime_collaborative_e.Gateway.Sessions.Sync.{unpack, on_y_sync-apply}

-- One document, of ann, without anybody else.
abbrev directory : Directory
directory = record {
  find_by_id = λ id. some (record { owner_id = "ann"; workspace_id = "w" });
  find_perm = λ id user. none;
  find_role = λ ws user. none;
}

abbrev instance_of_two : Instance String
instance_of_two = record {
  world = world;
  directory = directory;
  sets = set_memory;
  presences = memory PresenceEvent;
  claims = memory Claim;
  queues = list_memory String;
  max_room_capacity = 2;
  compress_threshold = 4;
}

abbrev quiet : Session instance_of_two
quiet = record {
  rooms = [];
  docs = written;
  sets = λ k. ([], none);
  presences = λ k. none;
  claims = λ k. none;
  queues = λ k. [];
  channels = record { sub_refs = []; subscribed = [] };
}

abbrev ann : Client
ann = record { user = some "ann"; joined_docs = [] }

abbrev moves : List (Move instance_of_two)
moves =
    joins 1 "s1" ann "doc"
    ∷ joins 2 "s2" ann "doc"
    ∷ joins 3 "s3" ann "doc"
    ∷ disconnects 4 "s1" ann
    ∷ []

quiet-RoomsFit : (room : String) → length (sockets_of quiet.rooms room) ≤ 2
unfolding Map.get
quiet-RoomsFit room = omega arith

run-RoomsFit_example : length (sockets_of (run instance_of_two quiet moves).rooms "doc:doc") ≤ 2
run-RoomsFit_example = run-RoomsFit instance_of_two moves quiet quiet-RoomsFit "doc:doc"

state_of_doc : (get_y_state world written 5 (trim "doc")).1 ≡ ok (y_state world "ab")
unfolding get_y_state trim Cache.get Map.get
state_of_doc = refl

is_named : (trim "doc" === "") ≡ false
unfolding trim
is_named = refl

on_y_sync-apply_example :
    (b64 : String) × (gz : Bool) × (update : String) × ((on_y_sync instance_of_two quiet 5 ann "doc"
        (some "a")).1
      ≡ y_sync (trim "doc") b64 gz "ab" ∷ [])
    × (unpack instance_of_two b64 gz ≡ some update)
    × (text_yjs.apply "a" update ≡ text_yjs.apply "a" (mark "d" "ab"))
on_y_sync-apply_example =
    on_y_sync-apply instance_of_two quiet 5 ann "ann" "doc" "ab" "a" refl is_named state_of_doc

abbrev audience : Audience
audience = record { list = λ id. "bob" ∷ []; list_members = λ ws. [] }

abbrev events : List (ℕ × List String × String)
events = (5, "ann" ∷ [], "first") ∷ (9, [], "second") ∷ []

meant :
    Set.has (intended_users audience "doc" (record { owner_id = "ann"; workspace_id = "w" })) "bob"
    ≡ true
unfolding Set.add Set.has
meant = refl

bob_away : Set.has ("ann" ∷ []) "bob" ≡ false
unfolding Set.has
bob_away = refl

nobody_online : Set.has [] "bob" ≡ false
unfolding Set.has
nobody_online = refl

flush_offline_queue-events_example :
    (flush_offline_queue
      (list_memory String)
      (queue_events (list_memory String) directory audience "doc" (λ k. []) events)
      20
      "doc"
      "bob").1
    ≡ last_n 1000 ("first" ∷ "second" ∷ [])
flush_offline_queue-events_example =
    flush_offline_queue-events (list_memory String) directory audience "doc" events
      (record { owner_id = "ann"; workspace_id = "w" }) "bob" (λ k. []) 0 20 refl meant
      (λ at lo hi. refl)
      (
        omega arith,
        omega arith,
        bob_away,
        (omega arith, omega arith, nobody_online, (omega arith, omega arith)),
      )

abbrev claim_stores : Stores
claim_stores = record { claims = memory Claim; sets = set_memory }

abbrev anns_claim : Claim
anns_claim = record {
  claim_id = "c";
  document_id = "doc";
  from = 1;
  to = 4;
  user_id = "ann";
  ts = 0;
  ttl = 60;
}

abbrev claimed : ClaimState claim_stores
claimed = record { claims = λ k. some (anns_claim, 100); sets = λ k. ([], none) }

abbrev bobs_release : ReleasePayload
bobs_release = record { document_id = "doc"; claim_id = "c"; msg_id = none }

abbrev bob : Client
bob = record { user = some "bob"; joined_docs = [] }

on_section_release-owner_example :
    let (s', acts, answer) = on_section_release claim_stores claimed 5 bob bobs_release in
    (claim_stores.claims.get s'.claims 5 (claim_key "doc" "c")
      ≡ (if "ann" === "bob" then none else some anns_claim))
    × (acts ≡ released "c" "doc" "bob" ∷ ack none none ∷ [])
    × (answer ≡ ok tt)
on_section_release-owner_example =
    on_section_release-owner claim_stores claimed 5 bob bobs_release "bob" anns_claim refl refl refl
      refl
