-- ===== src/Documents/Tests.antt =====
-- The document service over values in memory.
use realtime_collaborative_e.Base.{
  List, [], ◌∷◌, none, true, String, ◌≡◌, refl, false, some, arith, ok,
}
use realtime_collaborative_e.Base.Map
use realtime_collaborative_e.Platform.Memory.{text_yjs}
use realtime_collaborative_e.Cache
use realtime_collaborative_e.Lock
use realtime_collaborative_e.Documents.Snapshots.{rollback_to_snapshot}
use realtime_collaborative_e.Documents.Snapshots.Rollback.{rollback_to_snapshot-undone}
use realtime_collaborative_e.Redis.Memory.{memory}
use realtime_collaborative_e.Documents.Library.{Record, Library, Outside, Query, list, current}
use realtime_collaborative_e.Documents.Library.Fresh.{
  Call, creates, lists_all, deletes, run, run-current,
}
use realtime_collaborative_e.Documents.{State, Snapshot, pack, load, decode, y_state, compact_up_to}
use realtime_collaborative_e.Documents.Apply.{
  prepare, commit, apply_y_update, locked, transact, compact, publish, note_size,
}
use realtime_collaborative_e.Documents.Read.{get_y_state}
use realtime_collaborative_e.Documents.Rebuild.{process_snapshot, validate_and_repair}
use realtime_collaborative_e.Documents.Sync.{InSync, process_snapshot-InSync, apply_y_update-InSync}
use realtime_collaborative_e.Documents.Written.{Stored, apply_y_update-get_y_state}
use realtime_collaborative_e.Documents.Lost.{interleaved_loses, process_snapshot-compacted}
use realtime_collaborative_e.Documents.Sample.{world, written}
use realtime_collaborative_e.Documents.Answers.{apply_y_update-answer}
use realtime_collaborative_e.Documents.{invalid_update}
use realtime_collaborative_e.Base.{err}

written-InSync : InSync world written "doc" "ab" 2
written-InSync = record {
  content = refl;
  version = refl;
  ascends = (omega arith, (omega arith, tt));
  bounded = omega arith;
  replays = ("da", "a", refl, refl, ("db", "ab", refl, refl, refl));
}

service : Unit {0}
unfolding apply_y_update prepare commit locked transact compact publish note_size Lock.acquire
    Lock.release Cache.set Cache.del Map.set Map.get Map.delete
service = tt

process_snapshot-InSync_example :
    (s' : State world) × (process_snapshot world 3 written "doc" ≡ some s')
    × InSync world s' "doc" "ab" 2
process_snapshot-InSync_example =
    process_snapshot-InSync world written "doc" "ab" 2 3 written-InSync (omega arith)

abbrev after_c : State world
after_c = (apply_y_update world written 7 "doc" "t" "dc").0

apply_y_update-InSync_example :
    (d' : String) × (text_yjs.apply "ab" (decode world "dc") ≡ some d')
    × InSync world after_c "doc" d' 3
unfolding service
apply_y_update-InSync_example =
    apply_y_update-InSync world written after_c 7 "doc" "t" "dc" "ab" 2 written-InSync (omega arith)
      refl

apply_y_update-get_y_state_example :
    (d' : String) × (text_yjs.apply (load world (some (pack world "ab"))) (decode world "dc")
      ≡ some d')
    × ((get_y_state world after_c 9 "doc").1 ≡ ok (y_state world d'))
    × (validate_and_repair world 0 after_c 9 "doc" ≡ some (after_c, false))
unfolding service
apply_y_update-get_y_state_example =
    apply_y_update-get_y_state world written after_c 7 9 0 "doc" "t" "dc" refl (omega arith)

abbrev seen_c : State world
seen_c = (prepare world written 7 "doc" "dc").0

abbrev seen_both : State world
seen_both = (prepare world seen_c 7 "doc" "de").0

abbrev c_written : State world
c_written = (commit world seen_both 7 "doc" "t" "abc" "dc").0

abbrev both_written : State world
both_written = (commit world c_written 7 "doc" "u" "abe" "de").0

interleaved_loses_example :
    Stored world both_written "doc" "abe" × (text_yjs.apply "ab" (decode world "de") ≡ some "abe")
unfolding service
interleaved_loses_example =
    interleaved_loses world written seen_c seen_both c_written both_written 7 "doc" "t" "u" "dc"
      "de" "ab" "abc" "abe" "dc" "de" refl refl refl refl refl

process_snapshot-compacted_example :
    (s' : State world) × (process_snapshot world 2 (compact_up_to world written "doc" 1) "doc"
      ≡ some s')
    × Stored world s' "doc" "b"
process_snapshot-compacted_example =
    process_snapshot-compacted world written "doc" 1 2 "b" (omega arith, tt)
      ("db", "b", refl, refl, refl) (omega arith)

-- A text without the mark of an update.
apply_y_update-answer_example :
    (apply_y_update world written 7 "doc" "t" "c").1 ≡ err invalid_update
apply_y_update-answer_example = apply_y_update-answer world written 7 "doc" "t" "c"

abbrev first_state : Snapshot String
first_state = record { document_id = "doc"; seq = 1; content = pack world "a" }

rollback_to_snapshot-undone_example :
    (t : State world) × (u : State world) × (rollback_to_snapshot world written
        (λ sid. some first_state)
        "doc"
        "s1"
      ≡ (t, ok tt))
    × ((get_y_state world t 7 "doc").1 ≡ ok (y_state world "a"))
    × (process_snapshot world 3 t "doc" ≡ some u)
    × (u.contents "doc" ≡ some (pack world "ab"))
rollback_to_snapshot-undone_example =
    rollback_to_snapshot-undone world written (λ sid. some first_state) 7 3 2 "doc" "s1" first_state
      "ab" "a" written-InSync refl refl (omega arith)

abbrev no_lists : Library (memory (List Record))
no_lists = record { docs = []; cache = λ k. none }

abbrev outside : Outside
outside = record { max_documents = λ ws. some 5; matches = λ query d. true }

abbrev everything : Query
everything = record { q = none; tag = none }

abbrev calls : List (Call (memory (List Record)) outside)
calls =
    creates 1 "d1" (record { workspace_id = "w"; owner_id = "ann"; title = "one" })
    ∷ lists_all 2 "w" everything
    ∷ deletes 3 "d1"
    ∷ []

run-current_example :
    (list
      (memory (List Record))
      outside
      (run (memory (List Record)) outside no_lists calls)
      9
      "w"
      everything).1
    ≡ current (run (memory (List Record)) outside no_lists calls).docs "w"
unfolding Map.get
run-current_example =
    run-current (memory (List Record)) outside calls no_lists 0 9 "w" everything
      (omega arith, refl, (omega arith, (omega arith, omega arith))) (λ at w. refl) refl refl
