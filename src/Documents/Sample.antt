-- ===== src/Documents/Sample.antt =====
-- A document service over values in memory, and a state of it.
use realtime_collaborative_e.Base.{ℕ, String, none, some, [], ◌∷◌}
use realtime_collaborative_e.Redis.Memory.{memory}
use realtime_collaborative_e.Platform.Memory.{text_yjs, list_collection, function_table, mark}
use realtime_collaborative_e.Documents.{
  World, State, Content, LogRow, Snapshot, SizeNote, YState, pack,
}

abbrev pub world : World
world = record {
  yjs = text_yjs;
  versions = function_table ℕ;
  contents = function_table (Content String);
  updates = list_collection (LogRow String);
  snaps = list_collection (Snapshot String);
  locks = memory String;
  notes = memory SizeNote;
  states = memory YState;
  config = record {
    max_state_bytes = 100;
    snapshot_every = 2;
    update_keep = 5;
    alert_threshold = 3;
    mem_ttl = 5;
    redis_ttl = 30;
  };
}

abbrev pub row : ℕ → String → LogRow String
row n u = record { document_id = "doc"; seq = n; update = mark "z" (mark "d" u) }

-- A document of version 2 that holds "ab", from the updates "a" and "b".
abbrev pub written : State world
written = record {
  versions = λ id. some 2;
  contents = λ id. some (pack world "ab");
  updates = row 1 "a" ∷ row 2 "b" ∷ [];
  snaps = [];
  locks = λ k. none;
  notes = λ k. none;
  states = λ k. none;
  memory = record { store = []; order = []; max = 10 };
  audit = [];
}
