-- ===== src/Db/Turns/Tests.antt =====
-- Runs of the two orders of an answer and a completion (crates/hub-db/src/lib.rs).
use localoud_ai.Base.{◌≡◌, refl, String, List, [], ◌∷◌, Option, none, some, false, err}
use localoud_ai.Db.Sessions.{Store, ThreadRow, TurnRow}
use localoud_ai.Db.Turns.{record_turn_intent, row_refused}
use localoud_ai.Db.Turns.Races.{answer_first, completion_first, completion_either_way}

abbrev thread : ThreadRow
thread = record {
  mapping = record {
    id = 1;
    project_id = 1;
    provider = "codex";
    provider_thread_id = "p1";
    title = "Parser";
    status = "dispatching";
  };
  archived = false;
}

abbrev asked : TurnRow
asked = record { id = "intent"; thread_id = 1; provider_turn_id = none; status = "dispatching" }

abbrev store : Store
store = record {
  projects = [];
  threads = thread ∷ [];
  turns = asked ∷ [];
  events = [];
  settings = [];
  snapshots = [];
}

abbrev read_body : String → Option String × Option String
read_body body = (some "turn", some "failed")

abbrev turn_after : Store → List TurnRow
turn_after s = s.turns

late_answer :
    turn_after (completion_first read_body "intent" "inProgress" 1 "p1" "turn" "failed" "{}" store)
    ≡ record asked { provider_turn_id = some "turn"; status = "failed" } ∷ []
unfolding localoud_ai.Db.Turns.resolve_turn_intent localoud_ai.Db.Turns.Races.complete
late_answer = refl

intent_again : record_turn_intent "intent" 1 store ≡ err row_refused
unfolding record_turn_intent
intent_again = refl

completion_either_way_example :
    answer_first read_body "intent" "inProgress" 1 "p1" "turn" "failed" "{}" store
    ≡ completion_first read_body "intent" "inProgress" 1 "p1" "turn" "failed" "{}" store
completion_either_way_example =
    completion_either_way read_body "intent" "inProgress" 1 "p1" "turn" "failed" "{}" store refl
      refl refl refl
