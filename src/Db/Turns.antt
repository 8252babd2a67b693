-- ===== src/Db/Turns.antt =====
-- The turns of a thread and the events that tell of them: `append_event`, `update_provider_status`,
-- `record_turn_intent` and `resolve_turn_intent`. Of an event's body, a text of JSON, the code reads the
-- texts at `$.turn_id` and `$.text`; the function that reads the two is a parameter, and so is the
-- identifier that is drawn for a row.
pub mod Races
mod Tests
use localoud_ai.Base.{
  ℕ, ◌+◌, String, List, [], ◌∷◌, ◌++◌, Option, none, some, Bool, true, false, not, ◌&&◌, ◌||◌, ◌==◌,
  nat_eq, string_eq, any, find, reverse, if◌then◌else◌, Result, ok, err,
}
use localoud_ai.Core.{HubThreadId}
use localoud_ai.Db.{update_where, if_found}
use localoud_ai.Db.Sessions.{Store, ThreadRow, TurnRow, EventRow}

pub data TurnError : Type 0 where
  event_without_turn row_refused : TurnError

-- An optional text is a given one; NULL equals nothing.
abbrev pub is : Option String → String → Bool
is none s = false
is (some t) s = t == s

abbrev pub is_provider_thread : String → ThreadRow → Bool
is_provider_thread thread t = t.mapping.provider_thread_id == thread

-- `(SELECT id FROM provider_threads WHERE provider_thread_id=?1)`
abbrev pub hub_id : ThreadRow → HubThreadId
hub_id t = t.mapping.id

abbrev pub thread_of : String → Store → Option HubThreadId
thread_of thread s = if_found hub_id (find (is_provider_thread thread) s.threads)

abbrev thread_of_option : Option String → Store → Option HubThreadId
thread_of_option none s = none
thread_of_option (some thread) s = thread_of thread s

abbrev pub same_thread : Option HubThreadId → Option HubThreadId → Bool
same_thread (some a) (some b) = a == b
same_thread _ _ = false

unfoldable pub append_event :
    (String → Option String × Option String) → ℕ → Option String → String → String → Store → Store
append_event read_body id thread kind body s =
    let fields = read_body body in
    record s {
      events =
          s.events
          ++ record {
            id = id;
            thread_id = thread_of_option thread s;
            kind = kind;
            turn_id = fields.0;
            text = fields.1;
          }
            ∷ [];
    }

abbrev pub completes : String → EventRow → Bool
completes turn e = e.kind == "turn_completed" && is e.turn_id turn

abbrev pub starts_on : Option HubThreadId → EventRow → Bool
starts_on thread e = e.kind == "turn_started" && same_thread e.thread_id thread

-- The last event that passes: `ORDER BY id DESC LIMIT 1`.
abbrev pub last_event : (EventRow → Bool) → Store → Option EventRow
last_event p s = find p (reverse s.events)

-- ('completed','failed','interrupted')
abbrev pub is_ended : String → Bool
is_ended status = status == "completed" || status == "failed" || status == "interrupted"

abbrev pub takes_status : String → String → TurnRow → Bool
takes_status turn status r =
    is r.provider_turn_id turn && (not (is_ended r.status) || not (status == "inProgress"))

abbrev pub with_turn_status : String → TurnRow → TurnRow
with_turn_status status r = record r { status = status }

abbrev set_thread_status : String → String → Store → Store
set_thread_status thread status s = record s {
  threads =
      update_where (is_provider_thread thread)
        (λ (t : ThreadRow). record t { mapping = record t.mapping { status = status } }) s.threads;
}

-- What follows the update of the turn: the thread takes the status, unless a newer turn has started on it.
unfoldable pub conclude_status :
    String → String → String → Option EventRow → Store → Result TurnError (Unit {0}) × Store
conclude_status thread status turn none s = (ok tt, set_thread_status thread status s)
conclude_status thread status turn (some e) s = elim e.turn_id [
  | none ↦ (err event_without_turn, s)
  | some current ↦
      if current == turn then (ok tt, set_thread_status thread status s) else (ok tt, s)
]

unfoldable pub update_provider_status :
    String → String → Option String → Store → Result TurnError (Unit {0}) × Store
unfolding conclude_status
update_provider_status thread status none s = (ok tt, set_thread_status thread status s)
update_provider_status thread status (some turn) s =
    if status == "inProgress" && any (completes turn) s.events
    then (ok tt, s)
    else conclude_status thread status turn (last_event (starts_on (thread_of thread s)) s)
        (record s {
          turns = update_where (takes_status turn status) (with_turn_status status) s.turns;
        })

unfoldable pub record_turn_intent : String → HubThreadId → Store → Result TurnError Store
record_turn_intent id thread s =
    if any (λ (t : TurnRow). t.id == id) s.turns
      || not (any (λ (t : ThreadRow). t.mapping.id == thread) s.threads)
    then err row_refused
    else ok (record s {
      turns =
          s.turns
          ++ record { id = id; thread_id = thread; provider_turn_id = none; status = "dispatching" }
            ∷ [];
    })

abbrev pub text_of : Option EventRow → Option String
text_of none = none
text_of (some e) = e.text

abbrev or_status : Option String → String → String
or_status none status = status
or_status (some text) status = text

-- The status of a turn whose identifier is learnt: that of its completion, if this came first.
unfoldable pub resolved_status : Option String → String → Store → String
resolved_status none status s = status
resolved_status (some turn) status s = or_status (text_of (last_event (completes turn) s)) status

unfoldable pub resolve_turn_intent : String → Option String → String → Store → Store
unfolding resolved_status
resolve_turn_intent id provider_turn status s = record s {
  turns =
      update_where (λ (t : TurnRow). t.id == id)
        (λ (t : TurnRow). record t {
          provider_turn_id = provider_turn;
          status = resolved_status provider_turn status s;
        })
        s.turns;
}
