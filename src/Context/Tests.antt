-- ===== src/Context/Tests.antt =====
-- Runs of the broker on one task with a capsule.
use localoud_ai.Base.{
  ℕ, ◌+◌, ◌≤◌, ◌≡◌, refl, String, List, [], ◌∷◌, Option, none, some, Bool, true, false, Result, ok,
  err, ok_injective, arith, ◌≢◌,
}
use localoud_ai.Core.{ContextCapsule, ContextRetrieval}
use localoud_ai.Context.{
  Outside, ContextSource, decision_store, ContextRequest, RetrievalResult, ContextError,
  RetrievalResult, estimate_tokens, out_of_fuel,
}
use localoud_ai.Context.Store.{Rows, capsule, retrievals, total, commit_retrieval}
use localoud_ai.Context.Broker.{finish, retrieve_async}
use localoud_ai.Context.Cut.{finish-fits, finish-ne-out_of_fuel}
use localoud_ai.Context.Budget.{IsWithin, retrieve_async-IsWithin}

abbrev small_capsule : ContextCapsule
small_capsule = record {
  id = 9;
  task_id = 1;
  project_id = 0;
  goal = "fix the parser";
  acceptance_criteria = [];
  constraints = [];
  items = [];
  budget = record {
    initial_tokens = 50;
    max_total_tokens = 200;
    max_single_retrieval_tokens = 100;
  };
}

abbrev start : Rows
start = record { capsules = (small_capsule, 40) ∷ []; retrieved = [] }

start-IsWithin : IsWithin 1 start
unfolding capsule retrievals total
start-IsWithin c initial e = ground arith

abbrev world : Outside
world = record {
  redact = λ s. s;
  capsule_text = λ c. c.goal;
  result_text = λ r. r.text;
  source_text = λ s. "decision_store";
  error_text = λ e. "error";
  id_text = λ n. "id";
  status_text = λ s. "Ready";
  lower = λ s. s;
  components = λ s. some s ∷ [];
  is_symlink = λ s. ok false;
  file_size = λ s. ok 10;
  read_to_string = λ s. ok "text";
  search_decisions = λ p q. ok (("d1", "use a table") ∷ []);
  search_session = λ p q. ok [];
  tasks = λ p. ok [];
  memory = none;
}

abbrev question : ContextRequest
question = record { source = decision_store; query = "table"; path = none; token_budget = 64 }

retrieve_async-IsWithin_example : IsWithin 1 (retrieve_async world 1 0 7 question start).1
retrieve_async-IsWithin_example =
    retrieve_async-IsWithin world 1 0 7 1 question start start-IsWithin

answered :
    (retrieve_async world 1 0 7 question start).0
    ≡ ok (record {
      source = decision_store;
      references = "d1" ∷ [];
      text = "[d1]\nuse a table";
      truncated = false;
    })
unfolding retrieve_async localoud_ai.Base.Text.is_blank capsule total retrievals
    localoud_ai.Context.Broker.join localoud_ai.Context.estimate_tokens commit_retrieval
answered = refl

abbrev row : ContextRetrieval
row = record {
  id = 7;
  task_id = 1;
  source = "decision_store";
  query = "table";
  token_budget = 64;
  token_estimate = 6;
  result_ref = "d1";
}

taken : commit_retrieval row start ≡ ok (record start { retrieved = row ∷ [] })
unfolding commit_retrieval
taken = refl

abbrev answer : RetrievalResult
answer = record {
  source = decision_store;
  references = "d1" ∷ [];
  text = "[d1]\nuse a table";
  truncated = false;
}

finished :
    finish world 1 0 7 question (("d1", "use a table") ∷ []) start
    ≡ ok (answer, record start { retrieved = row ∷ [] })
unfolding finish localoud_ai.Context.Broker.join estimate_tokens commit_retrieval
finished = refl

finish-fits_example : estimate_tokens "[d1]\nuse a table" ≤ 64
finish-fits_example =
    finish-fits world 1 0 7 question (("d1", "use a table") ∷ []) start
      (answer, record start { retrieved = row ∷ [] }) finished

finish-ne-out_of_fuel_example :
    finish world 1 0 7 question (("d1", "use a table") ∷ []) start ≢ err out_of_fuel
finish-ne-out_of_fuel_example =
    finish-ne-out_of_fuel world 1 0 7 question (("d1", "use a table") ∷ []) start
