-- ===== src/Context.antt =====
-- crates/hub-context/src/lib.rs: the context of a task and the retrievals that use up its budget,
-- with the rows of crates/hub-db/src/lib.rs that they stand in. What is outside is a parameter: the
-- redaction of secrets by regular expressions, the JSON texts, the file system and the searches.
pub mod Store
pub mod Broker
pub mod Budget
pub mod Cut
mod Tests
use localoud_ai.Base.{
  ℕ, ◌+◌, ◌/◌, ◌-◌, ◌^◌, String, List, [], ◌∷◌, Option, Bool, not, len, ltb, ◌==◌, string_eq, any,
  map, if◌then◌else◌, Result, ok, err, ◌>>=◌, ◌>>◌, bail_if,
}
use localoud_ai.Base.Text.{is_blank}
use localoud_ai.Core.{
  ProjectId, TaskId, Task, TaskStatus, ContextBudget, ContextCapsule, ContextCapsuleId, ContextItem,
  BudgetError, invalid_context_budget, validate_budget,
}

pub data ContextSource : Type 0 where
  repo session_store org_brain decision_store task_history : ContextSource

pub record ContextRequest : Type 0 where
  pub source : ContextSource
  pub query : String
  pub path : Option String
  pub token_budget : ℕ

pub record RetrievalResult : Type 0 where
  pub source : ContextSource
  pub references : List String
  pub text : String
  pub truncated : Bool

pub data ContextError : Type 0 where
  bad_budget empty_goal secret_item secret_goal secret_capsule capsule_over_budget : ContextError
  -- of the database
  capsule_exists no_capsule_row retrieval_exhausted : ContextError
  -- of a retrieval
  capsule_not_found bad_request single_retrieval_exceeded remaining_exceeded metadata_exceeds :
      ContextError
  path_missing bad_path sensitive_path unbounded_file org_brain_not_configured memory_rejected :
      ContextError
  -- the error of a read or a search
  outside : String → ContextError
  -- not in the code: the bound on a loop of the model was too small
  out_of_fuel : ContextError

-- What the code reads of a memory item.
pub record MemoryItem : Type 0 where
  pub id : String
  pub text : String
  pub source_refs : List String

pub record Outside : Type 1 where
  -- `hub_policy::redact`
  pub redact : String → String
  -- `serde_json::to_string` of a capsule, a result and a source less its quotes
  pub capsule_text : ContextCapsule → String
  pub result_text : RetrievalResult → String
  pub source_text : ContextSource → String
  -- `to_string` of an error and of an identifier, `{:?}` of a status
  pub error_text : ContextError → String
  pub id_text : ℕ → String
  pub status_text : TaskStatus → String
  -- `to_lowercase`
  pub lower : String → String
  -- `Path::components`, with the text of those that are `Component::Normal`
  pub components : String → List (Option String)
  -- the file under the root of the project: whether it is a symbolic link, its size, its text
  pub is_symlink : String → Result String Bool
  pub file_size : String → Result String ℕ
  pub read_to_string : String → Result String String
  pub search_decisions : ProjectId → String → Result String (List (String × String))
  pub search_session : ProjectId → String → Result String (List (String × String))
  pub tasks : ProjectId → Result String (List Task)
  -- the durable memory, if one is configured
  pub memory : Option (String → Result String (List MemoryItem))

-- `text.len().div_ceil(3).try_into().unwrap_or(u32::MAX)`
unfoldable pub estimate_tokens : String → ℕ
estimate_tokens text = let n = (len text + 2) / 3 in if ltb n (2 ^ 32) then n else 2 ^ 32 - 1

abbrev estimated : ContextItem → ContextItem
estimated i = record i { token_estimate = estimate_tokens i.text }

-- `prepare_capsule`, with the identifier that it draws. The items are checked one after the other.
unfoldable pub prepare_capsule :
    Outside
    → ContextCapsuleId
    → TaskId
    → ProjectId
    → String
    → List String
    → List String
    → List ContextItem
    → ContextBudget
    → Result ContextError ContextCapsule
prepare_capsule out fresh task project goal acceptance constraints items budget = do
  elim (validate_budget budget) [ err e ↦ err bad_budget | ok u ↦ ok tt ]
  bail_if (is_blank goal) empty_goal
  bail_if (any (λ (i : ContextItem). not (out.redact i.text == i.text)) items) secret_item
  bail_if (not (out.redact goal == goal)) secret_goal
  let c : ContextCapsule = record {
    id = fresh;
    task_id = task;
    project_id = project;
    goal = goal;
    acceptance_criteria = acceptance;
    constraints = constraints;
    items = map estimated items;
    budget = budget;
  }
  bail_if (not (out.redact (out.capsule_text c) == out.capsule_text c)) secret_capsule
  bail_if (ltb budget.initial_tokens (estimate_tokens (out.capsule_text c))) capsule_over_budget
  ok c
