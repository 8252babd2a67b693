-- ===== src/Core.antt =====
-- crates/hub-core/src/lib.rs: the domain types that every other crate shares, the status machine of
-- a task, and the validation of a context budget. A UUID is the number that it stands for; a
-- freshly generated one is an argument of the function that asks for it.
use localoud_ai.Base.{
  ℕ, String, List, [], Option, none, Bool, true, false, ◌||◌, ltb, nat_beq, Result, ok, err,
  if◌then◌else◌,
}

abbrev pub ProjectId : Type 0
ProjectId = ℕ

abbrev pub PlanId : Type 0
PlanId = ℕ

abbrev pub TaskId : Type 0
TaskId = ℕ

abbrev pub HubThreadId : Type 0
HubThreadId = ℕ

abbrev pub WorktreeId : Type 0
WorktreeId = ℕ

abbrev pub ContextCapsuleId : Type 0
ContextCapsuleId = ℕ

pub record Project : Type 0 where
  pub id : ProjectId
  pub name : String
  pub root : String

pub data ExecutorKind : Type 0 where
  spark codex api astra : ExecutorKind

pub data ExecutorPreference : Type 0 where
  auto spark codex api astra : ExecutorPreference

pub data RiskLevel : Type 0 where
  low medium high : RiskLevel

pub data Complexity : Type 0 where
  trivial normal deep : Complexity

pub data TaskStatus : Type 0 where
  pending blocked ready running reviewing completed failed cancelled : TaskStatus

unfoldable pub can_transition : TaskStatus → TaskStatus → Bool
can_transition pending ready = true
can_transition pending blocked = true
can_transition pending cancelled = true
can_transition blocked ready = true
can_transition blocked cancelled = true
can_transition ready running = true
can_transition ready cancelled = true
can_transition running reviewing = true
can_transition running failed = true
can_transition running cancelled = true
can_transition reviewing completed = true
can_transition reviewing running = true
can_transition reviewing failed = true
can_transition reviewing cancelled = true
can_transition failed ready = true
can_transition failed cancelled = true
can_transition _ _ = false

pub record Task : Type 0 where
  pub id : TaskId
  pub project_id : ProjectId
  pub plan_id : Option PlanId
  pub parent_task_id : Option TaskId
  pub title : String
  pub description : String
  pub dependencies : List TaskId
  pub preferred_executor : ExecutorPreference
  pub assigned_executor : Option ExecutorKind
  pub risk : RiskLevel
  pub complexity : Complexity
  pub status : TaskStatus
  pub context_capsule_id : Option ContextCapsuleId
  pub worktree_id : Option WorktreeId
  pub attempts : ℕ
  pub max_attempts : ℕ

-- `Task::new`, with the identifier that it draws.
unfoldable pub new_task : TaskId → ProjectId → String → String → Task
new_task id project_id title description = record {
  id = id;
  project_id = project_id;
  plan_id = none;
  parent_task_id = none;
  title = title;
  description = description;
  dependencies = [];
  preferred_executor = ExecutorPreference.auto;
  assigned_executor = none;
  risk = RiskLevel.medium;
  complexity = Complexity.normal;
  status = TaskStatus.pending;
  context_capsule_id = none;
  worktree_id = none;
  attempts = 0;
  max_attempts = 2;
}

pub record ContextBudget : Type 0 where
  pub initial_tokens : ℕ
  pub max_total_tokens : ℕ
  pub max_single_retrieval_tokens : ℕ

pub data BudgetError : Type 0 where
  invalid_context_budget : BudgetError

-- `ContextBudget::validate`
unfoldable pub validate_budget : ContextBudget → Result BudgetError (Unit {0})
validate_budget b =
    if nat_beq b.initial_tokens 0
      || ltb b.max_total_tokens b.initial_tokens
      || ltb b.max_total_tokens b.max_single_retrieval_tokens
    then err invalid_context_budget
    else ok tt

pub record ContextItem : Type 0 where
  pub source : String
  pub reference : String
  pub text : String
  pub token_estimate : ℕ

pub record ContextCapsule : Type 0 where
  pub id : ContextCapsuleId
  pub task_id : TaskId
  pub project_id : ProjectId
  pub goal : String
  pub acceptance_criteria : List String
  pub constraints : List String
  pub items : List ContextItem
  pub budget : ContextBudget

pub record Worktree : Type 0 where
  pub id : WorktreeId
  pub task_id : TaskId
  pub path : String
  pub base_sha : String

pub record ContextRetrieval : Type 0 where
  pub id : ℕ
  pub task_id : TaskId
  pub source : String
  pub query : String
  pub token_budget : ℕ
  pub token_estimate : ℕ
  pub result_ref : String

pub record ContextInspection : Type 0 where
  pub capsule : ContextCapsule
  pub initial_tokens : ℕ
  pub retrieved_tokens : ℕ
  pub current_estimate : ℕ
  pub retrievals : List ContextRetrieval
  pub parent_conversation_inherited : Bool

pub data AstraAccessMode : Type 0 where
  chat_gpt_integrated codex_integrated open_ai_api disabled : AstraAccessMode

-- The tests that the code writes as `matches!` and `==` on an enum.
abbrev pub is_low : RiskLevel → Bool
is_low RiskLevel.low = true
is_low _ = false

abbrev pub is_high : RiskLevel → Bool
is_high RiskLevel.high = true
is_high _ = false

abbrev pub is_completed : TaskStatus → Bool
is_completed completed = true
is_completed _ = false

abbrev pub is_ready : TaskStatus → Bool
is_ready ready = true
is_ready _ = false
