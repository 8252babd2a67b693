-- ===== src/Plan.antt =====
-- crates/hub-runtime/src/plan.rs, with the brief of a worker of workers.rs: how a plan becomes a
-- task graph, and how the graph is rebuilt when the hub starts again. An identifier that is drawn
-- comes from a function of the place of the step; a hash map is a list of pairs.
pub mod Recover
mod Tests
use localoud_ai.Base.{
  ℕ, zero, suc, ◌+◌, String, List, [], ◌∷◌, ◌++◌, Option, none, some, Bool, true, false, not, ◌&&◌,
  ◌||◌, len, ltb, leb, ◌==◌, nat_eq, string_eq, any, all, map, keep, find, length, contains,
  is_empty, if◌then◌else◌, Result, ok, err, ◌>>=◌, ◌>>◌, bail_if, ok_or,
}
use localoud_ai.Base.Text.{is_blank, is_nil, all_chars, is_ascii_hexdigit}
use localoud_ai.Core.{
  ProjectId, PlanId, TaskId, HubThreadId, Task, TaskStatus, pending, running, reviewing, completed,
  is_completed, ContextBudget, ContextItem, validate_budget, Worktree, new_task,
}
use localoud_ai.Scheduler.{Dag, DagError, new, with_status}
use localoud_ai.Handoff.{Handoff, HandoffError, Selection}
use localoud_ai.Handoff.Packing.{select}
use localoud_ai.Context.{Outside, ContextError, estimate_tokens, prepare_capsule}

pub record WorkerExecution : Type 0 where
  pub model : String
  pub reasoning : String

pub record WorkerBrief : Type 0 where
  pub acceptance_criteria : List String
  pub constraints : List String
  pub context_items : List ContextItem
  pub budget : ContextBudget
  pub handoff : Option Handoff
  pub execution : Option WorkerExecution

pub record WorkerOutcome : Type 0 where
  pub task_id : TaskId
  pub thread_id : HubThreadId
  pub worktree : Worktree
  pub diff : String
  pub latency_ms : ℕ
  pub command_failures : ℕ

pub record PlanStep : Type 0 where
  pub key : String
  pub title : String
  pub goal : String
  pub dependencies : List String
  pub brief : WorkerBrief

pub record ExecutionPlan : Type 0 where
  pub title : String
  pub steps : List PlanStep

pub record PlanRuntime : Type 0 where
  pub plan_id : PlanId
  pub base_sha : String
  pub concurrency : ℕ
  pub briefs : List (TaskId × WorkerBrief)

pub data PlanError : Type 0 where
  bad_title_or_count incomplete_step invalid_budget duplicate_key unknown_key : PlanError
  incomplete_execution secret_handoff : PlanError
  bad_handoff : HandoffError → PlanError
  bad_capsule : ContextError → PlanError
  -- of the recovery
  bad_settings task_set_changed provenance_mismatch outcome_missing : PlanError
  bad_graph : DagError → PlanError

-- `dag?`
abbrev pub graph_of : Result DagError Dag → Result PlanError Dag
graph_of (ok dag) = ok dag
graph_of (err e) = err (bad_graph e)

abbrev of_capsule : {A : Type 0} → Result ContextError A → Result PlanError (Unit {0})
of_capsule (ok c) = ok tt
of_capsule (err e) = err (bad_capsule e)

-- The JSON texts of a handoff and of a selection.
pub record HandoffTexts : Type 0 where
  pub handoff_text : Handoff → String
  pub selection_text : Selection → String

abbrev of_selection : Result HandoffError Selection → Result PlanError Selection
of_selection (ok s) = ok s
of_selection (err e) = err (bad_handoff e)

-- `Handoff::context_item` of crates/hub-context/src/handoff.rs
unfoldable pub context_item : Outside → HandoffTexts → Handoff → Result PlanError ContextItem
context_item out texts h = do
  selection ←
      of_selection (select (λ x. len (texts.handoff_text x)) (λ x. len (texts.selection_text x)) h)
  let text = texts.selection_text selection
  bail_if (not (out.redact text == text)) secret_handoff
  ok (record {
    source = "historical_handoff_evidence";
    reference = "handoff/v1";
    text = text;
    token_estimate = estimate_tokens text;
  })

abbrev incomplete : Option WorkerExecution → Bool
incomplete none = false
incomplete (some e) = is_blank e.model || is_blank e.reasoning

-- `WorkerBrief::prepare_handoff`, with the identifier that is drawn for the trial capsule.
unfoldable pub prepare_handoff :
    Outside → HandoffTexts → ℕ → WorkerBrief → Task → Result PlanError (Option ContextItem)
unfolding context_item
prepare_handoff out texts fresh brief task = do
  bail_if (incomplete brief.execution) incomplete_execution
  elim brief.handoff [
    | none ↦ ok none
    | some h ↦ do
      item ← context_item out texts h
      of_capsule (
          prepare_capsule out fresh task.id task.project_id task.description
            brief.acceptance_criteria brief.constraints (brief.context_items ++ item ∷ [])
            brief.budget)
      ok (some item)
  ]

abbrev value_of : {A B : Type 0} → Option (A × B) → Option B
value_of none = none
value_of (some p) = some p.1

-- `ids.get(key)`
abbrev pub id_of : String → List (String × TaskId) → Option TaskId
id_of key pairs = value_of (find (λ p. p.0 == key) pairs)

unfoldable pub resolve : List (String × TaskId) → List String → Result PlanError (List TaskId)
resolve pairs [] = ok []
resolve pairs (d ∷ ds) = do
  id ← ok_or (id_of d pairs) unknown_key
  rest ← resolve pairs ds
  ok (id ∷ rest)

module _ (out : Outside) (texts : HandoffTexts) (fresh : ℕ → ℕ) (project : ProjectId) where
  abbrev of_budget : ContextBudget → Result PlanError (Unit {0})
  of_budget b = elim (validate_budget b) [ err e ↦ err invalid_budget | ok u ↦ ok tt ]

  -- The first loop of `compile`: every step is checked and given an identifier.
  unfoldable pub number_steps :
      ℕ → List (String × TaskId) → List PlanStep → Result PlanError (List (String × TaskId))
  unfolding prepare_handoff
  number_steps n pairs [] = ok pairs
  number_steps n pairs (s ∷ ss) = do
    bail_if
        (is_nil s.key
          || is_blank s.title
          || is_blank s.goal
          || is_empty s.brief.acceptance_criteria)
        incomplete_step
    of_budget s.brief.budget
    prepare_handoff out texts (fresh n) s.brief (new_task (fresh n) project s.title s.goal)
        >>= λ item. ok tt
    bail_if (contains (map (λ p. p.0) pairs) s.key) duplicate_key
    number_steps (suc n) (pairs ++ (s.key, fresh n) ∷ []) ss

  -- The second loop: the tasks, in the order of the steps.
  unfoldable pub build_tasks :
      PlanId → List (String × TaskId) → List PlanStep → Result PlanError (List Task)
  unfolding resolve
  build_tasks plan pairs [] = ok []
  build_tasks plan pairs (s ∷ ss) = do
    id ← ok_or (id_of s.key pairs) unknown_key
    dependencies ← resolve pairs s.dependencies
    rest ← build_tasks plan pairs ss
    ok (
        record (new_task id project s.title s.goal) {
          plan_id = some plan;
          dependencies = dependencies;
        }
        ∷ rest)

  abbrev brief_pairs : List Task → List PlanStep → List (TaskId × WorkerBrief)
  brief_pairs [] ss = []
  brief_pairs (t ∷ ts) [] = []
  brief_pairs (t ∷ ts) (s ∷ ss) = (t.id, s.brief) ∷ brief_pairs ts ss

  -- `ExecutionPlan::compile`
  unfoldable pub compile :
      PlanId → ExecutionPlan → Result PlanError (Dag × List (TaskId × WorkerBrief))
  unfolding number_steps build_tasks
  compile plan p = do
    bail_if (is_blank p.title || is_empty p.steps || ltb 32 (length p.steps)) bad_title_or_count
    pairs ← number_steps 0 [] p.steps
    tasks ← build_tasks plan pairs p.steps
    dag ← graph_of (new tasks)
    ok (dag, brief_pairs tasks p.steps)

abbrev is_plan : PlanId → Option PlanId → Bool
is_plan plan none = false
is_plan plan (some p) = p == plan

abbrev pub is_interrupted : TaskStatus → Bool
is_interrupted running = true
is_interrupted reviewing = true
is_interrupted _ = false

abbrev pub outcome_for : TaskId → List (TaskId × WorkerOutcome) → Option WorkerOutcome
outcome_for id outcomes = value_of (find (λ p. p.0 == id) outcomes)

-- The body of the loop of `recover` over the tasks.
unfoldable pub recover_task : String → List (TaskId × WorkerOutcome) → Task → Result PlanError Task
recover_task base_sha outcomes t = elim (outcome_for t.id outcomes) [
  | some o ↦
      bail_if
        (not (o.task_id == t.id)
          || not (o.worktree.task_id == t.id)
          || not (o.worktree.base_sha == base_sha))
        provenance_mismatch
      >> ok (with_status completed t)
  | none ↦
      bail_if (is_completed t.status) outcome_missing
      >> ok (if is_interrupted t.status then with_status pending t else t)
]

unfoldable pub recover_tasks :
    String → List (TaskId × WorkerOutcome) → List Task → Result PlanError (List Task)
unfolding recover_task
recover_tasks base_sha outcomes [] = ok []
recover_tasks base_sha outcomes (t ∷ ts) = do
  u ← recover_task base_sha outcomes t
  us ← recover_tasks base_sha outcomes ts
  ok (u ∷ us)

-- The two guards of `recover`, and the tasks that it keeps.
abbrev pub settings_invalid : PlanRuntime → Bool
settings_invalid r =
    not (leb 1 r.concurrency && leb r.concurrency 8)
    || not (len r.base_sha == 40 || len r.base_sha == 64)
    || not (all_chars is_ascii_hexdigit r.base_sha)

abbrev pub tasks_of_plan : PlanRuntime → List Task → List Task
tasks_of_plan r tasks = keep (λ (t : Task). is_plan r.plan_id t.plan_id) tasks

abbrev pub tasks_changed : PlanRuntime → List Task → Bool
tasks_changed r kept =
    not (length kept == length r.briefs)
    || any (λ (t : Task). not (any (λ b. b.0 == t.id) r.briefs)) kept

-- `PlanRuntime::recover`
unfoldable pub recover :
    PlanRuntime → List Task → List (TaskId × WorkerOutcome) → Result PlanError Dag
recover r tasks outcomes = do
  bail_if (settings_invalid r) bad_settings
  bail_if (tasks_changed r (tasks_of_plan r tasks)) task_set_changed
  recovered ← recover_tasks r.base_sha outcomes (tasks_of_plan r tasks)
  graph_of (new recovered)
