-- ===== src/Plan/Tests.antt =====
-- A recovery of two tasks: one with an outcome, one that was interrupted.
use localoud_ai.Base.{
  ℕ, ◌≡◌, refl, String, List, [], ◌∷◌, Option, none, some, Bool, true, false, Result, ok, err, All,
}
use localoud_ai.Core.{
  TaskId, Task, TaskStatus, pending, running, completed, ExecutorPreference, RiskLevel, Complexity,
}
use localoud_ai.Scheduler.{Dag}
use localoud_ai.Plan.{PlanRuntime, WorkerBrief, WorkerOutcome, recover, outcome_missing, PlanError}
use localoud_ai.Plan.Recover.{IsRecovered, recover-IsRecovered}

abbrev task : TaskId → List TaskId → TaskStatus → Task
task id dependencies status = record {
  id = id;
  project_id = 0;
  plan_id = some 5;
  parent_task_id = none;
  title = "parse";
  description = "parse the file";
  dependencies = dependencies;
  preferred_executor = ExecutorPreference.auto;
  assigned_executor = none;
  risk = RiskLevel.low;
  complexity = Complexity.normal;
  status = status;
  context_capsule_id = none;
  worktree_id = none;
  attempts = 0;
  max_attempts = 2;
}

abbrev brief : WorkerBrief
brief = record {
  acceptance_criteria = "test" ∷ [];
  constraints = [];
  context_items = [];
  budget = record {
    initial_tokens = 1000;
    max_total_tokens = 4000;
    max_single_retrieval_tokens = 1000;
  };
  handoff = none;
  execution = none;
}

abbrev sha : String
sha = "aaaaaaaaaaaaaaaaaaaaaaaaaaaaaaaaaaaaaaaa"

abbrev runtime : PlanRuntime
runtime = record {
  plan_id = 5;
  base_sha = sha;
  concurrency = 2;
  briefs = (1, brief) ∷ (2, brief) ∷ [];
}

abbrev outcome : WorkerOutcome
outcome = record {
  task_id = 1;
  thread_id = 3;
  worktree = record { id = 4; task_id = 1; path = "/tmp/w"; base_sha = sha };
  diff = "";
  latency_ms = 1;
  command_failures = 0;
}

abbrev saved : List Task
saved = task 1 [] completed ∷ task 2 (1 ∷ []) running ∷ []

abbrev recovered : Dag
recovered = record { tasks = task 1 [] completed ∷ task 2 (1 ∷ []) pending ∷ [] }

restarted : recover runtime saved ((1, outcome) ∷ []) ≡ ok recovered
unfolding recover localoud_ai.Base.Text.all_chars localoud_ai.Plan.recover_tasks
    localoud_ai.Scheduler.new localoud_ai.Scheduler.collect localoud_ai.Scheduler.insert_task
    localoud_ai.Scheduler.check_tasks localoud_ai.Scheduler.bad_dependencies
    localoud_ai.Scheduler.rounds
restarted = refl

recover-IsRecovered_example : All (IsRecovered sha ((1, outcome) ∷ [])) recovered.tasks
recover-IsRecovered_example =
    recover-IsRecovered runtime saved ((1, outcome) ∷ []) recovered restarted

without_outcome : recover runtime saved [] ≡ err outcome_missing
unfolding recover localoud_ai.Base.Text.all_chars localoud_ai.Plan.recover_tasks
without_outcome = refl
