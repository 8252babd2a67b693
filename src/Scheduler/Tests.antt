-- ===== src/Scheduler/Tests.antt =====
-- Runs of the scheduler on a plan of two tasks, the second of which depends on the first.
use localoud_ai.Base.{
  ◌≡◌, ◌≢◌, ◌≤◌, ◌↔◌, ◌⊎◌, refl, length, List, [], ◌∷◌, subst, map, Result, none, some, true, ok,
  err, All, ◌==◌, nat_eq, if◌then◌else◌, arith,
}
use localoud_ai.Core.{
  Task, TaskId, pending, blocked, ready, running, completed, failed, ExecutorPreference, RiskLevel,
  Complexity, can_transition,
}
use localoud_ai.Scheduler.{
  Dag, DagError, out_of_fuel, missing_key_panic, unknown_task, invalid_transition, new, ids,
  get_task, status_of, with_status, is_waiting, refresh_task, refresh_tasks, refresh, transition,
}
use localoud_ai.Scheduler.Acyclic.{IsPlan, new_iff, new-ne-out_of_fuel}
use localoud_ai.Scheduler.Refresh.{
  AllCompleted, refresh_task-ready_iff, refresh_task_moves, refresh_idempotent,
}
use localoud_ai.Scheduler.Refresh.Blocked.{SomeStopped, refresh_task-blocked_iff}
use localoud_ai.Scheduler.Refresh.Known.{refresh_closed}
use localoud_ai.Scheduler.Execute.Known.{execute-ne-missing_key_panic, new-IsClosed}
use localoud_ai.Scheduler.Execute.Earned.{WasStarted, execute_earned}
use localoud_ai.Scheduler.Moves.{transition-get_task}
use localoud_ai.Scheduler.Execute.{Runner, Run, dispatch, execute}
use localoud_ai.Scheduler.Execute.Bound.{Visited-jobs-le, begin, sent}
use localoud_ai.Scheduler.Execute.Total.{execute-ne-out_of_fuel}
use localoud_ai.Scheduler.Execute.Finish.{IsFinished, execute-IsFinished}
use localoud_ai.Scheduler.Execute.Keep.{ActiveBacked, is_active}
use localoud_ai.Scheduler.Execute.Backed.{IsBacked, execute-IsBacked}

abbrev task : TaskId → List TaskId → Task
task id dependencies = record {
  id = id;
  project_id = 0;
  plan_id = none;
  parent_task_id = none;
  title = "parse";
  description = "parse the file";
  dependencies = dependencies;
  preferred_executor = ExecutorPreference.auto;
  assigned_executor = none;
  risk = RiskLevel.low;
  complexity = Complexity.normal;
  status = pending;
  context_capsule_id = none;
  worktree_id = none;
  attempts = 0;
  max_attempts = 2;
}

abbrev first : Task
first = task 1 []

abbrev second : Task
second = task 2 (1 ∷ [])

abbrev two_tasks : List Task
two_tasks = second ∷ first ∷ []

new_iff_example : (new two_tasks ≡ ok (record { tasks = two_tasks })) ↔ IsPlan two_tasks
new_iff_example = new_iff two_tasks

accepted : new two_tasks ≡ ok (record { tasks = two_tasks })
unfolding new localoud_ai.Scheduler.collect localoud_ai.Scheduler.insert_task
    localoud_ai.Scheduler.check_tasks localoud_ai.Scheduler.bad_dependencies
    localoud_ai.Scheduler.rounds
accepted = refl

new-ne-out_of_fuel_example : new two_tasks ≢ err out_of_fuel
new-ne-out_of_fuel_example = new-ne-out_of_fuel two_tasks

first_refreshed : refresh_task two_tasks first ≡ ok (with_status ready first)
unfolding refresh_task localoud_ai.Scheduler.any_status localoud_ai.Scheduler.all_status
first_refreshed = refl

refresh_task-ready_iff_example :
    (ready ≡ ready) ↔ All (λ d. status_of two_tasks d ≡ ok completed) []
refresh_task-ready_iff_example =
    refresh_task-ready_iff two_tasks first (with_status ready first) first_refreshed refl

refresh_task_moves_example :
    (with_status ready first ≡ first)
    ⊎ ((with_status ready first ≡ with_status ready first) × (can_transition pending ready ≡ true))
refresh_task_moves_example =
    refresh_task_moves two_tasks first (with_status ready first) first_refreshed

abbrev start : Dag
start = record { tasks = two_tasks }

abbrev begun : Dag
begun = record { tasks = second ∷ with_status ready first ∷ [] }

refreshed : refresh start ≡ ok begun
unfolding refresh refresh_tasks refresh_task localoud_ai.Scheduler.any_status
    localoud_ai.Scheduler.all_status
refreshed = refl

refresh_idempotent_example : refresh begun ≡ ok begun
refresh_idempotent_example = refresh_idempotent start begun refreshed

refresh_closed_example : (dag' : Dag) × (refresh start ≡ ok dag')
refresh_closed_example = refresh_closed start (new-IsClosed two_tasks start accepted)

-- The graph after the first task failed.
abbrev broken : List Task
broken = second ∷ with_status failed first ∷ []

second_blocked : refresh_task broken second ≡ ok (with_status blocked second)
unfolding refresh_task localoud_ai.Scheduler.any_status status_of
second_blocked = refl

refresh_task-blocked_iff_example :
    (blocked ≡ blocked)
    ↔ (SomeStopped broken (1 ∷ []) ⊎ ((pending ≡ blocked) × (¬ AllCompleted broken (1 ∷ []))))
refresh_task-blocked_iff_example =
    refresh_task-blocked_iff broken second (with_status blocked second) second_blocked refl

abbrev at_work : Dag
at_work = record { tasks = second ∷ with_status running first ∷ [] }

moved : transition 1 running begun ≡ ok at_work
unfolding transition can_transition localoud_ai.Scheduler.update_task
moved = refl

transition-get_task_example :
    (t : Task) × (get_task 1 begun.tasks ≡ some t)
    × (can_transition t.status running ≡ true)
    × ((j : TaskId)
        → get_task j at_work.tasks
          ≡ (if j == 1 then some (with_status running t) else get_task j begun.tasks))
transition-get_task_example = transition-get_task 1 running begun at_work moved

refused : transition 2 completed begun ≡ err (invalid_transition pending completed)
unfolding transition can_transition
refused = refl

abbrev steady : Runner
steady = record { accepts = λ log t. true; joined = λ log. some (0, true) }

abbrev ended : Result DagError Run → Run
ended (ok run) = run
ended (err e) = record { dag = start; jobs = []; log = [] }

-- Nothing is ready or at work at the start.
start-ActiveBacked : ActiveBacked start.tasks
start-ActiveBacked j t found active =
    let status = two_pending j t found in
    let no_work : is_active pending ≡ true = subst (λ s. is_active s ≡ true) status active in cc
  where
    two_pending : (j : TaskId) (t : Task) → get_task j two_tasks ≡ some t → t.status ≡ pending
    two_pending j t found = ground arith

execute_example : execute steady 2 start ≡ ok (ended (execute steady 2 start))
unfolding execute localoud_ai.Scheduler.Execute.loop localoud_ai.Scheduler.Execute.dispatch refresh
    refresh_tasks refresh_task localoud_ai.Scheduler.any_status localoud_ai.Scheduler.all_status
    status_of localoud_ai.Scheduler.Execute.launch_all localoud_ai.Scheduler.Execute.startable
    localoud_ai.Scheduler.Execute.launch transition can_transition localoud_ai.Scheduler.update_task
    localoud_ai.Scheduler.Execute.count_attempt localoud_ai.Scheduler.Execute.notify
    localoud_ai.Scheduler.Execute.join localoud_ai.Scheduler.Execute.notify_all
    localoud_ai.Scheduler.Execute.pick localoud_ai.Scheduler.Execute.settle
execute_example = refl

execute-IsBacked_example :
    All (IsBacked (ended (execute steady 2 start)).dag.tasks) (ended (execute steady 2 start)).log
execute-IsBacked_example =
    execute-IsBacked steady 2 start (ended (execute steady 2 start)) start-ActiveBacked
      execute_example

all_completed :
    map (λ t. t.status) (ended (execute steady 2 start)).dag.tasks ≡ completed ∷ completed ∷ []
unfolding execute localoud_ai.Scheduler.Execute.loop localoud_ai.Scheduler.Execute.dispatch refresh
    refresh_tasks refresh_task localoud_ai.Scheduler.any_status localoud_ai.Scheduler.all_status
    status_of localoud_ai.Scheduler.Execute.launch_all localoud_ai.Scheduler.Execute.startable
    localoud_ai.Scheduler.Execute.launch transition can_transition localoud_ai.Scheduler.update_task
    localoud_ai.Scheduler.Execute.count_attempt localoud_ai.Scheduler.Execute.notify
    localoud_ai.Scheduler.Execute.join localoud_ai.Scheduler.Execute.notify_all
    localoud_ai.Scheduler.Execute.pick localoud_ai.Scheduler.Execute.settle
all_completed = refl

abbrev opening : Run
opening = record { dag = start; jobs = []; log = [] }

-- The state after the first dispatch, in which the first task is at work.
dispatched : dispatch steady 2 opening ≡ ok (ended (dispatch steady 2 opening))
unfolding dispatch refresh refresh_tasks refresh_task localoud_ai.Scheduler.any_status
    localoud_ai.Scheduler.all_status localoud_ai.Scheduler.Execute.launch_all
    localoud_ai.Scheduler.Execute.startable localoud_ai.Scheduler.Execute.launch transition
    can_transition localoud_ai.Scheduler.update_task localoud_ai.Scheduler.Execute.count_attempt
    localoud_ai.Scheduler.Execute.notify
dispatched = refl

Visited-jobs-le_example : length (ended (dispatch steady 2 opening)).jobs ≤ 2
Visited-jobs-le_example =
    Visited-jobs-le steady 2 start (ended (dispatch steady 2 opening)) (sent begin dispatched)

execute-ne-out_of_fuel_example : execute steady 2 start ≢ err out_of_fuel
execute-ne-out_of_fuel_example = execute-ne-out_of_fuel steady 2 start

execute-IsFinished_example : IsFinished (ended (execute steady 2 start))
execute-IsFinished_example =
    execute-IsFinished steady 2 start (ended (execute steady 2 start)) execute_example

execute-ne-missing_key_panic_example : execute steady 2 start ≢ err missing_key_panic
execute-ne-missing_key_panic_example =
    execute-ne-missing_key_panic steady 2 start (new-IsClosed two_tasks start accepted)

second_completed : status_of (ended (execute steady 2 start)).dag.tasks 2 ≡ ok completed
unfolding execute localoud_ai.Scheduler.Execute.loop localoud_ai.Scheduler.Execute.dispatch refresh
    refresh_tasks refresh_task localoud_ai.Scheduler.any_status localoud_ai.Scheduler.all_status
    status_of localoud_ai.Scheduler.Execute.launch_all localoud_ai.Scheduler.Execute.startable
    localoud_ai.Scheduler.Execute.launch transition can_transition localoud_ai.Scheduler.update_task
    localoud_ai.Scheduler.Execute.count_attempt localoud_ai.Scheduler.Execute.notify
    localoud_ai.Scheduler.Execute.join localoud_ai.Scheduler.Execute.notify_all
    localoud_ai.Scheduler.Execute.pick localoud_ai.Scheduler.Execute.settle
second_completed = refl

execute_earned_example :
    (status_of start.tasks 2 ≡ ok completed) ⊎ WasStarted (ended (execute steady 2 start)).log 2
execute_earned_example =
    execute_earned steady 2 start (ended (execute steady 2 start)) 2 execute_example
      second_completed
