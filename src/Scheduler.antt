-- ===== src/Scheduler.antt =====
-- crates/hub-scheduler/src/lib.rs: the dependency graph of a plan's tasks and its execution.
-- A `HashMap` of tasks is a list with one entry for each identifier, the identifier of a task being
-- its key, as `Dag::new` builds it. The order of the list is the iteration order of the map, of
-- which nothing is assumed; a `HashSet` is a list read through `contains`.
pub mod Build
pub mod Acyclic
pub mod Refresh
pub mod Moves
pub mod Execute
mod Tests
use localoud_ai.Base.{
  ℕ, zero, suc, ◌+◌, ◌≡◌, Bool, true, false, not, ◌&&◌, ◌||◌, List, [], ◌∷◌, ◌++◌, map, Option,
  none, some, ltb, ◌==◌, nat_eq, if◌then◌else◌, Result, ok, err, ◌>>=◌, ◌>>◌, bail_if, length, all,
  any, keep, find, is_empty, contains,
}
use localoud_ai.Core.{
  ProjectId, TaskId, Task, TaskStatus, pending, blocked, ready, completed, failed, cancelled,
  can_transition, is_completed,
}

pub data DagError : Type 0 where
  no_tasks duplicate_task crosses_projects invalid_dependency dependency_cycle : DagError
  unknown_task bad_concurrency lost_job runner_failed : DagError
  invalid_transition : TaskStatus → TaskStatus → DagError
  -- `statuses[d]` on a missing key
  missing_key_panic : DagError
  -- not in the code: the bound on a loop of the model was too small
  out_of_fuel : DagError

pub record Dag : Type 0 where
  pub tasks : List Task

-- `HashMap::insert` keyed by the task's identifier.
unfoldable pub insert_task : Task → List Task → List Task
insert_task t [] = t ∷ []
insert_task t (x ∷ xs) = if x.id == t.id then t ∷ xs else x ∷ insert_task t xs

-- `into_iter().map(|t| (t.id, t)).collect()`
unfoldable pub collect : List Task → List Task → List Task
collect acc [] = acc
collect acc (t ∷ ts) = collect (insert_task t acc) ts

abbrev pub ids : List Task → List TaskId
ids tasks = map (λ t. t.id) tasks

-- The test that makes a dependency invalid, over the dependencies of one task and those seen.
unfoldable pub bad_dependencies : TaskId → List TaskId → List TaskId → List TaskId → Bool
bad_dependencies self known seen [] = false
bad_dependencies self known seen (d ∷ ds) =
    d == self
    || not (contains known d)
    || contains seen d
    || bad_dependencies self known (d ∷ seen) ds

unfoldable pub check_tasks : ProjectId → List TaskId → List Task → Result DagError (Unit {0})
check_tasks project known [] = ok tt
check_tasks project known (t ∷ ts) = do
  bail_if (not (t.project_id == project)) crosses_projects
  bail_if (bad_dependencies t.id known [] t.dependencies) invalid_dependency
  check_tasks project known ts

-- A task that the next round completes.
abbrev pub enabled : List TaskId → Task → Bool
enabled done t = not (contains done t.id) && all (contains done) t.dependencies

-- The loop `while completed.len() < count`.
unfoldable pub rounds : ℕ → List Task → ℕ → List TaskId → Result DagError (Unit {0})
rounds count tasks zero done = err out_of_fuel
rounds count tasks (suc fuel) done =
    let next = ids (keep (enabled done) tasks) in
    let rest = rounds count tasks fuel (done ++ next) in
    if ltb (length done) count
    then (if is_empty next then err dependency_cycle else rest)
    else ok tt

-- `Dag::new`. A round that does not fail completes a task, so one round more than there are tasks
-- is enough fuel.
unfoldable pub new : List Task → Result DagError Dag
new [] = err no_tasks
new (t ∷ ts) =
    let count = length (t ∷ ts) in
    let tasks = collect [] (t ∷ ts) in
    do
      bail_if (not (length tasks == count)) duplicate_task
      check_tasks t.project_id (ids tasks) tasks
      rounds count tasks (suc count) []
      ok (record { tasks = tasks })

abbrev pub is_stopped : TaskStatus → Bool
is_stopped failed = true
is_stopped cancelled = true
is_stopped _ = false

abbrev pub is_waiting : TaskStatus → Bool
is_waiting pending = true
is_waiting blocked = true
is_waiting _ = false

-- `self.tasks.get(&id)`
abbrev pub get_task : TaskId → List Task → Option Task
get_task id tasks = find (λ t. t.id == id) tasks

-- `statuses[d]`, the snapshot of the statuses being the tasks before the loop changes them.
unfoldable pub status_of : List Task → TaskId → Result DagError TaskStatus
status_of tasks d = elim (get_task d tasks) [ none ↦ err missing_key_panic | some t ↦ ok t.status ]

-- `deps.iter().any(|d| p(statuses[d]))` and `all`, which stop at the first answer.
unfoldable pub any_status : (TaskStatus → Bool) → List Task → List TaskId → Result DagError Bool
unfolding status_of
any_status p tasks [] = ok false
any_status p tasks (d ∷ ds) =
    let rest = any_status p tasks ds in status_of tasks d >>= λ s. if p s then ok true else rest

unfoldable pub all_status : (TaskStatus → Bool) → List Task → List TaskId → Result DagError Bool
unfolding status_of
all_status p tasks [] = ok true
all_status p tasks (d ∷ ds) =
    let rest = all_status p tasks ds in status_of tasks d >>= λ s. if p s then rest else ok false

abbrev pub with_status : TaskStatus → Task → Task
with_status s t = record t { status = s }

-- The body of the loop of `refresh`.
unfoldable pub refresh_task : List Task → Task → Result DagError Task
refresh_task tasks t =
    if is_waiting t.status
    then (any_status is_stopped tasks t.dependencies >>= λ stopped.
        if stopped
        then ok (with_status blocked t)
        else (all_status is_completed tasks t.dependencies >>= λ finished.
            ok (if finished then with_status ready t else t)))
    else ok t

unfoldable pub refresh_tasks : List Task → List Task → Result DagError (List Task)
refresh_tasks snapshot [] = ok []
refresh_tasks snapshot (t ∷ ts) = do
  t' ← refresh_task snapshot t
  ts' ← refresh_tasks snapshot ts
  ok (t' ∷ ts')

-- `Dag::refresh`
unfoldable pub refresh : Dag → Result DagError Dag
refresh dag = do tasks ← refresh_tasks dag.tasks dag.tasks; ok (record { tasks = tasks })

-- A write through `get_mut(&id)`.
unfoldable pub update_task : TaskId → (Task → Task) → List Task → List Task
update_task id f [] = []
update_task id f (t ∷ ts) = if t.id == id then f t ∷ ts else t ∷ update_task id f ts

-- `Dag::transition`
unfoldable pub transition : TaskId → TaskStatus → Dag → Result DagError Dag
transition id next dag = elim (get_task id dag.tasks) [
  | none ↦ err unknown_task
  | some task ↦
      if can_transition task.status next
      then ok (record { tasks = update_task id (with_status next) dag.tasks })
      else err (invalid_transition task.status next)
]
