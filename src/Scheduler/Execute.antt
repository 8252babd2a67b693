-- ===== src/Scheduler/Execute.antt =====
-- `execute`: the loop that starts ready tasks on a runner, up to a bound on those at work, and
-- waits for one of them to finish. The runner (`TaskRunner`) and the task set of tokio are
-- parameters: whether a notification fails, and which of the jobs at work finishes next and how.
-- Both may depend on all that happened before. A runner that never ends a job is outside the model. What the loop tells the runner is kept in a log.
pub mod Keep
pub mod Backed
pub mod Bound
pub mod Ends
pub mod Total
pub mod Known
pub mod Earned
pub mod Finish
use localoud_ai.Base.{
  ℕ, zero, suc, ◌+◌, ◌-◌, ◌%◌, ◌^◌, Bool, not, ◌||◌, List, [], ◌∷◌, ◌++◌, Option, none, some, ltb,
  ◌==◌, nat_eq, if◌then◌else◌, Result, ok, err, ◌>>=◌, ◌>>◌, bail_if, ok_or, length, take, keep,
}
use localoud_ai.Core.{TaskId, Task, TaskStatus, running, reviewing, completed, failed, is_ready}
use localoud_ai.Scheduler.{
  Dag, DagError, bad_concurrency, lost_job, runner_failed, missing_key_panic, out_of_fuel, ids,
  get_task, update_task, refresh, transition,
}

pub data Event : Type 0 where
  -- `runner.changed(&task)`
  changed : Task → Event
  -- `runner.run(task)`, spawned
  started : Task → Event

pub record Runner : Type 0 where
  -- whether `changed` succeeds
  pub accepts : List Event → Task → Bool
  -- the job at work that finishes next, by its place, and whether it succeeded; `none` for a job
  -- that panicked. Some job always finishes.
  pub joined : List Event → Option (ℕ × Bool)

-- The locals of `execute`.
pub record Run : Type 0 where
  pub dag : Dag
  pub jobs : List TaskId
  pub log : List Event

-- `task.attempts += 1` on a `u32`.
unfoldable pub count_attempt : Task → Task
count_attempt t = record t { attempts = (t.attempts + 1) % 2 ^ 32 }

-- `runner.changed(&dag.tasks[&id]).await?`
unfoldable pub notify : Runner → TaskId → Run → Result DagError Run
notify runner id run = do
  task ← ok_or (get_task id run.dag.tasks) missing_key_panic
  bail_if (not (runner.accepts run.log task)) runner_failed
  ok (record run { log = run.log ++ changed task ∷ [] })

abbrev pub set_dag : Run → Dag → Run
set_dag run dag = record run { dag = dag }

abbrev pub spawn : TaskId → Task → Run → Run
spawn id task run = record run { jobs = run.jobs ++ id ∷ []; log = run.log ++ started task ∷ [] }

-- The body of `for id in ready`.
unfoldable pub launch : Runner → TaskId → Run → Result DagError Run
launch runner id run = do
  dag ← transition id running run.dag
  let counted = record dag { tasks = update_task id count_attempt dag.tasks }
  task ← ok_or (get_task id counted.tasks) missing_key_panic
  noted ← notify runner id (set_dag run counted)
  ok (spawn id task noted)

unfoldable pub launch_all : Runner → List TaskId → Run → Result DagError Run
launch_all runner [] run = ok run
launch_all runner (id ∷ rest) run = launch runner id run >>= λ run'. launch_all runner rest run'

-- The tasks that a round may start.
unfoldable pub startable : ℕ → Run → List TaskId
startable concurrency run =
    take (concurrency - length run.jobs) (ids (keep (λ t. is_ready t.status) run.dag.tasks))

unfoldable pub dispatch : Runner → ℕ → Run → Result DagError Run
dispatch runner concurrency run = do
  dag ← refresh run.dag
  launch_all runner (startable concurrency (set_dag run dag)) (set_dag run dag)

-- Takes one job out of a set that is not empty.
unfoldable pub pick : ℕ → TaskId → List TaskId → TaskId × List TaskId
pick zero j js = (j, js)
pick (suc n) j [] = (j, [])
pick (suc n) j (k ∷ ks) = let (id, rest) = pick n k ks in (id, j ∷ rest)

-- What `join_next` reports, put into the graph.
unfoldable pub settle : Runner → TaskId → Bool → Run → Result DagError Run
settle runner id succeeded run =
    let passed = (do
      dag ← transition id reviewing run.dag
      noted ← notify runner id (set_dag run dag)
      dag' ← transition id completed noted.dag
      notify runner id (set_dag noted dag')) in
    let failing = (do dag ← transition id failed run.dag; notify runner id (set_dag run dag)) in
    if succeeded then passed else failing

unfoldable pub join : Runner → TaskId → List TaskId → Run → Result DagError Run
join runner j js run = elim (runner.joined run.log) [
  | none ↦ err lost_job
  | some (place, succeeded) ↦
      let (id, rest) = pick place j js in settle runner id succeeded (record run { jobs = rest })
]

-- The last loop, `for task in dag.tasks.values()`.
unfoldable pub notify_all : Runner → List TaskId → Run → Result DagError Run
notify_all runner [] run = ok run
notify_all runner (id ∷ rest) run = notify runner id run >>= λ run'. notify_all runner rest run'

unfoldable pub loop : Runner → ℕ → ℕ → Run → Result DagError Run
loop runner concurrency zero run = err out_of_fuel
loop runner concurrency (suc fuel) run = do
  run' ← dispatch runner concurrency run
  elim run'.jobs [
    | [] ↦ notify_all runner (ids run'.dag.tasks) run'
    | j ∷ js ↦ join runner j js run' >>= λ next. loop runner concurrency fuel next
  ]

-- `execute`. A round that goes on ends a task, so one round more than there are tasks is enough.
unfoldable pub execute : Runner → ℕ → Dag → Result DagError Run
execute runner concurrency dag = do
  bail_if (concurrency == 0 || ltb 8 concurrency) bad_concurrency
  loop runner concurrency (suc (length dag.tasks)) (record { dag = dag; jobs = []; log = [] })
