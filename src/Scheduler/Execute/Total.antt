-- ===== src/Scheduler/Execute/Total.antt =====
-- The loop of `execute` (crates/hub-scheduler/src/lib.rs) and its bound on the rounds.
use localoud_ai.Base.{
  Never, >>=-Never, >>-Never, bail_if-Never, ◌≡◌, ◌≢◌, ℕ, zero, suc, ◌+◌, ◌≤◌, ◌<◌, List, [], ◌∷◌,
  not, Option, none, some, Option-cases, Bool, length, true, false, Result, ok, err, ◌>>=◌, ok_or,
  bail_if, arith, inl, inr, ◌||◌, ◌==◌, nat_eq, ltb, Bool-cases, if◌then◌else◌,
}
use localoud_ai.Core.{TaskId, Task, TaskStatus, running, reviewing, completed, failed, is_completed}
use localoud_ai.Scheduler.{
  Dag, DagError, out_of_fuel, missing_key_panic, runner_failed, bad_concurrency, get_task,
  update_task, transition, refresh, refresh_task, refresh_tasks, any_status, all_status, status_of,
  ids, is_stopped,
}
use localoud_ai.Scheduler.Execute.{
  Runner, Run, count_attempt, notify, launch, launch_all, dispatch, startable, pick, settle, join,
  notify_all, loop, execute, set_dag,
}
use localoud_ai.Scheduler.Execute.Ends.{left, unfinished, dispatch-left, join-left}

-- A result that the code gives.
abbrev IsAnswer : {A : Type 0} → Result DagError A → Type 0
IsAnswer r = Never out_of_fuel r

transition-IsAnswer :
    (id : TaskId) (next : TaskStatus) (dag : Dag) → IsAnswer (transition id next dag)
unfolding transition
transition-IsAnswer id next dag = λ h. ground arith

status_of-IsAnswer : (tasks : List Task) (d : TaskId) → IsAnswer (status_of tasks d)
unfolding status_of
status_of-IsAnswer tasks d = λ h. ground arith

any_status-IsAnswer :
    (p : TaskStatus → Bool) (tasks : List Task) (ds : List TaskId)
    → IsAnswer (any_status p tasks ds)
unfolding any_status
any_status-IsAnswer p tasks [] = λ h. cc
any_status-IsAnswer p tasks (d ∷ ds) =
    >>=-Never (status_of tasks d) (λ s. if p s then ok true else any_status p tasks ds)
      (status_of-IsAnswer tasks d)
      (λ s e. elim (Bool-cases (p s)) [
        | inl passes ↦ rw passes (λ h. cc)
        | inr fails ↦ rw fails (any_status-IsAnswer p tasks ds)
      ])

all_status-IsAnswer :
    (p : TaskStatus → Bool) (tasks : List Task) (ds : List TaskId)
    → IsAnswer (all_status p tasks ds)
unfolding all_status
all_status-IsAnswer p tasks [] = λ h. cc
all_status-IsAnswer p tasks (d ∷ ds) =
    >>=-Never (status_of tasks d) (λ s. if p s then all_status p tasks ds else ok false)
      (status_of-IsAnswer tasks d)
      (λ s e. elim (Bool-cases (p s)) [
        | inl passes ↦ rw passes (all_status-IsAnswer p tasks ds)
        | inr fails ↦ rw fails (λ h. cc)
      ])

refresh_task-IsAnswer : (tasks : List Task) (t : Task) → IsAnswer (refresh_task tasks t)
unfolding refresh_task
refresh_task-IsAnswer tasks t = λ h. ground (
  arith,
  any_status-IsAnswer is_stopped tasks t.dependencies,
  all_status-IsAnswer is_completed tasks t.dependencies,
)

refresh_tasks-IsAnswer : (snapshot ts : List Task) → IsAnswer (refresh_tasks snapshot ts)
unfolding refresh_tasks
refresh_tasks-IsAnswer snapshot [] = λ h. cc
refresh_tasks-IsAnswer snapshot (t ∷ ts) =
    >>=-Never (refresh_task snapshot t) _ (refresh_task-IsAnswer snapshot t) (λ u e.
      >>=-Never (refresh_tasks snapshot ts) _ (refresh_tasks-IsAnswer snapshot ts) (λ us q h. cc))

refresh-IsAnswer : (dag : Dag) → IsAnswer (refresh dag)
unfolding refresh
refresh-IsAnswer dag =
    >>=-Never (refresh_tasks dag.tasks dag.tasks) _ (refresh_tasks-IsAnswer dag.tasks dag.tasks)
      (λ us e h. cc)

get-IsAnswer : (o : Option Task) → IsAnswer (ok_or o missing_key_panic)
get-IsAnswer none = λ h. cc
get-IsAnswer (some t) = λ h. cc

notify-IsAnswer : (runner : Runner) (id : TaskId) (run : Run) → IsAnswer (notify runner id run)
unfolding notify
notify-IsAnswer runner id run =
    >>=-Never (ok_or (get_task id run.dag.tasks) missing_key_panic) _
      (get-IsAnswer (get_task id run.dag.tasks))
      (λ t e.
        >>-Never (bail_if (not (runner.accepts run.log t)) runner_failed) _
          (bail_if-Never (not (runner.accepts run.log t)) runner_failed out_of_fuel (λ h. cc))
          (λ h. cc))

launch-IsAnswer : (runner : Runner) (id : TaskId) (run : Run) → IsAnswer (launch runner id run)
unfolding launch
launch-IsAnswer runner id run =
    >>=-Never (transition id running run.dag) _ (transition-IsAnswer id running run.dag) (λ dag e.
      let counted : Dag = record dag { tasks = update_task id count_attempt dag.tasks } in
      >>=-Never (ok_or (get_task id counted.tasks) missing_key_panic) _
        (get-IsAnswer (get_task id counted.tasks))
        (λ t q.
          >>=-Never (notify runner id (set_dag run counted)) _
            (notify-IsAnswer runner id (set_dag run counted)) (λ noted r h. cc)))

launch_all-IsAnswer :
    (runner : Runner) (l : List TaskId) (run : Run) → IsAnswer (launch_all runner l run)
unfolding launch_all
launch_all-IsAnswer runner [] run = λ h. cc
launch_all-IsAnswer runner (id ∷ l) run =
    >>=-Never (launch runner id run) _ (launch-IsAnswer runner id run)
      (λ next e. launch_all-IsAnswer runner l next)

dispatch-IsAnswer :
    (runner : Runner) (concurrency : ℕ) (run : Run) → IsAnswer (dispatch runner concurrency run)
unfolding dispatch
dispatch-IsAnswer runner concurrency run =
    >>=-Never (refresh run.dag) _ (refresh-IsAnswer run.dag) (λ dag e.
      launch_all-IsAnswer runner (startable concurrency (set_dag run dag)) (set_dag run dag))

settle-IsAnswer :
    (runner : Runner) (id : TaskId) (succeeded : Bool) (run : Run)
    → IsAnswer (settle runner id succeeded run)
unfolding settle
settle-IsAnswer runner id true run =
    >>=-Never (transition id reviewing run.dag) _ (transition-IsAnswer id reviewing run.dag)
      (λ dag e.
        >>=-Never (notify runner id (set_dag run dag)) _
          (notify-IsAnswer runner id (set_dag run dag))
          (λ noted q.
            >>=-Never (transition id completed noted.dag) _
              (transition-IsAnswer id completed noted.dag)
              (λ dag' r. notify-IsAnswer runner id (set_dag noted dag'))))
settle-IsAnswer runner id false run =
    >>=-Never (transition id failed run.dag) _ (transition-IsAnswer id failed run.dag)
      (λ dag e. notify-IsAnswer runner id (set_dag run dag))

join-IsAnswer :
    (runner : Runner) (j : TaskId) (js : List TaskId) (run : Run) → IsAnswer (join runner j js run)
unfolding join
join-IsAnswer runner j js run = elim (Option-cases (runner.joined run.log)) [
  | inl lost ↦ rw (lost, join) (λ h. cc)
  | inr ((place, succeeded), joined) ↦
      rw (joined, join)
        (settle-IsAnswer runner (pick place j js).0 succeeded
          (record run { jobs = (pick place j js).1 }))
]

notify_all-IsAnswer :
    (runner : Runner) (l : List TaskId) (run : Run) → IsAnswer (notify_all runner l run)
unfolding notify_all
notify_all-IsAnswer runner [] run = λ h. cc
notify_all-IsAnswer runner (id ∷ l) run =
    >>=-Never (notify runner id run) _ (notify-IsAnswer runner id run)
      (λ next e. notify_all-IsAnswer runner l next)

-- What follows a dispatch, if the rest of the loop gives an answer.
after-IsAnswer :
    (runner : Runner) (next_rounds : Run → Result DagError Run) (run : Run) (jobs : List TaskId)
    → ((next : Run) → left next + 1 ≡ left run → IsAnswer (next_rounds next))
    → IsAnswer (elim jobs [
      | [] ↦ notify_all runner (ids run.dag.tasks) run
      | j ∷ js ↦ join runner j js run >>= λ next. next_rounds next
    ])
after-IsAnswer runner next_rounds run [] rest = notify_all-IsAnswer runner (ids run.dag.tasks) run
after-IsAnswer runner next_rounds run (j ∷ js) rest =
    >>=-Never (join runner j js run) next_rounds (join-IsAnswer runner j js run)
      (λ next q. rest next (join-left runner j js run next q))

loop-IsAnswer :
    (runner : Runner) (concurrency fuel : ℕ) (run : Run)
    → left run < fuel
    → IsAnswer (loop runner concurrency fuel run)
unfolding loop
loop-IsAnswer runner concurrency zero run enough = absurd (omega (arith, enough))
loop-IsAnswer runner concurrency (suc fuel) run enough =
    >>=-Never (dispatch runner concurrency run) _ (dispatch-IsAnswer runner concurrency run)
      (λ run' e.
        let same = dispatch-left runner concurrency run run' e in
        after-IsAnswer runner (loop runner concurrency fuel) run' run'.jobs (λ next fewer.
          loop-IsAnswer runner concurrency fuel next (omega (arith, fewer, same, enough))))

unfinished-le-length : (tasks : List Task) → unfinished tasks ≤ length tasks
unfolding unfinished
unfinished-le-length [] = omega arith
unfinished-le-length (t ∷ ts) = ground (arith, unfinished-le-length ts)

-- For every runner whose jobs end, in whatever order they finish, `execute` ends with an answer of
-- the code, a graph or one of its errors: its loop ends by itself.
pub execute-ne-out_of_fuel :
    (runner : Runner) (concurrency : ℕ) (dag : Dag)
    → execute runner concurrency dag ≢ err out_of_fuel
unfolding execute
execute-ne-out_of_fuel runner concurrency dag =
    >>-Never (bail_if (concurrency == 0 || ltb 8 concurrency) bad_concurrency)
      (loop runner concurrency (suc (length dag.tasks)) (record { dag = dag; jobs = []; log = [] }))
      (bail_if-Never (concurrency == 0 || ltb 8 concurrency) bad_concurrency out_of_fuel (λ h. cc))
      (loop-IsAnswer runner concurrency (suc (length dag.tasks))
        (record { dag = dag; jobs = []; log = [] }) (omega (arith, unfinished-le-length dag.tasks)))
