-- ===== src/Scheduler/Execute/Known.antt =====
-- `execute` (crates/hub-scheduler/src/lib.rs) and its lookups of tasks, where every dependency names a
-- task of the graph.
mod Closed
use Closed.{dispatch-IsClosed, join-IsClosed}
use localoud_ai.Base.{
  ◌≡◌, ◌≢◌, refl, sym, subst, ap, ℕ, zero, suc, List, [], ◌∷◌, not, some, Option, Option-cases,
  Bool, true, false, length, Result, ok, err, ◌>>=◌, ◌>>◌, ok_or, bail_if, arith, inl, inr, ◌||◌,
  ◌==◌, nat_eq, ==_refl, ltb, >>=-eq-ok, >>-eq-ok, ok_injective, Never, >>=-Never, >>-Never,
  bail_if-Never, All, All_map, All_of, All_at, In, In-map, if◌then◌else◌,
}
use localoud_ai.Core.{TaskId, Task, TaskStatus, running, reviewing, completed, failed}
use localoud_ai.Scheduler.{
  Dag, DagError, missing_key_panic, runner_failed, bad_concurrency, get_task, update_task,
  transition, with_status, refresh, ids, new,
}
use localoud_ai.Scheduler.Build.{new-IsBuilt}
use localoud_ai.Scheduler.Moves.{transition-get_task, get_task-update_task}
use localoud_ai.Scheduler.Refresh.Known.{
  IsClosed, get_task-known, IsClosed-SameLinks, update_task-SameLinks, refresh-IsClosed,
  refresh_closed,
}
use localoud_ai.Scheduler.Execute.{
  Runner, Run, count_attempt, notify, launch, launch_all, dispatch, startable, pick, settle, join,
  notify_all, loop, execute, set_dag,
}
use localoud_ai.Scheduler.Execute.Backed.{notify-dag}

-- A result without a lookup of a key that is not there.
abbrev IsCalm : {A : Type 0} → Result DagError A → Type 0
IsCalm r = Never missing_key_panic r

abbrev IsThere : TaskId → Dag → Type 0
IsThere id dag = (t : Task) × (get_task id dag.tasks ≡ some t)

transition-IsCalm : (id : TaskId) (next : TaskStatus) (dag : Dag) → IsCalm (transition id next dag)
unfolding transition
transition-IsCalm id next dag = λ h. ground arith

transition-IsThere :
    (id : TaskId) (next : TaskStatus) (dag dag' : Dag)
    → transition id next dag ≡ ok dag'
    → IsThere id dag'
transition-IsThere id next dag dag' h =
    let (t, found, allowed, after) = transition-get_task id next dag dag' h in
    (
      with_status next t,
      subst
          (λ b.
            get_task id dag'.tasks
            ≡ (if b then some (with_status next t) else get_task id dag.tasks))
          (==_refl id) (after id),
    )

notify-IsCalm :
    (runner : Runner) (id : TaskId) (run : Run) → IsThere id run.dag → IsCalm (notify runner id run)
unfolding notify
notify-IsCalm runner id run (t, found) = rw found (
    >>-Never (bail_if (not (runner.accepts run.log t)) runner_failed) _
      (bail_if-Never (not (runner.accepts run.log t)) runner_failed missing_key_panic (λ h. cc))
      (λ h. cc))

counted-IsThere :
    (id : TaskId) (tasks : List Task) (t : Task)
    → get_task id tasks ≡ some t
    → get_task id (update_task id count_attempt tasks) ≡ some (count_attempt t)
unfolding count_attempt
counted-IsThere id tasks t found =
    let after = get_task-update_task id id count_attempt tasks (λ u. refl) in
    ground (arith, ==_refl id)

launch-IsCalm : (runner : Runner) (id : TaskId) (run : Run) → IsCalm (launch runner id run)
unfolding launch
launch-IsCalm runner id run =
    >>=-Never (transition id running run.dag) _ (transition-IsCalm id running run.dag) (λ dag e.
      let counted : Dag = record dag { tasks = update_task id count_attempt dag.tasks } in
      let (t, found) = transition-IsThere id running run.dag dag e in
      let here = counted-IsThere id dag.tasks t found in
      rw here (
        >>=-Never (notify runner id (set_dag run counted)) _
          (notify-IsCalm runner id (set_dag run counted) (count_attempt t, here))
          (λ noted r h. cc)))

launch_all-IsCalm :
    (runner : Runner) (l : List TaskId) (run : Run) → IsCalm (launch_all runner l run)
unfolding launch_all
launch_all-IsCalm runner [] run = λ h. cc
launch_all-IsCalm runner (id ∷ l) run =
    >>=-Never (launch runner id run) _ (launch-IsCalm runner id run)
      (λ next e. launch_all-IsCalm runner l next)

dispatch-IsCalm :
    (runner : Runner) (concurrency : ℕ) (run : Run)
    → IsClosed run.dag.tasks
    → IsCalm (dispatch runner concurrency run)
unfolding dispatch
dispatch-IsCalm runner concurrency run closed =
    let (dag, e) = refresh_closed run.dag closed in
    rw e (launch_all-IsCalm runner (startable concurrency (set_dag run dag)) (set_dag run dag))

settle-IsCalm :
    (runner : Runner) (id : TaskId) (succeeded : Bool) (run : Run)
    → IsCalm (settle runner id succeeded run)
unfolding settle
settle-IsCalm runner id true run =
    >>=-Never (transition id reviewing run.dag) _ (transition-IsCalm id reviewing run.dag) (λ dag e.
      >>=-Never (notify runner id (set_dag run dag)) _
        (notify-IsCalm runner id (set_dag run dag) (transition-IsThere id reviewing run.dag dag e))
        (λ noted q.
          >>=-Never (transition id completed noted.dag) _ (transition-IsCalm id completed noted.dag)
            (λ dag' r.
              notify-IsCalm runner id (set_dag noted dag')
                (transition-IsThere id completed noted.dag dag' r))))
settle-IsCalm runner id false run =
    >>=-Never (transition id failed run.dag) _ (transition-IsCalm id failed run.dag) (λ dag e.
      notify-IsCalm runner id (set_dag run dag) (transition-IsThere id failed run.dag dag e))

join-IsCalm :
    (runner : Runner) (j : TaskId) (js : List TaskId) (run : Run) → IsCalm (join runner j js run)
unfolding join
join-IsCalm runner j js run = elim (Option-cases (runner.joined run.log)) [
  | inl lost ↦ rw (lost, join) (λ h. cc)
  | inr ((place, succeeded), joined) ↦
      rw (joined, join)
        (settle-IsCalm runner (pick place j js).0 succeeded
          (record run { jobs = (pick place j js).1 }))
]

notify_all-IsCalm :
    (runner : Runner) (l : List TaskId) (run : Run)
    → All (λ id. IsThere id run.dag) l
    → IsCalm (notify_all runner l run)
unfolding notify_all
notify_all-IsCalm runner [] run there = λ h. cc
notify_all-IsCalm runner (id ∷ l) run (here, there) =
    >>=-Never (notify runner id run) _ (notify-IsCalm runner id run here) (λ next e.
      let same = sym (notify-dag runner id run next e) in
      notify_all-IsCalm runner l next (subst (λ (d : Dag). All (λ id. IsThere id d) l) same there))

-- What follows a dispatch, if the rest of the loop is calm.
after-IsCalm :
    (runner : Runner) (next_rounds : Run → Result DagError Run) (run : Run) (jobs : List TaskId)
    → IsClosed run.dag.tasks
    → ((next : Run) → IsClosed next.dag.tasks → IsCalm (next_rounds next))
    → IsCalm (elim jobs [
      | [] ↦ notify_all runner (ids run.dag.tasks) run
      | j ∷ js ↦ join runner j js run >>= λ next. next_rounds next
    ])
after-IsCalm runner next_rounds run [] closed rest =
    notify_all-IsCalm runner (ids run.dag.tasks) run (
      All_of (λ id. IsThere id run.dag) (ids run.dag.tasks)
        (λ id m. get_task-known id run.dag.tasks m))
after-IsCalm runner next_rounds run (j ∷ js) closed rest =
    >>=-Never (join runner j js run) next_rounds (join-IsCalm runner j js run)
      (λ next q. rest next (join-IsClosed runner j js run next q closed))

loop-IsCalm :
    (runner : Runner) (concurrency fuel : ℕ) (run : Run)
    → IsClosed run.dag.tasks
    → IsCalm (loop runner concurrency fuel run)
unfolding loop
loop-IsCalm runner concurrency zero run closed = λ h. cc
loop-IsCalm runner concurrency (suc fuel) run closed =
    >>=-Never (dispatch runner concurrency run) _ (dispatch-IsCalm runner concurrency run closed)
      (λ run' e.
        after-IsCalm runner (loop runner concurrency fuel) run' run'.jobs
          (dispatch-IsClosed runner concurrency run run' e closed)
          (λ next q. loop-IsCalm runner concurrency fuel next q))

-- Where every dependency names a task of the graph, whatever the statuses of the tasks are, `execute`
-- never panics on a key that is not there, for every runner whose jobs end.
pub execute-ne-missing_key_panic :
    (runner : Runner) (concurrency : ℕ) (dag : Dag)
    → IsClosed dag.tasks
    → execute runner concurrency dag ≢ err missing_key_panic
unfolding execute
execute-ne-missing_key_panic runner concurrency dag closed =
    >>-Never (bail_if (concurrency == 0 || ltb 8 concurrency) bad_concurrency) _
      (bail_if-Never (concurrency == 0 || ltb 8 concurrency) bad_concurrency missing_key_panic
        (λ h. cc))
      (loop-IsCalm runner concurrency (suc (length dag.tasks))
        (record { dag = dag; jobs = []; log = [] }) closed)

-- Every graph that `Dag::new` builds is one where every dependency names a task.
pub new-IsClosed : (given : List Task) (dag : Dag) → new given ≡ ok dag → IsClosed dag.tasks
new-IsClosed given dag h =
    let built = new-IsBuilt given dag h in
    rw built.same (All_map given (λ t (_, sound). sound.planned) built.planned)
