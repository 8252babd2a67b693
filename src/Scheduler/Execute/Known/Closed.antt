-- ===== src/Scheduler/Execute/Known/Closed.antt =====
-- The dependencies of the graph after each step of `execute` (crates/hub-scheduler/src/lib.rs).
use localoud_ai.Base.{
  ◌≡◌, refl, sym, subst, ℕ, List, [], ◌∷◌, Option-cases, Bool, true, false, ok, ok_or, arith, inl,
  inr, nat_eq, >>=-eq-ok, ok_injective,
}
use localoud_ai.Core.{TaskId, TaskStatus, running, reviewing, completed, failed}
use localoud_ai.Scheduler.{
  Dag, missing_key_panic, get_task, update_task, transition, with_status, refresh,
}
use localoud_ai.Scheduler.Refresh.Known.{
  IsClosed, IsClosed-SameLinks, update_task-SameLinks, refresh-IsClosed,
}
use localoud_ai.Scheduler.Execute.{
  Runner, Run, count_attempt, notify, launch, launch_all, dispatch, startable, pick, settle, join,
  set_dag,
}
use localoud_ai.Scheduler.Execute.Backed.{notify-dag}

transition-IsClosed :
    (id : TaskId) (next : TaskStatus) (dag dag' : Dag)
    → transition id next dag ≡ ok dag'
    → IsClosed dag.tasks
    → IsClosed dag'.tasks
unfolding transition
transition-IsClosed id next dag dag' h closed = elim (Option-cases (get_task id dag.tasks)) [
  | inl missing ↦ cc (rw (missing, transition) at h)
  | inr (t, found) ↦
      let h' = rw (found, transition) at h in
      let moved : dag' ≡ record { tasks = update_task id (with_status next) dag.tasks } =
        ground arith in
      rw moved (
        IsClosed-SameLinks dag.tasks (update_task id (with_status next) dag.tasks)
          (update_task-SameLinks id (with_status next) dag.tasks (λ u. refl) (λ u. refl)) closed)
]

launch-IsClosed :
    (runner : Runner) (id : TaskId) (run run' : Run)
    → launch runner id run ≡ ok run'
    → IsClosed run.dag.tasks
    → IsClosed run'.dag.tasks
unfolding launch count_attempt
launch-IsClosed runner id run run' h closed =
    let (dag, e, h1) = >>=-eq-ok (transition id running run.dag) _ h in
    let counted : Dag = record dag { tasks = update_task id count_attempt dag.tasks } in
    let (task, found, h2) = >>=-eq-ok (ok_or (get_task id counted.tasks) missing_key_panic) _ h1 in
    let (noted, e', h3) = >>=-eq-ok (notify runner id (set_dag run counted)) _ h2 in
    let same = notify-dag runner id (set_dag run counted) noted e' in
    let links = update_task-SameLinks id count_attempt dag.tasks (λ t. refl) (λ t. refl) in
    rw (← ok_injective h3) (
      subst (λ (d : Dag). IsClosed d.tasks) (sym same)
        (IsClosed-SameLinks dag.tasks counted.tasks links
          (transition-IsClosed id running run.dag dag e closed)))

launch_all-IsClosed :
    (runner : Runner) (l : List TaskId) (run run' : Run)
    → launch_all runner l run ≡ ok run'
    → IsClosed run.dag.tasks
    → IsClosed run'.dag.tasks
unfolding launch_all
launch_all-IsClosed runner [] run run' h closed = rw (← ok_injective h) closed
launch_all-IsClosed runner (id ∷ l) run run' h closed =
    let (next, e, h') = >>=-eq-ok (launch runner id run) _ h in
    launch_all-IsClosed runner l next run' h' (launch-IsClosed runner id run next e closed)

pub dispatch-IsClosed :
    (runner : Runner) (concurrency : ℕ) (run run' : Run)
    → dispatch runner concurrency run ≡ ok run'
    → IsClosed run.dag.tasks
    → IsClosed run'.dag.tasks
unfolding dispatch
dispatch-IsClosed runner concurrency run run' h closed =
    let (dag, e, h') = >>=-eq-ok (refresh run.dag) _ h in
    launch_all-IsClosed runner (startable concurrency (set_dag run dag)) (set_dag run dag) run' h'
      (refresh-IsClosed run.dag dag e closed)

settle-IsClosed :
    (runner : Runner) (id : TaskId) (succeeded : Bool) (run run' : Run)
    → settle runner id succeeded run ≡ ok run'
    → IsClosed run.dag.tasks
    → IsClosed run'.dag.tasks
unfolding settle
settle-IsClosed runner id true run run' h closed =
    let (dag, e, h1) = >>=-eq-ok (transition id reviewing run.dag) _ h in
    let (noted, e', h2) = >>=-eq-ok (notify runner id (set_dag run dag)) _ h1 in
    let (dag', e'', h3) = >>=-eq-ok (transition id completed noted.dag) _ h2 in
    let noted_closed =
      subst (λ (d : Dag). IsClosed d.tasks) (sym (notify-dag runner id (set_dag run dag) noted e'))
        (transition-IsClosed id reviewing run.dag dag e closed) in
    subst (λ (d : Dag). IsClosed d.tasks) (sym (notify-dag runner id (set_dag noted dag') run' h3))
      (transition-IsClosed id completed noted.dag dag' e'' noted_closed)
settle-IsClosed runner id false run run' h closed =
    let (dag, e, h1) = >>=-eq-ok (transition id failed run.dag) _ h in
    subst (λ (d : Dag). IsClosed d.tasks) (sym (notify-dag runner id (set_dag run dag) run' h1))
      (transition-IsClosed id failed run.dag dag e closed)

pub join-IsClosed :
    (runner : Runner) (j : TaskId) (js : List TaskId) (run run' : Run)
    → join runner j js run ≡ ok run'
    → IsClosed run.dag.tasks
    → IsClosed run'.dag.tasks
unfolding join
join-IsClosed runner j js run run' h closed = elim (Option-cases (runner.joined run.log)) [
  | inl lost ↦ cc (rw (lost, join) at h)
  | inr ((place, succeeded), joined) ↦
      settle-IsClosed runner (pick place j js).0 succeeded
        (record run { jobs = (pick place j js).1 }) run' (rw (joined, join) at h) closed
]
