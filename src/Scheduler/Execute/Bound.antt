-- ===== src/Scheduler/Execute/Bound.antt =====
-- The jobs at work in the states of `execute` (crates/hub-scheduler/src/lib.rs).
use localoud_ai.Base.{
  ◌≡◌, refl, ℕ, zero, suc, ◌+◌, ◌-◌, ◌≤◌, List, [], ◌∷◌, not, Option-cases, Bool, true, false, ok,
  >>=-eq-ok, >>-eq-ok, ok_injective, ok_or, bail_if, arith, length, ap, sym, ◌∙◌, length-append,
  length-take-le, keep, inl, inr,
}
use localoud_ai.Core.{TaskId, Task, running, reviewing, completed, failed, is_ready}
use localoud_ai.Scheduler.{
  Dag, missing_key_panic, runner_failed, get_task, update_task, transition, refresh, ids,
}
use localoud_ai.Scheduler.Execute.{
  Runner, Run, count_attempt, notify, launch, launch_all, dispatch, startable, pick, settle, join,
  set_dag,
}

pub notify-jobs :
    (runner : Runner) (id : TaskId) (run run' : Run)
    → notify runner id run ≡ ok run'
    → run'.jobs ≡ run.jobs
unfolding notify
notify-jobs runner id run run' h =
    let (t, found, h') = >>=-eq-ok (ok_or (get_task id run.dag.tasks) missing_key_panic) _ h in
    let (_, h'') = >>-eq-ok (bail_if (not (runner.accepts run.log t)) runner_failed) _ h' in
    rw (← ok_injective h'') refl

launch-jobs :
    (runner : Runner) (id : TaskId) (run run' : Run)
    → launch runner id run ≡ ok run'
    → length run'.jobs ≡ length run.jobs + 1
unfolding launch
launch-jobs runner id run run' h =
    let (dag, e, h1) = >>=-eq-ok (transition id running run.dag) _ h in
    let counted : Dag = record dag { tasks = update_task id count_attempt dag.tasks } in
    let (task, found, h2) = >>=-eq-ok (ok_or (get_task id counted.tasks) missing_key_panic) _ h1 in
    let (noted, e', h3) = >>=-eq-ok (notify runner id (set_dag run counted)) _ h2 in
    let same = notify-jobs runner id (set_dag run counted) noted e' in
    ap (λ (r : Run). length r.jobs) (sym (ok_injective h3))
    ∙ omega (arith, length-append noted.jobs (id ∷ []), ap (λ (l : List TaskId). length l) same)

pub launch_all-jobs :
    (runner : Runner) (ids : List TaskId) (run run' : Run)
    → launch_all runner ids run ≡ ok run'
    → length run'.jobs ≡ length run.jobs + length ids
unfolding launch_all
launch_all-jobs runner [] run run' h =
    omega (arith, ap (λ (r : Run). length r.jobs) (ok_injective h))
launch_all-jobs runner (id ∷ ids) run run' h =
    let (next, e, h') = >>=-eq-ok (launch runner id run) _ h in
    omega (arith, launch-jobs runner id run next e, launch_all-jobs runner ids next run' h')

dispatch-jobs :
    (runner : Runner) (concurrency : ℕ) (run run' : Run)
    → dispatch runner concurrency run ≡ ok run'
    → length run.jobs ≤ concurrency
    → length run'.jobs ≤ concurrency
unfolding dispatch startable
dispatch-jobs runner concurrency run run' h fits =
    let (dag, e, h') = >>=-eq-ok (refresh run.dag) _ h in
    omega (
      arith,
      launch_all-jobs runner _ (set_dag run dag) run' h',
      length-take-le (concurrency - length run.jobs)
          (ids (keep (λ (t : Task). is_ready t.status) dag.tasks)),
    )

pick-length : (n : ℕ) (j : TaskId) (js : List TaskId) → length (pick n j js).1 ≡ length js
unfolding pick
pick-length zero j js = refl
pick-length (suc n) j [] = refl
pick-length (suc n) j (k ∷ ks) = ap suc (pick-length n k ks)

settle-jobs :
    (runner : Runner) (id : TaskId) (succeeded : Bool) (run run' : Run)
    → settle runner id succeeded run ≡ ok run'
    → run'.jobs ≡ run.jobs
unfolding settle
settle-jobs runner id true run run' h =
    let (dag, e, h1) = >>=-eq-ok (transition id reviewing run.dag) _ h in
    let (noted, e', h2) = >>=-eq-ok (notify runner id (set_dag run dag)) _ h1 in
    let (dag', e'', h3) = >>=-eq-ok (transition id completed noted.dag) _ h2 in
    notify-jobs runner id (set_dag noted dag') run' h3
    ∙ notify-jobs runner id (set_dag run dag) noted e'
settle-jobs runner id false run run' h =
    let (dag, e, h1) = >>=-eq-ok (transition id failed run.dag) _ h in
    notify-jobs runner id (set_dag run dag) run' h1

join-jobs :
    (runner : Runner) (j : TaskId) (js : List TaskId) (run run' : Run)
    → join runner j js run ≡ ok run'
    → length run'.jobs ≡ length js
unfolding join
join-jobs runner j js run run' h = elim (Option-cases (runner.joined run.log)) [
  | inl lost ↦ cc (rw (lost, join) at h)
  | inr ((place, succeeded), joined) ↦
      let same =
        settle-jobs runner (pick place j js).0 succeeded (record run { jobs = (pick place j js).1 })
          run' (rw (joined, join) at h) in
      ap (λ (l : List TaskId). length l) same ∙ pick-length place j js
]

-- The states that the loop of `execute` passes through.
pub data Visited (runner : Runner) (concurrency : ℕ) (dag : Dag) : Run → Type 0 where
  begin : Visited runner concurrency dag (record { dag = dag; jobs = []; log = [] })
  sent :
      {run run' : Run}
      → Visited runner concurrency dag run
      → dispatch runner concurrency run ≡ ok run'
      → Visited runner concurrency dag run'
  joined :
      {run run' : Run} (j : TaskId) (js : List TaskId)
      → Visited runner concurrency dag run
      → run.jobs ≡ j ∷ js
      → join runner j js run ≡ ok run'
      → Visited runner concurrency dag run'

-- In no state that `execute` passes through are more jobs at work than it was given as a bound.
pub Visited-jobs-le :
    (runner : Runner) (concurrency : ℕ) (dag : Dag) (run : Run)
    → Visited runner concurrency dag run
    → length run.jobs ≤ concurrency
Visited-jobs-le runner concurrency dag _ begin = omega arith
Visited-jobs-le runner concurrency dag run' (sent {run} v e) =
    dispatch-jobs runner concurrency run run' e (Visited-jobs-le runner concurrency dag run v)
Visited-jobs-le runner concurrency dag run' (joined {run} j js v e h) =
    let before = Visited-jobs-le runner concurrency dag run v in
    omega (arith, join-jobs runner j js run run' h, ap (λ (l : List TaskId). length l) e, before)
