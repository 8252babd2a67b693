-- ===== src/Scheduler/Execute/Ends.antt =====
-- How many unfinished tasks a round of `execute` leaves (crates/hub-scheduler/src/lib.rs).
use localoud_ai.Base.{
  ◌≡◌, refl, ℕ, ◌+◌, List, [], ◌∷◌, not, some, Option-cases, Bool, true, false, ok, >>=-eq-ok,
  >>-eq-ok, ok_injective, ok_or, bail_if, arith, ap, sym, ◌∙◌, inl, inr, nat_eq, ◌==◌, Bool-cases,
  if◌then◌else◌, subst,
}
use localoud_ai.Core.{
  TaskId, Task, TaskStatus, running, reviewing, completed, failed, cancelled, can_transition,
}
use localoud_ai.Scheduler.{
  Dag, missing_key_panic, runner_failed, get_task, update_task, transition, refresh, refresh_task,
  refresh_tasks, with_status,
}
use localoud_ai.Scheduler.Execute.{
  Runner, Run, count_attempt, notify, launch, launch_all, dispatch, startable, pick, settle, join,
  set_dag,
}

abbrev is_over : TaskStatus → Bool
is_over completed = true
is_over failed = true
is_over cancelled = true
is_over _ = false

abbrev weight : TaskStatus → ℕ
weight s = if is_over s then 0 else 1

-- How many tasks are not over.
unfoldable pub unfinished : List Task → ℕ
unfinished [] = 0
unfinished (t ∷ ts) = weight t.status + unfinished ts

unfinished-update_task :
    (id : TaskId) (f : Task → Task) (tasks : List Task) (t : Task)
    → get_task id tasks ≡ some t
    → unfinished (update_task id f tasks) + weight t.status ≡ unfinished tasks + weight (f t).status
unfolding update_task unfinished
unfinished-update_task id f [] t h = cc
unfinished-update_task id f (x ∷ xs) t h = elim (Bool-cases (x.id == id)) [
  | inl here ↦
      let same : x ≡ t = ground arith in
      rw here (
        subst
          (λ y.
            (weight (f x).status + unfinished xs + weight y.status
              ≡ weight x.status + unfinished xs + weight (f y).status))
          same (omega arith))
  | inr other ↦ rw other (omega (arith, unfinished-update_task id f xs t (rw other at h)))
]

unfinished-count_attempt :
    (id : TaskId) (tasks : List Task)
    → unfinished (update_task id count_attempt tasks) ≡ unfinished tasks
unfolding update_task unfinished count_attempt
unfinished-count_attempt id [] = refl
unfinished-count_attempt id (x ∷ xs) = elim (Bool-cases (x.id == id)) [
  | inl here ↦ rw here refl
  | inr other ↦ rw other (omega (arith, unfinished-count_attempt id xs))
]

-- A transition into a status that only a task which is not over takes.
transition-unfinished :
    (id : TaskId) (next : TaskStatus) (dag dag' : Dag)
    → ((s : TaskStatus) → can_transition s next ≡ true → is_over s ≡ false)
    → transition id next dag ≡ ok dag'
    → unfinished dag'.tasks + 1 ≡ unfinished dag.tasks + weight next
unfolding transition
transition-unfinished id next dag dag' live h = elim (Option-cases (get_task id dag.tasks)) [
  | inl missing ↦ let bad = rw (missing, transition) at h in cc
  | inr (t, found) ↦ elim (Bool-cases (can_transition t.status next)) [
    | inr no_move ↦ let bad = rw (found, no_move, transition) at h in cc
    | inl move ↦
        let e = ok_injective (rw (found, move, transition) at h) in
        let old : weight t.status ≡ 1 = rw (live t.status move) refl in
        subst (λ (d : Dag). unfinished d.tasks + 1 ≡ unfinished dag.tasks + weight next) e
          (omega (arith, unfinished-update_task id (with_status next) dag.tasks t found, old))
  ]
]

refresh_task-weight :
    (tasks : List Task) (t u : Task)
    → refresh_task tasks t ≡ ok u
    → weight u.status ≡ weight t.status
unfolding refresh_task
refresh_task-weight tasks t u h = ground arith

refresh_tasks-unfinished :
    (snapshot ts us : List Task) → refresh_tasks snapshot ts ≡ ok us → unfinished us ≡ unfinished ts
unfolding refresh_tasks unfinished
refresh_tasks-unfinished snapshot [] us h = subst (λ l. unfinished l ≡ 0) (ok_injective h) refl
refresh_tasks-unfinished snapshot (t ∷ ts) us h =
    let (u, e, h1) = >>=-eq-ok (refresh_task snapshot t) _ h in
    let (rest, e', h2) = >>=-eq-ok (refresh_tasks snapshot ts) _ h1 in
    subst (λ l. unfinished l ≡ weight t.status + unfinished ts) (ok_injective h2)
      (omega
        (arith, refresh_task-weight snapshot t u e, refresh_tasks-unfinished snapshot ts rest e'))

notify-dag :
    (runner : Runner) (id : TaskId) (run run' : Run)
    → notify runner id run ≡ ok run'
    → run'.dag ≡ run.dag
unfolding notify
notify-dag runner id run run' h =
    let (t, found, h') = >>=-eq-ok (ok_or (get_task id run.dag.tasks) missing_key_panic) _ h in
    let (_, h'') = >>-eq-ok (bail_if (not (runner.accepts run.log t)) runner_failed) _ h' in
    rw (← ok_injective h'') refl

into_running : (s : TaskStatus) → can_transition s running ≡ true → is_over s ≡ false
unfolding can_transition
into_running s h = ground arith

into_reviewing : (s : TaskStatus) → can_transition s reviewing ≡ true → is_over s ≡ false
unfolding can_transition
into_reviewing s h = ground arith

into_completed : (s : TaskStatus) → can_transition s completed ≡ true → is_over s ≡ false
unfolding can_transition
into_completed s h = ground arith

into_failed : (s : TaskStatus) → can_transition s failed ≡ true → is_over s ≡ false
unfolding can_transition
into_failed s h = ground arith

abbrev pub left : Run → ℕ
left run = unfinished run.dag.tasks

launch-left :
    (runner : Runner) (id : TaskId) (run run' : Run)
    → launch runner id run ≡ ok run'
    → left run' ≡ left run
unfolding launch
launch-left runner id run run' h =
    let (dag, e, h1) = >>=-eq-ok (transition id running run.dag) _ h in
    let counted : Dag = record dag { tasks = update_task id count_attempt dag.tasks } in
    let (task, found, h2) = >>=-eq-ok (ok_or (get_task id counted.tasks) missing_key_panic) _ h1 in
    let (noted, e', h3) = >>=-eq-ok (notify runner id (set_dag run counted)) _ h2 in
    let same =
      ap (λ (d : Dag). unfinished d.tasks) (notify-dag runner id (set_dag run counted) noted e') in
    subst (λ r. left r ≡ left run) (ok_injective h3)
      (omega (
        arith,
        same,
        unfinished-count_attempt id dag.tasks,
        transition-unfinished id running run.dag dag into_running e,
      ))

launch_all-left :
    (runner : Runner) (l : List TaskId) (run run' : Run)
    → launch_all runner l run ≡ ok run'
    → left run' ≡ left run
unfolding launch_all
launch_all-left runner [] run run' h = ap left (sym (ok_injective h))
launch_all-left runner (id ∷ l) run run' h =
    let (next, e, h') = >>=-eq-ok (launch runner id run) _ h in
    launch_all-left runner l next run' h' ∙ launch-left runner id run next e

pub dispatch-left :
    (runner : Runner) (concurrency : ℕ) (run run' : Run)
    → dispatch runner concurrency run ≡ ok run'
    → left run' ≡ left run
unfolding dispatch refresh
dispatch-left runner concurrency run run' h =
    let (dag, e, h') = >>=-eq-ok (refresh run.dag) _ h in
    let (tasks, e1, e2) = >>=-eq-ok (refresh_tasks run.dag.tasks run.dag.tasks) _ e in
    launch_all-left runner (startable concurrency (set_dag run dag)) (set_dag run dag) run' h'
    ∙ (ap (λ (d : Dag). unfinished d.tasks) (sym (ok_injective e2))
        ∙ refresh_tasks-unfinished run.dag.tasks run.dag.tasks tasks e1)

-- A job that is joined ends its task.
settle-left :
    (runner : Runner) (id : TaskId) (succeeded : Bool) (run run' : Run)
    → settle runner id succeeded run ≡ ok run'
    → left run' + 1 ≡ left run
unfolding settle
settle-left runner id true run run' h =
    let (dag, e, h1) = >>=-eq-ok (transition id reviewing run.dag) _ h in
    let (noted, e', h2) = >>=-eq-ok (notify runner id (set_dag run dag)) _ h1 in
    let (dag', e'', h3) = >>=-eq-ok (transition id completed noted.dag) _ h2 in
    let first =
      ap (λ (d : Dag). unfinished d.tasks) (notify-dag runner id (set_dag run dag) noted e') in
    let last =
      ap (λ (d : Dag). unfinished d.tasks) (notify-dag runner id (set_dag noted dag') run' h3) in
    omega (
      arith,
      first,
      last,
      transition-unfinished id reviewing run.dag dag into_reviewing e,
      transition-unfinished id completed noted.dag dag' into_completed e'',
    )
settle-left runner id false run run' h =
    let (dag, e, h1) = >>=-eq-ok (transition id failed run.dag) _ h in
    let last =
      ap (λ (d : Dag). unfinished d.tasks) (notify-dag runner id (set_dag run dag) run' h1) in
    omega (arith, last, transition-unfinished id failed run.dag dag into_failed e)

pub join-left :
    (runner : Runner) (j : TaskId) (js : List TaskId) (run run' : Run)
    → join runner j js run ≡ ok run'
    → left run' + 1 ≡ left run
unfolding join
join-left runner j js run run' h = elim (Option-cases (runner.joined run.log)) [
  | inl lost ↦ let bad = rw (lost, join) at h in cc
  | inr ((place, succeeded), joined) ↦
      settle-left runner (pick place j js).0 succeeded (record run { jobs = (pick place j js).1 })
        run' (rw (joined, join) at h)
]
