-- ===== src/Scheduler/Execute/Backed.antt =====
-- The dependencies of the tasks that `execute` starts (crates/hub-scheduler/src/lib.rs).
use localoud_ai.Base.{
  Result, inl, inr, ◌≡◌, ◌≢◌, refl, sym, subst, ok_or-eq-ok, ℕ, zero, suc, List, [], ◌∷◌, not, some,
  Option-cases, Bool, true, false, ok, ◌>>=◌, >>=-eq-ok, >>-eq-ok, ok_injective, ok_or, bail_if,
  All, All_map, All-append, arith, length, ◌||◌, ltb, ◌==◌, nat_eq,
}
use localoud_ai.Core.{TaskId, Task, TaskStatus, ready, running, reviewing, completed, failed}
use localoud_ai.Scheduler.{
  Dag, DagError, missing_key_panic, runner_failed, bad_concurrency, ids, get_task, update_task,
  transition, refresh,
}
use localoud_ai.Scheduler.Moves.{transition-get_task, get_task-update_task}
use localoud_ai.Scheduler.Refresh.{AllCompleted}
use localoud_ai.Scheduler.Execute.{
  Event, changed, started, Runner, Run, count_attempt, notify, launch, launch_all, dispatch, pick,
  settle, join, notify_all, loop, execute, set_dag,
}
use localoud_ai.Scheduler.Execute.Keep.{
  Keeps, is_active, ActiveBacked, AllCompleted-Keeps, transition-Keeps, transition-ActiveBacked,
  refresh-Keeps, refresh-ActiveBacked, count_attempt-Keeps, count_attempt-ActiveBacked,
}

-- The dependencies of a task that was started are completed.
abbrev pub IsBacked : List Task → Event → Type 0
IsBacked tasks (started t) = AllCompleted tasks t.dependencies
IsBacked tasks (changed t) = Unit

-- All that was started so far, and all that may be started from here on, is backed.
pub record IsGood (run : Run) : Type 0 where
  pub backed : All (IsBacked run.dag.tasks) run.log
  pub active : ActiveBacked run.dag.tasks

IsBacked-Keeps : (ts us : List Task) (e : Event) → Keeps ts us → IsBacked ts e → IsBacked us e
IsBacked-Keeps ts us (started t) k b = AllCompleted-Keeps ts us t.dependencies k b
IsBacked-Keeps ts us (changed t) k b = tt

move :
    (run : Run) (dag : Dag)
    → Keeps run.dag.tasks dag.tasks
    → ActiveBacked dag.tasks
    → IsGood run
    → IsGood (set_dag run dag)
move run dag k a g = record {
  backed = All_map run.log (λ e. IsBacked-Keeps run.dag.tasks dag.tasks e k) g.backed;
  active = a;
}

transition-IsGood :
    (id : TaskId) (next : TaskStatus) (run : Run) (dag : Dag)
    → next ≢ ready
    → transition id next run.dag ≡ ok dag
    → IsGood run
    → IsGood (set_dag run dag)
transition-IsGood id next run dag n h g =
    move run dag (transition-Keeps id next run.dag dag h)
      (transition-ActiveBacked id next run.dag dag n h g.active) g

notify-IsGood :
    (runner : Runner) (id : TaskId) (run run' : Run)
    → notify runner id run ≡ ok run'
    → IsGood run
    → IsGood run'
unfolding notify
notify-IsGood runner id run run' h g =
    let (t, found, h') = >>=-eq-ok (ok_or (get_task id run.dag.tasks) missing_key_panic) _ h in
    let (_, h'') = >>-eq-ok (bail_if (not (runner.accepts run.log t)) runner_failed) _ h' in
    rw (← ok_injective h'') (record {
      backed = All-append (IsBacked run.dag.tasks) run.log (changed t ∷ []) g.backed (tt, tt);
      active = g.active;
    })

pub notify-dag :
    (runner : Runner) (id : TaskId) (run run' : Run)
    → notify runner id run ≡ ok run'
    → run'.dag ≡ run.dag
unfolding notify
notify-dag runner id run run' h =
    let (t, found, h') = >>=-eq-ok (ok_or (get_task id run.dag.tasks) missing_key_panic) _ h in
    let (_, h'') = >>-eq-ok (bail_if (not (runner.accepts run.log t)) runner_failed) _ h' in
    rw (← ok_injective h'') refl

-- A launched task is at work.
launched_status :
    (id : TaskId) (before dag : Dag) (task : Task)
    → transition id running before ≡ ok dag
    → get_task id (update_task id count_attempt dag.tasks) ≡ some task
    → task.status ≡ running
unfolding count_attempt
launched_status id before dag task e here =
    let (t, found, allowed, after) = transition-get_task id running before dag e in
    let now = after id in
    let counted = get_task-update_task id id count_attempt dag.tasks (λ u. refl) in
    ground (arith, now, counted)

launch-IsGood :
    (runner : Runner) (id : TaskId) (run run' : Run)
    → launch runner id run ≡ ok run'
    → IsGood run
    → IsGood run'
unfolding launch
launch-IsGood runner id run run' h g =
    let (dag, e, h1) = >>=-eq-ok (transition id running run.dag) _ h in
    let counted : Dag = record dag { tasks = update_task id count_attempt dag.tasks } in
    let (task, found, h2) = >>=-eq-ok (ok_or (get_task id counted.tasks) missing_key_panic) _ h1 in
    let (noted, e', h3) = >>=-eq-ok (notify runner id (set_dag run counted)) _ h2 in
    let good = transition-IsGood id running run dag (cc) e g in
    let counted_good =
      move (set_dag run dag) counted (count_attempt-Keeps id dag.tasks)
        (count_attempt-ActiveBacked id dag.tasks good.active) good in
    let noted_good = notify-IsGood runner id (set_dag run counted) noted e' counted_good in
    let here = ok_or-eq-ok (get_task id counted.tasks) missing_key_panic found in
    let same = notify-dag runner id (set_dag run counted) noted e' in
    let at_work = launched_status id run.dag dag task e here in
    let task_backed : AllCompleted noted.dag.tasks task.dependencies =
      noted_good.active id task
        (subst (λ (d : Dag). get_task id d.tasks ≡ some task) (sym same) here)
        (subst (λ s. is_active s ≡ true) (sym at_work) refl) in
    rw (← ok_injective h3) (record {
      backed =
          All-append (IsBacked noted.dag.tasks) noted.log (started task ∷ []) noted_good.backed
            (task_backed, tt);
      active = noted_good.active;
    })

launch_all-IsGood :
    (runner : Runner) (ids : List TaskId) (run run' : Run)
    → launch_all runner ids run ≡ ok run'
    → IsGood run
    → IsGood run'
unfolding launch_all
launch_all-IsGood runner [] run run' h g = rw (← ok_injective h) g
launch_all-IsGood runner (id ∷ ids) run run' h g =
    let (next, e, h') = >>=-eq-ok (launch runner id run) _ h in
    launch_all-IsGood runner ids next run' h' (launch-IsGood runner id run next e g)

dispatch-IsGood :
    (runner : Runner) (concurrency : ℕ) (run run' : Run)
    → dispatch runner concurrency run ≡ ok run'
    → IsGood run
    → IsGood run'
unfolding dispatch
dispatch-IsGood runner concurrency run run' h g =
    let (dag, e, h') = >>=-eq-ok (refresh run.dag) _ h in
    launch_all-IsGood runner _ (set_dag run dag) run' h'
      (move run dag (refresh-Keeps run.dag dag e) (refresh-ActiveBacked run.dag dag e g.active) g)

settle-IsGood :
    (runner : Runner) (id : TaskId) (succeeded : Bool) (run run' : Run)
    → settle runner id succeeded run ≡ ok run'
    → IsGood run
    → IsGood run'
unfolding settle
settle-IsGood runner id true run run' h g =
    let (dag, e, h1) = >>=-eq-ok (transition id reviewing run.dag) _ h in
    let (noted, e', h2) = >>=-eq-ok (notify runner id (set_dag run dag)) _ h1 in
    let (dag', e'', h3) = >>=-eq-ok (transition id completed noted.dag) _ h2 in
    let noted_good =
      notify-IsGood runner id (set_dag run dag) noted e'
        (transition-IsGood id reviewing run dag (cc) e g) in
    notify-IsGood runner id (set_dag noted dag') run' h3
      (transition-IsGood id completed noted dag' (cc) e'' noted_good)
settle-IsGood runner id false run run' h g =
    let (dag, e, h1) = >>=-eq-ok (transition id failed run.dag) _ h in
    notify-IsGood runner id (set_dag run dag) run' h1 (transition-IsGood id failed run dag (cc) e g)

join-IsGood :
    (runner : Runner) (j : TaskId) (js : List TaskId) (run run' : Run)
    → join runner j js run ≡ ok run'
    → IsGood run
    → IsGood run'
unfolding join
join-IsGood runner j js run run' h g = elim (Option-cases (runner.joined run.log)) [
  | inl lost ↦ cc (rw (lost, join) at h)
  | inr ((place, succeeded), joined) ↦
      let (id, rest) = pick place j js in
      settle-IsGood runner id succeeded (record run { jobs = rest }) run' (rw (joined, join) at h)
        (record { backed = g.backed; active = g.active })
]

notify_all-IsGood :
    (runner : Runner) (ids : List TaskId) (run run' : Run)
    → notify_all runner ids run ≡ ok run'
    → IsGood run
    → IsGood run'
unfolding notify_all
notify_all-IsGood runner [] run run' h g = rw (← ok_injective h) g
notify_all-IsGood runner (id ∷ ids) run run' h g =
    let (next, e, h') = >>=-eq-ok (notify runner id run) _ h in
    notify_all-IsGood runner ids next run' h' (notify-IsGood runner id run next e g)

loop-IsGood :
    (runner : Runner) (concurrency fuel : ℕ) (run run' : Run)
    → loop runner concurrency fuel run ≡ ok run'
    → IsGood run
    → IsGood run'
unfolding loop
loop-IsGood runner concurrency zero run run' h g = cc
loop-IsGood runner concurrency (suc fuel) run run' h g =
    let (sent, e, h') = >>=-eq-ok (dispatch runner concurrency run) _ h in
    after (λ next. loop-IsGood runner concurrency fuel next run') sent.jobs sent h'
      (dispatch-IsGood runner concurrency run sent e g)
  where
    after :
        ((next : Run) → loop runner concurrency fuel next ≡ ok run' → IsGood next → IsGood run')
        → (jobs : List TaskId) (sent : Run)
        → ◌≡◌ {A = Result DagError Run}
            (elim jobs [
              | [] ↦ notify_all runner (ids sent.dag.tasks) sent
              | j ∷ js ↦ join runner j js sent >>= λ next. loop runner concurrency fuel next
            ])
            (ok run')
        → IsGood sent
        → IsGood run'
    after ih [] sent h g = notify_all-IsGood runner (ids sent.dag.tasks) sent run' h g
    after ih (j ∷ js) sent h g =
        let (next, e, h') = >>=-eq-ok (join runner j js sent) _ h in
        ih next h' (join-IsGood runner j js sent next e g)

-- For every runner whose jobs end, a run that ends well started a task only when all of its dependencies
-- were completed: of every task in its log as started, every dependency is a completed task of the
-- final graph. The graph may be one that is resumed, if the tasks that are ready, at work or under
-- review have completed dependencies.
pub execute-IsBacked :
    (runner : Runner) (concurrency : ℕ) (dag : Dag) (run : Run)
    → ActiveBacked dag.tasks
    → execute runner concurrency dag ≡ ok run
    → All (IsBacked run.dag.tasks) run.log
unfolding execute
execute-IsBacked runner concurrency dag run active h =
    let (_, h') = >>-eq-ok (bail_if (concurrency == 0 || ltb 8 concurrency) bad_concurrency) _ h in
    (loop-IsGood runner concurrency (suc (length dag.tasks)) _ run h'
      (record { backed = tt; active = active })).backed
