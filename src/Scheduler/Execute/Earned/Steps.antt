-- ===== src/Scheduler/Execute/Earned/Steps.antt =====
-- The completed tasks after each step of `execute` (crates/hub-scheduler/src/lib.rs), and those that it
-- started.
use localoud_ai.Base.{
  ◌≡◌, refl, sym, subst, ◌⊎◌, inl, inr, ℕ, List, [], ◌∷◌, ◌++◌, not, Option-cases, Bool, Bool-cases,
  true, false, Result, ok, err, ok_or, ok_or-eq-ok, bail_if, arith, ◌==◌, nat_eq, ==_sound,
  >>=-eq-ok, >>-eq-ok, ok_injective, All, All_map, All-append, In, In-append_left, In-append_right,
  find-In,
}
use localoud_ai.Core.{TaskId, Task, TaskStatus, running, reviewing, completed, failed}
use localoud_ai.Scheduler.{
  Dag, DagError, missing_key_panic, runner_failed, get_task, status_of, update_task, transition,
  refresh, refresh_tasks,
}
use localoud_ai.Scheduler.Refresh.{SameTests, refresh_tasks-same}
use localoud_ai.Scheduler.Moves.{transition-get_task, get_task-update_task}
use localoud_ai.Scheduler.Execute.{
  Event, changed, started, Runner, Run, count_attempt, notify, launch, launch_all, dispatch, settle,
  set_dag,
}
use localoud_ai.Scheduler.Execute.Keep.{status_of-get, get-status_of}

-- The task was given to the runner.
abbrev pub WasStarted : List Event → TaskId → Type 0
WasStarted log id = (t : Task) × In (started t) log × (t.id ≡ id)

abbrev pub IsDone : Dag → TaskId → Type 0
IsDone dag id = status_of dag.tasks id ≡ ok completed

-- What is completed after a transition: what was before, and the task of a transition to `completed`.
transition-IsDone :
    (id d : TaskId) (next : TaskStatus) (dag dag' : Dag)
    → transition id next dag ≡ ok dag'
    → IsDone dag' d
    → ((id ≡ d) × (next ≡ completed)) ⊎ IsDone dag d
transition-IsDone id d next dag dag' h done =
    let (t, found, allowed, after) = transition-get_task id next dag dag' h in
    let (u, found_u, e) = status_of-get dag'.tasks d done in
    let now = after d in
    elim (Bool-cases (d == id)) [
      | inl same ↦ inl (sym (==_sound d id same), ground arith)
      | inr other ↦ inr (get-status_of dag.tasks d u (ground arith) e)
    ]

counted-IsDone :
    (id d : TaskId) (dag : Dag)
    → IsDone (record { tasks = update_task id count_attempt dag.tasks }) d
    → IsDone dag d
unfolding count_attempt
counted-IsDone id d dag done =
    let (u, found, e) = status_of-get (update_task id count_attempt dag.tasks) d done in
    let after = get_task-update_task id d count_attempt dag.tasks (λ u. refl) in
    elim (Option-cases (get_task d dag.tasks)) [
      | inl missing ↦ absurd (ground arith)
      | inr (t, was) ↦ get-status_of dag.tasks d t was (ground arith)
    ]

same_completed : (r : Result DagError TaskStatus) → SameTests r (ok completed) → r ≡ ok completed
same_completed (ok completed) h = refl
same_completed (ok _) h = cc (h.1)
same_completed (err e) h = absurd h

refresh-IsDone :
    (dag dag' : Dag) (d : TaskId) → refresh dag ≡ ok dag' → IsDone dag' d → IsDone dag d
unfolding refresh
refresh-IsDone dag dag' d h done =
    let (us, e, h') = >>=-eq-ok (refresh_tasks dag.tasks dag.tasks) _ h in
    let same = refresh_tasks-same dag.tasks dag.tasks us d e in
    let done' : status_of us d ≡ ok completed = rw (← ok_injective h') at done in
    same_completed (status_of dag.tasks d) (rw done' at same)

-- The jobs at work were started, and so was what is completed and was not at the start.
pub record IsEarned (start : Dag) (run : Run) : Type 0 where
  pub at_work : All (WasStarted run.log) run.jobs
  pub earned : (d : TaskId) → IsDone run.dag d → IsDone start d ⊎ WasStarted run.log d

WasStarted-append :
    (log more : List Event) (d : TaskId) → WasStarted log d → WasStarted (log ++ more) d
WasStarted-append log more d (t, m, e) = (t, In-append_left (started t) log more m, e)

module _ (start : Dag) where
  -- A longer log, and a graph with no new completed task.
  move :
      (run : Run) (dag : Dag) (more : List Event)
      → ((d : TaskId) → IsDone dag d → IsDone run.dag d ⊎ WasStarted run.log d)
      → IsEarned start run
      → IsEarned start (record { dag = dag; jobs = run.jobs; log = run.log ++ more })
  move run dag more older g = record {
    at_work = All_map run.jobs (λ d. WasStarted-append run.log more d) g.at_work;
    earned = λ d done. elim (older d done) [
      | inl was ↦ elim (g.earned d was) [
        | inl old ↦ inl old
        | inr s ↦ inr (WasStarted-append run.log more d s)
      ]
      | inr s ↦ inr (WasStarted-append run.log more d s)
    ];
  }

  pub notify-IsEarned :
      (runner : Runner) (id : TaskId) (run run' : Run)
      → notify runner id run ≡ ok run'
      → IsEarned start run
      → IsEarned start run'
  unfolding notify
  notify-IsEarned runner id run run' h g =
      let (t, found, h') = >>=-eq-ok (ok_or (get_task id run.dag.tasks) missing_key_panic) _ h in
      let (_, h'') = >>-eq-ok (bail_if (not (runner.accepts run.log t)) runner_failed) _ h' in
      rw (← ok_injective h'') (move run run.dag (changed t ∷ []) (λ d done. inl done) g)

  set_dag-IsEarned :
      (run : Run) (dag : Dag)
      → ((d : TaskId) → IsDone dag d → IsDone run.dag d ⊎ WasStarted run.log d)
      → IsEarned start run
      → IsEarned start (set_dag run dag)
  set_dag-IsEarned run dag older g = record {
    at_work = g.at_work;
    earned = λ d done. elim (older d done) [ inl was ↦ g.earned d was | inr s ↦ inr s ];
  }

  transition-IsEarned :
      (id : TaskId) (next : TaskStatus) (run : Run) (dag : Dag)
      → transition id next run.dag ≡ ok dag
      → (next ≡ completed → WasStarted run.log id)
      → IsEarned start run
      → IsEarned start (set_dag run dag)
  transition-IsEarned id next run dag h s = set_dag-IsEarned run dag (λ d done.
      elim (transition-IsDone id d next run.dag dag h done) [
        | inl (same, e) ↦ inr (subst (WasStarted run.log) same (s e))
        | inr was ↦ inl was
      ])

  launch-IsEarned :
      (runner : Runner) (id : TaskId) (run run' : Run)
      → launch runner id run ≡ ok run'
      → IsEarned start run
      → IsEarned start run'
  unfolding launch
  launch-IsEarned runner id run run' h g =
      let (dag, e, h1) = >>=-eq-ok (transition id running run.dag) _ h in
      let counted : Dag = record dag { tasks = update_task id count_attempt dag.tasks } in
      let (task, found, h2) =
        >>=-eq-ok (ok_or (get_task id counted.tasks) missing_key_panic) _ h1 in
      let (noted, e', h3) = >>=-eq-ok (notify runner id (set_dag run counted)) _ h2 in
      let here = ok_or-eq-ok (get_task id counted.tasks) missing_key_panic found in
      let named = ==_sound task.id id (find-In (λ (t : Task). t.id == id) counted.tasks here).1 in
      let g1 = transition-IsEarned id running run dag e (λ q. cc) g in
      let g2 =
        set_dag-IsEarned (set_dag run dag) counted (λ d done. inl (counted-IsDone id d dag done))
          g1 in
      let g3 = notify-IsEarned runner id (set_dag run counted) noted e' g2 in
      let g4 = move noted noted.dag (started task ∷ []) (λ d done. inl done) g3 in
      rw (← ok_injective h3) (record {
        at_work =
            All-append (WasStarted (noted.log ++ started task ∷ [])) noted.jobs (id ∷ []) g4.at_work
              (
                (
                  task,
                  In-append_right (started task) noted.log (started task ∷ []) (inl refl),
                  named,
                ),
                tt,
              );
        earned = g4.earned;
      })

  launch_all-IsEarned :
      (runner : Runner) (l : List TaskId) (run run' : Run)
      → launch_all runner l run ≡ ok run'
      → IsEarned start run
      → IsEarned start run'
  unfolding launch_all
  launch_all-IsEarned runner [] run run' h g = rw (← ok_injective h) g
  launch_all-IsEarned runner (id ∷ l) run run' h g =
      let (next, e, h') = >>=-eq-ok (launch runner id run) _ h in
      launch_all-IsEarned runner l next run' h' (launch-IsEarned runner id run next e g)

  pub dispatch-IsEarned :
      (runner : Runner) (concurrency : ℕ) (run run' : Run)
      → dispatch runner concurrency run ≡ ok run'
      → IsEarned start run
      → IsEarned start run'
  unfolding dispatch
  dispatch-IsEarned runner concurrency run run' h g =
      let (dag, e, h') = >>=-eq-ok (refresh run.dag) _ h in
      launch_all-IsEarned runner _ (set_dag run dag) run' h'
        (set_dag-IsEarned run dag (λ d done. inl (refresh-IsDone run.dag dag d e done)) g)

  notify-WasStarted :
      (runner : Runner) (id d : TaskId) (run run' : Run)
      → notify runner id run ≡ ok run'
      → WasStarted run.log d
      → WasStarted run'.log d
  unfolding notify
  notify-WasStarted runner id d run run' h s =
      let (t, found, h') = >>=-eq-ok (ok_or (get_task id run.dag.tasks) missing_key_panic) _ h in
      let (_, h'') = >>-eq-ok (bail_if (not (runner.accepts run.log t)) runner_failed) _ h' in
      rw (← ok_injective h'') (WasStarted-append run.log (changed t ∷ []) d s)

  pub settle-IsEarned :
      (runner : Runner) (id : TaskId) (succeeded : Bool) (run run' : Run)
      → settle runner id succeeded run ≡ ok run'
      → WasStarted run.log id
      → IsEarned start run
      → IsEarned start run'
  unfolding settle
  settle-IsEarned runner id true run run' h s g =
      let (dag, e, h1) = >>=-eq-ok (transition id reviewing run.dag) _ h in
      let (noted, e', h2) = >>=-eq-ok (notify runner id (set_dag run dag)) _ h1 in
      let (dag', e'', h3) = >>=-eq-ok (transition id completed noted.dag) _ h2 in
      let g1 = transition-IsEarned id reviewing run dag e (λ q. s) g in
      let g2 = notify-IsEarned runner id (set_dag run dag) noted e' g1 in
      let s' = notify-WasStarted runner id id (set_dag run dag) noted e' s in
      notify-IsEarned runner id (set_dag noted dag') run' h3
        (transition-IsEarned id completed noted dag' e'' (λ q. s') g2)
  settle-IsEarned runner id false run run' h s g =
      let (dag, e, h1) = >>=-eq-ok (transition id failed run.dag) _ h in
      notify-IsEarned runner id (set_dag run dag) run' h1
        (transition-IsEarned id failed run dag e (λ q. s) g)
