-- ===== src/Scheduler/Execute/Earned.antt =====
-- Which tasks are completed after `execute` (crates/hub-scheduler/src/lib.rs).
mod Steps
pub use Steps.{WasStarted}
use Steps.{IsDone, IsEarned, notify-IsEarned, dispatch-IsEarned, settle-IsEarned}
use localoud_ai.Base.{
  ◌≡◌, ◌≢◌, refl, sym, subst, ap, ◌⊎◌, inl, inr, ℕ, zero, suc, List, [], ◌∷◌, ◌++◌, not, some,
  Option, Option-cases, Bool, Bool-cases, true, false, length, Result, ok, err, ◌>>=◌, ◌>>◌, ok_or,
  ok_or-eq-ok, bail_if, arith, ◌||◌, ◌==◌, nat_eq, ==_sound, ltb, >>=-eq-ok, >>-eq-ok, ok_injective,
  All, All_map, All-append, In, In-append_left, In-append_right, find-In,
}
use localoud_ai.Core.{TaskId, Task, TaskStatus, running, reviewing, completed, failed, is_completed}
use localoud_ai.Scheduler.{
  Dag, DagError, missing_key_panic, runner_failed, bad_concurrency, get_task, status_of,
  update_task, transition, with_status, refresh, refresh_tasks, ids,
}
use localoud_ai.Scheduler.Refresh.{SameTests, refresh_tasks-same}
use localoud_ai.Scheduler.Moves.{transition-get_task, get_task-update_task}
use localoud_ai.Scheduler.Execute.{
  Event, changed, started, Runner, Run, count_attempt, notify, launch, launch_all, dispatch, pick,
  settle, join, notify_all, loop, execute, set_dag,
}
use localoud_ai.Scheduler.Execute.Keep.{status_of-get, get-status_of}

module _ (start : Dag) where
  all-pick :
      (P : TaskId → Type 0) (n : ℕ) (j : TaskId) (js : List TaskId)
      → P j
      → All P js
      → P (pick n j js).0 × All P (pick n j js).1
  unfolding pick
  all-pick P zero j js p ps = (p, ps)
  all-pick P (suc n) j [] p ps = (p, ps)
  all-pick P (suc n) j (k ∷ ks) p (q, qs) =
      let (here, rest) = all-pick P n k ks q qs in (here, (p, rest))

  join-IsEarned :
      (runner : Runner) (j : TaskId) (js : List TaskId) (run run' : Run)
      → join runner j js run ≡ ok run'
      → run.jobs ≡ j ∷ js
      → IsEarned start run
      → IsEarned start run'
  unfolding join
  join-IsEarned runner j js run run' h jobs g = elim (Option-cases (runner.joined run.log)) [
    | inl lost ↦ cc (rw (lost, join) at h)
    | inr ((place, succeeded), joined) ↦
        let (s, ss) = rw jobs at g.at_work in
        let (here, rest) = all-pick (WasStarted run.log) place j js s ss in
        settle-IsEarned start runner (pick place j js).0 succeeded
          (record run { jobs = (pick place j js).1 }) run' (rw (joined, join) at h) here
          (record { at_work = rest; earned = g.earned })
  ]

  notify_all-IsEarned :
      (runner : Runner) (l : List TaskId) (run run' : Run)
      → notify_all runner l run ≡ ok run'
      → IsEarned start run
      → IsEarned start run'
  unfolding notify_all
  notify_all-IsEarned runner [] run run' h g = rw (← ok_injective h) g
  notify_all-IsEarned runner (id ∷ l) run run' h g =
      let (next, e, h') = >>=-eq-ok (notify runner id run) _ h in
      notify_all-IsEarned runner l next run' h' (notify-IsEarned start runner id run next e g)

  -- The end of a round, by the jobs at work after its dispatch.
  after-IsEarned :
      (runner : Runner) (rest : Run → Result DagError Run) (sent out : Run) (jobs : List TaskId)
      → sent.jobs ≡ jobs
      → IsEarned start sent
      → ((next : Run) → rest next ≡ ok out → IsEarned start next → IsEarned start out)
      → (elim jobs [
        | [] ↦ notify_all runner (ids sent.dag.tasks) sent
        | j ∷ js ↦ join runner j js sent >>= λ next. rest next
      ])
        ≡ ok out
      → IsEarned start out
  after-IsEarned runner rest sent out [] same g later h =
      notify_all-IsEarned runner (ids sent.dag.tasks) sent out h g
  after-IsEarned runner rest sent out (j ∷ js) same g later h =
      let (next, e, h') = >>=-eq-ok (join runner j js sent) rest h in
      later next h' (join-IsEarned runner j js sent next e same g)

  loop-IsEarned :
      (runner : Runner) (concurrency fuel : ℕ) (run out : Run)
      → loop runner concurrency fuel run ≡ ok out
      → IsEarned start run
      → IsEarned start out
  unfolding loop
  loop-IsEarned runner concurrency zero run out h g = cc
  loop-IsEarned runner concurrency (suc fuel) run out h g =
      let (sent, e, h') = >>=-eq-ok (dispatch runner concurrency run) _ h in
      after-IsEarned runner (loop runner concurrency fuel) sent out sent.jobs refl
        (dispatch-IsEarned start runner concurrency run sent e g)
        (λ next q. loop-IsEarned runner concurrency fuel next out q) h'

-- For every runner whose jobs end, a task that is completed when `execute` ends well was completed at
-- the start or was started in the run.
pub execute_earned :
    (runner : Runner) (concurrency : ℕ) (dag : Dag) (run : Run) (d : TaskId)
    → execute runner concurrency dag ≡ ok run
    → status_of run.dag.tasks d ≡ ok completed
    → (status_of dag.tasks d ≡ ok completed) ⊎ WasStarted run.log d
unfolding execute
execute_earned runner concurrency dag run d h done =
    let (_, h') = >>-eq-ok (bail_if (concurrency == 0 || ltb 8 concurrency) bad_concurrency) _ h in
    (loop-IsEarned dag runner concurrency (suc (length dag.tasks))
        (record { dag = dag; jobs = []; log = [] }) run h'
        (record { at_work = tt; earned = λ d done. inl done })).earned
      d done
