-- ===== src/Scheduler/Execute/Finish.antt =====
-- In which states `execute` stops (crates/hub-scheduler/src/lib.rs).
use localoud_ai.Base.{
  ◌≡◌, refl, ap, sym, subst, ◌∙◌, ℕ, zero, suc, ◌-◌, ◌<◌, List, [], ◌∷◌, true, false, ok, Result,
  ◌>>=◌, >>=-eq-ok, >>-eq-ok, ok_injective, bail_if, arith, length, take, keep, In, In-keep, All,
  All_of, ◌||◌, ◌==◌, nat_eq, ltb, inl, inr, Bool-cases,
}
use localoud_ai.Core.{TaskId, Task, is_ready}
use localoud_ai.Scheduler.{
  Dag, DagError, bad_concurrency, ids, is_waiting, refresh, refresh_task, refresh_tasks,
}
use localoud_ai.Scheduler.Refresh.{AllCompleted, refresh_task-ready_iff, refresh_idempotent}
use localoud_ai.Scheduler.Execute.{
  Runner, Run, notify, launch_all, dispatch, startable, join, notify_all, loop, execute, set_dag,
}
use localoud_ai.Scheduler.Execute.Bound.{launch_all-jobs, notify-jobs}
use localoud_ai.Scheduler.Execute.Backed.{notify-dag}

-- A task that can neither be started nor be made ready.
abbrev pub IsStuck : List Task → Task → Type 0
IsStuck tasks t =
    (is_ready t.status ≡ false) × (is_waiting t.status ≡ true → ¬ AllCompleted tasks t.dependencies)

-- No job is at work, and every task is stuck.
pub record IsFinished (run : Run) : Type 0 where
  pub idle : run.jobs ≡ []
  pub stuck : All (IsStuck run.dag.tasks) run.dag.tasks

no_ready :
    (ts : List Task) (t : Task)
    → keep (λ (t : Task). is_ready t.status) ts ≡ []
    → In t ts
    → is_ready t.status ≡ false
no_ready ts t none_kept m = elim (Bool-cases (is_ready t.status)) [
  | inr h ↦ h
  | inl h ↦
      let kept = In-keep (λ (t : Task). is_ready t.status) t ts m h in
      absurd (subst (In t) none_kept kept)
]

ids-nil : (k : ℕ) (ts : List Task) → 0 < k → length (take k (ids ts)) ≡ 0 → ts ≡ []
ids-nil k [] room h = refl
ids-nil zero (t ∷ ts) room h = absurd (omega (arith, room))
ids-nil (suc k) (t ∷ ts) room h = absurd (omega (arith, h))

length-nil : {A : Type 0} (l : List A) → length l ≡ 0 → l ≡ []
length-nil [] h = refl
length-nil (x ∷ l) h = absurd (omega (arith, h))

-- A task of a list that a refresh leaves as it is, is one that the refresh of it alone leaves.
refresh_tasks-fixed :
    (snapshot ts : List Task) (t : Task)
    → refresh_tasks snapshot ts ≡ ok ts
    → In t ts
    → refresh_task snapshot t ≡ ok t
unfolding refresh_tasks
refresh_tasks-fixed snapshot [] t h m = absurd m
refresh_tasks-fixed snapshot (x ∷ ts) t h (inl e) =
    let (u, q, h') = >>=-eq-ok (refresh_task snapshot x) _ h in
    let (us, q', h'') = >>=-eq-ok (refresh_tasks snapshot ts) _ h' in
    let same : u ≡ x = cc (ok_injective h'') in
    subst (λ y. refresh_task snapshot y ≡ ok y) e (q ∙ ap ok same)
refresh_tasks-fixed snapshot (x ∷ ts) t h (inr m) =
    let (u, q, h') = >>=-eq-ok (refresh_task snapshot x) _ h in
    let (us, q', h'') = >>=-eq-ok (refresh_tasks snapshot ts) _ h' in
    let same : us ≡ ts = cc (ok_injective h'') in
    refresh_tasks-fixed snapshot ts t (q' ∙ ap ok same) m

fixed-IsStuck :
    (dag : Dag) (t : Task)
    → refresh dag ≡ ok dag
    → keep (λ (t : Task). is_ready t.status) dag.tasks ≡ []
    → In t dag.tasks
    → IsStuck dag.tasks t
unfolding refresh
fixed-IsStuck dag t again none_kept m =
    let (us, q, h) = >>=-eq-ok (refresh_tasks dag.tasks dag.tasks) _ again in
    let same : us ≡ dag.tasks = ap (λ (d : Dag). d.tasks) (ok_injective h) in
    let fixed = refresh_tasks-fixed dag.tasks dag.tasks t (q ∙ ap ok same) m in
    let cold = no_ready dag.tasks t none_kept m in
    (cold, λ w done. cc ((refresh_task-ready_iff dag.tasks t t fixed w).1 done, cold))

launch_none : (runner : Runner) (run : Run) → launch_all runner [] run ≡ ok run
unfolding launch_all
launch_none runner run = refl

-- A dispatch after which no job is at work.
dispatch-IsFinished :
    (runner : Runner) (n : ℕ) (run run' : Run)
    → dispatch runner (suc n) run ≡ ok run'
    → run'.jobs ≡ []
    → IsFinished run'
unfolding dispatch startable
dispatch-IsFinished runner n run run' h idle =
    let (dag, e, h') = >>=-eq-ok (refresh run.dag) _ h in
    let counted =
      launch_all-jobs runner (startable (suc n) (set_dag run dag)) (set_dag run dag) run' h' in
    let none_left : length run'.jobs ≡ 0 = ap (λ (l : List TaskId). length l) idle in
    let unused : length run.jobs ≡ 0 = omega (arith, counted, none_left) in
    let nothing : startable (suc n) (set_dag run dag) ≡ [] =
      length-nil (startable (suc n) (set_dag run dag)) (omega (arith, counted, none_left)) in
    let none_ready : keep (λ (t : Task). is_ready t.status) dag.tasks ≡ [] =
      ids-nil (suc n - length run.jobs) (keep (λ (t : Task). is_ready t.status) dag.tasks)
        (omega (arith, unused)) (ap (λ (l : List TaskId). length l) nothing) in
    let same : set_dag run dag ≡ run' =
      ok_injective (sym (launch_none runner (set_dag run dag)) ∙ (rw nothing at h')) in
    record {
      idle = idle;
      stuck =
          subst (λ (r : Run). All (IsStuck r.dag.tasks) r.dag.tasks) same
            (All_of (IsStuck dag.tasks) dag.tasks
              (λ t m. fixed-IsStuck dag t (refresh_idempotent run.dag dag e) none_ready m));
    }

notify_all-IsFinished :
    (runner : Runner) (l : List TaskId) (run run' : Run)
    → notify_all runner l run ≡ ok run'
    → IsFinished run
    → IsFinished run'
unfolding notify_all
notify_all-IsFinished runner [] run run' h f = subst IsFinished (ok_injective h) f
notify_all-IsFinished runner (id ∷ l) run run' h f =
    let (next, e, h') = >>=-eq-ok (notify runner id run) _ h in
    let jobs = notify-jobs runner id run next e in
    let dag = notify-dag runner id run next e in
    notify_all-IsFinished runner l next run' h' (record {
      idle = jobs ∙ f.idle;
      stuck = subst (λ (d : Dag). All (IsStuck d.tasks) d.tasks) (sym dag) f.stuck;
    })

-- The end of a round, by the jobs at work after its dispatch.
after-IsFinished :
    (runner : Runner) (rest : Run → Result DagError Run) (run' out : Run) (jobs : List TaskId)
    → run'.jobs ≡ jobs
    → (run'.jobs ≡ [] → IsFinished run')
    → ((next : Run) → rest next ≡ ok out → IsFinished out)
    → (elim jobs [
      | [] ↦ notify_all runner (ids run'.dag.tasks) run'
      | j ∷ js ↦ join runner j js run' >>= λ next. rest next
    ])
      ≡ ok out
    → IsFinished out
after-IsFinished runner rest run' out [] same here later h =
    notify_all-IsFinished runner (ids run'.dag.tasks) run' out h (here same)
after-IsFinished runner rest run' out (j ∷ js) same here later h =
    let (next, _, h') = >>=-eq-ok (join runner j js run') rest h in later next h'

loop-IsFinished :
    (runner : Runner) (n fuel : ℕ) (run out : Run)
    → loop runner (suc n) fuel run ≡ ok out
    → IsFinished out
unfolding loop
loop-IsFinished runner n zero run out h = cc
loop-IsFinished runner n (suc fuel) run out h =
    let (run', e, h') = >>=-eq-ok (dispatch runner (suc n) run) _ h in
    after-IsFinished runner (loop runner (suc n) fuel) run' out run'.jobs refl
      (dispatch-IsFinished runner n run run' e) (λ next q. loop-IsFinished runner n fuel next out q)
      h'

-- For every runner whose jobs end, a run of `execute` that ends well does not end while there is
-- something to do: no job is at work, no task is ready, and every task that waits has a dependency that is not
-- completed.
pub execute-IsFinished :
    (runner : Runner) (concurrency : ℕ) (dag : Dag) (run : Run)
    → execute runner concurrency dag ≡ ok run
    → IsFinished run
unfolding execute
execute-IsFinished runner zero dag run h = cc
execute-IsFinished runner (suc n) dag run h =
    let (_, h') = >>-eq-ok (bail_if (suc n == 0 || ltb 8 (suc n)) bad_concurrency) _ h in
    loop-IsFinished runner n (suc (length dag.tasks)) (record { dag = dag; jobs = []; log = [] })
      run h'
