-- ===== src/Plan/Recover.antt =====
-- What a recovered graph holds (crates/hub-runtime/src/plan.rs).
use localoud_ai.Base.{
  ◌≡◌, ◌≢◌, refl, sym, ap, subst, String, List, [], ◌∷◌, some, false, not, ◌||◌, inl, inr, ◌⊎◌,
  ◌==◌, nat_eq, string_eq, ==_sound, Bool-cases, Option-cases, Result, ok, err, >>-eq-ok, >>=-eq-ok,
  bail_if, bail_if-eq-ok, ok_injective, All, arith,
}
use localoud_ai.Core.{Task, TaskId, TaskStatus, completed, is_completed}
use localoud_ai.Scheduler.{Dag, DagError, new}
use localoud_ai.Scheduler.Build.{new-IsBuilt}
use localoud_ai.Plan.{
  PlanRuntime, WorkerOutcome, graph_of, bad_settings, task_set_changed, provenance_mismatch,
  outcome_missing, outcome_for, is_interrupted, recover_task, recover_tasks, recover,
  settings_invalid, tasks_changed, tasks_of_plan,
}

-- The result of work that was done for a task on the commit of the plan.
pub record IsOutcomeOf (base_sha : String) (id : TaskId) (o : WorkerOutcome) : Type 0 where
  pub task : o.task_id ≡ id
  pub worktree_task : o.worktree.task_id ≡ id
  pub base : o.worktree.base_sha ≡ base_sha

-- A recovered task: completed with an outcome of its own, or neither completed nor at work.
abbrev pub IsRecovered : String → List (TaskId × WorkerOutcome) → Task → Type 0
IsRecovered base_sha outcomes u =
    ((u.status ≡ completed)
      × ((o : WorkerOutcome) × (outcome_for u.id outcomes ≡ some o) × IsOutcomeOf base_sha u.id o))
    ⊎ ((u.status ≢ completed) × (is_interrupted u.status ≡ false))

not_completed : (s : TaskStatus) → is_completed s ≡ false → s ≢ completed
not_completed s h e = let tested = subst (λ x. is_completed x ≡ false) e h in cc

recover_task-IsRecovered :
    (base_sha : String) (outcomes : List (TaskId × WorkerOutcome)) (t u : Task)
    → recover_task base_sha outcomes t ≡ ok u
    → IsRecovered base_sha outcomes u
unfolding recover_task
recover_task-IsRecovered base_sha outcomes t u h = elim (Option-cases (outcome_for t.id outcomes)) [
  | inr (o, e) ↦
      let (fits, done) =
        >>-eq-ok
          (bail_if
            (not (o.task_id == t.id)
              || not (o.worktree.task_id == t.id)
              || not (o.worktree.base_sha == base_sha))
            provenance_mismatch)
          _ (rw (e, recover_task) at h) in
      let tests = bail_if-eq-ok _ _ fits in
      subst (IsRecovered base_sha outcomes) (ok_injective done) (
        inl (
          refl,
          (
            o,
            e,
            record {
              task = ==_sound o.task_id t.id (ground arith);
              worktree_task = ==_sound o.worktree.task_id t.id (ground arith);
              base = ==_sound o.worktree.base_sha base_sha (ground arith);
            },
          ),
        ))
  | inl missing ↦
      let (fits, done) =
        >>-eq-ok (bail_if (is_completed t.status) outcome_missing) _
          (rw (missing, recover_task) at h) in
      let unfinished = bail_if-eq-ok _ _ fits in
      subst (IsRecovered base_sha outcomes) (ok_injective done)
        (elim (Bool-cases (is_interrupted t.status)) [
          | inl again ↦ rw again (inr (λ e. cc, refl))
          | inr calm ↦ rw calm (inr (not_completed t.status unfinished, calm))
        ])
]

recover_tasks-IsRecovered :
    (base_sha : String) (outcomes : List (TaskId × WorkerOutcome)) (ts us : List Task)
    → recover_tasks base_sha outcomes ts ≡ ok us
    → All (IsRecovered base_sha outcomes) us
unfolding recover_tasks
recover_tasks-IsRecovered base_sha outcomes [] us h =
    subst (All (IsRecovered base_sha outcomes)) (ok_injective h) tt
recover_tasks-IsRecovered base_sha outcomes (t ∷ ts) us h =
    let (u, e, h1) = >>=-eq-ok (recover_task base_sha outcomes t) _ h in
    let (rest, e', h2) = >>=-eq-ok (recover_tasks base_sha outcomes ts) _ h1 in
    subst (All (IsRecovered base_sha outcomes)) (ok_injective h2) (
      recover_task-IsRecovered base_sha outcomes t u e,
      recover_tasks-IsRecovered base_sha outcomes ts rest e',
    )

graph_of-eq-ok : (g : Result DagError Dag) {dag : Dag} → graph_of g ≡ ok dag → g ≡ ok dag
graph_of-eq-ok (ok g) h = ap ok (ok_injective h)
graph_of-eq-ok (err e) h = cc

-- Of a graph that is recovered, every task is completed, with an outcome for it on the commit of the
-- plan, or is neither completed nor running nor under review.
pub recover-IsRecovered :
    (r : PlanRuntime) (tasks : List Task) (outcomes : List (TaskId × WorkerOutcome)) (dag : Dag)
    → recover r tasks outcomes ≡ ok dag
    → All (IsRecovered r.base_sha outcomes) dag.tasks
unfolding recover
recover-IsRecovered r tasks outcomes dag h =
    let (_, h1) = >>-eq-ok (bail_if (settings_invalid r) bad_settings) _ h in
    let (_, h2) =
      >>-eq-ok (bail_if (tasks_changed r (tasks_of_plan r tasks)) task_set_changed) _ h1 in
    let (us, e, h3) =
      >>=-eq-ok (recover_tasks r.base_sha outcomes (tasks_of_plan r tasks)) (λ x. graph_of (new x))
        h2 in
    let same = (new-IsBuilt us dag (graph_of-eq-ok (new us) h3)).same in
    subst (All (IsRecovered r.base_sha outcomes)) (sym same)
      (recover_tasks-IsRecovered r.base_sha outcomes (tasks_of_plan r tasks) us e)
