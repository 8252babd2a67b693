-- ===== src/Scheduler/Refresh.antt =====
-- `Dag::refresh` of crates/hub-scheduler/src/lib.rs: the task that it makes ready, the statuses that it
-- moves between, and a second call.
pub mod Blocked
pub mod Known
use localoud_ai.Base.{
  Result, ok_injective, ◌≡◌, ◌↔◌, refl, ◌⊎◌, inl, inr, true, false, List, [], ◌∷◌, ok, err,
  >>=-eq-ok, Result-cases, nat_eq, All, arith,
}
use localoud_ai.Core.{TaskId, Task, TaskStatus, ready, completed, can_transition, is_completed}
use localoud_ai.Scheduler.{
  Dag, DagError, status_of, any_status, all_status, is_stopped, is_waiting, with_status,
  refresh_task, refresh_tasks, refresh,
}

abbrev pub AllCompleted : List Task → List TaskId → Type 0
AllCompleted tasks ds = All (λ d. status_of tasks d ≡ ok completed) ds

pub all_status_iff :
    (tasks : List Task) (ds : List TaskId)
    → (all_status is_completed tasks ds ≡ ok true) ↔ AllCompleted tasks ds
unfolding all_status
all_status_iff tasks [] = (λ _. tt, λ _. refl)
all_status_iff tasks (d ∷ ds) = elim (Result-cases (status_of tasks d)) [
  | inl (completed, found) ↦ (
    λ h. (found, (all_status_iff tasks ds).0 (rw found at h)),
    λ h. rw found ((all_status_iff tasks ds).1 h.1),
  )
  | inl (_, found) ↦ (λ h. cc (rw found at h), λ h. cc (h.0))
  | inr (e, missing) ↦ (λ h. cc (rw missing at h), λ h. cc (h.0))
]

pub not_stopped :
    (tasks : List Task) (ds : List TaskId)
    → AllCompleted tasks ds
    → any_status is_stopped tasks ds ≡ ok false
unfolding any_status
not_stopped tasks [] h = refl
not_stopped tasks (d ∷ ds) (found, h) = rw found (not_stopped tasks ds h)

-- A waiting task becomes ready exactly if all of its dependencies are completed.
pub refresh_task-ready_iff :
    (tasks : List Task) (t u : Task)
    → refresh_task tasks t ≡ ok u
    → is_waiting t.status ≡ true
    → (u.status ≡ ready) ↔ All (λ d. status_of tasks d ≡ ok completed) t.dependencies
unfolding refresh_task
refresh_task-ready_iff tasks t u h w = (
  λ e. (all_status_iff tasks t.dependencies).0 (ground arith),
  λ a.
      let none_stopped = not_stopped tasks t.dependencies a in
      let all_done = (all_status_iff tasks t.dependencies).1 a in ground arith,
)

-- A change that `refresh` makes is one that `can_transition` allows, and is to the status alone.
pub refresh_task_moves :
    (tasks : List Task) (t u : Task)
    → refresh_task tasks t ≡ ok u
    → (u ≡ t) ⊎ ((u ≡ with_status u.status t) × (can_transition t.status u.status ≡ true))
unfolding refresh_task can_transition
refresh_task_moves tasks t u h = ground arith

-- What a refresh leaves as it was: every test that it makes of a status.
abbrev pub SameTests : Result DagError TaskStatus → Result DagError TaskStatus → Type 0
SameTests (ok s) (ok s') = (is_stopped s ≡ is_stopped s') × (is_completed s ≡ is_completed s')
SameTests (err e) (err e') = e ≡ e'
SameTests _ _ = ⊥

pub refresh_task-same :
    (tasks : List Task) (t u : Task)
    → refresh_task tasks t ≡ ok u
    → (u.id ≡ t.id)
      × (u.dependencies ≡ t.dependencies)
      × (is_stopped t.status ≡ is_stopped u.status)
      × (is_completed t.status ≡ is_completed u.status)
unfolding refresh_task
refresh_task-same tasks t u h = ground arith

pub refresh_tasks-same :
    (snapshot ts us : List Task) (d : TaskId)
    → refresh_tasks snapshot ts ≡ ok us
    → SameTests (status_of ts d) (status_of us d)
unfolding refresh_tasks status_of
refresh_tasks-same snapshot [] us d h = rw (← ok_injective h) refl
refresh_tasks-same snapshot (t ∷ ts) us d h =
    let (u, e, h') = >>=-eq-ok (refresh_task snapshot t) _ h in
    let (us', e', h'') = >>=-eq-ok (refresh_tasks snapshot ts) _ h' in
    let same = refresh_task-same snapshot t u e in
    rw (← ok_injective h'') (ground (arith, refresh_tasks-same snapshot ts us' d e'))

any_status-same :
    (ts us : List Task) (ds : List TaskId)
    → ((d : TaskId) → SameTests (status_of ts d) (status_of us d))
    → any_status is_stopped us ds ≡ any_status is_stopped ts ds
unfolding any_status
any_status-same ts us [] h = refl
any_status-same ts us (d ∷ ds) h = ground (arith, h d, any_status-same ts us ds h)

all_status-same :
    (ts us : List Task) (ds : List TaskId)
    → ((d : TaskId) → SameTests (status_of ts d) (status_of us d))
    → all_status is_completed us ds ≡ all_status is_completed ts ds
unfolding all_status
all_status-same ts us [] h = refl
all_status-same ts us (d ∷ ds) h = ground (arith, h d, all_status-same ts us ds h)

refresh_task-again :
    (ts us : List Task) (t u : Task)
    → ((d : TaskId) → SameTests (status_of ts d) (status_of us d))
    → refresh_task ts t ≡ ok u
    → refresh_task us u ≡ ok u
unfolding refresh_task
refresh_task-again ts us t u same h =
    ground
      (arith, any_status-same ts us t.dependencies same, all_status-same ts us t.dependencies same)

refresh_tasks-again :
    (snapshot final ts us : List Task)
    → ((d : TaskId) → SameTests (status_of snapshot d) (status_of final d))
    → refresh_tasks snapshot ts ≡ ok us
    → refresh_tasks final us ≡ ok us
unfolding refresh_tasks
refresh_tasks-again snapshot final [] us same h = rw (← ok_injective h) refl
refresh_tasks-again snapshot final (t ∷ ts) us same h =
    let (u, e, h') = >>=-eq-ok (refresh_task snapshot t) _ h in
    let (us', e', h'') = >>=-eq-ok (refresh_tasks snapshot ts) _ h' in
    rw
      (
        ← ok_injective h'',
        refresh_task-again snapshot final t u same e,
        refresh_tasks-again snapshot final ts us' same e',
      )
      refl

-- After a refresh that succeeds, a second one succeeds and changes nothing.
pub refresh_idempotent : (dag dag' : Dag) → refresh dag ≡ ok dag' → refresh dag' ≡ ok dag'
unfolding refresh
refresh_idempotent dag dag' h =
    let (us, e, h') = >>=-eq-ok (refresh_tasks dag.tasks dag.tasks) _ h in
    rw (← ok_injective h') (
      rw
        (refresh_tasks-again dag.tasks us dag.tasks us
          (λ d. refresh_tasks-same dag.tasks dag.tasks us d e) e)
        refl)
