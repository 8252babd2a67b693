-- ===== src/Scheduler/Refresh/Blocked.antt =====
-- The tasks that `Dag::refresh` blocks (crates/hub-scheduler/src/lib.rs).
use localoud_ai.Base.{
  ◌≡◌, ◌↔◌, refl, sym, subst, ◌⊎◌, inl, inr, Bool, true, false, Bool-cases, List, [], ◌∷◌, ok,
  >>=-eq-ok, Result-cases, nat_eq, In, arith,
}
use localoud_ai.Core.{TaskId, Task, TaskStatus, blocked, failed, ready, cancelled, is_completed}
use localoud_ai.Scheduler.{status_of, any_status, all_status, is_stopped, is_waiting, refresh_task}
use localoud_ai.Scheduler.Refresh.{AllCompleted, all_status_iff}

abbrev pub IsStopped : List Task → TaskId → Type 0
IsStopped tasks d = (status_of tasks d ≡ ok failed) ⊎ (status_of tasks d ≡ ok cancelled)

abbrev pub SomeStopped : List Task → List TaskId → Type 0
SomeStopped tasks ds = (d : TaskId) × In d ds × IsStopped tasks d

status-IsStopped :
    (tasks : List Task) (d : TaskId) (s : TaskStatus)
    → status_of tasks d ≡ ok s
    → (is_stopped s ≡ true) ↔ IsStopped tasks d
status-IsStopped tasks d failed found = (λ _. inl found, λ _. refl)
status-IsStopped tasks d cancelled found = (λ _. inr found, λ _. refl)
status-IsStopped tasks d _ found =
    (λ h. cc, λ h. elim h [ inl e ↦ cc (found, e) | inr e ↦ cc (found, e) ])

any_stopped_iff :
    (tasks : List Task) (ds : List TaskId) (b : Bool)
    → any_status is_stopped tasks ds ≡ ok b
    → (b ≡ true) ↔ SomeStopped tasks ds
unfolding any_status
any_stopped_iff tasks [] b h = (λ e. cc, λ (d, m, q). absurd m)
any_stopped_iff tasks (d ∷ ds) b h =
    let (s, found, h') = >>=-eq-ok (status_of tasks d) _ h in
    elim (Bool-cases (is_stopped s)) [
      | inl stopped ↦
          (λ e. (d, inl refl, (status-IsStopped tasks d s found).0 stopped), λ q. ground arith)
      | inr other ↦
          let later : any_status is_stopped tasks ds ≡ ok b = ground arith in
          let ih = any_stopped_iff tasks ds b later in
          (
            λ e. let (x, m, q) = ih.0 e in (x, inr m, q),
            λ (x, m, q). elim m [
              | inl e ↦
                  cc (
                    other,
                    (status-IsStopped tasks d s found).1 (subst (IsStopped tasks) (sym e) q),
                  )
              | inr m' ↦ ih.1 (x, m', q)
            ],
          )
    ]

-- What a refresh reads of the dependencies of a waiting task, and what it makes of it.
data Outcome (tasks : List Task) (t u : Task) : Type 0 where
  stopped :
      any_status is_stopped tasks t.dependencies ≡ ok true → u.status ≡ blocked → Outcome tasks t u
  finished :
      any_status is_stopped tasks t.dependencies ≡ ok false
      → all_status is_completed tasks t.dependencies ≡ ok true
      → u.status ≡ ready
      → Outcome tasks t u
  waits :
      any_status is_stopped tasks t.dependencies ≡ ok false
      → all_status is_completed tasks t.dependencies ≡ ok false
      → u.status ≡ t.status
      → Outcome tasks t u

outcome :
    (tasks : List Task) (t u : Task)
    → refresh_task tasks t ≡ ok u
    → is_waiting t.status ≡ true
    → Outcome tasks t u
unfolding refresh_task
outcome tasks t u h w = elim (Result-cases (any_status is_stopped tasks t.dependencies)) [
  | inl (true, e) ↦ stopped e (ground arith)
  | inl (false, e) ↦ elim (Result-cases (all_status is_completed tasks t.dependencies)) [
    | inl (true, e') ↦ finished e e' (ground arith)
    | inl (false, e') ↦ waits e e' (ground arith)
    | inr (x, e') ↦ absurd (ground arith)
  ]
  | inr (x, e) ↦ absurd (ground arith)
]

-- A waiting task is blocked after a refresh of it that succeeds exactly if one of its dependencies
-- failed or was cancelled, or if it was blocked before and not all of its dependencies are completed.
pub refresh_task-blocked_iff :
    (tasks : List Task) (t u : Task)
    → refresh_task tasks t ≡ ok u
    → is_waiting t.status ≡ true
    → (u.status ≡ blocked) ↔ (
        SomeStopped tasks t.dependencies
        ⊎ ((t.status ≡ blocked) × (¬ AllCompleted tasks t.dependencies)))
refresh_task-blocked_iff tasks t u h w = elim (outcome tasks t u h w) [
  | stopped e is_blocked ↦
      (λ _. inl ((any_stopped_iff tasks t.dependencies true e).0 refl), λ _. is_blocked)
  | finished e e' is_ready ↦ (
    λ b. cc (is_ready, b),
    λ q. elim q [
      | inl some_stopped ↦ cc ((any_stopped_iff tasks t.dependencies false e).1 some_stopped)
      | inr (_, unfinished) ↦ absurd (unfinished ((all_status_iff tasks t.dependencies).0 e'))
    ],
  )
  | waits e e' same ↦ (
    λ b. inr (cc (same, b), λ all_done. cc (e', (all_status_iff tasks t.dependencies).1 all_done)),
    λ q. elim q [
      | inl some_stopped ↦ cc ((any_stopped_iff tasks t.dependencies false e).1 some_stopped)
      | inr (was, _) ↦ cc (same, was)
    ],
  )
]
