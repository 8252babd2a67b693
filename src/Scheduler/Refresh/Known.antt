-- ===== src/Scheduler/Refresh/Known.antt =====
-- `Dag::refresh` (crates/hub-scheduler/src/lib.rs) where every dependency names a task of the graph.
use localoud_ai.Base.{
  Result-cases, ok_injective, ◌≡◌, refl, sym, subst, inl, inr, Bool, true, false, List, [], ◌∷◌,
  some, ok, >>=-eq-ok, nat_eq, In, All, arith, ◌==◌, ==_refl, Bool-cases,
}
use localoud_ai.Core.{TaskId, Task, TaskStatus, is_completed}
use localoud_ai.Scheduler.{
  Dag, ids, get_task, status_of, any_status, all_status, is_stopped, update_task, refresh_task,
  refresh_tasks, refresh,
}
use localoud_ai.Scheduler.Refresh.{refresh_task-same}

-- Every dependency is the identifier of a task.
abbrev pub IsClosed : List Task → Type 0
IsClosed tasks = All (λ (t : Task). All (λ d. In d (ids tasks)) t.dependencies) tasks

pub get_task-known :
    (d : TaskId) (tasks : List Task) → In d (ids tasks) → (t : Task) × (get_task d tasks ≡ some t)
get_task-known d [] m = absurd m
get_task-known d (t ∷ ts) m = elim (Bool-cases (t.id == d)) [
  | inl here ↦ (t, rw here refl)
  | inr there ↦ elim m [
    | inl e ↦ cc (there, subst (λ x. (x == d) ≡ true) (sym e) (==_refl d))
    | inr m' ↦ let (u, found) = get_task-known d ts m' in (u, rw there found)
  ]
]

status_of-known :
    (tasks : List Task) (d : TaskId)
    → In d (ids tasks)
    → (s : TaskStatus) × (status_of tasks d ≡ ok s)
unfolding status_of
status_of-known tasks d m =
    let (t, found) = get_task-known d tasks m in (t.status, rw (found, status_of) refl)

any_status-known :
    (p : TaskStatus → Bool) (tasks : List Task) (ds : List TaskId)
    → All (λ d. In d (ids tasks)) ds
    → (b : Bool) × (any_status p tasks ds ≡ ok b)
unfolding any_status
any_status-known p tasks [] known = (false, refl)
any_status-known p tasks (d ∷ ds) (m, known) =
    let (s, found) = status_of-known tasks d m in
    let (b, rest) = any_status-known p tasks ds known in
    elim (Bool-cases (p s)) [
      | inl passes ↦ (true, rw (found, passes) refl)
      | inr fails ↦ (b, rw (found, fails) rest)
    ]

all_status-known :
    (p : TaskStatus → Bool) (tasks : List Task) (ds : List TaskId)
    → All (λ d. In d (ids tasks)) ds
    → (b : Bool) × (all_status p tasks ds ≡ ok b)
unfolding all_status
all_status-known p tasks [] known = (true, refl)
all_status-known p tasks (d ∷ ds) (m, known) =
    let (s, found) = status_of-known tasks d m in
    let (b, rest) = all_status-known p tasks ds known in
    elim (Bool-cases (p s)) [
      | inl passes ↦ (b, rw (found, passes) rest)
      | inr fails ↦ (false, rw (found, fails) refl)
    ]

refresh_task-known :
    (tasks : List Task) (t : Task)
    → All (λ d. In d (ids tasks)) t.dependencies
    → (u : Task) × (refresh_task tasks t ≡ ok u)
unfolding refresh_task
refresh_task-known tasks t known =
    let (b, stopped) = any_status-known is_stopped tasks t.dependencies known in
    let (c, finished) = all_status-known is_completed tasks t.dependencies known in
    elim (Result-cases (refresh_task tasks t)) [
      | inl answer ↦ answer
      | inr (e, h) ↦ absurd (ground arith)
    ]

refresh_tasks-known :
    (snapshot ts : List Task)
    → All (λ (t : Task). All (λ d. In d (ids snapshot)) t.dependencies) ts
    → (us : List Task) × (refresh_tasks snapshot ts ≡ ok us)
unfolding refresh_tasks
refresh_tasks-known snapshot [] known = ([], refl)
refresh_tasks-known snapshot (t ∷ ts) (k, known) =
    let (u, e) = refresh_task-known snapshot t k in
    let (us, e') = refresh_tasks-known snapshot ts known in (u ∷ us, rw (e, e') refl)

-- Two graphs with the same identifiers and dependencies, task by task.
abbrev pub SameLinks : List Task → List Task → Type 0
SameLinks [] [] = Unit
SameLinks (t ∷ ts) (u ∷ us) = (u.id ≡ t.id) × (u.dependencies ≡ t.dependencies) × SameLinks ts us
SameLinks _ _ = ⊥

ids-SameLinks : (ts us : List Task) → SameLinks ts us → ids us ≡ ids ts
ids-SameLinks [] [] same = refl
ids-SameLinks [] (u ∷ us) same = absurd same
ids-SameLinks (t ∷ ts) [] same = absurd same
ids-SameLinks (t ∷ ts) (u ∷ us) (id, _, same) = rw (id, ids-SameLinks ts us same) refl

all-SameLinks :
    (P : List TaskId → Type 0) (ts us : List Task)
    → SameLinks ts us
    → All (λ (t : Task). P t.dependencies) ts
    → All (λ (t : Task). P t.dependencies) us
all-SameLinks P [] [] same a = tt
all-SameLinks P [] (u ∷ us) same a = absurd same
all-SameLinks P (t ∷ ts) [] same a = absurd same
all-SameLinks P (t ∷ ts) (u ∷ us) (_, deps, same) (x, a) =
    (subst P (sym deps) x, all-SameLinks P ts us same a)

pub IsClosed-SameLinks : (ts us : List Task) → SameLinks ts us → IsClosed ts → IsClosed us
IsClosed-SameLinks ts us same closed =
    let moved = all-SameLinks (λ ds. All (λ d. In d (ids ts)) ds) ts us same closed in
    subst (λ l. All (λ (t : Task). All (λ d. In d l) t.dependencies) us)
      (sym (ids-SameLinks ts us same)) moved

pub refl-SameLinks : (ts : List Task) → SameLinks ts ts
refl-SameLinks [] = tt
refl-SameLinks (t ∷ ts) = (refl, refl, refl-SameLinks ts)

pub update_task-SameLinks :
    (id : TaskId) (f : Task → Task) (tasks : List Task)
    → ((t : Task) → (f t).id ≡ t.id)
    → ((t : Task) → (f t).dependencies ≡ t.dependencies)
    → SameLinks tasks (update_task id f tasks)
unfolding update_task
update_task-SameLinks id f [] i d = tt
update_task-SameLinks id f (t ∷ ts) i d = elim (Bool-cases (t.id == id)) [
  | inl here ↦ rw here (i t, d t, refl-SameLinks ts)
  | inr there ↦ rw there (refl, refl, update_task-SameLinks id f ts i d)
]

refresh_tasks-SameLinks :
    (snapshot ts us : List Task) → refresh_tasks snapshot ts ≡ ok us → SameLinks ts us
unfolding refresh_tasks
refresh_tasks-SameLinks snapshot [] us h = rw (← ok_injective h) tt
refresh_tasks-SameLinks snapshot (t ∷ ts) us h =
    let (u, e, h') = >>=-eq-ok (refresh_task snapshot t) _ h in
    let (us', e', h'') = >>=-eq-ok (refresh_tasks snapshot ts) _ h' in
    let (id, deps, _, _) = refresh_task-same snapshot t u e in
    subst (SameLinks (t ∷ ts)) (ok_injective h'')
      (id, deps, refresh_tasks-SameLinks snapshot ts us' e')

pub refresh-IsClosed :
    (dag dag' : Dag) → refresh dag ≡ ok dag' → IsClosed dag.tasks → IsClosed dag'.tasks
unfolding refresh
refresh-IsClosed dag dag' h closed =
    let (us, e, h') = >>=-eq-ok (refresh_tasks dag.tasks dag.tasks) _ h in
    rw (← ok_injective h')
      (IsClosed-SameLinks dag.tasks us (refresh_tasks-SameLinks dag.tasks dag.tasks us e) closed)

-- Where every dependency names a task, a refresh succeeds: it reads the status of no task that is
-- not there.
pub refresh_closed : (dag : Dag) → IsClosed dag.tasks → (dag' : Dag) × (refresh dag ≡ ok dag')
unfolding refresh
refresh_closed dag closed =
    let (us, e) = refresh_tasks-known dag.tasks dag.tasks closed in
    (record { tasks = us }, rw e refl)
