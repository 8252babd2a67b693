-- ===== src/Scheduler/Execute/Keep.antt =====
-- The writes of `execute` to the graph, and the completed tasks and dependencies in it.
use localoud_ai.Base.{
  Result, ◌⊎◌, ◌≡◌, ◌≢◌, refl, sym, subst, ◌∙◌, Bool, true, false, List, [], ◌∷◌, none, some,
  Option-cases, Bool-cases, ◌==◌, nat_eq, ==_sound, ok, err, >>=-eq-ok, ok_injective, All_map,
  arith, inl, inr,
}
use localoud_ai.Core.{
  TaskId, Task, TaskStatus, ready, running, reviewing, completed, can_transition,
}
use localoud_ai.Scheduler.{
  Dag, DagError, get_task, status_of, update_task, transition, with_status, refresh, refresh_task,
  refresh_tasks, is_waiting,
}
use localoud_ai.Scheduler.Refresh.{
  AllCompleted, SameTests, refresh_task-ready_iff, refresh_task-same, refresh_tasks-same,
}
use localoud_ai.Scheduler.Moves.{get_task-update_task, transition-get_task}
use localoud_ai.Scheduler.Execute.{count_attempt}

abbrev pub Keeps : List Task → List Task → Type 0
Keeps ts us = (d : TaskId) → status_of ts d ≡ ok completed → status_of us d ≡ ok completed

abbrev pub is_active : TaskStatus → Bool
is_active ready = true
is_active running = true
is_active reviewing = true
is_active _ = false

abbrev pub ActiveBacked : List Task → Type 0
ActiveBacked tasks =
    (j : TaskId) (t : Task)
    → get_task j tasks ≡ some t
    → is_active t.status ≡ true
    → AllCompleted tasks t.dependencies

pub AllCompleted-Keeps :
    (ts us : List Task) (ds : List TaskId) → Keeps ts us → AllCompleted ts ds → AllCompleted us ds
AllCompleted-Keeps ts us ds k = All_map ds k

pub status_of-get :
    (ts : List Task) (d : TaskId)
    → status_of ts d ≡ ok completed
    → (t : Task) × (get_task d ts ≡ some t) × (t.status ≡ completed)
unfolding status_of
status_of-get ts d h = elim (Option-cases (get_task d ts)) [
  | inl missing ↦ cc (rw (missing, status_of) at h)
  | inr (t, found) ↦ (t, found, ok_injective (rw (found, status_of) at h))
]

pub get-status_of :
    (ts : List Task) (d : TaskId) (t : Task)
    → get_task d ts ≡ some t
    → t.status ≡ completed
    → status_of ts d ≡ ok completed
unfolding status_of
get-status_of ts d t found e = rw (found, status_of) (ground arith)

never : (next : TaskStatus) → can_transition completed next ≡ false
unfolding can_transition
never next = refl

pub transition-Keeps :
    (id : TaskId) (next : TaskStatus) (dag dag' : Dag)
    → transition id next dag ≡ ok dag'
    → Keeps dag.tasks dag'.tasks
unfolding can_transition
transition-Keeps id next dag dag' h d done =
    let (t, found, allowed, after) = transition-get_task id next dag dag' h in
    let (u, found_u, e) = status_of-get dag.tasks d done in
    elim (Bool-cases (d == id)) [
      | inl same ↦
          let d_id = ==_sound d id same in
          let same_task : u ≡ t = ground arith in
          let finished : t.status ≡ completed = ground arith in
          cc (never next, rw finished at allowed)
      | inr other ↦ get-status_of dag'.tasks d u (after d ∙ rw other found_u) e
    ]

pub transition-ActiveBacked :
    (id : TaskId) (next : TaskStatus) (dag dag' : Dag)
    → next ≢ ready
    → transition id next dag ≡ ok dag'
    → ActiveBacked dag.tasks
    → ActiveBacked dag'.tasks
unfolding can_transition
transition-ActiveBacked id next dag dag' not_ready h backed j u found_u active =
    let (t, found, allowed, after) = transition-get_task id next dag dag' h in
    let keeps = transition-Keeps id next dag dag' h in
    elim (Bool-cases (j == id)) [
      | inl same ↦
          let e : with_status next t ≡ u = ground (arith, after j) in
          AllCompleted-Keeps dag.tasks dag'.tasks u.dependencies keeps (
            rw (← e)
              (backed id t found (was_active t.status next not_ready allowed (rw (← e) at active))))
      | inr other ↦
          AllCompleted-Keeps dag.tasks dag'.tasks u.dependencies keeps
            (backed j u (ground (arith, after j)) active)
    ]
  where
    was_active :
        (s next : TaskStatus)
        → next ≢ ready
        → can_transition s next ≡ true
        → is_active next ≡ true
        → is_active s ≡ true
    was_active s next n a b = ground arith

same_completed : (r : Result DagError TaskStatus) → SameTests (ok completed) r → r ≡ ok completed
same_completed (ok completed) h = refl
same_completed (ok _) h = cc (h.1)
same_completed (err e) h = absurd h

pub refresh-Keeps : (dag dag' : Dag) → refresh dag ≡ ok dag' → Keeps dag.tasks dag'.tasks
unfolding refresh
refresh-Keeps dag dag' h d done =
    let (us, e, h') = >>=-eq-ok (refresh_tasks dag.tasks dag.tasks) _ h in
    let same = refresh_tasks-same dag.tasks dag.tasks us d e in
    rw (← ok_injective h') (same_completed (status_of us d) (rw done at same))

pub count_attempt-Keeps :
    (id : TaskId) (tasks : List Task) → Keeps tasks (update_task id count_attempt tasks)
unfolding count_attempt
count_attempt-Keeps id tasks d done =
    let (t, found, e) = status_of-get tasks d done in
    let after = get_task-update_task id d count_attempt tasks (λ u. refl) in
    elim (Bool-cases (d == id)) [
      | inl same ↦ get-status_of _ d (count_attempt t) (ground arith) e
      | inr other ↦ get-status_of _ d t (ground arith) e
    ]

pub count_attempt-ActiveBacked :
    (id : TaskId) (tasks : List Task)
    → ActiveBacked tasks
    → ActiveBacked (update_task id count_attempt tasks)
unfolding count_attempt
count_attempt-ActiveBacked id tasks backed j u found active =
    let keeps = count_attempt-Keeps id tasks in
    let after = get_task-update_task id j count_attempt tasks (λ u. refl) in
    elim (Option-cases (get_task j tasks)) [
      | inl missing ↦ absurd (ground arith)
      | inr (t, was) ↦
          let same : (u.status ≡ t.status) × (u.dependencies ≡ t.dependencies) = ground arith in
          AllCompleted-Keeps tasks _ u.dependencies keeps
            (rw same.1 (backed j t was (ground arith)))
    ]

refresh_tasks-get :
    (snapshot ts us : List Task) (j : TaskId) (u : Task)
    → refresh_tasks snapshot ts ≡ ok us
    → get_task j us ≡ some u
    → (t : Task) × (get_task j ts ≡ some t) × (refresh_task snapshot t ≡ ok u)
unfolding refresh_tasks
refresh_tasks-get snapshot [] us j u h found =
    let e = ok_injective h in let none_there : get_task j us ≡ none = rw (← e) refl in cc
refresh_tasks-get snapshot (t ∷ ts) us j u h found =
    let (t', e, h') = >>=-eq-ok (refresh_task snapshot t) _ h in
    let (us', e', h'') = >>=-eq-ok (refresh_tasks snapshot ts) _ h' in
    let found' : get_task j (t' ∷ us') ≡ some u =
      subst (λ l. get_task j l ≡ some u) (sym (ok_injective h'')) found in
    let same = (refresh_task-same snapshot t t' e).0 in
    elim (Bool-cases (t.id == j)) [
      | inl here ↦ (t, rw here refl, rw e (ground arith))
      | inr there ↦
          let (x, was, moved) = refresh_tasks-get snapshot ts us' j u e' (ground arith) in
          (x, rw there was, moved)
    ]

refresh_task-active :
    (snapshot : List Task) (t u : Task)
    → refresh_task snapshot t ≡ ok u
    → is_active u.status ≡ true
    → (u ≡ t) ⊎ ((is_waiting t.status ≡ true) × (u.status ≡ ready))
unfolding refresh_task
refresh_task-active snapshot t u h active = ground arith

pub refresh-ActiveBacked :
    (dag dag' : Dag) → refresh dag ≡ ok dag' → ActiveBacked dag.tasks → ActiveBacked dag'.tasks
unfolding refresh
refresh-ActiveBacked dag dag' h backed j u found active =
    let (us, e, h') = >>=-eq-ok (refresh_tasks dag.tasks dag.tasks) _ h in
    let found' : get_task j us ≡ some u = rw (← ok_injective h') at found in
    let (t, was, moved) = refresh_tasks-get dag.tasks dag.tasks us j u e found' in
    let same = (refresh_task-same dag.tasks t u moved).1 in
    AllCompleted-Keeps dag.tasks dag'.tasks u.dependencies (refresh-Keeps dag dag' h)
      (elim (refresh_task-active dag.tasks t u moved active) [
        | inl kept ↦ rw kept (backed j t was (rw (← kept) active))
        | inr (waiting, now_ready) ↦
            rw same ((refresh_task-ready_iff dag.tasks t u moved waiting).0 now_ready)
      ])
