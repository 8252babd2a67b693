-- ===== src/Scheduler/Moves.antt =====
-- Writes into the graph: `Dag::transition`, and updates of one task in general.
use localoud_ai.Base.{
  ◌≡◌, refl, true, false, List, [], ◌∷◌, none, some, Option-cases, if◌then◌else◌, ◌==◌, nat_eq,
  ==_sound, ok, err, arith, ◌⊎◌, inl, inr,
}
use mathlib.Core.Option
use localoud_ai.Core.{TaskId, Task, TaskStatus, can_transition}
use localoud_ai.Scheduler.{
  Dag, DagError, ids, get_task, update_task, transition, with_status, unknown_task,
  invalid_transition,
}

-- A lookup after an update that keeps the identifier.
pub get_task-update_task :
    (id j : TaskId) (f : Task → Task) (tasks : List Task)
    → ((t : Task) → (f t).id ≡ t.id)
    → get_task j (update_task id f tasks)
      ≡ (if j == id then Option.map f (get_task j tasks) else get_task j tasks)
unfolding update_task
get_task-update_task id j f [] h = ground arith
get_task-update_task id j f (t ∷ ts) h = ground (arith, h t, get_task-update_task id j f ts h)

pub ids-update_task :
    (id : TaskId) (f : Task → Task) (tasks : List Task)
    → ((t : Task) → (f t).id ≡ t.id)
    → ids (update_task id f tasks) ≡ ids tasks
unfolding update_task
ids-update_task id f [] h = refl
ids-update_task id f (t ∷ ts) h = ground (arith, h t, ids-update_task id f ts h)

-- Where `Dag::transition` succeeds, the task was there and the status machine allows the move; the
-- task then has the new status and is otherwise as it was, and no other task has changed.
pub transition-get_task :
    (id : TaskId) (next : TaskStatus) (dag dag' : Dag)
    → transition id next dag ≡ ok dag'
    → (t : Task) × (get_task id dag.tasks ≡ some t)
      × (can_transition t.status next ≡ true)
      × ((j : TaskId)
          → get_task j dag'.tasks
            ≡ (if j == id then some (with_status next t) else get_task j dag.tasks))
unfolding transition
transition-get_task id next dag dag' h = elim (Option-cases (get_task id dag.tasks)) [
  | inl missing ↦ cc (rw (missing, transition) at h)
  | inr (t, found) ↦
      let h' = rw (found, transition) at h in
      (
        t,
        found,
        ground arith,
        λ j.
            ground (
              arith,
              get_task-update_task id j (with_status next) dag.tasks (λ u. refl),
              j_eq j id,
            ),
      )
]
  where
    j_eq : (j id : TaskId) → (j == id) ≡ true → j ≡ id
    j_eq j id e = ==_sound j id e

-- A status that `Dag::transition` may not take leaves an error that names both, or that the task is
-- not there; these are its only errors.
pub transition_errors :
    (id : TaskId) (next : TaskStatus) (dag : Dag) (e : DagError)
    → transition id next dag ≡ err e
    → ((get_task id dag.tasks ≡ none) × (e ≡ unknown_task))
      ⊎ ((t : Task) × (get_task id dag.tasks ≡ some t)
          × (can_transition t.status next ≡ false)
          × (e ≡ invalid_transition t.status next))
unfolding transition
transition_errors id next dag e h = elim (Option-cases (get_task id dag.tasks)) [
  | inl missing ↦ inl (missing, cc (rw (missing, transition) at h))
  | inr (t, found) ↦
      let h' = rw (found, transition) at h in inr (t, found, ground arith, ground arith)
]
