-- ===== src/Scheduler/Acyclic.antt =====
-- `Dag::new` and its cycle check: which lists of tasks it accepts, and the `while` loop it ends with.
mod Order
mod Rounds
pub use Order.{IsRanked}
use Order.{index, OrderedBy}
use Rounds.{rounds_sound, rounds-ne-out_of_fuel, rounds-ne-cycle, Counted-nil, rounds_cases}
use localoud_ai.Base.{
  Distinct, ℕ, suc, ◌<◌, ◌≡◌, ◌≢◌, refl, sym, List, [], ◌∷◌, ok, err, length, All, All_at, All_of,
  All_map, ◌∙◌, In, count_if, arith, bail_if, ◌>>=◌, ◌>>◌, Result-cases, inl, inr, ◌↔◌,
}
use localoud_ai.Core.{ProjectId, TaskId, Task}
use localoud_ai.Scheduler.{
  Dag, DagError, new, rounds, ids, collect, check_tasks, dependency_cycle, out_of_fuel,
  duplicate_task, crosses_projects, invalid_dependency,
}
use localoud_ai.Scheduler.Build.{new-IsBuilt, IsPlanned, new_of_planned, new-out_of_fuel}

-- An accepted plan has no cycle: its tasks can be ranked so that every task of it comes after all
-- of its dependencies.
pub new-IsRanked :
    (given : List Task) (dag : Dag)
    → new given ≡ ok dag
    → (rank : TaskId → ℕ) × IsRanked rank dag.tasks
new-IsRanked given dag h =
    let built = new-IsBuilt given dag h in
    let (final, ordered, complete) =
      rounds_sound given built.distinct (suc (length given)) [] (λ t m k. absurd k)
        (Counted-nil given built.distinct) built.passed in
    (
      index final,
      rw built.same (All_of _ given (λ t m. All_of _ t.dependencies (ordered t m (complete t m)))),
    )

-- A plan: at least one task, distinct identifiers, one project, dependencies that name other tasks
-- of the plan and each at most once, and a ranking of the tasks above their dependencies.
pub record IsPlan (tasks : List Task) : Type 0 where
  pub nonempty : tasks ≢ []
  pub distinct : Distinct (ids tasks)
  pub project : ProjectId
  pub planned : All (IsPlanned project (ids tasks)) tasks
  pub rank : TaskId → ℕ
  pub ranked : IsRanked rank tasks

plan_accepted : (tasks : List Task) → IsPlan tasks → new tasks ≡ ok (record { tasks = tasks })
plan_accepted [] p = absurd (p.nonempty refl)
plan_accepted (t ∷ ts) p =
    let tasks = t ∷ ts in
    let counted = Counted-nil tasks p.distinct in
    let closed = λ (u : Task) (m : In u tasks) (d : TaskId) (dep : In d u.dependencies).
      All_at _ d u.dependencies (All_at _ u tasks p.planned m).1.planned dep in
    let fuel = suc (length tasks) in
    new_of_planned t ts p.distinct
      (All_map tasks (λ u (same, sound). (same ∙ sym p.planned.0.0, sound)) p.planned)
      (elim (rounds_cases tasks p.distinct fuel []) [
        | inl passed ↦ passed
        | inr (inl cycle) ↦
            absurd (rounds-ne-cycle tasks p.distinct p.rank p.ranked closed fuel [] counted cycle)
        | inr (inr out) ↦
            absurd (rounds-ne-out_of_fuel tasks p.distinct fuel [] counted (omega arith) out)
      ])

new-nonempty : (given : List Task) {dag : Dag} → new given ≡ ok dag → given ≢ []
unfolding new
new-nonempty [] h e = cc
new-nonempty (t ∷ ts) h e = cc

-- `Dag::new` accepts exactly the plans, and keeps their tasks as they are.
pub new_iff : (given : List Task) → (new given ≡ ok (record { tasks = given })) ↔ IsPlan given
new_iff given = (
  λ h.
      let built = new-IsBuilt given (record { tasks = given }) h in
      let (rank, ranked) = new-IsRanked given (record { tasks = given }) h in
      record {
        nonempty = new-nonempty given h;
        distinct = built.distinct;
        project = built.project;
        planned = built.planned;
        rank = rank;
        ranked = ranked;
      },
  plan_accepted given,
)

-- Whatever it is given, `Dag::new` ends with an answer of the code: its loop ends by itself.
pub new-ne-out_of_fuel : (given : List Task) → new given ≢ err out_of_fuel
new-ne-out_of_fuel given h =
    let (distinct, out) = new-out_of_fuel given h in
    rounds-ne-out_of_fuel given distinct (suc (length given)) [] (Counted-nil given distinct)
      (omega arith) out
