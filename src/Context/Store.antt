-- ===== src/Context/Store.antt =====
-- The rows of crates/hub-db/src/lib.rs on the context of tasks. Each operation is one statement or
-- one transaction, except that `save_capsule` is one step here, where the code inserts the capsule and
-- its items one after the other. A fresh identifier is taken to be new, and the disk not to fail.
use localoud_ai.Base.{
  ℕ, ◌+◌, List, [], ◌∷◌, ◌++◌, Option, none, some, ◌||◌, ltb, ◌==◌, nat_eq, keep, find, Result, ok,
  err, ◌>>◌, bail_if,
}
use localoud_ai.Core.{TaskId, ContextCapsule, ContextRetrieval}
use localoud_ai.Context.{ContextError, capsule_exists, no_capsule_row, retrieval_exhausted}

-- `context_capsules`, each with its `initial_tokens`, and `context_retrievals` in the order of rowid.
pub record Rows : Type 0 where
  pub capsules : List (ContextCapsule × ℕ)
  pub retrieved : List ContextRetrieval

-- `capsule`
unfoldable pub capsule : TaskId → Rows → Option (ContextCapsule × ℕ)
capsule task rows = find (λ c. c.0.task_id == task) rows.capsules

-- `save_capsule`: the table has one row for a task.
unfoldable pub save_capsule : ContextCapsule → ℕ → Rows → Result ContextError Rows
unfolding capsule
save_capsule c initial rows = elim (capsule c.task_id rows) [
  | some old ↦ err capsule_exists
  | none ↦ ok (record rows { capsules = rows.capsules ++ (c, initial) ∷ [] })
]

-- `retrievals`
unfoldable pub retrievals : TaskId → Rows → List ContextRetrieval
retrievals task rows = keep (λ r. r.task_id == task) rows.retrieved

unfoldable pub total : List ContextRetrieval → ℕ
total [] = 0
total (r ∷ rs) = r.token_estimate + total rs

-- `record_retrieval_denial`: the estimate is stored as 0.
unfoldable pub record_retrieval_denial : ContextRetrieval → Rows → Rows
record_retrieval_denial r rows = record rows {
  retrieved = rows.retrieved ++ record r { token_estimate = 0 } ∷ [];
}

-- `commit_retrieval`
unfoldable pub commit_retrieval : ContextRetrieval → Rows → Result ContextError Rows
unfolding retrievals capsule total
commit_retrieval r rows = elim (capsule r.task_id rows) [
  | none ↦ err no_capsule_row
  | some found ↦
      let c = found.0 in
      bail_if
        (ltb c.budget.max_single_retrieval_tokens r.token_budget
          || ltb r.token_budget r.token_estimate
          || ltb c.budget.max_total_tokens
              (found.1 + total (retrievals r.task_id rows) + r.token_estimate))
        retrieval_exhausted
      >> ok (record rows { retrieved = rows.retrieved ++ r ∷ [] })
]
