-- ===== src/Db/Reviews.antt =====
-- The runs of reviews: `create_review_run`, `finish_review_run` and `review_runs`. A JSON body is of a
-- type that is a parameter; what a row refers to is tested by functions.
pub mod Verdicts
use localoud_ai.Base.{
  ℕ, String, List, [], ◌∷◌, ◌++◌, Bool, true, false, not, ◌&&◌, ◌||◌, ◌==◌, nat_eq, string_eq, any,
  keep, if◌then◌else◌, Result, ok, err, ◌>>◌, bail_if,
}
use localoud_ai.Core.{TaskId, HubThreadId}
use localoud_ai.Db.{update_where, affected}

pub record ReviewRun (Value : Type 0) : Type 0 where
  pub id : String
  pub task_id : TaskId
  pub executor_thread_id : HubThreadId
  pub reviewer_thread_id : HubThreadId
  pub artifact_hash : String
  pub verdict : String
  pub body : Value

pub data ReviewError : Type 0 where
  not_pending same_session constraint_failed bad_verdict stale_review : ReviewError

abbrev pub is_verdict : String → Bool
is_verdict v = v == "pass" || v == "rework" || v == "inconclusive"

module _ {Value : Type 0} where
  unfoldable pub create_review_run :
      (TaskId → Bool)
      → (HubThreadId → Bool)
      → ReviewRun Value
      → List (ReviewRun Value)
      → Result ReviewError (List (ReviewRun Value))
  create_review_run has_task has_thread r rows = do
    bail_if (not (r.verdict == "pending")) not_pending
    bail_if (r.executor_thread_id == r.reviewer_thread_id) same_session
    bail_if
        (any (λ (x : ReviewRun Value). x.id == r.id) rows
          || not (has_task r.task_id)
          || not (has_thread r.executor_thread_id)
          || not (has_thread r.reviewer_thread_id))
        constraint_failed
    ok (rows ++ r ∷ [])

  -- id=?1 AND artifact_hash=?2 AND verdict='pending'
  abbrev pub awaits : String → String → ReviewRun Value → Bool
  awaits id artifact_hash r =
      r.id == id && r.artifact_hash == artifact_hash && r.verdict == "pending"

  abbrev pub conclude : String → Value → ReviewRun Value → ReviewRun Value
  conclude verdict body r = record r { verdict = verdict; body = body }

  -- The rows are written before their number is looked at.
  unfoldable pub finish_review_run :
      String
      → String
      → String
      → Value
      → List (ReviewRun Value)
      → Result ReviewError (Unit {0}) × List (ReviewRun Value)
  finish_review_run id artifact_hash verdict body rows =
      if not (is_verdict verdict) then (err bad_verdict, rows) else (
        bail_if (not (affected (awaits id artifact_hash) rows == 1)) stale_review,
        update_where (awaits id artifact_hash) (conclude verdict body) rows,
      )

  unfoldable pub review_runs : TaskId → List (ReviewRun Value) → List (ReviewRun Value)
  review_runs task rows = keep (λ (r : ReviewRun Value). r.task_id == task) rows
