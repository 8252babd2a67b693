-- ===== src/Db/Segments.antt =====
-- The segments of a thread, in each of which one model serves it (`start_provider_segment` and
-- `active_provider_segment`), and the outcome of a provider's turn. The rows are in the order of their
-- start: the clock is taken not to go back.
pub mod Active
use localoud_ai.Base.{
  ℕ, ◌≤◌, String, List, [], ◌∷◌, ◌++◌, reverse, Option, none, some, Bool, true, false, not, ◌&&◌,
  ◌||◌, ◌==◌, nat_eq, string_eq, ltb, leb, ◌^◌, len, any, find, if◌then◌else◌, Result, ok, err,
  ◌>>=◌, ◌>>◌, bail_if,
}
use localoud_ai.Core.{HubThreadId}
use localoud_ai.Db.{update_where, row_with}
use localoud_ai.Providers.{ModelTarget, ProviderError, validate_target}

pub record ProviderSegment : Type 0 where
  pub id : String
  pub thread_id : HubThreadId
  pub target : ModelTarget
  pub profile_revision : ℕ
  pub provider_thread_id : Option String
  pub ended : Bool

pub data SegmentError : Type 0 where
  already_ended number_too_large constraint_failed : SegmentError
  bad_target : ProviderError → SegmentError

abbrev pub valid_target : Result ProviderError (Unit {0}) → Result SegmentError (Unit {0})
valid_target (ok u) = ok u
valid_target (err e) = err (bad_target e)

-- thread_id=?1 AND ended_at IS NULL
abbrev pub is_active : HubThreadId → ProviderSegment → Bool
is_active thread r = r.thread_id == thread && not r.ended

abbrev pub end_segment : ProviderSegment → ProviderSegment
end_segment r = record r { ended = true }

-- A transaction; a revision is a `u64`, which the database takes up to 2^63 - 1. What the row refers to is tested by the two functions.
unfoldable pub start_provider_segment :
    (HubThreadId → Bool)
    → (String → Bool)
    → ProviderSegment
    → List ProviderSegment
    → Result SegmentError (List ProviderSegment)
unfolding validate_target
start_provider_segment has_thread has_profile r rows = do
  valid_target (validate_target r.target)
  bail_if r.ended already_ended
  bail_if (leb (2 ^ 63) r.profile_revision) number_too_large
  bail_if
      (any (λ (x : ProviderSegment). x.id == r.id) rows
        || not (has_thread r.thread_id)
        || not (has_profile r.target.profile_id)
        || r.profile_revision == 0)
      constraint_failed
  ok (update_where (is_active r.thread_id) end_segment rows ++ r ∷ [])

-- The active segment that started last.
unfoldable pub active_provider_segment : HubThreadId → List ProviderSegment → Option ProviderSegment
active_provider_segment thread rows = find (is_active thread) (reverse rows)

pub record ProviderTurnOutcome : Type 0 where
  pub turn_id : String
  pub thread_id : HubThreadId
  pub status : String
  pub stop_reason : Option String
  pub failure_kind : Option String
  pub detail : Option String

pub data OutcomeError : Type 0 where
  bad_status long_reason long_kind long_detail constraint_failed : OutcomeError

abbrev is_outcome : String → Bool
is_outcome s =
    s == "completed" || s == "refused" || s == "failed" || s == "interrupted" || s == "unknown"

abbrev longer : ℕ → Option String → Bool
longer n none = false
longer n (some s) = ltb n (len s)

abbrev outcome_key : ProviderTurnOutcome → String
outcome_key r = r.turn_id

-- A turn that has an outcome keeps its thread, and takes the rest.
abbrev with_outcome : ProviderTurnOutcome → ProviderTurnOutcome → ProviderTurnOutcome
with_outcome r old = record r { thread_id = old.thread_id }

unfoldable pub record_provider_turn_outcome :
    (HubThreadId → Bool)
    → ProviderTurnOutcome
    → List ProviderTurnOutcome
    → Result OutcomeError (List ProviderTurnOutcome)
record_provider_turn_outcome has_thread r rows = do
  bail_if (not (is_outcome r.status)) bad_status
  bail_if (longer 200 r.stop_reason) long_reason
  bail_if (longer 80 r.failure_kind) long_kind
  bail_if (longer 4000 r.detail) long_detail
  if any (λ (x : ProviderTurnOutcome). x.turn_id == r.turn_id) rows
      then ok
          (update_where (λ (x : ProviderTurnOutcome). x.turn_id == r.turn_id) (with_outcome r) rows)
      else (bail_if (not (has_thread r.thread_id)) OutcomeError.constraint_failed
          >> ok (rows ++ r ∷ []))

unfoldable pub provider_turn_outcome :
    String → List ProviderTurnOutcome → Option ProviderTurnOutcome
provider_turn_outcome turn_id rows = row_with outcome_key turn_id rows
