-- ===== src/Db/Approvals.antt =====
-- Tool approvals: `create_tool_approval`, `tool_approval`, `decide_tool_approval` and
-- `consume_tool_approval`, over the table `tool_approvals`. A JSON request is of a type that is a
-- parameter; what the table references is a test on threads.
pub mod Life
pub mod OneShot
use localoud_ai.Base.{
  ℕ, String, List, [], ◌∷◌, ◌++◌, Option, none, some, Bool, true, false, not, ◌&&◌, ◌||◌, ◌==◌,
  nat_eq, string_eq, len, find, any, if◌then◌else◌, Result, ok, err, ◌>>=◌, ◌>>◌, bail_if, ok_or,
}
use localoud_ai.Base.Text.{is_blank, all_chars, is_ascii_hexdigit}
use localoud_ai.Core.{HubThreadId}
use localoud_ai.Db.{update_where, affected, row_with}

pub data ApprovalStatus : Type 0 where
  pending approved denied consumed : ApprovalStatus

pub record ToolApproval (Value : Type 0) : Type 0 where
  pub id : String
  pub thread_id : HubThreadId
  pub turn_id : String
  pub digest : String
  pub request : Value
  pub status : ApprovalStatus

pub data ApprovalError : Type 0 where
  not_pending bad_identity constraint_failed already_decided not_approved already_consumed :
      ApprovalError

abbrev pub is_pending : ApprovalStatus → Bool
is_pending pending = true
is_pending _ = false

abbrev pub is_approved : ApprovalStatus → Bool
is_approved approved = true
is_approved _ = false

abbrev pub verdict : Bool → ApprovalStatus
verdict approve = if approve then approved else denied

module _ {Value : Type 0} where
  abbrev pub set_status : ApprovalStatus → ToolApproval Value → ToolApproval Value
  set_status s r = record r { status = s }

  -- UNIQUE(thread_id, turn_id, digest)
  abbrev pub same_call : ToolApproval Value → ToolApproval Value → Bool
  same_call r x = x.thread_id == r.thread_id && x.turn_id == r.turn_id && x.digest == r.digest

  abbrev pub has_id : String → ToolApproval Value → Bool
  has_id id r = r.id == id

  unfoldable pub create_tool_approval :
      (HubThreadId → Bool)
      → ToolApproval Value
      → List (ToolApproval Value)
      → Result ApprovalError (List (ToolApproval Value))
  create_tool_approval has_thread r rows = do
    bail_if (not (is_pending r.status)) not_pending
    bail_if
        (is_blank r.id
          || is_blank r.turn_id
          || not (len r.digest == 64)
          || not (all_chars is_ascii_hexdigit r.digest))
        bad_identity
    bail_if (any (has_id r.id) rows || any (same_call r) rows || not (has_thread r.thread_id))
        constraint_failed
    ok (rows ++ r ∷ [])

  unfoldable pub tool_approval : String → List (ToolApproval Value) → Option (ToolApproval Value)
  tool_approval id rows = row_with (λ (r : ToolApproval Value). r.id) id rows

  abbrev pub undecided : String → ToolApproval Value → Bool
  undecided id r = r.id == id && is_pending r.status

  -- The rows are written before their number is looked at.
  unfoldable pub decide_tool_approval :
      String
      → Bool
      → List (ToolApproval Value)
      → Result ApprovalError (Unit {0}) × List (ToolApproval Value)
  decide_tool_approval id approve rows = (
    bail_if (not (affected (undecided id) rows == 1)) already_decided,
    update_where (undecided id) (set_status (verdict approve)) rows,
  )

  abbrev pub matches : String → HubThreadId → String → String → ToolApproval Value → Bool
  matches id thread turn_id digest r =
      r.id == id
      && r.thread_id == thread
      && r.turn_id == turn_id
      && r.digest == digest
      && is_approved r.status

  abbrev pub spendable : String → ToolApproval Value → Bool
  spendable id r = r.id == id && is_approved r.status

  -- A transaction: an error leaves the rows as they were.
  unfoldable pub consume_tool_approval :
      String
      → HubThreadId
      → String
      → String
      → List (ToolApproval Value)
      → Result ApprovalError (Value × List (ToolApproval Value))
  consume_tool_approval id thread turn_id digest rows = do
    r ← ok_or (find (matches id thread turn_id digest) rows) not_approved
    bail_if (not (affected (spendable id) rows == 1)) already_consumed
    ok (r.request, update_where (spendable id) (set_status consumed) rows)
