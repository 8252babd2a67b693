-- ===== src/Local.antt =====
-- crates/protocol-types/src/local.rs: what a local model is asked and answers. A confidence is an
-- `f64`, whose tests are those of `Base.Float`.
pub mod Assessment
mod Tests
use localoud_ai.Base.{
  ℕ, ◌<◌, String, len, List, Option, Bool, true, false, not, ◌&&◌, ◌||◌, ltb, leb, Result, ok, err,
  ◌>>◌, bail_if,
}
use localoud_ai.Base.Text.{is_blank}
use localoud_ai.Base.Float.{F64}
use localoud_ai.Core.{ExecutorKind, Complexity, RiskLevel}

pub record RoutingInput : Type 0 where
  pub request : String
  pub known_files : List String
  pub estimated_loc : Option ℕ

pub record EstimatedScope : Type 0 where
  pub files : ℕ
  pub loc : ℕ

pub record RoutingDecision (C : Type 0) : Type 0 where
  pub executor : ExecutorKind
  pub complexity : Complexity
  pub risk : RiskLevel
  pub needs_plan : Bool
  pub needs_final_astra_review : Bool
  pub estimated_scope : EstimatedScope
  pub confidence : C
  pub reason : String

pub record LocalUsage : Type 0 where
  pub prompt_tokens : ℕ
  pub completion_tokens : ℕ
  pub latency_ms : ℕ

pub record Generation (T : Type 0) : Type 0 where
  pub output : T
  pub usage : LocalUsage

pub data ReviewVerdict : Type 0 where
  approve rework human_required : ReviewVerdict

pub data ConversationRole : Type 0 where
  user assistant tool : ConversationRole

-- `exit_code` is an `i32`, as the number that its 32 bits spell: it is compared for equality only.
pub record ConversationMessage : Type 0 where
  pub id : String
  pub role : ConversationRole
  pub text : String
  pub call_id : Option String
  pub completed : Option Bool
  pub exit_code : Option ℕ

pub record HandoffCandidate (C : Type 0) : Type 0 where
  pub id : String
  pub source_message_id : String
  pub quote : String
  pub section : String
  pub depends_on : List String
  pub corrects : List String
  pub confidence : C

-- Estimated difficulty is distinct from operational risk. `difficulty` is a `u8`.
pub record DifficultyAssessment (C : Type 0) : Type 0 where
  pub difficulty : ℕ
  pub confidence : C
  pub reason : String
  pub risk : RiskLevel
  pub needs_plan : Bool
  pub estimated_scope : EstimatedScope

pub data AssessmentError : Type 0 where
  malformed : AssessmentError
  not_confident : String → AssessmentError

pub record RouteReport (C : Type 0) : Type 0 where
  pub decision : RoutingDecision C
  pub usage : Option LocalUsage
  pub fallback : Bool

module _ (F : F64) where
  open F use {Carrier, is_finite, less, at_most, zero_f, one_f, three_quarters}

  -- `x.is_finite() && (0.0..=1.0).contains(&x)`
  abbrev pub in_unit : Carrier → Bool
  in_unit x = is_finite x && at_most zero_f x && at_most x one_f

  -- `DifficultyAssessment::validate`
  unfoldable pub validate_assessment :
      DifficultyAssessment Carrier → Result AssessmentError (Unit {0})
  validate_assessment a = do
    bail_if
        (not (leb 1 a.difficulty && leb a.difficulty 5)
          || not (in_unit a.confidence)
          || is_blank a.reason
          || ltb 4000 (len a.reason))
        malformed
    bail_if (less a.confidence three_quarters) (not_confident a.reason)
