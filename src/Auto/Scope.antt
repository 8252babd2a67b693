-- ===== src/Auto/Scope.antt =====
-- `planning_reason` and `check_execution_scope` of crates/hub-router/src/automatic.rs: when a request is
-- to be planned first, and what a chosen local model is not given.
use localoud_ai.Base.{
  String, List, [], ◌∷◌, Option, none, some, Bool, true, false, not, ◌&&◌, ◌||◌, ltb, leb,
  if◌then◌else◌, Result, ◌>>◌, bail_if,
}
use localoud_ai.Base.Text.{has_any}
use localoud_ai.Core.{is_high, is_low}
use localoud_ai.Local.{RoutingInput, DifficultyAssessment}
use localoud_ai.Router.{not_one_or_two, loc_reaches}
use localoud_ai.Auto.{AutoError, ModelTarget, validate_target, is_local, out_of_scope}

abbrev pub reserved_words : List String
reserved_words =
    "architecture" ∷ "security" ∷ "authentication" ∷ "migration" ∷ "public api" ∷ "権限" ∷ "認証"
    ∷ "セキュリティ" ∷ "設計" ∷ "移行" ∷ "本番データ削除" ∷ "drop database" ∷ []

abbrev pub plan_first : String
plan_first = "この依頼は計画の確認が必要です。操作を「計画する」に切り替えてください。難易度やモデルを変更しても、この条件は解除されません。"

module _ {C : Type 0} where
  abbrev asks_for_plan : Option (DifficultyAssessment C) → Bool
  asks_for_plan none = false
  asks_for_plan (some a) = a.needs_plan || is_high a.risk

  -- `planning_reason`
  unfoldable pub planning_reason :
      (lower : String → String) → RoutingInput → Option (DifficultyAssessment C) → Option String
  planning_reason lower input assessment =
      if asks_for_plan assessment || has_any reserved_words (lower input.request)
      then some plan_first
      else none

  -- `assessment.is_none_or(|a| …)`
  abbrev not_small : Option (DifficultyAssessment C) → Bool
  not_small none = true
  not_small (some a) =
      not (is_low a.risk) || ltb 2 a.estimated_scope.files || leb 100 a.estimated_scope.loc

  -- `check_execution_scope`
  unfoldable pub check_execution_scope :
      ModelTarget → RoutingInput → Option (DifficultyAssessment C) → Result AutoError (Unit {0})
  unfolding validate_target
  check_execution_scope t input assessment = do
    validate_target t
    bail_if
        (is_local t.provider
          && (not_one_or_two input.known_files
              || loc_reaches 100 input.estimated_loc
              || not_small assessment))
        out_of_scope
