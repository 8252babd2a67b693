-- ===== src/Auto/Tests.antt =====
-- Runs of the model settings: those that a fresh installation starts with.
use localoud_ai.Base.{
  ℕ, ◌≤◌, ◌<◌, ◌≡◌, ◌≢◌, ◌↔◌, refl, String, List, [], ◌∷◌, length, Option, none, some, Bool, true,
  false, Result, ok, err, In, arith,
}
use localoud_ai.Base.Text.{has_any}
use localoud_ai.Core.{RiskLevel}
use localoud_ai.Local.{RoutingInput, DifficultyAssessment}
use localoud_ai.Auto.{
  ModelTarget, ModelProvider, AutoSettings, validate_settings, validate_target, target,
  level_target, fully_assigned,
}
use localoud_ai.Auto.Levels.{target-valid}
use localoud_ai.Auto.Profiles.{initial, ensure_agent_profiles}
use localoud_ai.Auto.Profiles.Complete.{
  HasLevels, ensure_agent_profiles-IsComplete, ensure_agent_profiles_idempotent,
}
use localoud_ai.Auto.Scope.{plan_first, planning_reason, check_execution_scope}

abbrev local_target : ModelTarget
local_target = record {
  provider = ModelProvider.local;
  profile_id = some "spark";
  model = "qwen";
  reasoning = none;
}

abbrev cloud_target : ModelTarget
cloud_target = record {
  provider = ModelProvider.codex;
  profile_id = some "codex";
  model = "gpt";
  reasoning = some "high";
}

-- Settings without agents, as an early version saved them.
abbrev early : AutoSettings
early = record {
  classifier = local_target;
  levels =
      record { level = 1; target = local_target }
      ∷ record { level = 2; target = cloud_target }
      ∷ record { level = 3; target = cloud_target }
      ∷ record { level = 4; target = cloud_target }
      ∷ record { level = 5; target = cloud_target }
      ∷ [];
  fallback = none;
  planner_default = some cloud_target;
  reviewer_default = none;
  agents = [];
  route_agents = [];
  legacy_identities = [];
  confirm_before_run = false;
}

early-HasLevels : HasLevels early
unfolding level_target
early-HasLevels = (
  (local_target, refl),
  (
    (cloud_target, refl),
    ((cloud_target, refl), ((cloud_target, refl), ((cloud_target, refl), tt))),
  ),
)

ensure_agent_profiles-IsComplete_example :
    fully_assigned
      (ensure_agent_profiles early).0.agents
      (ensure_agent_profiles early).0.route_agents
    ≡ true
ensure_agent_profiles-IsComplete_example = ensure_agent_profiles-IsComplete early early-HasLevels

ensure_agent_profiles_idempotent_example :
    ensure_agent_profiles (ensure_agent_profiles early).0 ≡ ((ensure_agent_profiles early).0, false)
ensure_agent_profiles_idempotent_example = ensure_agent_profiles_idempotent early early-HasLevels

fresh_valid : validate_settings (initial "qwen" (some cloud_target)) ≡ ok tt
unfolding validate_settings localoud_ai.Base.Text.is_blank initial localoud_ai.Base.Text.all_chars
    localoud_ai.Base.Text.has_control
fresh_valid = refl

one_le_three : 1 ≤ 3
one_le_three = omega arith

three_le_five : 3 ≤ 5
three_le_five = omega arith

target-valid_example :
    (t : ModelTarget) × (target (initial "qwen" (some cloud_target)) 3 ≡ ok t)
    × In (record { level = 3; target = t }) (initial "qwen" (some cloud_target)).levels
    × (validate_target t ≡ ok tt)
target-valid_example =
    target-valid (initial "qwen" (some cloud_target)) 3 fresh_valid one_le_three three_le_five

abbrev same : String → String
same s = s

abbrev typo : RoutingInput
typo = record { request = "fix a typo"; known_files = "a.rs" ∷ []; estimated_loc = some 3 }

abbrev easy : DifficultyAssessment ℕ
easy = record {
  difficulty = 5;
  confidence = 80;
  reason = "one small file";
  risk = RiskLevel.low;
  needs_plan = false;
  estimated_scope = record { files = 1; loc = 20 };
}

in_scope : check_execution_scope local_target typo (some easy) ≡ ok tt
unfolding check_execution_scope localoud_ai.Base.Text.is_blank
in_scope = refl

not_planned : planning_reason same typo (some easy) ≡ none
unfolding planning_reason localoud_ai.Base.Text.has_word
not_planned = refl

reserved :
    planning_reason {C = ℕ} same (record typo { request = "drop database" }) none ≡ some plan_first
unfolding planning_reason localoud_ai.Base.Text.has_word
reserved = refl
