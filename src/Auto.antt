-- ===== src/Auto.antt =====
-- crates/hub-router/src/automatic.rs: the user's mapping of difficulty levels and other routes to
-- models, through named agents. A difficulty level is a `u8`. The error texts of the code are
-- constructors here.
pub mod Levels
pub mod Profiles
pub mod Sync
pub mod Scope
mod Tests
use localoud_ai.Base.{
  ℕ, zero, suc, ◌+◌, ◌<◌, ◌≡◌, String, len, count, List, [], ◌∷◌, ◌++◌, map, Option, none, some,
  Bool, true, false, not, ◌&&◌, ◌||◌, ltb, leb, nat_beq, ◌==◌, nat_eq, string_eq, is_empty, length,
  any, all, find, count_if, if◌then◌else◌, Result, ok, err, ◌>>=◌, ◌>>◌, bail_if, ok_or,
}
use localoud_ai.Base.Text.{
  is_blank, is_nil, has_any, has_control, all_chars, is_ascii_alphanumeric, concat, trim,
  underscores_to_dashes,
}
use localoud_ai.Core.{RiskLevel, is_low, is_high}
use localoud_ai.Local.{RoutingInput, DifficultyAssessment}
use localoud_ai.Router.{not_one_or_two, loc_reaches}

pub data ModelProvider : Type 0 where
  local codex api : ModelProvider

pub record ModelTarget : Type 0 where
  pub provider : ModelProvider
  pub profile_id : Option String
  pub model : String
  pub reasoning : Option String

pub data AutoError : Type 0 where
  bad_model not_spark_profile not_codex_profile no_api_profile local_reasoning : AutoError
  bad_levels no_such_level : AutoError
  bad_agent_count bad_agent_id bad_agent_name duplicate_agent_id bad_assignments : AutoError
  no_assignment no_agent : String → AutoError
  out_of_scope : AutoError

-- `opt.is_some_and(p)` and `opt.is_none_or(p)`
abbrev is_some_and : (String → Bool) → Option String → Bool
is_some_and p none = false
is_some_and p (some s) = p s

abbrev is_none_or : (String → Bool) → Option String → Bool
is_none_or p none = true
is_none_or p (some s) = p s

abbrev is_some : {A : Type 0} → Option A → Bool
is_some none = false
is_some (some a) = true

abbrev or_else : {A : Type 0} → Option A → Option A → Option A
or_else (some a) b = some a
or_else none b = b

-- The `match self.provider` of `ModelTarget::validate`.
unfoldable pub check_profile : ModelProvider → Option String → Result AutoError (Unit {0})
check_profile local id = bail_if (is_some_and (λ s. not (s == "spark")) id) not_spark_profile
check_profile codex id = bail_if (is_some_and (λ s. not (s == "codex")) id) not_codex_profile
check_profile api id = bail_if (is_none_or is_blank id) no_api_profile

abbrev pub is_local : ModelProvider → Bool
is_local local = true
is_local _ = false

-- `ModelTarget::validate`
unfoldable pub validate_target : ModelTarget → Result AutoError (Unit {0})
unfolding check_profile
validate_target t = do
  bail_if
      (is_blank t.model
        || ltb 300 (len t.model)
        || is_some_and (λ e. is_blank e || ltb 50 (len e)) t.reasoning)
      bad_model
  check_profile t.provider t.profile_id
  bail_if (is_local t.provider && is_some t.reasoning) local_reasoning

pub record LevelAssignment : Type 0 where
  pub level : ℕ
  pub target : ModelTarget

pub record AgentProfile : Type 0 where
  pub id : String
  pub name : String
  pub target : ModelTarget

pub record RouteAgentAssignment : Type 0 where
  pub route : String
  pub agent_id : String

pub record LegacyRouteIdentity : Type 0 where
  pub route : String
  pub role_name : String
  pub agent_name : String

abbrev pub routes : List String
routes =
    "classifier" ∷ "level_1" ∷ "level_2" ∷ "level_3" ∷ "level_4" ∷ "level_5" ∷ "planner"
    ∷ "reviewer" ∷ "fallback" ∷ []

unfoldable pub default_agent_name : String → String
default_agent_name route =
    if route == "classifier"
    then "Router"
    else if route == "level_1"
    then "Quick"
    else if route == "level_2"
    then "Builder"
    else if route == "level_3"
    then "Developer"
    else if route == "level_4"
    then "Engineer"
    else if route == "level_5"
    then "Architect"
    else if route == "planner"
    then "Planner"
    else if route == "reviewer"
    then "Reviewer"
    else if route == "fallback"
    then "Fallback"
    else "Agent"

pub record AutoSettings : Type 0 where
  pub classifier : ModelTarget
  pub levels : List LevelAssignment
  pub fallback : Option ModelTarget
  pub planner_default : Option ModelTarget
  pub reviewer_default : Option ModelTarget
  pub agents : List AgentProfile
  pub route_agents : List RouteAgentAssignment
  pub legacy_identities : List LegacyRouteIdentity
  pub confirm_before_run : Bool

-- `levels.iter().find(|v| v.level == level).map(|v| v.target)`
unfoldable pub level_target : ℕ → List LevelAssignment → Option ModelTarget
level_target n [] = none
level_target n (a ∷ ls) = if a.level == n then some a.target else level_target n ls

abbrev pub assignments_of : String → List RouteAgentAssignment → ℕ
assignments_of route ras = count_if (λ a. a.route == route) ras

abbrev pub assignments_at : ℕ → List LevelAssignment → ℕ
assignments_at n levels = count_if (λ v. v.level == n) levels

abbrev pub has_agent : String → List AgentProfile → Bool
has_agent id agents = any (λ a. a.id == id) agents

-- A loop that stops at the first error.
unfoldable pub each :
    {A : Type 0} → (A → Result AutoError (Unit {0})) → List A → Result AutoError (Unit {0})
each check [] = ok tt
each check (a ∷ l) = check a >> each check l

abbrev optional : Option ModelTarget → Result AutoError (Unit {0})
optional none = ok tt
optional (some t) = validate_target t

abbrev is_id_char : ℕ → Bool
is_id_char c = is_ascii_alphanumeric c || nat_beq c b'-' || nat_beq c b'_' || nat_beq c b'.'

-- One round of the first loop of `validate_agents`.
unfoldable pub validate_agent : List AgentProfile → AgentProfile → Result AutoError (Unit {0})
unfolding validate_target
validate_agent agents a = do
  bail_if (is_blank a.id || ltb 80 (len a.id) || not (all_chars is_id_char a.id)) bad_agent_id
  bail_if (is_blank a.name || ltb 80 (count a.name) || has_control a.name) bad_agent_name
  validate_target a.target
  bail_if (not (count_if (λ c. c.id == a.id) agents == 1)) duplicate_agent_id

-- Every route is assigned once, and to an agent that there is.
abbrev pub fully_assigned : List AgentProfile → List RouteAgentAssignment → Bool
fully_assigned agents ras =
    length ras == length routes
    && all (λ r. assignments_of r ras == 1) routes
    && all (λ a. has_agent a.agent_id agents) ras

-- `validate_agents`
unfoldable pub validate_agents : AutoSettings → Result AutoError (Unit {0})
unfolding validate_agent each
validate_agents s = do
  bail_if (is_empty s.agents || ltb 50 (length s.agents)) bad_agent_count
  each (validate_agent s.agents) s.agents
  bail_if (not (fully_assigned s.agents s.route_agents)) bad_assignments

abbrev pub level_numbers : List ℕ
level_numbers = 1 ∷ 2 ∷ 3 ∷ 4 ∷ 5 ∷ []

-- `AutoSettings::validate`
unfoldable pub validate_settings : AutoSettings → Result AutoError (Unit {0})
unfolding validate_agents validate_target each
validate_settings s = do
  validate_target s.classifier
  bail_if
      (not (length s.levels == 5) || any (λ n. not (assignments_at n s.levels == 1)) level_numbers)
      bad_levels
  each (λ l. validate_target l.target) s.levels
  optional s.fallback
  optional s.planner_default
  optional s.reviewer_default
  validate_agents s

-- `AutoSettings::target`
unfoldable pub target : AutoSettings → ℕ → Result AutoError ModelTarget
unfolding validate_settings level_target
target s level = validate_settings s >> ok_or (level_target level s.levels) no_such_level

-- `target_for_route`
unfoldable pub target_for_route : AutoSettings → String → Option ModelTarget
unfolding level_target
target_for_route s route =
    let level = λ (n : ℕ). level_target n s.levels in
    if route == "classifier"
    then some s.classifier
    else if route == "level_1"
    then level 1
    else if route == "level_2"
    then level 2
    else if route == "level_3"
    then level 3
    else if route == "level_4"
    then level 4
    else if route == "level_5"
    then level 5
    else if route == "planner"
    then or_else s.planner_default (level 5)
    else if route == "reviewer"
    then or_else s.reviewer_default (or_else s.planner_default (level 5))
    else if route == "fallback"
    then or_else s.fallback (level 3)
    else none
