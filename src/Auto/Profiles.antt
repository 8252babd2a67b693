-- ===== src/Auto/Profiles.antt =====
-- `AutoSettings::ensure_agent_profiles` and `AutoSettings::initial`: agents are made from the targets
-- of the routes where the saved ones do not cover every route.
pub mod Complete
use localoud_ai.Base.{
  ℕ, String, List, [], ◌∷◌, ◌++◌, map, Option, none, some, Bool, true, false, not, ◌&&◌, ◌==◌,
  nat_eq, string_eq, is_empty, find, if◌then◌else◌,
}
use localoud_ai.Base.Text.{trim, is_nil, concat, underscores_to_dashes}
use localoud_ai.Auto.{
  ModelProvider, local, codex, api, ModelTarget, LevelAssignment, AgentProfile,
  RouteAgentAssignment, LegacyRouteIdentity, AutoSettings, routes, default_agent_name,
  target_for_route, fully_assigned, level_numbers,
}

-- The derived equality of targets.
abbrev same_provider : ModelProvider → ModelProvider → Bool
same_provider local local = true
same_provider codex codex = true
same_provider api api = true
same_provider _ _ = false

abbrev same_text : Option String → Option String → Bool
same_text none none = true
same_text (some s) (some t) = s == t
same_text _ _ = false

unfoldable pub same_target : ModelTarget → ModelTarget → Bool
same_target a b =
    same_provider a.provider b.provider
    && same_text a.profile_id b.profile_id
    && a.model == b.model
    && same_text a.reasoning b.reasoning

-- What a route needs: `(route, name, target)`.
pub record RouteSpec : Type 0 where
  pub route : String
  pub name : String
  pub target : ModelTarget

abbrev name_or_default : String → Option LegacyRouteIdentity → String
name_or_default route none = default_agent_name route
name_or_default route (some identity) =
    let name = trim identity.agent_name in if is_nil name then default_agent_name route else name

unfoldable pub agent_name : List LegacyRouteIdentity → String → String
unfolding default_agent_name trim is_nil
agent_name legacy route = name_or_default route (find (λ i. i.route == route) legacy)

-- The `filter_map` over the routes.
unfoldable pub specs : AutoSettings → List String → List RouteSpec
unfolding agent_name target_for_route
specs s [] = []
specs s (r ∷ rs) = elim (target_for_route s r) [
  | none ↦ specs s rs
  | some t ↦ record { route = r; name = agent_name s.legacy_identities r; target = t } ∷ specs s rs
]

abbrev new_agent_id : String → String
new_agent_id route = concat "agent-" (underscores_to_dashes route)

-- The agent that a specification uses again.
abbrev reused : List AgentProfile → RouteSpec → Option AgentProfile
reused agents x = find (λ a. a.name == x.name && same_target a.target x.target) agents

-- The loop over the specifications: an agent of that name and target is used again.
unfoldable pub assign_all :
    List AgentProfile
    → List RouteAgentAssignment
    → List RouteSpec
    → List AgentProfile × List RouteAgentAssignment
unfolding same_target underscores_to_dashes
assign_all agents ras [] = (agents, ras)
assign_all agents ras (x ∷ xs) = elim (reused agents x) [
  | some a ↦ assign_all agents (ras ++ record { route = x.route; agent_id = a.id } ∷ []) xs
  | none ↦
      assign_all
        (agents ++ record { id = new_agent_id x.route; name = x.name; target = x.target } ∷ [])
        (ras ++ record { route = x.route; agent_id = new_agent_id x.route } ∷ []) xs
]

abbrev pub is_complete : AutoSettings → Bool
is_complete s = not (is_empty s.agents) && fully_assigned s.agents s.route_agents

abbrev rebuilt : AutoSettings → AutoSettings
rebuilt s =
    let (agents, ras) = assign_all [] [] (specs s routes) in
    record s { agents = agents; route_agents = ras; legacy_identities = [] }

-- `ensure_agent_profiles`: the settings, and whether they have changed.
unfoldable pub ensure_agent_profiles : AutoSettings → AutoSettings × Bool
unfolding assign_all specs
ensure_agent_profiles s =
    if is_complete s
    then (record s { legacy_identities = [] }, not (is_empty s.legacy_identities))
    else (rebuilt s, true)

abbrev or_local : ModelTarget → Option ModelTarget → ModelTarget
or_local t none = t
or_local t (some u) = u

abbrev initial_target : ModelTarget → Option ModelTarget → ℕ → ModelTarget
initial_target t default n = if n == 1 then t else or_local t default

abbrev bare_settings : String → Option ModelTarget → AutoSettings
bare_settings local_model default_cloud =
    let local : ModelTarget = record {
      provider = ModelProvider.local;
      profile_id = some "spark";
      model = local_model;
      reasoning = none;
    } in
    record {
      classifier = local;
      levels =
          map (λ n. record { level = n; target = initial_target local default_cloud n })
            level_numbers;
      fallback = none;
      planner_default = default_cloud;
      reviewer_default = default_cloud;
      agents = [];
      route_agents = [];
      legacy_identities = [];
      confirm_before_run = false;
    }

-- `AutoSettings::initial`
unfoldable pub initial : String → Option ModelTarget → AutoSettings
unfolding ensure_agent_profiles
initial local_model default_cloud =
    (ensure_agent_profiles (bare_settings local_model default_cloud)).0
