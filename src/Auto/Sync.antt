-- ===== src/Auto/Sync.antt =====
-- `AutoSettings::agent_for_route`, `agent_for_level` and `sync_targets_from_agents`
-- (crates/hub-router/src/automatic.rs). The settings that a failed call leaves are part of its result.
use localoud_ai.Base.{
  ℕ, String, List, [], ◌∷◌, Option, none, some, not, ◌&&◌, leb, ◌==◌, nat_eq, string_eq, find,
  if◌then◌else◌, Result, ok, err, ◌>>=◌, ◌>>◌, bail_if, ok_or,
}
use localoud_ai.Auto.{
  AutoError, AutoSettings, AgentProfile, ModelTarget, LevelAssignment, no_assignment, no_agent,
  no_such_level, validate_agents, is_some, level_numbers,
}

-- `agent_for_route`
unfoldable pub agent_for_route : AutoSettings → String → Result AutoError AgentProfile
agent_for_route s route = do
  assignment ← ok_or (find (λ a. a.route == route) s.route_agents) (no_assignment route)
  ok_or (find (λ a. a.id == assignment.agent_id) s.agents) (no_agent route)

-- `format!("level_{level}")`, for the levels that `agent_for_level` lets through.
abbrev pub level_route : ℕ → String
level_route n =
    if n == 1
    then "level_1"
    else if n == 2
    then "level_2"
    else if n == 3
    then "level_3"
    else if n == 4
    then "level_4"
    else "level_5"

-- `agent_for_level`
unfoldable pub agent_for_level : AutoSettings → ℕ → Result AutoError AgentProfile
unfolding agent_for_route
agent_for_level s level = do
  bail_if (not (leb 1 level && leb level 5)) no_such_level
  agent_for_route s (level_route level)

-- The settings after a step, and whether it succeeded.
abbrev pub Stepped : Type 0
Stepped = AutoSettings × Result AutoError (Unit {0})

-- A step after a step.
abbrev pub then_ : Stepped → (AutoSettings → Stepped) → Stepped
then_ (s, ok _) f = f s
then_ (s, err e) f = (s, err e)

-- `value?`, then an assignment that cannot fail.
abbrev pub assign : {A : Type 0} → Result AutoError A → (A → AutoSettings) → AutoSettings → Stepped
assign (ok a) f s = (f a, ok tt)
assign (err e) f s = (s, err e)

-- `iter_mut().find(|a| a.level == level)`, and its target replaced.
unfoldable pub set_level : ℕ → ModelTarget → List LevelAssignment → Option (List LevelAssignment)
set_level n t [] = none
set_level n t (a ∷ ls) =
    let rest = set_level n t ls in
    if a.level == n
    then some (record a { target = t } ∷ ls)
    else elim rest [ none ↦ none | some ls' ↦ some (a ∷ ls') ]

-- One round of the loop over the levels.
unfoldable pub sync_level : AutoSettings → ℕ → Stepped
unfolding agent_for_level set_level
sync_level s level =
    assign
      (agent_for_level s level >>= λ a. ok_or (set_level level a.target s.levels) no_such_level)
      (λ levels. record s { levels = levels }) s

unfoldable pub sync_levels : List ℕ → AutoSettings → Stepped
unfolding sync_level
sync_levels [] s = (s, ok tt)
sync_levels (n ∷ ns) s = then_ (sync_level s n) (sync_levels ns)

unfoldable pub sync_planner : AutoSettings → Stepped
unfolding agent_for_route
sync_planner s =
    assign (agent_for_route s "planner") (λ a. record s { planner_default = some a.target }) s

unfoldable pub sync_reviewer : AutoSettings → Stepped
unfolding agent_for_route
sync_reviewer s =
    assign (agent_for_route s "reviewer") (λ a. record s { reviewer_default = some a.target }) s

unfoldable pub sync_fallback : AutoSettings → Stepped
unfolding agent_for_route
sync_fallback s =
    if is_some s.fallback
    then assign (agent_for_route s "fallback") (λ a. record s { fallback = some a.target }) s
    else (s, ok tt)

-- `sync_targets_from_agents`
unfoldable pub sync_targets_from_agents : AutoSettings → Stepped
unfolding validate_agents sync_levels sync_planner sync_reviewer sync_fallback
sync_targets_from_agents s =
    then_ (s, validate_agents s)
      λ s.
        then_ (assign (agent_for_route s "classifier") (λ a. record s { classifier = a.target }) s)
          λ s.
            then_ (sync_levels level_numbers s)
              λ s. then_ (sync_planner s) λ s. then_ (sync_reviewer s) sync_fallback
