-- ===== src/Auto/Profiles/Complete.antt =====
-- The routes and the agents after one call and after two calls of `ensure_agent_profiles`.
use localoud_ai.Base.{
  String, List, [], ◌∷◌, ◌++◌, append_assoc, append-nil, map, Option, none, some, Option-cases,
  Bool, true, false, not, ◌&&◌, ◌≡◌, refl, sym, ap, ◌∙◌, inl, inr, ◌==◌, nat_eq, string_eq, ==_refl,
  is_empty, find-In, any, any_of, all, length, length-map, count_if, All, All_map, All-append,
  map-append, Bool-cases, arith,
}
use localoud_ai.Auto.{
  ModelTarget, AgentProfile, RouteAgentAssignment, AutoSettings, routes, level_target,
  level_numbers, target_for_route, or_else, fully_assigned, assignments_of, has_agent,
}
use localoud_ai.Auto.Profiles.{
  RouteSpec, specs, assign_all, is_complete, ensure_agent_profiles, reused, same_target,
  new_agent_id,
}

-- Every level from 1 to 5 has a target.
abbrev pub HasLevels : AutoSettings → Type 0
HasLevels s = All (λ n. (t : ModelTarget) × (level_target n s.levels ≡ some t)) level_numbers

HasTarget : AutoSettings → String → Type 0
HasTarget s r = (t : ModelTarget) × (target_for_route s r ≡ some t)

routes-HasTarget : (s : AutoSettings) → HasLevels s → All (HasTarget s) routes
unfolding HasTarget target_for_route
routes-HasTarget s (l1, (l2, (l3, (l4, (l5, _))))) = (
  (s.classifier, refl),
  (
    l1,
    (
      l2,
      (
        l3,
        (
          l4,
          (
            l5,
            (
              planner s.planner_default,
              (reviewer s.reviewer_default s.planner_default, (fallback s.fallback, tt)),
            ),
          ),
        ),
      ),
    ),
  ),
)
  where
    planner :
        (o : Option ModelTarget)
        → (t : ModelTarget) × (or_else o (level_target 5 s.levels) ≡ some t)
    planner none = l5
    planner (some t) = (t, refl)

    reviewer :
        (o p : Option ModelTarget)
        → (t : ModelTarget) × (or_else o (or_else p (level_target 5 s.levels)) ≡ some t)
    reviewer none p = planner p
    reviewer (some t) p = (t, refl)

    fallback :
        (o : Option ModelTarget)
        → (t : ModelTarget) × (or_else o (level_target 3 s.levels) ≡ some t)
    fallback none = l3
    fallback (some t) = (t, refl)

specs-routes :
    (s : AutoSettings) (rs : List String)
    → All (HasTarget s) rs
    → map (λ x. x.route) (specs s rs) ≡ rs
unfolding specs HasTarget
specs-routes s [] h = refl
specs-routes s (r ∷ rs) ((t, found), h) = rw (found, specs) (ap (λ l. r ∷ l) (specs-routes s rs h))

-- The loop assigns the routes in turn.
assign_all-routes :
    (agents : List AgentProfile) (ras : List RouteAgentAssignment) (xs : List RouteSpec)
    → map (λ a. a.route) (assign_all agents ras xs).1
      ≡ map (λ a. a.route) ras ++ map (λ x. x.route) xs
unfolding assign_all
assign_all-routes agents ras [] = sym (append-nil _)
assign_all-routes agents ras (x ∷ xs) = elim (Option-cases (reused agents x)) [
  | inl new ↦
      let id = new_agent_id x.route in
      rw (new, assign_all)
        (assign_all-routes (agents ++ record { id = id; name = x.name; target = x.target } ∷ [])
            (ras ++ record { route = x.route; agent_id = id } ∷ []) xs
          ∙ simp (map-append, append_assoc))
  | inr (a, old) ↦
      rw (old, assign_all)
        (assign_all-routes agents (ras ++ record { route = x.route; agent_id = a.id } ∷ []) xs
          ∙ simp (map-append, append_assoc))
]

-- An assignment names an agent that there is.
abbrev IsAssigned : List AgentProfile → RouteAgentAssignment → Type 0
IsAssigned agents a = has_agent a.agent_id agents ≡ true

any-append_left :
    {A : Type 0} (p : A → Bool) (xs ys : List A) → any p xs ≡ true → any p (xs ++ ys) ≡ true
any-append_left p [] ys h = cc
any-append_left p (x ∷ xs) ys h = ground (arith, any-append_left p xs ys)

any_last :
    {A : Type 0} (p : A → Bool) (xs : List A) (y : A) → p y ≡ true → any p (xs ++ y ∷ []) ≡ true
any_last p [] y h = rw h refl
any_last p (x ∷ xs) y h = ground (arith, any_last p xs y h)

assign_all-IsAssigned :
    (agents : List AgentProfile) (ras : List RouteAgentAssignment) (xs : List RouteSpec)
    → All (IsAssigned agents) ras
    → All (IsAssigned (assign_all agents ras xs).0) (assign_all agents ras xs).1
unfolding assign_all
assign_all-IsAssigned agents ras [] h = h
assign_all-IsAssigned agents ras (x ∷ xs) h = elim (Option-cases (reused agents x)) [
  | inl new ↦
      let id = new_agent_id x.route in
      let agent : AgentProfile = record { id = id; name = x.name; target = x.target } in
      let assignment : RouteAgentAssignment = record { route = x.route; agent_id = id } in
      rw (new, assign_all)
        (assign_all-IsAssigned (agents ++ agent ∷ []) (ras ++ assignment ∷ []) xs (
          All-append (IsAssigned (agents ++ agent ∷ [])) ras (assignment ∷ [])
            (All_map ras (λ a m. any-append_left (λ b. b.id == a.agent_id) agents (agent ∷ []) m) h)
            (any_last (λ b. b.id == id) agents agent (==_refl id), tt)))
  | inr (a, old) ↦
      let assignment : RouteAgentAssignment = record { route = x.route; agent_id = a.id } in
      let (here, _) = find-In (λ a. a.name == x.name && same_target a.target x.target) agents old in
      rw (old, assign_all)
        (assign_all-IsAssigned agents (ras ++ assignment ∷ []) xs (
          All-append (IsAssigned agents) ras (assignment ∷ []) h
            (any_of (λ b. b.id == a.id) a agents here (==_refl a.id), tt)))
]

count_map :
    (r : String) (ras : List RouteAgentAssignment)
    → assignments_of r ras
      ≡ count_if (λ s. s == r) (map (λ (a : RouteAgentAssignment). a.route) ras)
count_map r [] = refl
count_map r (a ∷ ras) = ground (arith, count_map r ras)

all_All : {A : Type 0} (p : A → Bool) (xs : List A) → All (λ a. p a ≡ true) xs → all p xs ≡ true
all_All p [] h = refl
all_All p (x ∷ xs) (q, h) = rw q (all_All p xs h)

-- Assignments whose routes are the nine, to agents that there are, are complete.
assigned_fully :
    (agents : List AgentProfile) (ras : List RouteAgentAssignment)
    → map (λ (a : RouteAgentAssignment). a.route) ras ≡ routes
    → All (IsAssigned agents) ras
    → fully_assigned agents ras ≡ true
assigned_fully agents ras e h =
    let nine : length ras ≡ 9 =
      sym (length-map (λ (a : RouteAgentAssignment). a.route) ras)
      ∙ ap (λ (l : List String). length l) e in
    let once = λ (r : String) (n : count_if (λ s. s == r) routes ≡ 1).
      count_map r ras ∙ ap (λ (l : List String). count_if (λ s. s == r) l) e ∙ n in
    rw nine (
      rw
        (
          once "classifier" refl,
          once "level_1" refl,
          once "level_2" refl,
          once "level_3" refl,
          once "level_4" refl,
          once "level_5" refl,
          once "planner" refl,
          once "reviewer" refl,
          once "fallback" refl,
        )
        (all_All (λ a. has_agent a.agent_id agents) ras h))

-- Settings whose five levels have targets are complete after `ensure_agent_profiles`: every route is
-- assigned exactly once, and to an agent that there is.
pub ensure_agent_profiles-IsComplete :
    (s : AutoSettings)
    → HasLevels s
    → fully_assigned (ensure_agent_profiles s).0.agents (ensure_agent_profiles s).0.route_agents
      ≡ true
unfolding ensure_agent_profiles
ensure_agent_profiles-IsComplete s levels = elim (Bool-cases (is_complete s)) [
  | inl old ↦ rw old (ground arith)
  | inr new ↦ rw new (
      assigned_fully (assign_all [] [] (specs s routes)).0 (assign_all [] [] (specs s routes)).1
        (assign_all-routes [] [] (specs s routes)
          ∙ specs-routes s routes (routes-HasTarget s levels))
        (assign_all-IsAssigned [] [] (specs s routes) tt))
]

some_agent :
    (agents : List AgentProfile) (ras : List RouteAgentAssignment)
    → fully_assigned agents ras ≡ true
    → is_empty agents ≡ false
some_agent (a ∷ agents) ras h = refl
some_agent [] [] h = cc
some_agent [] (a ∷ ras) h = ground arith

settled :
    (x : AutoSettings)
    → is_complete x ≡ true
    → x.legacy_identities ≡ []
    → ensure_agent_profiles x ≡ (x, false)
unfolding ensure_agent_profiles
settled x complete none_left =
    rw complete
      (λ i. (record x { legacy_identities = sym none_left i }, not (is_empty (none_left i))))

no_legacy : (s : AutoSettings) → (ensure_agent_profiles s).0.legacy_identities ≡ []
unfolding ensure_agent_profiles
no_legacy s = elim (Bool-cases (is_complete s)) [ inl old ↦ rw old refl | inr new ↦ rw new refl ]

-- Where the five levels have targets, a second call of `ensure_agent_profiles` changes nothing and
-- says so.
pub ensure_agent_profiles_idempotent :
    (s : AutoSettings)
    → HasLevels s
    → ensure_agent_profiles (ensure_agent_profiles s).0 ≡ ((ensure_agent_profiles s).0, false)
ensure_agent_profiles_idempotent s levels =
    let complete = ensure_agent_profiles-IsComplete s levels in
    let some_a = some_agent _ (ensure_agent_profiles s).0.route_agents complete in
    settled (ensure_agent_profiles s).0 (rw (some_a, complete) refl) (no_legacy s)
