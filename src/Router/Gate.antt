-- ===== src/Router/Gate.antt =====
-- The two gates of routing: requests that need a plan, and what may go to the local Spark model.
use localoud_ai.Base.{
  ◌≤◌, ◌<◌, String, List, [], ◌∷◌, some, ◌≡◌, ◌⊎◌, inl, inr, refl, true, false, ok, length, arith,
}
use localoud_ai.Base.Text.{is_blank, has_any}
use localoud_ai.Base.Float.{F64}
use localoud_ai.Core.{ExecutorKind, ExecutorPreference, RiskLevel}
use localoud_ai.Local.{RoutingInput, RoutingDecision, in_unit}
use localoud_ai.Router.{
  RoutingPolicy, pre_route, validate_model_route, decision, planning_words, loc_reaches,
  not_one_or_two,
}

pub one_or_two :
    (files : List String) → not_one_or_two files ≡ false → (1 ≤ length files) × (length files ≤ 2)
one_or_two [] h = cc
one_or_two (f ∷ fs) h = ground arith

module _ (F : F64) (lower : String → String) (policy : RoutingPolicy F.Carrier)
    (input : RoutingInput) where
  -- A decision for Spark before the model is asked names one or two files and has no planning word;
  -- the user chose Spark, or left the choice open and estimated fewer lines than the limit.
  pub pre_route-spark :
      (preference : ExecutorPreference) (d : RoutingDecision F.Carrier)
      → pre_route F lower policy input preference ≡ ok (some d)
      → d.executor ≡ ExecutorKind.spark
      → (1 ≤ length input.known_files)
        × (length input.known_files ≤ 2)
        × (has_any planning_words (lower input.request) ≡ false)
        × ((preference ≡ ExecutorPreference.spark)
            ⊎ ((preference ≡ ExecutorPreference.auto)
                × (loc_reaches policy.spark_max_estimated_loc input.estimated_loc ≡ false)))
  unfolding pre_route decision
  pre_route-spark ExecutorPreference.spark d h spark =
      let bounded = one_or_two input.known_files (ground arith) in
      (bounded.0, bounded.1, ground arith, inl refl)
  pre_route-spark ExecutorPreference.auto d h spark =
      let bounded = one_or_two input.known_files (ground arith) in
      (bounded.0, bounded.1, ground arith, inr (refl, ground arith))
  pre_route-spark _ d h spark = absurd (ground arith)

  -- A model's decision of high risk, or one that asks for a plan, goes to Astra with a plan, and is
  -- otherwise kept.
  pub validate_model_route-plans :
      (d : RoutingDecision F.Carrier)
      → in_unit F d.confidence ≡ true
      → is_blank d.reason ≡ false
      → (d.risk ≡ RiskLevel.high) ⊎ (d.needs_plan ≡ true)
      → validate_model_route F lower policy d input
        ≡ ok (record d { executor = ExecutorKind.astra; needs_plan = true })
  unfolding validate_model_route
  validate_model_route-plans d unit reason h = ground arith

  -- A model's decision that stays with Spark is its own, and within the policy: confident enough,
  -- for at most two files and fewer lines than the limit, of low risk, without a plan, and for a
  -- request that names one or two files.
  pub validate_model_route-spark :
      (d e : RoutingDecision F.Carrier)
      → validate_model_route F lower policy d input ≡ ok e
      → e.executor ≡ ExecutorKind.spark
      → (e ≡ d)
        × (F.less d.confidence policy.spark_confidence_threshold ≡ false)
        × (d.estimated_scope.files ≤ 2)
        × (d.estimated_scope.loc < policy.spark_max_estimated_loc)
        × (1 ≤ length input.known_files)
        × (length input.known_files ≤ 2)
        × (d.risk ≡ RiskLevel.low)
        × (d.needs_plan ≡ false)
  unfolding validate_model_route
  validate_model_route-spark d e h spark =
      let within : (e ≡ d)
          × (F.less d.confidence policy.spark_confidence_threshold ≡ false)
          × (d.estimated_scope.files ≤ 2)
          × (d.estimated_scope.loc < policy.spark_max_estimated_loc)
          × (not_one_or_two input.known_files ≡ false)
          × (d.risk ≡ RiskLevel.low)
          × (d.needs_plan ≡ false) =
        ground arith in
      let bounded = one_or_two input.known_files within.4 in
      (within.0, within.1, within.2, within.3, bounded.0, bounded.1, within.5, within.6)
