-- ===== src/Router/Report.antt =====
-- `RoutingPolicy::route` as a whole.
use localoud_ai.Base.{
  String, ◌≤◌, Option, none, some, ◌≡◌, ◌≢◌, ◌⊎◌, inl, inr, true, false, ok, Result-cases,
  >>=-eq-ok, ok_injective, length, arith,
}
use localoud_ai.Base.Float.{F64}
use localoud_ai.Core.{ExecutorKind, ExecutorPreference}
use localoud_ai.Local.{RoutingInput, RoutingDecision, RouteReport}
use localoud_ai.Router.{
  RoutingPolicy, Provider, route, continue, decided, pre_route, validate_model_route,
  codex_fallback,
}
use localoud_ai.Router.Gate.{pre_route-spark, validate_model_route-spark}

module _ (F : F64) (lower : String → String) (policy : RoutingPolicy F.Carrier)
    (input : RoutingInput) (provider : Provider F.Carrier) where
  -- A decision of `pre_route` that is reported with Spark is that decision, and the service is there.
  decided-spark :
      (preference : ExecutorPreference) (d : RoutingDecision F.Carrier)
      (report : RouteReport F.Carrier)
      → decided F lower provider input preference d ≡ ok report
      → report.decision.executor ≡ ExecutorKind.spark
      → (report.decision ≡ d) × (provider.available ≡ none) × (report.fallback ≡ false)
  unfolding decided
  decided-spark preference d report h spark = ground arith

  -- The model's answer that is reported with Spark passed the policy.
  asked-spark :
      (preference : ExecutorPreference) (report : RouteReport F.Carrier)
      → continue F lower policy input preference provider none ≡ ok report
      → report.decision.executor ≡ ExecutorKind.spark
      → (1 ≤ length input.known_files)
        × (length input.known_files ≤ 2)
        × (report.fallback ≡ false)
        × (report.usage ≢ none)
  unfolding continue codex_fallback
  asked-spark preference report h spark = elim (Result-cases (provider.classify_task input)) [
    | inr (e, failed) ↦ absurd (ground arith)
    | inl (g, answered) ↦
        let (d, valid, h') =
          >>=-eq-ok (validate_model_route F lower policy g.output input) _
            (rw (answered, continue) at h) in
        let same = ok_injective h' in
        let is_spark : d.executor ≡ ExecutorKind.spark = ground arith in
        let (_, _, _, _, low, high, _, _) =
          validate_model_route-spark F lower policy input g.output d valid is_spark in
        (low, high, ground arith, ground arith)
  ]

  -- What goes to Spark names one or two files, whichever way the decision was made; and where the
  -- model did not make it, the service was there.
  pub route-spark :
      (preference : ExecutorPreference) (report : RouteReport F.Carrier)
      → route F lower policy input preference provider ≡ ok report
      → report.decision.executor ≡ ExecutorKind.spark
      → (1 ≤ length input.known_files)
        × (length input.known_files ≤ 2)
        × (report.fallback ≡ false)
        × ((provider.available ≡ none) ⊎ (report.usage ≢ none))
  unfolding route
  route-spark preference report h spark =
      let (pre, e, h') = >>=-eq-ok (pre_route F lower policy input preference) _ h in after pre e h'
    where
      after :
          (pre : Option (RoutingDecision F.Carrier))
          → pre_route F lower policy input preference ≡ ok pre
          → continue F lower policy input preference provider pre ≡ ok report
          → (1 ≤ length input.known_files)
            × (length input.known_files ≤ 2)
            × (report.fallback ≡ false)
            × ((provider.available ≡ none) ⊎ (report.usage ≢ none))
      after (some d) e h =
          let (same, there, direct) = decided-spark preference d report h spark in
          let d_spark : d.executor ≡ ExecutorKind.spark = ground arith in
          let (low, high, _, _) = pre_route-spark F lower policy input preference d e d_spark in
          (low, high, direct, inl there)
      after none e h =
          let (low, high, direct, used) = asked-spark preference report h spark in
          (low, high, direct, inr used)

  pre_route-some : pre_route F lower policy input ExecutorPreference.spark ≢ ok none
  unfolding pre_route
  pre_route-some h = ground arith

  continue-fallback :
      (preference : ExecutorPreference) (pre : Option (RoutingDecision F.Carrier))
      (report : RouteReport F.Carrier)
      → continue F lower policy input preference provider pre ≡ ok report
      → report.fallback ≡ true
      → (report.decision.executor ≡ ExecutorKind.codex)
        × (report.usage ≡ none)
        × ((pre ≡ none) ⊎ (preference ≢ ExecutorPreference.spark))
  unfolding continue decided codex_fallback
  continue-fallback preference (some d) report h fallback = ground arith
  continue-fallback preference none report h fallback = ground arith

  -- A report is a fallback only for a failure of the service, and then it goes to Codex; a user who
  -- asked for Spark never gets one.
  pub route-fallback :
      (preference : ExecutorPreference) (report : RouteReport F.Carrier)
      → route F lower policy input preference provider ≡ ok report
      → report.fallback ≡ true
      → (report.decision.executor ≡ ExecutorKind.codex)
        × (report.usage ≡ none)
        × (preference ≢ ExecutorPreference.spark)
  unfolding route
  route-fallback preference report h fallback =
      let (pre, e, h') = >>=-eq-ok (pre_route F lower policy input preference) _ h in
      let (codex, unused, cases) = continue-fallback preference pre report h' fallback in
      (
        codex,
        unused,
        elim cases [ inl asked ↦ λ p. pre_route-some (ground arith) | inr other ↦ other ],
      )
