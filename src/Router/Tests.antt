-- ===== src/Router/Tests.antt =====
-- Runs of the router, with hundredths for `f64` and a lower-case mapping that changes nothing.
use localoud_ai.Base.{
  ℕ, ◌≤◌, ◌<◌, ◌≡◌, ◌≢◌, ◌⊎◌, inl, inr, refl, String, List, [], ◌∷◌, length, Option, none, some,
  Bool, true, false, Result, ok, err,
}
use localoud_ai.Base.Text.{is_blank, has_any}
use localoud_ai.Base.Float.{hundredths}
use localoud_ai.Core.{ExecutorKind, ExecutorPreference, RiskLevel, Complexity}
use localoud_ai.Local.{RoutingInput, RoutingDecision, RouteReport}
use localoud_ai.Router.{
  RouteError, RoutingPolicy, Provider, planning_required, planning_words, loc_reaches,
  default_policy, pre_route, validate_model_route, route,
}
use localoud_ai.Router.Gate.{validate_model_route-spark}
use localoud_ai.Router.Report.{route-spark, route-fallback}

abbrev same : String → String
same s = s

abbrev policy : RoutingPolicy ℕ
policy = record { spark_confidence_threshold = 75; spark_max_estimated_loc = 100 }

abbrev typo : RoutingInput
typo = record { request = "fix a typo"; known_files = "a.rs" ∷ []; estimated_loc = some 3 }

abbrev design : RoutingInput
design = record { request = "plan the architecture"; known_files = []; estimated_loc = none }

abbrev spark_decision : String → ℕ → RoutingDecision ℕ
spark_decision reason confidence = record {
  executor = ExecutorKind.spark;
  complexity = Complexity.trivial;
  risk = RiskLevel.low;
  needs_plan = false;
  needs_final_astra_review = false;
  estimated_scope = record { files = 1; loc = 3 };
  confidence = confidence;
  reason = reason;
}

abbrev planned_decision : RoutingDecision ℕ
planned_decision = record (spark_decision "wide" 90) { needs_plan = true }

abbrev trivial_edit : RoutingDecision ℕ
trivial_edit = spark_decision "bounded trivial edit in selected files" 100

abbrev ready_provider : Provider ℕ
ready_provider = record { available = none; classify_task = λ i. err "busy" }

abbrev failing_provider : Provider ℕ
failing_provider = record { available = some "offline"; classify_task = λ i. err "busy" }

pre_route-typo :
    pre_route hundredths same policy typo ExecutorPreference.auto ≡ ok (some trivial_edit)
unfolding pre_route is_blank localoud_ai.Base.Text.has_word localoud_ai.Router.decision
pre_route-typo = refl

reason_test : is_blank "wide" ≡ false
unfolding is_blank
reason_test = refl

accepted :
    validate_model_route hundredths same policy (spark_decision "small" 80) typo
    ≡ ok (spark_decision "small" 80)
unfolding validate_model_route is_blank
accepted = refl

validate_model_route-spark_example :
    (spark_decision "small" 80 ≡ spark_decision "small" 80)
    × (hundredths.less 80 75 ≡ false)
    × (1 ≤ 2)
    × (3 < 100)
    × (1 ≤ 1)
    × (1 ≤ 2)
    × (RiskLevel.low ≡ RiskLevel.low)
    × (false ≡ false)
validate_model_route-spark_example =
    validate_model_route-spark hundredths same policy typo (spark_decision "small" 80)
      (spark_decision "small" 80) accepted refl

abbrev spark_report : RouteReport ℕ
spark_report = record { decision = trivial_edit; usage = none; fallback = false }

routed : route hundredths same policy typo ExecutorPreference.auto ready_provider ≡ ok spark_report
unfolding route pre_route is_blank localoud_ai.Base.Text.has_word
routed = refl

route-spark_example :
    (1 ≤ 1)
    × (1 ≤ 2)
    × (false ≡ false)
    × ((ready_provider.available ≡ none) ⊎ (spark_report.usage ≢ none))
route-spark_example =
    route-spark hundredths same policy typo ready_provider ExecutorPreference.auto spark_report
      routed refl

abbrev codex_report : RouteReport ℕ
codex_report = record {
  decision = record {
    executor = ExecutorKind.codex;
    complexity = Complexity.normal;
    risk = RiskLevel.low;
    needs_plan = false;
    needs_final_astra_review = false;
    estimated_scope = record { files = 1; loc = 3 };
    confidence = 100;
    reason = "Spark unavailable or invalid: offline";
  };
  usage = none;
  fallback = true;
}

fell_back :
    route hundredths same policy typo ExecutorPreference.auto failing_provider ≡ ok codex_report
unfolding route pre_route is_blank localoud_ai.Base.Text.has_word
fell_back = refl

route-fallback_example :
    (ExecutorKind.codex ≡ ExecutorKind.codex)
    × (codex_report.usage ≡ none)
    × (ExecutorPreference.auto ≢ ExecutorPreference.spark)
route-fallback_example =
    route-fallback hundredths same policy typo failing_provider ExecutorPreference.auto codex_report
      fell_back refl
