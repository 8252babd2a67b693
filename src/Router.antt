-- ===== src/Router.antt =====
-- crates/hub-router/src/lib.rs: which executor a request goes to. The case mapping of Unicode
-- (`str::to_lowercase`) and the local model's service (`LocalModelProvider`) are parameters.
pub mod Gate
pub mod Report
mod Tests
use localoud_ai.Base.{
  ℕ, ◌<◌, ◌%◌, ◌^◌, ◌≡◌, String, List, [], ◌∷◌, Option, none, some, Bool, true, false, not, ◌&&◌,
  ◌||◌, ltb, leb, is_empty, length, if◌then◌else◌, Result, ok, err, ◌>>=◌, ◌>>◌, bail_if,
}
use localoud_ai.Base.Text.{is_blank, has_any, concat}
use localoud_ai.Base.Float.{F64}
use localoud_ai.Core.{
  ExecutorKind, ExecutorPreference, RiskLevel, Complexity, trivial, normal, deep, is_low, is_high,
}
use localoud_ai.Local.{
  RoutingInput, EstimatedScope, RoutingDecision, LocalUsage, Generation, RouteReport, in_unit,
}

pub data RouteError : Type 0 where
  empty_request planning_required not_one_or_two_files invalid_routing_result : RouteError
  provider_error : String → RouteError

pub record RoutingPolicy (C : Type 0) : Type 0 where
  pub spark_confidence_threshold : C
  pub spark_max_estimated_loc : ℕ

-- The local model's service: why it is not available, if so, and its answer to a request.
pub record Provider (C : Type 0) : Type 0 where
  pub available : Option String
  pub classify_task : RoutingInput → Result String (Generation (RoutingDecision C))

abbrev pub is_spark : ExecutorKind → Bool
is_spark ExecutorKind.spark = true
is_spark _ = false

abbrev pub is_astra : ExecutorKind → Bool
is_astra ExecutorKind.astra = true
is_astra _ = false

abbrev pub prefers_codex : ExecutorPreference → Bool
prefers_codex ExecutorPreference.codex = true
prefers_codex _ = false

abbrev pub prefers_spark : ExecutorPreference → Bool
prefers_spark ExecutorPreference.spark = true
prefers_spark _ = false

-- The words that ask for a plan.
abbrev pub planning_words : List String
planning_words =
    "architecture" ∷ "security" ∷ "authentication" ∷ "migration" ∷ "public api" ∷ "権限" ∷ "認証"
    ∷ "セキュリティ" ∷ "設計" ∷ "移行" ∷ []

abbrev pub trivial_words : List String
trivial_words = "typo" ∷ "rename" ∷ "format only" ∷ "誤字" ∷ "名前を変更" ∷ "置換" ∷ []

-- `is_none_or(|v| v < bound)`, the negation of `is_some_and(|v| v >= bound)`
abbrev pub loc_reaches : ℕ → Option ℕ → Bool
loc_reaches bound none = false
loc_reaches bound (some v) = leb bound v

-- `known_files.is_empty() || known_files.len() > 2`
abbrev pub not_one_or_two : List String → Bool
not_one_or_two files = is_empty files || ltb 2 (length files)

abbrev loc_or_zero : Option ℕ → ℕ
loc_or_zero none = 0
loc_or_zero (some v) = v

module _ (F : F64) (lower : String → String) where
  open F use {Carrier, less, one_f, three_quarters}

  -- `RoutingPolicy::default`
  abbrev pub default_policy : RoutingPolicy Carrier
  default_policy = record {
    spark_confidence_threshold = three_quarters;
    spark_max_estimated_loc = 100;
  }

  unfoldable pub decision : ExecutorKind → String → RoutingInput → RoutingDecision Carrier
  decision executor reason input = record {
    executor = executor;
    complexity = if is_spark executor then Complexity.trivial else Complexity.normal;
    risk = RiskLevel.low;
    needs_plan = is_astra executor;
    needs_final_astra_review = is_astra executor;
    estimated_scope = record {
      files = length input.known_files % 2 ^ 32;
      loc = loc_or_zero input.estimated_loc;
    };
    confidence = one_f;
    reason = reason;
  }

  -- The end of `pre_route`, for a request without a planning word whose preference is `Auto`.
  unfoldable pub auto_route :
      RoutingPolicy Carrier → RoutingInput → String → Option (RoutingDecision Carrier)
  auto_route policy input text =
      if not_one_or_two input.known_files
        || loc_reaches policy.spark_max_estimated_loc input.estimated_loc
      then some (decision ExecutorKind.codex "repository exploration or multi-file scope" input)
      else if has_any trivial_words text
      then some (decision ExecutorKind.spark "bounded trivial edit in selected files" input)
      else none

  -- The `match preference`.
  unfoldable pub by_preference :
      RoutingPolicy Carrier
      → RoutingInput
      → String
      → ExecutorPreference
      → Result RouteError (Option (RoutingDecision Carrier))
  unfolding auto_route
  by_preference policy input text ExecutorPreference.codex =
      ok (some (decision ExecutorKind.codex "user selected Codex" input))
  by_preference policy input text ExecutorPreference.api =
      ok (some (decision ExecutorKind.api "user selected API provider" input))
  by_preference policy input text ExecutorPreference.astra =
      ok (some (decision ExecutorKind.astra "user selected Astra" input))
  by_preference policy input text ExecutorPreference.spark =
      if not_one_or_two input.known_files
      then err not_one_or_two_files
      else ok (some (decision ExecutorKind.spark "user selected Spark for bounded files" input))
  by_preference policy input text ExecutorPreference.auto = ok (auto_route policy input text)

  abbrev planned : RoutingInput → RoutingDecision Carrier
  planned input =
      record (decision ExecutorKind.astra "architecture / security / migration requires planning"
        input) { risk = RiskLevel.high; complexity = Complexity.deep }

  -- `RoutingPolicy::pre_route`
  unfoldable pub pre_route :
      RoutingPolicy Carrier
      → RoutingInput
      → ExecutorPreference
      → Result RouteError (Option (RoutingDecision Carrier))
  unfolding by_preference
  pre_route policy input preference =
      if is_blank input.request
      then err empty_request
      else if prefers_codex preference
      then ok (some (decision ExecutorKind.codex "user selected model" input))
      else if has_any planning_words (lower input.request)
      then (if prefers_spark preference then err planning_required else ok (some (planned input)))
      else by_preference policy input (lower input.request) preference

  -- `RoutingPolicy::validate_model_route`
  unfoldable pub validate_model_route :
      RoutingPolicy Carrier
      → RoutingDecision Carrier
      → RoutingInput
      → Result RouteError (RoutingDecision Carrier)
  validate_model_route policy d input =
      if not (in_unit F d.confidence) || is_blank d.reason
      then err invalid_routing_result
      else if is_high d.risk || d.needs_plan
      then ok (record d { executor = ExecutorKind.astra; needs_plan = true })
      else if is_spark d.executor
          && (less d.confidence policy.spark_confidence_threshold
              || ltb 2 d.estimated_scope.files
              || leb policy.spark_max_estimated_loc d.estimated_scope.loc
              || not_one_or_two input.known_files
              || not (is_low d.risk))
      then ok (record d {
        executor = ExecutorKind.codex;
        reason = concat "Spark route rejected by policy: " d.reason;
      })
      else ok d

  -- `RoutingPolicy::codex_fallback`
  unfoldable pub codex_fallback : RoutingInput → String → RoutingDecision Carrier
  unfolding decision
  codex_fallback input reason =
      decision ExecutorKind.codex (concat "Spark unavailable or invalid: " reason) input

  abbrev fallback_report : RoutingInput → String → RouteReport Carrier
  fallback_report input reason = record {
    decision = codex_fallback input reason;
    usage = none;
    fallback = true;
  }

  -- A decision of `pre_route`, which for Spark depends on the service being there.
  unfoldable pub decided :
      Provider Carrier
      → RoutingInput
      → ExecutorPreference
      → RoutingDecision Carrier
      → Result RouteError (RouteReport Carrier)
  unfolding codex_fallback
  decided provider input preference d =
      if is_spark d.executor
      then elim provider.available [
        | none ↦ ok (record { decision = d; usage = none; fallback = false })
        | some e ↦
            if prefers_spark preference
            then err (provider_error e)
            else ok (fallback_report input e)
      ]
      else ok (record { decision = d; usage = none; fallback = false })

  -- The rest of `route`, after `pre_route`: a decision is taken, or the model is asked.
  unfoldable pub continue :
      RoutingPolicy Carrier
      → RoutingInput
      → ExecutorPreference
      → Provider Carrier
      → Option (RoutingDecision Carrier)
      → Result RouteError (RouteReport Carrier)
  continue policy input preference provider (some d) = decided provider input preference d
  continue policy input preference provider none = elim (provider.classify_task input) [
    | ok g ↦ validate_model_route policy g.output input >>= λ d.
        ok (record { decision = d; usage = some g.usage; fallback = false })
    | err e ↦ ok (fallback_report input e)
  ]

  -- `RoutingPolicy::route`
  unfoldable pub route :
      RoutingPolicy Carrier
      → RoutingInput
      → ExecutorPreference
      → Provider Carrier
      → Result RouteError (RouteReport Carrier)
  unfolding continue decided
  route policy input preference provider =
      pre_route policy input preference >>= continue policy input preference provider
