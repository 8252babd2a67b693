-- ===== src/Providers.antt =====
-- crates/protocol-types/src/providers.rs: the profiles of model providers, the targets that sessions
-- choose, and the messages of an inference. The parser of URLs (reqwest) is a parameter, which gives
-- the parts of a URL that the code reads. A JSON value is of a type that is a parameter.
pub mod Transport
mod Tests
use localoud_ai.Base.{
  ℕ, String, List, Option, none, some, Bool, true, false, not, ◌&&◌, ◌||◌, ltb, leb, nat_beq, len,
  count, ◌==◌, nat_eq, string_eq, is_empty, length, Result, ok, err, ◌>>=◌, ◌>>◌, bail_if, ok_or,
}
use localoud_ai.Base.Text.{
  is_blank, all_chars, is_ascii_alphanumeric, is_ascii_digit, head_char, tail_chars,
}

pub data ProviderProtocol : Type 0 where
  codex_app_server local_dedicated open_ai_chat open_ai_responses anthropic_messages :
      ProviderProtocol

pub data ProviderLocality : Type 0 where
  local cloud : ProviderLocality

pub record ProviderProfile : Type 0 where
  pub id : String
  pub name : String
  pub protocol : ProviderProtocol
  pub base_url : Option String
  pub locality : ProviderLocality
  pub credential_env : Option String
  pub max_concurrency : ℕ
  pub enabled : Bool
  pub revision : ℕ

pub record ModelTarget : Type 0 where
  pub profile_id : String
  pub model_id : String
  pub effort : Option String

pub data TargetResolution : Type 0 where
  difficulty_default planner_default session_override plan_step_override reviewer_default :
      TargetResolution

pub record SessionModelPolicy : Type 0 where
  pub default_target : ModelTarget
  pub reviewer_target : Option ModelTarget
  pub allow_turn_override : Bool

pub record ModelCapabilities : Type 0 where
  pub tools : Bool
  pub streaming : Bool
  pub structured_output : Bool
  pub efforts : List String
  pub max_input_tokens : Option ℕ
  pub max_output_tokens : Option ℕ

pub record ProviderModel : Type 0 where
  pub id : String
  pub display_name : String
  pub capabilities : ModelCapabilities

pub data ContentBlock (Value : Type 0) : Type 0 where
  text_block : String → ContentBlock Value
  -- identifier, name and arguments
  tool_use : String → String → Value → ContentBlock Value
  -- the tool use that it answers, the text, whether it is an error
  tool_result : String → String → Bool → ContentBlock Value
  refusal_block : Option String → Option String → ContentBlock Value

pub data TranscriptRole : Type 0 where
  system user assistant tool : TranscriptRole

pub record TranscriptMessage (Value : Type 0) : Type 0 where
  pub role : TranscriptRole
  pub content : List (ContentBlock Value)
  pub provider_state : Option Value

pub record InferenceTool (Value : Type 0) : Type 0 where
  pub name : String
  pub description : String
  pub input_schema : Value

pub record InferenceRequest (Value : Type 0) : Type 0 where
  pub target : ModelTarget
  pub system : Option String
  pub messages : List (TranscriptMessage Value)
  pub tools : List (InferenceTool Value)
  pub max_output_tokens : ℕ

pub record InferenceUsage : Type 0 where
  pub input_tokens : ℕ
  pub cached_input_tokens : ℕ
  pub output_tokens : ℕ

pub record InferenceResponse (Value : Type 0) : Type 0 where
  pub content : List (ContentBlock Value)
  pub usage : InferenceUsage
  pub stop_reason : String
  pub provider_state : Option Value

pub data InferenceEvent (Value : Type 0) : Type 0 where
  text_delta : String → InferenceEvent Value
  -- identifier, name and a piece of the arguments
  tool_use_delta : String → String → String → InferenceEvent Value
  done : InferenceResponse Value → InferenceEvent Value

pub data ProviderError : Type 0 where
  bad_profile_id bad_profile_name bad_concurrency bad_credential_name : ProviderError
  endpoint_refused url_missing url_unreadable url_with_secrets : ProviderError
  local_needs_loopback cloud_needs_https dedicated_needs_local anthropic_needs_cloud : ProviderError
  bad_target no_messages bad_output_limit too_many_tools : ProviderError

-- What the code reads of a URL.
pub record Url : Type 0 where
  pub scheme : String
  pub username : String
  pub has_password : Bool
  pub has_query : Bool
  pub has_fragment : Bool
  pub host : Option String

abbrev pub is_some : {A : Type 0} → Option A → Bool
is_some none = false
is_some (some a) = true

abbrev pub is_local : ProviderLocality → Bool
is_local local = true
is_local cloud = false

abbrev pub is_dedicated : ProviderProtocol → Bool
is_dedicated local_dedicated = true
is_dedicated _ = false

abbrev pub is_anthropic : ProviderProtocol → Bool
is_anthropic anthropic_messages = true
is_anthropic _ = false

abbrev pub is_codex : ProviderProtocol → Bool
is_codex codex_app_server = true
is_codex _ = false

abbrev is_profile_char : ℕ → Bool
is_profile_char c = is_ascii_alphanumeric c || nat_beq c b'-' || nat_beq c b'_'

abbrev is_env_start : ℕ → Bool
is_env_start c = nat_beq c b'_' || leb b'A' c && leb c b'Z'

abbrev is_env_char : ℕ → Bool
is_env_char c = is_env_start c || is_ascii_digit c

abbrev starts_well : Option ℕ → Bool
starts_well none = false
starts_well (some c) = is_env_start c

abbrev bad_env : Option String → Bool
bad_env none = false
bad_env (some name) =
    ltb 128 (len name)
    || not (starts_well (head_char name))
    || not (all_chars is_env_char (tail_chars name))

-- `matches!(url.host_str(), Some("127.0.0.1" | "localhost"))`
abbrev pub is_loopback : Option String → Bool
is_loopback none = false
is_loopback (some h) = h == "127.0.0.1" || h == "localhost"

-- The transport that the code demands of a profile at a URL.
unfoldable pub check_url : ProviderProfile → Url → Result ProviderError (Unit {0})
check_url p url = do
  bail_if (not (url.username == "") || url.has_password || url.has_query || url.has_fragment)
      url_with_secrets
  bail_if
      (is_local p.locality
        && (not (url.scheme == "http") || not (is_loopback url.host) || is_some p.credential_env))
      local_needs_loopback
  bail_if (not (is_local p.locality) && not (url.scheme == "https")) cloud_needs_https
  bail_if (is_dedicated p.protocol && not (is_local p.locality)) dedicated_needs_local
  bail_if (is_anthropic p.protocol && is_local p.locality) anthropic_needs_cloud

-- The `match self.protocol` of `ProviderProfile::validate`.
unfoldable pub check_endpoint :
    (String → Option Url) → ProviderProfile → Result ProviderError (Unit {0})
unfolding check_url
check_endpoint parse_url p =
    let bare =
      bail_if (not (is_local p.locality) || is_some p.base_url || is_some p.credential_env)
        endpoint_refused in
    let remote = (do
      raw ← ok_or p.base_url url_missing
      url ← ok_or (parse_url raw) url_unreadable
      check_url p url) in
    elim (is_codex p.protocol) [ true ↦ bare | false ↦ remote ]

-- `ProviderProfile::validate`
unfoldable pub validate_profile :
    (String → Option Url) → ProviderProfile → Result ProviderError (Unit {0})
unfolding check_endpoint
validate_profile parse_url p = do
  bail_if (is_blank p.id || ltb 80 (len p.id) || not (all_chars is_profile_char p.id))
      bad_profile_id
  bail_if (is_blank p.name || ltb 120 (count p.name)) bad_profile_name
  bail_if (not (leb 1 p.max_concurrency && leb p.max_concurrency 8)) bad_concurrency
  bail_if (bad_env p.credential_env) bad_credential_name
  check_endpoint parse_url p

abbrev bad_effort : Option String → Bool
bad_effort none = false
bad_effort (some v) = is_blank v || ltb 50 (len v)

-- `ModelTarget::validate`
unfoldable pub validate_target : ModelTarget → Result ProviderError (Unit {0})
validate_target t =
    bail_if
      (is_blank t.profile_id
        || is_blank t.model_id
        || ltb 80 (len t.profile_id)
        || ltb 300 (len t.model_id)
        || bad_effort t.effort)
      bad_target

abbrev optional_target : Option ModelTarget → Result ProviderError (Unit {0})
optional_target none = ok tt
optional_target (some t) = validate_target t

-- `SessionModelPolicy::validate`
unfoldable pub validate_policy : SessionModelPolicy → Result ProviderError (Unit {0})
unfolding validate_target
validate_policy p = validate_target p.default_target >> optional_target p.reviewer_target

-- `InferenceRequest::validate`
unfoldable pub validate_request :
    {Value : Type 0} → InferenceRequest Value → Result ProviderError (Unit {0})
unfolding validate_target
validate_request r = do
  validate_target r.target
  bail_if (is_empty r.messages) no_messages
  bail_if (r.max_output_tokens == 0 || ltb 131072 r.max_output_tokens) bad_output_limit
  bail_if (ltb 128 (length r.tools)) too_many_tools

-- `ProviderProfile::credential_present`, with the variables of the environment.
unfoldable pub credential_present : (String → Bool) → ProviderProfile → Bool
credential_present set p = elim p.credential_env [ none ↦ true | some name ↦ set name ]
