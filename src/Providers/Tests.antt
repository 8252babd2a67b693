-- ===== src/Providers/Tests.antt =====
-- Profiles of providers, and the theorem on their transport at one of them.
use localoud_ai.Base.{◌≡◌, ◌≢◌, refl, String, Option, none, some, Bool, true, false, ok, err}
use localoud_ai.Providers.{
  ProviderProfile, open_ai_chat, codex_app_server, local, cloud, Url, validate_profile,
  cloud_needs_https, endpoint_refused,
}
use localoud_ai.Providers.Transport.{IsSafe, validate_profile-IsSafe}

abbrev loopback : Url
loopback = record {
  scheme = "http";
  username = "";
  has_password = false;
  has_query = false;
  has_fragment = false;
  host = some "localhost";
}

abbrev parse_url : String → Option Url
parse_url s = some loopback

abbrev vllm : ProviderProfile
vllm = record {
  id = "vllm";
  name = "Local vLLM";
  protocol = open_ai_chat;
  base_url = some "http://localhost:8000/v1";
  locality = local;
  credential_env = none;
  max_concurrency = 2;
  enabled = true;
  revision = 1;
}

local_is_valid : validate_profile parse_url vllm ≡ ok tt
unfolding validate_profile localoud_ai.Base.Text.is_blank localoud_ai.Base.Text.all_chars
local_is_valid = refl

cloud_over_http :
    validate_profile parse_url (record vllm { locality = cloud }) ≡ err cloud_needs_https
unfolding validate_profile localoud_ai.Base.Text.is_blank localoud_ai.Base.Text.all_chars
cloud_over_http = refl

codex_with_url :
    validate_profile parse_url (record vllm { protocol = codex_app_server }) ≡ err endpoint_refused
unfolding validate_profile localoud_ai.Base.Text.is_blank localoud_ai.Base.Text.all_chars
codex_with_url = refl

validate_profile-IsSafe_example :
    (raw : String) × (url : Url) × (vllm.base_url ≡ some raw)
    × (parse_url raw ≡ some url)
    × IsSafe vllm url
validate_profile-IsSafe_example = validate_profile-IsSafe parse_url vllm local_is_valid (λ e. cc)
