-- ===== src/Db/Profiles.antt =====
-- Provider profiles in the store: `provider_profiles`, `provider_profile` and `save_provider_profile`.
-- A row holds the protocol and the locality as texts.
pub mod Codes
pub mod Order
pub mod Upsert
pub mod Saved
mod Tests
use Prim.Native.Nat.{Ordering}
use Prim.Native.String
use localoud_ai.Base.{
  ℕ, ◌+◌, ◌^◌, String, List, [], ◌∷◌, ◌++◌, Option, none, some, Bool, true, false, not, ◌==◌,
  nat_eq, string_eq, leb, any, find, if◌then◌else◌, Result, ok, err, ◌>>=◌, ◌>>◌, bail_if,
}
use localoud_ai.Db.{update_where, row_with}
use localoud_ai.Providers.{
  ProviderProtocol, codex_app_server, local_dedicated, open_ai_chat, open_ai_responses,
  anthropic_messages, ProviderLocality, local, cloud, ProviderProfile, ProviderError, Url,
  validate_profile,
}

pub record ProfileRow : Type 0 where
  pub id : String
  pub name : String
  pub protocol : String
  pub base_url : Option String
  pub locality : String
  pub credential_env : Option String
  pub max_concurrency : ℕ
  pub enabled : Bool
  pub revision : ℕ

pub data ProfileError : Type 0 where
  unknown_protocol unknown_locality first_revision stale number_too_large : ProfileError
  refused : ProviderError → ProfileError

unfoldable pub read_protocol : String → Result ProfileError ProviderProtocol
read_protocol code =
    if code == "codex_app_server"
    then ok codex_app_server
    else if code == "local_dedicated"
    then ok local_dedicated
    else if code == "open_ai_chat"
    then ok open_ai_chat
    else if code == "openai_chat"
    then ok open_ai_chat
    else if code == "open_ai_responses"
    then ok open_ai_responses
    else if code == "openai_responses"
    then ok open_ai_responses
    else if code == "anthropic_messages"
    then ok anthropic_messages
    else err unknown_protocol

unfoldable pub read_locality : String → Result ProfileError ProviderLocality
read_locality code =
    if code == "local" then ok local else if code == "cloud" then ok cloud else err unknown_locality

unfoldable pub protocol_code : ProviderProtocol → String
protocol_code codex_app_server = "codex_app_server"
protocol_code local_dedicated = "local_dedicated"
protocol_code open_ai_chat = "openai_chat"
protocol_code open_ai_responses = "openai_responses"
protocol_code anthropic_messages = "anthropic_messages"

unfoldable pub locality_code : ProviderLocality → String
locality_code local = "local"
locality_code cloud = "cloud"

unfoldable pub read_row : ProfileRow → Result ProfileError ProviderProfile
unfolding read_protocol read_locality
read_row r = do
  protocol ← read_protocol r.protocol
  locality ← read_locality r.locality
  ok (record {
    id = r.id;
    name = r.name;
    protocol = protocol;
    base_url = r.base_url;
    locality = locality;
    credential_env = r.credential_env;
    max_concurrency = r.max_concurrency;
    enabled = r.enabled;
    revision = r.revision;
  })

unfoldable pub write_row : ProviderProfile → ProfileRow
unfolding protocol_code locality_code
write_row p = record {
  id = p.id;
  name = p.name;
  protocol = protocol_code p.protocol;
  base_url = p.base_url;
  locality = locality_code p.locality;
  credential_env = p.credential_env;
  max_concurrency = p.max_concurrency;
  enabled = p.enabled;
  revision = p.revision;
}

-- `ORDER BY name,id`, over the bytes of the texts.
abbrev pub before : ProfileRow → ProfileRow → Bool
before a b = elim (String.compare a.name b.name) [
  | Ordering.lt ↦ true
  | Ordering.gt ↦ false
  | Ordering.eq ↦ elim (String.compare a.id b.id) [ Ordering.gt ↦ false | _ ↦ true ]
]

unfoldable pub insert_row : ProfileRow → List ProfileRow → List ProfileRow
insert_row r [] = r ∷ []
insert_row r (x ∷ rows) = if before r x then r ∷ x ∷ rows else x ∷ insert_row r rows

unfoldable pub in_order : List ProfileRow → List ProfileRow
unfolding insert_row
in_order [] = []
in_order (r ∷ rows) = insert_row r (in_order rows)

unfoldable pub read_rows : List ProfileRow → Result ProfileError (List ProviderProfile)
unfolding read_row
read_rows [] = ok []
read_rows (r ∷ rows) = do p ← read_row r; ps ← read_rows rows; ok (p ∷ ps)

unfoldable pub provider_profiles : List ProfileRow → Result ProfileError (List ProviderProfile)
unfolding read_rows in_order
provider_profiles rows = read_rows (in_order rows)

abbrev pub profile_key : ProviderProfile → String
profile_key p = p.id

unfoldable pub provider_profile :
    String → List ProfileRow → Result ProfileError (Option ProviderProfile)
unfolding provider_profiles
provider_profile id rows = do ps ← provider_profiles rows; ok (row_with profile_key id ps)

abbrev pub row_key : ProfileRow → String
row_key r = r.id

-- A new profile starts at revision 1, and any other replaces exactly the revision before it.
unfoldable pub check_revision : Option ProfileRow → ℕ → Result ProfileError (Unit {0})
check_revision none revision = bail_if (not (revision == 1)) first_revision
check_revision (some old) revision = bail_if (not (revision == old.revision + 1)) stale

abbrev pub valid_or : Result ProviderError (Unit {0}) → Result ProfileError (Unit {0})
valid_or (ok u) = ok u
valid_or (err e) = err (refused e)

-- `INSERT … ON CONFLICT(id) DO UPDATE`
unfoldable pub upsert : ProfileRow → List ProfileRow → List ProfileRow
upsert r rows =
    if any (λ (x : ProfileRow). x.id == r.id) rows
    then update_where (λ (x : ProfileRow). x.id == r.id) (λ x. r) rows
    else rows ++ r ∷ []

-- A number of SQLite is below `2 ^ 63`.
unfoldable pub save_provider_profile :
    (String → Option Url)
    → ProviderProfile
    → List ProfileRow
    → Result ProfileError (List ProfileRow)
unfolding validate_profile check_revision upsert write_row
save_provider_profile parse_url p rows = do
  valid_or (validate_profile parse_url p)
  check_revision (row_with row_key p.id rows) p.revision
  bail_if (leb (2 ^ 63) p.revision) number_too_large
  ok (upsert (write_row p) rows)
