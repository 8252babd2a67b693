-- ===== src/Db/Profiles/Tests.antt =====
-- Two changes to one profile (crates/hub-db/src/lib.rs), and the theorems at concrete inputs.
use localoud_ai.Base.{
  ◌≡◌, ◌==◌, refl, String, List, [], ◌∷◌, Option, none, some, Bool, true, false, if◌then◌else◌,
  Result, ok, err, string_eq, arith,
}
use localoud_ai.Providers.{ProviderProfile, codex_app_server, local, Url, validate_profile}
use localoud_ai.Db.Profiles.{
  ProfileRow, stale, unknown_protocol, provider_profile, provider_profiles, save_provider_profile,
  write_row,
}
use localoud_ai.Db.Profiles.Codes.{read_row-write_row}
use localoud_ai.Db.Profiles.Upsert.{IsTable}
use localoud_ai.Db.Profiles.Saved.{provider_profile-save, save-stale}

abbrev no_url : String → Option Url
no_url s = none

abbrev codex : ProviderProfile
codex = record {
  id = "codex";
  name = "Codex";
  protocol = codex_app_server;
  base_url = none;
  locality = local;
  credential_env = none;
  max_concurrency = 1;
  enabled = true;
  revision = 1;
}

abbrev rows : List ProfileRow
rows = write_row codex ∷ []

abbrev renamed : ProviderProfile
renamed = record codex { name = "Codex CLI"; revision = 2 }

abbrev later_rows : List ProfileRow
later_rows = write_row renamed ∷ []

saved : save_provider_profile no_url renamed rows ≡ ok later_rows
unfolding save_provider_profile localoud_ai.Base.Text.is_blank localoud_ai.Base.Text.all_chars
saved = refl

rows-IsTable : IsTable rows
rows-IsTable = record { readable = ((codex, read_row-write_row codex), tt); keyed = (λ m. m, tt) }

abbrev unknown : ProfileRow
unknown = record {
  id = "x";
  name = "X";
  protocol = "gopher";
  base_url = none;
  locality = "local";
  credential_env = none;
  max_concurrency = 1;
  enabled = true;
  revision = 1;
}

unreadable : provider_profiles (write_row codex ∷ unknown ∷ []) ≡ err unknown_protocol
unfolding provider_profiles write_row
unreadable = refl

provider_profile-save_example :
    IsTable later_rows
    × ((id : String)
        → provider_profile id later_rows
          ≡ (if renamed.id == id then ok (some renamed) else provider_profile id rows))
provider_profile-save_example =
    provider_profile-save no_url renamed rows later_rows rows-IsTable saved

save-stale_example :
    save_provider_profile no_url (record codex { name = "Other"; revision = 2 }) later_rows
    ≡ err stale
unfolding validate_profile localoud_ai.Base.Text.is_blank localoud_ai.Base.Text.all_chars
save-stale_example =
    save-stale no_url renamed (record codex { name = "Other"; revision = 2 }) rows later_rows saved
      refl (omega arith) refl
