-- ===== src/Db/Profiles/Codes.antt =====
-- The texts of a row of provider_profiles (crates/hub-db/src/lib.rs).
use localoud_ai.Base.{◌≡◌, refl, sym, ap, ok, ok_injective, >>=-eq-ok}
use localoud_ai.Providers.{
  ProviderProtocol, codex_app_server, local_dedicated, open_ai_chat, open_ai_responses,
  anthropic_messages, ProviderLocality, local, cloud, ProviderProfile,
}
use localoud_ai.Db.Profiles.{
  ProfileRow, read_protocol, read_locality, protocol_code, locality_code, read_row, write_row,
}

read_protocol-code : (p : ProviderProtocol) → read_protocol (protocol_code p) ≡ ok p
unfolding read_protocol protocol_code
read_protocol-code codex_app_server = refl
read_protocol-code local_dedicated = refl
read_protocol-code open_ai_chat = refl
read_protocol-code open_ai_responses = refl
read_protocol-code anthropic_messages = refl

read_locality-code : (l : ProviderLocality) → read_locality (locality_code l) ≡ ok l
unfolding read_locality locality_code
read_locality-code local = refl
read_locality-code cloud = refl

-- A row that was written for a profile is read back as the profile.
pub read_row-write_row : (p : ProviderProfile) → read_row (write_row p) ≡ ok p
unfolding read_row write_row
read_row-write_row p = rw (read_protocol-code p.protocol, read_locality-code p.locality) refl

pub read_row-id : (r : ProfileRow) {p : ProviderProfile} → read_row r ≡ ok p → p.id ≡ r.id
unfolding read_row
read_row-id r h =
    let (protocol, _, h1) = >>=-eq-ok (read_protocol r.protocol) _ h in
    let (locality, _, h2) = >>=-eq-ok (read_locality r.locality) _ h1 in
    ap (λ (p : ProviderProfile). p.id) (sym (ok_injective h2))
