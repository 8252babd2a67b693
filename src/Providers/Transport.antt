-- ===== src/Providers/Transport.antt =====
-- Where a valid profile sends what it is given (crates/protocol-types/src/providers.rs).
use localoud_ai.Base.{
  ◌≡◌, ◌≢◌, refl, String, Option, none, some, true, false, not, ◌&&◌, ◌||◌, ◌==◌, string_eq,
  ==_sound, ok, >>=-eq-ok, >>-eq-ok, ok_or, ok_or-eq-ok, bail_if, arith,
}
use localoud_ai.Providers.{
  ProviderProfile, ProviderProtocol, local, cloud, codex_app_server, Url, check_url, check_endpoint,
  validate_profile, bad_profile_id, bad_profile_name, bad_concurrency, bad_credential_name,
  is_codex, is_local, is_some, is_loopback, url_missing, url_unreadable,
}

-- A URL without secrets of its own, which a local profile reaches over the loopback interface and
-- without a credential, and a cloud profile over HTTPS.
pub record IsSafe (p : ProviderProfile) (url : Url) : Type 0 where
  pub user : url.username ≡ ""
  pub password : url.has_password ≡ false
  pub query : url.has_query ≡ false
  pub fragment : url.has_fragment ≡ false
  pub near :
      p.locality ≡ local
      → (url.scheme ≡ "http") × (is_loopback url.host ≡ true) × (p.credential_env ≡ none)
  pub far : p.locality ≡ cloud → url.scheme ≡ "https"

-- The tests that the code makes, read off one after the other.
check_url-eq-ok :
    (p : ProviderProfile) (url : Url)
    → check_url p url ≡ ok tt
    → ((not (url.username == "") || url.has_password || url.has_query || url.has_fragment) ≡ false)
      × ((is_local p.locality
            && (not (url.scheme == "http")
                || not (is_loopback url.host)
                || is_some p.credential_env))
          ≡ false)
      × ((not (is_local p.locality) && not (url.scheme == "https")) ≡ false)
unfolding check_url
check_url-eq-ok p url h = ground arith

none_of : {A : Type 0} (o : Option A) → is_some o ≡ false → o ≡ none
none_of none h = refl
none_of (some a) h = cc

check_url-IsSafe : (p : ProviderProfile) (url : Url) → check_url p url ≡ ok tt → IsSafe p url
check_url-IsSafe p url h =
    let (bare, near, far) = check_url-eq-ok p url h in
    record {
      user = ==_sound url.username "" (ground arith);
      password = ground arith;
      query = ground arith;
      fragment = ground arith;
      near = λ e.
          let at_home : is_local p.locality ≡ true = rw e refl in
          let tests = rw at_home at near in
          (
            ==_sound url.scheme "http" (ground arith),
            ground arith,
            none_of p.credential_env (ground arith),
          );
      far = λ e.
          let away : is_local p.locality ≡ false = rw e refl in
          let tests = rw away at far in ==_sound url.scheme "https" (ground arith);
    }

remote_of : (p : ProviderProtocol) → p ≢ codex_app_server → is_codex p ≡ false
remote_of codex_app_server h = absurd (h refl)
remote_of _ h = refl

-- A valid profile that is not of the Codex server has a URL that the parser reads, and what it sends
-- there is safe.
pub validate_profile-IsSafe :
    (parse_url : String → Option Url) (p : ProviderProfile)
    → validate_profile parse_url p ≡ ok tt
    → p.protocol ≢ codex_app_server
    → (raw : String) × (url : Url) × (p.base_url ≡ some raw)
      × (parse_url raw ≡ some url)
      × IsSafe p url
unfolding validate_profile check_endpoint
validate_profile-IsSafe parse_url p v other =
    let (_, v1) = >>-eq-ok (bail_if _ bad_profile_id) _ v in
    let (_, v2) = >>-eq-ok (bail_if _ bad_profile_name) _ v1 in
    let (_, v3) = >>-eq-ok (bail_if _ bad_concurrency) _ v2 in
    let v4 : check_endpoint parse_url p ≡ ok tt =
      (>>-eq-ok (bail_if _ bad_credential_name) _ v3).1 in
    let v5 = rw (remote_of p.protocol other, check_endpoint) at v4 in
    let (raw, r, v6) = >>=-eq-ok (ok_or p.base_url url_missing) _ v5 in
    let (url, u, v7) = >>=-eq-ok (ok_or (parse_url raw) url_unreadable) _ v6 in
    (
      raw,
      url,
      ok_or-eq-ok p.base_url url_missing r,
      ok_or-eq-ok (parse_url raw) url_unreadable u,
      check_url-IsSafe p url v7,
    )
