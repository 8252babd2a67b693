-- ===== src/Policy.antt =====
-- crates/hub-policy/src/lib.rs: what is taken out of texts and JSON values before they are written to the
-- journal. The engine of regular expressions is a parameter, which replaces all matches of a pattern.
pub mod Secrets
mod Tests
use Prim.Native.Char.{code}
use Prim.Native.String
use localoud_ai.Base.{
  ℕ, ◌+◌, String, List, [], ◌∷◌, Bool, true, false, ◌&&◌, leb, nat_beq, any, if◌then◌else◌,
}
use localoud_ai.Base.Json.{
  Json, Items, Fields, null, boolean, number, other_number, text, array, object, end_items, item,
  end_fields, field,
}

-- The patterns: keys of known services, bearer tokens, assignments to secret names, private keys.
pub data SecretPattern : Type 0 where
  service_key bearer assignment private_key : SecretPattern

abbrev patterns : List SecretPattern
patterns = service_key ∷ bearer ∷ assignment ∷ private_key ∷ []

abbrev replace_each : (SecretPattern → String → String) → List SecretPattern → String → String
replace_each replace_all [] s = s
replace_each replace_all (p ∷ ps) s = replace_each replace_all ps (replace_all p s)

unfoldable pub redact : (SecretPattern → String → String) → String → String
redact replace_all s = replace_each replace_all patterns s

abbrev lower_ascii : ℕ → ℕ
lower_ascii c = if leb b'A' c && leb c b'Z' then c + 32 else c

-- `key.to_ascii_lowercase() == word`
unfoldable pub lower_is : String → String → Bool
lower_is String.[] String.[] = true
lower_is String.[] (String.◌∷◌ d word) = false
lower_is (String.◌∷◌ c key) String.[] = false
lower_is (String.◌∷◌ c key) (String.◌∷◌ d word) =
    nat_beq (lower_ascii (code c)) (code d) && lower_is key word

abbrev secret_words : List String
secret_words =
    "apikey" ∷ "api_key" ∷ "accesstoken" ∷ "access_token" ∷ "refreshtoken" ∷ "refresh_token"
    ∷ "password" ∷ "secret" ∷ "authorization" ∷ "token" ∷ []

unfoldable pub is_secret : String → Bool
unfolding lower_is
is_secret key = any (lower_is key) secret_words

-- `redact_json`, by the function that redacts a text.
unfoldable mutual
  pub redact_value : (String → String) → Json → Json
  redact_value clean null = null
  redact_value clean (boolean b) = boolean b
  redact_value clean (number n) = number n
  redact_value clean (other_number n) = other_number n
  redact_value clean (text s) = text (clean s)
  redact_value clean (array vs) = array (redact_items clean vs)
  redact_value clean (object fs) = object (redact_fields clean fs)

  pub redact_items : (String → String) → Items → Items
  redact_items clean end_items = end_items
  redact_items clean (item v vs) = item (redact_value clean v) (redact_items clean vs)

  pub redact_fields : (String → String) → Fields → Fields
  redact_fields clean end_fields = end_fields
  redact_fields clean (field k v fs) =
      field k (if is_secret k then text "[REDACTED]" else redact_value clean v)
        (redact_fields clean fs)

unfoldable pub redact_json : (SecretPattern → String → String) → Json → Json
unfolding redact redact_value
redact_json replace_all = redact_value (redact replace_all)
