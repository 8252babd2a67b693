-- ===== src/Policy/Tests.antt =====
-- A redacted tool call (crates/hub-policy/src/lib.rs).
use localoud_ai.Base.{◌≡◌, refl, String, true, ◌==◌, string_eq, if◌then◌else◌}
use localoud_ai.Base.Json.{Json, text, array, object, end_items, item, end_fields, field}
use localoud_ai.Policy.{SecretPattern, redact_json, is_secret}
use localoud_ai.Policy.Secrets.{
  objects, arrays, items, no_items, shown, hidden, same, no_fields, redact_json-same,
}

abbrev replace_all : SecretPattern → String → String
replace_all p s = if s == "Bearer abc" then "[REDACTED]" else s

abbrev call : String → Json
call secret = object (
    field "path" (text "a.rs") (
      field "nested"
        (array (item (object (field "Access_Token" (text secret) end_fields)) end_items))
        (field "header" (text "Bearer abc") end_fields)))

redacted :
    redact_json replace_all (call "s3cret")
    ≡ object (
        field "path" (text "a.rs") (
          field "nested"
            (array (item (object (field "Access_Token" (text "[REDACTED]") end_fields)) end_items))
            (field "header" (text "[REDACTED]") end_fields)))
unfolding redact_json is_secret
redacted = refl

secret_key : is_secret "Access_Token" ≡ true
unfolding is_secret
secret_key = refl

redact_json-same_example :
    redact_json replace_all (call "s3cret") ≡ redact_json replace_all (call "other")
redact_json-same_example = redact_json-same replace_all (call "s3cret") (call "other") (
    objects (
      shown same (
        shown (arrays (items (objects (hidden secret_key no_fields)) no_items))
          (shown same no_fields))))
