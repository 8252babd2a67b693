-- ===== src/Policy/Secrets.antt =====
-- What a redacted value tells of the members with secret names (crates/hub-policy/src/lib.rs).
use localoud_ai.Base.{◌≡◌, refl, ap, String, true}
use localoud_ai.Base.Json.{Json, Items, Fields, array, object, end_items, item, end_fields, field}
use localoud_ai.Policy.{
  SecretPattern, redact, is_secret, redact_value, redact_items, redact_fields, redact_json,
}

-- Two values that differ at most in the values of members with secret names, at any depth.
mutual
  pub data Alike : Json → Json → Type 0 where
    same : {v : Json} → Alike v v
    arrays : {vs ws : Items} → AlikeItems vs ws → Alike (array vs) (array ws)
    objects : {fs gs : Fields} → AlikeFields fs gs → Alike (object fs) (object gs)

  pub data AlikeItems : Items → Items → Type 0 where
    no_items : AlikeItems end_items end_items
    items :
        {v w : Json} {vs ws : Items}
        → Alike v w
        → AlikeItems vs ws
        → AlikeItems (item v vs) (item w ws)

  pub data AlikeFields : Fields → Fields → Type 0 where
    no_fields : AlikeFields end_fields end_fields
    shown :
        {k : String} {v w : Json} {fs gs : Fields}
        → Alike v w
        → AlikeFields fs gs
        → AlikeFields (field k v fs) (field k w gs)
    hidden :
        {k : String} {v w : Json} {fs gs : Fields}
        → is_secret k ≡ true
        → AlikeFields fs gs
        → AlikeFields (field k v fs) (field k w gs)

mutual
  unfolding redact_value

  value-same :
      (clean : String → String) {v w : Json}
      → Alike v w
      → redact_value clean v ≡ redact_value clean w
  value-same clean same = refl
  value-same clean (arrays a) = ap array (items-same clean a)
  value-same clean (objects a) = ap object (fields-same clean a)

  items-same :
      (clean : String → String) {vs ws : Items}
      → AlikeItems vs ws
      → redact_items clean vs ≡ redact_items clean ws
  items-same clean no_items = refl
  items-same clean (items a b) = rw (value-same clean a, items-same clean b) refl

  fields-same :
      (clean : String → String) {fs gs : Fields}
      → AlikeFields fs gs
      → redact_fields clean fs ≡ redact_fields clean gs
  fields-same clean no_fields = refl
  fields-same clean (shown a b) = rw (value-same clean a, fields-same clean b) refl
  fields-same clean (hidden s b) = rw (s, fields-same clean b) refl

-- A redacted value depends in no way on the value of a member with a secret name, at whatever depth it
-- stands.
pub redact_json-same :
    (replace_all : SecretPattern → String → String) (v w : Json)
    → Alike v w
    → redact_json replace_all v ≡ redact_json replace_all w
unfolding redact_json
redact_json-same replace_all v w a = value-same (redact replace_all) a
