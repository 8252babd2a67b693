-- ===== src/Base/Json.antt =====
-- JSON values as `serde_json` has them, and its accessors. A number is a natural one, or another that is
-- kept as its text; the keys of an object are distinct.
use localoud_ai.Base.Tests.{◌==◌, string_eq, if◌then◌else◌}
use Prim.Native.Nat.{ℕ}
use Prim.Native.String.{String}
use mathlib.Core.Bool.{Bool, true, false}
use mathlib.Core.Option.{Option, none, some}
use mathlib.Core.List.{List, [], ◌∷◌}

mutual
  pub data Json : Type 0 where
    null : Json
    boolean : Bool → Json
    number : ℕ → Json
    other_number : String → Json
    text : String → Json
    array : Items → Json
    object : Fields → Json

  pub data Items : Type 0 where
    end_items : Items
    item : Json → Items → Items

  pub data Fields : Type 0 where
    end_fields : Fields
    field : String → Json → Fields → Fields

unfoldable pub elements : Items → List Json
elements end_items = []
elements (item v vs) = v ∷ elements vs

unfoldable pub field_at : String → Fields → Option Json
field_at k end_fields = none
field_at k (field j v fs) = if j == k then some v else field_at k fs

-- `value.get(key)`
abbrev pub get : String → Json → Option Json
get k (object fs) = field_at k fs
get k _ = none

abbrev or_null : Option Json → Json
or_null none = null
or_null (some v) = v

-- `value[key]`
abbrev pub at : String → Json → Json
at k v = or_null (get k v)

abbrev pub as_str : Json → Option String
as_str (text s) = some s
as_str _ = none

abbrev pub as_u64 : Json → Option ℕ
as_u64 (number n) = some n
as_u64 _ = none

abbrev pub is_object : Json → Bool
is_object (object fs) = true
is_object _ = false

abbrev pub is_null : Json → Bool
is_null null = true
is_null _ = false

-- `value.as_array().into_iter().flatten()`
abbrev pub as_array : Json → List Json
as_array (array vs) = elements vs
as_array _ = []

abbrev pub unwrap_or : {A : Type 0} → A → Option A → A
unwrap_or a none = a
unwrap_or a (some b) = b
