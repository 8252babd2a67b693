-- ===== src/A2a.antt =====
-- crates/protocol-types/src/a2a.rs: the messages that agents exchange, and their validation. A JSON
-- value is of a type that is a parameter, and a JSON object is a list of its entries.
mod Tests
use localoud_ai.Base.{
  ℕ, suc, ◌+◌, String, ◌++◌, List, [], ◌∷◌, Option, none, some, Bool, true, false, not, ◌&&◌, ◌||◌,
  ltb, leb, len, ◌==◌, nat_eq, is_empty, all, Result, ok, err, ◌>>=◌, ◌>>◌, bail_if,
}
use localoud_ai.Base.Text.{is_blank, has_control}

pub data Role : Type 0 where
  user agent : Role

pub record Part (Value : Type 0) : Type 0 where
  pub text : Option String
  pub raw : Option String
  pub url : Option String
  pub data_value : Option Value
  pub metadata : List (String × Value)
  pub filename : Option String
  pub media_type : Option String

pub record Message (Value : Type 0) : Type 0 where
  pub message_id : String
  pub context_id : Option String
  pub task_id : Option String
  pub role : Role
  pub parts : List (Part Value)
  pub metadata : List (String × Value)
  pub extensions : List String
  pub reference_task_ids : List String

pub data A2aError : Type 0 where
  not_one_content bad_media_type bad_filename : A2aError
  bad_message_id no_parts bad_reference bad_extension : A2aError
  empty_instruction : A2aError

abbrev pub one_if : {A : Type 0} → Option A → ℕ
one_if none = 0
one_if (some a) = 1

-- A check of a text that may be absent.
abbrev pub if_some : (String → Bool) → Option String → Bool
if_some p none = true
if_some p (some s) = p s

abbrev pub good_media_type : String → Bool
good_media_type s = not (is_blank s) && leb (len s) 200

abbrev pub good_filename : String → Bool
good_filename s = not (is_blank s) && leb (len s) 500 && not (has_control s)

abbrev pub good_extension : String → Bool
good_extension s = not (is_blank s) && leb (len s) 500

unfoldable pub valid_id : String → Bool
valid_id s = not (is_blank s) && leb (len s) 500 && not (has_control s)

abbrev pub context_capsule_extension : String
context_capsule_extension = "urn:localoud:a2a:context-capsule:v1"

module _ {Value : Type 0} where
  -- `Part::text`
  unfoldable pub text_part : String → Part Value
  text_part value = record {
    text = some value;
    raw = none;
    url = none;
    data_value = none;
    metadata = [];
    filename = none;
    media_type = some "text/plain";
  }

  -- `Part::data`
  unfoldable pub data_part : Value → String → Part Value
  data_part value media_type = record {
    text = none;
    raw = none;
    url = none;
    data_value = some value;
    metadata = [];
    filename = none;
    media_type = some media_type;
  }

  abbrev pub content_fields : Part Value → ℕ
  content_fields p = one_if p.text + one_if p.raw + one_if p.url + one_if p.data_value

  -- `Part::validate`
  unfoldable pub validate_part : Part Value → Result A2aError (Unit {0})
  validate_part p = do
    bail_if (not (content_fields p == 1)) not_one_content
    bail_if (not (if_some good_media_type p.media_type)) bad_media_type
    bail_if (not (if_some good_filename p.filename)) bad_filename

  unfoldable pub validate_parts : List (Part Value) → Result A2aError (Unit {0})
  validate_parts [] = ok tt
  validate_parts (p ∷ ps) = validate_part p >> validate_parts ps

  -- `Message::validate`
  unfoldable pub validate_message : Message Value → Result A2aError (Unit {0})
  unfolding validate_parts
  validate_message m = do
    bail_if (not (valid_id m.message_id)) bad_message_id
    bail_if (is_empty m.parts) no_parts
    bail_if
        (not (
          if_some valid_id m.context_id
          && if_some valid_id m.task_id
          && all valid_id m.reference_task_ids))
        bad_reference
    bail_if (not (all good_extension m.extensions)) bad_extension
    validate_parts m.parts

  abbrev pub data_message_of :
      String → Option String → Option String → Value → String → List String → Message Value
  data_message_of message_id context_id task_id value media_type reference_task_ids = record {
    message_id = message_id;
    context_id = context_id;
    task_id = task_id;
    role = user;
    parts = data_part value media_type ∷ [];
    metadata = [];
    extensions = context_capsule_extension ∷ [];
    reference_task_ids = reference_task_ids;
  }

  -- `data_message`
  unfoldable pub data_message :
      String
      → Option String
      → Option String
      → Value
      → String
      → List String
      → Result A2aError (Message Value)
  unfolding validate_message
  data_message message_id context_id task_id value media_type reference_task_ids = do
    let m = data_message_of message_id context_id task_id value media_type reference_task_ids
    validate_message m
    ok m
