-- ===== src/A2a/Tests.antt =====
-- Runs of the validation of a message; a JSON value is a text here.
use localoud_ai.Base.{◌≡◌, ◌↔◌, refl, String, List, [], ◌∷◌, Option, none, some, Result, ok, err}
use localoud_ai.A2a.{Message, validate_message, data_message, data_message_of, bad_message_id}

abbrev handoff : Message String
handoff =
    data_message_of "message-1" (some "context-1") (some "task-1") "{}" "application/json"
      ("dependency-1" ∷ [])

accepted : validate_message handoff ≡ ok tt
unfolding validate_message localoud_ai.A2a.valid_id localoud_ai.Base.Text.is_blank
    localoud_ai.Base.Text.has_control localoud_ai.A2a.validate_part localoud_ai.A2a.data_part
accepted = refl

refused :
    data_message {Value = String} " " none none "{}" "application/json" [] ≡ err bad_message_id
unfolding data_message localoud_ai.A2a.valid_id localoud_ai.Base.Text.is_blank
refused = refl
