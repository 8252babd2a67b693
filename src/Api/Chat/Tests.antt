-- ===== src/Api/Chat/Tests.antt =====
-- A chat stream of two pieces and a tool call (crates/provider-api/src/lib.rs). The bodies stand for the
-- JSON texts that the parser is given.
use localoud_ai.Base.{
  ◌≡◌, refl, String, List, [], ◌∷◌, ◌++◌, Option, none, some, Bool, true, false, ◌==◌, string_eq,
  if◌then◌else◌, Result, ok, err, All,
}
use localoud_ai.Base.Json.{
  Json, Fields, number, text, array, object, end_items, item, end_fields, field,
}
use localoud_ai.Providers.{
  text_block, tool_use, InferenceResponse, InferenceEvent, text_delta, tool_use_delta, done,
}
use localoud_ai.Api.Sse.{SseEvent}
use localoud_ai.Api.Chat.{parse_openai_chat_sse, completed_response, ended_early}
use localoud_ai.Api.Chat.Streamed.{
  IsDelta, content_text, streamed_text, parse_openai_chat_sse-streamed,
}

abbrev choice : Fields → Json
choice delta = object (
    field "choices" (array (item (object (field "delta" (object delta) end_fields)) end_items))
      end_fields)

abbrev call : Json
call = object (
    field "index" (number 0) (
      field "id" (text "c1")
        (field "function" (object (field "name" (text "read") end_fields)) end_fields)))

abbrev parse_json : String → Option Json
parse_json body =
    if body == "hel"
    then some (choice (field "content" (text "Hel") end_fields))
    else if body == "lo"
    then some (choice (field "content" (text "lo") end_fields))
    else if body == "call"
    then some (choice (field "tool_calls" (array (item call end_items)) end_fields))
    else if body == "{}"
    then some (object end_fields)
    else none

abbrev sent : String → SseEvent
sent body = record { event = none; body = body }

abbrev source : List SseEvent
source = sent "hel" ∷ sent "lo" ∷ sent "call" ∷ sent " [DONE]" ∷ []

abbrev response : InferenceResponse Json
response = record {
  content = text_block "Hello" ∷ tool_use "c1" "read" (object end_fields) ∷ [];
  usage = record { input_tokens = 0; cached_input_tokens = 0; output_tokens = 0 };
  stop_reason = "completed";
  provider_state = none;
}

abbrev events : List (InferenceEvent Json)
events = text_delta "Hel" ∷ text_delta "lo" ∷ tool_use_delta "c1" "read" "" ∷ done response ∷ []

read : parse_openai_chat_sse parse_json source ≡ ok events
unfolding parse_openai_chat_sse localoud_ai.Base.Text.trim localoud_ai.Base.Text.is_blank
read = refl

cut_off : parse_openai_chat_sse parse_json (sent "hel" ∷ []) ≡ err ended_early
unfolding parse_openai_chat_sse localoud_ai.Base.Text.trim localoud_ai.Base.Text.is_blank
cut_off = refl

parse_openai_chat_sse-streamed_example :
    (deltas : List (InferenceEvent Json)) × (last : InferenceResponse Json) × (events
      ≡ deltas ++ done last ∷ [])
    × All IsDelta deltas
    × (completed_response events ≡ some last)
    × (content_text last.content ≡ streamed_text deltas)
parse_openai_chat_sse-streamed_example = parse_openai_chat_sse-streamed parse_json source read
