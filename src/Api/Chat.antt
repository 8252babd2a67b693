-- ===== src/Api/Chat.antt =====
-- `parse_openai_chat_sse`: the events of a chat stream, and the response that they add up to. The parser
-- of JSON texts is a parameter.
pub mod Streamed
mod Tests
use Prim.Native.String
use localoud_ai.Base.{
  ℕ, String, List, [], ◌∷◌, ◌++◌, Option, none, some, Bool, true, false, not, ◌&&◌, ◌||◌, ◌==◌,
  nat_eq, string_eq, ltb, if◌then◌else◌, Result, ok, err, ◌>>=◌, ◌>>◌, bail_if, ok_or,
}
use localoud_ai.Base.Text.{concat, is_nil, is_blank, trim}
use localoud_ai.Base.Json.{
  Json, null, elements, field_at, get, at, as_str, as_u64, is_object, is_null, as_array, unwrap_or,
}
use localoud_ai.Providers.{
  ContentBlock, text_block, tool_use, refusal_block, InferenceUsage, InferenceResponse,
  InferenceEvent, text_delta, tool_use_delta, done,
}
use localoud_ai.Api.Sse.{SseEvent}

pub data ChatError : Type 0 where
  bad_json ended_early incomplete_call : ChatError
  -- the error that the provider sent
  payload : Json → ChatError

pub record ToolBuilder : Type 0 where
  pub id : String
  pub name : String
  pub arguments : String

-- The variables of the loop; the builders are in the order of their index.
pub record Stream : Type 0 where
  pub result : List (InferenceEvent Json)
  pub text : String
  pub refusal : String
  pub calls : List (ℕ × ToolBuilder)
  pub usage : InferenceUsage
  pub stop_reason : Option String
  pub completed : Bool

unfoldable pub openai_usage : Json → InferenceUsage
unfolding field_at
openai_usage value =
    let usage = at "usage" value in
    record {
      input_tokens = unwrap_or 0 (as_u64 (at "prompt_tokens" usage));
      cached_input_tokens =
          unwrap_or 0 (as_u64 (at "cached_tokens" (at "prompt_tokens_details" usage)));
      output_tokens = unwrap_or 0 (as_u64 (at "completion_tokens" usage));
    }

abbrev fresh_builder : ToolBuilder
fresh_builder = record { id = ""; name = ""; arguments = "" }

-- `calls.entry(index).or_default()`
unfoldable pub builder_at : ℕ → List (ℕ × ToolBuilder) → ToolBuilder
builder_at i [] = fresh_builder
builder_at i ((j, b) ∷ calls) = if j == i then b else builder_at i calls

unfoldable pub set_builder : ℕ → ToolBuilder → List (ℕ × ToolBuilder) → List (ℕ × ToolBuilder)
set_builder i b [] = (i, b) ∷ []
set_builder i b ((j, c) ∷ calls) =
    if i == j
    then (i, b) ∷ calls
    else if ltb i j
    then (i, b) ∷ (j, c) ∷ calls
    else (j, c) ∷ set_builder i b calls

abbrev or_empty : Option String → String
or_empty none = ""
or_empty (some s) = s

-- One element of `delta["tool_calls"]`.
unfoldable pub read_call : Json → Stream → Stream
unfolding field_at builder_at set_builder
read_call call s =
    let index = unwrap_or 0 (as_u64 (at "index" call)) in
    let old = builder_at index s.calls in
    let arguments = or_empty (as_str (at "arguments" (at "function" call))) in
    let new : ToolBuilder = record {
      id = concat old.id (or_empty (as_str (at "id" call)));
      name = concat old.name (or_empty (as_str (at "name" (at "function" call))));
      arguments = concat old.arguments arguments;
    } in
    record s {
      calls = set_builder index new s.calls;
      result = s.result ++ tool_use_delta new.id new.name arguments ∷ [];
    }

unfoldable pub read_calls : List Json → Stream → Stream
unfolding read_call
read_calls [] s = s
read_calls (c ∷ cs) s = read_calls cs (read_call c s)

-- Text that is not empty is passed on at once.
unfoldable pub read_content : Option String → Stream → Stream
read_content none s = s
read_content (some value) s =
    if is_nil value
    then s
    else record s { text = concat s.text value; result = s.result ++ text_delta value ∷ [] }

abbrev pub read_refusal : Option String → Stream → Stream
read_refusal none s = s
read_refusal (some value) s = record s { refusal = concat s.refusal value }

abbrev pub read_reason : Option String → Stream → Stream
read_reason none s = s
read_reason (some reason) s = record s { stop_reason = some reason }

unfoldable pub read_choice : Json → Stream → Stream
unfolding read_content read_calls field_at elements
read_choice choice s =
    let delta = at "delta" choice in
    if not (unwrap_or 0 (as_u64 (at "index" choice)) == 0)
    then s
    else read_calls (as_array (at "tool_calls" delta)) (
        read_refusal (as_str (at "refusal" delta)) (
          read_content (as_str (at "content" delta))
            (read_reason (as_str (at "finish_reason" choice)) s)))

unfoldable pub read_choices : List Json → Stream → Stream
unfolding read_choice
read_choices [] s = s
read_choices (c ∷ cs) s = read_choices cs (read_choice c s)

abbrev pub read_usage : Json → Stream → Stream
read_usage value s =
    if is_object (at "usage" value) then record s { usage = openai_usage value } else s

abbrev pub has_error : Option Json → Bool
has_error none = false
has_error (some e) = not (is_null e)

-- The body of the loop.
unfoldable pub read_event : (String → Option Json) → SseEvent → Stream → Result ChatError Stream
unfolding read_choices openai_usage
read_event parse_json e s =
    let parsed = (do
      value ← ok_or (parse_json e.body) bad_json
      bail_if (has_error (get "error" value)) (payload (at "error" value))
      ok (read_choices (as_array (at "choices" value)) (read_usage value s))) in
    if trim e.body == "[DONE]"
    then ok (record s { completed = true })
    else if is_blank e.body
    then ok s
    else parsed

unfoldable pub read_events :
    (String → Option Json) → List SseEvent → Stream → Result ChatError Stream
unfolding read_event
read_events parse_json [] s = ok s
read_events parse_json (e ∷ es) s = read_event parse_json e s >>= read_events parse_json es

unfoldable pub tool_uses :
    (String → Option Json) → List (ℕ × ToolBuilder) → Result ChatError (List (ContentBlock Json))
tool_uses parse_json [] = ok []
tool_uses parse_json ((i, call) ∷ calls) = do
  bail_if (is_nil call.id || is_nil call.name) incomplete_call
  arguments ← ok_or (parse_json (if is_nil call.arguments then "{}" else call.arguments)) bad_json
  more ← tool_uses parse_json calls
  ok (tool_use call.id call.name arguments ∷ more)

abbrev pub text_content : String → List (ContentBlock Json)
text_content text = if is_nil text then [] else text_block text ∷ []

abbrev pub refusal_content : String → List (ContentBlock Json)
refusal_content refusal = if is_nil refusal then [] else refusal_block none (some refusal) ∷ []

abbrev pub new_stream : Stream
new_stream = record {
  result = [];
  text = "";
  refusal = "";
  calls = [];
  usage = record { input_tokens = 0; cached_input_tokens = 0; output_tokens = 0 };
  stop_reason = none;
  completed = false;
}

abbrev pub reason_or : String → Option String → String
reason_or s none = s
reason_or s (some r) = r

-- What follows the loop.
unfoldable pub finish :
    (String → Option Json) → Stream → Result ChatError (List (InferenceEvent Json))
unfolding tool_uses
finish parse_json s = do
  bail_if (not s.completed) ended_early
  uses ← tool_uses parse_json s.calls
  ok (
      s.result
      ++ done (record {
        content = text_content s.text ++ (refusal_content s.refusal ++ uses);
        usage = s.usage;
        stop_reason = reason_or "completed" s.stop_reason;
        provider_state = none;
      })
        ∷ [])

unfoldable pub parse_openai_chat_sse :
    (String → Option Json) → List SseEvent → Result ChatError (List (InferenceEvent Json))
unfolding read_events finish
parse_openai_chat_sse parse_json source =
    read_events parse_json source new_stream >>= finish parse_json

-- The last response among the events, as `completed_response` finds it.
abbrev pub later : {A : Type 0} → Option A → Option A → Option A
later none first = first
later (some last) first = some last

unfoldable pub completed_response : List (InferenceEvent Json) → Option (InferenceResponse Json)
completed_response [] = none
completed_response (done r ∷ es) = later (completed_response es) (some r)
completed_response (text_delta t ∷ es) = completed_response es
completed_response (tool_use_delta i n a ∷ es) = completed_response es
