-- ===== src/Api/Chat/Streamed.antt =====
-- What is passed on while a chat stream is read, against the response at its end
-- (crates/provider-api/src/lib.rs).
use text.Mathlib.TextLemmas.{append_assoc, append-nil, nil-append}
use localoud_ai.Base.{
  ℕ, ◌≡◌, refl, sym, ap, ◌∙◌, inl, inr, String, List, [], ◌∷◌, ◌++◌, Option, none, some, true, not,
  ◌||◌, ◌==◌, nat_eq, string_eq, Bool-cases, if◌then◌else◌, ok, >>=-eq-ok, >>-eq-ok, ok_injective,
  ok_or, bail_if, All, All-append,
}
use localoud_ai.Base.Text.{concat, is_nil, is_blank, trim}
use localoud_ai.Base.Json.{Json, is_object, get, at, as_str, as_u64, as_array, unwrap_or}
use localoud_ai.Providers.{
  ContentBlock, text_block, tool_use, tool_result, refusal_block, InferenceResponse, InferenceEvent,
  text_delta, tool_use_delta, done,
}
use localoud_ai.Api.Sse.{SseEvent}
use localoud_ai.Api.Chat.{
  Stream, ToolBuilder, read_call, read_calls, read_content, read_refusal, read_reason, read_choice,
  read_choices, read_usage, read_event, read_events, new_stream, tool_uses, text_content,
  refusal_content, reason_or, finish, parse_openai_chat_sse, completed_response, bad_json,
  ended_early, incomplete_call, has_error, payload,
}

-- The text that the events pass on.
unfoldable pub streamed_text : List (InferenceEvent Json) → String
streamed_text [] = ""
streamed_text (text_delta t ∷ es) = concat t (streamed_text es)
streamed_text (tool_use_delta i n a ∷ es) = streamed_text es
streamed_text (done r ∷ es) = streamed_text es

-- The text of a response.
unfoldable pub content_text : List (ContentBlock Json) → String
content_text [] = ""
content_text (text_block t ∷ bs) = concat t (content_text bs)
content_text (tool_use i n a ∷ bs) = content_text bs
content_text (tool_result i t e ∷ bs) = content_text bs
content_text (refusal_block c t ∷ bs) = content_text bs

-- An event before the end.
abbrev pub IsDelta : InferenceEvent Json → Type 0
IsDelta (done r) = ⊥
IsDelta _ = Unit

streamed_text-append :
    (es fs : List (InferenceEvent Json))
    → streamed_text (es ++ fs) ≡ concat (streamed_text es) (streamed_text fs)
unfolding streamed_text
streamed_text-append [] fs = sym (nil-append (streamed_text fs))
streamed_text-append (text_delta t ∷ es) fs =
    ap (concat t) (streamed_text-append es fs)
    ∙ sym (append_assoc t (streamed_text es) (streamed_text fs))
streamed_text-append (tool_use_delta i n a ∷ es) fs = streamed_text-append es fs
streamed_text-append (done r ∷ es) fs = streamed_text-append es fs

-- What the loop keeps true.
record IsFaithful (s : Stream) : Type 0 where
  passed : streamed_text s.result ≡ s.text
  deltas : All IsDelta s.result

read_content-IsFaithful :
    (o : Option String) (s : Stream) → IsFaithful s → IsFaithful (read_content o s)
unfolding read_content
read_content-IsFaithful none s f = f
read_content-IsFaithful (some value) s f = elim (Bool-cases (is_nil value)) [
  | inl nothing ↦ rw nothing f
  | inr more ↦ rw more (record {
    passed =
        streamed_text-append s.result (text_delta value ∷ [])
        ∙ rw (f.passed) (unfold streamed_text in ap (concat s.text) (append-nil value));
    deltas = All-append IsDelta s.result (text_delta value ∷ []) f.deltas (tt, tt);
  })
]

read_call-IsFaithful : (call : Json) (s : Stream) → IsFaithful s → IsFaithful (read_call call s)
unfolding read_call
read_call-IsFaithful call s f = record {
  passed =
      streamed_text-append s.result (_ ∷ [])
      ∙ unfold streamed_text in append-nil (streamed_text s.result) ∙ f.passed;
  deltas = All-append IsDelta s.result (_ ∷ []) f.deltas (tt, tt);
}

read_calls-IsFaithful :
    (calls : List Json) (s : Stream) → IsFaithful s → IsFaithful (read_calls calls s)
unfolding read_calls
read_calls-IsFaithful [] s f = f
read_calls-IsFaithful (c ∷ cs) s f =
    read_calls-IsFaithful cs (read_call c s) (read_call-IsFaithful c s f)

read_refusal-IsFaithful :
    (o : Option String) (s : Stream) → IsFaithful s → IsFaithful (read_refusal o s)
read_refusal-IsFaithful none s f = f
read_refusal-IsFaithful (some value) s f = record { passed = f.passed; deltas = f.deltas }

read_reason-IsFaithful :
    (o : Option String) (s : Stream) → IsFaithful s → IsFaithful (read_reason o s)
read_reason-IsFaithful none s f = f
read_reason-IsFaithful (some value) s f = record { passed = f.passed; deltas = f.deltas }

read_usage-IsFaithful : (value : Json) (s : Stream) → IsFaithful s → IsFaithful (read_usage value s)
read_usage-IsFaithful value s f = elim (Bool-cases (is_object (at "usage" value))) [
  | inl given ↦ rw given (record { passed = f.passed; deltas = f.deltas })
  | inr missing ↦ rw missing f
]

read_choice-IsFaithful :
    (choice : Json) (s : Stream) → IsFaithful s → IsFaithful (read_choice choice s)
unfolding read_choice
read_choice-IsFaithful choice s f =
    elim (Bool-cases (not (unwrap_or 0 (as_u64 (at "index" choice)) == 0))) [
      | inl other ↦ rw other f
      | inr first ↦ rw first (
          read_calls-IsFaithful (as_array (at "tool_calls" (at "delta" choice))) _ (
            read_refusal-IsFaithful (as_str (at "refusal" (at "delta" choice))) _ (
              read_content-IsFaithful (as_str (at "content" (at "delta" choice))) _
                (read_reason-IsFaithful (as_str (at "finish_reason" choice)) s f))))
    ]

read_choices-IsFaithful :
    (choices : List Json) (s : Stream) → IsFaithful s → IsFaithful (read_choices choices s)
unfolding read_choices
read_choices-IsFaithful [] s f = f
read_choices-IsFaithful (c ∷ cs) s f =
    read_choices-IsFaithful cs (read_choice c s) (read_choice-IsFaithful c s f)

read_event-IsFaithful :
    (parse_json : String → Option Json) (e : SseEvent) (s : Stream) {s' : Stream}
    → IsFaithful s
    → read_event parse_json e s ≡ ok s'
    → IsFaithful s'
unfolding read_event
read_event-IsFaithful parse_json e s f h = elim (Bool-cases (trim e.body == "[DONE]")) [
  | inl last ↦ rw (← ok_injective (rw last at h)) (record { passed = f.passed; deltas = f.deltas })
  | inr more ↦ elim (Bool-cases (is_blank e.body)) [
    | inl blank ↦ rw (← ok_injective (rw (more, blank) at h)) f
    | inr filled ↦
        let (value, _, h1) =
          >>=-eq-ok (ok_or (parse_json e.body) bad_json) _ (rw (more, filled) at h) in
        let (_, h2) =
          >>-eq-ok (bail_if (has_error (get "error" value)) (payload (at "error" value))) _ h1 in
        rw (← ok_injective h2) (
          read_choices-IsFaithful (as_array (at "choices" value)) _
            (read_usage-IsFaithful value s f))
  ]
]

read_events-IsFaithful :
    (parse_json : String → Option Json) (es : List SseEvent) (s : Stream) {s' : Stream}
    → IsFaithful s
    → read_events parse_json es s ≡ ok s'
    → IsFaithful s'
unfolding read_events
read_events-IsFaithful parse_json [] s f h = rw (← ok_injective h) f
read_events-IsFaithful parse_json (e ∷ es) s f h =
    let (s1, h1, h2) = >>=-eq-ok (read_event parse_json e s) (read_events parse_json es) h in
    read_events-IsFaithful parse_json es s1 (read_event-IsFaithful parse_json e s f h1) h2

tool_uses-text :
    (parse_json : String → Option Json) (calls : List (ℕ × ToolBuilder))
    {uses : List (ContentBlock Json)}
    → tool_uses parse_json calls ≡ ok uses
    → content_text uses ≡ ""
unfolding tool_uses content_text
tool_uses-text parse_json [] h = rw (← ok_injective h) refl
tool_uses-text parse_json ((i, call) ∷ calls) h =
    let (_, h1) = >>-eq-ok (bail_if (is_nil call.id || is_nil call.name) incomplete_call) _ h in
    let (arguments, _, h2) =
      >>=-eq-ok
        (ok_or (parse_json (if is_nil call.arguments then "{}" else call.arguments)) bad_json) _
        h1 in
    let (more, h3, h4) = >>=-eq-ok (tool_uses parse_json calls) _ h2 in
    rw (← ok_injective h4) (tool_uses-text parse_json calls h3)

is_nil-eq : (s : String) → is_nil s ≡ true → s ≡ ""
unfolding is_nil
is_nil-eq String.[] h = refl
is_nil-eq (String.◌∷◌ c s) h = cc

content_text-response :
    (text refusal : String) (uses : List (ContentBlock Json))
    → content_text uses ≡ ""
    → content_text (text_content text ++ (refusal_content refusal ++ uses)) ≡ text
unfolding content_text
content_text-response text refusal uses none_in_uses = elim (Bool-cases (is_nil text)) [
  | inl nothing ↦ rw nothing (no_refusal ∙ sym (is_nil-eq text nothing))
  | inr more ↦ rw more (ap (concat text) no_refusal ∙ append-nil text)
]
  where
    no_refusal : content_text (refusal_content refusal ++ uses) ≡ ""
    no_refusal = elim (Bool-cases (is_nil refusal)) [
      | inl nothing ↦ rw nothing none_in_uses
      | inr more ↦ rw more none_in_uses
    ]

completed_response-snoc :
    (es : List (InferenceEvent Json)) (r : InferenceResponse Json)
    → completed_response (es ++ done r ∷ []) ≡ some r
unfolding completed_response
completed_response-snoc [] r = refl
completed_response-snoc (text_delta t ∷ es) r = completed_response-snoc es r
completed_response-snoc (tool_use_delta i n a ∷ es) r = completed_response-snoc es r
completed_response-snoc (done q ∷ es) r = rw (completed_response-snoc es r) refl

-- A chat stream that is read without an error ends with its one response, every event before that is a
-- delta, the response is the one that is taken from the stream, and its text is what the deltas passed
-- on, in order and whole.
pub parse_openai_chat_sse-streamed :
    (parse_json : String → Option Json) (source : List SseEvent)
    {events : List (InferenceEvent Json)}
    → parse_openai_chat_sse parse_json source ≡ ok events
    → (deltas : List (InferenceEvent Json)) × (response : InferenceResponse Json) × (events
        ≡ deltas ++ done response ∷ [])
      × All IsDelta deltas
      × (completed_response events ≡ some response)
      × (content_text response.content ≡ streamed_text deltas)
unfolding parse_openai_chat_sse finish
parse_openai_chat_sse-streamed parse_json source h =
    let (s, h1, h2) = >>=-eq-ok (read_events parse_json source new_stream) (finish parse_json) h in
    let f =
      read_events-IsFaithful parse_json source new_stream
        (record { passed = unfold streamed_text in refl; deltas = tt }) h1 in
    let (_, h3) = >>-eq-ok (bail_if (not s.completed) ended_early) _ h2 in
    let (uses, h4, h5) = >>=-eq-ok (tool_uses parse_json s.calls) _ h3 in
    (
      s.result,
      record {
        content = text_content s.text ++ (refusal_content s.refusal ++ uses);
        usage = s.usage;
        stop_reason = reason_or "completed" s.stop_reason;
        provider_state = none;
      },
      sym (ok_injective h5),
      f.deltas,
      ap completed_response (sym (ok_injective h5)) ∙ completed_response-snoc s.result _,
      content_text-response s.text s.refusal uses (tool_uses-text parse_json s.calls h4)
          ∙ sym f.passed,
    )
