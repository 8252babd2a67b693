-- ===== src/Api/Sse/Tests.antt =====
-- A stream as a server writes it (crates/provider-api/src/lib.rs), and the round trip at two events.
use localoud_ai.Base.{◌≡◌, refl, [], ◌∷◌, map, none, some, ok, err}
use localoud_ai.Base.Text.{all_chars}
use localoud_ai.Api.Sse.{empty_stream, parse_sse}
use localoud_ai.Api.Sse.Lines.{crlf}
use localoud_ai.Api.Sse.RoundTrip.{Sent, print, received, parse_sse-print}

comments_and_unknown_fields :
    parse_sse ": ping\nid: 7\ndata:{\"a\":\ndata: 1}\r\n\r\nevent:done\n"
    ≡ ok (
        record { event = none; body = "{\"a\":\n1}" }
        ∷ record { event = some "done"; body = "" }
        ∷ [])
unfolding parse_sse
comments_and_unknown_fields = refl

nothing_sent : parse_sse "\n\n: ping\n" ≡ err empty_stream
unfolding parse_sse
nothing_sent = refl

abbrev delta : Sent
delta = record { event = some "content_block_delta"; first = "{"; more = "}" ∷ [] }

abbrev last : Sent
last = record { event = none; first = "[DONE]"; more = [] }

parse_sse-print_example :
    parse_sse (print crlf (delta ∷ last ∷ [])) ≡ ok (map received (delta ∷ last ∷ []))
unfolding all_chars
parse_sse-print_example =
    parse_sse-print crlf delta (last ∷ []) ((refl, (refl, (refl, tt))), ((tt, (refl, tt)), tt))
