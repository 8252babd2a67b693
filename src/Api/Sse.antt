-- ===== src/Api/Sse.antt =====
-- `parse_sse`: a stream of server-sent events as the list of its events.
pub mod Lines
pub mod RoundTrip
mod Tests
use Prim.Native.Char.{code}
use Prim.Native.String
use localoud_ai.Base.{
  ℕ, String, List, [], ◌∷◌, ◌++◌, Option, none, some, Bool, true, false, not, ◌&&◌, ◌||◌, ◌==◌,
  string_eq, nat_beq, is_empty, if◌then◌else◌, Result, ok, err,
}
use localoud_ai.Base.Text.{is_nil, head_char, tail_chars, concat}
use localoud_ai.Providers.{is_some}

pub record SseEvent : Type 0 where
  pub event : Option String
  pub body : String

pub data SseError : Type 0 where
  empty_stream : SseError

-- An optional character is a given one.
abbrev pub is_char : ℕ → Option ℕ → Bool
is_char c none = false
is_char c (some d) = nat_beq d c

-- `input.replace("\r\n", "\n")`
unfoldable pub crlf_to_lf : String → String
unfolding head_char
crlf_to_lf String.[] = String.[]
crlf_to_lf (String.◌∷◌ c s) =
    let rest = crlf_to_lf s in
    if nat_beq (code c) 13 && is_char 10 (head_char s) then rest else String.◌∷◌ c rest

-- `replace('\r', "\n")`
unfoldable pub cr_to_lf : String → String
cr_to_lf String.[] = String.[]
cr_to_lf (String.◌∷◌ c s) = String.◌∷◌ (if nat_beq (code c) 13 then "\n" else c) (cr_to_lf s)

abbrev pub cons_first : String → List String → List String
cons_first c [] = c ∷ []
cons_first c (l ∷ ls) = concat c l ∷ ls

-- `lines()`, of a text without carriage returns.
unfoldable pub lines : String → List String
lines String.[] = []
lines (String.◌∷◌ c s) =
    let rest = lines s in
    if nat_beq (code c) 10 then "" ∷ rest else cons_first (String.◌∷◌ c "") rest

abbrev after_colon : String → Option (String × String) → Option (String × String)
after_colon c none = none
after_colon c (some (field, rest)) = some (concat c field, rest)

-- `line.split_once(':')`
unfoldable pub split_once : String → Option (String × String)
split_once String.[] = none
split_once (String.◌∷◌ c s) =
    if nat_beq (code c) b':' then some ("", s) else after_colon (String.◌∷◌ c "") (split_once s)

-- `raw.strip_prefix(' ').unwrap_or(raw)`
unfoldable pub strip_space : String → String
unfolding head_char tail_chars
strip_space raw = if is_char 32 (head_char raw) then tail_chars raw else raw

-- `join("\n")`
unfoldable pub join : List String → String
join [] = ""
join (l ∷ []) = l
join (l ∷ k ∷ ls) = concat l (concat "\n" (join (k ∷ ls)))

-- The variables of the loop.
pub record Reader : Type 0 where
  pub events : List SseEvent
  pub event : Option String
  pub body : List String

abbrev pub flush : Reader → Reader
flush r =
    if not (is_empty r.body) || is_some r.event
    then record {
      events = r.events ++ record { event = r.event; body = join r.body } ∷ [];
      event = none;
      body = [];
    }
    else r

abbrev pub field_of : String → Option (String × String) → String × String
field_of line none = (line, "")
field_of line (some f) = f

abbrev pub put_field : String → String → Reader → Reader
put_field field value r =
    if field == "event"
    then record r { event = some value }
    else if field == "data"
    then record r { body = r.body ++ value ∷ [] }
    else r

unfoldable pub read_line : String → Reader → Reader
unfolding split_once strip_space join is_nil head_char
read_line line r =
    if is_nil line
    then flush r
    else if is_char b':' (head_char line)
    then r
    else put_field (field_of line (split_once line)).0
        (strip_space (field_of line (split_once line)).1) r

unfoldable pub read_lines : List String → Reader → Reader
unfolding read_line
read_lines [] r = r
read_lines (l ∷ ls) r = read_lines ls (read_line l r)

abbrev pub no_events : Reader
no_events = record { events = []; event = none; body = [] }

unfoldable pub parse_sse : String → Result SseError (List SseEvent)
unfolding crlf_to_lf cr_to_lf lines read_lines
parse_sse input =
    let r = flush (read_lines (lines (cr_to_lf (crlf_to_lf input))) no_events) in
    if is_empty r.events then err empty_stream else ok r.events
