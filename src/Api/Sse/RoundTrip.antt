-- ===== src/Api/Sse/RoundTrip.antt =====
-- A stream that is written as server-sent events, and what `parse_sse` reads of it
-- (crates/provider-api/src/lib.rs).
use Prim.Native.Char.{code}
use text.Mathlib.TextLemmas.{cons-append, nil-append}
use localoud_ai.Base.{
  ◌≡◌, refl, ap, ◌∙◌, inl, inr, Bool-cases, String, List, [], ◌∷◌, ◌++◌, map, append_assoc,
  append-nil, Option, none, some, true, false, string_eq, nat_beq, All, All-append, ok, arith,
}
use localoud_ai.Base.Text.{head_char, tail_chars, concat, all_chars, is_nil}
use localoud_ai.Providers.{is_some}
use localoud_ai.Api.Sse.{
  SseEvent, is_char, Reader, put_field, read_line, read_lines, split_once, strip_space, after_colon,
  join, parse_sse,
}
use localoud_ai.Api.Sse.Lines.{IsLine, Ending, unlines, lines-unlines}

-- An event with its data as lines, of which there is one at least.
pub record Sent : Type 0 where
  pub event : Option String
  pub first : String
  pub more : List String

abbrev name_lines : Option String → List String
name_lines none = []
name_lines (some name) = concat "event: " name ∷ []

abbrev data_lines : List String → List String
data_lines ls = map (λ l. concat "data: " l) ls

-- An event ends with an empty line.
abbrev event_lines : Sent → List String
event_lines s = name_lines s.event ++ (data_lines (s.first ∷ s.more) ++ "" ∷ [])

abbrev all_lines : List Sent → List String
all_lines [] = []
all_lines (s ∷ ss) = event_lines s ++ all_lines ss

-- The stream, with the line ending that the sender uses.
unfoldable pub print : Ending → List Sent → String
unfolding unlines
print e ss = unlines e (all_lines ss)

abbrev pub received : Sent → SseEvent
received s = record { event = s.event; body = join (s.first ∷ s.more) }

abbrev GoodName : Option String → Type 0
GoodName none = Unit
GoodName (some name) = IsLine name

-- Neither the name nor a line of the data has a line ending inside.
abbrev pub IsSent : Sent → Type 0
IsSent s = GoodName s.event × All IsLine (s.first ∷ s.more)

abbrev with_rest : String → Option (String × String) → Option (String × String)
with_rest x none = none
with_rest x (some (field, rest)) = some (field, concat rest x)

after_colon-with_rest :
    (c x : String) (o : Option (String × String))
    → after_colon c (with_rest x o) ≡ with_rest x (after_colon c o)
after_colon-with_rest c x none = refl
after_colon-with_rest c x (some (field, rest)) = refl

after_colon-some :
    (c : String) (o : Option (String × String))
    → is_some (after_colon c o) ≡ true
    → is_some o ≡ true
after_colon-some c none h = h
after_colon-some c (some f) h = refl

split_once-append :
    (p x : String)
    → is_some (split_once p) ≡ true
    → split_once (concat p x) ≡ with_rest x (split_once p)
unfolding split_once
split_once-append String.[] x h = cc
split_once-append (String.◌∷◌ c p) x h = elim (Bool-cases (nat_beq (code c) b':')) [
  | inl here ↦ rw (cons-append c p x, here) refl
  | inr there ↦
      rw
        (
          cons-append c p x,
          there,
          split_once-append p x (after_colon-some (String.◌∷◌ c "") (split_once p) (rw there at h)),
        )
        (after_colon-with_rest (String.◌∷◌ c "") x (split_once p))
]

filled-append :
    (p x : String)
    → is_nil p ≡ false
    → (is_nil (concat p x) ≡ false) × (head_char (concat p x) ≡ head_char p)
unfolding is_nil head_char
filled-append String.[] x h = cc
filled-append (String.◌∷◌ c p) x h = rw (cons-append c p x) (refl, refl)

strip_space-append : (x : String) → strip_space (concat " " x) ≡ x
unfolding strip_space head_char tail_chars
strip_space-append x = rw (cons-append " " "" x, nil-append x) refl

-- A line of a field adds its value.
read_line-field :
    (p field x : String) (r : Reader)
    → is_nil p ≡ false
    → is_char b':' (head_char p) ≡ false
    → split_once p ≡ some (field, " ")
    → read_line (concat p x) r ≡ put_field field x r
unfolding read_line
read_line-field p field x r filled no_comment e =
    let (a, b) = filled-append p x filled in
    let colon : is_some (split_once p) ≡ true = rw e refl in
    rw (a, b, no_comment, split_once-append p x colon, e, strip_space-append x) refl

read_lines-append :
    (ls ks : List String) (r : Reader) → read_lines (ls ++ ks) r ≡ read_lines ks (read_lines ls r)
unfolding read_lines
read_lines-append [] ks r = refl
read_lines-append (l ∷ ls) ks r = read_lines-append ls ks (read_line l r)

read_name :
    (name : Option String) (r : Reader)
    → r.event ≡ none
    → read_lines (name_lines name) r ≡ record r { event = name }
unfolding read_lines
read_name none r h = rw (← h) refl
read_name (some name) r h =
    read_line-field "event: " "event" name r (unfold is_nil in refl) (unfold head_char in refl)
      (unfold split_once in refl)

read_data :
    (ls : List String) (r : Reader)
    → read_lines (data_lines ls) r ≡ record r { body = r.body ++ ls }
unfolding read_lines
read_data [] r = rw (append-nil r.body) refl
read_data (l ∷ ls) r =
    ap (read_lines (data_lines ls)) (
      read_line-field "data: " "data" l r (unfold is_nil in refl) (unfold head_char in refl)
        (unfold split_once in refl))
    ∙ read_data ls (record r { body = r.body ++ l ∷ [] })
    ∙ rw (append_assoc r.body (l ∷ []) ls) refl

-- A reader between two events.
abbrev between : List SseEvent → Reader
between events = record { events = events; event = none; body = [] }

read_event :
    (s : Sent) (events : List SseEvent)
    → read_lines (event_lines s) (between events) ≡ between (events ++ received s ∷ [])
unfolding read_lines
read_event s events =
    read_lines-append (name_lines s.event) (data_lines (s.first ∷ s.more) ++ "" ∷ [])
      (between events)
    ∙ ap (read_lines (data_lines (s.first ∷ s.more) ++ "" ∷ []))
        (read_name s.event (between events) refl)
    ∙ read_lines-append (data_lines (s.first ∷ s.more)) ("" ∷ [])
        (record (between events) { event = s.event })
    ∙ ap (read_lines ("" ∷ []))
        (read_data (s.first ∷ s.more) (record (between events) { event = s.event }))
    ∙ unfold read_line is_nil in refl

read_events :
    (ss : List Sent) (events : List SseEvent)
    → read_lines (all_lines ss) (between events) ≡ between (events ++ map received ss)
unfolding read_lines
read_events [] events = rw (append-nil events) refl
read_events (s ∷ ss) events =
    read_lines-append (event_lines s) (all_lines ss) (between events)
    ∙ ap (read_lines (all_lines ss)) (read_event s events)
    ∙ read_events ss (events ++ received s ∷ [])
    ∙ rw (append_assoc events (received s ∷ []) (map received ss)) refl

IsLine-append : (p l : String) → IsLine p → IsLine l → IsLine (concat p l)
unfolding all_chars
IsLine-append String.[] l h k = rw (nil-append l) k
IsLine-append (String.◌∷◌ c p) l h k = rw (cons-append c p l) (ground (arith, IsLine-append p l))

data-IsLine : (ls : List String) → All IsLine ls → All IsLine (data_lines ls)
data-IsLine [] h = tt
data-IsLine (l ∷ ls) (h, hs) =
    (IsLine-append "data: " l (unfold all_chars in refl) h, data-IsLine ls hs)

name-IsLine : (name : Option String) → GoodName name → All IsLine (name_lines name)
name-IsLine none h = tt
name-IsLine (some name) h = (IsLine-append "event: " name (unfold all_chars in refl) h, tt)

lines-IsLine : (ss : List Sent) → All IsSent ss → All IsLine (all_lines ss)
lines-IsLine [] h = tt
lines-IsLine (s ∷ ss) ((name, body), hs) =
    All-append IsLine (event_lines s) (all_lines ss)
      (All-append IsLine (name_lines s.event) (data_lines (s.first ∷ s.more) ++ "" ∷ [])
        (name-IsLine s.event name)
        (All-append IsLine (data_lines (s.first ∷ s.more)) ("" ∷ [])
          (data-IsLine (s.first ∷ s.more) body) (unfold all_chars in refl, tt)))
      (lines-IsLine ss hs)

-- A stream of at least one event, whose names and data lines have no line ending inside, is read back
-- whole and in order, whichever of the three line endings it is written with.
pub parse_sse-print :
    (e : Ending) (s : Sent) (ss : List Sent)
    → All IsSent (s ∷ ss)
    → parse_sse (print e (s ∷ ss)) ≡ ok (map received (s ∷ ss))
unfolding parse_sse print
parse_sse-print e s ss h =
    rw (lines-unlines e (all_lines (s ∷ ss)) (lines-IsLine (s ∷ ss) h), read_events (s ∷ ss) [])
      refl
