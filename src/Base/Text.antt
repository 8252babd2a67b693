-- ===== src/Base/Text.antt =====
-- Text. `String` is the native one: `len` counts bytes of UTF-8 as `str::len` does, `count` counts
-- characters as `chars().count()` does. The character classes are those of Rust's `char`.
use Prim.Native.Char.{code}
use Prim.Native.Nat.{ℕ, zero, suc}
use Prim.Native.String
use Prim.Native.String.{String, [], ◌∷◌}
use mathlib.Core.Bool.{Bool, true, false, ◌&&◌, ◌||◌}
use mathlib.Core.Option.{Option, none, some}
use mathlib.Core.List.{List}
use text.Mathlib.Text.{find?}
pub use text.Mathlib.Text.{starts_with}
use localoud_ai.Base.Tests.{leb, nat_beq, ◌==◌, string_eq, if◌then◌else◌}
use localoud_ai.Base.Lists.{any}

-- The `White_Space` property of Unicode, `char::is_whitespace`.
abbrev is_whitespace : ℕ → Bool
is_whitespace c =
    leb 9 c && leb c 13
    || nat_beq c 32
    || nat_beq c 0x85
    || nat_beq c 0xa0
    || nat_beq c 0x1680
    || leb 0x2000 c && leb c 0x200a
    || nat_beq c 0x2028
    || nat_beq c 0x2029
    || nat_beq c 0x202f
    || nat_beq c 0x205f
    || nat_beq c 0x3000

-- `s.trim().is_empty()`
unfoldable pub is_blank : String → Bool
is_blank [] = true
is_blank (c ∷ s) = is_whitespace (code c) && is_blank s

-- `s.is_empty()`
unfoldable pub is_nil : String → Bool
is_nil [] = true
is_nil (c ∷ s) = false

-- `char::is_control`: the general category Cc.
abbrev is_control : ℕ → Bool
is_control c = leb c 0x1f || leb 0x7f c && leb c 0x9f

unfoldable pub any_char : (ℕ → Bool) → String → Bool
any_char p [] = false
any_char p (c ∷ s) = p (code c) || any_char p s

unfoldable pub all_chars : (ℕ → Bool) → String → Bool
all_chars p [] = true
all_chars p (c ∷ s) = p (code c) && all_chars p s

-- `s.chars().any(char::is_control)`
unfoldable pub has_control : String → Bool
unfolding any_char
has_control s = any_char is_control s

abbrev pub is_ascii_digit : ℕ → Bool
is_ascii_digit c = leb b'0' c && leb c b'9'

abbrev pub is_ascii_alphanumeric : ℕ → Bool
is_ascii_alphanumeric c = is_ascii_digit c || leb b'a' c && leb c b'z' || leb b'A' c && leb c b'Z'

abbrev pub is_ascii_hexdigit : ℕ → Bool
is_ascii_hexdigit c = is_ascii_digit c || leb b'a' c && leb c b'f' || leb b'A' c && leb c b'F'

-- `text.contains(word)`
unfoldable pub has_word : String → String → Bool
has_word text word = elim (find? text word) [ none ↦ false | some _ ↦ true ]

-- `words.iter().any(|w| text.contains(w))`
abbrev pub has_any : List String → String → Bool
has_any words text = any (has_word text) words

abbrev pub concat : String → String → String
concat s t = String.◌++◌ s t

-- `s.trim()`
unfoldable pub trim_start : String → String
trim_start [] = []
trim_start (c ∷ s) = let rest = trim_start s in if is_whitespace (code c) then rest else c ∷ s

unfoldable pub trim_end : String → String
unfolding is_nil
trim_end [] = []
trim_end (c ∷ s) =
    let rest = trim_end s in if is_whitespace (code c) && is_nil rest then [] else c ∷ rest

unfoldable pub trim : String → String
unfolding trim_start trim_end
trim s = trim_end (trim_start s)

-- `s.replace('_', "-")`
unfoldable pub underscores_to_dashes : String → String
underscores_to_dashes [] = []
underscores_to_dashes (c ∷ s) = (if nat_beq (code c) b'_' then "-" else c) ∷ underscores_to_dashes s

-- `text.ends_with(end)`
unfoldable pub ends_with : String → String → Bool
ends_with [] t = is_nil t
ends_with (c ∷ s) t = let later = ends_with s t in (c ∷ s) == t || later

-- The first characters of a text.
unfoldable pub first_chars : ℕ → String → String
first_chars zero s = []
first_chars (suc n) [] = []
first_chars (suc n) (c ∷ s) = c ∷ first_chars n s

-- The first character of a text, and what follows it.
unfoldable pub head_char : String → Option ℕ
head_char [] = none
head_char (c ∷ s) = some (code c)

unfoldable pub tail_chars : String → String
tail_chars [] = []
tail_chars (c ∷ s) = s
