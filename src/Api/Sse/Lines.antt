-- ===== src/Api/Sse/Lines.antt =====
-- Texts that are written line by line, and what the reader of a stream (crates/provider-api/src/lib.rs)
-- makes of them.
use Prim.Native.Char.{Char, code}
use text.Mathlib.TextLemmas.{cons-append, nil-append, append-nil}
use localoud_ai.Base.{
  ℕ, ◌≡◌, refl, ap, ◌∙◌, String, List, [], ◌∷◌, Bool, true, false, not, ◌&&◌, nat_beq, All, arith,
}
use localoud_ai.Base.Text.{head_char, concat, all_chars}
use localoud_ai.Api.Sse.{is_char, crlf_to_lf, cr_to_lf, lines, cons_first}

-- A text without a line ending of any kind.
abbrev plain_char : ℕ → Bool
plain_char c = not (nat_beq c 10) && not (nat_beq c 13)

abbrev pub IsLine : String → Type 0
IsLine l = all_chars plain_char l ≡ true

-- The line endings that the reader takes.
pub data Ending : Type 0 where
  lf cr crlf : Ending

abbrev pub ending : Ending → String
ending lf = "\n"
ending cr = "\r"
ending crlf = "\r\n"

-- Lines as a text, each with its ending.
unfoldable pub unlines : Ending → List String → String
unlines e [] = ""
unlines e (l ∷ ls) = concat l (concat (ending e) (unlines e ls))

-- What follows the normalisation of line endings.
abbrev read_text : String → List String
read_text s = lines (cr_to_lf (crlf_to_lf s))

read_text-cons :
    (c : Char) (s : String)
    → plain_char (code c) ≡ true
    → read_text (String.◌∷◌ c s) ≡ cons_first (String.◌∷◌ c "") (read_text s)
unfolding crlf_to_lf cr_to_lf lines
read_text-cons c s h = ground arith

read_text-line :
    (l t k : String) (ks : List String)
    → IsLine l
    → read_text t ≡ k ∷ ks
    → read_text (concat l t) ≡ concat l k ∷ ks
unfolding all_chars
read_text-line String.[] t k ks h e = rw (nil-append t, nil-append k) e
read_text-line (String.◌∷◌ c l) t k ks h e =
    let first : plain_char (code c) ≡ true = ground arith in
    let rest = read_text-line l t k ks (ground arith) e in
    rw
      (
        cons-append c l t,
        read_text-cons c (concat l t) first,
        rest,
        cons-append c l k,
        cons-append c "" (concat l k),
        nil-append (concat l k),
      )
      refl

abbrev starts_lf : String → Bool
starts_lf s = is_char 10 (head_char s)

-- After a carriage return alone there is no line feed.
abbrev Follows : Ending → String → Type 0
Follows cr s = starts_lf s ≡ false
Follows _ s = Unit

read_text-ending :
    (e : Ending) (s : String) → Follows e s → read_text (concat (ending e) s) ≡ "" ∷ read_text s
unfolding crlf_to_lf cr_to_lf lines head_char
read_text-ending lf s h = rw (cons-append "\n" "" s, nil-append s) refl
read_text-ending cr s h = rw (cons-append "\r" "" s, nil-append s, h) refl
read_text-ending crlf s h = rw (cons-append "\r" "\n" s, cons-append "\n" "" s, nil-append s) refl

starts_lf-line : (l t : String) → IsLine l → starts_lf t ≡ false → starts_lf (concat l t) ≡ false
unfolding all_chars head_char
starts_lf-line String.[] t h e = rw (nil-append t) e
starts_lf-line (String.◌∷◌ c l) t h e = rw (cons-append c l t) (ground arith)

starts_lf-unlines : (ls : List String) → All IsLine ls → starts_lf (unlines cr ls) ≡ false
unfolding unlines head_char
starts_lf-unlines [] h = refl
starts_lf-unlines (l ∷ ls) (h, hs) =
    starts_lf-line l (concat "\r" (unlines cr ls)) h (rw (cons-append "\r" "" (unlines cr ls)) refl)

Follows-unlines : (e : Ending) (ls : List String) → All IsLine ls → Follows e (unlines e ls)
Follows-unlines cr ls h = starts_lf-unlines ls h
Follows-unlines lf ls h = tt
Follows-unlines crlf ls h = tt

-- Whatever the endings, the lines are read back.
pub lines-unlines :
    (e : Ending) (ls : List String)
    → All IsLine ls
    → lines (cr_to_lf (crlf_to_lf (unlines e ls))) ≡ ls
unfolding unlines
lines-unlines e [] h = unfold crlf_to_lf cr_to_lf lines in refl
lines-unlines e (l ∷ ls) (h, hs) =
    read_text-line l (concat (ending e) (unlines e ls)) "" ls h (
      read_text-ending e (unlines e ls) (Follows-unlines e ls hs)
      ∙ ap (λ k. "" ∷ k) (lines-unlines e ls hs))
    ∙ rw (append-nil l) refl
