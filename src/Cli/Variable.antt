-- ===== src/Cli/Variable.antt =====
-- libucli/variable/variable_expand.c: the text of an action, a prompt or a view's id, with its
-- "${name}" sequences replaced. The environment and the regular expressions are parameters.
pub mod Escape
pub mod Plain
use ucli.Base.{
  ℕ, zero, suc, ◌-◌, Bool, true, false, ◌&&◌, ◌||◌, not, List, [], ◌∷◌, ◌++◌, Option, none, some,
  ltb, ◌==◌, if◌then◌else◌, length, take, drop,
}
use ucli.Base.Run.{Run, ok, abort, ◌>>=◌}
use ucli.Lub.Ctype.{Bytes}
use ucli.Lub.Text.{catn, cat, dup, dupn}
use ucli.Cli.Command.{Command, is_null}
use ucli.Cli.Pargv.{Pargs, find_parg}

-- "`|$<>&()#"
abbrev pub default_escape_chars : Bytes
default_escape_chars = b'`' ∷ b'|' ∷ b'$' ∷ b'<' ∷ b'>' ∷ b'&' ∷ b'(' ∷ b')' ∷ b'#' ∷ []

abbrev pub is_one_of : ℕ → Bytes → Bool
is_one_of c [] = false
is_one_of c (d ∷ s) = c == d || is_one_of c s

-- the length of the text in front of the first of the characters
strcspn : Bytes → Bytes → ℕ
strcspn [] chars = 0
strcspn (c ∷ s) chars = let n = strcspn s chars in if is_one_of c chars then 0 else suc n

-- The loop from `p` on. A round reads at least one character, so the length of `p` is enough fuel.
escape_from : ℕ → Bytes → Bytes → Option Bytes → Option Bytes
escape_from zero chars p result = result
escape_from (suc fuel) chars [] result = result
escape_from (suc fuel) chars (c ∷ p) result =
    let len = strcspn (c ∷ p) chars in
    let result' = catn result (some (c ∷ p)) len in
    elim (drop len (c ∷ p)) [
      | [] ↦ result'
      | d ∷ p' ↦
          escape_from fuel chars p' (catn (catn result' (some (b'\\' ∷ [])) 1) (some (d ∷ p')) 1)
    ]

abbrev chars_or_default : Option Bytes → Bytes
chars_or_default none = default_escape_chars
chars_or_default (some escape_chars) = escape_chars

unfoldable pub escape_special_chars : Option Bytes → Option Bytes → Option Bytes
unfolding escape_from strcspn catn
escape_special_chars none escape_chars = none
escape_special_chars (some string) escape_chars =
    escape_from (length string) (chars_or_default escape_chars) string none

pub record Context : Type 0 where
  pub viewid : Option Bytes
  pub cmd : Option Command
  pub pargv : Option Pargs

-- the value of the command's argument of that name
abbrev parg_value : Option Pargs → Bytes → Option Bytes
parg_value none name = none
parg_value (some pargv) name = elim (find_parg pargv name) [ none ↦ none | some parg ↦ parg.value ]

abbrev escape_chars_of : Option Command → Option Bytes
escape_chars_of none = none
escape_chars_of (some cmd) = cmd.escape_chars

-- strtok with the delimiter ':', called until it returns NULL: the text up to the first ':', and the
-- words behind it
abbrev add_token : Bytes → List Bytes → List Bytes
add_token [] words = words
add_token (c ∷ s) words = (c ∷ s) ∷ words

split_text : Bytes → Bytes × List Bytes
split_text [] = ([], [])
split_text (c ∷ s) =
    let (word, words) = split_text s in
    if c == b':' then ([], add_token word words) else (c ∷ word, words)

strtok_all : Bytes → List Bytes
strtok_all text = add_token (split_text text).0 (split_text text).1

abbrev starts_variable : Bytes → Bool
starts_variable (c ∷ d ∷ p) = c == b'$' && d == b'{'
starts_variable _ = false

-- the length of the text in front of the next variable
text_length : Bytes → ℕ
text_length [] = 0
text_length (c ∷ p) = let n = text_length p in if starts_variable (c ∷ p) then 0 else suc n

-- the length of a variable's name, and what is behind its '}', if it has one
name_end : Bytes → ℕ × Option Bytes
name_end [] = (0, none)
name_end (c ∷ p) = let (n, rest) = name_end p in if c == b'}' then (0, some p) else (suc n, rest)

-- a segment without a variable
text_segment : Bytes → Option Bytes × Bytes
text_segment p =
    let len = text_length p in (if ltb 0 len then dupn (some p) len else none, drop len p)

-- `getenv` is the environment. `regcomp` compiles an extended regular expression, or fails; then it
-- finds the offsets of the first group where the text matches.
module _ (getenv : Bytes → Option Bytes) (regcomp : Bytes → Option (Bytes → Option (ℕ × ℕ))) where
  -- behind the name, the pattern is "[ ]*=([^;]*)"
  find_viewid_var : Bytes → Bytes → Run (Option Bytes)
  find_viewid_var viewid name =
      let tail : Bytes =
        b'[' ∷ b' ' ∷ b']' ∷ b'*' ∷ b'=' ∷ b'(' ∷ b'[' ∷ b'^' ∷ b';' ∷ b']' ∷ b'*' ∷ b')' ∷ [] in
      elim (regcomp (name ++ tail)) [
        | none ↦ abort
        | some regexec ↦ elim (regexec viewid) [
          | none ↦ ok none
          | some (so, eo) ↦ ok (dupn (some (drop so viewid)) (eo - so))
        ]
      ]

  viewid_value : Option Bytes → Bytes → Run (Option Bytes)
  viewid_value none name = ok none
  viewid_value (some viewid) name = find_viewid_var viewid name

  -- the argument, else the variable of the view's id
  local_value : Option Bytes → Option Bytes → Bytes → Run (Option Bytes)
  local_value (some value) viewid name = ok (some value)
  local_value none viewid name = viewid_value viewid name

  -- else the environment's
  abbrev or_getenv : Option Bytes → Bytes → Option Bytes
  or_getenv (some value) name = some value
  or_getenv none name = getenv name

  context_retrieve : Context → Bytes → Run (Option Bytes)
  context_retrieve this name = do
    tmp ← local_value (parg_value this.pargv name) this.viewid name
    ok (escape_special_chars (or_getenv tmp name) (escape_chars_of this.cmd))

  -- `var ? var : q`
  abbrev or_word : Option Bytes → Bytes → Bytes
  or_word none q = q
  or_word (some var) q = var

  -- the loop over the words of a variable, and whether one of them has a value
  expand_words : Context → List Bytes → Option Bytes → Bool → Run (Option Bytes × Bool)
  expand_words this [] result valid = ok (result, valid)
  expand_words this (q ∷ words) result valid = do
    var ← context_retrieve this q
    expand_words this words (cat result (some (or_word var q))) (not (is_null var) || valid)

  abbrev valid_text : Option Bytes × Bool → Option Bytes
  valid_text (result, true) = result
  valid_text (result, false) = dup (some [])

  expand_name : Context → Bytes → Run (Option Bytes)
  expand_name this text = do
    expanded ← expand_words this (strtok_all text) none false
    ok (valid_text expanded)

  -- a variable, behind its "${", with the end that `name_end` finds
  variable_segment : Context → Bytes → ℕ × Option Bytes → Run (Option Bytes × Bytes)
  variable_segment this p (len, none) = ok (none, [])
  variable_segment this p (len, some rest) = do
    result ← expand_name this (take len p)
    ok (result, rest)

  -- the segment and the place behind it
  context_nextsegment : Context → Bytes → Run (Option Bytes × Bytes)
  context_nextsegment this p =
      if starts_variable p
      then variable_segment this (drop 2 p) (name_end (drop 2 p))
      else ok (text_segment p)

  -- The loop: a segment that is not NULL takes at least one character, so more than the length of the
  -- string is enough fuel.
  expand_from : ℕ → Context → Bytes → Option Bytes → Run (Option Bytes)
  expand_from zero context p result = ok result
  expand_from (suc fuel) context p result = do
    (seg, p') ← context_nextsegment context p
    elim seg [ none ↦ ok result | some s ↦ expand_from fuel context p' (cat result (some s)) ]

  unfoldable pub variable_expand :
      Option Bytes → Option Bytes → Option Command → Option Pargs → Run (Option Bytes)
  unfolding expand_from context_nextsegment text_segment variable_segment expand_name expand_words
      context_retrieve local_value viewid_value find_viewid_var name_end text_length strtok_all
      split_text escape_special_chars find_parg cat dup dupn
  variable_expand none viewid cmd pargv = ok none
  variable_expand (some string) viewid cmd pargv =
      expand_from (suc (length string)) (record { viewid = viewid; cmd = cmd; pargv = pargv })
        string none
