-- ===== src/Lub/Argv.antt =====
-- contrib/lub/argv: splitting a line into words. A position in the line is the suffix that starts
-- there. The loops take fuel, one more than the length of the line (Argv/Count has the proof that
-- this is enough).
pub mod Count
pub mod RoundTrip
use ucli.Base.{
  ℕ, zero, suc, ◌+◌, Bool, true, false, not, ◌&&◌, List, [], ◌∷◌, Option, none, some, ltb, ◌==◌,
  if◌then◌else◌, length, get_elem?, drop,
}
use ucli.Lub.Ctype.{Bytes, isspace}
use ucli.Lub.Text.{dupn}
use mathlib.Core.Option

pub record Arg : Type 0 where
  pub arg : Option Bytes
  pub offset : ℕ
  pub quoted : Bool

pub record Argv : Type 0 where
  pub argc : ℕ
  pub argv : List Arg

-- what `lub_argv_nextword` returns, and writes through its pointers
pub record NextWord : Type 0 where
  pub word : Bytes
  pub len : ℕ
  pub offset : ℕ
  pub quoted : Bool

-- the first loop: the start of a word, and the offset after the white space
skip_space : Bytes → ℕ → Bytes × ℕ
skip_space [] offset = ([], offset)
skip_space (c ∷ string) offset =
    let rest = skip_space string (offset + 1) in if isspace c then rest else (c ∷ string, offset)

-- the second loop: the length of the word, and whether a quotation mark ends it
word_end : Bool → Bytes → ℕ × Bool
word_end quote [] = (0, false)
word_end quote (c ∷ string) =
    let rest = word_end quote string in
    if not quote && isspace c
    then (0, false)
    else if c == b'"'
    then (0, true)
    else (suc rest.0, rest.1)

starts_quote : Bytes → Bool
starts_quote [] = false
starts_quote (c ∷ string) = c == b'"'

-- from the start of a word on: past an opening quotation mark, and to the end of the word
word_at : Bytes → ℕ → NextWord
word_at start at =
    let quote = starts_quote start in
    let word = if quote then drop 1 start else start in
    let (len, quoted) = word_end quote word in
    record { word = word; len = len; offset = at; quoted = quoted }

pub nextword : Bytes → ℕ → NextWord
nextword string offset = let (start, at) = skip_space string offset in word_at start at

-- the terminating quotation mark, if there is one
abbrev pub mark : Bool → ℕ
mark true = 1
mark false = 0

-- the loop of `lub_argv_wordcount`
count_words : ℕ → Bytes → ℕ → ℕ
count_words zero string offset = 0
count_words (suc fuel) string offset =
    let w = nextword string offset in
    elim w.word [
      | [] ↦ 0
      | c ∷ r ↦ suc (count_words fuel (drop (w.len + mark w.quoted) w.word) w.offset)
    ]

unfoldable pub wordcount : Bytes → ℕ
unfolding count_words nextword word_at skip_space word_end starts_quote isspace
wordcount line = count_words (suc (length line)) line 0

-- one round of the loop of `lub_argv_init`, and the rounds that follow
fill_step : (Bytes → ℕ → List Arg) → NextWord → List Arg
fill_step next w = elim w.word [
  | [] ↦ []
  | c ∷ r ↦
      let after = w.offset + w.len + (mark w.quoted + mark w.quoted) in
      (record { arg = dupn (some w.word) w.len; offset = w.offset; quoted = w.quoted })
      ∷ next (drop (w.len + mark w.quoted) w.word) after
]

fill : ℕ → Bytes → ℕ → List Arg
fill zero string offset = []
fill (suc fuel) string offset = fill_step (fill fuel) (nextword string offset)

unfoldable pub argv_new : Bytes → ℕ → Argv
unfolding wordcount fill fill_step dupn
argv_new line offset = record { argc = wordcount line; argv = fill (suc (length line)) line offset }

abbrev pub get_count : Argv → ℕ
get_count this = this.argc

-- a slot of the array below `argc`; none past the end
abbrev pub slot : Argv → ℕ → Option Arg
slot this index = if ltb index this.argc then get_elem? this.argv index else none

unfoldable pub get_arg : Argv → ℕ → Option Bytes
get_arg this index = elim (slot this index) [ none ↦ none | some a ↦ a.arg ]

unfoldable pub get_offset : Argv → ℕ → ℕ
get_offset this index = elim (slot this index) [ none ↦ 0 | some a ↦ a.offset ]

unfoldable pub get_quoted : Argv → ℕ → Bool
get_quoted this index = elim (slot this index) [ none ↦ false | some a ↦ a.quoted ]
