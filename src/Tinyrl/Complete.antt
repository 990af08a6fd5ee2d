-- ===== src/Tinyrl/Complete.antt =====
-- contrib/tinyrl/tinyrl.c: completing the word at the insertion point. The client's completion function
-- is a parameter: from the line and the word's offsets it makes the matches, of which the first one is
-- the text to put in, or NULL.
pub mod Prefix
use Prim.Native.Nat.{max}
use ucli.Base.{
  ℕ, zero, suc, ◌+◌, ◌-◌, ◌/◌, Bool, true, false, List, [], ◌∷◌, ◌++◌, Option, none, some, ltb,
  ◌==◌, ◌&&◌, ◌||◌, not, if◌then◌else◌, length, drop, get_elem?,
}
use ucli.Base.Int.{is_zero}
use ucli.Base.Run.{Run, ok, abort, ◌>>=◌}
use ucli.Lub.Ctype.{Bytes, isspace, tolower}
use ucli.Lub.Text.{nocasecmp}
use ucli.Tinyrl.Editor.{Tinyrl, print, write, crlf, line_text, insert_text, delete_text}
use ucli.Tinyrl.Memory.{minus}
use ucli.Tinyrl.Redisplay.{same_prefix, redisplay, reset_line_state}

-- the common prefix of the substitution and another match
pub common_prefix : Bytes → Bytes → Bytes
common_prefix (c ∷ p) (d ∷ match) =
    let rest = common_prefix p match in if tolower c == tolower d then c ∷ rest else []
common_prefix _ _ = []

pub substitution : Bytes → List Bytes → Bytes
substitution prefix [] = prefix
substitution prefix (match ∷ matches) = substitution (common_prefix prefix match) matches

-- What the entry function gives, with the substitution in front; none for NULL.
pub completion : List Bytes → Option (List Bytes)
unfolding substitution
completion [] = none
completion (match ∷ matches) = some (substitution match matches ∷ match ∷ matches)

pub data Match : Type 0 where
  no_match completed_match ambiguous completed_ambiguous match_ match_with_extensions : Match

-- "%-*s "
abbrev padded : ℕ → Bytes → Bytes
padded zero [] = b' ' ∷ []
padded (suc n) [] = b' ' ∷ padded n []
padded zero (c ∷ s) = c ∷ padded zero s
padded (suc n) (c ∷ s) = c ∷ padded n s

-- a row of `cols` matches, and those that are left
show_row : Tinyrl → ℕ → ℕ → List Bytes → Tinyrl × List Bytes
show_row this width zero matches = (this, matches)
show_row this width (suc cols) [] = (this, [])
show_row this width (suc cols) (match ∷ matches) =
    show_row (write this (print (padded width match))) width cols matches

show_rows : ℕ → Tinyrl → ℕ → ℕ → List Bytes → Tinyrl
unfolding show_row
show_rows zero this width cols matches = this
show_rows (suc rows) this width cols [] = this
show_rows (suc rows) this width cols (match ∷ matches) =
    let row = show_row this width cols (match ∷ matches) in
    show_rows rows (crlf row.0) width cols row.1

-- The terminal has 80 columns. With no column for a match, the number of rows is a division by zero.
unfoldable pub display_matches : Tinyrl → List Bytes → ℕ → ℕ → Run Tinyrl
unfolding show_rows
display_matches this matches len width =
    let cols = 80 / (width + 1) in
    if cols == 0 then abort else ok (show_rows (len / cols + 1) this width cols (drop 1 matches))

longest : List Bytes → ℕ
longest [] = 0
longest (match ∷ matches) = max (length match) (longest matches)

-- the offset of the word that ends at offset `n`
unfoldable pub word_start : Bytes → ℕ → ℕ
word_start line zero = 0
word_start line (suc n) =
    let earlier = word_start line n in
    elim (get_elem? line n) [ none ↦ suc n | some c ↦ if isspace c then suc n else earlier ]

-- The substitution takes the place of the word, unless the line has it already. At the start of a line
-- the offset in front of the point wraps around.
unfoldable pub complete_word : Tinyrl → Bytes → ℕ → ℕ → Bytes → Bool × Bool × Tinyrl
complete_word this line start end first =
    if same_prefix (length first) first (drop start line)
    then (true, false, this)
    else (let deleted = delete_text this start (if this.end == end then end else minus end 1) in
        let inserted = insert_text deleted first in (inserted.0, true, inserted.1))

-- the matches are listed, if they are asked for or the word is not one of them
abbrev list_matches : Tinyrl → Bool → Bool → List Bytes → Run Tinyrl
list_matches this with_extensions prefix matches =
    if with_extensions || not prefix
    then (do
      shown ← display_matches (crlf this) matches (length matches) (longest matches)
      reset_line_state shown)
    else ok this

abbrev status : Bool → Bool → Bool → Match
status true completion prefix =
    if completion
    then completed_ambiguous
    else (if prefix then match_with_extensions else ambiguous)
status false completion prefix = if completion then completed_match else match_

-- the rest of `do_complete`, once the word is completed
unfoldable pub complete_matches :
    Bool × Bool × Tinyrl → Bool → Bytes → Bytes → List Bytes → Run (Match × Tinyrl)
unfolding longest
complete_matches (false, completion, this) with_extensions first second others = ok (no_match, this)
complete_matches (true, completion, this) with_extensions first second others = do
  let prefix = is_zero (nocasecmp first second)
  let several = not (length others == 0)
  listed ←
      if several
      then list_matches this with_extensions prefix (first ∷ second ∷ others)
      else ok this
  drawn ← redisplay listed
  ok (status several completion prefix, drawn)

-- Does the rest of `do_complete` for what the client's function returns; an array with one entry only
-- is a use of NULL.
unfoldable pub insert_matches :
    Tinyrl → Bool → Bytes → ℕ → ℕ → Option (List Bytes) → Run (Match × Tinyrl)
insert_matches this with_extensions line start end none = ok (no_match, this)
insert_matches this with_extensions line start end (some (first ∷ second ∷ others)) =
    complete_matches (complete_word this line start end first) with_extensions first second others
insert_matches this with_extensions line start end (some _) = abort

abbrev pub CompletionFunc : Type 0
CompletionFunc = Bytes → ℕ → ℕ → Option (List Bytes)

module _ (attempted_completion_function : CompletionFunc) where
  unfoldable pub do_complete : Tinyrl → Bool → Run (Match × Tinyrl)
  do_complete this with_extensions = do
    line ← line_text this
    let start = word_start line this.point
    insert_matches this with_extensions line start this.point
        (attempted_completion_function line start this.point)
