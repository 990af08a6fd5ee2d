-- ===== src/Tinyrl/Batch.antt =====
-- contrib/tinyrl/tinyrl.c: reading a line from a file, which is no terminal, in pieces of up to 79 bytes.
-- A byte of value 0 is not in the file. The loop runs on fuel; a piece after which it goes on has 79
-- bytes, so the length of the stream is enough, and one more; `none` is a run that has none left.
pub mod Fuel
use ucli.Base.{
  ℕ, zero, suc, ◌+◌, Bool, true, false, ◌&&◌, ◌||◌, not, List, [], ◌∷◌, Option, none, some, ◌==◌,
  if◌then◌else◌, length,
}
use ucli.Base.Run.{Run, ok, ◌>>=◌}
use ucli.Lub.Ctype.{Bytes, isspace}
use ucli.Tinyrl.Editor.{Tinyrl, ding, write, crlf, line_text, insert_text}
use ucli.Tinyrl.Redisplay.{redisplay}
use ucli.Tinyrl.Complete.{CompletionFunc}
use ucli.Tinyrl.Keys.{ClientHandler, run_handler}
use ucli.Tinyrl.Readline.{start_line}

-- What fgets leaves: the piece, what is left of the stream, and whether it met the end of the file.
pub record Piece : Type 0 where
  pub text : Bytes
  pub stream : Bytes
  pub at_eof : Bool

-- fgets with room for `n` bytes
unfoldable pub fgets : ℕ → Bytes → Piece
fgets zero stream = record { text = []; stream = stream; at_eof = false }
fgets (suc n) [] = record { text = []; stream = []; at_eof = true }
fgets (suc n) (c ∷ stream) =
    let rest = fgets n stream in
    if c == 10
    then record { text = c ∷ []; stream = stream; at_eof = false }
    else record rest { text = c ∷ rest.text }

-- strchr, and the text in front of what it finds
unfoldable pub cut_at : ℕ → Bytes → Option Bytes
cut_at d [] = none
cut_at d (c ∷ s) =
    let rest = cut_at d s in
    if c == d then some [] else elim rest [ none ↦ none | some t ↦ some (c ∷ t) ]

-- without what a line ends with
unfoldable pub stripped : Bytes → Bytes
stripped s = elim (cut_at 13 s) [ some t ↦ t | none ↦ elim (cut_at 10 s) [ some t ↦ t | none ↦ s ] ]

unfoldable pub skip_space : Bytes → Bytes
skip_space [] = []
skip_space (c ∷ s) = let rest = skip_space s in if isspace c then rest else c ∷ s

-- a piece goes to the end of the line, unless there is nothing in it
unfoldable pub add_piece : Tinyrl → Bytes → Run Tinyrl
add_piece this text =
    let s = if this.point == 0 then skip_space text else text in
    elim s [ [] ↦ ok this | c ∷ t ↦ redisplay (insert_text this (c ∷ t)).1 ]

-- `s` was not NULL at the end of the loop, and feof
pub record Reading : Type 0 where
  pub editor : Tinyrl
  pub got : Bool
  pub at_eof : Bool

-- The piece is taken in, and the loop goes on if it filled the array.
unfoldable pub take_piece :
    (Tinyrl → Run (Option Reading)) → Tinyrl → Bool → Bytes → Run (Option Reading)
take_piece rest this at_eof [] = ok (some (record { editor = this; got = false; at_eof = at_eof }))
take_piece rest this at_eof (c ∷ text) = do
  added ← add_piece this (stripped (c ∷ text))
  if length (stripped (c ∷ text)) == 79
      then rest added
      else ok (some (record { editor = added; got = true; at_eof = at_eof }))

unfoldable pub read_pieces : ℕ → Tinyrl → Run (Option Reading)
read_pieces zero this = ok none
read_pieces (suc fuel) this =
    let piece = fgets 79 this.istream in
    take_piece (read_pieces fuel) (record this { istream = piece.stream }) piece.at_eof piece.text

-- what the client gets
abbrev give : Option Bytes → Tinyrl → Option Bytes × Tinyrl
give none this = (none, crlf this)
give (some []) this = (some [], crlf this)
give (some (c ∷ line)) this = (some (c ∷ line), this)

module _ (attempted_completion_function : CompletionFunc) (client_handler : ClientHandler) where
  -- the handler of the key for the end of a line
  abbrev end_line : Tinyrl → Run (Option Bytes × Tinyrl)
  end_line this = do
    handled ← run_handler attempted_completion_function client_handler (this.handlers 10) this 10
    if handled.0
        then (do line ← line_text handled.1; ok (give (some line) handled.1))
        else ok (give none (write handled.1 ding))

  unfoldable pub finish_pieces : Option Reading → Run (Option (Option Bytes × Tinyrl))
  finish_pieces none = ok none
  finish_pieces (some reading) = do
    line ← line_text reading.editor
    given ←
        if not reading.got || (length line == 0 && reading.at_eof)
        then ok (give none reading.editor)
        else end_line reading.editor
    ok (some given)

  unfoldable pub readline_file : ℕ → Tinyrl → Bytes → Run (Option (Option Bytes × Tinyrl))
  readline_file fuel this prompt = do
    reading ← read_pieces fuel (record (start_line this prompt) { last_buffer = none })
    finish_pieces reading
