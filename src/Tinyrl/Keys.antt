-- ===== src/Tinyrl/Keys.antt =====
-- contrib/tinyrl/tinyrl.c: the key handlers. A handler says whether it could do what the key asks for;
-- if not, the bell rings. The handlers that a client binds are a parameter, as its completion function
-- is.
pub mod Edit
pub mod Refine
pub mod Browse
pub mod Return
use ucli.Base.{
  ℕ, zero, suc, ◌+◌, ◌-◌, ◌/◌, ◌%◌, Bool, true, false, List, [], ◌∷◌, Option, none, some, ltb, ◌==◌,
  if◌then◌else◌, length, not,
}
use ucli.Base.Run.{Run, ok, abort, ◌>>=◌}
use ucli.Lub.Ctype.{Bytes}
use ucli.Tinyrl.History.{Entry, getlast, getprevious, getnext}
use ucli.Tinyrl.Memory.{unsigned, cstring}
use ucli.Tinyrl.Editor.{
  Line, buffer, entry, Handler, key_default, key_interrupt, key_start_of_line, key_end_of_line,
  key_kill, key_yank, key_crlf, key_backspace, key_delete, key_clear_screen, key_erase_line,
  key_escape, key_tab, client, Tinyrl, clear_screen, cursor_home, write, crlf, line_text,
  insert_text, delete_text,
}
use ucli.Tinyrl.Redisplay.{reset_line_state}
use ucli.Tinyrl.Vt100.{
  Escape, unknown, cursor_up, cursor_down, cursor_left, cursor_right, escape_decode,
}
use ucli.Tinyrl.Complete.{
  Match, no_match, completed_match, ambiguous, completed_ambiguous, match_, match_with_extensions,
  do_complete, CompletionFunc,
}

-- "~%d", of a control character
pub control_text : ℕ → Bytes
control_text key =
    if ltb key 10
    then b'~' ∷ (b'0' + key) ∷ []
    else b'~' ∷ (b'0' + key / 10) ∷ (b'0' + key % 10) ∷ []

-- the character as a string, which is empty for the terminator
unfoldable pub key_text : ℕ → Bytes
key_text key = if key % 256 == 0 then [] else key % 256 ∷ []

-- what a key that has no other meaning puts in
abbrev pub typed : ℕ → Bytes
typed key = if ltb 31 key then key_text key else control_text key

unfoldable pub run_default : Tinyrl → ℕ → Bool × Tinyrl
run_default this key = insert_text this (typed key)

pub run_interrupt : Tinyrl → Bool × Tinyrl
run_interrupt this = (true, record (delete_text this 0 this.end) { done = true })

pub run_kill : Tinyrl → Run (Bool × Tinyrl)
run_kill this = do
  killed ← cstring this.memory (suc this.buffer_size - this.point) this.point
  ok (true, delete_text (record this { kill_string = some killed }) this.point this.end)

abbrev pub yank : Tinyrl → Option Bytes → Bool × Tinyrl
yank this none = (false, this)
yank this (some text) = insert_text this text

pub run_yank : Tinyrl → Bool × Tinyrl
run_yank this = yank this this.kill_string

unfoldable pub run_crlf : Tinyrl → Bool × Tinyrl
run_crlf this = (true, record (crlf this) { done = true })

-- the entry's line, with the point at its end
abbrev show_entry : Tinyrl → Entry → Tinyrl
show_entry this found = record this {
  line = entry found.line;
  point = unsigned (length found.line);
  end = unsigned (length found.line);
}

abbrev show_previous : Tinyrl → Option Entry × ℕ → Bool × Tinyrl
show_previous this (none, iter) = (false, record this { hist_iter = iter })
show_previous this (some found, iter) = (true, show_entry (record this { hist_iter = iter }) found)

-- the last entry, or the one before that is shown
abbrev previous_entry : Line → Tinyrl → Option Entry × ℕ
previous_entry buffer this = getlast this.history
previous_entry (entry s) this = getprevious this.history this.hist_iter

pub run_up : Tinyrl → Bool × Tinyrl
run_up this = show_previous this (previous_entry this.line this)

abbrev show_next : Tinyrl → Option Entry × ℕ → Run (Bool × Tinyrl)
show_next this (some found, iter) = ok (true, show_entry (record this { hist_iter = iter }) found)
show_next this (none, iter) = do
  text ← cstring this.memory (suc this.buffer_size) 0
  ok (
    true,
    record this {
      hist_iter = iter;
      line = buffer;
      point = unsigned (length text);
      end = unsigned (length text);
    },
  )

abbrev next_entry : Line → Tinyrl → Run (Bool × Tinyrl)
next_entry buffer this = ok (false, this)
next_entry (entry s) this = show_next this (getnext this.history this.hist_iter)

pub run_down : Tinyrl → Run (Bool × Tinyrl)
run_down this = next_entry this.line this

unfoldable pub run_left : Tinyrl → Bool × Tinyrl
run_left this =
    if ltb 0 this.point then (true, record this { point = this.point - 1 }) else (false, this)

unfoldable pub run_right : Tinyrl → Bool × Tinyrl
run_right this =
    if ltb this.point this.end
    then (true, record this { point = this.point + 1 })
    else (false, this)

pub run_backspace : Tinyrl → Bool × Tinyrl
run_backspace this = if this.point == 0 then (false, this) else (
  true,
  delete_text (record this { point = this.point - 1 }) (this.point - 1) (this.point - 1),
)

pub run_delete : Tinyrl → Bool × Tinyrl
run_delete this =
    if ltb this.point this.end
    then (true, delete_text this this.point this.point)
    else (false, this)

unfoldable pub run_clear_screen : Tinyrl → Run (Bool × Tinyrl)
run_clear_screen this = do
  drawn ← reset_line_state (write (write this clear_screen) cursor_home)
  ok (true, drawn)

pub run_erase_line : Tinyrl → Bool × Tinyrl
run_erase_line this = (true, record (delete_text this 0 this.point) { point = 0 })

abbrev run_cursor : Tinyrl → Escape → Run (Bool × Tinyrl)
run_cursor this cursor_up = ok (run_up this)
run_cursor this cursor_down = run_down this
run_cursor this cursor_left = ok (run_left this)
run_cursor this cursor_right = ok (run_right this)
run_cursor this unknown = ok (false, this)

unfoldable pub run_escape : Tinyrl → Run (Bool × Tinyrl)
run_escape this = do
  found ← escape_decode this.istream
  run_cursor (record this { istream = found.1 }) found.0

-- a space behind a word that is complete
abbrev after_match : Match → Tinyrl → Bool × Tinyrl
after_match completed_match this = insert_text this (b' ' ∷ [])
after_match match_ this = insert_text this (b' ' ∷ [])
after_match _ this = (false, this)

abbrev pub ClientHandler : Type 0
ClientHandler = ℕ → Tinyrl → ℕ → Run (Bool × Tinyrl)

module _ (attempted_completion_function : CompletionFunc) (client_handler : ClientHandler) where
  unfoldable pub run_tab : Tinyrl → Run (Bool × Tinyrl)
  run_tab this = do
    completed ← do_complete attempted_completion_function this true
    ok (after_match completed.0 completed.1)

  -- the call of a handler
  unfoldable pub run_handler : Handler → Tinyrl → ℕ → Run (Bool × Tinyrl)
  run_handler key_default this key = ok (run_default this key)
  run_handler key_interrupt this key = ok (run_interrupt this)
  run_handler key_start_of_line this key = ok (true, record this { point = 0 })
  run_handler key_end_of_line this key = ok (true, record this { point = this.end })
  run_handler key_kill this key = run_kill this
  run_handler key_yank this key = ok (run_yank this)
  run_handler key_crlf this key = ok (run_crlf this)
  run_handler key_backspace this key = ok (run_backspace this)
  run_handler key_delete this key = ok (run_delete this)
  run_handler key_clear_screen this key = run_clear_screen this
  run_handler key_erase_line this key = ok (run_erase_line this)
  run_handler key_escape this key = run_escape this
  run_handler key_tab this key = run_tab this
  run_handler (client n) this key = client_handler n this key
