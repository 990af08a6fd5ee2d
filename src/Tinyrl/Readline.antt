-- ===== src/Tinyrl/Readline.antt =====
-- contrib/tinyrl/tinyrl.c: a new editor, and reading a line from a terminal. A read of the stream takes
-- a byte, and behind the last one it returns EOF. The loop runs on fuel; `none` is a run that has none
-- left.
pub mod Frame
pub mod Trim
pub mod Typed
use ucli.Base.{
  ℕ, zero, suc, ◌+◌, ◌-◌, Bool, true, false, List, [], ◌∷◌, ◌++◌, Option, none, some, ltb, ◌==◌,
  ◌&&◌, ◌||◌, not, if◌then◌else◌, length, get_elem?,
}
use ucli.Base.Run.{Run, ok, ◌>>=◌}
use ucli.Lub.Ctype.{Bytes, isspace}
use ucli.Tinyrl.History.{history_new}
use ucli.Tinyrl.Memory.{strcpy}
use ucli.Tinyrl.Editor.{
  buffer, ding, Handler, key_default, key_interrupt, key_start_of_line, key_end_of_line, key_kill,
  key_yank, key_crlf, key_backspace, key_delete, key_clear_screen, key_erase_line, key_escape,
  key_tab, Tinyrl, write, crlf, line_text, delete_text,
}
use ucli.Tinyrl.Redisplay.{redisplay, reset_line_state}
use ucli.Tinyrl.Complete.{CompletionFunc}
use ucli.Tinyrl.Keys.{ClientHandler, run_handler}

-- the keys that have a handler of their own
unfoldable pub initial_handler : ℕ → Handler
initial_handler key =
    if key == 13 || key == 10
    then key_crlf
    else (if key == 3
        then key_interrupt
        else (if key == 127 || key == 8
            then key_backspace
            else (if key == 4
                then key_delete
                else (if key == 27
                    then key_escape
                    else (if key == 12
                        then key_clear_screen
                        else (if key == 21
                            then key_erase_line
                            else (if key == 1
                                then key_start_of_line
                                else (if key == 5
                                    then key_end_of_line
                                    else (if key == 11
                                        then key_kill
                                        else (if key == 25
                                            then key_yank
                                            else (if key == 9
                                                then key_tab
                                                else key_default)))))))))))

-- a new editor; its buffer is NULL until the first line is read, which is an empty block here
unfoldable pub tinyrl_new : Bytes → ℕ → Tinyrl
tinyrl_new instream stifle = record {
  line = buffer;
  max_line_length = 0;
  prompt = [];
  memory = λ i. 0;
  buffer_size = 0;
  done = false;
  point = 0;
  end = 0;
  kill_string = none;
  handlers = initial_handler;
  history = history_new stifle;
  hist_iter = 0;
  istream = instream;
  term = [];
  echo_char = 0;
  echo_enabled = true;
  last_buffer = none;
  last_point = 0;
}

-- the bell, for a key that could not be obeyed
abbrev pub ring : Bool × Tinyrl → Tinyrl
ring (true, this) = this
ring (false, this) = write this ding

abbrev pub ends_in_space : Bytes → ℕ → Bool
ends_in_space line n = elim (get_elem? line n) [ none ↦ false | some c ↦ isspace c ]

-- a space at the end of the line goes, once the line is done
pub trim_done : Tinyrl → Run Tinyrl
trim_done this =
    if this.done && not (this.end == 0)
    then (do
      line ← line_text this
      ok (
          if ends_in_space line (this.end - 1)
          then delete_text this (this.end - 1) this.end
          else this))
    else ok this

pub data Outcome : Type 0 where
  end_of_input finished : Tinyrl → Outcome

-- what the client gets, if it gets a line
abbrev pub finish : Option Outcome → Run (Option (Option Bytes × Tinyrl))
finish none = ok none
finish (some (end_of_input this)) = ok (some (none, crlf this))
finish (some (finished this)) = do
  line ← line_text this
  ok (some (some line, if length line == 0 then crlf this else this))

-- the state at the start of a line
pub start_line : Tinyrl → Bytes → Tinyrl
start_line this prompt = record this {
  done = false;
  point = 0;
  end = 0;
  memory = strcpy this.memory [];
  buffer_size = 0;
  line = buffer;
  prompt = prompt;
}

module _ (attempted_completion_function : CompletionFunc) (client_handler : ClientHandler) where
  -- a key is read and its handler called; none at the end of the stream
  pub get_key : Tinyrl → Bytes → Run (Option Tinyrl)
  get_key this [] = ok none
  get_key this (key ∷ stream) = do
    handled ←
        run_handler attempted_completion_function client_handler (this.handlers key)
          (record this { istream = stream }) key
    trimmed ← trim_done (ring handled)
    ok (some trimmed)

  -- a turn of the loop, unless the line is done
  abbrev pub proceed : (Tinyrl → Run (Option Outcome)) → Tinyrl → Bool → Run (Option Outcome)
  proceed rest this true = ok (some (finished this))
  proceed rest this false = do
    drawn ← redisplay this
    got ← get_key drawn drawn.istream
    elim got [ none ↦ ok (some (end_of_input drawn)) | some after ↦ rest after ]

  pub loop : ℕ → Tinyrl → Run (Option Outcome)
  loop zero this = ok none
  loop (suc fuel) this = proceed (loop fuel) this this.done

  pub readline : ℕ → Tinyrl → Bytes → Run (Option (Option Bytes × Tinyrl))
  readline fuel this prompt = do
    drawn ← reset_line_state (start_line this prompt)
    ended ← loop fuel drawn
    finish ended
