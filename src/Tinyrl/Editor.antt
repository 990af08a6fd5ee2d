-- ===== src/Tinyrl/Editor.antt =====
-- contrib/tinyrl/tinyrl.c: the state of the line editor, and the changes of its text. `buffer` is a block
-- of `buffer_size` bytes and one more; there is always memory for a larger one. What goes to the
-- terminal is appended to `term`, and
-- `istream` is what can be read from it.
pub mod Shows
pub mod Splice
pub mod Insert
pub mod Cut
pub mod Delete
use ucli.Base.{
  ℕ, zero, suc, ◌+◌, ◌-◌, ◌%◌, ◌^◌, Bool, true, false, List, [], ◌∷◌, ◌++◌, Option, none, some, ltb,
  leb, ◌==◌, if◌then◌else◌, length, not,
}
use ucli.Base.Run.{Run, ok, ◌>>=◌}
use ucli.Lub.Ctype.{Bytes}
use ucli.Tinyrl.History.{History, history_new}
use ucli.Tinyrl.Memory.{Memory, unsigned, minus, set, memmove, strncpy, strcpy, cstring}

-- What `line` points at: the buffer, or the text of an entry of the history.
pub data Line : Type 0 where
  buffer : Line
  entry : Bytes → Line

-- What the terminal is asked for.
pub data Output : Type 0 where
  print : Bytes → Output
  cursor_back cursor_forward erase : ℕ → Output
  ding clear_screen cursor_home : Output

-- The key handlers: the editor's own, and those that a client binds.
pub data Handler : Type 0 where
  key_default key_interrupt key_start_of_line key_end_of_line key_kill key_yank key_crlf : Handler
  key_backspace key_delete key_clear_screen key_erase_line key_escape key_tab : Handler
  client : ℕ → Handler

pub record Tinyrl : Type 0 where
  pub line : Line
  pub max_line_length : ℕ
  pub prompt : Bytes
  pub memory : Memory
  pub buffer_size : ℕ
  pub done : Bool
  pub point : ℕ
  pub end : ℕ
  pub kill_string : Option Bytes
  pub handlers : ℕ → Handler
  pub history : History
  pub hist_iter : ℕ
  pub istream : Bytes
  pub term : List Output
  pub echo_char : ℕ
  pub echo_enabled : Bool
  pub last_buffer : Option Bytes
  pub last_point : ℕ

abbrev pub write : Tinyrl → Output → Tinyrl
write this output = record this { term = this.term ++ (output ∷ []) }

unfoldable pub crlf : Tinyrl → Tinyrl
crlf this = write this (print (b'\n' ∷ []))

-- the text that `line` points at
abbrev pub text_of_line : Line → Memory → ℕ → Run Bytes
text_of_line buffer memory size = cstring memory (suc size) 0
text_of_line (entry s) memory size = ok s

abbrev pub line_text : Tinyrl → Run Bytes
line_text this = text_of_line this.line this.memory this.buffer_size

-- A history line becomes the contents of a new buffer.
unfoldable pub to_buffer : Line → Tinyrl → Tinyrl
to_buffer buffer this = this
to_buffer (entry s) this = record this {
  line = buffer;
  memory = strcpy this.memory s;
  buffer_size = length s;
}

unfoldable pub changed_line : Tinyrl → Tinyrl
unfolding to_buffer
changed_line this = to_buffer this.line this

-- the block that a longer line needs; none when it would pass the limit
pub new_size : ℕ → ℕ → ℕ → Option ℕ
new_size zero size len = some (if ltb len (size + 10) then size + 10 else len)
new_size (suc max) size len = if ltb len (suc max) then some max else none

abbrev pub resize : Tinyrl → Option ℕ → Bool × Tinyrl
resize this none = (false, write this ding)
resize this (some size) = (true, record this { line = buffer; buffer_size = size })

unfoldable pub extend_line_buffer : Tinyrl → ℕ → Bool × Tinyrl
unfolding new_size
extend_line_buffer this len =
    if ltb this.buffer_size len
    then resize this (new_size this.max_line_length this.buffer_size len)
    else (true, this)

-- the text to the right of the point makes room, or the terminator moves
pub shift : Tinyrl → ℕ → Memory
shift this delta =
    if ltb this.point this.end
    then memmove this.memory (unsigned (this.point + delta)) this.point
        (minus this.end this.point + 1)
    else set this.memory (unsigned (this.end + delta)) 0

unfoldable pub insert : Tinyrl → Bytes → ℕ → Tinyrl
insert this text delta = record this {
  memory = strncpy (shift this delta) this.point text;
  point = unsigned (this.point + delta);
  end = unsigned (this.end + delta);
}

-- the rest of `insert_text`, once the buffer is extended
abbrev pub insert_extended : Bool × Tinyrl → Bytes → ℕ → Bool × Tinyrl
insert_extended (false, this) text delta = (false, this)
insert_extended (true, this) text delta = (true, insert this text delta)

unfoldable pub insert_text : Tinyrl → Bytes → Bool × Tinyrl
insert_text this text =
    let delta = unsigned (length text) in
    let changed = changed_line this in
    let extended =
      if ltb changed.buffer_size (unsigned (delta + changed.end))
      then extend_line_buffer changed (unsigned (changed.end + delta))
      else (true, changed) in
    insert_extended extended text delta

-- the bytes from `start` to `end` go, where `start` is not behind `end`
unfoldable pub delete_range : Tinyrl → ℕ → ℕ → Tinyrl
delete_range this start end =
    let delta = unsigned (minus end start + 1) in
    let moved = memmove this.memory start (unsigned (start + delta)) (minus this.end start) in
    let point' =
      if leb start this.point
      then (if ltb end this.point then minus this.point delta else start)
      else this.point in
    let end' = if ltb end this.end then minus this.end delta else start in
    record this { memory = set moved end' 0; point = point'; end = end' }

-- Where `start` is behind `end`, both of the source's offsets become the smaller one.
unfoldable pub delete_text : Tinyrl → ℕ → ℕ → Tinyrl
delete_text this start end =
    let changed = changed_line this in
    let first = if ltb end start then end else start in
    delete_range changed first (if ltb changed.end end then changed.end else end)

-- Is there an odd number of quotes among the first `n` bytes?
abbrev odd_quotes : Bytes → ℕ → Bool → Bool
odd_quotes s zero quoting = quoting
odd_quotes [] (suc n) quoting = quoting
odd_quotes (c ∷ s) (suc n) quoting = odd_quotes s n (if c == b'"' then not quoting else quoting)

unfoldable is_quoting : Tinyrl → Run Bool
is_quoting this = do s ← line_text this; ok (odd_quotes s this.point false)

unfoldable bind_key : Tinyrl → ℕ → Handler → Bool × Tinyrl
bind_key this key fn =
    if ltb key 256
    then (true, record this { handlers = λ k. if k == key then fn else this.handlers k })
    else (false, this)

abbrev tinyrl_done : Tinyrl → Tinyrl
tinyrl_done this = record this { done = true }

abbrev enable_echo : Tinyrl → Tinyrl
enable_echo this = record this { echo_enabled = true }

abbrev disable_echo : Tinyrl → ℕ → Tinyrl
disable_echo this echo_char = record this { echo_enabled = false; echo_char = echo_char }

abbrev limit_line_length : Tinyrl → ℕ → Tinyrl
limit_line_length this length = record this { max_line_length = length }
