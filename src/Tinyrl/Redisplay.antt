-- ===== src/Tinyrl/Redisplay.antt =====
-- contrib/tinyrl/tinyrl.c: bringing the terminal up to date. The lengths of lines are below 2 ^ 31, so
-- that a difference of two of them is an `int`.
pub mod Terminal
pub mod Screen
use ucli.Base.{
  ℕ, zero, suc, ◌-◌, Bool, true, false, List, [], ◌∷◌, ◌++◌, Option, none, some, ltb, ◌==◌, ◌&&◌,
  ◌||◌, not, if◌then◌else◌, length, drop,
}
use ucli.Base.Run.{Run, ok, ◌>>=◌}
use ucli.Lub.Ctype.{Bytes}
use ucli.Lub.Text.{same_text}
use ucli.Tinyrl.Memory.{unsigned, strcpy}
use ucli.Tinyrl.Editor.{
  Tinyrl, Output, print, cursor_back, cursor_forward, erase, line_text, extend_line_buffer,
}

-- the echo character, once for each byte of the text
unfoldable pub echo : ℕ → Bytes → List Output
echo c [] = []
echo c (d ∷ text) = print (c ∷ []) ∷ echo c text

unfoldable pub internal_print : Tinyrl → Bytes → List Output
unfolding echo
internal_print this text =
    if this.echo_enabled
    then print text ∷ []
    else (if this.echo_char == 0 then [] else echo this.echo_char text)

-- strncmp, as a test
unfoldable pub same_prefix : ℕ → Bytes → Bytes → Bool
same_prefix zero s t = true
same_prefix (suc n) [] [] = true
same_prefix (suc n) (c ∷ s) (d ∷ t) = c == d && same_prefix n s t
same_prefix (suc n) _ _ = false

abbrev pub echoes : Tinyrl → Bool
echoes this = this.echo_enabled || not (this.echo_char == 0)

-- from where the cursor was to the insertion point
pub move_cursor : ℕ → ℕ → List Output
move_cursor last_point point =
    if ltb point last_point
    then cursor_back (last_point - point) ∷ []
    else (if ltb last_point point then cursor_forward (point - last_point) ∷ [] else [])

-- from the end of the line to the insertion point
unfoldable pub back_to_point : Tinyrl → Bytes → List Output
back_to_point this line =
    if ltb this.point (length line) then cursor_back (length line - this.point) ∷ [] else []

-- the middle of the line was edited
pub redraw : Tinyrl → Bytes → Bytes → List Output
redraw this line last =
    (if this.last_point == 0 then [] else cursor_back this.last_point ∷ [])
    ++ (erase (length last) ∷ internal_print this line)
    ++ (if length line == this.point then [] else cursor_back (length line - this.point) ∷ [])

unfoldable pub draw : Tinyrl → Bytes → Option Bytes → List Output
draw this line none = print this.prompt ∷ internal_print this line ++ back_to_point this line
draw this line (some last) =
    if ltb (length last) (length line)
    then (if same_prefix (length last) line last
        then internal_print this (drop (length line - (length line - length last)) line)
        else redraw this line last)
    else (if ltb (length line) (length last)
        then (if same_prefix (length line) line last
            then (if echoes this
                then move_cursor this.last_point this.point
                  ++ (erase (length last - length line) ∷ [])
                else [])
            else redraw this line last)
        else (if same_text line last
            then (if echoes this then move_cursor this.last_point this.point else [])
            else redraw this line last))

unfoldable pub redisplay : Tinyrl → Run Tinyrl
redisplay this = do
  line ← line_text this
  ok (record this {
    term = this.term ++ draw this line this.last_buffer;
    last_buffer = some line;
    last_point = this.point;
  })

unfoldable pub reset_line_state : Tinyrl → Run Tinyrl
reset_line_state this = redisplay (record this { last_buffer = none })

abbrev replace_buffer : Bool × Tinyrl → Bytes → Tinyrl
replace_buffer (false, this) text = this
replace_buffer (true, this) text = record this {
  memory = strcpy this.memory text;
  point = unsigned (length text);
  end = unsigned (length text);
}

unfoldable replace_line : Tinyrl → Bytes → Run Tinyrl
replace_line this text =
    redisplay (replace_buffer (extend_line_buffer this (unsigned (length text))) text)
