-- ===== src/Cli/Shell/Help.antt =====
-- libucli/shell/shell_help.c: the help for a line. It depends on what has been shown before: a second
-- request in a row gives the detail of the command. The code compares pointers to commands, which are
-- values here: `same_command` stands for that comparison.
use ucli.Base.{
  ℕ, ◌+◌, Bool, true, false, ◌&&◌, List, [], ◌∷◌, Option, none, some, ltb, if◌then◌else◌, length,
}
use ucli.Base.Run.{Run, ok, ◌>>=◌, deref}
use ucli.Lub.Ctype.{Bytes}
use ucli.Cli.Command.{Command, get_suffix, is_null}
use ucli.Cli.View.{get_prompt}
use ucli.Cli.Shell.{
  Shell, ShellState, initialising, ready, helping, script_error, closing, Output, line_of,
  error_mark, help_line, command_help, view_of, resolve_prefix,
}
use ucli.Cli.Shell.Completion.{iterator_init, find_next_completion, getfirst_command, visit_all}

abbrev pub print : Shell → Output → Shell
print this out = record this { output = out ∷ this.output }

shown_name : Bool → Command → Bytes
unfolding get_suffix
shown_name true cmd = cmd.name
shown_name false cmd = get_suffix cmd

pub max_width : Bool → List Command → ℕ → ℕ
unfolding shown_name
max_width full [] width = width
max_width full (cmd ∷ cmds) width =
    let n = length (shown_name full cmd) in max_width full cmds (if ltb width n then n else width)

unfoldable pub print_commands : Bool → ℕ → List Command → Shell → Run Shell
unfolding shown_name
print_commands full width [] this = ok this
print_commands full width (cmd ∷ cmds) this = do
  text ← deref cmd.text
  print_commands full width cmds (print this (help_line width (shown_name full cmd) text))

-- the mark behind the command that was found, or in front of the line, and what is shown instead
unfoldable pub marked : ℕ → Option Command × Shell → Bytes × Shell
marked offset (none, this) = ([], print this (error_mark offset))
marked offset (some cmd, this) = (cmd.name, print this (error_mark (offset + length cmd.name + 1)))

unfoldable pub described : Option Bytes → Command → Shell → Shell
described (some detail) cmd this = print this (line_of detail)
described none cmd this = print this (command_help cmd)

-- the help for a command, by the state
unfoldable pub describe : ShellState → Command → Shell → Shell
unfolding described
describe helping cmd this = described cmd.detail cmd this
describe ready cmd this = print this (command_help cmd)
describe script_error cmd this = print this (command_help cmd)
describe initialising cmd this = this
describe closing cmd this = this

pub toggled : ShellState → ShellState
toggled helping = ready
toggled _ = helping

module _ (getenv : Bytes → Option Bytes) (regcomp : Bytes → Option (Bytes → Option (ℕ × ℕ))) where
  unfoldable pub shown_line : Bytes → Option Command × Shell → Run (Bytes × Shell)
  unfolding marked resolve_prefix get_prompt
  shown_line line (some cmd, this) = ok (line, this)
  shown_line line (none, this) = do
    view ← view_of this this.view
    prompt ← get_prompt getenv regcomp view this.viewid
    text ← deref prompt
    found ← resolve_prefix this line
    ok (marked (length text + 1) found)

  unfoldable pub available_commands : Shell → Bytes → Bool → Run Shell
  unfolding shown_line max_width print_commands getfirst_command visit_all
  available_commands this line full = do
    first ← getfirst_command this line
    (buf, this1) ← shown_line line first
    (cmds, this2) ← visit_all this1 buf
    (cmds', this3) ← visit_all this2 buf
    print_commands full (max_width full cmds 0) cmds' this3

  -- the first two completions of the line, if it begins with a command
  unfoldable pub next_two :
      Bytes → Option Command × Shell → Run ((Option Command × Option Command) × Shell)
  unfolding find_next_completion iterator_init
  next_two line (none, this) = ok ((none, none), this)
  next_two line (some cmd, this) = do
    ((first_cmd, iter), this1) ← find_next_completion this line iterator_init
    ((next_cmd, iter'), this2) ← find_next_completion this1 line iter
    ok ((first_cmd, next_cmd), this2)

  module _ (same_command : Command → Command → Bool) where
    pub is_first : Option Command → Command → Bool
    is_first none cmd = true
    is_first (some first_cmd) cmd = same_command first_cmd cmd

    unfoldable pub show_help :
        Bytes → Option Command → (Option Command × Option Command) × Shell → Run Shell
    unfolding available_commands is_first describe
    show_help line none (_, this) = available_commands this line false
    show_help line (some cmd) ((first_cmd, next_cmd), this) =
        if is_null next_cmd && is_first first_cmd cmd
        then ok (describe this.state cmd this)
        else available_commands this line false

    unfoldable pub help : Shell → Bytes → Run Shell
    unfolding resolve_prefix next_two show_help toggled
    help this line = do
      (cmd, this1) ← resolve_prefix this line
      found ← next_two line (cmd, this1)
      this2 ← show_help line cmd found
      ok (record this2 { state = toggled this2.state })
