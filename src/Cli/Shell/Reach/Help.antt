-- ===== src/Cli/Shell/Reach/Help.antt =====
-- The help for a line keeps the shell well formed.
use ucli.Base.{
  ℕ, zero, suc, ◌+◌, ◌&&◌, Bool, false, List, [], ◌∷◌, Option, none, some, length, Bool-cases, inl,
  inr,
}
use ucli.Base.Run.{deref, Post, Post-bind, Post-then}
use ucli.Lub.Ctype.{Bytes}
use ucli.Cli.Command.{Command, is_null}
use ucli.Cli.View.{get_prompt}
use ucli.Cli.Shell.{
  Shell, ShellState, initialising, ready, helping, script_error, closing, Output, view_of,
  resolve_prefix,
}
use ucli.Cli.Shell.Completion.{
  iterator_init, find_next_completion, getfirst_command, getnext_command, commands_at, visit,
  visit_all,
}
use ucli.Cli.Shell.Help.{
  print, max_width, print_commands, marked, shown_line, available_commands, describe, next_two,
  described, toggled, is_first, show_help, help,
}
use ucli.Cli.Shell.Reach.{IsShell}
use ucli.Cli.Shell.Reach.Searches.{
  IsIterator, find_next_completion-IsShell, getnext_command-IsShell, getfirst_command-IsShell,
  resolve_prefix-IsShell,
}

-- Neither what is printed nor the state matters.
told-IsShell :
    {held : List Bytes} (this : Shell) (state : ShellState) (output : List Output)
    → IsShell held this
    → IsShell held (record this { state = state; output = output })
told-IsShell {held} this state output s = record {
  views = s.views;
  current = s.current;
  global = s.global;
  text_local = s.text_local;
  text_global = s.text_global;
  kept = s.kept;
}

print-IsShell :
    {held : List Bytes} (this : Shell) (out : Output)
    → IsShell held this
    → IsShell held (print this out)
print-IsShell {held} this out s = told-IsShell this this.state (out ∷ this.output) s

visit-IsShell :
    {held : List Bytes} (n : ℕ) (line : Bytes) (cmd : Option Command) (this : Shell)
    → IsShell held this
    → Post (λ out. IsShell held out.1) (visit n line cmd this)
unfolding visit
visit-IsShell {held} n line none this s = s
visit-IsShell {held} zero line (some cmd) this s = tt
visit-IsShell {held} (suc n) line (some cmd) this s =
    Post-then (λ out. IsShell held out.1) (λ out. IsShell held out.1) (getnext_command this line) _
      (getnext_command-IsShell this line s)
      (λ out q.
        Post-then (λ out'. IsShell held out'.1) (λ out'. IsShell held out'.1)
          (visit n line out.0 out.1) _ (visit-IsShell n line out.0 out.1 q) (λ out' q'. q'))

visit_all-IsShell :
    {held : List Bytes} (this : Shell) (line : Bytes)
    → IsShell held this
    → Post (λ out. IsShell held out.1) (visit_all this line)
unfolding visit_all
visit_all-IsShell {held} this line s =
    Post-then (λ out. IsShell held out.1) (λ out. IsShell held out.1) (getfirst_command this line) _
      (getfirst_command-IsShell this line s)
      (λ out q.
        visit-IsShell (commands_at this this.view + commands_at this this.global) line out.0 out.1
          q)

print_commands-IsShell :
    {held : List Bytes} (full : Bool) (width : ℕ) (cmds : List Command) (this : Shell)
    → IsShell held this
    → Post (IsShell held) (print_commands full width cmds this)
unfolding print_commands
print_commands-IsShell {held} full width [] this s = s
print_commands-IsShell {held} full width (cmd ∷ cmds) this s =
    Post-bind (IsShell held) (deref cmd.text) _
      (λ text. print_commands-IsShell full width cmds _ (print-IsShell this _ s))

marked-IsShell :
    {held : List Bytes} (offset : ℕ) (found : Option Command × Shell)
    → IsShell held found.1
    → IsShell held (marked offset found).1
unfolding marked
marked-IsShell {held} offset (none, this) s = print-IsShell this _ s
marked-IsShell {held} offset (some cmd, this) s = print-IsShell this _ s

described-IsShell :
    {held : List Bytes} (detail : Option Bytes) (cmd : Command) (this : Shell)
    → IsShell held this
    → IsShell held (described detail cmd this)
unfolding described
described-IsShell {held} (some detail) cmd this s = print-IsShell this _ s
described-IsShell {held} none cmd this s = print-IsShell this _ s

describe-IsShell :
    {held : List Bytes} (state : ShellState) (cmd : Command) (this : Shell)
    → IsShell held this
    → IsShell held (describe state cmd this)
unfolding describe
describe-IsShell {held} helping cmd this s = described-IsShell cmd.detail cmd this s
describe-IsShell {held} ready cmd this s = print-IsShell this _ s
describe-IsShell {held} script_error cmd this s = print-IsShell this _ s
describe-IsShell {held} initialising cmd this s = s
describe-IsShell {held} closing cmd this s = s

module _ (getenv : Bytes → Option Bytes) (regcomp : Bytes → Option (Bytes → Option (ℕ × ℕ))) where
  shown_line-IsShell :
      {held : List Bytes} (line : Bytes) (found : Option Command × Shell)
      → IsShell held found.1
      → Post (λ out. IsShell held out.1) (shown_line getenv regcomp line found)
  unfolding shown_line
  shown_line-IsShell {held} line (some cmd, this) s = s
  shown_line-IsShell {held} line (none, this) s =
      Post-bind (λ out. IsShell held out.1) (view_of this this.view) _
        (λ view.
          Post-bind (λ out. IsShell held out.1) (get_prompt getenv regcomp view this.viewid) _
            (λ prompt.
              Post-bind (λ out. IsShell held out.1) (deref prompt) _
                (λ text.
                  Post-then (λ out. IsShell held out.1) (λ out. IsShell held out.1)
                    (resolve_prefix this line) _ (resolve_prefix-IsShell this line s)
                    (λ out q. marked-IsShell (length text + 1) out q))))

  available_commands-IsShell :
      {held : List Bytes} (this : Shell) (line : Bytes) (full : Bool)
      → IsShell held this
      → Post (IsShell held) (available_commands getenv regcomp this line full)
  unfolding available_commands
  available_commands-IsShell {held} this line full s =
      Post-then (λ out. IsShell held out.1) (IsShell held) (getfirst_command this line) _
        (getfirst_command-IsShell this line s)
        (λ first q.
          Post-then (λ out. IsShell held out.1) (IsShell held)
            (shown_line getenv regcomp line first) _ (shown_line-IsShell line first q)
            (λ shown q1.
              Post-then (λ out. IsShell held out.1) (IsShell held) (visit_all shown.1 shown.0) _
                (visit_all-IsShell shown.1 shown.0 q1)
                (λ out q2.
                  Post-then (λ out. IsShell held out.1) (IsShell held) (visit_all out.1 shown.0) _
                    (visit_all-IsShell out.1 shown.0 q2)
                    (λ out' q3.
                      print_commands-IsShell full (max_width full out.0 0) out'.0 out'.1 q3))))

  next_two-IsShell :
      {held : List Bytes} (line : Bytes) (found : Option Command × Shell)
      → IsShell held found.1
      → Post (λ out. IsShell held out.1) (next_two getenv regcomp line found)
  unfolding next_two iterator_init
  next_two-IsShell {held} line (none, this) s = s
  next_two-IsShell {held} line (some cmd, this) s =
      Post-then (λ out. IsIterator out.0.1 × IsShell held out.1) (λ out. IsShell held out.1)
        (find_next_completion this line iterator_init) _
        (find_next_completion-IsShell this line iterator_init (tt, tt) s)
        (λ out q.
          Post-then (λ out'. IsIterator out'.0.1 × IsShell held out'.1)
            (λ out'. IsShell held out'.1) (find_next_completion out.1 line out.0.1) _
            (find_next_completion-IsShell out.1 line out.0.1 q.0 q.1) (λ out' q'. q'.1))

  module _ (same_command : Command → Command → Bool) where
    show_help-IsShell :
        {held : List Bytes} (line : Bytes) (cmd : Option Command)
        (two : (Option Command × Option Command) × Shell)
        → IsShell held two.1
        → Post (IsShell held) (show_help getenv regcomp same_command line cmd two)
    unfolding show_help
    show_help-IsShell {held} line none (_, this) s = available_commands-IsShell this line false s
    show_help-IsShell {held} line (some cmd) ((first_cmd, next_cmd), this) s =
        let one = is_null next_cmd && is_first getenv regcomp same_command first_cmd cmd in
        elim (Bool-cases one) [
          | inl e ↦ rw e (describe-IsShell this.state cmd this s)
          | inr e ↦ rw e (available_commands-IsShell this line false s)
        ]

    -- `ucli_shell_help` keeps the shell well formed.
    pub help-IsShell :
        {held : List Bytes} (this : Shell) (line : Bytes)
        → IsShell held this
        → Post (IsShell held) (help getenv regcomp same_command this line)
    unfolding help
    help-IsShell {held} this line s =
        Post-then (λ out. IsShell held out.1) (IsShell held) (resolve_prefix this line) _
          (resolve_prefix-IsShell this line s)
          (λ found q.
            Post-then (λ out. IsShell held out.1) (IsShell held)
              (next_two getenv regcomp line found) _ (next_two-IsShell line found q)
              (λ two q'.
                Post-then (IsShell held) (IsShell held)
                  (show_help getenv regcomp same_command line found.0 two) _
                  (show_help-IsShell line found.0 two q')
                  (λ this2 q2. told-IsShell this2 (toggled this2.state) this2.output q2)))
