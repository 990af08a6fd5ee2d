-- ===== src/Cli/Shell/Completion.antt =====
-- libucli/shell/shell_command_generator.c, shell_getfirst_command.c and shell_getnext_command.c: the
-- commands of the current and the global view that a line is the beginning of.
pub mod Merge
pub mod Visit
use ucli.Base.{ℕ, zero, suc, ◌+◌, Bool, true, false, List, [], ◌∷◌, Option, none, some, length}
use ucli.Base.Int.{ℤ, neg, nil, plus, sign}
use ucli.Base.Run.{Run, ok, abort, ◌>>=◌, deref}
use ucli.Lub.Ctype.{Bytes}
use ucli.Lub.Bintree.{Tree, to_list}
use ucli.Cli.Command.{Command, command_diff}
use ucli.Cli.View.{View}
use ucli.Cli.View.Completion
use ucli.Cli.Shell.{Shell, ShellIterator, in_view, view_at}

unfoldable pub iterator_init : ShellIterator
iterator_init = record { last_cmd_local = none; last_cmd_global = none }

-- The next of the two commands, and the iterator moved behind it; a local command stands for the
-- global one of its name.
unfoldable pub choose_next :
    Option Command → Option Command → ShellIterator → Option Command × ShellIterator
unfolding command_diff
choose_next cmd1 cmd2 iter = elim (sign (command_diff cmd1 cmd2)) [
  | plus ↦ (cmd2, record iter { last_cmd_global = cmd2 })
  | nil ↦ (cmd1, record iter { last_cmd_global = cmd2; last_cmd_local = cmd1 })
  | neg ↦ (cmd1, record iter { last_cmd_local = cmd1 })
]

unfoldable pub find_next_completion :
    Shell → Bytes → ShellIterator → Run ((Option Command × ShellIterator) × Shell)
unfolding in_view choose_next Completion.find_next_completion
find_next_completion this line iter = do
  (cmd1, this') ←
      in_view this this.view (λ v. Completion.find_next_completion v iter.last_cmd_local line)
  (cmd2, this'') ←
      in_view this' this.global (λ v. Completion.find_next_completion v iter.last_cmd_global line)
  ok (choose_next cmd1 cmd2 iter, this'')

unfoldable pub getnext_command : Shell → Bytes → Run (Option Command × Shell)
unfolding find_next_completion
getnext_command this line = do
  ((cmd, iter), this') ← find_next_completion this line this.iter
  ok (cmd, record this' { iter = iter })

unfoldable pub getfirst_command : Shell → Bytes → Run (Option Command × Shell)
unfolding getnext_command iterator_init
getfirst_command this line = getnext_command (record this { iter = iterator_init }) line

-- how many commands the view behind a pointer has
pub commands_at : Shell → Option Bytes → ℕ
commands_at this none = 0
commands_at this (some name) = elim (view_at this.view_tree name) [
  | none ↦ 0
  | some view ↦ length (to_list view.tree)
]

-- The commands that `for(cmd = getfirst; cmd; cmd = getnext)` visits; the first argument is fuel.
unfoldable pub visit : ℕ → Bytes → Option Command → Shell → Run (List Command × Shell)
visit n line none this = ok ([], this)
visit zero line (some cmd) this = abort
visit (suc n) line (some cmd) this = do
  (next, this') ← getnext_command this line
  (rest, this'') ← visit n line next this'
  ok (cmd ∷ rest, this'')

unfoldable pub visit_all : Shell → Bytes → Run (List Command × Shell)
unfolding visit getfirst_command commands_at
visit_all this line = do
  (cmd, this') ← getfirst_command this line
  visit (commands_at this this.view + commands_at this this.global) line cmd this'
