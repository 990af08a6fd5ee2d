-- ===== src/Tests/Shells.antt =====
-- Runs of the shell, and instances of what is proved of it and of the search for completions.
use ucli.Base.{
  inl, List, ℕ, Bool, true, false, Option, some, none, [], ◌∷◌, ◌≡◌, ◌<◌, ◌^◌, length, refl, arith,
}
use ucli.Base.Run.{ok, abort}
use ucli.Lub.Ctype.{Bytes, IsText, codes, tolower}
use ucli.Lub.Argv.{argv_new, get_arg, wordcount}
use ucli.Lub.Bintree.{leaf, node, to_list}
use ucli.Lub.Bintree.Walk.{behind}
use ucli.Lub.Bintree.Next.{first}
use ucli.Tinyrl.History.{History, history_new}
use ucli.Cli.Command.{Command, command_new}
use ucli.Cli.View.{View, view_new}
use ucli.Cli.View.Sorted.{IsView}
use ucli.Cli.View.Completion.{
  Finds, Continues, CountsWords, completes, line_words, completions, find_next_completion,
  find_next_completion-Finds,
}
use ucli.Lub.Text.{nocasecmp, nocasestr, strcmp, same_text}
use ucli.Cli.Shell.{Shell, closing, view_in, view_at}
use ucli.Cli.Shell.Create.{shell_init, find_create_view}
use ucli.Cli.Shell.Views.{KeepsViews}
use ucli.Cli.Shell.Completion.{visit_all, iterator_init}
use ucli.Cli.Shell.Completion.Merge.{merge}
use ucli.Cli.Shell.Reach.{IsShell}
use ucli.Cli.Shell.Reach.Listing.{commands_at, visit_all-completions}
use ucli.Cli.Shell.Reach.Steps.{none_held}
use ucli.Cli.Shell.Reach.Trace.{here, step, creates, becomes_global, executes, Reach-IsShell}
use ucli.Cli.Shell.Execute.{Hooks, System, perform, execute, ucli_history}
use ucli.Cli.Shell.Execute.Keeps.{HooksKeep, AllKeep}
use ucli.Cli.Shell.Execute.Effect.{SamePlace, Moves, execute-Moves}
use ucli.Cli.Shell.Execute.Safe.{Safe}
use ucli.Cli.Shell.Execute.Listing.{listed, limited_to, ucli_history-listed}
use ucli.Cli.Variable.{variable_expand}

abbrev named : Bytes → Command
named name = command_new name (some (codes "help"))

-- the commands "set", "set port" and "show" in the order of a tree
abbrev menu : View
menu = record (view_new (codes "main") none) {
  tree =
      node leaf (named (codes "set"))
        (node (node leaf (named (codes "set port")) leaf) (named (codes "show")) leaf);
}

abbrev root : View
root = record (view_new (codes "root") none) {
  tree = node leaf (named (codes "exit")) (node leaf (named (codes "show")) leaf);
}

menu-IsView : IsView menu
unfolding command_new nocasecmp tolower
menu-IsView = (
  (ground arith, (ground arith, (ground arith, tt))),
  ((refl, (refl, tt)), ((refl, tt), (tt, tt))),
)

root-IsView : IsView root
unfolding command_new nocasecmp tolower
root-IsView = ((ground arith, (ground arith, tt)), ((refl, tt), (tt, tt)))

abbrev shell : Shell
shell = record (shell_init 0) {
  view_tree = node leaf menu (node leaf root leaf);
  view = some (codes "main");
  global = some (codes "root");
}

shell-IsShell : IsShell [] shell
unfolding view_new view_in strcmp shell_init iterator_init same_text
shell-IsShell = record {
  views = record {
    named = (ground arith, (ground arith, tt));
    sorted = ((refl, tt), (tt, tt));
    ordered = (menu-IsView, (root-IsView, tt));
  };
  current = (menu, refl);
  global = (root, refl);
  text_local = tt;
  text_global = tt;
  kept = none_held (to_list shell.view_tree);
}

-- "s" stands for "set", which is in the current view only, and for "show" of the current view
s_completions :
    completions (codes "s") [] (commands_at shell shell.view)
    ≡ named (codes "set") ∷ named (codes "show") ∷ []
unfolding command_new completes nocasestr wordcount behind line_words view_at view_new nocasecmp
    tolower
s_completions = refl

find_next_completion-Finds_example :
    Finds menu
      (first (completions (codes "s") (codes "set") (to_list menu.tree)))
      (find_next_completion menu (some (named (codes "set"))) (codes "s"))
    × ((c : Command)
        → completes (line_words (codes "s")) (codes "s") c ≡ true
        → Continues (codes "s") c.name)
    × ((c : Command)
        → Continues (codes "s") c.name
        → completes (line_words (codes "s")) (codes "s") c ≡ true)
    × CountsWords line_words
unfolding command_new
find_next_completion-Finds_example =
    find_next_completion-Finds menu (some (named (codes "set"))) (codes "s") menu-IsView
      (ground arith)

visit_all-completions_example :
    (this : Shell) × (visit_all shell (codes "s")
      ≡ ok (
        merge
            (completions (codes "s") [] (commands_at shell shell.view))
            (completions (codes "s") [] (commands_at shell shell.global)),
        this,
      ))
    × KeepsViews shell.view_tree this.view_tree
visit_all-completions_example =
    visit_all-completions shell (codes "s") shell-IsShell (λ e. cc) (λ e. cc)

-- A system with no files, in which every text reads as one.
abbrev system : System
system = record { atoi = λ s. 1; stat = λ s. none; fopen = λ s. none }

-- A client that ignores all scripts.
abbrev hooks : Hooks
hooks = record { script_fn = λ this script. ok (true, this); cmd_list = [] }

hooks-Safe : (held : List Bytes) (view : Option Bytes) → HooksKeep (Safe held view) hooks
unfolding AllKeep
hooks-Safe held view = record { scripts = λ this script s. s; builtins = tt }

hooks-SamePlace : HooksKeep (SamePlace shell) hooks
unfolding AllKeep
hooks-SamePlace = record { scripts = λ this script s. s; builtins = tt }

abbrev empty_env : Bytes → Option Bytes
empty_env name = none

abbrev no_regcomp : Bytes → Option (Bytes → Option (ℕ × ℕ))
no_regcomp pattern = none

abbrev no_regexec : Bytes → Bytes → Bool
no_regexec pattern text = false

-- a shell with one view
abbrev first_shell : Shell
first_shell = record (shell_init 0) { view_tree = node leaf (view_new (codes "root") none) leaf }

first_view : find_create_view (shell_init 0) (codes "root") none ≡ ok (codes "root", first_shell)
unfolding find_create_view shell_init
first_view = refl

root-IsText : IsText (codes "root")
root-IsText = ground arith

-- a command that ends the session, and one whose builtin nobody has
abbrev quit : Command
quit = record (named (codes "quit")) {
  builtin = some (codes "ucli_close");
  view = some (codes "root");
}

abbrev lost : Command
lost = record quit { builtin = some (codes "my_close") }

-- the same shell with that view as the global one, and once the session has been ended in it
abbrev global_shell : Shell
global_shell = record first_shell { global = some (codes "root") }

abbrev ended_shell : Shell
ended_shell = record global_shell { view = some (codes "root"); state = closing }

quit_ends :
    execute system empty_env no_regcomp hooks global_shell (some quit) none ≡ ok (true, ended_shell)
unfolding execute command_new same_text
quit_ends = refl

Reach-IsShell_example : IsShell (codes "root" ∷ []) ended_shell
Reach-IsShell_example = Reach-IsShell system empty_env no_regcomp no_regexec hooks hooks-Safe 0 (
    step
      (step (step here (creates (codes "root") none (codes "root") root-IsText first_view))
        (becomes_global (codes "root") (inl refl)))
      (executes quit none true (inl refl) quit_ends))

quit_performs :
    perform system hooks shell quit.builtin none ≡ ok (true, record shell { state = closing })
unfolding perform same_text
quit_performs = refl

lost_fails : execute system empty_env no_regcomp hooks shell (some lost) none ≡ ok (false, shell)
unfolding execute command_new same_text
lost_fails = refl

no_script : variable_expand empty_env no_regcomp quit.action shell.viewid (some quit) none ≡ ok none
unfolding variable_expand command_new
no_script = refl

no_viewid : variable_expand empty_env no_regcomp quit.viewid shell.viewid (some quit) none ≡ ok none
unfolding variable_expand command_new
no_viewid = refl

execute-Moves_example :
    (this : Shell) × (execute system empty_env no_regcomp hooks shell (some quit) none
      ≡ ok (true, this))
    × Moves quit none shell true this
execute-Moves_example =
    execute-Moves system empty_env no_regcomp hooks shell quit none none none true
      (record shell { state = closing }) hooks-SamePlace no_script no_viewid quit_performs

-- two lines, of which one stays
abbrev two_lines : History
two_lines = record (history_new 0) {
  entries =
      (record { line = codes "set"; index = 1 }) ∷ (record { line = codes "show"; index = 2 }) ∷ [];
  size = 10;
  current_index = 3;
}

abbrev old_shell : Shell
old_shell = record shell { history = two_lines }

one_argument : get_arg (argv_new (codes "1") 0) 0 ≡ some (b'1' ∷ [])
unfolding get_arg argv_new
one_argument = refl

few_entries : length old_shell.history.entries < 2 ^ 32
few_entries = omega arith

ucli_history-listed_example :
    ucli_history system old_shell (some (argv_new (codes "1") 0))
    ≡ ok (
      true,
      record old_shell {
        history = limited_to old_shell.history (system.atoi (b'1' ∷ []));
        output =
            listed
              (limited_to old_shell.history (system.atoi (b'1' ∷ []))).entries
              old_shell.output;
      },
    )
ucli_history-listed_example =
    ucli_history-listed system old_shell (argv_new (codes "1") 0) b'1' [] one_argument few_entries

-- without a script the builtin for the history has no arguments to look at
history_aborts : ucli_history system old_shell none ≡ abort
unfolding ucli_history
history_aborts = refl
