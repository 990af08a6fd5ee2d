-- ===== src/Cli/Shell/Reach/Listing.antt =====
-- The completions that a well-formed shell lists.
use ucli.Base.{List, [], Option, none, some, ◌≡◌, ◌≢◌, refl}
use ucli.Base.Run.{ok}
use ucli.Lub.Ctype.{Bytes}
use ucli.Lub.Bintree.{to_list}
use ucli.Cli.Command.{Command}
use ucli.Cli.View.{View}
use ucli.Cli.View.Sorted.{IsView, AreCommands}
use ucli.Cli.View.Completion.{completions}
use ucli.Cli.Shell.{Shell, view_at}
use ucli.Cli.Shell.Views.{HasCommands, KeepsViews}
use ucli.Cli.Shell.Completion.{visit_all}
use ucli.Cli.Shell.Completion.Merge.{merge}
use ucli.Cli.Shell.Completion.Visit.{visit_all-merge}
use ucli.Cli.Shell.Reach.{Leads, IsShell, view_in-All}

-- The commands of the view behind a pointer, in their order.
abbrev pub commands_of : Option View → List Command
commands_of none = []
commands_of (some view) = to_list view.tree

abbrev pub commands_at : Shell → Option Bytes → List Command
commands_at this none = []
commands_at this (some name) = commands_of (view_at this.view_tree name)

pointed :
    {held : List Bytes} (this : Shell) (view : Option Bytes)
    → IsShell held this
    → view ≢ none
    → Leads (to_list this.view_tree) view
    → HasCommands this.view_tree view (commands_at this view) × AreCommands (commands_at this view)
unfolding view_at
pointed {held} this none s n l = absurd (n refl)
pointed {held} this (some name) s n (v, e) =
    let ordered = view_in-All IsView (to_list this.view_tree) name v s.views.ordered e in
    rw e ((name, v, refl, e, refl), ordered)

-- In a well-formed shell with a current and a global view, the loop over `ucli_shell_getfirst_command` and
-- `ucli_shell_getnext_command` ends, and goes through the completions of the line in either view,
-- merged in the order of their names, a command of the current view in place of the global one of its
-- name; every view keeps its commands.
pub visit_all-completions :
    {held : List Bytes} (this : Shell) (line : Bytes)
    → IsShell held this
    → this.view ≢ none
    → this.global ≢ none
    → (this' : Shell) × (visit_all this line
        ≡ ok (
          merge
              (completions line [] (commands_at this this.view))
              (completions line [] (commands_at this this.global)),
          this',
        ))
      × KeepsViews this.view_tree this'.view_tree
visit_all-completions {held} this line s nl ng =
    let (local, l) = pointed this this.view s nl s.current in
    let (global, g) = pointed this this.global s ng s.global in
    visit_all-merge line (commands_at this this.view) (commands_at this this.global) l g this
      (local, global)
