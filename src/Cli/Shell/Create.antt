-- ===== src/Cli/Shell/Create.antt =====
-- libucli/shell: shell_new.c, shell_find_view.c, shell_insert_view.c, shell_find_create_view.c and
-- shell_set_context.c. A view is pointed at by its name.
use ucli.Base.{ℕ, Bool, [], Option, none, some, if◌then◌else◌}
use ucli.Base.Int.{ℤ}
use ucli.Base.Run.{Run, ok, ◌>>=◌, deref}
use ucli.Lub.Ctype.{Bytes}
use ucli.Lub.Text.{strcmp}
use ucli.Lub.Bintree.{leaf, find, insert}
use ucli.Tinyrl.History.{history_new}
use ucli.Cli.View.{View, view_new, set_prompt}
use ucli.Cli.Shell.{Shell, initialising, closing, put_view, with_view}
use ucli.Cli.Shell.Completion.{iterator_init}

-- The comparison and the key by which the shell's tree orders its views.
abbrev pub view_compare : View → Bytes → ℤ
view_compare this key = strcmp this.name key

abbrev pub view_getkey : View → Bytes
view_getkey this = this.name

-- a new shell, which reads `istream`
unfoldable pub shell_init : ℕ → Shell
unfolding iterator_init history_new
shell_init istream = record {
  view_tree = leaf;
  ptype_tree = leaf;
  global = none;
  view = none;
  startup = none;
  iter = iterator_init;
  state = initialising;
  overview = none;
  viewid = none;
  history = history_new 0;
  output = [];
  current_file = [];
  istream = istream;
  closed = [];
}

-- the client's answer to `init_fn`
initialised : Bool × Shell → Shell
initialised (result, this) = if result then this else record this { state = closing }

unfoldable shell_new : Option (Shell → Run (Bool × Shell)) → ℕ → Run Shell
unfolding shell_init initialised
shell_new none istream = ok (shell_init istream)
shell_new (some init_fn) istream = do answer ← init_fn (shell_init istream); ok (initialised answer)

unfoldable pub find_view : Shell → Bytes → Option View × Shell
unfolding find
find_view this name =
    let (view, tree) = find (λ v. view_compare v name) this.view_tree in
    (view, record this { view_tree = tree })

-- what the insertion answers is not looked at
unfoldable pub insert_view : Shell → View → Shell
unfolding insert
insert_view this view =
    let (code, tree) = insert (λ v. view_compare v (view_getkey view)) view this.view_tree in
    record this { view_tree = tree }

unfoldable pub find_or_create : Bytes → Option Bytes → Option View × Shell → Run (Bytes × Shell)
unfolding insert_view view_new set_prompt put_view
find_or_create name prompt (none, this) = ok (name, insert_view this (view_new name prompt))
find_or_create name none (some view, this) = ok (view.name, this)
find_or_create name (some prompt) (some view, this) = do
  view' ← set_prompt view (some prompt)
  ok (view.name, with_view this view')

unfoldable pub find_create_view : Shell → Bytes → Option Bytes → Run (Bytes × Shell)
unfolding find_or_create find_view
find_create_view this name prompt = find_or_create name prompt (find_view this name)

-- the view must be there, and so must the global one
unfoldable pub entered : Option View × Shell → Run Shell
entered (view, this) = do
  v ← deref view
  global ← deref this.global
  ok (record this { view = some v.name })

unfoldable pub set_context : Shell → Bytes → Run Shell
unfolding entered find_view
set_context this viewname = entered (find_view this viewname)
