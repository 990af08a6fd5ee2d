-- ===== src/Cli/Shell.antt =====
-- libucli/shell: the shell's views, the command that a line stands for, and the stack of the files that
-- it reads. `view` and `global` point at views of `view_tree`, which they name; each view is looked
-- up again where it is used, for a search changes it. A FILE is a number.
pub mod Files
pub mod Views
pub mod Completion
pub mod Execute
pub mod Create
pub mod Types
pub mod Help
pub mod Reach
use ucli.Base.{
  ℕ, suc, ◌+◌, Bool, true, false, List, [], ◌∷◌, ◌++◌, Option, none, some, if◌then◌else◌, length,
}
use ucli.Base.Run.{Run, ok, abort, ◌>>=◌, deref}
use ucli.Lub.Ctype.{Bytes}
use ucli.Lub.Text.{same_text}
use ucli.Lub.Bintree.{Tree, leaf, node, to_list}
use ucli.Tinyrl.History.{History}
use ucli.Cli.Ptype.{Ptype}
use ucli.Cli.Command.{Command, choose_longest}
use ucli.Cli.Pargv.{Parsed, pargv_new}
use ucli.Cli.View.{View, get_prompt}
use ucli.Cli.View

pub record ShellFile : Type 0 where
  pub file : ℕ
  pub stop_on_error : Bool

pub data ShellState : Type 0 where
  initialising ready helping script_error closing : ShellState

pub record ShellIterator : Type 0 where
  pub last_cmd_local : Option Command
  pub last_cmd_global : Option Command

-- What printf is called for: "%s\n", "%5d  %s\n" for an entry of the history, "%*s\n" for the mark of
-- an error, "%-*s  %s\n" for the help of a command, and all that `ucli_command_help` prints.
pub data Output : Type 0 where
  line_of : Bytes → Output
  entry_line : ℕ → Bytes → Output
  error_mark : ℕ → Output
  help_line : ℕ → Bytes → Bytes → Output
  command_help : Command → Output

-- `istream` is where tinyrl reads, `closed` are the files that fclose was called for, and `output` is
-- what the shell has printed, the last of it first.
pub record Shell : Type 0 where
  pub view_tree : Tree View
  pub ptype_tree : Tree Ptype
  pub global : Option Bytes
  pub view : Option Bytes
  pub startup : Option Command
  pub iter : ShellIterator
  pub state : ShellState
  pub overview : Option Bytes
  pub viewid : Option Bytes
  pub history : History
  pub output : List Output
  pub current_file : List ShellFile
  pub istream : ℕ
  pub closed : List ℕ

abbrev or_else {ℓ} : {A : Type ℓ} → Option A → Option A → Option A
or_else none o = o
or_else (some a) o = some a

unfoldable pub view_in : List View → Bytes → Option View
view_in [] name = none
view_in (v ∷ views) name =
    let rest = view_in views name in if same_text v.name name then some v else rest

-- the view behind a pointer, wherever it stands in the tree
unfoldable pub view_at : Tree View → Bytes → Option View
unfolding view_in same_text
view_at t name = view_in (to_list t) name

pub put_one : View → View → View
put_one view v = if same_text v.name view.name then view else v

-- the view behind a pointer is changed
pub put_view : Tree View → View → Tree View
unfolding put_one same_text
put_view leaf view = leaf
put_view (node l v r) view = node (put_view l view) (put_one view v) (put_view r view)

abbrev view_of : Shell → Option Bytes → Run View
view_of this view = do name ← deref view; deref (view_at this.view_tree name)

abbrev with_view : Shell → View → Shell
with_view this view = record this { view_tree = put_view this.view_tree view }

-- a search in the view behind a pointer
pub in_view :
    Shell → Option Bytes → (View → Run (Option Command × View)) → Run (Option Command × Shell)
in_view this view search = do
  v ← view_of this view
  (cmd, v') ← search v
  ok (cmd, with_view this v')

-- the current view is searched, then the global one, which may be the same
in_both : Shell → (View → Run (Option Command × View)) → Run (Option Command × Shell)
in_both this search = do
  (cmd1, this') ← in_view this this.view search
  (cmd2, this'') ← in_view this' this.global search
  ok (choose_longest cmd1 cmd2, this'')

unfoldable pub resolve_prefix : Shell → Bytes → Run (Option Command × Shell)
unfolding in_both in_view view_at put_view View.resolve_prefix choose_longest
resolve_prefix this line = in_both this (λ v. View.resolve_prefix v line)

-- what ucli_shell_parse returns and writes through its pointers
pub data ParseResult : Type 0 where
  bad_cmd : ParseResult
  parsed : Command → Parsed → ParseResult

module _ (getenv : Bytes → Option Bytes) (regcomp : Bytes → Option (Bytes → Option (ℕ × ℕ)))
    (regexec : Bytes → Bytes → Bool) where
  pub resolve_command : Shell → Bytes → Run (Option Command × Shell)
  unfolding in_both in_view view_at put_view View.resolve_command choose_longest
  resolve_command this line = in_both this (λ v. View.resolve_command getenv regcomp v line)

  -- the arguments of the command, if one is found
  parse_command : Bytes → ℕ → Option Command → Run ParseResult
  parse_command line offset none = ok bad_cmd
  parse_command line offset (some cmd) = do
    result ← pargv_new regexec cmd line offset
    ok (parsed cmd result)

  unfoldable parse : Shell → Bytes → Run (ParseResult × Shell)
  unfolding resolve_command parse_command pargv_new get_prompt view_at
  parse this line = do
    view ← view_of this this.view
    prompt ← get_prompt getenv regcomp view this.viewid
    text ← deref prompt
    (cmd, this') ← resolve_command this line
    result ← parse_command line (length text + 1) cmd
    ok (result, this')

pub push_file : Shell → ℕ → Bool → Bool × Shell
push_file this file stop_on_error =
    let pushed = (record { file = file; stop_on_error = stop_on_error }) ∷ this.current_file in
    (true, record this { current_file = pushed; istream = file })

-- the file in front of the others is closed, and the next one is read, if there is one
pop_from : Shell → List ShellFile → Bool × Shell
pop_from this [] = (false, this)
pop_from this (top ∷ []) =
    (false, record this { current_file = []; closed = top.file ∷ this.closed })
pop_from this (top ∷ next ∷ files) = (
  true,
  record this { current_file = next ∷ files; istream = next.file; closed = top.file ∷ this.closed },
)

pub pop_file : Shell → Bool × Shell
unfolding pop_from
pop_file this = pop_from this this.current_file
