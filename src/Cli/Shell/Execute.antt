-- ===== src/Cli/Shell/Execute.antt =====
-- libucli/shell/shell_execute.c, shell_startup.c and shell_set_context.c: a command is executed by a
-- builtin, by the client's `script_fn`, or not at all, and then the shell moves to the command's view.
pub mod Keeps
pub mod Effect
pub mod Listing
pub mod Safe
use ucli.Base.{
  ℕ, zero, suc, ◌+◌, Bool, true, false, List, [], ◌∷◌, Option, none, some, ◌==◌, if◌then◌else◌,
  length,
}
use ucli.Base.Run.{Run, ok, abort, ◌>>=◌, deref}
use ucli.Lub.Ctype.{Bytes, codes}
use ucli.Lub.Text.{same_text}
use ucli.Lub.Argv.{Argv, argv_new, get_arg}
use ucli.Tinyrl.History.{History, Entry, stifle, unstifle, getfirst, getnext}
use ucli.Cli.Command.{Command}
use ucli.Cli.Pargv.{Pargs}
use ucli.Cli.Variable.{variable_expand}
use ucli.Cli.Shell.{Shell, ShellState, closing, Output, line_of, entry_line, push_file}

-- a callback for a builtin command; its arguments are NULL for a command with no script
abbrev pub Builtin : Type 0
Builtin = Shell → Option Argv → Run (Bool × Shell)

-- the client's part of the shell
pub record Hooks : Type 0 where
  pub script_fn : Shell → Bytes → Run (Bool × Shell)
  pub cmd_list : List (Bytes × Builtin)

-- The C library and the system: atoi, as an `unsigned`; stat, which answers whether the file is a
-- directory; and fopen for reading.
pub record System : Type 0 where
  pub atoi : Bytes → ℕ
  pub stat : Bytes → Option Bool
  pub fopen : Bytes → Option ℕ

abbrev print : Shell → Output → Shell
print this out = record this { output = out ∷ this.output }

ucli_close : Builtin
ucli_close this argv = ok (true, record this { state = closing })

-- what is pushed, or closed again
source_file : Shell → Bool → Option ℕ → Bool × Shell
unfolding push_file
source_file this stop_on_error none = (false, this)
source_file this stop_on_error (some file) =
    let (result, this') = push_file this file stop_on_error in
    if result then (true, this') else (false, record this' { closed = file ∷ this'.closed })

-- the loop over the entries; the first argument is fuel
print_entries : ℕ → History → ℕ → Option Entry → Shell → Run Shell
unfolding getnext
print_entries n history offset none this = ok this
print_entries zero history offset (some entry) this = abort
print_entries (suc n) history offset (some entry) this =
    let (next, offset') = getnext history offset in
    print_entries n history offset' next (print this (entry_line entry.index entry.line))

print_history : History → Shell → Run Shell
unfolding print_entries getfirst
print_history history this =
    let (entry, offset) = getfirst history in
    print_entries (length history.entries) history offset entry this

find_builtin_callback : List (Bytes × Builtin) → Bytes → Option Builtin
find_builtin_callback [] name = none
find_builtin_callback ((result, callback) ∷ cmd_list) name =
    let rest = find_builtin_callback cmd_list name in
    if same_text name result then some callback else rest

or_client : Option Builtin → Option Builtin → Option Builtin
or_client none callback = callback
or_client (some callback) _ = some callback

invoke : Option Builtin → Builtin
invoke none this argv = ok (false, this)
invoke (some callback) this argv = callback this argv

abbrev arguments : Option Bytes → Option Argv
arguments none = none
arguments (some script) = some (argv_new script 0)

run_script : Hooks → Shell → Option Bytes → Run (Bool × Shell)
run_script hooks this none = ok (true, this)
run_script hooks this (some script) = hooks.script_fn this script

set_view : Option Bytes → Shell → Shell
set_view none this = this
set_view (some view) this = record this { view = some view }

set_viewid : Option Bytes → Shell → Shell
set_viewid none this = this
set_viewid (some viewid) this = record this { viewid = some viewid }

print_banner : Option Bytes → Shell → Shell
print_banner none this = this
print_banner (some banner) this = print this (line_of banner)

ucli_overview : Builtin
ucli_overview this argv = do
  overview ← deref this.overview
  ok (true, print this (line_of overview))

module _ (system : System) where
  open system use {atoi, stat, fopen}

  -- stat of NULL fails
  source_name : Shell → Bool → Option Bytes → Bool × Shell
  unfolding source_file
  source_name this stop_on_error none = (false, this)
  source_name this stop_on_error (some filename) = elim (stat filename) [
    | none ↦ (false, this)
    | some true ↦ (false, this)
    | some false ↦ source_file this stop_on_error (fopen filename)
  ]

  source_internal : Bool → Builtin
  unfolding source_name get_arg
  source_internal stop_on_error this argv = do
    args ← deref argv
    ok (source_name this stop_on_error (get_arg args 0))

  -- the limit of the history that is asked for; an empty argument asks for none
  set_limit : History → Option Bytes → Run History
  unfolding stifle unstifle
  set_limit history none = ok history
  set_limit history (some []) = ok history
  set_limit history (some (c ∷ arg)) =
      let limit = atoi (c ∷ arg) in
      if limit == 0 then ok (unstifle history).1 else stifle history limit

  unfoldable pub ucli_history : Builtin
  unfolding set_limit print_history get_arg
  ucli_history this argv = do
    args ← deref argv
    history ← set_limit this.history (get_arg args 0)
    this' ← print_history history (record this { history = history })
    ok (true, this')

  -- the table of the framework's own builtins
  ucli_cmd_list : List (Bytes × Builtin)
  unfolding ucli_close ucli_overview source_internal ucli_history
  ucli_cmd_list =
      (codes "ucli_close", ucli_close)
      ∷ (codes "ucli_overview", ucli_overview)
      ∷ (codes "ucli_source", source_internal true)
      ∷ (codes "ucli_source_nostop", source_internal false)
      ∷ (codes "ucli_history", ucli_history)
      ∷ []

  -- the shell's own builtin of that name, or else the client's
  callback_of : Hooks → Bytes → Option Builtin
  unfolding find_builtin_callback ucli_cmd_list or_client
  callback_of hooks builtin =
      or_client (find_builtin_callback ucli_cmd_list builtin)
        (find_builtin_callback hooks.cmd_list builtin)

  unfoldable pub perform : Hooks → Shell → Option Bytes → Option Bytes → Run (Bool × Shell)
  unfolding invoke callback_of run_script argv_new
  perform hooks this none script = run_script hooks this script
  perform hooks this (some builtin) script =
      invoke (callback_of hooks builtin) this (arguments script)

  module _ (getenv : Bytes → Option Bytes) (regcomp : Bytes → Option (Bytes → Option (ℕ × ℕ)))
      (hooks : Hooks) where
    -- after a success the shell moves into the new view
    enter : Command → Option Pargs → Bool × Shell → Run (Bool × Shell)
    unfolding set_view set_viewid variable_expand
    enter cmd pargv (false, this) = ok (false, this)
    enter cmd pargv (true, this) = do
      viewid ← variable_expand getenv regcomp cmd.viewid this.viewid (some cmd) pargv
      ok (true, set_viewid viewid (set_view cmd.view this))

    -- `*pargv` is deleted, and NULL afterwards
    unfoldable pub execute : Shell → Option Command → Option Pargs → Run (Bool × Shell)
    unfolding perform enter variable_expand
    execute this none pargv = abort
    execute this (some cmd) pargv = do
      script ← variable_expand getenv regcomp cmd.action this.viewid (some cmd) pargv
      outcome ← perform hooks this cmd.builtin script
      enter cmd pargv outcome

    unfoldable pub startup : Shell → Run (Bool × Shell)
    unfolding print_banner execute
    startup this = do
      cmd ← deref this.startup
      execute (print_banner cmd.detail this) (some cmd) none
