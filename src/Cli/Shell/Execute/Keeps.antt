-- ===== src/Cli/Shell/Execute/Keeps.antt =====
-- What no builtin of the framework changes.
use ucli.Base.{
  ℕ, zero, suc, Bool, true, false, List, [], ◌∷◌, Option, none, some, length, Bool-cases,
  Option-cases, inl, inr,
}
use ucli.Base.Run.{ok, deref, Post, Post-bind, Post-then}
use ucli.Lub.Ctype.{Bytes}
use ucli.Lub.Text.{same_text}
use ucli.Lub.Argv.{Argv, get_arg}
use ucli.Tinyrl.History.{History, Entry, getfirst, getnext}
use ucli.Cli.Shell.{Shell, ShellState, ShellFile, Output, closing, line_of, entry_line, push_file}
use ucli.Cli.Shell.Execute.{
  Builtin, Hooks, System, print, ucli_close, source_file, source_name, source_internal, set_limit,
  print_entries, print_history, ucli_history, ucli_overview, ucli_cmd_list, find_builtin_callback,
  or_client, callback_of, invoke, arguments, run_script, perform,
}

-- A property that does not depend on what the framework's builtins change: the state, the history, what
-- is printed, and the files.
abbrev pub IsOutside : (Shell → Type 0) → Type 0
IsOutside Inv =
    (this : Shell) (state : ShellState) (history : History) (output : List Output)
    (current_file : List ShellFile) (istream : ℕ) (closed : List ℕ)
    → Inv this
    → Inv (record this {
      state = state;
      history = history;
      output = output;
      current_file = current_file;
      istream = istream;
      closed = closed;
    })

abbrev pub Keeps : (Shell → Type 0) → Builtin → Type 0
Keeps Inv callback =
    (this : Shell) (argv : Option Argv) → Inv this → Post (λ out. Inv out.1) (callback this argv)

unfoldable pub AllKeep : (Shell → Type 0) → List (Bytes × Builtin) → Type 0
AllKeep Inv [] = Unit
AllKeep Inv ((_, callback) ∷ cmd_list) = Keeps Inv callback × AllKeep Inv cmd_list

-- What is asked of the client: all of its callbacks keep the property.
pub record HooksKeep (Inv : Shell → Type 0) (hooks : Hooks) : Type 0 where
  pub scripts :
      (this : Shell) (script : Bytes)
      → Inv this
      → Post (λ out. Inv out.1) (hooks.script_fn this script)
  pub builtins : AllKeep Inv hooks.cmd_list

module _ (system : System) (Inv : Shell → Type 0) (outside : IsOutside Inv) where
  source_file-Keeps :
      (this : Shell) (stop : Bool) (file : Option ℕ) → Inv this → Inv (source_file this stop file).1
  unfolding source_file push_file
  source_file-Keeps this stop none h = h
  source_file-Keeps this stop (some file) h =
      outside this this.state this.history this.output _ file this.closed h

  source_name-Keeps :
      (this : Shell) (stop : Bool) (filename : Option Bytes)
      → Inv this
      → Inv (source_name system this stop filename).1
  unfolding source_name
  source_name-Keeps this stop none h = h
  source_name-Keeps this stop (some filename) h = elim (Option-cases (system.stat filename)) [
    | inl e ↦ rw (e, source_name) h
    | inr (true, e) ↦ rw (e, source_name) h
    | inr (false, e) ↦ rw (e, source_name) (source_file-Keeps this stop (system.fopen filename) h)
  ]

  source-Keeps : (stop : Bool) → Keeps Inv (source_internal system stop)
  unfolding source_internal
  source-Keeps stop this none h = tt
  source-Keeps stop this (some argv) h = source_name-Keeps this stop (get_arg argv 0) h

  print-Keeps : (this : Shell) (out : Output) → Inv this → Inv (print this out)
  print-Keeps this out h =
      outside this this.state this.history (out ∷ this.output) this.current_file this.istream
        this.closed h

  print_entries-Keeps :
      (n : ℕ) (history : History) (offset : ℕ) (entry : Option Entry) (this : Shell)
      → Inv this
      → Post Inv (print_entries n history offset entry this)
  unfolding print_entries
  print_entries-Keeps n history offset none this h = h
  print_entries-Keeps zero history offset (some entry) this h = tt
  print_entries-Keeps (suc n) history offset (some entry) this h =
      print_entries-Keeps n history (getnext history offset).1 (getnext history offset).0
        (print this (entry_line entry.index entry.line))
        (print-Keeps this (entry_line entry.index entry.line) h)

  print_history-Keeps :
      (history : History) (this : Shell) → Inv this → Post Inv (print_history history this)
  unfolding print_history
  print_history-Keeps history this h =
      print_entries-Keeps (length history.entries) history (getfirst history).1 (getfirst history).0
        this h

  history-Keeps : Keeps Inv (ucli_history system)
  unfolding ucli_history
  history-Keeps this none h = tt
  history-Keeps this (some argv) h =
      Post-bind (λ out. Inv out.1) (set_limit system this.history (get_arg argv 0)) _
        (λ history.
          let here = record this { history = history } in
          Post-then {B = Bool × Shell} Inv (λ out. Inv out.1) (print_history history here)
            (λ here'. ok (true, here'))
            (print_history-Keeps history here (
              outside this this.state history this.output this.current_file this.istream this.closed
                h))
            (λ here' k. k))

  overview-Keeps : Keeps Inv ucli_overview
  unfolding ucli_overview
  overview-Keeps this argv h =
      Post-bind (λ out. Inv out.1) (deref this.overview) _
        (λ overview. print-Keeps this (line_of overview) h)

  cmd_list-Keeps : AllKeep Inv (ucli_cmd_list system)
  unfolding ucli_cmd_list ucli_close AllKeep
  cmd_list-Keeps = (
    λ this argv h.
        outside this closing this.history this.output this.current_file this.istream this.closed h,
    (overview-Keeps, (source-Keeps true, (source-Keeps false, (history-Keeps, tt)))),
  )

  find_builtin_callback-Keeps :
      (cmd_list : List (Bytes × Builtin)) (name : Bytes)
      → AllKeep Inv cmd_list
      → Keeps Inv (invoke (find_builtin_callback cmd_list name))
  unfolding find_builtin_callback invoke AllKeep
  find_builtin_callback-Keeps [] name a = λ this argv h. h
  find_builtin_callback-Keeps ((result, callback) ∷ cmd_list) name (k, a) =
      elim (Bool-cases (same_text name result)) [
        | inl e ↦ rw (e, find_builtin_callback) k
        | inr e ↦ rw (e, find_builtin_callback) (find_builtin_callback-Keeps cmd_list name a)
      ]

  or_client-Keeps :
      (own client : Option Builtin)
      → Keeps Inv (invoke own)
      → Keeps Inv (invoke client)
      → Keeps Inv (invoke (or_client own client))
  unfolding or_client
  or_client-Keeps none client k l = l
  or_client-Keeps (some own) client k l = k

  -- What a builtin or a script does keeps such a property, if the client's callbacks keep it.
  pub perform-Keeps :
      (hooks : Hooks) (this : Shell) (builtin script : Option Bytes)
      → HooksKeep Inv hooks
      → Inv this
      → Post (λ out. Inv out.1) (perform system hooks this builtin script)
  unfolding perform run_script callback_of
  perform-Keeps hooks this none none k h = h
  perform-Keeps hooks this none (some script) k h = k.scripts this script h
  perform-Keeps hooks this (some builtin) script k h =
      or_client-Keeps (find_builtin_callback (ucli_cmd_list system) builtin)
        (find_builtin_callback hooks.cmd_list builtin)
        (find_builtin_callback-Keeps (ucli_cmd_list system) builtin cmd_list-Keeps)
        (find_builtin_callback-Keeps hooks.cmd_list builtin k.builtins) this (arguments script) h
