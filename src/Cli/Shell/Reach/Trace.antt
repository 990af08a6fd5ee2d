-- ===== src/Cli/Shell/Reach/Trace.antt =====
-- All that is done with a shell, as steps, and what holds of a shell that they lead to.
use mathlib.Core.Path.{subst}
use ucli.Base.{List, [], ◌∷◌, none, inl, inr, ℕ, Bool, Option, some, ◌≡◌}
use ucli.Base.Run.{ok, Post-ok}
use ucli.Lub.Ctype.{Bytes, IsText}
use ucli.Lub.Bintree.{to_list}
use ucli.Cli.Command.{Command}
use ucli.Cli.Ptype.{Ptype, Method, Preprocess}
use ucli.Cli.Ptype.Pattern.{Library}
use ucli.Cli.Pargv.{Pargs}
use ucli.Cli.View.{View, new_command}
use ucli.Cli.View.Sorted.{IsView, new_command-IsView}
use ucli.Cli.Shell.{Shell, view_at, with_view, resolve_command}
use ucli.Cli.Shell.Create.{shell_init, find_create_view, set_context}
use ucli.Cli.Shell.Completion.{getfirst_command, getnext_command}
use ucli.Cli.Shell.Types.{find_create_ptype}
use ucli.Cli.Shell.Help.{help}
use ucli.Cli.Shell.Execute.{Hooks, System, execute}
use ucli.Cli.Shell.Execute.Keeps.{HooksKeep}
use ucli.Cli.Shell.Execute.Safe.{Safe, execute-IsShell}
use ucli.Cli.Shell.Reach.{IsHeld, Leads, IsShell, with_view-IsShell, view_in-All}
use ucli.Cli.Shell.Reach.Steps.{
  Pointed, shell_init-IsShell, find_create_view-Pointed, set_context-IsShell,
}
use ucli.Cli.Shell.Reach.Help.{help-IsShell}
use ucli.Cli.Shell.Reach.Types.{find_create_ptype-IsShell}
use ucli.Cli.Shell.Reach.Searches.{
  getnext_command-IsShell, getfirst_command-IsShell, resolve_command-IsShell,
}

view_at-IsView :
    {held : List Bytes} (this : Shell) (name : Bytes) (view : View)
    → IsShell held this
    → view_at this.view_tree name ≡ some view
    → IsView view
unfolding view_at
view_at-IsView this name view s e =
    view_in-All IsView (to_list this.view_tree) name view s.views.ordered e

-- How a shell changes, with the list of the pointers that `ucli_shell_find_create_view` has returned
-- until then: `found` is such a pointer, and so is the view of a command that is executed, or NULL.
pub data Step (system : System) (getenv : Bytes → Option Bytes)
    (regcomp : Bytes → Option (Bytes → Option (ℕ × ℕ))) (regexec : Bytes → Bytes → Bool)
    (hooks : Hooks) (held : List Bytes) (this : Shell) : List Bytes → Shell → Type 0 where
  creates :
      {next : Shell} (name : Bytes) (prompt : Option Bytes) (found : Bytes)
      → IsText name
      → find_create_view this name prompt ≡ ok (found, next)
      → Step system getenv regcomp regexec hooks held this (found ∷ held) next
  adds :
      (view : View) (found name help : Bytes)
      → view_at this.view_tree found ≡ some view
      → IsText name
      → Step system getenv regcomp regexec hooks held this held
          (with_view this (new_command view name (some help)).1)
  becomes_global :
      (found : Bytes)
      → IsHeld held (some found)
      → Step system getenv regcomp regexec hooks held this held
          (record this { global = some found })
  enters :
      {next : Shell} (name : Bytes)
      → IsText name
      → set_context this name ≡ ok next
      → Step system getenv regcomp regexec hooks held this held next
  begins :
      {next : Shell} (line : Bytes) (cmd : Option Command)
      → getfirst_command this line ≡ ok (cmd, next)
      → Step system getenv regcomp regexec hooks held this held next
  goes_on :
      {next : Shell} (line : Bytes) (cmd : Option Command)
      → getnext_command this line ≡ ok (cmd, next)
      → Step system getenv regcomp regexec hooks held this held next
  resolves :
      {next : Shell} (line : Bytes) (cmd : Option Command)
      → resolve_command getenv regcomp regexec this line ≡ ok (cmd, next)
      → Step system getenv regcomp regexec hooks held this held next
  executes :
      {next : Shell} (cmd : Command) (pargv : Option Pargs) (result : Bool)
      → IsHeld held cmd.view
      → execute system getenv regcomp hooks this (some cmd) pargv ≡ ok (result, next)
      → Step system getenv regcomp regexec hooks held this held next
  declares :
      {next : Shell} (library : Library) (memory : Ptype) (name : Bytes)
      (text pattern : Option Bytes) (method : Method) (preprocess : Preprocess) (found : Bytes)
      → find_create_ptype library memory this name text pattern method preprocess ≡ ok (found, next)
      → Step system getenv regcomp regexec hooks held this held next
  helps :
      {next : Shell} (same_command : Command → Command → Bool) (line : Bytes)
      → help getenv regcomp same_command this line ≡ ok next
      → Step system getenv regcomp regexec hooks held this held next

-- What a new shell becomes by such steps, with the pointers that have been returned.
pub data Reach (system : System) (getenv : Bytes → Option Bytes)
    (regcomp : Bytes → Option (Bytes → Option (ℕ × ℕ))) (regexec : Bytes → Bytes → Bool)
    (hooks : Hooks) (this : Shell) : List Bytes → Shell → Type 0 where
  here : Reach system getenv regcomp regexec hooks this [] this
  step :
      {held held' : List Bytes} {middle next : Shell}
      → Reach system getenv regcomp regexec hooks this held middle
      → Step system getenv regcomp regexec hooks held middle held' next
      → Reach system getenv regcomp regexec hooks this held' next

more_kept :
    (found : Bytes) (held : List Bytes) (next : Shell)
    → IsShell held next
    → Leads (to_list next.view_tree) (some found)
    → (p : Option Bytes) → IsHeld (found ∷ held) p
    → Leads (to_list next.view_tree) p
more_kept found held next s leads none h = tt
more_kept found held next s leads (some name) (inl e) =
    subst (λ n. Leads (to_list next.view_tree) (some n)) e leads
more_kept found held next s leads (some name) (inr h) = s.kept (some name) h

more_held :
    (found : Bytes) (held : List Bytes) (next : Shell)
    → IsShell held next
    → Leads (to_list next.view_tree) (some found)
    → IsShell (found ∷ held) next
more_held found held next s leads = record {
  views = s.views;
  current = s.current;
  global = s.global;
  text_local = s.text_local;
  text_global = s.text_global;
  kept = more_kept found held next s leads;
}

module _ (system : System) (getenv : Bytes → Option Bytes)
    (regcomp : Bytes → Option (Bytes → Option (ℕ × ℕ))) (regexec : Bytes → Bytes → Bool)
    (hooks : Hooks)
    (safe : (held : List Bytes) (view : Option Bytes) → HooksKeep (Safe held view) hooks) where
  Step-IsShell :
      {held held' : List Bytes} {this next : Shell}
      → Step system getenv regcomp regexec hooks held this held' next
      → IsShell held this
      → IsShell held' next
  Step-IsShell {held} {this = this} {next = next} (creates name prompt found text e) s =
      let (kept, leads) =
        Post-ok (Pointed held) (find_create_view this name prompt)
          (find_create_view-Pointed this name prompt text s) e in
      more_held found held next kept leads
  Step-IsShell {held} {this = this} (adds view found name info e text) s =
      let ordered = view_at-IsView this found view s e in
      with_view-IsShell this (new_command view name (some info)).1
        (new_command-IsView view name info ordered text) s
  Step-IsShell {held} {this = this} (becomes_global found h) s = record {
    views = s.views;
    current = s.current;
    global = s.kept (some found) h;
    text_local = s.text_local;
    text_global = s.text_global;
    kept = s.kept;
  }
  Step-IsShell {held} {this = this} (enters name text e) s =
      Post-ok (IsShell held) (set_context this name) (set_context-IsShell this name text s) e
  Step-IsShell {held} {this = this} (begins line cmd e) s =
      Post-ok (λ out. IsShell held out.1) (getfirst_command this line)
        (getfirst_command-IsShell this line s) e
  Step-IsShell {held} {this = this} (goes_on line cmd e) s =
      Post-ok (λ out. IsShell held out.1) (getnext_command this line)
        (getnext_command-IsShell this line s) e
  Step-IsShell {held} {this = this} (resolves line cmd e) s =
      Post-ok (λ out. IsShell held out.1) (resolve_command getenv regcomp regexec this line)
        (resolve_command-IsShell getenv regcomp regexec this line s) e
  Step-IsShell {held} {this = this} (executes cmd pargv result h e) s =
      Post-ok (λ out. IsShell held out.1)
        (execute system getenv regcomp hooks this (some cmd) pargv)
        (execute-IsShell system getenv regcomp hooks cmd pargv this (safe held cmd.view)
          (s, s.kept cmd.view h))
        e
  Step-IsShell {held} {this = this}
        (declares library memory name text pattern method preprocess found e) s =
      Post-ok (λ out. IsShell held out.1)
        (find_create_ptype library memory this name text pattern method preprocess)
        (find_create_ptype-IsShell library memory name text pattern method preprocess this s) e
  Step-IsShell {held} {this = this} (helps same_command line e) s =
      Post-ok (IsShell held) (help getenv regcomp same_command this line)
        (help-IsShell getenv regcomp same_command this line s) e

  -- Whatever is done with a shell from its start on, by creating views, commands and types, making a view
  -- that `ucli_shell_find_create_view` has returned before the global one, choosing the current view,
  -- searching for commands, asking for help, and executing commands whose view is NULL or has been
  -- returned by `ucli_shell_find_create_view` before, with clients whose callbacks keep the shell well
  -- formed and the views that are pointed at: the shell's views are in the order of their names, each
  -- view's commands are in the order of theirs, the pointers to the current and to the global view are
  -- NULL or lead to a view of the tree, as do all pointers that have been returned, and the iterator stands
  -- at commands whose names are texts.
  pub Reach-IsShell :
      (istream : ℕ) {held : List Bytes} {this : Shell}
      → Reach system getenv regcomp regexec hooks (shell_init istream) held this
      → IsShell held this
  Reach-IsShell istream here = shell_init-IsShell istream
  Reach-IsShell istream (step r s) = Step-IsShell s (Reach-IsShell istream r)
