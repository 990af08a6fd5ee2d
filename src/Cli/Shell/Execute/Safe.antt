-- ===== src/Cli/Shell/Execute/Safe.antt =====
-- The execution of a command keeps the shell's views and pointers well formed.
use ucli.Base.{List, Bool, true, false, Option, none, some}
use ucli.Base.Run.{Post, Post-bind, Post-then}
use ucli.Lub.Ctype.{Bytes}
use ucli.Lub.Bintree.{to_list}
use ucli.Base.{ℕ}
use ucli.Cli.Command.{Command}
use ucli.Cli.Pargv.{Pargs}
use ucli.Cli.Variable.{variable_expand}
use ucli.Cli.Shell.{Shell}
use ucli.Cli.Shell.Execute.{Hooks, System, perform, set_view, set_viewid, enter, execute}
use ucli.Cli.Shell.Execute.Keeps.{IsOutside, HooksKeep, perform-Keeps}
use ucli.Cli.Shell.Reach.{Leads, IsShell}

-- A well-formed shell with a view behind `view`, which may be NULL.
abbrev pub Safe : List Bytes → Option Bytes → Shell → Type 0
Safe held view this = IsShell held this × Leads (to_list this.view_tree) view

Safe-IsOutside : {held : List Bytes} (view : Option Bytes) → IsOutside (Safe held view)
Safe-IsOutside {held} view this state history output files istream closed (s, leads) = (
  record {
    views = s.views;
    current = s.current;
    global = s.global;
    text_local = s.text_local;
    text_global = s.text_global;
    kept = s.kept;
  },
  leads,
)

viewid-IsShell :
    {held : List Bytes} (viewid : Option Bytes) (this : Shell)
    → IsShell held this
    → IsShell held (set_viewid viewid this)
unfolding set_viewid
viewid-IsShell {held} none this s = s
viewid-IsShell {held} (some viewid) this s = record {
  views = s.views;
  current = s.current;
  global = s.global;
  text_local = s.text_local;
  text_global = s.text_global;
  kept = s.kept;
}

set_view-IsShell :
    {held : List Bytes} (view : Option Bytes) (this : Shell)
    → Safe held view this
    → IsShell held (set_view view this)
unfolding set_view
set_view-IsShell {held} none this (s, leads) = s
set_view-IsShell {held} (some view) this (s, leads) = record {
  views = s.views;
  current = leads;
  global = s.global;
  text_local = s.text_local;
  text_global = s.text_global;
  kept = s.kept;
}

module _ (system : System) (getenv : Bytes → Option Bytes)
    (regcomp : Bytes → Option (Bytes → Option (ℕ × ℕ))) (hooks : Hooks) where
  enter-IsShell :
      {held : List Bytes} (cmd : Command) (pargv : Option Pargs) (out : Bool × Shell)
      → Safe held cmd.view out.1
      → Post (λ out. IsShell held out.1) (enter system getenv regcomp hooks cmd pargv out)
  unfolding enter
  enter-IsShell {held} cmd pargv (false, this) (s, leads) = s
  enter-IsShell {held} cmd pargv (true, this) safe =
      Post-bind (λ out. IsShell held out.1)
        (variable_expand getenv regcomp cmd.viewid this.viewid (some cmd) pargv) _
        (λ viewid.
          viewid-IsShell viewid (set_view cmd.view this) (set_view-IsShell cmd.view this safe))

  pub execute-IsShell :
      {held : List Bytes} (cmd : Command) (pargv : Option Pargs) (this : Shell)
      → HooksKeep (Safe held cmd.view) hooks
      → Safe held cmd.view this
      → Post (λ out. IsShell held out.1) (execute system getenv regcomp hooks this (some cmd) pargv)
  unfolding execute
  execute-IsShell {held} cmd pargv this k safe =
      Post-bind (λ out. IsShell held out.1)
        (variable_expand getenv regcomp cmd.action this.viewid (some cmd) pargv) _
        (λ script.
          Post-then (λ out. Safe held cmd.view out.1) (λ out. IsShell held out.1)
            (perform system hooks this cmd.builtin script)
            (enter system getenv regcomp hooks cmd pargv)
            (perform-Keeps system (Safe held cmd.view) (Safe-IsOutside cmd.view) hooks this
              cmd.builtin script k safe)
            (λ out q. enter-IsShell cmd pargv out q))
