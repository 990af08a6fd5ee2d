-- ===== src/Cli/Shell/Execute/Effect.antt =====
-- Where the shell stands after a command.
use ucli.Base.{ℕ, Bool, true, false, Option, none, some, ◌≡◌, refl, ap, ◌∙◌}
use ucli.Base.Run.{ok, Post-ok}
use ucli.Lub.Ctype.{Bytes}
use ucli.Cli.Command.{Command}
use ucli.Cli.Pargv.{Pargs}
use ucli.Cli.Variable.{variable_expand}
use ucli.Cli.Shell.{Shell, or_else}
use ucli.Cli.Shell.Execute.Keeps.{HooksKeep, perform-Keeps}
use ucli.Cli.Shell.Execute.{Hooks, System, perform, set_view, set_viewid, enter, execute}

-- The shell stands in the same view, with the same view ID.
abbrev pub SamePlace : Shell → Shell → Type 0
SamePlace this this' = (this'.view ≡ this.view) × (this'.viewid ≡ this.viewid)

-- Where the shell stands after `cmd`, with the result and the view ID that the command's expands to: a
-- failure leaves it in its place; a success takes it to the command's view and that ID, if there
-- is the one and the other.
abbrev pub Moves : Command → Option Bytes → Shell → Bool → Shell → Type 0
Moves cmd viewid this false this' = SamePlace this this'
Moves cmd viewid this true this' =
    (this'.view ≡ or_else cmd.view this.view) × (this'.viewid ≡ or_else viewid this.viewid)

set_place :
    (view viewid : Option Bytes) (this here : Shell)
    → SamePlace this here
    → ((set_viewid viewid (set_view view here)).view ≡ or_else view this.view)
      × ((set_viewid viewid (set_view view here)).viewid ≡ or_else viewid this.viewid)
unfolding set_view set_viewid
set_place none none this here same = same
set_place none (some id) this here (v, i) = (v, refl)
set_place (some view) none this here (v, i) = (refl, i)
set_place (some view) (some id) this here same = (refl, refl)

module _ (system : System) (getenv : Bytes → Option Bytes)
    (regcomp : Bytes → Option (Bytes → Option (ℕ × ℕ))) (hooks : Hooks) (this : Shell)
    (cmd : Command) (pargv : Option Pargs) where
  enter-Moves :
      (script viewid : Option Bytes) (result : Bool) (here : Shell)
      → variable_expand getenv regcomp cmd.viewid this.viewid (some cmd) pargv ≡ ok viewid
      → SamePlace this here
      → (this' : Shell) × (enter system getenv regcomp hooks cmd pargv (result, here)
          ≡ ok (result, this'))
        × Moves cmd viewid this result this'
  unfolding enter
  enter-Moves script viewid false here e same = (here, refl, same)
  enter-Moves script viewid true here e same =
      let viewid_of =
        λ (old : Option Bytes). variable_expand getenv regcomp cmd.viewid old (some cmd) pargv in
      let expanded : viewid_of here.viewid ≡ ok viewid = ap viewid_of same.1 ∙ e in
      (
        set_viewid viewid (set_view cmd.view here),
        rw expanded refl,
        set_place cmd.view viewid this here same,
      )

  -- Whatever the builtin or the script does and answers, provided that none of the client's callbacks
  -- moves the shell itself: `ucli_shell_execute` answers the same; after a failure the shell is in the
  -- view and has the view ID that it had; after a success it is in the command's view and has the view ID
  -- that the command's expands to, where the command has them, and else the ones it had.
  pub execute-Moves :
      (script viewid : Option Bytes) (result : Bool) (here : Shell)
      → HooksKeep (SamePlace this) hooks
      → variable_expand getenv regcomp cmd.action this.viewid (some cmd) pargv ≡ ok script
      → variable_expand getenv regcomp cmd.viewid this.viewid (some cmd) pargv ≡ ok viewid
      → perform system hooks this cmd.builtin script ≡ ok (result, here)
      → (this' : Shell) × (execute system getenv regcomp hooks this (some cmd) pargv
          ≡ ok (result, this'))
        × Moves cmd viewid this result this'
  unfolding execute
  execute-Moves script viewid result here h e k p =
      let same =
        Post-ok (λ out. SamePlace this out.1) _
          (perform-Keeps system (SamePlace this)
            (λ here state history output files istream closed s. s) hooks this cmd.builtin script h
            (refl, refl))
          p in
      let (this', out, moved) = enter-Moves script viewid result here k same in
      (this', rw e (rw p out), moved)
