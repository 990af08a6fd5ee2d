-- ===== src/Cli/View/Resolve.antt =====
-- A view that is searched for a line's command keeps its commands.
use ucli.Base.{ℕ, zero, suc, Option, none, some, [], ◌∷◌, Option-cases, ◌≡◌, inl, inr, refl, ◌∙◌}
use ucli.Base.Run.{deref, Post, Post-bind, Post-then}
use ucli.Lub.Ctype.{Bytes}
use ucli.Lub.Text.{cat}
use ucli.Lub.Argv.{Argv, argv_new, get_count, get_arg}
use ucli.Lub.Bintree.{to_list}
use ucli.Lub.Bintree.Splay.{to_list-splay}
use ucli.Cli.Command.{Command, bt_compare}
use ucli.Cli.View.{View, find_command, resolve_from, resolve_prefix, resolved, resolve_command}

-- The same commands in the same order.
abbrev pub SameCommands : View → View → Type 0
SameCommands this this' = to_list this'.tree ≡ to_list this.tree

find_command-SameCommands :
    (this : View) (name : Bytes) → SameCommands this (find_command this name).1
unfolding find_command
find_command-SameCommands this name = to_list-splay (λ node. bt_compare node name) this.tree

resolve_from-SameCommands :
    (here : View) (argv : Argv) (n i : ℕ) (buffer : Option Bytes) (result : Option Command)
    (this : View)
    → SameCommands this here
    → Post (λ out. SameCommands this out.1) (resolve_from here argv n i buffer result)
unfolding resolve_from
resolve_from-SameCommands here argv zero i buffer result this e = e
resolve_from-SameCommands here argv (suc n) i buffer result this e =
    Post-bind (λ out. SameCommands this out.1) (deref (cat buffer (get_arg argv i))) _
      (λ buffer'.
        let same : SameCommands this (find_command here buffer').1 =
          find_command-SameCommands here buffer' ∙ e in
        elim (Option-cases (find_command here buffer').0) [
          | inl q ↦ rw q same
          | inr (c, q) ↦ rw q (
              resolve_from-SameCommands (find_command here buffer').1 argv n (suc i)
                (cat (some buffer') (some (b' ' ∷ []))) (some c) this same)
        ])

pub resolve_prefix-SameCommands :
    (this : View) (line : Bytes) → Post (λ out. SameCommands this out.1) (resolve_prefix this line)
unfolding resolve_prefix
resolve_prefix-SameCommands this line =
    resolve_from-SameCommands this (argv_new line 0) (get_count (argv_new line 0)) 0 none none this
      refl

-- The search for the command of a line keeps the commands of the view.
pub resolve_command-SameCommands :
    (getenv : Bytes → Option Bytes) (regcomp : Bytes → Option (Bytes → Option (ℕ × ℕ)))
    (this : View) (line : Bytes)
    → Post (λ out. SameCommands this out.1) (resolve_command getenv regcomp this line)
unfolding resolve_command
resolve_command-SameCommands getenv regcomp this line =
    Post-then (λ out. SameCommands this out.1) (λ out. SameCommands this out.1)
      (resolve_prefix this line) _ (resolve_prefix-SameCommands this line)
      (λ out q.
        Post-bind (λ out'. SameCommands this out'.1) (resolved getenv regcomp out.0) _
          (λ result'. q))
