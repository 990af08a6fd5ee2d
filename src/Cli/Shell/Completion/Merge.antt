-- ===== src/Cli/Shell/Completion/Merge.antt =====
-- Two lists of commands merged, as the shell's completion does.
use ucli.Base.{ℕ, suc, ◌+◌, ◌≤◌, List, [], ◌∷◌, Option, length, length-filter, ◌≡◌, ap, arith}
use ucli.Base.Int.{neg, nil, plus, sign}
use ucli.Lub.Ctype.{Bytes}
use ucli.Lub.Text.{nocasecmp}
use ucli.Lub.Bintree.Splay.{sign_cases, is_neg, is_nil, is_plus}
use ucli.Lub.Bintree.Walk.{behind, length-behind}
use ucli.Cli.Command.{Command, bt_compare}
use ucli.Cli.View.Completion.{completions, completes, line_words}
use ucli.Cli.Shell.{Shell}
use ucli.Cli.Shell.Views.{HasCommands}
use ucli.Cli.Shell.Completion.{commands_at}

-- the local command `x` and those that `rest` makes of the other local ones, merged with `ys`
unfoldable pub merge_head : Command → (List Command → List Command) → List Command → List Command
merge_head x rest [] = x ∷ rest []
merge_head x rest (y ∷ ys) =
    let after = merge_head x rest ys in
    elim (sign (nocasecmp x.name y.name)) [
      | neg ↦ x ∷ rest (y ∷ ys)
      | nil ↦ x ∷ rest ys
      | plus ↦ y ∷ after
    ]

-- Two lists in the order of their names in one; of two commands of one name only the first list's.
unfoldable pub merge : List Command → List Command → List Command
unfolding merge_head
merge [] ys = ys
merge (x ∷ xs) ys = merge_head x (merge xs) ys

length-merge_head :
    (x : Command) (n : ℕ) (rest : List Command → List Command)
    → ((ys : List Command) → length (rest ys) ≤ n + length ys)
    → (ys : List Command) → length (merge_head x rest ys) ≤ suc n + length ys
unfolding merge_head
length-merge_head x n rest h [] = omega (arith, h [])
length-merge_head x n rest h (y ∷ ys) = elim (sign_cases (sign (nocasecmp x.name y.name))) [
  | is_neg e ↦ rw (e, merge_head) (omega (arith, h (y ∷ ys)))
  | is_nil e ↦ rw (e, merge_head) (omega (arith, h ys))
  | is_plus e ↦ rw (e, merge_head) (omega (arith, length-merge_head x n rest h ys))
]

pub length-merge : (xs ys : List Command) → length (merge xs ys) ≤ length xs + length ys
unfolding merge
length-merge [] ys = omega arith
length-merge (x ∷ xs) ys = length-merge_head x (length xs) (merge xs) (length-merge xs) ys

pub length-completions :
    (line name : Bytes) (commands : List Command)
    → length (completions line name commands) ≤ length commands
length-completions line name commands = omega (
  arith,
  length-filter (completes (line_words line) line) (behind (λ c. bt_compare c name) commands),
  length-behind (λ c. bt_compare c name) commands,
)

pub commands_at-length :
    (this : Shell) (view : Option Bytes) (commands : List Command)
    → HasCommands this.view_tree view commands
    → commands_at this view ≡ length commands
unfolding commands_at
commands_at-length this view commands (name, v, p, h, e) = rw p (rw (h, commands_at) (ap length e))
