-- ===== src/Cli/View.antt =====
-- libucli/view/view.c: a view, with the tree of its commands. Every search turns the tree, so the view
-- is returned with what is found.
pub mod Sorted
pub mod Completion
pub mod Resolve
use ucli.Base.{
  ℕ, zero, suc, Bool, true, false, ◌&&◌, List, [], ◌∷◌, ◌++◌, Option, none, some, ◌==◌,
  if◌then◌else◌, length,
}
use ucli.Base.Int.{ℤ, pos, negsuc, is_zero}
use ucli.Base.Run.{Run, ok, abort, ◌>>=◌, deref}
use ucli.Lub.Ctype.{Bytes, isspace}
use ucli.Lub.Text.{dup, cat, nocasestr}
use ucli.Lub.Argv.{Argv, argv_new, wordcount, get_count, get_arg}
use ucli.Lub.Bintree.{Tree, leaf, find, findnext, insert}
use ucli.Cli.Command.{Command, command_new, bt_compare, bt_getkey, is_null}
use ucli.Cli.Variable.{variable_expand}

pub record View : Type 0 where
  pub name : Bytes
  pub prompt : Option Bytes
  pub tree : Tree Command

-- a new view's prompt is not set yet, so `ucli_view__set_prompt` does not fail here
unfoldable pub view_new : Bytes → Option Bytes → View
unfolding dup
view_new name prompt = record { name = name; prompt = dup prompt; tree = leaf }

unfoldable pub set_prompt : View → Option Bytes → Run View
unfolding dup
set_prompt this prompt = elim this.prompt [
  | none ↦ ok (record this { prompt = dup prompt })
  | some _ ↦ abort
]

pub find_command : View → Bytes → Option Command × View
unfolding find
find_command this name =
    let (cmd, tree) = find (λ node. bt_compare node name) this.tree in
    (cmd, record this { tree = tree })

-- the outcome of the insertion, which is -1 where there is a command of that name
inserted_command : View → Command → ℤ × Tree Command → Option Command × View
inserted_command this cmd (pos n, tree) = (some cmd, record this { tree = tree })
inserted_command this cmd (negsuc n, tree) = (none, record this { tree = tree })

-- the startup command has no help, and is in no tree
pub new_command : View → Bytes → Option Bytes → Option Command × View
unfolding command_new insert inserted_command
new_command this name none = (some (command_new name none), this)
new_command this name (some help) =
    let cmd = command_new name (some help) in
    inserted_command this cmd (insert (λ node. bt_compare node (bt_getkey cmd)) cmd this.tree)

-- The loop of `ucli_view_resolve_prefix` over the words from `i` on, of which there are `n`.
resolve_from : View → Argv → ℕ → ℕ → Option Bytes → Option Command → Run (Option Command × View)
resolve_from this argv zero i buffer result = ok (result, this)
resolve_from this argv (suc n) i buffer result = do
  buffer' ← deref (cat buffer (get_arg argv i))
  let (cmd, this') = find_command this buffer'
  elim cmd [
    | none ↦ ok (result, this')
    | some c ↦ resolve_from this' argv n (suc i) (cat (some buffer') (some (b' ' ∷ []))) (some c)
  ]

unfoldable pub resolve_prefix : View → Bytes → Run (Option Command × View)
unfolding resolve_from find_command cat get_arg argv_new
resolve_prefix this line =
    let argv = argv_new line 0 in resolve_from this argv (get_count argv) 0 none none

module _ (getenv : Bytes → Option Bytes) (regcomp : Bytes → Option (Bytes → Option (ℕ × ℕ))) where
  unfoldable get_action : Command → Option Bytes → Run (Option Bytes)
  unfolding variable_expand
  get_action this viewid = variable_expand getenv regcomp this.action viewid (some this) none

  -- a command that does nothing is not a command that is found
  resolved : Option Command → Run (Option Command)
  resolved none = ok none
  resolved (some cmd) = do
    action ← get_action cmd none
    ok (if is_null action && is_null cmd.builtin && is_null cmd.view then none else some cmd)

  unfoldable pub resolve_command : View → Bytes → Run (Option Command × View)
  unfolding resolve_prefix resolved get_action
  resolve_command this line = do
    (result, this') ← resolve_prefix this line
    result' ← resolved result
    ok (result', this')

  unfoldable pub get_prompt : View → Option Bytes → Run (Option Bytes)
  unfolding variable_expand
  get_prompt this viewid = variable_expand getenv regcomp this.prompt viewid none none
