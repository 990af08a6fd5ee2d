-- ===== src/Cli/View/Sorted.antt =====
-- The commands of a view are in the order of their names, whatever is looked for and inserted.
use ucli.Base.{List, Option, none, some, ◌≡◌, refl, ap, ◌∙◌}
use ucli.Base.Int.{ℤ, pos, negsuc}
use ucli.Lub.Ctype.{Bytes, IsText}
use ucli.Lub.Text.Order.{nocasecmp-flip, nocasecmp_trans}
use ucli.Lub.Bintree.{Tree, to_list, insert}
use ucli.Lub.Bintree.Refine.{find_list, insert_list, inserted, find-find_list, insert-insert_list}
use ucli.Lub.Bintree.Sorted.{
  IsKeyOrder, IsSorted, AllValid, IsSorted-Cut, insert_list-IsSorted, insert_list-All,
}
use ucli.Cli.Command.{Command, command_new, bt_compare, bt_getkey}
use ucli.Cli.View.{View, find_command, inserted_command, new_command}

pub name_order : IsKeyOrder bt_compare bt_getkey IsText
name_order = record {
  flips = λ x y. nocasecmp-flip x.name y.name;
  trans = λ x y k vx vy vk lt le. nocasecmp_trans x.name y.name k vx vy vk lt le;
}

-- Commands with text names in their order.
abbrev pub AreCommands : List Command → Type 0
AreCommands commands = AllValid bt_getkey IsText commands × IsSorted bt_compare bt_getkey commands

-- The tree holds commands with text names in their order.
abbrev pub IsView : View → Type 0
IsView this = AreCommands (to_list this.tree)

-- A command is found by its name, and the view keeps its commands.
pub find_command-find_list :
    (this : View) (name : Bytes)
    → IsView this
    → IsText name
    → ((find_command this name).0 ≡ find_list (λ c. bt_compare c name) (to_list this.tree))
      × (to_list (find_command this name).1.tree ≡ to_list this.tree)
find_command-find_list this name (valid, sorted) text =
    unfold find_command in
    find-find_list (λ c. bt_compare c name) this.tree
      (IsSorted-Cut bt_compare bt_getkey IsText name_order name (to_list this.tree) text valid
        sorted)

find_command-IsView :
    (this : View) (name : Bytes) → IsView this → IsText name → IsView (find_command this name).1
find_command-IsView this name v text = rw (find_command-find_list this name v text).1 v

inserted_command_tree :
    (this : View) (cmd : Command) (out : ℤ × Tree Command)
    → (inserted_command this cmd out).1.tree ≡ out.1
unfolding inserted_command
inserted_command_tree this cmd (pos n, tree) = refl
inserted_command_tree this cmd (negsuc n, tree) = refl

-- the command, unless there is one of its name
abbrev pub unless_found : Option Command → Command → Option Command
unless_found none cmd = some cmd
unless_found (some _) cmd = none

inserted_command_result :
    (this : View) (cmd : Command) (out : ℤ × Tree Command) (old : Option Command)
    → out.0 ≡ inserted old
    → (inserted_command this cmd out).0 ≡ unless_found old cmd
unfolding inserted_command
inserted_command_result this cmd (code, tree) none e = rw e refl
inserted_command_result this cmd (code, tree) (some c) e = rw e refl

abbrev pub made : Bytes → Bytes → Command
made name help = command_new name (some help)

module _ (this : View) (name help : Bytes) (v : IsView this) (text : IsText name) where
  -- `ucli_view_new_command` with a help text returns the new command, or NULL exactly if the view has
  -- a command of that name in upper or lower case; then the commands stay as they were, and else the
  -- new one is put in its place in their order.
  pub new_command-insert_list :
      ((new_command this name (some help)).0
        ≡ unless_found (find_list (λ c. bt_compare c name) (to_list this.tree)) (made name help))
      × (to_list (new_command this name (some help)).1.tree
          ≡ insert_list (λ c. bt_compare c name) (made name help) (to_list this.tree))
  unfolding new_command command_new
  new_command-insert_list =
      let cut =
        IsSorted-Cut bt_compare bt_getkey IsText name_order name (to_list this.tree) text v.0 v.1 in
      let (code, nodes) =
        insert-insert_list (λ c. bt_compare c name) (made name help) this.tree cut in
      let out = insert (λ c. bt_compare c name) (made name help) this.tree in
      (
        inserted_command_result this (made name help) out _ code,
        ap to_list (inserted_command_tree this (made name help) out) ∙ nodes,
      )

  -- A new command leaves the view's commands in the order of their names.
  pub new_command-IsView : IsView (new_command this name (some help)).1
  unfolding command_new
  new_command-IsView = rw (new_command-insert_list.1) (
    insert_list-All (λ c. bt_compare c name) _ (made name help) (to_list this.tree) text v.0,
    insert_list-IsSorted bt_compare bt_getkey IsText name_order (made name help) (to_list this.tree)
        text v.0 v.1,
  )
