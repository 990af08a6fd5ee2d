-- ===== src/Cli/Command.antt =====
-- libucli/command/command.c: a command and its parameters. The view that a command leads to is
-- named by its key in the shell's tree of views.
pub mod Options
use ucli.Base.{
  ℕ, zero, suc, ◌+◌, Bool, true, false, ◌&&◌, List, [], ◌∷◌, ◌++◌, Option, none, some, ltb, ◌==◌,
  if◌then◌else◌, length, get_elem?, drop,
}
use ucli.Lub.Ctype.{Bytes}
use ucli.Lub.Text.{dup, suffix, nocasecmp, same_text}
use ucli.Base.Int.{ℤ, pos, negsuc}
use ucli.Base.Run.{Run, ok, abort}
use ucli.Cli.Ptype.{Ptype}
use ucli.Cli.Param.{Param}

pub record Command : Type 0 where
  pub name : Bytes
  pub text : Option Bytes
  pub paramv : List Param
  pub action : Option Bytes
  pub view : Option Bytes
  pub viewid : Option Bytes
  pub detail : Option Bytes
  pub builtin : Option Bytes
  pub escape_chars : Option Bytes
  pub args : Option Param

unfoldable pub command_new : Bytes → Option Bytes → Command
unfolding dup
command_new name text = record {
  name = name;
  text = dup text;
  paramv = [];
  action = none;
  view = none;
  viewid = none;
  detail = none;
  builtin = none;
  escape_chars = none;
  args = none;
}

-- `paramc` is the length of `paramv`
unfoldable insert_param : Command → Param → Command
insert_param this param = record this { paramv = this.paramv ++ (param ∷ []) }

abbrev get_param : Command → ℕ → Option Param
get_param this index = get_elem? this.paramv index

abbrev pub get_param_count : Command → ℕ
get_param_count this = length this.paramv

abbrev pub is_null {ℓ} : {A : Type ℓ} → Option A → Bool
is_null none = true
is_null (some _) = false

-- a parameter that is given by its position
abbrev pub non_option : Param → Bool
non_option param = elim param.ptype [ none ↦ false | some _ ↦ is_null param.prefix ]

-- the first of them in the list, and how many parameters have been read then, the end counted too
next_from : List Param → Option Param × ℕ
next_from [] = (none, 1)
next_from (param ∷ paramv) =
    let later = next_from paramv in
    if non_option param then (some param, 1) else (later.0, suc later.1)

-- the next such parameter from `index` on, and the index behind it
unfoldable pub next_non_option : Command → ℕ → Option Param × ℕ
unfolding next_from
next_non_option cmd index = let (param, n) = next_from (drop index cmd.paramv) in (param, index + n)

-- the word that introduces an option: its prefix, or the name of a flag
abbrev option_word : Param → Option Bytes
option_word param = elim param.ptype [ none ↦ some param.name | some _ ↦ param.prefix ]

abbrev is_word : Option Bytes → Bytes → Bool
is_word none name = false
is_word (some prefix) name = same_text prefix name

find_in : List Param → Bytes → Option Param
find_in [] name = none
find_in (param ∷ paramv) name =
    let rest = find_in paramv name in if is_word (option_word param) name then some param else rest

unfoldable pub find_option : Command → Bytes → Option Param
unfolding find_in same_text
find_option this name = find_in this.paramv name

-- `cmd ? strlen(name) : 0`
name_length : Option Command → ℕ
name_length none = 0
name_length (some cmd) = length cmd.name

unfoldable pub choose_longest : Option Command → Option Command → Option Command
unfolding name_length
choose_longest cmd1 cmd2 =
    if ltb (name_length cmd2) (name_length cmd1)
    then cmd1
    else if ltb (name_length cmd1) (name_length cmd2)
    then cmd2
    else cmd1

unfoldable pub command_diff : Option Command → Option Command → ℤ
unfolding nocasecmp
command_diff none none = pos 0
command_diff none (some cmd2) = pos 1
command_diff (some cmd1) none = negsuc 0
command_diff (some cmd1) (some cmd2) = nocasecmp cmd1.name cmd2.name

unfoldable pub get_suffix : Command → Bytes
unfolding suffix
get_suffix this = suffix this.name

-- The comparison and the key by which a view's tree orders its commands.
abbrev pub bt_compare : Command → Bytes → ℤ
bt_compare this key = nocasecmp this.name key

abbrev pub bt_getkey : Command → Bytes
bt_getkey this = this.name

-- The setters assert that the field is not set yet.
abbrev unset {ℓ κ} : {A : Type ℓ} {B : Type κ} → Option A → B → Run B
unset none this = ok this
unset (some _) this = abort

unfoldable set_action : Command → Option Bytes → Run Command
unfolding dup
set_action this action = unset this.action (record this { action = dup action })

unfoldable set_detail : Command → Option Bytes → Run Command
unfolding dup
set_detail this detail = unset this.detail (record this { detail = dup detail })

unfoldable set_view : Command → Option Bytes → Run Command
set_view this view = unset this.view (record this { view = view })

unfoldable set_viewid : Command → Option Bytes → Run Command
unfolding dup
set_viewid this viewid = unset this.viewid (record this { viewid = dup viewid })

unfoldable set_builtin : Command → Option Bytes → Run Command
unfolding dup
set_builtin this builtin = unset this.builtin (record this { builtin = dup builtin })

unfoldable set_escape_chars : Command → Option Bytes → Run Command
unfolding dup
set_escape_chars this chars = unset this.escape_chars (record this { escape_chars = dup chars })

unfoldable set_args : Command → Option Param → Run Command
set_args this args = unset this.args (record this { args = args })
