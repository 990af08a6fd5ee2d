-- ===== src/Cli/Pargv.antt =====
-- libucli/pargv/pargv.c: the arguments of a command, parsed from the words of a line. The vector
-- `pargs` is a list, of which `pargc` is the length. What the code prints where a line is refused
-- is the `Refusal`: the parameter that the user is told about, and the offset of the mark.
pub mod Given
pub mod Complete
pub mod Finish
use ucli.Base.{
  ℕ, zero, suc, ◌+◌, ◌-◌, Bool, true, false, List, [], ◌∷◌, ◌++◌, Option, none, some, ltb, ◌==◌,
  if◌then◌else◌, length, drop,
}
use ucli.Base.Run.{Run, ok, abort, ◌>>=◌, deref}
use ucli.Lub.Ctype.{Bytes}
use ucli.Lub.Text.{same_text, dup, cat}
use ucli.Lub.Argv.{Argv, argv_new, wordcount, get_count, get_arg, get_offset, get_quoted}
use ucli.Cli.Ptype.{Ptype, translate}
use ucli.Cli.Param.{Param, param_validate}
use ucli.Cli.Command.{Command, get_param_count, non_option, next_non_option, find_option}

pub record Parg : Type 0 where
  pub param : Param
  pub value : Option Bytes

abbrev pub Pargs : Type 0
Pargs = List Parg

pub data Refusal : Type 0 where
  -- ucli_param_help
  help : Param → ℕ → Refusal
  -- the bare mark
  excess : ℕ → Refusal

pub data Parsed : Type 0 where
  line_ok : Pargs → Parsed
  bad_param : Refusal → Parsed

unfoldable pub find_parg : Pargs → Bytes → Option Parg
unfolding same_text
find_parg [] name = none
find_parg (parg ∷ pargs) name =
    let rest = find_parg pargs name in if same_text parg.param.name name then some parg else rest

-- the first argument of that name gets the value; else there is a new one behind the others
store : Pargs → Param → Option Bytes → Pargs
store [] param value = (record { param = param; value = value }) ∷ []
store (parg ∷ pargs) param value =
    let rest = parg ∷ store pargs param value in
    if same_text parg.param.name param.name then (record parg { value = value }) ∷ pargs else rest

unfoldable pub insert_parg : Pargs → Param → Option Bytes → Pargs
unfolding store dup same_text
insert_parg this param value = store this param (dup value)

-- ucli_param_help uses the ptype
refuse : Param → ℕ → Run Parsed
refuse param offset = do ptype ← deref param.ptype; ok (bad_param (help param offset))

module _ (regexec : Bytes → Bytes → Bool) where
  default_value : Param → Bytes → Run (Option Bytes)
  default_value param [] = ok (some [])
  default_value param (c ∷ defval) = param_validate regexec param (c ∷ defval)

  set_default : Pargs → Param → Run Pargs
  set_default this param = elim param.defval [
    | none ↦ ok this
    | some defval ↦ do value ← default_value param defval; ok (insert_parg this param value)
  ]

  pub set_defaults : Pargs → List Param → Run Pargs
  unfolding set_default default_value insert_parg
  set_defaults this [] = ok this
  set_defaults this (param ∷ paramv) = do this' ← set_default this param; set_defaults this' paramv

-- the text of the words from `i` on, of which there are `n`, on to `args`
gather : Argv → ℕ → ℕ → Option Bytes → Run (Option Bytes)
gather argv zero i args = ok args
gather argv (suc n) i args = do
  arg ← deref (get_arg argv i)
  let mark : Option Bytes = if get_quoted argv i then some (b'"' ∷ []) else none
  let word = cat (cat (cat args mark) (some arg)) mark
  gather argv n (i + 1)
      (elim (get_arg argv (i + 1)) [ none ↦ word | some _ ↦ cat word (some (b' ' ∷ [])) ])

-- how the main loop goes on behind one word
pub data Next : Type 0 where
  again : ℕ → ℕ → Pargs → Next
  stop : Refusal → Next

-- how it ends: with the arguments, the word and the parameter that it has come to, or by a refusal
pub data Loop : Type 0 where
  finished : Pargs → ℕ → ℕ → Loop
  stopped : Refusal → Loop

-- `strlen(prefix) + 1` behind the offset of the word `i`
no_value : Argv → Param → ℕ → Run Next
no_value argv param i = do
  prefix ← deref param.prefix
  ptype ← deref param.ptype
  ok (stop (help param (get_offset argv i + (length prefix + 1))))

-- all parameters have been given: the rest of the line is one argument, if the command has one
take_rest : Command → Argv → Pargs → ℕ → ℕ → Run Next
take_rest cmd argv this i index = elim cmd.args [
  | none ↦ ok (stop (excess (get_offset argv i)))
  | some param ↦ do
    let n = get_count argv - i
    args ← gather argv n i none
    ok (again (i + n + 1) index (insert_parg this param args))
]

-- behind the validation of the word `i`, which gave NULL or the value
keep_value : Argv → Pargs → ℕ → ℕ → Param → Option Bytes → Run Next
keep_value argv this i index param (some v) =
    ok (again (i + 1) index (insert_parg this param (some v)))
keep_value argv this i index param none = do
  ptype ← deref param.ptype
  ok (stop (help param (get_offset argv i)))

-- the rounds that follow, if the word is not refused
go_on : (ℕ → ℕ → Pargs → Run Loop) → Next → Run Loop
go_on go (again i index this) = go i index this
go_on go (stop refusal) = ok (stopped refusal)

module _ (regexec : Bytes → Bytes → Bool) where
  -- a parameter is found for the word `i`, with the text `arg` of its value or NULL for a flag
  take_value : Argv → Pargs → ℕ → ℕ → Param → Option Bytes → Run Next
  take_value argv this i index param none = ok (again (i + 1) index (insert_parg this param none))
  take_value argv this i index param (some arg) = do
    validated ← param_validate regexec param arg
    keep_value argv this i index param validated

  -- the word `i` introduces the option `param`
  take_option : Argv → Pargs → ℕ → ℕ → Param → Run Next
  take_option argv this i index param = elim param.ptype [
    | none ↦ take_value argv this i index param none
    | some _ ↦ elim (get_arg argv (i + 1)) [
      | none ↦ no_value argv param i
      | some arg ↦ take_value argv this (i + 1) index param (some arg)
    ]
  ]

  take_positional : Command → Argv → Pargs → ℕ → Bytes → Option Param × ℕ → Run Next
  take_positional cmd argv this i arg (none, index) = take_rest cmd argv this i index
  take_positional cmd argv this i arg (some param, index) =
      take_value argv this i index param (some arg)

  take_word : Command → Argv → Pargs → ℕ → ℕ → Bytes → Run Next
  take_word cmd argv this i index arg = elim (find_option cmd arg) [
    | some param ↦ take_option argv this i index param
    | none ↦ take_positional cmd argv this i arg (next_non_option cmd index)
  ]

  -- the `for` over the words from `i` on; a round takes at least one word, so `argc - i` is enough
  -- fuel
  pub main_loop : ℕ → Command → Argv → Pargs → ℕ → ℕ → Run Loop
  main_loop zero cmd argv this i index = ok (finished this i index)
  main_loop (suc fuel) cmd argv this i index = elim (ltb i (get_count argv)) [
    | false ↦ ok (finished this i index)
    | true ↦ do
      arg ← deref (get_arg argv i)
      next ← take_word cmd argv this i index arg
      go_on (λ i' index' this'. main_loop fuel cmd argv this' i' index') next
  ]

-- The vector has room for as many arguments as the line has words, or the command parameters.
unfoldable max_params : Command → Argv → ℕ
max_params cmd argv =
    if ltb (get_count argv) (get_param_count cmd) then get_param_count cmd else get_count argv

-- the offset behind the last word
end_offset : Argv → ℕ → Run ℕ
end_offset argv zero = abort
end_offset argv (suc i) = do arg ← deref (get_arg argv i); ok (get_offset argv i + (length arg + 1))

-- The last loop: the parameters that are left, of which those given by position need a value. (The
-- code's loop and the one in ucli_command_next_non_option are one here.)
check_missing : List Param → Argv → Pargs → ℕ → Run Parsed
check_missing [] argv this i = ok (line_ok this)
check_missing (param ∷ paramv) argv this i =
    let rest = check_missing paramv argv this i in
    let refusal = end_offset argv i >>= refuse param in
    if non_option param
    then elim (find_parg this param.name) [ some _ ↦ rest | none ↦ refusal ]
    else rest

module _ (regexec : Bytes → Bytes → Bool) where
  after_loop : Command → Argv → Loop → Run Parsed
  after_loop cmd argv (stopped refusal) = ok (bad_param refusal)
  after_loop cmd argv (finished this i index) = check_missing (drop index cmd.paramv) argv this i

  unfoldable pub pargv_init : Command → Argv → Run Parsed
  unfolding main_loop go_on take_word take_positional take_rest take_option take_value keep_value
      no_value gather cat check_missing end_offset refuse after_loop set_defaults get_arg get_offset
      get_quoted find_option next_non_option find_parg
  pargv_init cmd argv = do
    this ← set_defaults regexec [] cmd.paramv
    let start = wordcount cmd.name
    let argc = get_count argv
    loop ← main_loop regexec (argc - start) cmd argv this start 0
    after_loop cmd argv loop

  unfoldable pub pargv_new : Command → Bytes → ℕ → Run Parsed
  unfolding pargv_init argv_new
  pargv_new cmd line offset = pargv_init cmd (argv_new line offset)
