-- ===== src/Tests/Commands.antt =====
-- Runs of the commands' parser and of variable expansion, and instances of what is proved of them.
use ucli.Base.{
  ℕ, Option, ◌≤◌, ◌<◌, ◌^◌, ◌%◌, ◌&&◌, leb, if◌then◌else◌, Bool, true, false, [], ◌∷◌, none, some,
  ◌≡◌, ◌≢◌, refl, arith,
}
use ucli.Base.Run.{ok, Post}
use ucli.Lub.Ctype.{Bytes, IsText, isdigit, codes}
use ucli.Lub.Argv.{argv_new}
use ucli.Lub.Bintree.{leaf, node, to_list}
use ucli.Lub.Bintree.Refine.{find_list, insert_list}
use ucli.Cli.Ptype.{
  Ptype, validate, all_digits, digits_value, unsigned_integer, regexp, nothing,
  validate_or_translate, preprocessed,
}
use ucli.Cli.Param.{Param}
use ucli.Cli.Command.{Command, command_new, bt_compare}
use ucli.Cli.Command.Options.{Positional}
use ucli.Cli.Pargv.{Parg, line_ok, bad_param, help, excess, insert_parg, main_loop, pargv_init}
use ucli.Cli.Ptype.Integer.{validate-digits}
use ucli.Cli.Pargv.Finish.{AllTaken, main_loop-AllTaken}
use ucli.Lub.Text.{dup, same_text}
use ucli.Cli.Pargv.Given.{IsGiven, value_of, insert_parg-value_of}
use ucli.Cli.Pargv.Complete.{pargv_init-IsComplete}
use ucli.Cli.Variable.Plain.{null, variable_expand-plain}
use ucli.Cli.Variable.{variable_expand, escape_special_chars, default_escape_chars}
use ucli.Cli.Variable.Escape.{
  escaped, unescaped, exposes, HasQuotedBackslash, escape_special_chars-escaped,
  escape_special_chars-exposes,
}
use ucli.Cli.View.{View, view_new, new_command}
use ucli.Cli.View.Sorted.{IsView, made, unless_found, new_command-insert_list}
use ucli.Cli.Shell.{Shell}
use ucli.Cli.Shell.Create.{shell_init}
use ucli.Cli.Shell.Files.{ReadsTop}

-- a type of any text
abbrev pub text_type : Ptype
text_type = record {
  name = codes "STRING";
  text = some (codes "a text");
  pattern = some (codes ".*");
  range = none;
  method = regexp;
  preprocess = nothing;
  min = 0;
  max = 0;
  items = argv_new [] 0;
  last_name = 0;
}

abbrev pub accept : Bytes → Bytes → Bool
accept pattern text = true

abbrev count : Param
count = record {
  name = codes "count";
  text = some (codes "how often");
  ptype = some text_type;
  prefix = some (codes "-c");
  defval = some (codes "5");
}

abbrev host : Param
host = record {
  name = codes "host";
  text = some (codes "where to");
  ptype = some text_type;
  prefix = none;
  defval = none;
}

abbrev ping : Command
ping = record (command_new (codes "ping") (some (codes "ask a host"))) {
  paramv = count ∷ host ∷ [];
}

abbrev given : Param → Bytes → Parg
given param value = record { param = param; value = some value }

-- an option with its value, and a parameter that is given by its position
ping_ok :
    pargv_init accept ping (argv_new (codes "ping -c 3 nas") 0)
    ≡ ok (line_ok (given count (codes "3") ∷ given host (codes "nas") ∷ []))
unfolding pargv_init argv_new validate_or_translate preprocessed command_new insert_parg
ping_ok = refl

-- the parameter is missing, and the mark stands behind the last word
ping_missing :
    pargv_init accept ping (argv_new (codes "ping -c 3") 0) ≡ ok (bad_param (help host 10))
unfolding pargv_init argv_new validate_or_translate preprocessed command_new insert_parg
ping_missing = refl

-- a word too many
ping_excess : pargv_init accept ping (argv_new (codes "ping nas nas") 0) ≡ ok (bad_param (excess 9))
unfolding pargv_init argv_new validate_or_translate preprocessed command_new insert_parg
ping_excess = refl

insert_parg-value_of_example :
    (value_of (insert_parg (given count (codes "5") ∷ []) count (some (codes "3"))) (codes "count")
      ≡ some (dup (some (codes "3"))))
    × ((name : Bytes)
        → same_text (codes "count") name ≡ false
        → value_of (insert_parg (given count (codes "5") ∷ []) count (some (codes "3"))) name
          ≡ value_of (given count (codes "5") ∷ []) name)
insert_parg-value_of_example =
    insert_parg-value_of (given count (codes "5") ∷ []) count (some (codes "3"))

pargv_init-IsComplete_example :
    Positional
      (λ p. IsGiven (given count (codes "3") ∷ given host (codes "nas") ∷ []) p.name)
      ping.paramv
pargv_init-IsComplete_example =
    pargv_init-IsComplete accept ping (argv_new (codes "ping -c 3 nas") 0)
      (given count (codes "3") ∷ given host (codes "nas") ∷ []) ping_ok

two_words : (argv_new (codes "ping nas") 0).argc ≤ 2
unfolding argv_new
two_words = omega arith

main_loop-AllTaken_example :
    Post
      (AllTaken (argv_new (codes "ping nas") 0))
      (main_loop accept 1 ping (argv_new (codes "ping nas") 0) [] 1 0)
main_loop-AllTaken_example =
    main_loop-AllTaken accept ping (argv_new (codes "ping nas") 0) 1 [] 1 0 two_words

-- A type of numbers up to ten, and a number beyond 32 bits that it takes for five.
abbrev small : Ptype
small = record text_type {
  pattern = some (codes "1..10");
  method = unsigned_integer;
  min = 1;
  max = 10;
}

four_digit : isdigit b'4' ≡ true
unfolding isdigit
four_digit = refl

more_digits : all_digits (codes "294967301") ≡ true
unfolding all_digits isdigit
more_digits = refl

big_value : digits_value 0 (codes "4294967301") ≡ 4294967301
unfolding digits_value isdigit
big_value = refl

big_low : digits_value 0 (codes "4294967301") < 2 ^ 63
big_low = rw big_value (omega arith)

validate-digits_example :
    validate accept small (codes "4294967301")
    ≡ ok (
        if leb 1 (digits_value 0 (codes "4294967301") % 2 ^ 32)
          && leb (digits_value 0 (codes "4294967301") % 2 ^ 32) 10
        then some (codes "4294967301")
        else none)
validate-digits_example =
    validate-digits accept small (codes "1..10") b'4' (codes "294967301") refl refl refl four_digit
      more_digits big_low

big_is_taken : validate accept small (codes "4294967301") ≡ ok (some (codes "4294967301"))
unfolding validate_or_translate preprocessed ucli.Cli.Ptype.atoi isdigit ucli.Lub.Ctype.isspace
big_is_taken = refl

-- The escaping of a command that is spelled with a command substitution.
tick_HasQuotedBackslash : HasQuotedBackslash default_escape_chars (codes "a`id`")
tick_HasQuotedBackslash = ground arith

tick_escaped :
    escape_special_chars (some (codes "a`id`")) (some default_escape_chars)
    ≡ some (codes "a\\`id\\`")
unfolding escape_special_chars
tick_escaped = refl

escape_special_chars-exposes_example :
    (exposes default_escape_chars (codes "a\\`id\\`") ≡ false)
    × (unescaped (codes "a\\`id\\`") ≡ codes "a`id`")
escape_special_chars-exposes_example =
    escape_special_chars-exposes (codes "a`id`") default_escape_chars (codes "a\\`id\\`")
      tick_HasQuotedBackslash tick_escaped

escape_special_chars-escaped_example :
    (escape_special_chars (some []) (some default_escape_chars) ≡ none)
    × (codes "a`id`" ≢ []
        → escape_special_chars (some (codes "a`id`")) (some default_escape_chars)
          ≡ some (escaped default_escape_chars (codes "a`id`")))
escape_special_chars-escaped_example =
    escape_special_chars-escaped (codes "a`id`") default_escape_chars

-- A backslash in front of a dollar sign is not escaped by default, and so the dollar sign is exposed.
backslash_exposes :
    (escape_special_chars (some (codes "\\$")) none ≡ some (codes "\\\\$"))
    × (exposes default_escape_chars (codes "\\\\$") ≡ true)
unfolding escape_special_chars exposes
backslash_exposes = (refl, refl)

-- An environment without variables, and regular expressions that do not compile.
abbrev empty_env : Bytes → Option Bytes
empty_env name = none

abbrev no_regcomp : Bytes → Option (Bytes → Option (ℕ × ℕ))
no_regcomp pattern = none

variable_expand-plain_example :
    variable_expand empty_env no_regcomp (some (codes "cost: $5")) none none none
    ≡ ok (if null (codes "cost: $5") then none else some (codes "cost: $5"))
variable_expand-plain_example =
    variable_expand-plain empty_env no_regcomp (codes "cost: $5") none none none refl

-- a variable of the environment, and one that is not terminated
abbrev home_env : Bytes → Option Bytes
home_env name = some (codes "a&b")

home_expanded :
    variable_expand home_env no_regcomp (some (codes "cd ${HOME} ${x")) none none none
    ≡ ok (some (codes "cd a\\&b "))
unfolding variable_expand
home_expanded = refl

-- A view with one command.
abbrev menu : View
menu = record (view_new (codes "main") none) { tree = node leaf ping leaf }

ping-IsText : IsText (codes "ping")
ping-IsText = ground arith

show-IsText : IsText (codes "show")
show-IsText = ground arith

menu-IsView : IsView menu
unfolding command_new
menu-IsView = ((ping-IsText, tt), (tt, tt))

new_command-insert_list_example :
    ((new_command menu (codes "show") (some (codes "list"))).0
      ≡ unless_found
          (find_list (λ c. bt_compare c (codes "show")) (to_list menu.tree))
          (made (codes "show") (codes "list")))
    × (to_list (new_command menu (codes "show") (some (codes "list"))).1.tree
        ≡ insert_list
            (λ c. bt_compare c (codes "show"))
            (made (codes "show") (codes "list"))
            (to_list menu.tree))
new_command-insert_list_example =
    new_command-insert_list menu (codes "show") (codes "list") menu-IsView show-IsText

-- a shell that reads one file
abbrev shell : Shell
shell = record (shell_init 3) { current_file = (record { file = 3; stop_on_error = true }) ∷ [] }

shell_reads : ReadsTop shell
unfolding shell_init
shell_reads = refl
