-- ===== src/Tests/Types.antt =====
-- Runs of the code on parameter types, and instances of what is proved of it.
use ucli.Base.{length, true, List, [], ◌∷◌, none, some, ◌≡◌, refl, arith}
use ucli.Base.Run.{ok, abort}
use ucli.Lub.Ctype.{Bytes, codes, tolower}
use ucli.Lub.Text.{cat, dup, nocasecmp, nocasestr}
use ucli.Lub.Argv.{argv_new, get_arg, get_count}
use ucli.Cli.Ptype.{
  Ptype, validate, validate_or_translate, preprocessed, select_get_name, select, nothing,
}
use ucli.Cli.Ptype.Pattern.{Library, set_pattern, ptype_new, is_start}
use ucli.Cli.Ptype.Select.{HasItems, choice, validate_or_translate-choice}
use ucli.Cli.Ptype.Words.{begun, all_words, all_words-begun}
use ucli.Lub.Bintree.{leaf, node}
use ucli.Cli.Shell.{Shell}
use ucli.Cli.Shell.Create.{shell_init}
use ucli.Tests.Commands.{text_type, accept}

-- a C library that reads no number and writes a fixed text for a range
abbrev blank_library : Library
blank_library = record {
  sscanf = λ method text. (none, none);
  sprintf = λ method lo hi. codes "lo..hi";
  compiles = λ text. true;
}

abbrev switch_type : Ptype
switch_type = record text_type {
  name = codes "SWITCH";
  pattern = some (codes "up(1) down(0)");
  range = some (codes "up/down");
  method = select;
  items = argv_new (codes "up(1) down(0)") 0;
}

abbrev switch_items : List (Bytes × Bytes)
switch_items = (codes "up", codes "1") ∷ (codes "down", codes "0") ∷ []

switch_set :
    ptype_new blank_library text_type
      (codes "SWITCH")
      (some (codes "a text"))
      (some (codes "up(1) down(0)"))
      select
      nothing
    ≡ ok switch_type
unfolding ptype_new argv_new select_get_name get_arg dup cat
switch_set = refl

set_twice : set_pattern blank_library switch_type (codes "a(1)") select ≡ abort
unfolding set_pattern
set_twice = refl

switch_count : get_count switch_type.items ≡ length switch_items
unfolding argv_new
switch_count = refl

switch_HasItems : HasItems switch_type.items 0 switch_items
unfolding argv_new get_arg
switch_HasItems = (
  (
    refl,
    record {
      name_open = (refl, (refl, tt));
      name_close = (refl, (refl, tt));
      value_close = (refl, tt);
      small = omega arith;
    },
  ),
  (
    (
      refl,
      record {
        name_open = (refl, (refl, (refl, (refl, tt))));
        name_close = (refl, (refl, (refl, (refl, tt))));
        value_close = (refl, tt);
        small = omega arith;
      },
    ),
    tt,
  ),
)

validate_or_translate-choice_example :
    validate_or_translate accept switch_type (codes "DOWN") true
    ≡ ok (choice (codes "DOWN") true switch_items)
unfolding preprocessed
validate_or_translate-choice_example =
    validate_or_translate-choice accept switch_type (codes "up(1) down(0)") (codes "DOWN") true
      switch_items refl refl switch_count switch_HasItems

down_choice : choice (codes "DOWN") true switch_items ≡ some (codes "0")
unfolding nocasecmp tolower
down_choice = refl

d_invalid : validate accept switch_type (codes "d") ≡ ok none
unfolding validate_or_translate argv_new preprocessed nocasecmp get_arg tolower
d_invalid = refl

all_words-begun_example :
    all_words accept 3 switch_type (codes "d") 0 ≡ ok (begun (codes "d") switch_items)
all_words-begun_example =
    all_words-begun accept switch_type refl (codes "d") switch_items switch_HasItems switch_count
      d_invalid

d_begun : begun (codes "d") switch_items ≡ codes "down" ∷ []
unfolding begun is_start nocasestr tolower
d_begun = refl

-- a shell that knows the type of a switch
abbrev typed_shell : Shell
typed_shell = record (shell_init 0) { ptype_tree = node leaf switch_type leaf }
