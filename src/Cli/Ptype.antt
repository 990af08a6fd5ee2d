-- ===== src/Cli/Ptype.antt =====
-- libucli/ptype/ptype.c: the types of parameters, and the check of a text against one. The
-- `int` values of a range are 32-bit patterns, which the two integer methods read as signed or as
-- unsigned. The regular expressions are the C library's: `regexec pattern text` says whether the
-- compiled pattern matches.
pub mod Integer
pub mod Pattern
pub mod Select
pub mod Words
use Prim.Native.Nat.{min}
use ucli.Base.{
  ℕ, zero, suc, ◌+◌, ◌-◌, ◌*◌, ◌%◌, ◌^◌, Bool, true, false, not, ◌&&◌, ◌||◌, [], ◌∷◌, map, Option,
  none, some, ltb, ◌==◌, if◌then◌else◌, length, drop,
}
use mathlib.Core.Option
use ucli.Base.Int.{ℤ, pos, negsuc, ltb_ℤ, is_zero}
use ucli.Base.Run.{Run, ok, abort, ◌>>=◌, deref}
use ucli.Lub.Ctype.{Bytes, isspace, isdigit, tolower, toupper}
use ucli.Lub.Text.{dupn, nocasecmp}
use ucli.Lub.Argv.{Argv, get_count, get_arg}

pub data Method : Type 0 where
  regexp integer unsigned_integer select : Method

pub data Preprocess : Type 0 where
  nothing to_upper to_lower : Preprocess

pub record Ptype : Type 0 where
  pub name : Bytes
  pub text : Option Bytes
  pub pattern : Option Bytes
  pub range : Option Bytes
  pub method : Method
  pub preprocess : Preprocess
  -- the union `u`: the range of the integer methods, and the items of `select`
  pub min : ℕ
  pub max : ℕ
  pub items : Argv
  -- the item at which the word generator goes on
  pub last_name : ℕ

-- strchr, as an offset
strchr : ℕ → Bytes → Option ℕ
strchr c [] = none
strchr c (d ∷ s) =
    let rest = Option.map suc (strchr c s) in
    let found : Option ℕ = some 0 in if d == c then found else rest

-- the length of the name in an item `name(value)`; no bracket, no length
abbrev name_len : Option ℕ → ℕ
name_len none = 0
name_len (some lbrk) = lbrk

item_name : Bytes → Run (Option Bytes)
item_name arg =
    let n = name_len (strchr b'(' arg) in
    if ltb n (length arg) then ok (dupn (some arg) n) else abort

unfoldable pub select_get_name : Argv → ℕ → Run (Option Bytes)
unfolding item_name strchr
select_get_name items index = elim (get_arg items index) [
  | none ↦ ok none
  | some arg ↦ item_name arg
]

-- `rbrk - value` is a size_t: it is huge where the closing bracket comes first
value_len : Option ℕ → Option ℕ → ℕ
value_len none rbrk = 0
value_len (some lbrk) none = 0
value_len (some lbrk) (some rbrk) = (rbrk + 2 ^ 64 - (lbrk + 1)) % 2 ^ 64

value_at : Option ℕ → Bytes → Option Bytes
value_at none arg = none
value_at (some lbrk) arg = some (drop (lbrk + 1) arg)

item_value : Bytes → Run (Option Bytes)
item_value arg =
    let lbrk = strchr b'(' arg in
    let n = value_len lbrk (strchr b')' arg) in
    if ltb n (length arg) then ok (dupn (value_at lbrk arg) n) else abort

unfoldable select_get_value : Argv → ℕ → Run (Option Bytes)
unfolding item_value strchr value_len value_at
select_get_value items index = elim (get_arg items index) [
  | none ↦ ok none
  | some arg ↦ item_value arg
]

unfoldable pub preprocessed : Preprocess → Bytes → Bytes
preprocessed nothing text = text
preprocessed to_upper text = map toupper text
preprocessed to_lower text = map tolower text

-- a minus sign at most, and then digits only
unfoldable pub all_digits : Bytes → Bool
all_digits [] = true
all_digits (c ∷ s) = isdigit c && all_digits s

is_number : Bytes → Bool
is_number [] = true
is_number (c ∷ s) = if c == b'-' then all_digits s else all_digits (c ∷ s)

unfoldable pub digits_value : ℕ → Bytes → ℕ
digits_value acc [] = acc
digits_value acc (c ∷ s) =
    let more = digits_value (acc * 10 + (c - b'0')) s in if isdigit c then more else acc

-- the C library's atoi: strtol, which stops at the limits of a 64-bit long, cut to 32 bits
pub atoi_from : Bytes → ℕ
unfolding digits_value
atoi_from [] = 0
atoi_from (c ∷ s) =
    if c == b'-'
    then (2 ^ 64 - min (digits_value 0 s) (2 ^ 63)) % 2 ^ 32
    else if c == b'+'
    then min (digits_value 0 s) (2 ^ 63 - 1) % 2 ^ 32
    else min (digits_value 0 (c ∷ s)) (2 ^ 63 - 1) % 2 ^ 32

skip_blanks : Bytes → Bytes
skip_blanks [] = []
skip_blanks (c ∷ s) = let rest = skip_blanks s in if isspace c then rest else c ∷ s

unfoldable pub atoi : Bytes → ℕ
unfolding atoi_from skip_blanks
atoi text = atoi_from (skip_blanks text)

-- the value of a 32-bit pattern as an int
abbrev pub signed32 : ℕ → ℤ
signed32 w = if ltb w (2 ^ 31) then pos w else negsuc (2 ^ 32 - 1 - w)

in_range : Method → ℕ → ℕ → ℕ → Bool
in_range unsigned_integer lo hi value = not (ltb value lo || ltb hi value)
in_range _ lo hi value =
    not (ltb_ℤ (signed32 value) (signed32 lo) || ltb_ℤ (signed32 hi) (signed32 value))

check_integer : Ptype → Bytes → Option Bytes
check_integer this result =
    if is_number result && in_range this.method this.min this.max (atoi result)
    then some result
    else none

-- the loop over the items from `i` on, of which `n` are left
select_loop : Argv → Bytes → Bool → ℕ → ℕ → Run (Option Bytes)
select_loop items result translate zero i = ok none
select_loop items result translate (suc n) i = do
  name ← select_get_name items i
  value ← select_get_value items i
  key ← deref name
  if is_zero (nocasecmp result key)
      then ok (if translate then value else name)
      else select_loop items result translate n (i + 1)

module _ (regexec : Bytes → Bytes → Bool) where
  check_method : Ptype → Bytes → Bytes → Bool → Method → Run (Option Bytes)
  check_method this pattern result translate regexp =
      ok (if regexec pattern result then some result else none)
  check_method this pattern result translate integer = ok (check_integer this result)
  check_method this pattern result translate unsigned_integer = ok (check_integer this result)
  check_method this pattern result translate select =
      select_loop this.items result translate (get_count this.items) 0

  unfoldable pub validate_or_translate : Ptype → Bytes → Bool → Run (Option Bytes)
  unfolding check_method check_integer select_get_name select_get_value is_number all_digits
      in_range select_loop
  validate_or_translate this text translate = do
    pattern ← deref this.pattern
    check_method this pattern (preprocessed this.preprocess text) translate this.method

  abbrev pub validate : Ptype → Bytes → Run (Option Bytes)
  validate this text = validate_or_translate this text false

  abbrev pub translate : Ptype → Bytes → Run (Option Bytes)
  translate this text = validate_or_translate this text true
