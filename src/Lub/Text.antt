-- ===== src/Lub/Text.antt =====
-- contrib/lub/string. A `char *` that may be NULL is an `Option Bytes`; a pointer into a string is
-- the suffix that it points at, or an offset. Memory is taken to be there when it is asked for.
pub mod Order
pub mod Search
pub mod Same
pub mod Compare
use Prim.Native.Nat.{min}
use ucli.Base.{
  ℕ, zero, suc, ◌+◌, ◌-◌, ◌%◌, Bool, true, false, List, [], ◌∷◌, ◌++◌, Option, none, some, ltb,
  ◌==◌, ◌&&◌, if◌then◌else◌, length, take,
}
use ucli.Base.Int.{ℤ, pos, sub_ℕ, is_zero}
use ucli.Lub.Ctype.{Bytes, isspace, tolower}
use mathlib.Core.Option

-- `*string ? ... : 0`, the text under a pointer that may be NULL
abbrev pub text_of : Option Bytes → Bytes
text_of none = []
text_of (some s) = s

unfoldable pub catn : Option Bytes → Option Bytes → ℕ → Option Bytes
catn string none len = string
catn string (some text) len =
    let textlen = length text in
    let n = if ltb len textlen then len else textlen in some (text_of string ++ take n text)

unfoldable pub cat : Option Bytes → Option Bytes → Option Bytes
unfolding catn
cat string none = catn string none 0
cat string (some text) = catn string (some text) (length text)

unfoldable pub dup : Option Bytes → Option Bytes
unfolding cat
dup none = none
dup (some string) = cat none (some string)

unfoldable pub dupn : Option Bytes → ℕ → Option Bytes
dupn none len = none
dupn (some string) len = some (take len string)

-- the difference of two `char` values, which are signed on the platform of the build
unfoldable char_diff : ℕ → ℕ → ℤ
char_diff a b = sub_ℕ ((a + 128) % 256) ((b + 128) % 256)

unfoldable pub nocasecmp : Bytes → Bytes → ℤ
unfolding char_diff
nocasecmp (c ∷ cs) (d ∷ ct) =
    let rest = nocasecmp cs ct in
    let diff = char_diff (tolower c) (tolower d) in if is_zero diff then rest else diff
nocasecmp (c ∷ cs) [] = char_diff c 0
nocasecmp [] (d ∷ ct) = char_diff 0 d
nocasecmp [] [] = pos 0

-- the inner loop of `nocasestr`: does it run `p` to its end?
unfoldable pub nocase_prefix : Bytes → Bytes → Bool
nocase_prefix q [] = true
nocase_prefix [] (d ∷ p) = false
nocase_prefix (c ∷ q) (d ∷ p) =
    let rest = nocase_prefix q p in if tolower d == tolower c then rest else false

-- the offset in `cs` of the pointer that is returned; none for NULL
unfoldable pub nocasestr : Bytes → Bytes → Option ℕ
unfolding nocase_prefix
nocasestr [] ct = none
nocasestr (c ∷ cs) ct =
    let later = Option.map suc (nocasestr cs ct) in
    if nocase_prefix (c ∷ cs) ct then some 0 else later

suffix_from : Bytes → Bytes → Bytes
suffix_from p2 [] = p2
suffix_from p2 (c ∷ p1) = suffix_from (if isspace c then p1 else p2) p1

unfoldable pub suffix : Bytes → Bytes
unfolding suffix_from isspace
suffix string = suffix_from string string

-- strcmp, as a test
unfoldable pub same_text : Bytes → Bytes → Bool
same_text [] [] = true
same_text (c ∷ s) (d ∷ t) = c == d && same_text s t
same_text _ _ = false

-- strcmp, of which the callers use the sign alone; it compares `unsigned char` values
unfoldable pub strcmp : Bytes → Bytes → ℤ
strcmp [] [] = pos 0
strcmp [] (d ∷ t) = sub_ℕ 0 d
strcmp (c ∷ s) [] = sub_ℕ c 0
strcmp (c ∷ s) (d ∷ t) = let rest = strcmp s t in if c == d then rest else sub_ℕ c d
