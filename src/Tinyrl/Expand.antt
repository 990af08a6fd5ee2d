-- ===== src/Tinyrl/Expand.antt =====
-- contrib/tinyrl/history/history.c: history expansion. A pointer into the line is the suffix that starts
-- there. A number in a reference is below 2 ^ 31. Where a reference ends the line, the loop steps over the
-- terminator and reads what is behind it: `abort` stands for that. `tmp` is what an uninitialised
-- variable holds.
pub mod Numbers
pub mod Reference
use ucli.Base.{
  ℕ, zero, suc, ◌+◌, ◌-◌, ◌*◌, ◌%◌, ◌^◌, Bool, true, false, ◌&&◌, ◌||◌, List, [], ◌∷◌, ◌++◌, Option,
  none, some, ltb, leb, ◌==◌, if◌then◌else◌, length, drop,
}
use ucli.Base.Int.{ℤ, pos, negsuc}
use ucli.Base.Run.{Run, ok, abort, ◌>>=◌}
use ucli.Lub.Ctype.{Bytes, isspace, isdigit}
use ucli.Lub.Text.{catn, cat}
use ucli.Tinyrl.History.{History, Entry, get}
use ucli.Tinyrl.Memory.{unsigned}

-- sscanf with "!%d": the end of the input, no number, or a number
pub data Scan : Type 0 where
  eof mismatch : Scan
  number : ℤ → Scan

-- the digits at the start of a text, as a number
unfoldable pub digits : Bytes → ℕ → ℕ
unfolding isdigit
digits [] n = n
digits (c ∷ s) n = let rest = digits s (n * 10 + (c - b'0')) in if isdigit c then rest else n

-- minus a number
unfoldable pub negated : ℕ → ℤ
negated zero = pos 0
negated (suc n) = negsuc n

unfoldable pub scan_digits : Bool → Bytes → Scan
unfolding digits negated isdigit
scan_digits minus [] = mismatch
scan_digits minus (c ∷ s) =
    if isdigit c
    then number (if minus then negated (digits (c ∷ s) 0) else pos (digits (c ∷ s) 0))
    else mismatch

unfoldable pub scan : Bytes → Scan
scan [] = eof
scan (c ∷ s) =
    let later = scan s in
    if isspace c
    then later
    else (if c == b'-'
        then scan_digits true s
        else (if c == b'+' then scan_digits false s else scan_digits false (c ∷ s)))

-- the index that a number stands for
abbrev offset_of : History → ℤ → ℕ
offset_of this (pos n) = unsigned n
offset_of this (negsuc n) = unsigned (this.current_index + (2 ^ 32 - 1) + (2 ^ 32 - suc n))

-- the index after the number was read; none where the loop breaks off
abbrev scanned : History → ℤ → Scan → Option ℕ
scanned this tmp eof = some (offset_of this tmp)
scanned this tmp mismatch = none
scanned this tmp (number n) = some (offset_of this n)

-- what the text behind a `!` refers to
unfoldable pub reference : History → ℤ → Bytes → Option ℕ
reference this tmp [] = scanned this tmp (scan [])
reference this tmp (c ∷ p) =
    if c == b'!'
    then some (unsigned (this.current_index + (2 ^ 32 - 1)))
    else scanned this tmp (scan (c ∷ p))

unfoldable pub in_reference : ℕ → Bool
unfolding isdigit
in_reference c = c == b'!' || (c == b'-' || isdigit c)

-- strspn
unfoldable pub strspn : Bytes → ℕ
strspn [] = 0
strspn (c ∷ s) = let rest = strspn s in if in_reference c then suc rest else 0

-- the variables of the loop but `p`
pub record Expansion : Type 0 where
  pub start : Bytes
  pub len : ℕ
  pub buffer : Option Bytes
  pub expanded : Bool

abbrev pub result : Expansion → Bool × Option Bytes
result this = (this.expanded, catn this.buffer (some this.start) this.len)

-- the plain text in front of a reference
abbrev pub plain : Expansion → Option Bytes
plain this = if ltb 0 this.len then catn this.buffer (some this.start) this.len else this.buffer

-- the reference at `p`, of `skip` characters, is replaced, or left in place
abbrev pub substituted : Expansion → Bytes → ℕ → Option Entry → Expansion
substituted this p skip (some found) = record {
  start = drop skip p;
  len = 1;
  buffer = cat (plain this) (some found.line);
  expanded = true;
}
substituted this p skip none = record this { len = this.len + skip + 1; buffer = plain this }

-- The loop at `p`, with `skip` characters to step over first.
unfoldable pub expand_from : History → ℤ → Bytes → ℕ → Expansion → Run (Bool × Option Bytes)
expand_from history tmp [] zero this = ok (result this)
expand_from history tmp [] (suc skip) this = abort
expand_from history tmp (c ∷ p) (suc skip) this = expand_from history tmp p skip this
expand_from history tmp (c ∷ p) zero this = elim (c == b'!') [
  | false ↦ expand_from history tmp p 0 (record this { len = this.len + 1 })
  | true ↦ elim (reference history tmp p) [
    | none ↦ ok (result this)
    | some offset ↦
        expand_from history tmp p (strspn (c ∷ p))
          (substituted this (c ∷ p) (strspn (c ∷ p)) (get history offset))
  ]
]

unfoldable pub expand : History → ℤ → Bytes → Run (Bool × Option Bytes)
expand history tmp string =
    expand_from history tmp string 0
      (record { start = string; len = 0; buffer = none; expanded = false })
