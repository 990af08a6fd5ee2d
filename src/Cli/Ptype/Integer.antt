-- ===== src/Cli/Ptype/Integer.antt =====
-- The check of the digits that a user types against the range of an integer type.
use Prim.Native.Nat.{min}
use ucli.Base.{
  ℕ, ◌-◌, ◌%◌, ◌^◌, ◌<◌, Bool, true, false, ◌&&◌, ◌∷◌, none, some, leb, ◌==◌, if◌then◌else◌, ◌≡◌,
  refl, ◌∙◌, ap, arith,
}
use ucli.Base.Run.{ok}
use ucli.Lub.Ctype.{Bytes, isdigit, isspace}
use ucli.Cli.Ptype.{
  Ptype, unsigned_integer, nothing, all_digits, is_number, digits_value, atoi, atoi_from,
  skip_blanks, in_range, check_integer, check_method, preprocessed, validate_or_translate, validate,
}

digit_facts :
    (c : ℕ) → isdigit c ≡ true → ((c == b'-') ≡ false) × ((c == b'+') ≡ false) × (isspace c ≡ false)
unfolding isdigit isspace
digit_facts c h = ground arith

is_number-digits :
    (c : ℕ) (s : Bytes) → isdigit c ≡ true → all_digits s ≡ true → is_number (c ∷ s) ≡ true
unfolding is_number all_digits
is_number-digits c s h hs = rw ((digit_facts c h).0) (rw (h, hs))

min_low : (v : ℕ) → v < 2 ^ 63 → min v (2 ^ 63 - 1) ≡ v
min_low v h = omega (arith, h)

skip_blanks-digits : (c : ℕ) (s : Bytes) → isspace c ≡ false → skip_blanks (c ∷ s) ≡ c ∷ s
unfolding skip_blanks
skip_blanks-digits c s h = rw h refl

atoi_from-digits :
    (c : ℕ) (s : Bytes)
    → (c == b'-') ≡ false
    → (c == b'+') ≡ false
    → atoi_from (c ∷ s) ≡ min (digits_value 0 (c ∷ s)) (2 ^ 63 - 1) % 2 ^ 32
unfolding atoi_from
atoi_from-digits c s minus plus = rw (minus, plus) refl

-- Below 2 ^ 63, `atoi` keeps the lowest 32 bits of the value.
atoi-digits :
    (c : ℕ) (s : Bytes)
    → isdigit c ≡ true
    → digits_value 0 (c ∷ s) < 2 ^ 63
    → atoi (c ∷ s) ≡ digits_value 0 (c ∷ s) % 2 ^ 32
unfolding atoi
atoi-digits c s h lt =
    let (minus, plus, blank) = digit_facts c h in
    ap atoi_from (skip_blanks-digits c s blank)
    ∙ atoi_from-digits c s minus plus
    ∙ ap (λ v. v % 2 ^ 32) (min_low (digits_value 0 (c ∷ s)) lt)

in_range-unsigned : (lo hi v : ℕ) → in_range unsigned_integer lo hi v ≡ (leb lo v && leb v hi)
unfolding in_range
in_range-unsigned lo hi v = ground arith

check_integer-digits :
    (this : Ptype) (c : ℕ) (s : Bytes)
    → this.method ≡ unsigned_integer
    → isdigit c ≡ true
    → all_digits s ≡ true
    → digits_value 0 (c ∷ s) < 2 ^ 63
    → check_integer this (c ∷ s) ≡ (
        if leb this.min (digits_value 0 (c ∷ s) % 2 ^ 32)
          && leb (digits_value 0 (c ∷ s) % 2 ^ 32) this.max
        then some (c ∷ s)
        else none)
unfolding check_integer
check_integer-digits this c s m h hs lt =
    rw (is_number-digits c s h hs) (rw (atoi-digits c s h lt) (rw (m, in_range-unsigned) refl))

-- A text of digits is a value of an unsigned integer type, without preprocessing, exactly if the lowest
-- 32 bits of the number that it spells are in the range of the type, for numbers below 2 ^ 63. It comes
-- back as it is.
pub validate-digits :
    (regexec : Bytes → Bytes → Bool) (this : Ptype) (pattern : Bytes) (c : ℕ) (s : Bytes)
    → this.pattern ≡ some pattern
    → this.preprocess ≡ nothing
    → this.method ≡ unsigned_integer
    → isdigit c ≡ true
    → all_digits s ≡ true
    → digits_value 0 (c ∷ s) < 2 ^ 63
    → validate regexec this (c ∷ s)
      ≡ ok (
          if leb this.min (digits_value 0 (c ∷ s) % 2 ^ 32)
            && leb (digits_value 0 (c ∷ s) % 2 ^ 32) this.max
          then some (c ∷ s)
          else none)
unfolding validate_or_translate check_method preprocessed
validate-digits regexec this pattern c s p q m h hs lt =
    rw (p, q, m)
      (ap ok (
        check_integer-digits
          (record this { pattern = some pattern; method = unsigned_integer; preprocess = nothing })
          c s refl h hs lt))
