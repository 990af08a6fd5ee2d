-- ===== src/Tinyrl/Expand/Numbers.antt =====
-- The entries that references denote: the last one, the one of a number, and one so many before the last.
use ucli.Base.{
  ℕ, suc, ◌+◌, ◌-◌, ◌*◌, ◌^◌, ◌<◌, true, false, [], ◌∷◌, ◌++◌, some, All, ◌==◌, ◌≡◌, refl, ◌∙◌, ap,
  arith,
}
use ucli.Base.Int.{ℤ, pos, negsuc}
use ucli.Lub.Ctype.{Bytes, isspace, isdigit}
use ucli.Tinyrl.History.{History}
use ucli.Tinyrl.Memory.{unsigned}
use ucli.Tinyrl.Expand.{number, digits, negated, scan_digits, scan, reference, in_reference}

-- the number that digits spell behind those that have been read
abbrev pub value : ℕ → Bytes → ℕ
value n [] = n
value n (c ∷ s) = value (n * 10 + (c - b'0')) s

abbrev pub AreDigits : Bytes → Type 0
AreDigits s = All (λ c. isdigit c ≡ true) s

-- What is written behind an exclamation mark, and the index of the entry that it stands for, where the
-- next entry will have the index `current`: another exclamation mark for the entry before that, a number
-- for the entry with that index, and a number behind a minus sign for so many entries before the last one.
pub data Denotes (current : ℕ) : Bytes → ℕ → Type 0 where
  last : 0 < current → Denotes current (b'!' ∷ []) (current - 1)
  absolute :
      (d : ℕ) (ds : Bytes)
      → AreDigits (d ∷ ds)
      → value 0 (d ∷ ds) < 2 ^ 31
      → Denotes current (d ∷ ds) (value 0 (d ∷ ds))
  relative :
      (d : ℕ) (ds : Bytes) (n : ℕ)
      → AreDigits (d ∷ ds)
      → value 0 (d ∷ ds) ≡ suc n
      → suc n < current
      → Denotes current (b'-' ∷ (d ∷ ds)) (current - 1 - suc n)

digits-value :
    (ds : Bytes) (c : ℕ) (post : Bytes) (n : ℕ)
    → AreDigits ds
    → isdigit c ≡ false
    → digits (ds ++ (c ∷ post)) n ≡ value n ds
unfolding digits
digits-value [] c post n h e = rw e refl
digits-value (d ∷ ds) c post n (k, h) e = rw k (digits-value ds c post (n * 10 + (d - b'0')) h e)

not_digit : (c : ℕ) → in_reference c ≡ false → isdigit c ≡ false
unfolding in_reference
not_digit c e = ground (arith, e)

module _ (d : ℕ) (digit : isdigit d ≡ true) where
  digit_space : isspace d ≡ false
  unfolding isspace isdigit
  digit_space = ground (arith, digit)

  digit_sign : (c : ℕ) → c < b'0' → (d == c) ≡ false
  unfolding isdigit
  digit_sign c h = ground (arith, digit, h)

scan-absolute :
    (d : ℕ) (ds : Bytes) (c : ℕ) (post : Bytes)
    → AreDigits (d ∷ ds)
    → in_reference c ≡ false
    → scan (d ∷ (ds ++ (c ∷ post))) ≡ number (pos (value 0 (d ∷ ds)))
unfolding scan scan_digits
scan-absolute d ds c post (k, h) e =
    let number_of = digits-value ds c post (0 * 10 + (d - b'0')) h (not_digit c e) in
    rw (digit_space d k, digit_sign d k b'-' (omega arith), digit_sign d k b'+' (omega arith), k)
      (ap (λ n. number (pos n)) number_of)

scan-relative :
    (d : ℕ) (ds : Bytes) (n c : ℕ) (post : Bytes)
    → AreDigits (d ∷ ds)
    → value 0 (d ∷ ds) ≡ suc n
    → in_reference c ≡ false
    → scan (b'-' ∷ (d ∷ (ds ++ (c ∷ post)))) ≡ number (negsuc n)
unfolding scan scan_digits negated isspace
scan-relative d ds n c post (k, h) v e =
    let number_of = digits-value ds c post (0 * 10 + (d - b'0')) h (not_digit c e) in
    rw k (ap (λ m. number (negated m)) (number_of ∙ v))

-- A reference that another character ends is read as the index that it denotes.
pub reference-Denotes :
    (this : History) (tmp : ℤ) (r : Bytes) (index c : ℕ) (post : Bytes)
    → this.current_index < 2 ^ 32
    → Denotes this.current_index r index
    → in_reference c ≡ false
    → reference this tmp (r ++ (c ∷ post)) ≡ some index
unfolding reference unsigned
reference-Denotes this tmp _ _ c post small (last some_entry) e = ap some (omega arith)
reference-Denotes this tmp _ _ c post small (absolute d ds h v) e =
    let read = scan-absolute d ds c post h e in
    rw (digit_sign d h.0 b'!' (omega arith)) (rw read (ap some (omega (arith, v))))
reference-Denotes this tmp _ _ c post small (relative d ds n h v b) e =
    let read = scan-relative d ds n c post h v e in rw read (ap some (omega (arith, b, small)))

digits-in_reference : (ds : Bytes) → AreDigits ds → All (λ d. in_reference d ≡ true) ds
unfolding in_reference
digits-in_reference [] h = tt
digits-in_reference (d ∷ ds) (k, h) = (ground (arith, k), digits-in_reference ds h)

-- the characters of a reference are those that the expansion steps over
pub Denotes-in_reference :
    (current : ℕ) (r : Bytes) (index : ℕ)
    → Denotes current r index
    → All (λ d. in_reference d ≡ true) r
unfolding in_reference
Denotes-in_reference current _ _ (last some_entry) = (refl, tt)
Denotes-in_reference current _ _ (absolute d ds h v) = digits-in_reference (d ∷ ds) h
Denotes-in_reference current _ _ (relative d ds n h v b) = (refl, digits-in_reference (d ∷ ds) h)
