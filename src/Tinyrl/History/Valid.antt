-- ===== src/Tinyrl/History/Valid.antt =====
-- What holds of every history that the operations lead to.
use ucli.Base.{
  ℕ, zero, suc, ◌+◌, ◌%◌, ◌^◌, ◌≤◌, ◌<◌, true, false, not, ◌&&◌, List, [], ◌∷◌, ◌++◌, All,
  All-append, ◌==◌, length, take, drop, length-append, length-drop, Bool-cases, inl, inr, ◌≡◌, refl,
  sym, arith,
}
use mathlib.Core.Path.{subst}
use ucli.Lub.Ctype.{Bytes}
use ucli.Lub.Text.{same_text}
use ucli.Lub.Text.Same.{same_text_eq}
use ucli.Tinyrl.History.{Entry, History}
use ucli.Tinyrl.History.Added.{
  without, has_line, full, kept, grown, added, without_absent, length-without,
}

-- Any two entries of a list are related by `R`, the one in front first.
abbrev pub Pairwise : (Entry → Entry → Type 0) → List Entry → Type 0
Pairwise R [] = Unit
Pairwise R (x ∷ xs) = All (R x) xs × Pairwise R xs

-- A later entry has another line and a greater index.
abbrev pub IsOlder : Entry → Entry → Type 0
IsOlder x y = (same_text y.line x.line ≡ false) × (x.index < y.index)

-- The entries fit into the array and are within the limit, if there is one; they have different lines,
-- and indices that increase and are less than the next one.
abbrev pub IsHistory : History → Type 0
IsHistory this =
    (length this.entries ≤ this.size)
    × ((this.stifle ≡ 0 → ⊥) → length this.entries ≤ this.stifle)
    × Pairwise IsOlder this.entries
    × All (λ e. e.index < this.current_index) this.entries

-- Some entries of a list, in their order.
pub data Part : List Entry → List Entry → Type 0 where
  nothing : Part [] []
  skip : {xs ys : List Entry} (y : Entry) → Part xs ys → Part xs (y ∷ ys)
  keep : {xs ys : List Entry} (x : Entry) → Part xs ys → Part (x ∷ xs) (x ∷ ys)

All-Part : (P : Entry → Type 0) {xs ys : List Entry} → Part xs ys → All P ys → All P xs
All-Part P nothing h = tt
All-Part P (skip y p) (_, h) = All-Part P p h
All-Part P (keep x p) (hx, h) = (hx, All-Part P p h)

Pairwise-Part :
    (R : Entry → Entry → Type 0) {xs ys : List Entry} → Part xs ys → Pairwise R ys → Pairwise R xs
Pairwise-Part R nothing h = tt
Pairwise-Part R (skip y p) (_, h) = Pairwise-Part R p h
Pairwise-Part R (keep x p) (hx, h) = (All-Part (R x) p hx, Pairwise-Part R p h)

length-Part : {xs ys : List Entry} → Part xs ys → length xs ≤ length ys
length-Part nothing = omega arith
length-Part (skip y p) = let le = length-Part p in omega (arith, le)
length-Part (keep x p) = let le = length-Part p in omega (arith, le)

pub Part-refl : (xs : List Entry) → Part xs xs
Part-refl [] = nothing
Part-refl (x ∷ xs) = keep x (Part-refl xs)

pub drop-Part : (n : ℕ) (xs : List Entry) → Part (drop n xs) xs
drop-Part zero xs = Part-refl xs
drop-Part (suc n) [] = nothing
drop-Part (suc n) (x ∷ xs) = skip x (drop-Part n xs)

pub cut-Part : (i j : ℕ) (xs : List Entry) → i ≤ j → Part (take i xs ++ drop j xs) xs
cut-Part zero j xs h = drop-Part j xs
cut-Part (suc i) zero xs h = ground arith
cut-Part (suc i) (suc j) [] h = nothing
cut-Part (suc i) (suc j) (x ∷ xs) h = keep x (cut-Part i j xs (omega (arith, h)))

without-Part : (xs : List Entry) (line : Bytes) → Part (without xs line) xs
unfolding without
without-Part [] line = nothing
without-Part (x ∷ xs) line = elim (Bool-cases (same_text line x.line)) [
  | inl e ↦ rw e (skip x (Part-refl xs))
  | inr e ↦ rw e (keep x (without-Part xs line))
]

-- A history of some of the entries.
pub IsHistory-Part :
    (this : History) (xs : List Entry)
    → Part xs this.entries
    → IsHistory this
    → IsHistory (record this { entries = xs })
IsHistory-Part this xs p (fits, limit, older, below) =
    let le = length-Part p in
    (
      omega (arith, fits, le),
      (λ n. omega (arith, limit n, le)),
      Pairwise-Part IsOlder p older,
      All-Part (λ e. e.index < this.current_index) p below,
    )

differs :
    (line : Bytes) (x y : Entry)
    → same_text line x.line ≡ true
    → same_text y.line x.line ≡ false
    → same_text line y.line ≡ false
differs line x y e n = elim (Bool-cases (same_text line y.line)) [
  | inr d ↦ d
  | inl d ↦ (let l = same_text_eq line y.line d in let l' = same_text_eq line x.line e in cc)
]

All-differs :
    (line : Bytes) (x : Entry) (xs : List Entry)
    → same_text line x.line ≡ true
    → All (IsOlder x) xs
    → All (λ y. same_text line y.line ≡ false) xs
All-differs line x [] e h = tt
All-differs line x (y ∷ xs) e ((n, _), h) = (differs line x y e n, All-differs line x xs e h)

All-without :
    (line : Bytes) (xs : List Entry)
    → Pairwise IsOlder xs
    → All (λ y. same_text line y.line ≡ false) (without xs line)
unfolding without
All-without line [] h = tt
All-without line (x ∷ xs) (hx, h) = elim (Bool-cases (same_text line x.line)) [
  | inl e ↦ rw e (All-differs line x xs e hx)
  | inr e ↦ rw e (e, All-without line xs h)
]

Pairwise-last :
    (xs : List Entry) (y : Entry)
    → Pairwise IsOlder xs
    → All (λ x. IsOlder x y) xs
    → Pairwise IsOlder (xs ++ (y ∷ []))
Pairwise-last [] y h l = (tt, tt)
Pairwise-last (x ∷ xs) y (hx, h) (lx, l) =
    (All-append (IsOlder x) xs (y ∷ []) hx (lx, tt), Pairwise-last xs y h l)

All-both : (P Q : Entry → Type 0) (xs : List Entry) → All P xs → All Q xs → All (λ x. P x × Q x) xs
All-both P Q [] hp hq = tt
All-both P Q (x ∷ xs) (p, hp) (q, hq) = ((p, q), All-both P Q xs hp hq)

All-less :
    (m n : ℕ) (xs : List Entry) → m ≤ n → All (λ x. x.index < m) xs → All (λ x. x.index < n) xs
All-less m n [] le h = tt
All-less m n (x ∷ xs) le (lt, h) = (omega (arith, lt, le), All-less m n xs le h)

below_limit :
    (k n limit : ℕ)
    → (not (n == 0) && n == limit) ≡ false
    → k ≤ n
    → n ≤ limit
    → (limit ≡ 0 → ⊥)
    → k < limit
below_limit k n limit f le most ne = ground (arith, f, le, most, ne)

fewer_fits : (k n size g : ℕ) → k < n → n ≤ size → g ≡ size → k < g
fewer_fits k n size g lt le e = omega (arith, lt, le, e)

kept_fits : (k n g : ℕ) → k ≤ n → n < g → k < g
kept_fits k n g le lt = omega (arith, le, lt)

module _ (this : History) (line : Bytes) where
  kept-Part : Part (kept this line) this.entries
  kept-Part = elim (Bool-cases (has_line this.entries line)) [
    | inl e ↦ rw e (without-Part this.entries line)
    | inr e ↦ elim (Bool-cases (full this)) [
      | inl f ↦ rw (e, f) (drop-Part 1 this.entries)
      | inr f ↦ rw (e, f) (Part-refl this.entries)
    ]
  ]

  kept-without : Part (kept this line) (without this.entries line)
  kept-without = elim (Bool-cases (has_line this.entries line)) [
    | inl e ↦ rw e (Part-refl _)
    | inr e ↦
        subst (λ xs. Part (kept this line) xs) (sym (without_absent this.entries line e)) kept-Part
  ]

  length-kept : (full this ≡ true → length (kept this line) < length this.entries)
  length-kept f = elim (Bool-cases (has_line this.entries line)) [
    | inl e ↦ rw e (let eq = (length-without this.entries line).1 e in omega (arith, eq))
    | inr e ↦ rw (e, f) (rw length-drop (ground (arith, f)))
  ]

  grown-full : full this ≡ true → grown this ≡ this.size
  grown-full f = rw f refl

  grown_more :
      length this.entries ≤ this.size → full this ≡ false → length this.entries < grown this
  grown_more fits f = rw f (ground (arith, fits))

  length-kept_fits : length this.entries ≤ this.size → length (kept this line) < grown this
  length-kept_fits fits = elim (Bool-cases (full this)) [
    | inl f ↦ fewer_fits _ _ _ _ (length-kept f) fits (grown-full f)
    | inr f ↦ kept_fits _ _ _ (length-Part kept-Part) (grown_more fits f)
  ]

  length-kept_limit :
      ((this.stifle ≡ 0 → ⊥) → length this.entries ≤ this.stifle)
      → (this.stifle ≡ 0 → ⊥)
      → length (kept this line) < this.stifle
  length-kept_limit limit n =
      let le = length-Part kept-Part in
      let most = limit n in
      elim (Bool-cases (full this)) [
        | inl f ↦ (let lt = length-kept f in omega (arith, lt, most))
        | inr f ↦
            below_limit (length (kept this line)) (length this.entries) this.stifle f le most n
      ]

-- A line that is added to such a history gives such a history, as long as the indices do not wrap
-- around.
pub added-IsHistory :
    (this : History) (line : Bytes)
    → IsHistory this
    → this.current_index + 1 < 2 ^ 32
    → IsHistory (added this line)
added-IsHistory this line (fits, limit, older, below) small =
    let new : Entry = record { line = line; index = this.current_index } in
    let next : (this.current_index + 1) % 2 ^ 32 ≡ this.current_index + 1 = omega (arith, small) in
    let kept_below = All-Part (λ e. e.index < this.current_index) (kept-Part this line) below in
    (
      rw length-append (let lt = length-kept_fits this line fits in omega (arith, lt)),
      (λ n. rw length-append (let lt = length-kept_limit this line limit n in omega (arith, lt))),
      Pairwise-last (kept this line) new (Pairwise-Part IsOlder (kept-Part this line) older) (
          All-both (λ x. same_text line x.line ≡ false) (λ x. x.index < this.current_index)
            (kept this line)
            (All-Part _ (kept-without this line) (All-without line this.entries older)) kept_below),
      rw next (
          All-append _ (kept this line) (new ∷ [])
            (All-less this.current_index (this.current_index + 1) (kept this line) (omega arith)
              kept_below)
            (omega arith, tt)),
    )
