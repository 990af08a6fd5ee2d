-- ===== src/Lub/Argv/Count.antt =====
-- Both loops over a line end, and `lub_argv_init` fills exactly the slots that it allocates.
use ucli.Base.{
  ℕ, zero, suc, ◌+◌, ◌≤◌, ◌<◌, Bool, false, [], ◌∷◌, length, drop, length-drop, List-cases, ◌≡◌,
  inl, inr, refl, arith,
}
use ucli.Lub.Ctype.{Bytes, isspace}
use ucli.Lub.Argv.{
  skip_space, word_at, word_end, starts_quote, nextword, mark, count_words, fill_step, fill,
  argv_new,
}

skip_space_offset : (s : Bytes) (a b : ℕ) → (skip_space s a).0 ≡ (skip_space s b).0
unfolding skip_space
skip_space_offset [] a b = refl
skip_space_offset (c ∷ s) a b = ground (arith, skip_space_offset s (a + 1) (b + 1))

length-skip_space : (s : Bytes) (a : ℕ) → length (skip_space s a).0 ≤ length s
unfolding skip_space
length-skip_space [] a = omega arith
length-skip_space (c ∷ s) a = ground (arith, length-skip_space s (a + 1))

-- what is left begins with no white space
skip_space_head : (s : Bytes) (a c : ℕ) (r : Bytes) → (skip_space s a).0 ≡ c ∷ r → isspace c ≡ false
unfolding skip_space
skip_space_head [] a c r h = cc
skip_space_head (d ∷ s) a c r h = ground (arith, skip_space_head s (a + 1) c r)

word_end-le : (q : Bool) (s : Bytes) → (word_end q s).0 + mark (word_end q s).1 ≤ length s
unfolding word_end
word_end-le q [] = omega arith
word_end-le q (c ∷ s) = ground (arith, word_end-le q s)

-- The position behind a word, and behind its quotation mark, lies within the line.
nextword_in_line :
    (s : Bytes) (a : ℕ)
    → (nextword s a).len + mark (nextword s a).quoted ≤ length (nextword s a).word
unfolding nextword word_at
nextword_in_line s a = word_end-le _ _

nextword_offset :
    (s : Bytes) (a b : ℕ)
    → ((nextword s a).word ≡ (nextword s b).word)
      × ((nextword s a).len ≡ (nextword s b).len)
      × ((nextword s a).quoted ≡ (nextword s b).quoted)
unfolding nextword word_at
nextword_offset s a b = let e = skip_space_offset s a b in (rw e refl, rw e refl, rw e refl)

-- a word that is not the end of the line takes up some of it
word_at_progress :
    (s : Bytes) (a c : ℕ) (r : Bytes)
    → ((d : ℕ) (t : Bytes) → s ≡ d ∷ t → isspace d ≡ false)
    → (word_at s a).word ≡ c ∷ r
    → length (drop ((word_at s a).len + mark (word_at s a).quoted) (word_at s a).word) < length s
unfolding word_at word_end starts_quote
word_at_progress [] a c r solid h = cc
word_at_progress (d ∷ t) a c r solid h =
    let w = word_at (d ∷ t) a in
    ground (arith, solid d t refl, length-drop (w.len + mark w.quoted) w.word)

nextword_progress :
    (s : Bytes) (a c : ℕ) (r : Bytes)
    → (nextword s a).word ≡ c ∷ r
    → length (drop ((nextword s a).len + mark (nextword s a).quoted) (nextword s a).word) < length s
unfolding nextword
nextword_progress s a c r h =
    let shorter =
      word_at_progress (skip_space s a).0 (skip_space s a).1 c r (skip_space_head s a) h in
    omega (arith, length-skip_space s a, shorter)

-- With fuel above the length of the line, more fuel changes nothing.
fill_fuel : (f g : ℕ) (s : Bytes) (a : ℕ) → length s < f → length s < g → fill f s a ≡ fill g s a
unfolding fill fill_step
fill_fuel zero g s a p q = absurd (omega arith)
fill_fuel (suc f) zero s a p q = absurd (omega arith)
fill_fuel (suc f) (suc g) s a p q = elim (List-cases (nextword s a).word) [
  | inl e ↦ ground arith
  | inr (c, r, e) ↦
      let less = nextword_progress s a c r e in
      ground (
        arith,
        fill_fuel f g (drop ((nextword s a).len + mark (nextword s a).quoted) (nextword s a).word) (
            (nextword s a).offset
            + (nextword s a).len
            + (mark (nextword s a).quoted + mark (nextword s a).quoted)),
      )
]

-- With fuel above the length of the line, the loop of `lub_argv_init` runs as often as that of
-- `lub_argv_wordcount`, whatever the offsets are.
length-fill : (f : ℕ) (s : Bytes) (a b : ℕ) → length (fill f s a) ≡ count_words f s b
unfolding fill fill_step count_words
length-fill zero s a b = refl
length-fill (suc f) s a b =
    let (w, l, q) = nextword_offset s a b in
    elim (List-cases (nextword s b).word) [
      | inl e ↦ ground arith
      | inr (c, r, e) ↦ ground (
        arith,
        length-fill f (drop ((nextword s a).len + mark (nextword s a).quoted) (nextword s a).word)
            ((nextword s a).offset
              + (nextword s a).len
              + (mark (nextword s a).quoted + mark (nextword s a).quoted))
            (nextword s b).offset,
      )
    ]

-- `lub_argv_init` writes exactly the slots that `lub_argv_wordcount` made room for.
pub length-argv_new :
    (line : Bytes) (offset : ℕ) → length (argv_new line offset).argv ≡ (argv_new line offset).argc
unfolding argv_new
length-argv_new line offset = length-fill (suc (length line)) line offset 0
