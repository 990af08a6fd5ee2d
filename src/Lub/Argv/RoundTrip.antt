-- ===== src/Lub/Argv/RoundTrip.antt =====
-- A line that was put together from words is split into the same words.
use ucli.Base.{
  ℕ, zero, suc, ◌+◌, ◌<◌, Bool, true, false, not, ◌&&◌, List, [], ◌∷◌, ◌++◌, some, length,
  length-append, take-length, All, append_assoc, ◌==◌, if◌then◌else◌, all, drop-append, ◌≡◌, ◌≢◌,
  ◌⊎◌, inl, inr, refl, ap, sym, ◌∙◌, arith,
}
use ucli.Lub.Ctype.{Bytes, isspace}
use ucli.Lub.Text.{dupn}
use ucli.Lub.Argv.{
  Arg, NextWord, skip_space, word_at, word_end, starts_quote, nextword, mark, fill_step, fill,
  wordcount, argv_new,
}
use ucli.Lub.Argv.Count.{length-argv_new}

-- A word as a user types it: bare, or between quotation marks.
pub record Item : Type 0 where
  pub quoted : Bool
  pub text : Bytes

-- A byte that does not end the word.
abbrev inside : Bool → ℕ → Bool
inside quoted c = not (c == b'"') && (if quoted then true else not (isspace c))

abbrev pub IsItem : Item → Type 0
IsItem it = (all (inside it.quoted) it.text ≡ true) × (it.quoted ≡ false → it.text ≢ [])

abbrev pub print_item : Item → Bytes
print_item it = if it.quoted then b'"' ∷ (it.text ++ b'"' ∷ []) else it.text

-- The words of a line, with one space between two of them.
abbrev print_rest : List Item → Bytes
print_rest [] = []
print_rest (it ∷ its) = b' ' ∷ (print_item it ++ print_rest its)

abbrev pub print_items : List Item → Bytes
print_items [] = []
print_items (it ∷ its) = print_item it ++ print_rest its

-- The words with their offsets in that line, which starts at `offset`.
abbrev pub items_at : ℕ → List Item → List Arg
items_at offset [] = []
items_at offset (it ∷ its) =
    (record { arg = some it.text; offset = offset; quoted = it.quoted })
    ∷ items_at (offset + length (print_item it) + 1) its

-- What may stand behind a word.
abbrev Follows : Bytes → Type 0
Follows rest = (rest ≡ []) ⊎ ((r : Bytes) × (rest ≡ b' ' ∷ r))

Follows-print_rest : (its : List Item) → Follows (print_rest its)
Follows-print_rest [] = inl refl
Follows-print_rest (it ∷ its) = inr (_, refl)

word_end_quoted :
    (text rest : Bytes)
    → all (inside true) text ≡ true
    → word_end true (text ++ b'"' ∷ rest) ≡ (length text, true)
unfolding word_end
word_end_quoted [] rest h = refl
word_end_quoted (c ∷ text) rest h = ground (arith, word_end_quoted text rest)

word_end_bare :
    (text rest : Bytes)
    → all (inside false) text ≡ true
    → Follows rest
    → word_end false (text ++ rest) ≡ (length text, false)
unfolding word_end isspace
word_end_bare [] [] h f = refl
word_end_bare [] (c ∷ rest) h f = ground arith
word_end_bare (c ∷ text) rest h f = ground (arith, word_end_bare text rest)

-- what follows the text in the line
abbrev behind : Bool → Bytes → Bytes
behind quoted rest = if quoted then b'"' ∷ rest else rest

-- `lub_argv_nextword` at the start of a printed word, which has `rest` behind it.
abbrev word_of : Bool → Bytes → Bytes → ℕ → NextWord
word_of q text rest a = record {
  word = text ++ behind q rest;
  len = length text;
  offset = a;
  quoted = q;
}

nextword_quoted :
    (text rest : Bytes) (a : ℕ)
    → all (inside true) text ≡ true
    → nextword (b'"' ∷ (text ++ b'"' ∷ rest)) a ≡ word_of true text rest a
unfolding nextword word_at starts_quote skip_space isspace
nextword_quoted text rest a h = rw (word_end_quoted text rest h)

nextword_bare :
    (c : ℕ) (text rest : Bytes) (a : ℕ)
    → all (inside false) (c ∷ text) ≡ true
    → Follows rest
    → nextword (c ∷ (text ++ rest)) a ≡ word_of false (c ∷ text) rest a
unfolding nextword word_at starts_quote skip_space
nextword_bare c text rest a h f = ground (arith, word_end_bare (c ∷ text) rest h f)

nextword-print_item :
    (q : Bool) (text rest : Bytes) (a : ℕ)
    → IsItem (record { quoted = q; text = text })
    → Follows rest
    → nextword (print_item (record { quoted = q; text = text }) ++ rest) a ≡ word_of q text rest a
nextword-print_item true text rest a h f =
    rw (append_assoc text (b'"' ∷ []) rest) (nextword_quoted text rest a h.0)
nextword-print_item false [] rest a h f = absurd (h.1 refl refl)
nextword-print_item false (c ∷ text) rest a h f = nextword_bare c text rest a h.0 f

-- One round of the loop at such a word.
fill_step_word :
    (next : Bytes → ℕ → List Arg) (at : ℕ) (q : Bool) (text rest : Bytes)
    → (q ≡ false → text ≢ [])
    → fill_step next (word_of q text rest at)
      ≡ (record { arg = some text; offset = at; quoted = q })
        ∷ next rest (at + length text + (mark q + mark q))
unfolding fill_step dupn
fill_step_word next at false [] rest ne = absurd (ne refl refl)
fill_step_word next at true [] rest ne = refl
fill_step_word next at true (c ∷ t) rest ne = rw (take-length, drop-append (c ∷ t) (b'"' ∷ rest) 1)
fill_step_word next at false (c ∷ t) rest ne = rw (take-length, drop-append (c ∷ t) rest 0)

length-print_item :
    (q : Bool) (text : Bytes)
    → length (print_item (record { quoted = q; text = text })) ≡ length text + (mark q + mark q)
length-print_item true text = omega (arith, length-append text (b'"' ∷ []))
length-print_item false text = omega arith

-- A word, and then the rest by `next`.
fill_step-print_item :
    (next : Bytes → ℕ → List Arg) (it : Item) (rest : Bytes) (a : ℕ)
    → IsItem it
    → Follows rest
    → fill_step next (nextword (print_item it ++ rest) a)
      ≡ (record { arg = some it.text; offset = a; quoted = it.quoted })
        ∷ next rest (a + length (print_item it))
fill_step-print_item next it rest a h f =
    let e : a + length it.text + (mark it.quoted + mark it.quoted) ≡ a + length (print_item it) =
      omega (arith, length-print_item it.quoted it.text) in
    rw (nextword-print_item it.quoted it.text rest a h f) (
      fill_step_word next a it.quoted it.text rest h.1
      ∙ ap (λ n. (record { arg = some it.text; offset = a; quoted = it.quoted }) ∷ next rest n) e)

nextword_space : (s : Bytes) (a : ℕ) → nextword (b' ' ∷ s) a ≡ nextword s (a + 1)
unfolding nextword skip_space isspace
nextword_space s a = refl

nextword_end : (a : ℕ) → nextword [] a ≡ word_of false [] [] a
unfolding nextword word_at skip_space starts_quote word_end
nextword_end a = refl

fill-print_rest :
    (f : ℕ) (its : List Item) (a : ℕ)
    → All IsItem its
    → length (print_rest its) < f
    → fill f (print_rest its) a ≡ items_at (a + 1) its
unfolding fill
fill-print_rest zero its a h lt = elim lt [ ]
fill-print_rest (suc f) [] a h lt = rw nextword_end (unfold fill_step in refl)
fill-print_rest (suc f) (it ∷ its) a (h, hs) lt =
    let shorter = length-append (print_item it) (print_rest its) in
    rw nextword_space (
      fill_step-print_item (fill f) it (print_rest its) (a + 1) h (Follows-print_rest its)
      ∙ ap (λ r. (record { arg = some it.text; offset = a + 1; quoted = it.quoted }) ∷ r)
          (fill-print_rest f its (a + 1 + length (print_item it)) hs (omega arith)))

print_item-pos : (it : Item) → IsItem it → 0 < length (print_item it)
print_item-pos it h = text_pos it.quoted it.text h
  where
    text_pos :
        (q : Bool) (text : Bytes)
        → IsItem (record { quoted = q; text = text })
        → 0 < length (print_item (record { quoted = q; text = text }))
    text_pos true text h = omega arith
    text_pos false [] h = absurd (h.1 refl refl)
    text_pos false (c ∷ text) h = omega arith

fill-print_items :
    (f : ℕ) (its : List Item) (a : ℕ)
    → All IsItem its
    → length (print_items its) < f
    → fill f (print_items its) a ≡ items_at a its
unfolding fill
fill-print_items zero its a h lt = elim lt [ ]
fill-print_items (suc f) [] a h lt = rw nextword_end (unfold fill_step in refl)
fill-print_items (suc f) (it ∷ its) a (h, hs) lt =
    let total = length-append (print_item it) (print_rest its) in
    let some_text = print_item-pos it h in
    fill_step-print_item (fill f) it (print_rest its) a h (Follows-print_rest its)
    ∙ ap (λ r. (record { arg = some it.text; offset = a; quoted = it.quoted }) ∷ r)
        (fill-print_rest f its (a + length (print_item it)) hs (omega arith))

length-items_at : (its : List Item) (a : ℕ) → length (items_at a its) ≡ length its
length-items_at [] a = refl
length-items_at (it ∷ its) a = ap suc (length-items_at its _)

-- A line put together from words, bare or quoted, with one space between two of them, is split into
-- the same words, in order, each with its quoting and with the offset at which it stands.
pub argv_new-print_items :
    (its : List Item) (offset : ℕ)
    → All IsItem its
    → argv_new (print_items its) offset ≡ record { argc = length its; argv = items_at offset its }
unfolding argv_new
argv_new-print_items its offset h =
    let line = print_items its in
    let words = fill-print_items (suc (length line)) its offset h (omega arith) in
    let count : wordcount line ≡ length its =
      sym (length-argv_new line offset) ∙ ap length words ∙ length-items_at its offset in
    λ i. record { argc = count i; argv = words i }
