-- ===== src/Cli/Ptype/Words.antt =====
-- The words that complete a text, for a type whose items are written as `name(value)`.
use ucli.Base.{
  ℕ, zero, suc, ◌+◌, ◌-◌, ◌<◌, Bool, true, false, List, [], ◌∷◌, Option, none, some, ◌==◌,
  if◌then◌else◌, length, Bool-cases, ◌≡◌, ◌&&◌, inl, inr, refl, sym, ap, ◌∙◌, arith,
}
use ucli.Base.Run.{Run, ok, abort, ◌>>=◌}
use mathlib.Core.Option
use ucli.Lub.Ctype.{Bytes, tolower}
use ucli.Lub.Text.{nocase_prefix, nocasestr}
use ucli.Lub.Argv.{get_count}
use ucli.Cli.Ptype.{Ptype, select, validate}
use ucli.Cli.Ptype.Pattern.{
  is_start, take_word, next_word, by_method, answered, tried, word_generator,
}
use ucli.Cli.Ptype.Select.{HasItems, get_name-item}

-- The name begins with the text, in upper or lower case.
abbrev begins : Bytes → Bytes → Bool
begins [] name = true
begins (c ∷ text) [] = false
begins (c ∷ text) (d ∷ name) = tolower c == tolower d && begins text name

-- An empty name completes nothing.
abbrev pub completes_to : Bytes → Bytes → Bool
completes_to text [] = false
completes_to text (d ∷ name) = begins text (d ∷ name)

nocase_prefix-begins : (name text : Bytes) → nocase_prefix name text ≡ begins text name
unfolding nocase_prefix
nocase_prefix-begins name [] = refl
nocase_prefix-begins [] (c ∷ text) = refl
nocase_prefix-begins (d ∷ name) (c ∷ text) = elim (Bool-cases (tolower c == tolower d)) [
  | inl e ↦ rw (e, nocase_prefix-begins name text) refl
  | inr e ↦ rw e refl
]

is_start-suc : (o : Option ℕ) → is_start (Option.map suc o) ≡ false
unfolding is_start
is_start-suc none = refl
is_start-suc (some i) = ground arith

is_start-completes_to :
    (name text : Bytes) → is_start (nocasestr name text) ≡ completes_to text name
unfolding nocasestr is_start
is_start-completes_to [] text = refl
is_start-completes_to (d ∷ name) text =
    let same = nocase_prefix-begins (d ∷ name) text in
    elim (Bool-cases (nocase_prefix (d ∷ name) text)) [
      | inl e ↦ rw (e, nocasestr) (sym e ∙ same)
      | inr e ↦ rw (e, nocasestr) (is_start-suc (nocasestr name text) ∙ sym e ∙ same)
    ]

-- The names that are not empty and begin with the text, in upper or lower case, in the order of the items.
unfoldable pub begun : Bytes → List (Bytes × Bytes) → List Bytes
begun text [] = []
begun text ((name, value) ∷ rest) =
    let later = begun text rest in
    elim (completes_to text name) [ true ↦ name ∷ later | false ↦ later ]

begun-first :
    (text name value : Bytes) (rest : List (Bytes × Bytes))
    → is_start (nocasestr name text) ≡ true
    → begun text ((name, value) ∷ rest) ≡ name ∷ begun text rest
unfolding begun
begun-first text name value rest t =
    let e = sym (is_start-completes_to name text) ∙ t in rw (e, begun) refl

begun-other :
    (text name value : Bytes) (rest : List (Bytes × Bytes))
    → is_start (nocasestr name text) ≡ false
    → begun text ((name, value) ∷ rest) ≡ begun text rest
unfolding begun
begun-other text name value rest f =
    let e = sym (is_start-completes_to name text) ∙ f in rw (e, begun) refl

-- what follows an answer of the generator
follow : (Ptype → Run (List Bytes)) → Option Bytes × Ptype → Run (List Bytes)
follow go_on (none, this) = ok []
follow go_on (some word, this) = do rest ← go_on this; ok (word ∷ rest)

-- The words that `tinyrl_completion` gets by calling the generator for state 0, 1, 2 and so on, until it
-- answers NULL; the first argument is fuel.
unfoldable pub all_words : (Bytes → Bytes → Bool) → ℕ → Ptype → Bytes → ℕ → Run (List Bytes)
unfolding word_generator follow
all_words regexec zero this text state = abort
all_words regexec (suc n) this text state =
    word_generator regexec this text state
    >>= follow (λ this'. all_words regexec n this' text (state + 1))

module _ (regexec : Bytes → Bytes → Bool) (base : Ptype) (is_select : base.method ≡ select)
    (text : Bytes) where
  abbrev at : ℕ → Ptype
  at i = record base { last_name = i }

  generator_later :
      (i state : ℕ)
      → (state == 0) ≡ false
      → word_generator regexec (at i) text state ≡ next_word (get_count base.items - i) (at i) text
  unfolding word_generator tried answered by_method
  generator_later i state e =
      rw (e, tried)
        (ap (by_method (at i) text state) is_select
          ∙ ap
              (λ b.
                let this = if b then at 0 else at i in
                next_word (get_count this.items - this.last_name) this text)
              e)

  -- What the search for the next word is followed by, where the words of all shorter rests are known.
  next_word-follow :
      (go_on : Ptype → Run (List Bytes)) (i : ℕ) (rest : List (Bytes × Bytes))
      → HasItems base.items i rest
      → get_count base.items - i ≡ length rest
      → ((j : ℕ) (shorter : List (Bytes × Bytes))
          → HasItems base.items j shorter
          → get_count base.items - j ≡ length shorter
          → length shorter < length rest
          → go_on (at j) ≡ ok (begun text shorter))
      → next_word (length rest) (at i) text >>= follow go_on ≡ ok (begun text rest)
  unfolding next_word follow begun
  next_word-follow go_on i [] h l known = refl
  next_word-follow go_on i ((name, value) ∷ rest) ((e, item), h) l known =
      let got = get_name-item base.items i (name, value) e item in
      let left : get_count base.items - (i + 1) ≡ length rest = omega (arith, l) in
      elim (Bool-cases (is_start (nocasestr name text))) [
        | inl t ↦
            rw (begun-first text name value rest t, got, next_word)
              (rw (t, take_word) (rw (known (i + 1) rest h left (omega arith)) refl))
        | inr f ↦
            rw (begun-other text name value rest f, got, next_word)
              (rw (f, take_word)
                (next_word-follow go_on (i + 1) rest h left
                  (λ j shorter hs ls lt. known j shorter hs ls (omega (arith, lt)))))
      ]

  all_words-later :
      (n i state : ℕ) (rest : List (Bytes × Bytes))
      → (state == 0) ≡ false
      → HasItems base.items i rest
      → get_count base.items - i ≡ length rest
      → length rest < n
      → all_words regexec n (at i) text state ≡ ok (begun text rest)
  unfolding all_words
  all_words-later zero i state rest e h l b = ground arith
  all_words-later (suc n) i state rest e h l b =
      ap (λ r. r >>= follow (λ this. all_words regexec n this text (state + 1)))
        (generator_later i state e ∙ ap (λ k. next_word k (at i) text) l)
      ∙ next_word-follow (λ this. all_words regexec n this text (state + 1)) i rest h l
          (λ j shorter hs ls lt.
            all_words-later n j (state + 1) shorter (ground arith) hs ls (omega (arith, lt, b)))

  -- A type of the method `select` whose items are each of the form name(value): if the text is not
  -- itself the name of an item, the words that `ucli_ptype_word_generator` gives for state 0, 1, 2
  -- and so on, until it gives NULL, are the names that are not empty and begin with the text, in upper
  -- or lower case, in the order of the items; one more call than there are items is enough.
  pub all_words-begun :
      (items : List (Bytes × Bytes))
      → HasItems base.items 0 items
      → get_count base.items ≡ length items
      → validate regexec base text ≡ ok none
      → all_words regexec (suc (length items)) base text 0 ≡ ok (begun text items)
  unfolding all_words word_generator tried answered by_method
  all_words-begun items h l v =
      let left : get_count base.items - 0 ≡ length items = omega (arith, l) in
      let go_on = λ (this : Ptype). all_words regexec (length items) this text (0 + 1) in
      ap (λ r. (r >>= answered base text 0) >>= follow go_on) v
      ∙ ap (λ m. by_method base text 0 m >>= follow go_on) is_select
      ∙ ap (λ k. next_word k (at 0) text >>= follow go_on) left
      ∙ next_word-follow go_on 0 items h left
          (λ j shorter hs ls lt. all_words-later (length items) j (0 + 1) shorter refl hs ls lt)
