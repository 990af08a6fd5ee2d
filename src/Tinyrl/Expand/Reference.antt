-- ===== src/Tinyrl/Expand/Reference.antt =====
-- What history expansion makes of a line.
use ucli.Base.{
  ℕ, suc, ◌+◌, true, false, [], ◌∷◌, ◌++◌, Option, none, some, All, ltb, ◌==◌, if◌then◌else◌,
  length, drop, get_elem?, ◌<◌, ◌^◌, take_all, take-length, drop-append, length-append, append-nil,
  Bool-cases, inl, inr, ◌≡◌, refl, sym, ◌∙◌, ap, arith,
}
use ucli.Base.Int.{ℤ}
use ucli.Base.Run.{ok}
use ucli.Lub.Ctype.{Bytes}
use ucli.Lub.Text.{catn, cat, text_of}
use ucli.Tinyrl.History.{History, Entry, get}
use ucli.Tinyrl.History.Valid.{IsHistory}
use ucli.Tinyrl.History.Lookup.{get-get_elem?}
use ucli.Tinyrl.Expand.Numbers.{Denotes, reference-Denotes, Denotes-in_reference}
use ucli.Tinyrl.Expand.{
  Expansion, expand, expand_from, reference, in_reference, strspn, result, plain, substituted,
}

-- There is no `!` in the text.
abbrev pub IsPlain : Bytes → Type 0
IsPlain s = All (λ c. (c == b'!') ≡ false) s

catn_all :
    (buffer : Option Bytes) (t : Bytes)
    → catn buffer (some t) (length t) ≡ some (text_of buffer ++ t)
unfolding catn
catn_all buffer t =
    let whole : ltb (length t) (length t) ≡ false = ground arith in
    rw whole (ap (λ u. some (text_of buffer ++ u)) (take_all t))

cat_all : (buffer : Option Bytes) (t : Bytes) → cat buffer (some t) ≡ some (text_of buffer ++ t)
unfolding cat
cat_all buffer t = catn_all buffer t

catn_front : (pre t : Bytes) → catn none (some (pre ++ t)) (length pre) ≡ some pre
unfolding catn
catn_front pre t = elim (Bool-cases (ltb (length pre) (length (pre ++ t)))) [
  | inl e ↦ rw e (ap some (take-length pre t))
  | inr e ↦
      let same : length (pre ++ t) ≡ length pre =
        let total = length-append pre t in ground (arith, e, total) in
      rw e (rw same (ap some (take-length pre t)))
]

strspn_lem :
    (r : Bytes) (c : ℕ) (post : Bytes)
    → All (λ d. in_reference d ≡ true) r
    → in_reference c ≡ false
    → strspn (r ++ (c ∷ post)) ≡ length r
unfolding strspn
strspn_lem [] c post h e = rw e refl
strspn_lem (d ∷ r) c post (k, h) e = rw k (ap suc (strspn_lem r c post h e))

plain_front :
    (pre q : Bytes) (n : ℕ)
    → n ≡ length pre
    → text_of (if ltb 0 n then catn none (some (pre ++ q)) n else none) ≡ pre
plain_front [] q n e = let empty : ltb 0 n ≡ false = ground (arith, e) in rw empty refl
plain_front (c ∷ pre) q n e =
    let more : ltb 0 n ≡ true = ground (arith, e) in
    rw more (
      ap (λ m. text_of (catn none (some ((c ∷ pre) ++ q)) m)) e
      ∙ ap text_of (catn_front (c ∷ pre) q))

-- the text that an expansion ends with
ending :
    (pre r : Bytes) (c : ℕ) (post line : Bytes)
    → catn
        (cat
          (plain (record {
            start = pre ++ (r ++ (c ∷ post));
            len = 0 + length pre;
            buffer = none;
            expanded = false;
          }))
          (some line))
        (some (drop (length r) (r ++ (c ∷ post))))
        (1 + length post)
      ≡ some ((pre ++ line) ++ (c ∷ post))
ending pre r c post line =
    let front = plain_front pre (r ++ (c ∷ post)) (0 + length pre) (omega arith) in
    let rest : drop (length r) (r ++ (c ∷ post)) ≡ c ∷ post =
      ap (λ n. drop n (r ++ (c ∷ post))) (omega arith) ∙ drop-append r (c ∷ post) 0 in
    let joined =
      cat_all
        (plain (record {
          start = pre ++ (r ++ (c ∷ post));
          len = 0 + length pre;
          buffer = none;
          expanded = false;
        }))
        line
      ∙ ap (λ u. some (u ++ line)) front in
    let all : 1 + length post ≡ length (c ∷ post) = omega arith in
    rw (rest, joined, all) (catn_all (some (pre ++ line)) (c ∷ post))

pling : in_reference b'!' ≡ true
unfolding in_reference
pling = refl

module _ (history : History) (tmp : ℤ) where
  over_plain :
      (pre q : Bytes) (this : Expansion)
      → IsPlain pre
      → expand_from history tmp (pre ++ q) 0 this
        ≡ expand_from history tmp q 0 (record this { len = this.len + length pre })
  unfolding expand_from
  over_plain [] q this h =
      ap (λ n. expand_from history tmp q 0 (record this { len = n })) (omega arith)
  over_plain (c ∷ pre) q this (k, h) =
      rw (k, expand_from)
        (over_plain pre q (record this { len = this.len + 1 }) h
          ∙ ap (λ n. expand_from history tmp q 0 (record this { len = n })) (omega arith))

  over_reference :
      (r : Bytes) (c : ℕ) (post : Bytes) (this : Expansion)
      → expand_from history tmp (r ++ (c ∷ post)) (suc (length r)) this
        ≡ expand_from history tmp post 0 this
  unfolding expand_from
  over_reference [] c post this = refl
  over_reference (d ∷ r) c post this = over_reference r c post this

  -- plain text to the end of the line
  to_result :
      (post : Bytes) (this : Expansion)
      → IsPlain post
      → expand_from history tmp post 0 this
        ≡ ok (result (record this { len = this.len + length post }))
  unfolding expand_from
  to_result post this h =
      ap (λ t. expand_from history tmp t 0 this) (sym (append-nil post)) ∙ over_plain post [] this h

  at_reference :
      (q : Bytes) (offset : ℕ) (this : Expansion)
      → reference history tmp q ≡ some offset
      → expand_from history tmp (b'!' ∷ q) 0 this
        ≡ expand_from history tmp q
            (strspn (b'!' ∷ q))
            (substituted this (b'!' ∷ q) (strspn (b'!' ∷ q)) (get history offset))
  unfolding expand_from
  at_reference q offset this e = rw (e, expand_from) refl

  -- A line without an exclamation mark is its own expansion, and it counts as not expanded.
  expand_plain : (s : Bytes) → IsPlain s → expand history tmp s ≡ ok (false, some s)
  unfolding expand
  expand_plain s h =
      to_result s (record { start = s; len = 0; buffer = none; expanded = false }) h
      ∙ ap (λ b. ok (false, b)) (ap (λ n. catn none (some s) n) (omega arith) ∙ catn_all none s)

  replaces_at :
      (pre r : Bytes) (c : ℕ) (post : Bytes) (offset : ℕ) (found : Entry)
      → IsPlain pre
      → All (λ d. in_reference d ≡ true) r
      → in_reference c ≡ false
      → IsPlain post
      → reference history tmp (r ++ (c ∷ post)) ≡ some offset
      → get history offset ≡ some found
      → expand history tmp (pre ++ (b'!' ∷ (r ++ (c ∷ post))))
        ≡ ok (true, some ((pre ++ found.line) ++ (c ∷ post)))
  unfolding expand
  replaces_at pre r c post offset found h k e h' ref there =
      let rest = r ++ (c ∷ post) in
      let string = pre ++ (b'!' ∷ rest) in
      let begun : Expansion = record { start = string; len = 0; buffer = none; expanded = false } in
      let reached : Expansion = record begun { len = 0 + length pre } in
      let skip : strspn (b'!' ∷ rest) ≡ length (b'!' ∷ r) =
        strspn_lem (b'!' ∷ r) c post (pling, k) e in
      let replaced = substituted reached (b'!' ∷ rest) (length (b'!' ∷ r)) (some found) in
      over_plain pre (b'!' ∷ rest) begun h
      ∙ at_reference rest offset reached ref
      ∙ ap
          (λ n.
            expand_from history tmp rest n
              (substituted reached (b'!' ∷ rest) n (get history offset)))
          skip
      ∙ ap
          (λ o.
            expand_from history tmp rest (suc (length r))
              (substituted reached (b'!' ∷ rest) (suc (length r)) o))
          there
      ∙ over_reference r c post replaced
      ∙ to_result post replaced h'
      ∙ ap (λ b. ok (true, b)) (ending pre (b'!' ∷ r) c post found.line)

  -- `!!`, `!N` and `!-N`, with plain text in front of it and some behind it, is replaced by the line of the
  -- entry that it denotes, and the line counts as expanded: `!!` denotes the entry whose index is one
  -- below the next index of the history, `!N` the entry with the index N, below 2 ^ 31, and `!-N` the one
  -- whose index is N less than that of `!!`, where N is not zero. The history keeps its entries in order.
  -- The character behind the reference is neither an exclamation mark nor a minus sign nor a digit.
  pub expand-replaces :
      (pre r : Bytes) (c : ℕ) (post : Bytes) (i : ℕ) (found : Entry)
      → IsHistory history
      → history.current_index < 2 ^ 32
      → IsPlain pre
      → Denotes history.current_index r found.index
      → get_elem? history.entries i ≡ some found
      → in_reference c ≡ false
      → IsPlain post
      → expand history tmp (pre ++ (b'!' ∷ (r ++ (c ∷ post))))
        ≡ ok (true, some ((pre ++ found.line) ++ (c ∷ post)))
  expand-replaces pre r c post i found valid small h denotes there e h' =
      replaces_at pre r c post found.index found h
        (Denotes-in_reference history.current_index r found.index denotes) e h'
        (reference-Denotes history tmp r found.index c post small denotes e)
        (get-get_elem? history i found valid there)
