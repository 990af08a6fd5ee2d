-- ===== src/Cli/Variable/Escape.antt =====
-- What escaping does to the text of a variable, character by character.
use ucli.Base.{
  ℕ, zero, suc, ◌≤◌, All, Bool, true, false, ◌||◌, [], ◌∷◌, ◌++◌, none, some, ◌==◌, ltb,
  if◌then◌else◌, length, List-cases, take, drop, append-nil, ◌≡◌, ◌≢◌, refl, ap, sym, ◌∙◌, arith,
  Bool-cases, inl, inr,
}
use ucli.Lub.Ctype.{Bytes}
use ucli.Lub.Text.{catn}
use ucli.Cli.Variable.{is_one_of, strcspn, escape_from, escape_special_chars}

-- The escaped text: a backslash in front of each of the characters.
pub escaped : Bytes → Bytes → Bytes
escaped chars [] = []
escaped chars (c ∷ s) =
    let rest = escaped chars s in if is_one_of c chars then b'\\' ∷ c ∷ rest else c ∷ rest

-- What a reader makes of a text in which a backslash quotes the next character.
pub unescaped : Bytes → Bytes
unescaped [] = []
unescaped (c ∷ []) = c ∷ []
unescaped (c ∷ d ∷ s) =
    let one = c ∷ unescaped (d ∷ s) in let two = d ∷ unescaped s in if c == b'\\' then two else one

take_all : (s : Bytes) (n : ℕ) → length s ≤ n → take n s ≡ take (length s) s
take_all [] zero h = refl
take_all [] (suc n) h = refl
take_all (c ∷ s) zero h = ground arith
take_all (c ∷ s) (suc n) h = rw (take_all s n (omega (arith, h)))

catn-take : (r t : Bytes) (n : ℕ) → catn (some r) (some t) n ≡ some (r ++ take n t)
unfolding catn
catn-take r t n = elim (Bool-cases (ltb n (length t))) [
  | inl e ↦ rw e
  | inr e ↦ rw e (rw (take_all t n (ground (arith, e))))
]

module _ (chars : Bytes) where
  take-strcspn :
      (s : Bytes)
      → take (strcspn s chars) s ++ escaped chars (drop (strcspn s chars) s) ≡ escaped chars s
  unfolding strcspn escaped
  take-strcspn [] = refl
  take-strcspn (c ∷ s) = elim (Bool-cases (is_one_of c chars)) [
    | inl e ↦ rw e (rw e)
    | inr e ↦ rw e (rw (take-strcspn s))
  ]

  drop-strcspn :
      (s : Bytes) {d : ℕ} {rest : Bytes}
      → drop (strcspn s chars) s ≡ d ∷ rest
      → (is_one_of d chars ≡ true) × (suc (length rest) ≤ length s)
  unfolding strcspn
  drop-strcspn [] {d} {rest} e = cc
  drop-strcspn (c ∷ s) {d} {rest} e = elim (Bool-cases (is_one_of c chars)) [
    | inl h ↦ (let e' : c ∷ s ≡ d ∷ rest = rw h at e in (cc, omega (arith, ap length e')))
    | inr h ↦ (let (one, less) = drop-strcspn s (rw h at e) in (one, omega (arith, less)))
  ]

  escaped_at :
      (d : ℕ) (p : Bytes)
      → is_one_of d chars ≡ true
      → escaped chars (d ∷ p) ≡ b'\\' ∷ d ∷ escaped chars p
  unfolding escaped
  escaped_at d p e = rw e

  escaped_end : (t : Bytes) → t ++ escaped chars [] ≡ t
  unfolding escaped
  escaped_end t = rw append-nil

  -- the text of a round in front of what is left
  append_round :
      (r t e : Bytes) (d : ℕ)
      → (((r ++ t) ++ (b'\\' ∷ [])) ++ (d ∷ [])) ++ e ≡ r ++ (t ++ (b'\\' ∷ d ∷ e))
  append_round [] [] e d = refl
  append_round [] (c ∷ t) e d = rw (append_round [] t e d)
  append_round (c ∷ r) t e d = rw (append_round r t e d)

  -- one round, and the rounds behind it
  escape_from-escaped :
      (fuel : ℕ) (p r : Bytes)
      → length p ≤ fuel
      → escape_from fuel chars p (some r) ≡ some (r ++ escaped chars p)
  unfolding escape_from
  escape_from-escaped zero [] r h = unfold escaped in rw append-nil
  escape_from-escaped (suc fuel) [] r h = unfold escaped in rw append-nil
  escape_from-escaped zero (c ∷ p) r h = ground arith
  escape_from-escaped (suc fuel) (c ∷ p) r h =
      let front = take-strcspn (c ∷ p) in
      elim (List-cases (drop (strcspn (c ∷ p) chars) (c ∷ p))) [
        | inl e ↦
            rw (e, escape_from)
              (catn-take r (c ∷ p) (strcspn (c ∷ p) chars)
                ∙ ap (λ t. some (r ++ t)) (sym (escaped_end _) ∙ rw e at front))
        | inr (d, p', e) ↦
            let (one, less) = drop-strcspn (c ∷ p) e in
            rw (e, escape_from)
              (rw (catn-take, catn-take, catn-take)
                (escape_from-escaped fuel p' _ (omega (arith, h, less))
                  ∙ ap some (
                      append_round r _ (escaped chars p') d
                      ∙ ap (λ t. r ++ t) (rw⁻¹ (escaped_at d p' one) (rw e at front)))))
      ]

  first_round :
      (fuel c : ℕ) (p : Bytes)
      → escape_from (suc fuel) chars (c ∷ p) none ≡ escape_from (suc fuel) chars (c ∷ p) (some [])
  unfolding escape_from catn
  first_round fuel c p = refl

-- A text that is not empty comes back with a backslash in front of each character to escape, and of no
-- other; the empty text comes back as NULL.
pub escape_special_chars-escaped :
    (s chars : Bytes)
    → (escape_special_chars (some []) (some chars) ≡ none)
      × (s ≢ [] → escape_special_chars (some s) (some chars) ≡ some (escaped chars s))
unfolding escape_special_chars
escape_special_chars-escaped [] chars = (unfold escape_from in refl, λ n. absurd (n refl))
escape_special_chars-escaped (c ∷ s) chars = (
  unfold escape_from in refl,
  λ n.
      first_round chars (length s) c s
      ∙ escape_from-escaped chars (suc (length s)) (c ∷ s) [] (omega arith),
)

unescaped_quoted : (c : ℕ) (s : Bytes) → unescaped (b'\\' ∷ c ∷ s) ≡ c ∷ unescaped s
unfolding unescaped
unescaped_quoted c s = refl

unescaped_plain : (c : ℕ) (s : Bytes) → (c == b'\\') ≡ false → unescaped (c ∷ s) ≡ c ∷ unescaped s
unfolding unescaped
unescaped_plain c [] h = refl
unescaped_plain c (d ∷ s) h = rw h

-- Backslashes, where there are any, are among the characters to escape.
abbrev pub HasQuotedBackslash : Bytes → Bytes → Type 0
HasQuotedBackslash chars s = All (λ c. (c == b'\\') ≡ true → is_one_of c chars ≡ true) s

plain :
    (chars : Bytes) (c : ℕ)
    → ((c == b'\\') ≡ true → is_one_of c chars ≡ true)
    → is_one_of c chars ≡ false
    → (c == b'\\') ≡ false
plain chars c h e = elim (Bool-cases (c == b'\\')) [ inr n ↦ n | inl q ↦ (let t = h q in cc) ]

-- A reader for whom a backslash quotes the next character gets the text back from the escaped text, if
-- the backslashes in it are among the characters to escape.
unescaped-escaped : (s chars : Bytes) → HasQuotedBackslash chars s → unescaped (escaped chars s) ≡ s
unfolding escaped
unescaped-escaped [] chars h = unfold unescaped in refl
unescaped-escaped (c ∷ s) chars (q, h) = elim (Bool-cases (is_one_of c chars)) [
  | inl e ↦
      rw e (unescaped_quoted c (escaped chars s) ∙ ap (λ t. c ∷ t) (unescaped-escaped s chars h))
  | inr e ↦ rw e (
      unescaped_plain c (escaped chars s) (plain chars c q e)
      ∙ ap (λ t. c ∷ t) (unescaped-escaped s chars h))
]

-- Whether such a reader meets one of the characters without a backslash that quotes it.
unfoldable pub exposes : Bytes → Bytes → Bool
exposes chars [] = false
exposes chars (c ∷ []) = is_one_of c chars
exposes chars (c ∷ d ∷ s) =
    let one = is_one_of c chars || exposes chars (d ∷ s) in
    let two = exposes chars s in if c == b'\\' then two else one

exposes_quoted :
    (chars : Bytes) (c : ℕ) (s : Bytes) → exposes chars (b'\\' ∷ c ∷ s) ≡ exposes chars s
unfolding exposes
exposes_quoted chars c s = refl

exposes_plain :
    (chars : Bytes) (c : ℕ) (s : Bytes)
    → (c == b'\\') ≡ false
    → is_one_of c chars ≡ false
    → exposes chars s ≡ false
    → exposes chars (c ∷ s) ≡ false
unfolding exposes
exposes_plain chars c [] h e x = e
exposes_plain chars c (d ∷ s) h e x = rw (h, e, x)

-- No character to escape is left for such a reader without a backslash that quotes it, on the same
-- condition.
exposes-escaped :
    (s chars : Bytes) → HasQuotedBackslash chars s → exposes chars (escaped chars s) ≡ false
unfolding escaped
exposes-escaped [] chars h = unfold exposes in refl
exposes-escaped (c ∷ s) chars (q, h) = elim (Bool-cases (is_one_of c chars)) [
  | inl e ↦ rw e (exposes_quoted chars c (escaped chars s) ∙ exposes-escaped s chars h)
  | inr e ↦
      rw e
        (exposes_plain chars c (escaped chars s) (plain chars c q e) e (exposes-escaped s chars h))
]

-- If the backslashes in a text are among the characters to escape, then what the code makes of the text
-- has no such character without a backslash that quotes it, and reads back as the text.
pub escape_special_chars-exposes :
    (s chars r : Bytes)
    → HasQuotedBackslash chars s
    → escape_special_chars (some s) (some chars) ≡ some r
    → (exposes chars r ≡ false) × (unescaped r ≡ s)
escape_special_chars-exposes [] chars r h e =
    let n = (escape_special_chars-escaped [] chars).0 in cc
escape_special_chars-exposes (c ∷ s) chars r h e =
    let all = (escape_special_chars-escaped (c ∷ s) chars).1 (λ n. cc) in
    let same : escaped chars (c ∷ s) ≡ r = cc in
    rw⁻¹ same (exposes-escaped (c ∷ s) chars h, unescaped-escaped (c ∷ s) chars h)
