-- ===== src/Cli/Variable/Plain.antt =====
-- The text between the variables.
use ucli.Base.{
  ℕ, suc, Bool, true, false, not, ◌&&◌, [], ◌∷◌, Option, none, some, ltb, if◌then◌else◌, length,
  take, drop, Bool-cases, inl, inr, ◌≡◌, refl, ap, ◌∙◌, arith,
}
use ucli.Base.Run.{ok}
use ucli.Lub.Ctype.{Bytes}
use ucli.Lub.Text.{cat, catn, dupn}
use ucli.Cli.Command.{Command}
use ucli.Cli.Pargv.{Pargs}
use ucli.Cli.Variable.{
  Context, starts_variable, text_length, text_segment, context_nextsegment, expand_from,
  variable_expand,
}

abbrev pub null : Bytes → Bool
null [] = true
null (c ∷ s) = false

-- No variable starts in the text.
abbrev pub has_no_variable : Bytes → Bool
has_no_variable [] = true
has_no_variable (c ∷ p) = not (starts_variable (c ∷ p)) && has_no_variable p

no_start : (b r : Bool) → (not b && r) ≡ true → b ≡ true → ⊥
no_start true r h e = cc
no_start false r h e = cc

rest_has_none : (b r : Bool) → (not b && r) ≡ true → r ≡ true
rest_has_none true r h = cc
rest_has_none false r h = h

text_length-length : (p : Bytes) → has_no_variable p ≡ true → text_length p ≡ length p
unfolding text_length
text_length-length [] h = refl
text_length-length (c ∷ p) h = elim (Bool-cases (starts_variable (c ∷ p))) [
  | inl e ↦ absurd (no_start (starts_variable (c ∷ p)) (has_no_variable p) h e)
  | inr e ↦
      rw e
        (rw (text_length-length p (rest_has_none (starts_variable (c ∷ p)) (has_no_variable p) h)))
]

take_all : (s : Bytes) → take (length s) s ≡ s
take_all [] = refl
take_all (c ∷ s) = rw (take_all s)

drop_all : (s : Bytes) → drop (length s) s ≡ []
drop_all [] = refl
drop_all (c ∷ s) = drop_all s

positive : (n : ℕ) → ltb 0 (suc n) ≡ true
positive n = ground arith

text_segment-plain :
    (c : ℕ) (s : Bytes) → has_no_variable (c ∷ s) ≡ true → text_segment (c ∷ s) ≡ (some (c ∷ s), [])
unfolding text_segment dupn
text_segment-plain c s h =
    rw (text_length-length (c ∷ s) h)
      (rw (positive (length s)) (λ i. (some (take_all (c ∷ s) i), drop_all (c ∷ s) i)))

if_same : (b : Bool) (n : ℕ) → (if b then n else n) ≡ n
if_same true n = refl
if_same false n = refl

cat-none : (c : ℕ) (s : Bytes) → cat none (some (c ∷ s)) ≡ some (c ∷ s)
unfolding cat catn
cat-none c s = ap some (
    ap (λ n. take n (c ∷ s)) (if_same (ltb (length (c ∷ s)) (length (c ∷ s))) (length (c ∷ s)))
    ∙ take_all (c ∷ s))

module _ (getenv : Bytes → Option Bytes) (regcomp : Bytes → Option (Bytes → Option (ℕ × ℕ))) where
  nextsegment-plain :
      (context : Context) (c : ℕ) (s : Bytes)
      → has_no_variable (c ∷ s) ≡ true
      → context_nextsegment getenv regcomp context (c ∷ s) ≡ ok (some (c ∷ s), [])
  unfolding context_nextsegment
  nextsegment-plain context c s h = elim (Bool-cases (starts_variable (c ∷ s))) [
    | inl e ↦ absurd (no_start (starts_variable (c ∷ s)) (has_no_variable s) h e)
    | inr e ↦ rw e (ap ok (text_segment-plain c s h))
  ]

  nextsegment-end :
      (context : Context) → context_nextsegment getenv regcomp context [] ≡ ok (none, [])
  unfolding context_nextsegment text_segment text_length
  nextsegment-end context = refl

  -- a round that finds a segment, and one that finds none
  expand_from-some :
      (fuel : ℕ) (context : Context) (p p' seg : Bytes) (result : Option Bytes)
      → context_nextsegment getenv regcomp context p ≡ ok (some seg, p')
      → expand_from getenv regcomp (suc fuel) context p result
        ≡ expand_from getenv regcomp fuel context p' (cat result (some seg))
  unfolding expand_from
  expand_from-some fuel context p p' seg result e = rw (e, expand_from) refl

  expand_from-none :
      (fuel : ℕ) (context : Context) (p p' : Bytes) (result : Option Bytes)
      → context_nextsegment getenv regcomp context p ≡ ok (none, p')
      → expand_from getenv regcomp (suc fuel) context p result ≡ ok result
  unfolding expand_from
  expand_from-none fuel context p p' result e = rw (e, expand_from) refl

  -- A text in which no variable starts is expanded to itself, whatever the context; the empty text is
  -- expanded to NULL.
  pub variable_expand-plain :
      (s : Bytes) (viewid : Option Bytes) (cmd : Option Command) (pargv : Option Pargs)
      → has_no_variable s ≡ true
      → variable_expand getenv regcomp (some s) viewid cmd pargv
        ≡ ok (if null s then none else some s)
  unfolding variable_expand
  variable_expand-plain [] viewid cmd pargv h =
      let context : Context = record { viewid = viewid; cmd = cmd; pargv = pargv } in
      expand_from-none 0 context [] [] none (nextsegment-end context)
  variable_expand-plain (c ∷ s) viewid cmd pargv h =
      let context : Context = record { viewid = viewid; cmd = cmd; pargv = pargv } in
      expand_from-some (suc (length s)) context (c ∷ s) [] (c ∷ s) none
        (nextsegment-plain context c s h)
      ∙ expand_from-none (length s) context [] [] (cat none (some (c ∷ s)))
          (nextsegment-end context)
      ∙ ap ok (cat-none c s)
