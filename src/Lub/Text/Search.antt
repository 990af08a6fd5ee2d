-- ===== src/Lub/Text/Search.antt =====
-- What `nocasestr` finds, and what the last word of a string is.
use ucli.Base.{
  ℕ, zero, suc, ◌<◌, true, [], ◌∷◌, ◌++◌, map, Option, none, some, length, drop, Bool-cases, ◌≡◌,
  ◌≢◌, inl, inr, refl, arith,
}
use ucli.Lub.Ctype.{Bytes, tolower}
use mathlib.Core.Option
use mathlib.Core.Option.{some_inj}
use ucli.Lub.Text.{nocase_prefix, nocasestr}

-- The inner loop runs to the end of `p` exactly when `q` begins with `p`, up to case.
nocase_prefix-append :
    (q p : Bytes) → nocase_prefix q p ≡ true → (r : Bytes) × (map tolower q ≡ map tolower p ++ r)
unfolding nocase_prefix
nocase_prefix-append q [] h = (map tolower q, refl)
nocase_prefix-append [] (d ∷ p) h = cc
nocase_prefix-append (c ∷ q) (d ∷ p) h =
    let (r, e) = nocase_prefix-append q p (ground arith) in (r, ground arith)

append-nocase_prefix :
    (q p r : Bytes) → map tolower q ≡ map tolower p ++ r → nocase_prefix q p ≡ true
unfolding nocase_prefix
append-nocase_prefix q [] r h = refl
append-nocase_prefix [] (d ∷ p) r h = cc
append-nocase_prefix (c ∷ q) (d ∷ p) r h = ground (arith, append-nocase_prefix q p r)

-- `cs` holds `ct` at offset `i`, up to case.
abbrev pub Occurs : Bytes → Bytes → ℕ → Type 0
Occurs cs ct i = (r : Bytes) × (map tolower (drop i cs) ≡ map tolower ct ++ r)

-- What `nocasestr` answers for a string that is not empty: the first offset inside the string at
-- which `ct` occurs up to case, or NULL if there is none.
abbrev pub FirstOccurrence : Bytes → Bytes → Option ℕ → Type 0
FirstOccurrence cs ct (some i) =
    (i < length cs) × Occurs cs ct i × ((j : ℕ) → j < i → ¬ Occurs cs ct j)
FirstOccurrence cs ct none = (j : ℕ) → j < length cs → ¬ Occurs cs ct j

FirstOccurrence-suc :
    (c : ℕ) (cs ct : Bytes)
    → ¬ Occurs (c ∷ cs) ct 0
    → (o : Option ℕ) → FirstOccurrence cs ct o
    → FirstOccurrence (c ∷ cs) ct (Option.map suc o)
FirstOccurrence-suc c cs ct out none f = λ j.
    elim j as (λ j. j < suc (length cs) → ¬ Occurs (c ∷ cs) ct j) [
      | zero ↦ λ h. out
      | suc j ↦ λ h. f j (omega arith)
    ]
FirstOccurrence-suc c cs ct out (some i) (lt, here, first) = (
  omega arith,
  here,
  λ j. elim j as (λ j. j < suc i → ¬ Occurs (c ∷ cs) ct j) [
    | zero ↦ λ h. out
    | suc j ↦ λ h. first j (omega arith)
  ],
)

-- Of any two strings, `nocasestr` answers NULL or the first occurrence inside the first string.
pub nocasestr-FirstOccurrence : (cs ct : Bytes) → FirstOccurrence cs ct (nocasestr cs ct)
unfolding nocasestr
nocasestr-FirstOccurrence [] ct = λ j h. elim h [ ]
nocasestr-FirstOccurrence (c ∷ cs) ct = elim (Bool-cases (nocase_prefix (c ∷ cs) ct)) [
  | inl e ↦ rw e (omega arith, nocase_prefix-append (c ∷ cs) ct e, λ j h. elim h [ ])
  | inr e ↦ rw e (
      FirstOccurrence-suc c cs ct (λ o. cc (e, append-nocase_prefix (c ∷ cs) ct o.0 o.1))
        (nocasestr cs ct) (nocasestr-FirstOccurrence cs ct))
]

later_not_zero : (o : Option ℕ) → ¬ (Option.map suc o ≡ some 0)
later_not_zero none h = cc
later_not_zero (some i) h = let e : suc i ≡ 0 = some_inj.0 h in omega (arith, e)

-- The name is not empty, and begins with the text, up to case.
abbrev pub Begins : Bytes → Bytes → Type 0
Begins text name = (name ≢ []) × ((r : Bytes) × (map tolower name ≡ map tolower text ++ r))

pub nocasestr-Begins : (text name : Bytes) → nocasestr name text ≡ some 0 → Begins text name
unfolding nocasestr
nocasestr-Begins text [] h = cc
nocasestr-Begins text (c ∷ cs) h = elim (Bool-cases (nocase_prefix (c ∷ cs) text)) [
  | inl e ↦ (λ empty. cc, nocase_prefix-append (c ∷ cs) text e)
  | inr e ↦ absurd (later_not_zero (nocasestr cs text) (rw (e, nocasestr) at h))
]

pub Begins-nocasestr : (text name : Bytes) → Begins text name → nocasestr name text ≡ some 0
unfolding nocasestr
Begins-nocasestr text [] (full, _) = absurd (full refl)
Begins-nocasestr text (c ∷ cs) (_, (r, e)) = rw (append-nocase_prefix (c ∷ cs) text r e) refl
