-- ===== src/Tinyrl/Complete/Prefix.antt =====
-- What the matches have in common.
use ucli.Base.{
  Bool, true, false, List, [], ◌∷◌, Option, none, some, ◌==◌, if◌then◌else◌, All, Bool-cases, inl,
  inr, ◌≡◌, refl, arith,
}
use ucli.Lub.Ctype.{Bytes, tolower}
use ucli.Lub.Text.{nocase_prefix}
use ucli.Tinyrl.Complete.{common_prefix, substitution, completion}

-- The text begins with the prefix, when case is ignored.
abbrev pub Begins : Bytes → Bytes → Type 0
Begins prefix text = nocase_prefix text prefix ≡ true

common_prefix_left : (p m : Bytes) → Begins (common_prefix p m) p
unfolding common_prefix nocase_prefix
common_prefix_left [] m = refl
common_prefix_left (c ∷ p) [] = refl
common_prefix_left (c ∷ p) (d ∷ m) = elim (Bool-cases (tolower c == tolower d)) [
  | inl e ↦
      let same : (tolower c == tolower c) ≡ true = ground arith in
      rw e (rw same (common_prefix_left p m))
  | inr e ↦ rw e refl
]

common_prefix_right : (p m : Bytes) → Begins (common_prefix p m) m
unfolding common_prefix nocase_prefix
common_prefix_right [] m = refl
common_prefix_right (c ∷ p) [] = refl
common_prefix_right (c ∷ p) (d ∷ m) = elim (Bool-cases (tolower c == tolower d)) [
  | inl e ↦ rw e (rw e (common_prefix_right p m))
  | inr e ↦ rw e refl
]

both_true : (b r : Bool) → (if b then r else false) ≡ true → (b ≡ true) × (r ≡ true)
both_true true r h = (refl, h)
both_true false r h = cc

common_prefix_greatest : (q p m : Bytes) → Begins q p → Begins q m → Begins q (common_prefix p m)
unfolding common_prefix nocase_prefix
common_prefix_greatest [] p m h k = refl
common_prefix_greatest (x ∷ q) [] m h k = h
common_prefix_greatest (x ∷ q) (c ∷ p) [] h k = k
common_prefix_greatest (x ∷ q) (c ∷ p) (d ∷ m) h k =
    let (e, h') = both_true (tolower x == tolower c) (nocase_prefix p q) h in
    let (e', k') = both_true (tolower x == tolower d) (nocase_prefix m q) k in
    let same : (tolower c == tolower d) ≡ true = ground (arith, e, e') in
    rw same (rw e (common_prefix_greatest q p m h' k'))

Begins-trans : (a b c : Bytes) → Begins a b → Begins b c → Begins a c
unfolding nocase_prefix
Begins-trans [] b c h k = refl
Begins-trans (x ∷ a) [] c h k = cc
Begins-trans (x ∷ a) (y ∷ b) [] h k = cc
Begins-trans (x ∷ a) (y ∷ b) (z ∷ c) h k =
    let (e, h') = both_true (tolower x == tolower y) (nocase_prefix b a) h in
    let (e', k') = both_true (tolower y == tolower z) (nocase_prefix c b) k in
    let same : (tolower x == tolower z) ≡ true = ground (arith, e, e') in
    rw same (Begins-trans a b c h' k')

Begins-refl : (a : Bytes) → Begins a a
unfolding nocase_prefix
Begins-refl [] = refl
Begins-refl (c ∷ a) =
    let same : (tolower c == tolower c) ≡ true = ground arith in rw same (Begins-refl a)

-- The text is what all the others begin with, and every such text is the beginning of it.
abbrev pub IsCommon : Bytes → List Bytes → Type 0
IsCommon prefix texts =
    All (λ t. Begins prefix t) texts × ((q : Bytes) → All (λ t. Begins q t) texts → Begins q prefix)

All-Begins :
    (a b : Bytes) (texts : List Bytes)
    → Begins a b
    → All (λ t. Begins b t) texts
    → All (λ t. Begins a t) texts
All-Begins a b [] h k = tt
All-Begins a b (t ∷ texts) h (k, ks) = (Begins-trans a b t h k, All-Begins a b texts h ks)

substitution-IsCommon :
    (prefix : Bytes) (matches : List Bytes)
    → IsCommon (substitution prefix matches) (prefix ∷ matches)
unfolding substitution
substitution-IsCommon prefix [] = ((Begins-refl prefix, tt), λ q h. h.0)
substitution-IsCommon prefix (m ∷ matches) =
    let shorter = common_prefix prefix m in
    let ((begins, all), greatest) = substitution-IsCommon shorter matches in
    let result = substitution shorter matches in
    (
      (
        Begins-trans result shorter prefix begins (common_prefix_left prefix m),
        (Begins-trans result shorter m begins (common_prefix_right prefix m), all),
      ),
      λ q h. greatest q (common_prefix_greatest q prefix m h.0 h.1.0, h.1.1),
    )

-- NULL for no match; otherwise the matches, with their common beginning in front.
abbrev pub IsCompletion : List Bytes → Option (List Bytes) → Type 0
IsCompletion matches none = matches ≡ []
IsCompletion matches (some []) = ⊥
IsCompletion matches (some (first ∷ others)) = (others ≡ matches) × IsCommon first matches

-- tinyrl_completion returns NULL when there is no match, and the matches with a substitution in front
-- otherwise. All of them begin with the substitution, when case is ignored, and whatever all of them
-- begin with is a beginning of it.
pub completion-IsCompletion : (matches : List Bytes) → IsCompletion matches (completion matches)
unfolding completion
completion-IsCompletion [] = refl
completion-IsCompletion (m ∷ matches) = (refl, substitution-IsCommon m matches)
