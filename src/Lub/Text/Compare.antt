-- ===== src/Lub/Text/Compare.antt =====
-- `strcmp` is a total order on C strings, with `same_text` for its equality.
use ucli.Base.{[], ◌∷◌, ◌≡◌, ◌⊎◌, refl, arith}
use ucli.Base.Int.{neg, nil, sign, flip}
use ucli.Lub.Ctype.{Bytes, IsText}
use ucli.Lub.Text.{strcmp}

pub strcmp-flip : (a b : Bytes) → sign (strcmp a b) ≡ flip (sign (strcmp b a))
unfolding strcmp
strcmp-flip [] [] = refl
strcmp-flip [] (d ∷ b) = ground arith
strcmp-flip (c ∷ a) [] = ground arith
strcmp-flip (c ∷ a) (d ∷ b) = ground (arith, strcmp-flip a b)

-- A string that sorts before `b` sorts before all that do not sort before `b`.
pub strcmp_trans :
    (a b c : Bytes)
    → IsText a
    → IsText b
    → IsText c
    → sign (strcmp a b) ≡ neg
    → (sign (strcmp b c) ≡ neg) ⊎ (sign (strcmp b c) ≡ nil)
    → sign (strcmp a c) ≡ neg
unfolding strcmp
strcmp_trans [] [] c ha hb hc p q = cc
strcmp_trans [] (y ∷ b) [] ha hb hc p q = ground arith
strcmp_trans [] (y ∷ b) (z ∷ c) ha hb hc p q = ground (arith, hc.0)
strcmp_trans (x ∷ a) [] [] ha hb hc p q = ground arith
strcmp_trans (x ∷ a) [] (z ∷ c) ha hb hc p q = ground (arith, hc.0)
strcmp_trans (x ∷ a) (y ∷ b) [] ha hb hc p q = ground (arith, hb.0)
strcmp_trans (x ∷ a) (y ∷ b) (z ∷ c) ha hb hc p q =
    ground (arith, strcmp_trans a b c ha.1 hb.1 hc.1)

pub strcmp-eq_zero : (a b : Bytes) → IsText a → IsText b → sign (strcmp a b) ≡ nil → a ≡ b
unfolding strcmp
strcmp-eq_zero [] [] ha hb h = refl
strcmp-eq_zero [] (d ∷ b) ha hb h = ground (arith, hb.0)
strcmp-eq_zero (c ∷ a) [] ha hb h = ground (arith, ha.0)
strcmp-eq_zero (c ∷ a) (d ∷ b) ha hb h = ground (arith, strcmp-eq_zero a b ha.1 hb.1)
