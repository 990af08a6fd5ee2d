-- ===== src/Lub/Text/Order.antt =====
-- `nocasecmp` is a total order on C strings, up to case.
use ucli.Base.{[], ◌∷◌, map, ◌≡◌, ◌⊎◌, refl, arith}
use ucli.Base.Int.{neg, nil, sign, flip}
use ucli.Lub.Ctype.{Bytes, IsText, tolower, tolower_range}
use ucli.Lub.Text.{nocasecmp}

pub nocasecmp-flip : (a b : Bytes) → sign (nocasecmp a b) ≡ flip (sign (nocasecmp b a))
unfolding nocasecmp
nocasecmp-flip [] [] = refl
nocasecmp-flip [] (d ∷ b) = ground arith
nocasecmp-flip (c ∷ a) [] = ground arith
nocasecmp-flip (c ∷ a) (d ∷ b) = ground (arith, nocasecmp-flip a b)

-- A string that sorts before `b` sorts before all that do not sort before `b`.
pub nocasecmp_trans :
    (a b c : Bytes)
    → IsText a
    → IsText b
    → IsText c
    → sign (nocasecmp a b) ≡ neg
    → (sign (nocasecmp b c) ≡ neg) ⊎ (sign (nocasecmp b c) ≡ nil)
    → sign (nocasecmp a c) ≡ neg
unfolding nocasecmp
nocasecmp_trans [] [] c ha hb hc p q = cc
nocasecmp_trans [] (y ∷ b) [] ha hb hc p q = ground arith
nocasecmp_trans [] (y ∷ b) (z ∷ c) ha hb hc p q =
    ground (arith, tolower_range y hb.0.0 hb.0.1, tolower_range z hc.0.0 hc.0.1)
nocasecmp_trans (x ∷ a) [] [] ha hb hc p q = ground arith
nocasecmp_trans (x ∷ a) [] (z ∷ c) ha hb hc p q =
    ground (arith, tolower_range x ha.0.0 ha.0.1, tolower_range z hc.0.0 hc.0.1)
nocasecmp_trans (x ∷ a) (y ∷ b) [] ha hb hc p q =
    ground (arith, tolower_range x ha.0.0 ha.0.1, tolower_range y hb.0.0 hb.0.1)
nocasecmp_trans (x ∷ a) (y ∷ b) (z ∷ c) ha hb hc p q =
    ground (arith, nocasecmp_trans a b c ha.1 hb.1 hc.1)

-- Two C strings compare as equal exactly when they differ in case only.
pub nocasecmp-eq_zero :
    (a b : Bytes)
    → IsText a
    → IsText b
    → ((sign (nocasecmp a b) ≡ nil → map tolower a ≡ map tolower b)
        × (map tolower a ≡ map tolower b → sign (nocasecmp a b) ≡ nil))
unfolding nocasecmp
nocasecmp-eq_zero [] [] ha hb = (λ h. refl, λ h. refl)
nocasecmp-eq_zero [] (y ∷ b) ha hb = (λ h. ground arith, λ h. cc)
nocasecmp-eq_zero (x ∷ a) [] ha hb = (λ h. ground arith, λ h. cc)
nocasecmp-eq_zero (x ∷ a) (y ∷ b) ha hb = ground (
  arith,
  nocasecmp-eq_zero a b ha.1 hb.1,
  tolower_range x ha.0.0 ha.0.1,
  tolower_range y hb.0.0 hb.0.1,
)
