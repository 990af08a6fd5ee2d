-- ===== src/Lub/Text/Same.antt =====
-- `same_text` is the equality of texts.
use ucli.Base.{true, [], ◌∷◌, ◌≡◌, refl, arith}
use ucli.Lub.Ctype.{Bytes}
use ucli.Lub.Text.{same_text}

pub same_text_refl : (s : Bytes) → same_text s s ≡ true
unfolding same_text
same_text_refl [] = refl
same_text_refl (c ∷ s) = ground (arith, same_text_refl s)

pub same_text_eq : (s t : Bytes) → same_text s t ≡ true → s ≡ t
unfolding same_text
same_text_eq [] [] h = refl
same_text_eq [] (d ∷ t) h = cc
same_text_eq (c ∷ s) [] h = cc
same_text_eq (c ∷ s) (d ∷ t) h = grind (arith, same_text_eq s t)
