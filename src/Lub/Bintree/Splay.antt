-- ===== src/Lub/Bintree/Splay.antt =====
-- `lub_bintree_splay` moves nodes and keeps their order.
use ucli.Base.{List, [], ◌∷◌, ◌++◌, append_assoc, append-nil, ◌≡◌, ◌≢◌, refl, sym, ◌∙◌}
use ucli.Base.Int.{ℤ, Sign, neg, nil, plus, sign}
use ucli.Lub.Bintree.{
  Tree, leaf, node, to_list, Lefts, Rights, assemble_left, assemble_right, assemble, go_left,
  go_right, splay_loop, splay,
}

pub data SignCases (s : Sign) : Type 0 where
  is_neg : s ≡ neg → SignCases s
  is_nil : s ≡ nil → SignCases s
  is_plus : s ≡ plus → SignCases s

pub sign_cases : (s : Sign) → SignCases s
sign_cases neg = is_neg refl
sign_cases nil = is_nil refl
sign_cases plus = is_plus refl

module _ {ℓ} {A : Type ℓ} where
  abbrev pub left_list : Lefts A → List A
  left_list [] = []
  left_list ((l, x) ∷ ls) = left_list ls ++ (to_list l ++ (x ∷ []))

  abbrev pub right_list : Rights A → List A
  right_list [] = []
  right_list ((x, r) ∷ rs) = x ∷ (to_list r ++ right_list rs)

  pub to_list-assemble_left :
      (ls : Lefts A) (t : Tree A) → to_list (assemble_left ls t) ≡ left_list ls ++ to_list t
  unfolding assemble_left
  to_list-assemble_left [] t = refl
  to_list-assemble_left ((l, x) ∷ ls) t = to_list-assemble_left ls (node l x t) ∙ simp append_assoc

  pub to_list-assemble_right :
      (rs : Rights A) (t : Tree A) → to_list (assemble_right rs t) ≡ to_list t ++ right_list rs
  unfolding assemble_right
  to_list-assemble_right [] t = sym (append-nil _)
  to_list-assemble_right ((x, r) ∷ rs) t =
      to_list-assemble_right rs (node t x r) ∙ simp append_assoc

  -- All that the loop has in hand, in order.
  abbrev whole : Lefts A → Tree A → Rights A → List A
  whole ls t rs = left_list ls ++ (to_list t ++ right_list rs)

  to_list-assemble :
      (ls : Lefts A) (l : Tree A) (x : A) (r : Tree A) (rs : Rights A)
      → to_list (assemble ls l x r rs) ≡ whole ls (node l x r) rs
  unfolding assemble
  to_list-assemble ls l x r rs = simp (to_list-assemble_left, to_list-assemble_right, append_assoc)

  abbrev Keeps : Tree A → (Lefts A → Rights A → Tree A) → Type ℓ
  Keeps t go = (ls : Lefts A) (rs : Rights A) → to_list (go ls rs) ≡ whole ls t rs

  go_left-Keeps :
      (comp : A → ℤ) (ll : Tree A) (y : A) (lr : Tree A) (x : A) (r : Tree A)
      (to_l to_ll : Lefts A → Rights A → Tree A)
      → Keeps (node ll y lr) to_l
      → (ll ≢ leaf → Keeps ll to_ll)
      → Keeps (node (node ll y lr) x r) (go_left comp ll y lr x r to_l to_ll)
  unfolding go_left
  go_left-Keeps comp leaf y lr x r to_l to_ll kl kll ls rs = elim (sign_cases (sign (comp y))) [
    | is_plus e ↦ rw (e, go_left) (to_list-assemble ls leaf y (node lr x r) rs ∙ simp append_assoc)
    | is_nil e ↦ rw (e, go_left) (kl ls ((x, r) ∷ rs) ∙ simp append_assoc)
    | is_neg e ↦ rw (e, go_left) (kl ls ((x, r) ∷ rs) ∙ simp append_assoc)
  ]
  go_left-Keeps comp (node a b c) y lr x r to_l to_ll kl kll ls rs =
      elim (sign_cases (sign (comp y))) [
        | is_plus e ↦ rw (e, go_left) (kll (λ h. cc) ls ((y, node lr x r) ∷ rs) ∙ simp append_assoc)
        | is_nil e ↦ rw (e, go_left) (kl ls ((x, r) ∷ rs) ∙ simp append_assoc)
        | is_neg e ↦ rw (e, go_left) (kl ls ((x, r) ∷ rs) ∙ simp append_assoc)
      ]

  go_right-Keeps :
      (comp : A → ℤ) (l : Tree A) (x : A) (rl : Tree A) (y : A) (rr : Tree A)
      (to_r to_rr : Lefts A → Rights A → Tree A)
      → Keeps (node rl y rr) to_r
      → (rr ≢ leaf → Keeps rr to_rr)
      → Keeps (node l x (node rl y rr)) (go_right comp l x rl y rr to_r to_rr)
  unfolding go_right
  go_right-Keeps comp l x rl y leaf to_r to_rr kr krr ls rs = elim (sign_cases (sign (comp y))) [
    | is_neg e ↦ rw (e, go_right) (to_list-assemble ls (node l x rl) y leaf rs ∙ simp append_assoc)
    | is_nil e ↦ rw (e, go_right) (kr ((l, x) ∷ ls) rs ∙ simp append_assoc)
    | is_plus e ↦ rw (e, go_right) (kr ((l, x) ∷ ls) rs ∙ simp append_assoc)
  ]
  go_right-Keeps comp l x rl y (node a b c) to_r to_rr kr krr ls rs =
      elim (sign_cases (sign (comp y))) [
        | is_neg e ↦ rw (e, go_right) (krr (λ h. cc) ((node l x rl, y) ∷ ls) rs ∙ simp append_assoc)
        | is_nil e ↦ rw (e, go_right) (kr ((l, x) ∷ ls) rs ∙ simp append_assoc)
        | is_plus e ↦ rw (e, go_right) (kr ((l, x) ∷ ls) rs ∙ simp append_assoc)
      ]

  to_list-splay_loop : (comp : A → ℤ) (t : Tree A) → t ≢ leaf → Keeps t (splay_loop comp t)
  unfolding splay_loop
  to_list-splay_loop comp leaf ne ls rs = absurd (ne refl)
  to_list-splay_loop comp (node leaf x leaf) ne ls rs = to_list-assemble ls leaf x leaf rs
  to_list-splay_loop comp (node (node ll y lr) x leaf) ne ls rs =
      let kl = to_list-splay_loop comp (node ll y lr) (λ h. cc) in
      let here = to_list-assemble ls (node ll y lr) x leaf rs in
      elim (sign_cases (sign (comp x))) [
        | is_plus e ↦
            rw (e, splay_loop)
              (go_left-Keeps comp ll y lr x leaf _ _ kl (to_list-splay_loop comp ll) ls rs)
        | is_nil e ↦ rw (e, splay_loop) here
        | is_neg e ↦ rw (e, splay_loop) here
      ]
  to_list-splay_loop comp (node leaf x (node rl z rr)) ne ls rs =
      let kr = to_list-splay_loop comp (node rl z rr) (λ h. cc) in
      let here = to_list-assemble ls leaf x (node rl z rr) rs in
      elim (sign_cases (sign (comp x))) [
        | is_neg e ↦
            rw (e, splay_loop)
              (go_right-Keeps comp leaf x rl z rr _ _ kr (to_list-splay_loop comp rr) ls rs)
        | is_nil e ↦ rw (e, splay_loop) here
        | is_plus e ↦ rw (e, splay_loop) here
      ]
  to_list-splay_loop comp (node (node ll y lr) x (node rl z rr)) ne ls rs =
      let l = node ll y lr in
      let r = node rl z rr in
      let kl = to_list-splay_loop comp (node ll y lr) (λ h. cc) in
      let kr = to_list-splay_loop comp (node rl z rr) (λ h. cc) in
      elim (sign_cases (sign (comp x))) [
        | is_plus e ↦
            rw (e, splay_loop)
              (go_left-Keeps comp ll y lr x r _ _ kl (to_list-splay_loop comp ll) ls rs)
        | is_neg e ↦
            rw (e, splay_loop)
              (go_right-Keeps comp l x rl z rr _ _ kr (to_list-splay_loop comp rr) ls rs)
        | is_nil e ↦ rw (e, splay_loop) (to_list-assemble ls l x r rs)
      ]

  -- A splay keeps every client node, and their order, whatever the comparison answers.
  pub to_list-splay : (comp : A → ℤ) (t : Tree A) → to_list (splay comp t) ≡ to_list t
  unfolding splay
  to_list-splay comp leaf = refl
  to_list-splay comp (node l x r) =
      to_list-splay_loop comp (node l x r) (λ h. cc) [] [] ∙ append-nil _
