-- ===== src/Lub/Bintree/Cut.antt =====
-- Where the nodes stand in the order of the key, a splay brings a neighbour of the key to the root.
use ucli.Base.{List, [], ◌∷◌, ◌++◌, All, All-append, All-split, ◌≡◌, ◌≢◌, refl}
use ucli.Base.Int.{ℤ, neg, plus, sign}
use ucli.Lub.Bintree.{
  Tree, leaf, node, to_list, Lefts, Rights, assemble, go_left, go_right, splay_loop, splay,
}
use ucli.Lub.Bintree.Splay.{
  sign_cases, is_neg, is_nil, is_plus, left_list, right_list, to_list-assemble_left,
  to_list-assemble_right,
}

module _ {ℓ} {A : Type ℓ} (comp : A → ℤ) where
  abbrev pub IsBefore : A → Type 0
  IsBefore x = sign (comp x) ≡ neg

  abbrev pub IsAfter : A → Type 0
  IsAfter x = sign (comp x) ≡ plus

  -- The list goes through the key once: behind a node that is not before the key, all are after.
  abbrev pub Cut : List A → Type 0
  Cut [] = Unit
  Cut (x ∷ xs) = (sign (comp x) ≢ neg → All IsAfter xs) × Cut xs

  pub Cut-append : (xs ys : List A) → Cut (xs ++ ys) → Cut xs × Cut ys
  Cut-append [] ys c = (tt, c)
  Cut-append (x ∷ xs) ys (h, c) =
      let (cx, cy) = Cut-append xs ys c in ((λ n. (All-split IsAfter xs ys (h n)).0, cx), cy)

  pub Cut-IsAfter :
      (xs : List A) (x : A) (ys : List A)
      → Cut (xs ++ x ∷ ys)
      → sign (comp x) ≢ neg
      → All IsAfter ys
  Cut-IsAfter xs x ys c = (Cut-append xs (x ∷ ys) c).1.0

  pub Cut-IsBefore :
      (xs : List A) (x : A) (ys : List A)
      → Cut (xs ++ x ∷ ys)
      → sign (comp x) ≢ plus
      → All IsBefore xs
  Cut-IsBefore [] x ys c n = tt
  Cut-IsBefore (z ∷ xs) x ys (h, c) n = elim (sign_cases (sign (comp z))) [
    | is_neg e ↦ (e, Cut-IsBefore xs x ys c n)
    | is_nil e ↦ absurd (n (All-split IsAfter xs (x ∷ ys) (h (λ k. cc))).1.0)
    | is_plus e ↦ absurd (n (All-split IsAfter xs (x ∷ ys) (h (λ k. cc))).1.0)
  ]

  -- The root is next to the key: nothing lies between them.
  abbrev pub IsNeighbour : Tree A → Type 0
  IsNeighbour leaf = Unit
  IsNeighbour (node l x r) =
      (IsAfter x → All IsBefore (to_list l)) × (IsBefore x → All IsAfter (to_list r))

  abbrev Linked : Lefts A → Rights A → Type 0
  Linked ls rs = All IsBefore (left_list ls) × All IsAfter (right_list rs)

  assemble-IsNeighbour :
      (ls : Lefts A) (l : Tree A) (x : A) (r : Tree A) (rs : Rights A)
      → Linked ls rs
      → (IsAfter x → All IsBefore (to_list l))
      → (IsBefore x → All IsAfter (to_list r))
      → IsNeighbour (assemble ls l x r rs)
  unfolding assemble
  assemble-IsNeighbour ls l x r rs (hl, hr) pl pr = (
    λ h. rw to_list-assemble_left (All-append IsBefore (left_list ls) (to_list l) hl (pl h)),
    λ h. rw to_list-assemble_right (All-append IsAfter (to_list r) (right_list rs) (pr h) hr),
  )

  abbrev Finds : Tree A → (Lefts A → Rights A → Tree A) → Type ℓ
  Finds t go = (ls : Lefts A) (rs : Rights A) → Linked ls rs → IsNeighbour (go ls rs)

  link_right :
      (ls : Lefts A) (x : A) (r : Tree A) (rs : Rights A)
      → Linked ls rs
      → IsAfter x
      → All IsAfter (to_list r)
      → Linked ls ((x, r) ∷ rs)
  link_right ls x r rs (hl, hr) hx h =
      (hl, (hx, All-append IsAfter (to_list r) (right_list rs) h hr))

  link_left :
      (ls : Lefts A) (l : Tree A) (x : A) (rs : Rights A)
      → Linked ls rs
      → IsBefore x
      → All IsBefore (to_list l)
      → Linked ((l, x) ∷ ls) rs
  link_left ls l x rs (hl, hr) hx h = (
    All-append IsBefore (left_list ls) (to_list l ++ (x ∷ [])) hl
        (All-append IsBefore (to_list l) (x ∷ []) h (hx, tt)),
    hr,
  )

  go_left-IsNeighbour :
      (ll : Tree A) (y : A) (lr : Tree A) (x : A) (r : Tree A)
      (to_l to_ll : Lefts A → Rights A → Tree A)
      → Cut (to_list (node (node ll y lr) x r))
      → IsAfter x
      → Finds (node ll y lr) to_l
      → (ll ≢ leaf → Finds ll to_ll)
      → (ls : Lefts A) (rs : Rights A) → Linked ls rs
      → IsNeighbour (go_left comp ll y lr x r to_l to_ll ls rs)
  unfolding go_left
  go_left-IsNeighbour leaf y lr x r to_l to_ll c px kl kll ls rs k =
      let all_r = Cut-IsAfter (to_list (node leaf y lr)) x (to_list r) c (λ n. cc) in
      let linked = kl ls ((x, r) ∷ rs) (link_right ls x r rs k px all_r) in
      elim (sign_cases (sign (comp y))) [
        | is_plus e ↦
            rw (e, go_left) (assemble-IsNeighbour ls leaf y (node lr x r) rs k (λ h. tt) (λ h. cc))
        | is_nil e ↦ rw (e, go_left) linked
        | is_neg e ↦ rw (e, go_left) linked
      ]
  go_left-IsNeighbour (node a b d) y lr x r to_l to_ll c px kl kll ls rs k =
      let ll = node a b d in
      let all_r = Cut-IsAfter (to_list (node ll y lr)) x (to_list r) c (λ n. cc) in
      let linked = kl ls ((x, r) ∷ rs) (link_right ls x r rs k px all_r) in
      let cut_l = (Cut-append (to_list (node ll y lr)) (x ∷ to_list r) c).0 in
      elim (sign_cases (sign (comp y))) [
        | is_plus e ↦
            let all_lr = Cut-IsAfter (to_list ll) y (to_list lr) cut_l (λ n. cc) in
            let rotated = All-append IsAfter (to_list lr) (x ∷ to_list r) all_lr (px, all_r) in
            rw (e, go_left)
              (kll (λ h. cc) ls ((y, node lr x r) ∷ rs)
                (link_right ls y (node lr x r) rs k e rotated))
        | is_nil e ↦ rw (e, go_left) linked
        | is_neg e ↦ rw (e, go_left) linked
      ]

  go_right-IsNeighbour :
      (l : Tree A) (x : A) (rl : Tree A) (y : A) (rr : Tree A)
      (to_r to_rr : Lefts A → Rights A → Tree A)
      → Cut (to_list (node l x (node rl y rr)))
      → IsBefore x
      → Finds (node rl y rr) to_r
      → (rr ≢ leaf → Finds rr to_rr)
      → (ls : Lefts A) (rs : Rights A) → Linked ls rs
      → IsNeighbour (go_right comp l x rl y rr to_r to_rr ls rs)
  unfolding go_right
  go_right-IsNeighbour l x rl y leaf to_r to_rr c px kr krr ls rs k =
      let all_l = Cut-IsBefore (to_list l) x (to_list (node rl y leaf)) c (λ n. cc) in
      let linked = kr ((l, x) ∷ ls) rs (link_left ls l x rs k px all_l) in
      elim (sign_cases (sign (comp y))) [
        | is_neg e ↦
            rw (e, go_right) (assemble-IsNeighbour ls (node l x rl) y leaf rs k (λ h. cc) (λ h. tt))
        | is_nil e ↦ rw (e, go_right) linked
        | is_plus e ↦ rw (e, go_right) linked
      ]
  go_right-IsNeighbour l x rl y (node a b d) to_r to_rr c px kr krr ls rs k =
      let rr = node a b d in
      let all_l = Cut-IsBefore (to_list l) x (to_list (node rl y rr)) c (λ n. cc) in
      let linked = kr ((l, x) ∷ ls) rs (link_left ls l x rs k px all_l) in
      let cut_r = (Cut-append (to_list l) (x ∷ to_list (node rl y rr)) c).1.1 in
      elim (sign_cases (sign (comp y))) [
        | is_neg e ↦
            let all_rl = Cut-IsBefore (to_list rl) y (to_list rr) cut_r (λ n. cc) in
            let rotated = All-append IsBefore (to_list l) (x ∷ to_list rl) all_l (px, all_rl) in
            rw (e, go_right)
              (krr (λ h. cc) ((node l x rl, y) ∷ ls) rs
                (link_left ls (node l x rl) y rs k e rotated))
        | is_nil e ↦ rw (e, go_right) linked
        | is_plus e ↦ rw (e, go_right) linked
      ]

  splay_loop-IsNeighbour : (t : Tree A) → t ≢ leaf → Cut (to_list t) → Finds t (splay_loop comp t)
  unfolding splay_loop
  splay_loop-IsNeighbour leaf ne c ls rs k = absurd (ne refl)
  splay_loop-IsNeighbour (node leaf x leaf) ne c ls rs k =
      assemble-IsNeighbour ls leaf x leaf rs k (λ h. tt) (λ h. tt)
  splay_loop-IsNeighbour (node (node ll y lr) x leaf) ne c ls rs k =
      let cut_l = (Cut-append (to_list (node ll y lr)) (x ∷ []) c).0 in
      let cut_ll = (Cut-append (to_list ll) (y ∷ to_list lr) cut_l).0 in
      let kl = splay_loop-IsNeighbour (node ll y lr) (λ h. cc) cut_l in
      let kll = λ (n : ll ≢ leaf). splay_loop-IsNeighbour ll n cut_ll in
      elim (sign_cases (sign (comp x))) [
        | is_plus e ↦ rw (e, splay_loop) (go_left-IsNeighbour ll y lr x leaf _ _ c e kl kll ls rs k)
        | is_nil e ↦
            rw (e, splay_loop)
              (assemble-IsNeighbour ls (node ll y lr) x leaf rs k (λ h. cc) (λ h. tt))
        | is_neg e ↦
            rw (e, splay_loop)
              (assemble-IsNeighbour ls (node ll y lr) x leaf rs k (λ h. cc) (λ h. tt))
      ]
  splay_loop-IsNeighbour (node leaf x (node rl z rr)) ne c ls rs k =
      let cut_r = c.1 in
      let cut_rr = (Cut-append (to_list rl) (z ∷ to_list rr) cut_r).1.1 in
      let kr = splay_loop-IsNeighbour (node rl z rr) (λ h. cc) cut_r in
      let krr = λ (n : rr ≢ leaf). splay_loop-IsNeighbour rr n cut_rr in
      elim (sign_cases (sign (comp x))) [
        | is_neg e ↦ rw (e, splay_loop) (go_right-IsNeighbour leaf x rl z rr _ _ c e kr krr ls rs k)
        | is_nil e ↦
            rw (e, splay_loop)
              (assemble-IsNeighbour ls leaf x (node rl z rr) rs k (λ h. tt) (λ h. cc))
        | is_plus e ↦
            rw (e, splay_loop)
              (assemble-IsNeighbour ls leaf x (node rl z rr) rs k (λ h. tt) (λ h. cc))
      ]
  splay_loop-IsNeighbour (node (node ll y lr) x (node rl z rr)) ne c ls rs k =
      let l = node ll y lr in
      let r = node rl z rr in
      let cut_l = (Cut-append (to_list l) (x ∷ to_list r) c).0 in
      let cut_r = (Cut-append (to_list l) (x ∷ to_list r) c).1.1 in
      let cut_ll = (Cut-append (to_list ll) (y ∷ to_list lr) cut_l).0 in
      let cut_rr = (Cut-append (to_list rl) (z ∷ to_list rr) cut_r).1.1 in
      let kl = splay_loop-IsNeighbour (node ll y lr) (λ h. cc) cut_l in
      let kr = splay_loop-IsNeighbour (node rl z rr) (λ h. cc) cut_r in
      let kll = λ (n : ll ≢ leaf). splay_loop-IsNeighbour ll n cut_ll in
      let krr = λ (n : rr ≢ leaf). splay_loop-IsNeighbour rr n cut_rr in
      elim (sign_cases (sign (comp x))) [
        | is_plus e ↦ rw (e, splay_loop) (go_left-IsNeighbour ll y lr x r _ _ c e kl kll ls rs k)
        | is_neg e ↦ rw (e, splay_loop) (go_right-IsNeighbour l x rl z rr _ _ c e kr krr ls rs k)
        | is_nil e ↦ rw (e, splay_loop) (assemble-IsNeighbour ls l x r rs k (λ h. cc) (λ h. cc))
      ]

  -- In a tree that goes through the key once, the root that a splay leaves is next to the key.
  pub splay-IsNeighbour : (t : Tree A) → Cut (to_list t) → IsNeighbour (splay comp t)
  unfolding splay
  splay-IsNeighbour leaf c = tt
  splay-IsNeighbour (node l x r) c = splay_loop-IsNeighbour (node l x r) (λ h. cc) c [] [] (tt, tt)
