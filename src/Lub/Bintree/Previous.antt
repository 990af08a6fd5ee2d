-- ===== src/Lub/Bintree/Previous.antt =====
-- contrib/lub/bintree: the last node, and the last one in front of a key.
use ucli.Base.{List, [], ◌∷◌, ◌++◌, Option, none, some, All, All-split, ◌≡◌, refl, ap, ◌∙◌, arith}
use ucli.Base.Int.{ℤ, negsuc, neg, sign}
use ucli.Lub.Bintree.{Tree, leaf, node, to_list, splay, root_of}
use ucli.Lub.Bintree.Splay.{sign_cases, is_neg, is_nil, is_plus, to_list-splay}
use ucli.Lub.Bintree.Cut.{IsBefore, IsAfter, Cut, Cut-append, IsNeighbour, splay-IsNeighbour}
use ucli.Lub.Bintree.Refine.{sides, splay-Cut, nothing_both}

module _ {ℓ} {A : Type ℓ} where
  unfoldable pub findlast : Tree A → Option A × Tree A
  unfolding splay root_of
  findlast root = let root' = splay (λ _. negsuc 0) root in (root_of root', root')

  previous_of : (A → ℤ) → Tree A → Option A × Tree A
  previous_of comp leaf = (none, leaf)
  previous_of comp (node l x r) = elim (sign (comp x)) [
    | neg ↦ (some x, node l x r)
    | _ ↦ let l' = splay comp l in (root_of l', node l' x r)
  ]

  unfoldable pub findprevious : (A → ℤ) → Tree A → Option A × Tree A
  unfolding splay previous_of root_of
  findprevious comp root = previous_of comp (splay comp root)

  abbrev pub later_or : Option A → Option A → Option A
  later_or (some y) o = some y
  later_or none o = o

  abbrev only_before : (A → ℤ) → A → Option A
  only_before comp x = elim (sign (comp x)) [ neg ↦ some x | _ ↦ none ]

  -- the last node of a list that is before the key
  unfoldable pub previous_list : (A → ℤ) → List A → Option A
  previous_list comp [] = none
  previous_list comp (x ∷ xs) = later_or (previous_list comp xs) (only_before comp x)

  previous_list-append :
      (comp : A → ℤ) (xs ys : List A)
      → previous_list comp (xs ++ ys) ≡ later_or (previous_list comp ys) (previous_list comp xs)
  unfolding previous_list
  previous_list-append comp [] ys = ground arith
  previous_list-append comp (x ∷ xs) ys = rw (previous_list-append comp xs ys) (ground arith)

  previous_list-after :
      (comp : A → ℤ) (ys : List A) → All (IsAfter comp) ys → previous_list comp ys ≡ none
  unfolding previous_list
  previous_list-after comp [] a = refl
  previous_list-after comp (x ∷ xs) (e, a) =
      rw (previous_list-after comp xs a) (rw (e, only_before) refl)

  abbrev last : List A → Option A
  last [] = none
  last (x ∷ xs) = later_or (last xs) (some x)

  -- among nodes that are all before the key, the last one
  root_of_last :
      (comp : A → ℤ) (t : Tree A)
      → All (IsBefore comp) (to_list t)
      → IsNeighbour comp t
      → root_of t ≡ previous_list comp (to_list t)
  unfolding root_of previous_list
  root_of_last comp leaf h n = refl
  root_of_last comp (node l x r) h (nl, nr) =
      let (hl, hx) = All-split (IsBefore comp) (to_list l) (x ∷ to_list r) h in
      let empty = nothing_both comp (to_list r) hx.1 (nr hx.0) in
      rw (empty, previous_list-append comp (to_list l) (x ∷ []))
        (rw (hx.0, only_before, later_or) refl)

  root_of-splay :
      (comp : A → ℤ) (t : Tree A)
      → All (IsBefore comp) (to_list t)
      → Cut comp (to_list t)
      → root_of (splay comp t) ≡ previous_list comp (to_list t)
  root_of-splay comp t h c =
      root_of_last comp (splay comp t) (rw to_list-splay h) (splay-IsNeighbour comp t c)
      ∙ ap (previous_list comp) (to_list-splay comp t)

  previous_of-previous_list :
      (comp : A → ℤ) (t : Tree A)
      → Cut comp (to_list t)
      → IsNeighbour comp t
      → ((previous_of comp t).0 ≡ previous_list comp (to_list t))
        × (to_list (previous_of comp t).1 ≡ to_list t)
  unfolding previous_of previous_list
  previous_of-previous_list comp leaf c n = (refl, refl)
  previous_of-previous_list comp (node l x r) c n =
      let (hl, hr) = sides comp l x r c n in
      let cut_l = (Cut-append comp (to_list l) (x ∷ to_list r) c).0 in
      let same = to_list-splay comp l in
      rw
        (
          previous_list-append comp (to_list l) (x ∷ to_list r),
          previous_list-after comp (to_list r) hr,
        )
        (elim (sign_cases (sign (comp x))) [
          | is_neg e ↦ rw (e, previous_of, only_before, later_or) (refl, refl)
          | is_nil e ↦
              rw (e, previous_of, only_before, later_or) (root_of-splay comp l hl cut_l, rw same)
          | is_plus e ↦
              rw (e, previous_of, only_before, later_or) (root_of-splay comp l hl cut_l, rw same)
        ])

  -- On a tree in order, `lub_bintree_findprevious` returns the last node in front of the key, which
  -- need not be in the tree, or NULL if there is none, and keeps all nodes in their order.
  pub findprevious-previous_list :
      (comp : A → ℤ) (t : Tree A)
      → Cut comp (to_list t)
      → ((findprevious comp t).0 ≡ previous_list comp (to_list t))
        × (to_list (findprevious comp t).1 ≡ to_list t)
  findprevious-previous_list comp t c =
      let (previous, nodes) =
        previous_of-previous_list comp (splay comp t) (splay-Cut comp t c)
          (splay-IsNeighbour comp t c) in
      let same = to_list-splay comp t in
      (
        unfold findprevious in previous ∙ ap (previous_list comp) same,
        unfold findprevious in nodes ∙ same,
      )
