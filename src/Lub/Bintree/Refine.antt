-- ===== src/Lub/Bintree/Refine.antt =====
-- The tree operations against lists: what each returns, and what it does to the nodes in order.
use ucli.Base.{List, [], ◌∷◌, ◌++◌, Option, none, some, All, append_assoc, ◌≡◌, refl, ap, sym, ◌∙◌}
use ucli.Base.Int.{ℤ, pos, negsuc, neg, nil, plus, sign}
use ucli.Lub.Bintree.{Tree, leaf, node, to_list, splay, root_match, find, insert_at, insert}
use ucli.Lub.Bintree.Splay.{sign_cases, is_neg, is_nil, is_plus, to_list-splay}
use ucli.Lub.Bintree.Cut.{
  IsBefore, IsAfter, Cut, Cut-IsAfter, Cut-IsBefore, IsNeighbour, splay-IsNeighbour,
}

-- The same operations on the list of nodes.
module _ {ℓ} {A : Type ℓ} (comp : A → ℤ) where
  unfoldable pub find_list : List A → Option A
  find_list [] = none
  find_list (x ∷ xs) = elim (sign (comp x)) [ nil ↦ some x | _ ↦ find_list xs ]

  unfoldable pub next_list : List A → Option A
  next_list [] = none
  next_list (x ∷ xs) = elim (sign (comp x)) [ plus ↦ some x | _ ↦ next_list xs ]

  unfoldable pub insert_list : A → List A → List A
  insert_list new [] = new ∷ []
  insert_list new (x ∷ xs) = elim (sign (comp x)) [
    | neg ↦ x ∷ insert_list new xs
    | nil ↦ x ∷ xs
    | plus ↦ new ∷ (x ∷ xs)
  ]

  unfoldable pub delete_list : List A → List A
  delete_list [] = []
  delete_list (x ∷ xs) = elim (sign (comp x)) [ nil ↦ xs | _ ↦ x ∷ delete_list xs ]

-- the outcome of an insertion, by the node with the key that is there already
abbrev pub inserted {ℓ} : {A : Type ℓ} → Option A → ℤ
inserted none = pos 0
inserted (some _) = negsuc 0

module _ {ℓ} {A : Type ℓ} (comp : A → ℤ) where
  pub find_list-before :
      (xs ys : List A) → All (IsBefore comp) xs → find_list comp (xs ++ ys) ≡ find_list comp ys
  unfolding find_list
  find_list-before [] ys a = refl
  find_list-before (x ∷ xs) ys (e, a) = rw (e, find_list) (find_list-before xs ys a)

  pub find_list-after : (ys : List A) → All (IsAfter comp) ys → find_list comp ys ≡ none
  unfolding find_list
  find_list-after [] a = refl
  find_list-after (x ∷ xs) (e, a) = rw (e, find_list) (find_list-after xs a)

  pub next_list-before :
      (xs ys : List A) → All (IsBefore comp) xs → next_list comp (xs ++ ys) ≡ next_list comp ys
  unfolding next_list
  next_list-before [] ys a = refl
  next_list-before (x ∷ xs) ys (e, a) = rw (e, next_list) (next_list-before xs ys a)

  insert_list-before :
      (new : A) (xs ys : List A)
      → All (IsBefore comp) xs
      → insert_list comp new (xs ++ ys) ≡ xs ++ insert_list comp new ys
  unfolding insert_list
  insert_list-before new [] ys a = refl
  insert_list-before new (x ∷ xs) ys (e, a) =
      rw (e, insert_list) (ap (◌∷◌ x) (insert_list-before new xs ys a))

  insert_list-after :
      (new : A) (ys : List A) → All (IsAfter comp) ys → insert_list comp new ys ≡ new ∷ ys
  unfolding insert_list
  insert_list-after new [] a = refl
  insert_list-after new (x ∷ xs) (e, a) = rw (e, insert_list)

  pub delete_list-before :
      (xs ys : List A)
      → All (IsBefore comp) xs
      → delete_list comp (xs ++ ys) ≡ xs ++ delete_list comp ys
  unfolding delete_list
  delete_list-before [] ys a = refl
  delete_list-before (x ∷ xs) ys (e, a) =
      rw (e, delete_list) (ap (◌∷◌ x) (delete_list-before xs ys a))

  -- At such a root the key parts the tree: all to the left are before it, all to the right after.
  pub sides :
      (l : Tree A) (x : A) (r : Tree A)
      → Cut comp (to_list (node l x r))
      → IsNeighbour comp (node l x r)
      → All (IsBefore comp) (to_list l) × All (IsAfter comp) (to_list r)
  sides l x r c (nl, nr) = elim (sign_cases (sign (comp x))) [
    | is_plus e ↦ (nl e, Cut-IsAfter comp (to_list l) x (to_list r) c (λ n. cc))
    | is_nil e ↦ (
      Cut-IsBefore comp (to_list l) x (to_list r) c (λ n. cc),
      Cut-IsAfter comp (to_list l) x (to_list r) c (λ n. cc),
    )
    | is_neg e ↦ (Cut-IsBefore comp (to_list l) x (to_list r) c (λ n. cc), nr e)
  ]

  root_match-find_list :
      (t : Tree A)
      → Cut comp (to_list t)
      → IsNeighbour comp t
      → root_match comp t ≡ find_list comp (to_list t)
  unfolding root_match find_list
  root_match-find_list leaf c n = refl
  root_match-find_list (node l x r) c n =
      let (hl, hr) = sides l x r c n in
      let none_right = find_list-after (to_list r) hr in
      rw (find_list-before (to_list l) (x ∷ to_list r) hl) (elim (sign_cases (sign (comp x))) [
        | is_plus e ↦ rw (e, root_match, find_list) (sym none_right)
        | is_nil e ↦ rw (e, root_match, find_list)
        | is_neg e ↦ rw (e, root_match, find_list) (sym none_right)
      ])

  pub splay-Cut : (t : Tree A) → Cut comp (to_list t) → Cut comp (to_list (splay comp t))
  splay-Cut t c = rw to_list-splay c

  -- On a tree in order, `lub_bintree_find` returns the node with the key, or NULL if there is none,
  -- and keeps all nodes in their order.
  pub find-find_list :
      (t : Tree A)
      → Cut comp (to_list t)
      → ((find comp t).0 ≡ find_list comp (to_list t)) × (to_list (find comp t).1 ≡ to_list t)
  find-find_list t c = (
    unfold find in
        root_match-find_list (splay comp t) (splay-Cut t c) (splay-IsNeighbour comp t c)
        ∙ ap (find_list comp) (to_list-splay comp t),
    unfold find in to_list-splay comp t,
  )

  -- What `lub_bintree_insert` does at a root that parts the tree.
  insert_at-insert_list :
      (new : A) (t : Tree A)
      → Cut comp (to_list t)
      → IsNeighbour comp t
      → ((insert_at comp new t).0 ≡ inserted (find_list comp (to_list t)))
        × (to_list (insert_at comp new t).1 ≡ insert_list comp new (to_list t))
  unfolding insert_at find_list insert_list
  insert_at-insert_list new leaf c n = (refl, refl)
  insert_at-insert_list new (node l x r) c n =
      let (hl, hr) = sides l x r c n in
      let none_right = find_list-after (to_list r) hr in
      let first = insert_list-after new (to_list r) hr in
      rw
        (
          find_list-before (to_list l) (x ∷ to_list r) hl,
          insert_list-before new (to_list l) (x ∷ to_list r) hl,
        )
        (elim (sign_cases (sign (comp x))) [
          | is_plus e ↦ rw (e, insert_at, find_list, insert_list) (rw none_right refl, refl)
          | is_nil e ↦ rw (e, insert_at, find_list, insert_list) (refl, refl)
          | is_neg e ↦
              rw (e, insert_at, find_list, insert_list)
                (rw none_right refl, append_assoc (to_list l) (x ∷ []) (new ∷ to_list r) ∙ rw first)
        ])

  -- On a tree in order, `lub_bintree_insert` answers -1 exactly if there is a node with the key
  -- already, and then keeps the nodes as they are; else it answers 0, and the new node stands
  -- behind the nodes before its key and in front of the others, which are all kept.
  pub insert-insert_list :
      (new : A) (t : Tree A)
      → Cut comp (to_list t)
      → ((insert comp new t).0 ≡ inserted (find_list comp (to_list t)))
        × (to_list (insert comp new t).1 ≡ insert_list comp new (to_list t))
  insert-insert_list new t c =
      let (code, nodes) =
        insert_at-insert_list new (splay comp t) (splay-Cut t c) (splay-IsNeighbour comp t c) in
      let same = to_list-splay comp t in
      (
        unfold insert in code ∙ ap (λ xs. inserted (find_list comp xs)) same,
        unfold insert in nodes ∙ ap (insert_list comp new) same,
      )

  -- a list of nodes that are before a key and after it is empty
  pub nothing_both : (ys : List A) → All (IsBefore comp) ys → All (IsAfter comp) ys → ys ≡ []
  nothing_both [] hb ha = refl
  nothing_both (y ∷ ys) (hb, _) (ha, _) = cc
