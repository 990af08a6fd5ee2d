-- ===== src/Lub/Bintree/Next.antt =====
-- The first node of a tree, and the first one behind a key.
use ucli.Base.{List, [], ◌∷◌, Option, none, some, All, All-split, ◌≡◌, refl, ap, ◌∙◌}
use ucli.Base.Int.{ℤ, pos, sign}
use ucli.Lub.Bintree.{Tree, leaf, node, to_list, splay, root_of, findfirst, next_of, findnext}
use ucli.Lub.Bintree.Splay.{sign_cases, is_neg, is_nil, is_plus, to_list-splay}
use ucli.Lub.Bintree.Cut.{IsAfter, Cut, Cut-append, IsNeighbour, splay-IsNeighbour}
use ucli.Lub.Bintree.Refine.{next_list, next_list-before, sides, splay-Cut, nothing_both}

module _ {ℓ} {A : Type ℓ} (comp : A → ℤ) where
  -- a tree all of whose nodes are after the key has its first node at the root after a splay
  root_of_first :
      (t : Tree A)
      → All (IsAfter comp) (to_list t)
      → IsNeighbour comp t
      → root_of t ≡ next_list comp (to_list t)
  unfolding root_of next_list
  root_of_first leaf h n = refl
  root_of_first (node l x r) h (nl, nr) =
      let (hl, hx) = All-split (IsAfter comp) (to_list l) (x ∷ to_list r) h in
      let empty = nothing_both comp (to_list l) (nl hx.0) hl in rw empty (rw (hx.0, next_list))

  root_of-splay :
      (t : Tree A)
      → All (IsAfter comp) (to_list t)
      → Cut comp (to_list t)
      → root_of (splay comp t) ≡ next_list comp (to_list t)
  root_of-splay t h c =
      root_of_first (splay comp t) (rw to_list-splay h) (splay-IsNeighbour comp t c)
      ∙ ap (next_list comp) (to_list-splay comp t)

  next_of-next_list :
      (t : Tree A)
      → Cut comp (to_list t)
      → IsNeighbour comp t
      → ((next_of comp t).0 ≡ next_list comp (to_list t)) × (to_list (next_of comp t).1 ≡ to_list t)
  unfolding next_of next_list
  next_of-next_list leaf c n = (refl, refl)
  next_of-next_list (node l x r) c n =
      let (hl, hr) = sides comp l x r c n in
      let cut_r = (Cut-append comp (to_list l) (x ∷ to_list r) c).1.1 in
      let same = to_list-splay comp r in
      rw (next_list-before comp (to_list l) (x ∷ to_list r) hl) (elim (sign_cases (sign (comp x))) [
        | is_plus e ↦ rw (e, next_of, next_list) (refl, refl)
        | is_nil e ↦ rw (e, next_of, next_list) (root_of-splay r hr cut_r, rw same)
        | is_neg e ↦ rw (e, next_of, next_list) (root_of-splay r hr cut_r, rw same)
      ])

  -- On a tree in order, `lub_bintree_findnext` returns the first node after the key, which need not
  -- be in the tree, or NULL if there is none, and keeps all nodes in their order.
  pub findnext-next_list :
      (t : Tree A)
      → Cut comp (to_list t)
      → ((findnext comp t).0 ≡ next_list comp (to_list t))
        × (to_list (findnext comp t).1 ≡ to_list t)
  findnext-next_list t c =
      let (next, nodes) =
        next_of-next_list (splay comp t) (splay-Cut comp t c) (splay-IsNeighbour comp t c) in
      let same = to_list-splay comp t in
      (unfold findnext in next ∙ ap (next_list comp) same, unfold findnext in nodes ∙ same)

module _ {ℓ} {A : Type ℓ} where
  abbrev pub first : List A → Option A
  first [] = none
  first (x ∷ xs) = some x

  All-IsAfter : (xs : List A) → All (IsAfter (λ _. pos 1)) xs
  All-IsAfter [] = tt
  All-IsAfter (x ∷ xs) = (refl, All-IsAfter xs)

  Cut-all : (xs : List A) → Cut (λ _. pos 1) xs
  Cut-all [] = tt
  Cut-all (x ∷ xs) = (λ _. All-IsAfter xs, Cut-all xs)

  next_list-first : (xs : List A) → next_list (λ _. pos 1) xs ≡ first xs
  unfolding next_list
  next_list-first [] = refl
  next_list-first (x ∷ xs) = refl

  -- `lub_bintree_findfirst` returns the first node of any tree, or NULL if it is empty, and keeps all
  -- nodes in their order.
  pub findfirst-first :
      (t : Tree A) → ((findfirst t).0 ≡ first (to_list t)) × (to_list (findfirst t).1 ≡ to_list t)
  findfirst-first t = (
    unfold findfirst in
        root_of-splay (λ _. pos 1) t (All-IsAfter (to_list t)) (Cut-all (to_list t))
        ∙ next_list-first (to_list t),
    unfold findfirst in to_list-splay (λ _. pos 1) t,
  )
