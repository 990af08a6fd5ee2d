-- ===== src/Lub/Bintree.antt =====
-- contrib/lub/bintree: the splay tree that holds views, ptypes and commands. A client node carries
-- its links, and is in one tree at most, so a tree of pointers is a value here. `comp` is the
-- tree's `compareFn` with the key that is looked for already given; the code uses its sign alone.
pub mod Splay
pub mod Cut
pub mod Refine
pub mod Remove
pub mod Next
pub mod Previous
pub mod Walk
pub mod Sorted
use ucli.Base.{Bool, true, false, List, [], ◌∷◌, ◌++◌, Option, none, some}
use ucli.Base.Int.{ℤ, pos, negsuc, Sign, neg, nil, plus, sign}

pub data Tree {ℓ} (A : Type ℓ) : Type ℓ where
  leaf : Tree A
  node : Tree A → A → Tree A → Tree A

-- The tree of smaller nodes, `N.right`, from `leftTreeMax` up: each node's right link is the node
-- before it. And the tree of greater nodes, `N.left`, from `rightTreeMin` up.
abbrev pub Lefts {ℓ} : Type ℓ → Type ℓ
Lefts A = List (Tree A × A)

abbrev pub Rights {ℓ} : Type ℓ → Type ℓ
Rights A = List (A × Tree A)

module _ {ℓ} {A : Type ℓ} where
  -- the client nodes in the order of the tree
  abbrev pub to_list : Tree A → List A
  to_list leaf = []
  to_list (node l x r) = to_list l ++ (x ∷ to_list r)

  pub assemble_left : Lefts A → Tree A → Tree A
  assemble_left [] t = t
  assemble_left ((l, x) ∷ ls) t = assemble_left ls (node l x t)

  pub assemble_right : Rights A → Tree A → Tree A
  assemble_right [] t = t
  assemble_right ((x, r) ∷ rs) t = assemble_right rs (node t x r)

  -- the statements behind the loop, where `t` is the node `x` with links `l` and `r`
  assemble : Lefts A → Tree A → A → Tree A → Rights A → Tree A
  assemble ls l x r rs = node (assemble_left ls l) x (assemble_right rs r)

  -- the branch `comp > 0` where `t->left` is `node ll y lr`; `to_l` and `to_ll` go round the loop
  -- again at it and at its left
  go_left :
      (A → ℤ)
      → Tree A
      → A
      → Tree A
      → A
      → Tree A
      → (to_l to_ll : Lefts A → Rights A → Tree A) → Lefts A
      → Rights A
      → Tree A
  go_left comp ll y lr x r to_l to_ll ls rs = elim (sign (comp y)) [
    | plus ↦ elim ll [
      | leaf ↦ assemble ls leaf y (node lr x r) rs
      | node _ _ _ ↦ to_ll ls ((y, node lr x r) ∷ rs)
    ]
    | _ ↦ to_l ls ((x, r) ∷ rs)
  ]

  -- the branch `comp < 0` where `t->right` is `node rl y rr`
  go_right :
      (A → ℤ)
      → Tree A
      → A
      → Tree A
      → A
      → Tree A
      → (to_r to_rr : Lefts A → Rights A → Tree A) → Lefts A
      → Rights A
      → Tree A
  go_right comp l x rl y rr to_r to_rr ls rs = elim (sign (comp y)) [
    | neg ↦ elim rr [
      | leaf ↦ assemble ls (node l x rl) y leaf rs
      | node _ _ _ ↦ to_rr ((node l x rl, y) ∷ ls) rs
    ]
    | _ ↦ to_r ((l, x) ∷ ls) rs
  ]

  -- the loop; it is not entered, and not gone round, with a NULL `t`
  pub splay_loop : (A → ℤ) → Tree A → Lefts A → Rights A → Tree A
  splay_loop comp leaf ls rs = leaf
  splay_loop comp (node leaf x leaf) ls rs = assemble ls leaf x leaf rs
  splay_loop comp (node (node ll y lr) x leaf) ls rs = elim (sign (comp x)) [
    | plus ↦ go_left comp ll y lr x leaf (splay_loop comp (node ll y lr)) (splay_loop comp ll) ls rs
    | _ ↦ assemble ls (node ll y lr) x leaf rs
  ]
  splay_loop comp (node leaf x (node rl y rr)) ls rs = elim (sign (comp x)) [
    | neg ↦ go_right comp leaf x rl y rr (splay_loop comp (node rl y rr)) (splay_loop comp rr) ls rs
    | _ ↦ assemble ls leaf x (node rl y rr) rs
  ]
  splay_loop comp (node (node ll y lr) x (node rl z rr)) ls rs = elim (sign (comp x)) [
    | plus ↦
        go_left comp ll y lr x (node rl z rr) (splay_loop comp (node ll y lr)) (splay_loop comp ll)
          ls rs
    | neg ↦
        go_right comp (node ll y lr) x rl z rr (splay_loop comp (node rl z rr)) (splay_loop comp rr)
          ls rs
    | nil ↦ assemble ls (node ll y lr) x (node rl z rr) rs
  ]

  pub splay : (A → ℤ) → Tree A → Tree A
  unfolding splay_loop go_left go_right assemble assemble_left assemble_right
  splay comp t = splay_loop comp t [] []

  root_match : (A → ℤ) → Tree A → Option A
  root_match comp leaf = none
  root_match comp (node l x r) = elim (sign (comp x)) [ nil ↦ some x | _ ↦ none ]

  -- the client node with the key, and the tree as the search leaves it
  unfoldable pub find : (A → ℤ) → Tree A → Option A × Tree A
  unfolding splay root_match
  find comp root = let root' = splay comp root in (root_match comp root', root')

  root_of : Tree A → Option A
  root_of leaf = none
  root_of (node l x r) = some x

  pub findfirst : Tree A → Option A × Tree A
  unfolding splay root_of
  findfirst root = let root' = splay (λ _. pos 1) root in (root_of root', root')

  next_of : (A → ℤ) → Tree A → Option A × Tree A
  next_of comp leaf = (none, leaf)
  next_of comp (node l x r) = elim (sign (comp x)) [
    | plus ↦ (some x, node l x r)
    | _ ↦ let r' = splay comp r in (root_of r', node l x r')
  ]

  unfoldable pub findnext : (A → ℤ) → Tree A → Option A × Tree A
  unfolding splay next_of root_of
  findnext comp root = next_of comp (splay comp root)

  insert_at : (A → ℤ) → A → Tree A → ℤ × Tree A
  insert_at comp new leaf = (pos 0, node leaf new leaf)
  insert_at comp new (node l x r) = elim (sign (comp x)) [
    | plus ↦ (pos 0, node l new (node leaf x r))
    | neg ↦ (pos 0, node (node l x leaf) new r)
    | nil ↦ (negsuc 0, node l x r)
  ]

  -- `comp` compares with the key of the node `new`
  unfoldable pub insert : (A → ℤ) → A → Tree A → ℤ × Tree A
  unfolding splay insert_at
  insert comp new root = insert_at comp new (splay comp root)

  -- the root's right link is set to `r`
  join : Tree A → Tree A → Tree A
  join leaf r = r
  join (node xl x xr) r = node xl x r

  remove_at : (A → ℤ) → Tree A → Option (Tree A)
  remove_at comp leaf = none
  remove_at comp (node l x r) = elim (sign (comp x)) [
    | nil ↦ some (join (splay comp l) r)
    | _ ↦ none
  ]

  -- none: the tree is empty, or the assertion fails
  pub remove : (A → ℤ) → Tree A → Option (Tree A)
  unfolding splay remove_at join
  remove comp root = remove_at comp (splay comp root)
