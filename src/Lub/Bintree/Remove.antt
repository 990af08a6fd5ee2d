-- ===== src/Lub/Bintree/Remove.antt =====
-- The removal of a node, against the list of nodes.
use ucli.Base.{[], ◌∷◌, ◌++◌, some, All, All-split, append_assoc, ◌≡◌, refl, ap, sym, ◌∙◌}
use ucli.Base.Int.{ℤ, sign}
use ucli.Lub.Bintree.{Tree, leaf, node, to_list, splay, join, remove_at, remove}
use ucli.Lub.Bintree.Splay.{sign_cases, is_neg, is_nil, is_plus, to_list-splay}
use ucli.Lub.Bintree.Cut.{IsBefore, Cut, Cut-append, IsNeighbour, splay-IsNeighbour}
use ucli.Lub.Bintree.Refine.{
  find_list, delete_list, find_list-before, find_list-after, delete_list-before, sides, splay-Cut,
  nothing_both,
}
use mathlib.Core.Option

module _ {ℓ} {A : Type ℓ} (comp : A → ℤ) where
  join_root :
      (t r : Tree A)
      → All (IsBefore comp) (to_list t)
      → IsNeighbour comp t
      → to_list (join t r) ≡ to_list t ++ to_list r
  unfolding join
  join_root leaf r h n = refl
  join_root (node xl x xr) r h (nl, nr) =
      let (hl, hx) = All-split (IsBefore comp) (to_list xl) (x ∷ to_list xr) h in
      let empty = nothing_both comp (to_list xr) hx.1 (nr hx.0) in
      rw empty (sym (append_assoc (to_list xl) (x ∷ []) (to_list r)))

  -- a tree all of whose nodes are before the key has its last node at the root after a splay
  join-splay :
      (l r : Tree A)
      → All (IsBefore comp) (to_list l)
      → Cut comp (to_list l)
      → to_list (join (splay comp l) r) ≡ to_list l ++ to_list r
  join-splay l r hl c =
      join_root (splay comp l) r (rw to_list-splay hl) (splay-IsNeighbour comp l c)
      ∙ ap (λ xs. xs ++ to_list r) (to_list-splay comp l)

  remove_at-delete_list :
      (t : Tree A)
      → Cut comp (to_list t)
      → IsNeighbour comp t
      → Option.map to_list (remove_at comp t)
        ≡ Option.map (λ _. delete_list comp (to_list t)) (find_list comp (to_list t))
  unfolding remove_at find_list delete_list
  remove_at-delete_list leaf c n = refl
  remove_at-delete_list (node l x r) c n =
      let (hl, hr) = sides comp l x r c n in
      let none_right = find_list-after comp (to_list r) hr in
      let cut_l = (Cut-append comp (to_list l) (x ∷ to_list r) c).0 in
      rw
        (
          find_list-before comp (to_list l) (x ∷ to_list r) hl,
          delete_list-before comp (to_list l) (x ∷ to_list r) hl,
        )
        (elim (sign_cases (sign (comp x))) [
          | is_plus e ↦ rw (e, remove_at, find_list, delete_list) (rw none_right refl)
          | is_nil e ↦ rw (e, remove_at, find_list, delete_list) (ap some (join-splay l r hl cut_l))
          | is_neg e ↦ rw (e, remove_at, find_list, delete_list) (rw none_right refl)
        ])

  -- On a tree in order, `lub_bintree_remove` takes out the node with the key and keeps all others
  -- in their order; where there is no such node it does not get past its assertion.
  pub remove-delete_list :
      (t : Tree A)
      → Cut comp (to_list t)
      → Option.map to_list (remove comp t)
        ≡ Option.map (λ _. delete_list comp (to_list t)) (find_list comp (to_list t))
  remove-delete_list t c =
      unfold remove in
      remove_at-delete_list (splay comp t) (splay-Cut comp t c) (splay-IsNeighbour comp t c)
      ∙ ap (λ xs. Option.map (λ _. delete_list comp xs) (find_list comp xs)) (to_list-splay comp t)
