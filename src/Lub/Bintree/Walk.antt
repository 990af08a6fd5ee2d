-- ===== src/Lub/Bintree/Walk.antt =====
-- contrib/lub/bintree: the iterator, with the client's comparison and key, and the loop by which
-- its clients go through a whole tree.
use ucli.Base.{
  ℕ, zero, suc, ◌≤◌, ◌<◌, Bool, true, List, [], ◌∷◌, Option, none, some, All, length, List-cases,
  if◌then◌else◌, ◌≡◌, inl, inr, refl, sym, ap, ◌∙◌, arith,
}
use mathlib.Core.Path.{subst}
use ucli.Base.Int.{ℤ, neg, nil, plus, sign, flip}
use ucli.Base.Run.{Run, ok, abort, ◌>>=◌}
use ucli.Lub.Bintree.{Tree, to_list, findfirst, findnext}
use ucli.Lub.Bintree.Splay.{sign_cases, is_neg, is_nil, is_plus}
use ucli.Lub.Bintree.Refine.{next_list}
use ucli.Lub.Bintree.Next.{first, findnext-next_list, findfirst-first}
use ucli.Lub.Bintree.Cut.{Cut}
use ucli.Lub.Bintree.Previous.{findprevious}
use ucli.Lub.Bintree.Sorted.{IsKeyOrder, IsSorted, AllValid, IsSorted-Cut}

-- the nodes from the first one on that is behind the key
unfoldable pub behind {ℓ} : {A : Type ℓ} → (A → ℤ) → List A → List A
behind comp [] = []
behind comp (x ∷ xs) =
    let rest = behind comp xs in elim (sign (comp x)) [ plus ↦ x ∷ xs | _ ↦ rest ]

module _ {ℓ} {A : Type ℓ} where
  pub next_list-behind : (comp : A → ℤ) (xs : List A) → next_list comp xs ≡ first (behind comp xs)
  unfolding next_list behind
  next_list-behind comp [] = refl
  next_list-behind comp (x ∷ xs) = elim (sign_cases (sign (comp x))) [
    | is_neg e ↦ rw (e, next_list, behind) (next_list-behind comp xs)
    | is_nil e ↦ rw (e, next_list, behind) (next_list-behind comp xs)
    | is_plus e ↦ rw (e, next_list, behind) refl
  ]

  pub behind-All : (comp : A → ℤ) (P : A → Type 0) (xs : List A) → All P xs → All P (behind comp xs)
  unfolding behind
  behind-All comp P [] a = tt
  behind-All comp P (x ∷ xs) (p, a) = elim (sign_cases (sign (comp x))) [
    | is_neg e ↦ rw (e, behind) (behind-All comp P xs a)
    | is_nil e ↦ rw (e, behind) (behind-All comp P xs a)
    | is_plus e ↦ rw (e, behind) (p, a)
  ]

  pub length-behind : (comp : A → ℤ) (xs : List A) → length (behind comp xs) ≤ length xs
  unfolding behind
  length-behind comp [] = omega arith
  length-behind comp (x ∷ xs) = elim (sign_cases (sign (comp x))) [
    | is_neg e ↦ rw (e, behind) (omega (arith, length-behind comp xs))
    | is_nil e ↦ rw (e, behind) (omega (arith, length-behind comp xs))
    | is_plus e ↦ rw (e, behind) (omega arith)
  ]

module _ {ℓ κ} {A : Type ℓ} {K : Type κ} (compare : A → K → ℤ) (key : A → K) (Valid : K → Type 0)
    (order : IsKeyOrder compare key Valid) where
  pub compare-itself : (x : A) → sign (compare x (key x)) ≡ nil
  compare-itself x = elim (sign_cases (sign (compare x (key x)))) [
    | is_nil e ↦ e
    | is_neg e ↦ let p : neg ≡ plus = sym e ∙ order.flips x x ∙ ap flip e in cc
    | is_plus e ↦ let p : plus ≡ neg = sym e ∙ order.flips x x ∙ ap flip e in cc
  ]

  -- all nodes behind a node are behind its key
  behind-itself :
      (x : A) (xs : List A)
      → All (λ y. sign (compare x (key y)) ≡ neg) xs
      → behind (λ y. compare y (key x)) xs ≡ xs
  unfolding behind
  behind-itself x [] h = refl
  behind-itself x (y ∷ ys) (e, h) =
      let p : sign (compare y (key x)) ≡ plus = order.flips y x ∙ ap flip e in rw (p, behind) refl

  behind_front :
      (x : A) (xs : List A) (y : A) (ys : List A)
      → All (λ z. sign (compare x (key z)) ≡ neg) xs
      → x ∷ xs ≡ y ∷ ys
      → behind (λ z. compare z (key y)) (x ∷ xs) ≡ ys
  unfolding behind
  behind_front x xs y ys a e =
      let p : x ≡ y = cc in
      let q : xs ≡ ys = cc in rw (← p) (rw (compare-itself x, behind) (behind-itself x xs a ∙ q))

  behind_past :
      (x : A) (xs : List A) (k : K) (y : A) (ys : List A)
      → All (λ z. sign (compare x (key z)) ≡ neg) xs
      → behind (λ z. compare z k) xs ≡ y ∷ ys
      → behind (λ z. compare z (key y)) xs ≡ ys
      → behind (λ z. compare z (key y)) (x ∷ xs) ≡ ys
  unfolding behind
  behind_past x xs k y ys a e h =
      let all =
        subst (λ l. All (λ z. sign (compare x (key z)) ≡ neg) l) e
          (behind-All (λ z. compare z k) (λ z. sign (compare x (key z)) ≡ neg) xs a) in
      rw (all.0, behind) h

  -- In a list in order, the nodes behind a node that is behind a key are the others behind that key.
  pub behind_next :
      (k : K) (xs : List A) (y : A) (ys : List A)
      → IsSorted compare key xs
      → behind (λ x. compare x k) xs ≡ y ∷ ys
      → behind (λ x. compare x (key y)) xs ≡ ys
  unfolding behind
  behind_next k [] y ys s h = cc
  behind_next k (x ∷ xs) y ys (a, s) h = elim (sign_cases (sign (compare x k))) [
    | is_plus e ↦
        let here : behind (λ z. compare z k) (x ∷ xs) ≡ x ∷ xs = rw (e, behind) refl in
        let same : x ∷ xs ≡ y ∷ ys = sym here ∙ h in behind_front x xs y ys a same
    | is_nil e ↦
        let later : behind (λ z. compare z k) (x ∷ xs) ≡ behind (λ z. compare z k) xs =
          rw (e, behind) refl in
        behind_past x xs k y ys a (sym later ∙ h) (behind_next k xs y ys s (sym later ∙ h))
    | is_neg e ↦
        let later : behind (λ z. compare z k) (x ∷ xs) ≡ behind (λ z. compare z k) xs =
          rw (e, behind) refl in
        behind_past x xs k y ys a (sym later ∙ h) (behind_next k xs y ys s (sym later ∙ h))
  ]

  -- what `lub_bintree_findnext` answers on a tree in order
  pub found_next :
      (k : K) (tree : Tree A) (xs : List A)
      → to_list tree ≡ xs
      → Valid k
      → IsSorted compare key xs
      → AllValid key Valid xs
      → ((findnext (λ x. compare x k) tree).0 ≡ first (behind (λ x. compare x k) xs))
        × (to_list (findnext (λ x. compare x k) tree).1 ≡ xs)
  found_next k tree xs e v sorted valid =
      let cut = IsSorted-Cut compare key Valid order k xs v valid sorted in
      let (next, nodes) =
        findnext-next_list (λ x. compare x k) tree
          (subst (λ l. Cut (λ x. compare x k) l) (sym e) cut) in
      (
        next ∙ ap (next_list (λ x. compare x k)) e ∙ next_list-behind (λ x. compare x k) xs,
        nodes ∙ e,
      )

-- `K` is the content of the key's storage; `fits` tells that the client's getkeyFn keeps to it.
pub record Iterator {ℓ κ} (A : Type ℓ) (K : Type κ) : Type (ℓ ⊔ κ) where
  pub tree : Tree A
  pub key : K

module _ {ℓ κ} {A : Type ℓ} {K : Type κ} (compare : A → K → ℤ) (key : A → K) (fits : A → Bool) where
  pub iterator_init : Iterator A K → Tree A → Option A → Run (Iterator A K)
  iterator_init this tree none = ok this
  iterator_init this tree (some x) =
      if fits x then ok (record { tree = tree; key = key x }) else abort

  -- the search has changed the iterator's tree when the key is filled out again
  moved : Iterator A K → Option A × Tree A → Run (Option A × Iterator A K)
  moved this (found, tree) = do
    this' ← iterator_init (record this { tree = tree }) tree found
    ok (found, this')

  pub iterator_next : Iterator A K → Run (Option A × Iterator A K)
  unfolding iterator_init moved findnext
  iterator_next this = moved this (findnext (λ x. compare x this.key) this.tree)

  unfoldable pub iterator_previous : Iterator A K → Run (Option A × Iterator A K)
  unfolding iterator_init moved findprevious
  iterator_previous this = moved this (findprevious (λ x. compare x this.key) this.tree)

  -- The nodes that a client's loop `while(v) { ...; v = lub_bintree_iterator_next(&iter); }` visits;
  -- the first argument is fuel.
  visit : ℕ → Iterator A K → Option A → Run (List A)
  visit n this none = ok []
  visit zero this (some x) = abort
  visit (suc n) this (some x) = do
    (next, this') ← iterator_next this
    rest ← visit n this' next
    ok (x ∷ rest)

  visit_from : Iterator A K → Option A × Tree A → Run (List A)
  visit_from this (v, tree) = do
    iter ← iterator_init this tree v
    visit (length (to_list tree)) iter v

  -- the loop from the first node on; at the start the iterator holds anything
  unfoldable pub visit_all : Iterator A K → Tree A → Run (List A)
  unfolding visit_from visit iterator_next findfirst
  visit_all this tree = visit_from this (findfirst tree)

module _ {ℓ κ} {A : Type ℓ} {K : Type κ} (compare : A → K → ℤ) (key : A → K) (Valid : K → Type 0)
    (order : IsKeyOrder compare key Valid) (fits : A → Bool) where
  -- the nodes are in order, and the iterator can hold the key of each
  abbrev pub IsWalkable : List A → Type 0
  IsWalkable xs = IsSorted compare key xs × AllValid key Valid xs × All (λ x. fits x ≡ true) xs

  visit-behind :
      (n : ℕ) (this : Iterator A K) (x : A) (xs : List A)
      → to_list this.tree ≡ xs
      → this.key ≡ key x
      → Valid (key x)
      → IsWalkable xs
      → length (behind (λ y. compare y (key x)) xs) < n
      → visit compare key fits n this (some x) ≡ ok (x ∷ behind (λ y. compare y (key x)) xs)
  unfolding visit iterator_next moved iterator_init
  visit-behind zero this x xs e k v w b = ground arith
  visit-behind (suc n) this x xs e k v w b =
      let (next, nodes) = found_next compare key Valid order (key x) this.tree xs e v w.0 w.1 in
      let tree' = (findnext (λ y. compare y (key x)) this.tree).1 in
      elim (List-cases (behind (λ y. compare y (key x)) xs)) [
        | inl none_left ↦
            let p : (findnext (λ y. compare y (key x)) this.tree).0 ≡ none =
              next ∙ ap first none_left in
            rw (none_left, k) (rw p refl)
        | inr (y, ys, more) ↦
            let p : (findnext (λ y. compare y (key x)) this.tree).0 ≡ some y =
              next ∙ ap first more in
            let all_fit = behind-All (λ z. compare z (key x)) (λ z. fits z ≡ true) xs w.2 in
            let all_valid = behind-All (λ z. compare z (key x)) (λ z. Valid (key z)) xs w.1 in
            let fit = subst (λ l. All (λ z. fits z ≡ true) l) more all_fit in
            let valid = subst (λ l. AllValid key Valid l) more all_valid in
            let step = behind_next compare key Valid order (key x) xs y ys w.0 more in
            let long : length (behind (λ z. compare z (key x)) xs) ≡ suc (length ys) =
              ap length more in
            let lt : length (behind (λ z. compare z (key y)) xs) < n =
              rw step (omega (arith, long, b)) in
            let rest =
              visit-behind n (record { tree = tree'; key = key y }) y xs nodes refl valid.0 w lt in
            rw (more, k) (rw p (rw (fit.0) (rw rest (rw step refl))))
      ]

  -- On a tree in order whose keys fit into the iterator, the loop `for(lub_bintree_iterator_init(&iter,
  -- tree,v = lub_bintree_findfirst(tree)); v; v = lub_bintree_iterator_next(&iter))` ends, and visits
  -- all nodes once, in their order.
  pub visit_all-to_list :
      (this : Iterator A K) (tree : Tree A)
      → IsWalkable (to_list tree)
      → visit_all compare key fits this tree ≡ ok (to_list tree)
  unfolding visit_all visit_from iterator_init
  visit_all-to_list this tree w =
      let (found, nodes) = findfirst-first tree in
      elim (List-cases (to_list tree)) [
        | inl empty ↦
            let p : (findfirst tree).0 ≡ none = found ∙ ap first empty in rw p (rw empty refl)
        | inr (x, xs, more) ↦
            let p : (findfirst tree).0 ≡ some x = found ∙ ap first more in
            let w' = subst IsWalkable more w in
            let others = behind_front compare key Valid order x xs x xs w'.0.0 refl in
            let size : length (to_list (findfirst tree).1) ≡ suc (length xs) =
              ap length (nodes ∙ more) in
            let lt : length (behind (λ y. compare y (key x)) (x ∷ xs)) < suc (length xs) =
              rw others (omega arith) in
            let visited =
              visit-behind (suc (length xs)) (record { tree = (findfirst tree).1; key = key x }) x
                (x ∷ xs) (nodes ∙ more) refl w'.1.0 w' lt in
            rw p (rw (w'.2.0) (rw size (rw visited (rw others (rw more refl)))))
      ]
