-- ===== src/Lub/Bintree/Sorted.antt =====
-- Trees kept in the order of their keys. A client's comparison is an order of the keys that are in
-- use (`IsKeyOrder`); a list of nodes in that order goes through every such key once.
use ucli.Base.{List, [], ◌∷◌, map, All, ◌≡◌, ◌≢◌, ◌⊎◌, inl, inr, sym, ap, ◌∙◌}
use mathlib.Core.Path.{subst}
use ucli.Base.Int.{ℤ, neg, nil, sign, flip}
use ucli.Lub.Bintree.Splay.{sign_cases, is_neg, is_nil, is_plus}
use ucli.Lub.Bintree.Cut.{Cut, IsAfter}
use ucli.Lub.Bintree.Refine.{insert_list, delete_list}

-- What a client's compareFn has to satisfy, for nodes and keys that meet `Valid`.
pub record IsKeyOrder {ℓ κ} {A : Type ℓ} {K : Type κ} (compare : A → K → ℤ) (key : A → K)
    (Valid : K → Type 0) : Type (ℓ ⊔ κ) where
  pub flips : (x y : A) → sign (compare x (key y)) ≡ flip (sign (compare y (key x)))
  pub trans :
      (x y : A) (k : K)
      → Valid (key x)
      → Valid (key y)
      → Valid k
      → sign (compare x (key y)) ≡ neg
      → (sign (compare y k) ≡ neg) ⊎ (sign (compare y k) ≡ nil)
      → sign (compare x k) ≡ neg

module _ {ℓ κ} {A : Type ℓ} {K : Type κ} (compare : A → K → ℤ) (key : A → K) where
  -- Each node is before the keys of all the nodes behind it.
  abbrev pub IsSorted : List A → Type 0
  IsSorted [] = Unit
  IsSorted (x ∷ xs) = All (λ y. sign (compare x (key y)) ≡ neg) xs × IsSorted xs

abbrev pub AllValid {ℓ κ} : {A : Type ℓ} {K : Type κ} → (A → K) → (K → Type 0) → List A → Type 0
AllValid key Valid xs = All (λ x. Valid (key x)) xs

module _ {ℓ} {A : Type ℓ} (comp : A → ℤ) (P : A → Type 0) where
  pub insert_list-All : (new : A) (xs : List A) → P new → All P xs → All P (insert_list comp new xs)
  unfolding insert_list
  insert_list-All new [] p a = (p, tt)
  insert_list-All new (x ∷ xs) p (px, a) = elim (sign_cases (sign (comp x))) [
    | is_neg e ↦ rw (e, insert_list) (px, insert_list-All new xs p a)
    | is_nil e ↦ rw (e, insert_list) (px, a)
    | is_plus e ↦ rw (e, insert_list) (p, (px, a))
  ]

  delete_list-All : (xs : List A) → All P xs → All P (delete_list comp xs)
  unfolding delete_list
  delete_list-All [] a = tt
  delete_list-All (x ∷ xs) (px, a) = elim (sign_cases (sign (comp x))) [
    | is_neg e ↦ rw (e, delete_list) (px, delete_list-All xs a)
    | is_nil e ↦ rw (e, delete_list) a
    | is_plus e ↦ rw (e, delete_list) (px, delete_list-All xs a)
  ]

module _ {ℓ κ} {A : Type ℓ} {K : Type κ} (compare : A → K → ℤ) (key : A → K) (Valid : K → Type 0)
    (order : IsKeyOrder compare key Valid) where
  IsAfter-key :
      (x : A) (k : K) (ys : List A)
      → Valid (key x)
      → Valid k
      → AllValid key Valid ys
      → All (λ y. sign (compare x (key y)) ≡ neg) ys
      → sign (compare x k) ≢ neg
      → All (IsAfter (λ y. compare y k)) ys
  IsAfter-key x k [] vx vk vs h n = tt
  IsAfter-key x k (y ∷ ys) vx vk (vy, vs) (e, h) n = (
    elim (sign_cases (sign (compare y k))) [
      | is_plus p ↦ p
      | is_neg p ↦ absurd (n (order.trans x y k vx vy vk e (inl p)))
      | is_nil p ↦ absurd (n (order.trans x y k vx vy vk e (inr p)))
    ],
    IsAfter-key x k ys vx vk vs h n,
  )

  pub IsSorted-Cut :
      (k : K) (xs : List A)
      → Valid k
      → AllValid key Valid xs
      → IsSorted compare key xs
      → Cut (λ x. compare x k) xs
  IsSorted-Cut k [] vk vs s = tt
  IsSorted-Cut k (x ∷ xs) vk (vx, vs) (h, s) =
      (IsAfter-key x k xs vx vk vs h, IsSorted-Cut k xs vk vs s)

  All-behind :
      (new x : A) (ys : List A)
      → Valid (key new)
      → Valid (key x)
      → AllValid key Valid ys
      → sign (compare new (key x)) ≡ neg
      → All (λ y. sign (compare x (key y)) ≡ neg) ys
      → All (λ y. sign (compare new (key y)) ≡ neg) ys
  All-behind new x [] vn vx vs p h = tt
  All-behind new x (y ∷ ys) vn vx (vy, vs) p (e, h) =
      (order.trans new x (key y) vn vx vy p (inl e), All-behind new x ys vn vx vs p h)

  -- The insertion of a node keeps the nodes in order.
  pub insert_list-IsSorted :
      (new : A) (xs : List A)
      → Valid (key new)
      → AllValid key Valid xs
      → IsSorted compare key xs
      → IsSorted compare key (insert_list (λ x. compare x (key new)) new xs)
  unfolding insert_list
  insert_list-IsSorted new [] vn vs s = (tt, tt)
  insert_list-IsSorted new (x ∷ xs) vn (vx, vs) (h, s) =
      elim (sign_cases (sign (compare x (key new)))) [
        | is_neg e ↦
            rw (e, insert_list)
              (
                insert_list-All _ (λ y. sign (compare x (key y)) ≡ neg) new xs e h,
                insert_list-IsSorted new xs vn vs s,
              )
        | is_nil e ↦ rw (e, insert_list) (h, s)
        | is_plus e ↦
            let p : sign (compare new (key x)) ≡ neg = order.flips new x ∙ ap flip e in
            rw (e, insert_list) ((p, All-behind new x xs vn vx vs p h), (h, s))
      ]

module _ {ℓ κ} {A : Type ℓ} {K : Type κ} (compare : A → K → ℤ) (key : A → K) where
  -- So does the removal of one.
  delete_list-IsSorted :
      (comp : A → ℤ) (xs : List A)
      → IsSorted compare key xs
      → IsSorted compare key (delete_list comp xs)
  unfolding delete_list
  delete_list-IsSorted comp [] s = tt
  delete_list-IsSorted comp (x ∷ xs) (h, s) = elim (sign_cases (sign (comp x))) [
    | is_neg e ↦
        rw (e, delete_list)
          (
            delete_list-All comp (λ y. sign (compare x (key y)) ≡ neg) xs h,
            delete_list-IsSorted comp xs s,
          )
    | is_nil e ↦ rw (e, delete_list) s
    | is_plus e ↦
        rw (e, delete_list)
          (
            delete_list-All comp (λ y. sign (compare x (key y)) ≡ neg) xs h,
            delete_list-IsSorted comp xs s,
          )
  ]

-- A change of the nodes that leaves their keys and what they compare to.
module _ {ℓ κ} {A : Type ℓ} {K : Type κ} (compare : A → K → ℤ) (key : A → K) (f : A → A)
    (compares : (x : A) (k : K) → compare (f x) k ≡ compare x k)
    (keys : (x : A) → key (f x) ≡ key x) where
  behind-map :
      (x : A) (ys : List A)
      → All (λ y. sign (compare x (key y)) ≡ neg) ys
      → All (λ y. sign (compare (f x) (key y)) ≡ neg) (map f ys)
  behind-map x [] h = tt
  behind-map x (y ∷ ys) (e, h) =
      let p : sign (compare (f x) (key (f y))) ≡ neg =
        ap sign (compares x (key (f y)) ∙ ap (compare x) (keys y)) ∙ e in
      (p, behind-map x ys h)

  pub map-IsSorted : (xs : List A) → IsSorted compare key xs → IsSorted compare key (map f xs)
  map-IsSorted [] s = tt
  map-IsSorted (x ∷ xs) (h, s) = (behind-map x xs h, map-IsSorted xs s)

  pub map-AllValid :
      (Valid : K → Type 0) (xs : List A) → AllValid key Valid xs → AllValid key Valid (map f xs)
  map-AllValid Valid [] h = tt
  map-AllValid Valid (x ∷ xs) (t, h) = (subst Valid (sym (keys x)) t, map-AllValid Valid xs h)
