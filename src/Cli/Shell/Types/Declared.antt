-- ===== src/Cli/Shell/Types/Declared.antt =====
-- What ucli_shell_find_create_ptype does to the types of a shell, in the order of their names.
use ucli.Base.{List, ◌∷◌, map, Option, none, some, Bool-cases, ◌≡◌, inl, inr, refl, sym, ap, ◌∙◌}
use mathlib.Core.Path.{subst}
use ucli.Base.Run.{Run, ok, abort, ◌>>=◌, Post, Post-bind, Post-then, Post-ok}
use ucli.Lub.Ctype.{Bytes, IsText}
use ucli.Lub.Text.{strcmp, same_text}
use ucli.Lub.Text.Same.{same_text_eq}
use ucli.Lub.Text.Compare.{strcmp-flip, strcmp_trans}
use ucli.Lub.Bintree.{Tree, leaf, node, to_list, find}
use ucli.Lub.Bintree.Refine.{insert_list, insert-insert_list, find_list, find-find_list}
use ucli.Lub.Bintree.Sorted.{
  IsKeyOrder, IsSorted, AllValid, IsSorted-Cut, insert_list-IsSorted, insert_list-All, map-IsSorted,
  map-AllValid,
}
use ucli.Cli.Ptype.{Ptype, Method, Preprocess}
use ucli.Cli.Ptype.Pattern.{Library, ptype_new}
use ucli.Cli.Ptype.Pattern.Named.{ptype_new-IsNamed}
use ucli.Cli.Shell.{Shell}
use ucli.Cli.Shell.Views.{map-append}
use ucli.Cli.Shell.Types.{
  ptype_compare, ptype_getkey, put_at, put_ptype, insert_ptype, new_pattern, new_text,
  create_or_set, find_create_ptype,
}

ptype_order : IsKeyOrder ptype_compare ptype_getkey IsText
ptype_order = record {
  flips = λ x y. strcmp-flip x.name y.name;
  trans = λ x y k vx vy vk lt le. strcmp_trans x.name y.name k vx vy vk lt le;
}

-- Types in the order of their names, which are texts.
pub record AreTypes (types : List Ptype) : Type 0 where
  pub named : AllValid ptype_getkey IsText types
  pub sorted : IsSorted ptype_compare ptype_getkey types

to_list-put_ptype :
    (t : Tree Ptype) (ptype : Ptype) → to_list (put_ptype t ptype) ≡ map (put_at ptype) (to_list t)
unfolding put_ptype
to_list-put_ptype leaf ptype = refl
to_list-put_ptype (node l t r) ptype =
    rw
      (
        to_list-put_ptype l ptype,
        to_list-put_ptype r ptype,
        map-append (put_at ptype) (to_list l) (t ∷ to_list r),
      )
      refl

-- the name that is answered, with the shell's types in their order
abbrev pub listed : Run (Bytes × Shell) → Run (Bytes × List Ptype)
listed out = out >>= λ ((name, this) : Bytes × Shell). ok (name, to_list this.ptype_tree)

Post-listed :
    (out : Run (Bytes × Shell))
    → Post (λ ((n, l) : Bytes × List Ptype). AreTypes l) (listed out)
    → Post (λ ((n, s) : Bytes × Shell). AreTypes (to_list s.ptype_tree)) out
Post-listed (ok (n, s)) h = h
Post-listed abort h = tt

put_at-name : (ptype t : Ptype) → (put_at ptype t).name ≡ t.name
unfolding put_at
put_at-name ptype t = elim (Bool-cases (same_text t.name ptype.name)) [
  | inl e ↦ rw (e, put_at) (sym (same_text_eq t.name ptype.name e))
  | inr e ↦ rw (e, put_at) refl
]

put-AreTypes :
    (ptype : Ptype) (types : List Ptype) → AreTypes types → AreTypes (map (put_at ptype) types)
put-AreTypes ptype types a =
    let compares = λ (x : Ptype) (k : Bytes). ap (λ n. strcmp n k) (put_at-name ptype x) in
    record {
      named =
          map-AllValid ptype_compare ptype_getkey (put_at ptype) compares (put_at-name ptype) IsText
            types a.named;
      sorted =
          map-IsSorted ptype_compare ptype_getkey (put_at ptype) compares (put_at-name ptype) types
            a.sorted;
    }

insert-AreTypes :
    (ptype : Ptype) (name : Bytes)
    → ptype.name ≡ name
    → (types : List Ptype) → IsText name
    → AreTypes types
    → AreTypes (insert_list (λ t. ptype_compare t name) ptype types)
insert-AreTypes ptype name e types valid a =
    let text = subst IsText (sym e) valid in
    let placed : AreTypes (insert_list (λ t. ptype_compare t ptype.name) ptype types) = record {
      named = insert_list-All _ (λ t. IsText t.name) ptype types text a.named;
      sorted =
          insert_list-IsSorted ptype_compare ptype_getkey IsText ptype_order ptype types text
            a.named a.sorted;
    } in
    subst (λ n. AreTypes (insert_list (λ t. ptype_compare t n) ptype types)) e placed

listed-bind :
    {A : Type 0} (m : Run A) (f : A → Run (Bytes × Shell)) (g : A → Run (Bytes × List Ptype))
    → ((a : A) → m ≡ ok a → listed (f a) ≡ g a)
    → listed (m >>= f) ≡ m >>= g
listed-bind (ok a) f g h = h a refl
listed-bind abort f g h = refl

module _ (library : Library) (memory : Ptype) (name : Bytes) (text pattern : Option Bytes)
    (method : Method) (preprocess : Preprocess) where
  -- A declaration on a list of types: one that is not in the list is made and put in its place, and one
  -- that is there gets the pattern and the text.
  abbrev pub declared : Option Ptype → List Ptype → Run (Bytes × List Ptype)
  declared none types = do
    ptype ← ptype_new library memory name text pattern method preprocess
    ok (name, insert_list (λ t. ptype_compare t name) ptype types)
  declared (some ptype) types = do
    ptype' ← new_pattern library ptype pattern method preprocess
    ptype'' ← new_text library ptype' text
    ok (ptype.name, map (put_at ptype'') types)

  create-declared :
      (this : Shell)
      → IsText name
      → AreTypes (to_list this.ptype_tree)
      → listed (create_or_set library memory name text pattern method preprocess (none, this))
        ≡ declared none (to_list this.ptype_tree)
  unfolding create_or_set insert_ptype
  create-declared this valid types =
      let xs = to_list this.ptype_tree in
      let made = ptype_new library memory name text pattern method preprocess in
      let named = ptype_new-IsNamed library name memory text pattern method preprocess in
      listed-bind made _ _ (λ ptype e.
        let same : ptype.name ≡ name = Post-ok (λ p. p.name ≡ name) made named e in
        let cut =
          IsSorted-Cut ptype_compare ptype_getkey IsText ptype_order ptype.name xs
            (subst IsText (sym same) valid) types.named types.sorted in
        let placed =
          (insert-insert_list (λ t. ptype_compare t ptype.name) ptype this.ptype_tree cut).1 in
        ap (λ l. ok (name, l))
          (placed ∙ ap (λ n. insert_list (λ t. ptype_compare t n) ptype xs) same))

  set-declared :
      (ptype : Ptype) (this : Shell)
      → listed (create_or_set library memory name text pattern method preprocess (some ptype, this))
        ≡ declared (some ptype) (to_list this.ptype_tree)
  unfolding create_or_set
  set-declared ptype this =
      listed-bind (new_pattern library ptype pattern method preprocess) _ _ (λ ptype' e.
        listed-bind (new_text library ptype' text) _ _
          (λ ptype'' e'. ap (λ l. ok (ptype.name, l)) (to_list-put_ptype this.ptype_tree ptype'')))

  found-declared :
      (found : Option Ptype) (this : Shell)
      → IsText name
      → AreTypes (to_list this.ptype_tree)
      → listed (create_or_set library memory name text pattern method preprocess (found, this))
        ≡ declared found (to_list this.ptype_tree)
  found-declared none this valid types = create-declared this valid types
  found-declared (some ptype) this valid types = set-declared ptype this

  pub find_create_ptype-declared :
      (this : Shell)
      → IsText name
      → AreTypes (to_list this.ptype_tree)
      → listed (find_create_ptype library memory this name text pattern method preprocess)
        ≡ declared
            (find_list (λ t. ptype_compare t name) (to_list this.ptype_tree))
            (to_list this.ptype_tree)
  unfolding find_create_ptype
  find_create_ptype-declared this valid types =
      let comp = λ (t : Ptype). ptype_compare t name in
      let xs = to_list this.ptype_tree in
      let cut =
        IsSorted-Cut ptype_compare ptype_getkey IsText ptype_order name xs valid types.named
          types.sorted in
      let (found, nodes) = find-find_list comp this.ptype_tree cut in
      let turned = record this { ptype_tree = (find comp this.ptype_tree).1 } in
      found-declared (find comp this.ptype_tree).0 turned valid (subst AreTypes (sym nodes) types)
      ∙ ap (λ o. declared o (to_list turned.ptype_tree)) found
      ∙ ap (declared (find_list comp xs)) nodes

  declared-AreTypes :
      (found : Option Ptype) (types : List Ptype)
      → IsText name
      → AreTypes types
      → Post (λ ((n, l) : Bytes × List Ptype). AreTypes l) (declared found types)
  declared-AreTypes none types valid order =
      Post-then (λ ptype. ptype.name ≡ name) (λ ((n, l) : Bytes × List Ptype). AreTypes l)
        (ptype_new library memory name text pattern method preprocess) _
        (ptype_new-IsNamed library name memory text pattern method preprocess)
        (λ ptype e. insert-AreTypes ptype name e types valid order)
  declared-AreTypes (some ptype) types valid order =
      Post-bind (λ ((n, l) : Bytes × List Ptype). AreTypes l)
        (new_pattern library ptype pattern method preprocess) _
        (λ ptype'.
          Post-bind (λ ((n, l) : Bytes × List Ptype). AreTypes l) (new_text library ptype' text) _
            (λ ptype''. put-AreTypes ptype'' types order))

  -- `ucli_shell_find_create_ptype` keeps the types of the shell in the order of their names.
  pub find_create_ptype-AreTypes :
      (this : Shell)
      → IsText name
      → AreTypes (to_list this.ptype_tree)
      → Post
          (λ ((n, s) : Bytes × Shell). AreTypes (to_list s.ptype_tree))
          (find_create_ptype library memory this name text pattern method preprocess)
  find_create_ptype-AreTypes this valid types =
      let xs = to_list this.ptype_tree in
      let found = find_list (λ (t : Ptype). ptype_compare t name) xs in
      Post-listed (find_create_ptype library memory this name text pattern method preprocess) (
        subst (Post (λ ((n, l) : Bytes × List Ptype). AreTypes l))
          (sym (find_create_ptype-declared this valid types))
          (declared-AreTypes found xs valid types))
