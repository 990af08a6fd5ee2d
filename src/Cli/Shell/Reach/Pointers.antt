-- ===== src/Cli/Shell/Reach/Pointers.antt =====
-- What a search in the tree of views finds, and what an insertion does to the pointers into it.
use ucli.Base.{
  true, List, [], ◌∷◌, Option, none, some, All, Bool-cases, ◌≡◌, ◌⊎◌, inl, inr, refl, sym, ap, ◌∙◌,
}
use mathlib.Core.Path.{subst}
use ucli.Base.Int.{ℤ, nil, sign}
use ucli.Lub.Ctype.{Bytes, IsText}
use ucli.Lub.Text.{same_text}
use ucli.Lub.Text.Same.{same_text_refl}
use ucli.Lub.Bintree.Splay.{sign_cases, is_neg, is_nil, is_plus}
use ucli.Lub.Bintree.Refine.{insert_list, find_list}
use ucli.Lub.Bintree.Sorted.{AllValid}
use ucli.Cli.View.{View}
use ucli.Cli.Shell.{view_in}
use ucli.Cli.Shell.Create.{view_getkey}
use ucli.Cli.Shell.Reach.{Leads}

Leads-cons :
    (x : View) (views : List View) (pointer : Option Bytes)
    → Leads views pointer
    → Leads (x ∷ views) pointer
unfolding view_in
Leads-cons x views none l = tt
Leads-cons x views (some name) (v, e) = elim (Bool-cases (same_text x.name name)) [
  | inl t ↦ (x, rw (t, view_in) refl)
  | inr f ↦ (v, rw (f, view_in) e)
]

Leads-uncons :
    (x : View) (views : List View) (name : Bytes)
    → Leads (x ∷ views) (some name)
    → (same_text x.name name ≡ true) ⊎ Leads views (some name)
unfolding view_in
Leads-uncons x views name (v, e) = elim (Bool-cases (same_text x.name name)) [
  | inl t ↦ inl t
  | inr f ↦
      let below : view_in (x ∷ views) name ≡ view_in views name = rw (f, view_in) refl in
      inr (v, sym below ∙ e)
]

module _ (comp : View → ℤ) where
  -- What is found is in the list: it has what all members have, and its name leads to a member.
  pub find_list-All :
      (P : View → Type 0) (views : List View) (v : View)
      → All P views
      → find_list comp views ≡ some v
      → P v × Leads views (some v.name)
  unfolding find_list view_in
  find_list-All P [] v a h = cc
  find_list-All P (x ∷ views) v (p, a) h = elim (sign_cases (sign (comp x))) [
    | is_neg s ↦
        let past : find_list comp (x ∷ views) ≡ find_list comp views = rw (s, find_list) refl in
        let (q, l) = find_list-All P views v a (sym past ∙ h) in
        (q, Leads-cons x views (some v.name) l)
    | is_plus s ↦
        let past : find_list comp (x ∷ views) ≡ find_list comp views = rw (s, find_list) refl in
        let (q, l) = find_list-All P views v a (sym past ∙ h) in
        (q, Leads-cons x views (some v.name) l)
    | is_nil s ↦
        let here : find_list comp (x ∷ views) ≡ some x = rw (s, find_list) refl in
        let same : some x ≡ some v = sym here ∙ h in
        let eq : x ≡ v = cc in
        let named : same_text x.name v.name ≡ true =
          ap (λ z. same_text x.name z.name) (sym eq) ∙ same_text_refl x.name in
        (subst P eq p, (x, rw (named, view_in) refl))
  ]

  pub insert-Leads :
      (new : View) (views : List View) (pointer : Option Bytes)
      → Leads views pointer
      → Leads (insert_list comp new views) pointer
  unfolding insert_list view_in
  insert-Leads new views none l = tt
  insert-Leads new [] (some name) l = Leads-cons new [] (some name) l
  insert-Leads new (x ∷ views) (some name) l = elim (sign_cases (sign (comp x))) [
    | is_nil s ↦ rw (s, insert_list) l
    | is_plus s ↦ rw (s, insert_list) (Leads-cons new (x ∷ views) (some name) l)
    | is_neg s ↦
        rw (s, insert_list)
          (elim (Leads-uncons x views name l) [
            | inl e ↦ (x, rw (e, view_in) refl)
            | inr l' ↦
                Leads-cons x (insert_list comp new views) (some name)
                  (insert-Leads new views (some name) l')
          ])
  ]

  -- A view that is inserted can be pointed at by its name.
  pub new-Leads :
      (new : View) (views : List View)
      → ((x : View) → sign (comp x) ≡ nil → IsText x.name → x.name ≡ new.name)
      → AllValid view_getkey IsText views
      → Leads (insert_list comp new views) (some new.name)
  unfolding insert_list view_in
  new-Leads new [] h t = (new, rw (same_text_refl new.name) refl)
  new-Leads new (x ∷ views) h (tx, t) = elim (sign_cases (sign (comp x))) [
    | is_plus s ↦ rw (s, insert_list) (new, rw (same_text_refl new.name, view_in) refl)
    | is_neg s ↦
        rw (s, insert_list)
          (Leads-cons x (insert_list comp new views) (some new.name) (new-Leads new views h t))
    | is_nil s ↦
        let named : same_text x.name new.name ≡ true =
          ap (same_text x.name) (sym (h x s tx)) ∙ same_text_refl x.name in
        rw (s, insert_list) (x, rw (named, view_in) refl)
  ]
