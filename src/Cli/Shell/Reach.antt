-- ===== src/Cli/Shell/Reach.antt =====
-- What holds of a shell's views and pointers, whatever is done with the shell.
pub mod Pointers
pub mod Steps
pub mod Searches
pub mod Help
pub mod Types
pub mod Trace
pub mod Listing
use ucli.Base.{
  Bool, true, false, List, [], ◌∷◌, map, Option, none, some, All, Bool-cases, Option-cases, ◌≡◌,
  ◌⊎◌, inl, inr, refl, sym, ap, ◌∙◌, if◌then◌else◌,
}
use mathlib.Core.Path.{subst}
use mathlib.Core.Option
use ucli.Base.Int.{ℤ, neg, nil, sign}
use ucli.Base.Run.{Run, ok, abort, ◌>>=◌, deref, Post, Post-bind, Post-then}
use ucli.Lub.Ctype.{Bytes, IsText}
use ucli.Lub.Text.{same_text, strcmp}
use ucli.Lub.Text.Compare.{strcmp-flip, strcmp_trans, strcmp-eq_zero}
use ucli.Lub.Text.Same.{same_text_refl, same_text_eq}
use ucli.Lub.Bintree.{Tree, to_list, find, insert}
use ucli.Lub.Bintree.Splay.{sign_cases, is_neg, is_nil, is_plus, to_list-splay}
use ucli.Lub.Bintree.Refine.{insert_list, insert-insert_list, find_list, find-find_list}
use ucli.Lub.Bintree.Sorted.{
  IsKeyOrder, IsSorted, AllValid, IsSorted-Cut, insert_list-IsSorted, insert_list-All, map-IsSorted,
  map-AllValid,
}
use ucli.Cli.Command.{Command}
use ucli.Cli.View.{View}
use ucli.Cli.View.Sorted.{IsView}
use ucli.Cli.View.Completion.{name_of}
use ucli.Cli.Shell.{Shell, view_in, view_at, put_one, put_view, with_view, view_of, in_view}
use ucli.Cli.Shell.Views.{put_one-name, view_in-map, to_list-put_view}
use ucli.Cli.Shell.Create.{view_compare, view_getkey, insert_view}

pub view_order : IsKeyOrder view_compare view_getkey IsText
view_order = record {
  flips = λ x y. strcmp-flip x.name y.name;
  trans = λ x y k vx vy vk lt le. strcmp_trans x.name y.name k vx vy vk lt le;
}

-- The pointer is NULL, or there is a view behind it.
abbrev pub Leads : List View → Option Bytes → Type 0
Leads views none = Unit
Leads views (some name) = (v : View) × (view_in views name ≡ some v)

-- Views in the order of their names, which are texts, each with its commands in order.
pub record AreViews (views : List View) : Type 0 where
  pub named : AllValid view_getkey IsText views
  pub sorted : IsSorted view_compare view_getkey views
  pub ordered : All IsView views

-- NULL, or one of the pointers that are held.
abbrev pub IsHeld : List Bytes → Option Bytes → Type 0
IsHeld held none = Unit
IsHeld [] (some name) = ⊥
IsHeld (other ∷ held) (some name) = (other ≡ name) ⊎ IsHeld held (some name)

-- The views are in order, the pointers to the current and the global view lead to views, and so do the
-- pointers that the client holds; the commands that the iterator stands at have texts for their names.
pub record IsShell (held : List Bytes) (this : Shell) : Type 0 where
  pub views : AreViews (to_list this.view_tree)
  pub current : Leads (to_list this.view_tree) this.view
  pub global : Leads (to_list this.view_tree) this.global
  pub text_local : IsText (name_of this.iter.last_cmd_local)
  pub text_global : IsText (name_of this.iter.last_cmd_global)
  pub kept : (p : Option Bytes) → IsHeld held p → Leads (to_list this.view_tree) p

module _ (view : View) where
  -- the view keeps its name
  compares : (x : View) (k : Bytes) → view_compare (put_one view x) k ≡ view_compare x k
  compares x k = ap (λ n. strcmp n k) (put_one-name view x)

  put-IsSorted :
      (views : List View)
      → IsSorted view_compare view_getkey views
      → IsSorted view_compare view_getkey (map (put_one view) views)
  put-IsSorted = map-IsSorted view_compare view_getkey (put_one view) compares (put_one-name view)

  put_named :
      (views : List View)
      → AllValid view_getkey IsText views
      → AllValid view_getkey IsText (map (put_one view) views)
  put_named =
      map-AllValid view_compare view_getkey (put_one view) compares (put_one-name view) IsText

  put_ordered :
      (views : List View) → IsView view → All IsView views → All IsView (map (put_one view) views)
  unfolding put_one
  put_ordered [] v h = tt
  put_ordered (x ∷ views) v (t, h) = elim (Bool-cases (same_text x.name view.name)) [
    | inl e ↦ (rw (e, put_one) v, put_ordered views v h)
    | inr e ↦ (rw (e, put_one) t, put_ordered views v h)
  ]

  -- A view that has its commands in order may be put in place of the one of its name.
  put-AreViews :
      (views : List View) → IsView view → AreViews views → AreViews (map (put_one view) views)
  put-AreViews views v a = record {
    named = put_named views a.named;
    sorted = put-IsSorted views a.sorted;
    ordered = put_ordered views v a.ordered;
  }

put-Leads :
    (view : View) (views : List View) (pointer : Option Bytes)
    → Leads views pointer
    → Leads (map (put_one view) views) pointer
put-Leads view views none l = tt
put-Leads view views (some name) (v, e) =
    (put_one view v, view_in-map view views name ∙ ap (Option.map (put_one view)) e)

-- A view that is put back into the tree keeps the shell well formed.
pub with_view-IsShell :
    {held : List Bytes} (this : Shell) (view : View)
    → IsView view
    → IsShell held this
    → IsShell held (with_view this view)
with_view-IsShell {held} this view v s = record {
  views =
      subst AreViews (sym (to_list-put_view this.view_tree view))
        (put-AreViews view (to_list this.view_tree) v s.views);
  current =
      subst (λ l. Leads l this.view) (sym (to_list-put_view this.view_tree view))
        (put-Leads view (to_list this.view_tree) this.view s.current);
  global =
      subst (λ l. Leads l this.global) (sym (to_list-put_view this.view_tree view))
        (put-Leads view (to_list this.view_tree) this.global s.global);
  text_local = s.text_local;
  text_global = s.text_global;
  kept = λ p h.
      subst (λ l. Leads l p) (sym (to_list-put_view this.view_tree view))
        (put-Leads view (to_list this.view_tree) p (s.kept p h));
}

-- A tree of the same views in their order may take the place of the shell's.
pub turned-IsShell :
    {held : List Bytes} (this : Shell) (tree : Tree View)
    → to_list tree ≡ to_list this.view_tree
    → IsShell held this
    → IsShell held (record this { view_tree = tree })
turned-IsShell {held} this tree e s = record {
  views = subst AreViews (sym e) s.views;
  current = subst (λ l. Leads l this.view) (sym e) s.current;
  global = subst (λ l. Leads l this.global) (sym e) s.global;
  text_local = s.text_local;
  text_global = s.text_global;
  kept = λ p h. subst (λ l. Leads l p) (sym e) (s.kept p h);
}

pub view_in-All :
    (P : View → Type 0) (views : List View) (name : Bytes) (v : View)
    → All P views
    → view_in views name ≡ some v
    → P v
unfolding view_in
view_in-All P [] name v a h = cc
view_in-All P (x ∷ views) name v (p, a) h = elim (Bool-cases (same_text x.name name)) [
  | inl e ↦
      let here : view_in (x ∷ views) name ≡ some x = rw (e, view_in) refl in
      let same : some x ≡ some v = sym here ∙ h in let eq : x ≡ v = cc in subst P eq p
  | inr e ↦
      let below : view_in (x ∷ views) name ≡ view_in views name = rw (e, view_in) refl in
      view_in-All P views name v a (sym below ∙ h)
]

-- A search that keeps each view well formed keeps the shell well formed.
pub in_view-IsShell :
    {held : List Bytes} (Q : Option Command → Type 0) (this : Shell) (view : Option Bytes)
    (search : View → Run (Option Command × View))
    → ((v : View) → IsView v → Post (λ out. Q out.0 × IsView out.1) (search v))
    → IsShell held this
    → Post (λ out. Q out.0 × IsShell held out.1) (in_view this view search)
unfolding in_view view_at
in_view-IsShell {held} Q this none search h s = tt
in_view-IsShell {held} Q this (some name) search h s =
    elim (Option-cases (view_in (to_list this.view_tree) name)) [
      | inl e ↦ rw (e, in_view, view_at) tt
      | inr (v, e) ↦
          let ordered = view_in-All IsView (to_list this.view_tree) name v s.views.ordered e in
          rw (e, in_view, view_at)
            (Post-then (λ out. Q out.0 × IsView out.1) (λ out. Q out.0 × IsShell held out.1)
              (search v) _ (h v ordered) (λ out q. (q.0, with_view-IsShell this out.1 q.1 s)))
    ]
