-- ===== src/Cli/Shell/Reach/Steps.antt =====
-- Each operation of the shell keeps it well formed.
use ucli.Base.{List, [], ℕ, Option, none, some, Option-cases, ◌≡◌, inl, inr, refl, sym, ◌∙◌}
use mathlib.Core.Path.{subst}
use ucli.Base.Run.{ok, deref, Post, Post-bind, Post-then}
use ucli.Lub.Ctype.{Bytes, IsText}
use ucli.Lub.Text.Compare.{strcmp-eq_zero}
use ucli.Lub.Bintree.{to_list, find, insert}
use ucli.Lub.Bintree.Refine.{insert_list, insert-insert_list, find-find_list}
use ucli.Lub.Bintree.Sorted.{IsSorted-Cut, insert_list-IsSorted, insert_list-All}
use ucli.Cli.View.{View, view_new, set_prompt}
use ucli.Cli.View.Sorted.{IsView, AreCommands}
use ucli.Cli.Shell.{Shell, with_view}
use ucli.Cli.Shell.Create.{
  view_compare, view_getkey, shell_init, find_view, insert_view, find_or_create, find_create_view,
  entered, set_context,
}
use ucli.Cli.Shell.Completion.{iterator_init}
use ucli.Cli.Shell.Views.{to_list-put_view}
use ucli.Cli.Shell.Reach.{
  view_order, IsHeld, Leads, AreViews, IsShell, put-Leads, with_view-IsShell, turned-IsShell,
}
use ucli.Cli.Shell.Reach.Pointers.{find_list-All, insert-Leads, new-Leads}

pub none_held : (views : List View) (p : Option Bytes) → IsHeld [] p → Leads views p
none_held views none h = tt
none_held views (some name) h = elim h [ ]

-- A new shell is well formed, with no pointer that is held.
pub shell_init-IsShell : (istream : ℕ) → IsShell [] (shell_init istream)
unfolding shell_init iterator_init
shell_init-IsShell istream = record {
  views = record { named = tt; sorted = tt; ordered = tt };
  current = tt;
  global = tt;
  text_local = tt;
  text_global = tt;
  kept = none_held (to_list (shell_init istream).view_tree);
}

abbrev pub Pointed : List Bytes → Bytes × Shell → Type 0
Pointed held (name, this) = IsShell held this × Leads (to_list this.view_tree) (some name)

insert_view-Pointed :
    {held : List Bytes} (this : Shell) (view : View)
    → IsText view.name
    → IsView view
    → IsShell held this
    → Pointed held (view.name, insert_view this view)
unfolding insert_view
insert_view-Pointed {held} this view text v s =
    let xs = to_list this.view_tree in
    let comp = λ (x : View). view_compare x view.name in
    let cut =
      IsSorted-Cut view_compare view_getkey IsText view_order view.name xs text s.views.named
        s.views.sorted in
    let nodes = (insert-insert_list comp view this.view_tree cut).1 in
    let tree = (insert comp view this.view_tree).1 in
    let inserted : AreViews (insert_list comp view xs) = record {
      named = insert_list-All comp (λ x. IsText x.name) view xs text s.views.named;
      sorted =
          insert_list-IsSorted view_compare view_getkey IsText view_order view xs text s.views.named
            s.views.sorted;
      ordered = insert_list-All comp IsView view xs v s.views.ordered;
    } in
    let here =
      new-Leads comp view xs (λ x e t. strcmp-eq_zero x.name view.name t text e) s.views.named in
    (
      record {
        views = subst AreViews (sym nodes) inserted;
        current =
            subst (λ l. Leads l this.view) (sym nodes)
              (insert-Leads comp view xs this.view s.current);
        global =
            subst (λ l. Leads l this.global) (sym nodes)
              (insert-Leads comp view xs this.global s.global);
        text_local = s.text_local;
        text_global = s.text_global;
        kept = λ p h. subst (λ l. Leads l p) (sym nodes) (insert-Leads comp view xs p (s.kept p h));
      },
      subst (λ l. Leads l (some view.name)) (sym nodes) here,
    )

-- What `ucli_shell_find_view` answers, in a well-formed shell.
abbrev Found : List Bytes → Option View × Shell → Type 0
Found held (none, this) = IsShell held this
Found held (some view, this) =
    IsShell held this × IsView view × Leads (to_list this.view_tree) (some view.name)

find_view-Found :
    {held : List Bytes} (this : Shell) (name : Bytes)
    → IsText name
    → IsShell held this
    → Found held (find_view this name)
unfolding find_view
find_view-Found {held} this name text s =
    let xs = to_list this.view_tree in
    let comp = λ (x : View). view_compare x name in
    let cut =
      IsSorted-Cut view_compare view_getkey IsText view_order name xs text s.views.named
        s.views.sorted in
    let (found, nodes) = find-find_list comp this.view_tree cut in
    let turned = turned-IsShell this (find comp this.view_tree).1 nodes s in
    elim (Option-cases (find comp this.view_tree).0) [
      | inl e ↦ rw e turned
      | inr (view, e) ↦
          let (ordered, leads) =
            find_list-All comp IsView xs view s.views.ordered (sym found ∙ e) in
          rw e (turned, ordered, subst (λ l. Leads l (some view.name)) (sym nodes) leads)
    ]

put-Pointed :
    {held : List Bytes} (this : Shell) (name : Bytes) (view : View)
    → IsView view
    → Pointed held (name, this)
    → Pointed held (name, with_view this view)
put-Pointed {held} this name view v (s, leads) = (
  with_view-IsShell this view v s,
  subst (λ l. Leads l (some name)) (sym (to_list-put_view this.view_tree view))
      (put-Leads view (to_list this.view_tree) (some name) leads),
)

set_prompt_tree :
    (view : View) (prompt : Option Bytes) → Post (λ v. v.tree ≡ view.tree) (set_prompt view prompt)
unfolding set_prompt
set_prompt_tree view prompt = elim (Option-cases view.prompt) [
  | inl e ↦ rw (e, set_prompt) refl
  | inr (old, e) ↦ rw (e, set_prompt) tt
]

find_or_create-Pointed :
    (held : List Bytes) (name : Bytes) (prompt : Option Bytes) (out : Option View × Shell)
    → IsText name
    → Found held out
    → Post (Pointed held) (find_or_create name prompt out)
unfolding find_or_create view_new
find_or_create-Pointed held name prompt (none, this) text s =
    insert_view-Pointed this (view_new name prompt) text (tt, tt) s
find_or_create-Pointed held name none (some view, this) text (s, ordered, leads) = (s, leads)
find_or_create-Pointed held name (some prompt) (some view, this) text (s, ordered, leads) =
    Post-then (λ v. v.tree ≡ view.tree) (Pointed held) (set_prompt view (some prompt)) _
      (set_prompt_tree view (some prompt))
      (λ v e.
        put-Pointed this view.name v (subst (λ t. AreCommands (to_list t)) (sym e) ordered)
          (s, leads))

-- `ucli_shell_find_create_view` keeps the shell well formed, and returns a pointer to a view.
pub find_create_view-Pointed :
    {held : List Bytes} (this : Shell) (name : Bytes) (prompt : Option Bytes)
    → IsText name
    → IsShell held this
    → Post (Pointed held) (find_create_view this name prompt)
unfolding find_create_view
find_create_view-Pointed {held} this name prompt text s =
    find_or_create-Pointed held name prompt (find_view this name) text
      (find_view-Found this name text s)

entered-IsShell :
    (held : List Bytes) (out : Option View × Shell)
    → Found held out
    → Post (IsShell held) (entered out)
unfolding entered
entered-IsShell held (none, this) s = tt
entered-IsShell held (some view, this) (s, ordered, leads) =
    Post-bind (IsShell held) (deref this.global) (λ _. ok (record this { view = some view.name }))
      (λ global. record {
        views = s.views;
        current = leads;
        global = s.global;
        text_local = s.text_local;
        text_global = s.text_global;
        kept = s.kept;
      })

pub set_context-IsShell :
    {held : List Bytes} (this : Shell) (name : Bytes)
    → IsText name
    → IsShell held this
    → Post (IsShell held) (set_context this name)
unfolding set_context
set_context-IsShell {held} this name text s =
    entered-IsShell held (find_view this name) (find_view-Found this name text s)
