-- ===== src/Cli/Shell/Views.antt =====
-- The views behind the shell's pointers, and what a search in one of them leaves of the others.
use ucli.Base.{
  List, [], ◌∷◌, ◌++◌, map, Option, some, Bool-cases, ◌≡◌, inl, inr, refl, sym, ap, ◌∙◌,
}
use mathlib.Core.Option
use ucli.Base.Run.{Run, ok}
use ucli.Lub.Ctype.{Bytes}
use ucli.Lub.Text.{same_text}
use ucli.Lub.Text.Same.{same_text_eq}
use ucli.Lub.Bintree.{Tree, leaf, node, to_list}
use ucli.Cli.Command.{Command}
use ucli.Cli.View.{View}
use ucli.Cli.View.Completion.{Finds}
use ucli.Cli.Shell.{Shell, in_view, view_in, view_at, put_one, put_view}

pub put_one-name : (view v : View) → (put_one view v).name ≡ v.name
unfolding put_one
put_one-name view v = elim (Bool-cases (same_text v.name view.name)) [
  | inl e ↦ rw (e, put_one) (sym (same_text_eq v.name view.name e))
  | inr e ↦ rw (e, put_one) refl
]

pub map-append {ℓ κ} :
    {A : Type ℓ} {B : Type κ} (f : A → B) (xs ys : List A) → map f (xs ++ ys) ≡ map f xs ++ map f ys
map-append f [] ys = refl
map-append f (x ∷ xs) ys = ap (◌∷◌ (f x)) (map-append f xs ys)

pub to_list-put_view :
    (t : Tree View) (view : View) → to_list (put_view t view) ≡ map (put_one view) (to_list t)
unfolding put_view
to_list-put_view leaf view = refl
to_list-put_view (node l v r) view =
    rw
      (
        to_list-put_view l view,
        to_list-put_view r view,
        map-append (put_one view) (to_list l) (v ∷ to_list r),
      )
      refl

pub view_in-map :
    (view : View) (views : List View) (name : Bytes)
    → view_in (map (put_one view) views) name ≡ Option.map (put_one view) (view_in views name)
unfolding view_in
view_in-map view [] name = refl
view_in-map view (v ∷ views) name =
    let same = ap (λ n. same_text n name) (put_one-name view v) in
    elim (Bool-cases (same_text v.name name)) [
      | inl e ↦ rw (e, view_in) (rw (same ∙ e, view_in) refl)
      | inr e ↦ rw (e, view_in) (rw (same ∙ e, view_in) (view_in-map view views name))
    ]

-- What stands at a name once a view is put back.
pub view_at-put_view :
    (t : Tree View) (view : View) (name : Bytes)
    → view_at (put_view t view) name ≡ Option.map (put_one view) (view_at t name)
unfolding view_at
view_at-put_view t view name = rw (to_list-put_view t view) (view_in-map view (to_list t) name)

pub view_in-name :
    (views : List View) (name : Bytes) (v : View) → view_in views name ≡ some v → v.name ≡ name
unfolding view_in
view_in-name [] name v h = cc
view_in-name (x ∷ views) name v h = elim (Bool-cases (same_text x.name name)) [
  | inl e ↦
      let here : view_in (x ∷ views) name ≡ some x = rw (e, view_in) refl in
      let same : some x ≡ some v = sym here ∙ h in
      let eq : x ≡ v = cc in rw (← eq) (same_text_eq x.name name e)
  | inr e ↦
      let below : view_in (x ∷ views) name ≡ view_in views name = rw (e, view_in) refl in
      view_in-name views name v (sym below ∙ h)
]

pub view_at-name :
    (t : Tree View) (name : Bytes) (v : View) → view_at t name ≡ some v → v.name ≡ name
unfolding view_at
view_at-name t name v h = view_in-name (to_list t) name v h

-- The view at `name` stays, but that its tree may be turned.
abbrev Turned : Tree View → Bytes → View → Type 0
Turned t name w =
    (tree : Tree Command) × (view_at t name ≡ some (record w { tree = tree }))
    × (to_list tree ≡ to_list w.tree)

abbrev turned : Tree Command → View → Option View
turned tree view = some (record view { tree = tree })

-- A search in the view behind a pointer leaves each view in its place, with its commands.
put_view-Turned :
    (t : Tree View) (name : Bytes) (v : View) (tree : Tree Command)
    → view_at t name ≡ some v
    → to_list tree ≡ to_list v.tree
    → (other : Bytes) (w : View) → view_at t other ≡ some w
    → Turned (put_view t (record v { tree = tree })) other w
unfolding put_one
put_view-Turned t name v tree h e other w k =
    let view = record v { tree = tree } in
    let put : view_at (put_view t view) other ≡ some (put_one view w) =
      view_at-put_view t view other ∙ ap (Option.map (put_one view)) k in
    elim (Bool-cases (same_text w.name v.name)) [
      | inl s ↦
          let same_name = same_text_eq w.name v.name s in
          let q : other ≡ name =
            sym (view_at-name t other w k) ∙ same_name ∙ view_at-name t name v h in
          let both : some w ≡ some v = sym k ∙ ap (view_at t) q ∙ h in
          let eq : v ≡ w = cc in
          let there : view_at (put_view t view) other ≡ some view = put ∙ rw (s, put_one) refl in
          (tree, there ∙ ap (turned tree) eq, e ∙ ap {A = View} (λ u. to_list u.tree) eq)
      | inr d ↦ (w.tree, put ∙ rw (d, put_one) refl, refl)
    ]

-- The view that the pointer `view` leads to has these commands, in their order.
abbrev pub HasCommands : Tree View → Option Bytes → List Command → Type 0
HasCommands t view commands =
    (name : Bytes) × (v : View) × (view ≡ some name)
    × (view_at t name ≡ some v)
    × (to_list v.tree ≡ commands)

-- Every view of the first tree has the same commands in the second.
abbrev pub KeepsViews : Tree View → Tree View → Type 0
KeepsViews t t' =
    (view : Option Bytes) (commands : List Command)
    → HasCommands t view commands
    → HasCommands t' view commands

-- A search that finds `cmd` in each view of these commands finds it behind the pointer.
pub in_view-Finds :
    (this : Shell) (view : Option Bytes) (commands : List Command) (cmd : Option Command)
    (search : View → Run (Option Command × View))
    → HasCommands this.view_tree view commands
    → ((v : View) → to_list v.tree ≡ commands → Finds v cmd (search v))
    → (t : Tree View) × (in_view this view search ≡ ok (cmd, record this { view_tree = t }))
      × KeepsViews this.view_tree t
unfolding in_view
in_view-Finds this view commands cmd search (name, v, p, h, e) finds =
    let (tree, out, same) = finds v e in
    let t = put_view this.view_tree (record v { tree = tree }) in
    (
      t,
      rw p (rw h (rw out refl)),
      λ other commands' (name', w, p', h', e').
          let (tree', there, same') =
            put_view-Turned this.view_tree name v tree h same name' w h' in
          (name', record w { tree = tree' }, p', there, same' ∙ e'),
    )
