-- ===== src/Cli/Pargv/Given.antt =====
-- The arguments that have been given, and what the insertion of one does to them.
use ucli.Base.{
  false, List, [], ◌∷◌, Option, none, some, Bool-cases, ◌≡◌, ◌≢◌, inl, inr, refl, ap, ◌∙◌, arith,
}
use ucli.Lub.Ctype.{Bytes}
use ucli.Lub.Text.{dup, same_text}
use ucli.Cli.Param.{Param}
use ucli.Lub.Text.Same.{same_text_refl, same_text_eq}
use ucli.Cli.Command.Options.{Positional}
use ucli.Cli.Pargv.{Pargs, find_parg, store, insert_parg}
use mathlib.Core.Option

abbrev pub IsGiven : Pargs → Bytes → Type 0
IsGiven this name = find_parg this name ≢ none

find_parg-store_self :
    (this : Pargs) (param : Param) (value : Option Bytes)
    → find_parg (store this param value) param.name ≡ none
    → ⊥
unfolding find_parg store
find_parg-store_self [] param value h = ground (arith, same_text_refl param.name)
find_parg-store_self (parg ∷ this) param value h =
    ground (arith, same_text_refl param.name, find_parg-store_self this param value)

-- an argument that is there stays there
find_parg-store :
    (this : Pargs) (param : Param) (value : Option Bytes) (name : Bytes)
    → IsGiven this name
    → IsGiven (store this param value) name
unfolding find_parg store
find_parg-store [] param value name g h = g refl
find_parg-store (parg ∷ this) param value name g h =
    ground (arith, find_parg-store this param value name)

module _ (this : Pargs) (param : Param) (value : Option Bytes) where
  pub insert_parg_self : IsGiven (insert_parg this param value) param.name
  insert_parg_self h = find_parg-store_self this param (dup value) (unfold insert_parg in h)

  insert_parg-IsGiven :
      (name : Bytes) → IsGiven this name → IsGiven (insert_parg this param value) name
  insert_parg-IsGiven name g h =
      find_parg-store this param (dup value) name g (unfold insert_parg in h)

  pub Positional-insert_parg :
      (ps : List Param)
      → Positional (λ p. IsGiven this p.name) ps
      → Positional (λ p. IsGiven (insert_parg this param value) p.name) ps
  Positional-insert_parg [] h = tt
  Positional-insert_parg (p ∷ ps) (h, hs) =
      ((λ e. insert_parg-IsGiven p.name (h e)), Positional-insert_parg ps hs)

-- the value of the argument of a name, if it is given
abbrev pub value_of : Pargs → Bytes → Option (Option Bytes)
value_of this name = Option.map (λ parg. parg.value) (find_parg this name)

value_of-store :
    (this : Pargs) (param : Param) (value : Option Bytes)
    → value_of (store this param value) param.name ≡ some value
unfolding find_parg store
value_of-store [] param value = rw (same_text_refl param.name) refl
value_of-store (parg ∷ this) param value =
    elim (Bool-cases (same_text parg.param.name param.name)) [
      | inl e ↦ rw (e, store, find_parg) (rw e refl)
      | inr e ↦ rw (e, store, find_parg) (rw e (value_of-store this param value))
    ]

value_of-store_other :
    (this : Pargs) (param : Param) (value : Option Bytes) (name : Bytes)
    → same_text param.name name ≡ false
    → value_of (store this param value) name ≡ value_of this name
unfolding find_parg store
value_of-store_other [] param value name h = rw h refl
value_of-store_other (parg ∷ this) param value name h =
    elim (Bool-cases (same_text parg.param.name param.name)) [
      | inl e ↦
          let f = ap (λ s. same_text s name) (same_text_eq parg.param.name param.name e) ∙ h in
          rw (e, store, find_parg) (rw (f, find_parg) refl)
      | inr e ↦ elim (Bool-cases (same_text parg.param.name name)) [
        | inl g ↦ rw (e, store, find_parg) (rw (g, find_parg) refl)
        | inr g ↦
            rw (e, store, find_parg)
              (rw (g, find_parg) (value_of-store_other this param value name h))
      ]
    ]

-- The insertion of an argument gives its parameter a copy of the value, whether it had one or not, and
-- changes the value of no parameter of another name.
pub insert_parg-value_of :
    (this : Pargs) (param : Param) (value : Option Bytes)
    → (value_of (insert_parg this param value) param.name ≡ some (dup value))
      × ((name : Bytes)
          → same_text param.name name ≡ false
          → value_of (insert_parg this param value) name ≡ value_of this name)
unfolding insert_parg
insert_parg-value_of this param value = (
  value_of-store this param (dup value),
  λ name h. value_of-store_other this param (dup value) name h,
)
