-- ===== src/Cli/Ptype/Pattern/Named.antt =====
-- A new type has the name that it is given.
use ucli.Base.{
  [], ◌∷◌, if◌then◌else◌, Option, none, some, Option-cases, Bool-cases, ◌≡◌, inl, inr, refl,
}
use ucli.Base.Run.{ok, abort, deref, Post, Post-bind, Post-then}
use ucli.Lub.Ctype.{Bytes}
use ucli.Lub.Text.{cat}
use ucli.Lub.Argv.{get_count}
use ucli.Cli.Ptype.{Ptype, Method, regexp, integer, unsigned_integer, select, Preprocess}
use ucli.Cli.Ptype.Pattern.{
  Library, copied, range_loop, apply_pattern, set_range, read_range, set_pattern, set_text,
  given_pattern, given_text, ptype_new,
}

module _ (library : Library) (name : Bytes) where
  abbrev IsNamed : Ptype → Type 0
  IsNamed this = this.name ≡ name

  set_range-IsNamed :
      (this : Ptype) (method : Method) → IsNamed this → Post IsNamed (set_range library this method)
  unfolding set_range
  set_range-IsNamed this regexp h = h
  set_range-IsNamed this integer h =
      Post-bind IsNamed (copied (library.sprintf integer this.min this.max)) _ (λ tmp. h)
  set_range-IsNamed this unsigned_integer h =
      Post-bind IsNamed (copied (library.sprintf unsigned_integer this.min this.max)) _ (λ tmp. h)
  set_range-IsNamed this select h =
      Post-bind IsNamed (range_loop this.items (get_count this.items) 0 this.range) _ (λ range. h)

  apply_pattern-IsNamed :
      (this : Ptype) (pattern : Bytes) (method : Method)
      → IsNamed this
      → Post IsNamed (apply_pattern library this pattern method)
  unfolding apply_pattern read_range
  apply_pattern-IsNamed this pattern regexp h =
      let m = deref (cat (cat (cat none (some (b'^' ∷ []))) (some pattern)) (some (b'$' ∷ []))) in
      let f = λ (text : Bytes).
        if library.compiles text then ok (record this { pattern = some text }) else abort in
      Post-bind IsNamed m f
        (λ text. elim (Bool-cases (library.compiles text)) [ inl e ↦ rw e h | inr e ↦ rw e tt ])
  apply_pattern-IsNamed this pattern integer h = h
  apply_pattern-IsNamed this pattern unsigned_integer h = h
  apply_pattern-IsNamed this pattern select h = h

  pub set_pattern-IsNamed :
      (this : Ptype) (pattern : Bytes) (method : Method)
      → IsNamed this
      → Post IsNamed (set_pattern library this pattern method)
  unfolding set_pattern
  set_pattern-IsNamed this pattern method h = elim (Option-cases this.pattern) [
    | inl e ↦
        rw (e, set_pattern)
          (Post-then IsNamed IsNamed
            (apply_pattern library (record this { method = method }) pattern method) _
            (apply_pattern-IsNamed (record this { method = method }) pattern method h)
            (λ this' h'. set_range-IsNamed this' method h'))
    | inr (old, e) ↦ rw (e, set_pattern) tt
  ]

  pub set_text-IsNamed :
      (this : Ptype) (text : Bytes) → IsNamed this → Post IsNamed (set_text library this text)
  unfolding set_text
  set_text-IsNamed this text h = elim (Option-cases this.text) [
    | inl e ↦ rw (e, set_text) h
    | inr (old, e) ↦ rw (e, set_text) tt
  ]

  given_pattern-IsNamed :
      (this : Ptype) (pattern : Option Bytes) (method : Method)
      → IsNamed this
      → Post IsNamed (given_pattern library this pattern method)
  unfolding given_pattern
  given_pattern-IsNamed this none method h = h
  given_pattern-IsNamed this (some pattern) method h = set_pattern-IsNamed this pattern method h

  given_text-IsNamed :
      (this : Ptype) (text : Option Bytes)
      → IsNamed this
      → Post IsNamed (given_text library this text)
  unfolding given_text
  given_text-IsNamed this none h = h
  given_text-IsNamed this (some text) h = set_text-IsNamed this text h

  -- `ucli_ptype_new` makes a type of the name that it is given.
  pub ptype_new-IsNamed :
      (memory : Ptype) (text pattern : Option Bytes) (method : Method) (preprocess : Preprocess)
      → Post IsNamed (ptype_new library memory name text pattern method preprocess)
  unfolding ptype_new
  ptype_new-IsNamed memory text pattern method preprocess =
      let new = record memory {
        name = name;
        text = none;
        pattern = none;
        preprocess = preprocess;
        range = none;
      } in
      Post-then IsNamed IsNamed (given_pattern library new pattern method) _
        (given_pattern-IsNamed new pattern method refl) (λ this h. given_text-IsNamed this text h)
