-- ===== src/Cli/Pargv/Finish.antt =====
-- The loop over the words of a line comes to an end with the fuel that it is given.
use ucli.Base.{
  ℕ, zero, suc, ◌+◌, ◌-◌, ◌≤◌, ◌<◌, Bool, Option, none, some, ltb, Bool-cases, Option-cases, inl,
  inr, arith,
}
use ucli.Base.Run.{Run, deref, Post, Post-bind, Post-then}
use ucli.Lub.Ctype.{Bytes}
use ucli.Lub.Argv.{Argv, get_count, get_arg}
use ucli.Cli.Param.{Param, param_validate}
use ucli.Cli.Command.{Command, next_non_option, find_option}
use ucli.Cli.Pargv.{
  Pargs, Next, again, stop, Loop, finished, stopped, no_value, keep_value, take_value, take_option,
  take_rest, take_positional, take_word, gather, go_on, main_loop,
}

-- A word was taken: the loop goes on behind the word `i`, or it stops.
abbrev IsBehind : ℕ → Next → Type 0
IsBehind i (again i' index this) = i < i'
IsBehind i (stop refusal) = Unit

-- All words have been taken, unless one is refused.
abbrev pub AllTaken : Argv → Loop → Type 0
AllTaken argv (finished this i index) = get_count argv ≤ i
AllTaken argv (stopped refusal) = Unit

module _ (cmd : Command) (argv : Argv) where
  IsBehind-keep_value :
      (this : Pargs) (i index : ℕ) (param : Param) (validated : Option Bytes) (j : ℕ)
      → j ≤ i
      → Post (IsBehind j) (keep_value argv this i index param validated)
  unfolding keep_value
  IsBehind-keep_value this i index param (some v) j h = omega (arith, h)
  IsBehind-keep_value this i index param none j h =
      Post-bind (IsBehind j) (deref param.ptype) _ (λ ptype. tt)

  IsBehind-no_value : (param : Param) (i : ℕ) → Post (IsBehind i) (no_value argv param i)
  unfolding no_value
  IsBehind-no_value param i =
      Post-bind (IsBehind i) (deref param.prefix) _
        (λ prefix. Post-bind (IsBehind i) (deref param.ptype) _ (λ ptype. tt))

  IsBehind-take_rest :
      (this : Pargs) (i index : ℕ) → Post (IsBehind i) (take_rest cmd argv this i index)
  unfolding take_rest
  IsBehind-take_rest this i index = elim (Option-cases cmd.args) [
    | inl e ↦ rw e tt
    | inr (param, e) ↦
        rw e
          (Post-bind (IsBehind i) (gather argv (get_count argv - i) i none) _ (λ args. omega arith))
  ]

module _ (regexec : Bytes → Bytes → Bool) (cmd : Command) (argv : Argv) where
  IsBehind-take_value :
      (this : Pargs) (i index : ℕ) (param : Param) (arg : Option Bytes) (j : ℕ)
      → j ≤ i
      → Post (IsBehind j) (take_value regexec argv this i index param arg)
  unfolding take_value
  IsBehind-take_value this i index param none j h = omega (arith, h)
  IsBehind-take_value this i index param (some arg) j h =
      Post-bind (IsBehind j) (param_validate regexec param arg) _
        (λ validated. IsBehind-keep_value cmd argv this i index param validated j h)

  IsBehind-take_option :
      (this : Pargs) (i index : ℕ) (param : Param)
      → Post (IsBehind i) (take_option regexec argv this i index param)
  unfolding take_option take_value
  IsBehind-take_option this i index param = elim (Option-cases param.ptype) [
    | inl e ↦ rw (e, take_option) (IsBehind-take_value this i index param none i (omega arith))
    | inr (ptype, e) ↦ elim (Option-cases (get_arg argv (i + 1))) [
      | inl none_left ↦ rw (e, none_left, take_option) (IsBehind-no_value cmd argv param i)
      | inr (arg, some_left) ↦
          rw (e, some_left, take_option)
            (IsBehind-take_value this (i + 1) index param (some arg) i (omega arith))
    ]
  ]

  IsBehind-take_positional :
      (this : Pargs) (i : ℕ) (arg : Bytes) (found : Option Param × ℕ)
      → Post (IsBehind i) (take_positional regexec cmd argv this i arg found)
  unfolding take_positional
  IsBehind-take_positional this i arg (none, index') = IsBehind-take_rest cmd argv this i index'
  IsBehind-take_positional this i arg (some param, index') =
      IsBehind-take_value this i index' param (some arg) i (omega arith)

  IsBehind-take_word :
      (this : Pargs) (i index : ℕ) (arg : Bytes)
      → Post (IsBehind i) (take_word regexec cmd argv this i index arg)
  unfolding take_word
  IsBehind-take_word this i index arg = elim (Option-cases (find_option cmd arg)) [
    | inl e ↦ rw (e, take_word) (IsBehind-take_positional this i arg (next_non_option cmd index))
    | inr (param, e) ↦ rw (e, take_word) (IsBehind-take_option this i index param)
  ]

  AllTaken-go_on :
      (go : ℕ → ℕ → Pargs → Run Loop) (i : ℕ)
      → ((i' index : ℕ) (this : Pargs) → i < i' → Post (AllTaken argv) (go i' index this))
      → (next : Next) → IsBehind i next
      → Post (AllTaken argv) (go_on go next)
  unfolding go_on
  AllTaken-go_on go i h (again i' index this) b = h i' index this b
  AllTaken-go_on go i h (stop refusal) b = tt

  -- With fuel for the words from `i` on, or with more, the loop of ucli_pargv_init ends when it has
  -- gone through all words of the line or refuses one, unless the process stops.
  pub main_loop-AllTaken :
      (fuel : ℕ) (this : Pargs) (i index : ℕ)
      → get_count argv ≤ i + fuel
      → Post (AllTaken argv) (main_loop regexec fuel cmd argv this i index)
  unfolding main_loop
  main_loop-AllTaken zero this i index h = omega (arith, h)
  main_loop-AllTaken (suc fuel) this i index h = elim (Bool-cases (ltb i (get_count argv))) [
    | inr e ↦ rw (e, Post) (ground (arith, e))
    | inl e ↦
        rw (e, Post)
          (Post-bind (AllTaken argv) (deref (get_arg argv i)) _ (λ arg.
            Post-then (IsBehind i) (AllTaken argv) (take_word regexec cmd argv this i index arg) _
              (IsBehind-take_word this i index arg)
              (AllTaken-go_on _ i (λ i' index' this' b.
                main_loop-AllTaken fuel this' i' index' (omega (arith, h, b))))))
  ]
