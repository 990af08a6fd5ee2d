-- ===== src/Cli/Pargv/Complete.antt =====
-- A line that is accepted has an argument for every parameter that is given by position.
use ucli.Base.{
  ℕ, zero, suc, ◌+◌, ◌-◌, Bool, List, [], ◌∷◌, Option, none, some, ltb, take, drop, All-append,
  take-append-drop, Bool-cases, Option-cases, ◌≡◌, inl, inr, refl,
}
use ucli.Base.Run.{Run, ok, ◌>>=◌, deref, Post, Post-bind, Post-then, Post-ok}
use ucli.Lub.Ctype.{Bytes}
use ucli.Lub.Argv.{Argv, get_count, get_arg}
use ucli.Cli.Param.{Param, param_validate}
use ucli.Cli.Command.{Command, non_option, next_non_option, find_option}
use ucli.Cli.Command.Options.{Positional, next_non_option-Positional}
use ucli.Cli.Pargv.Given.{IsGiven, insert_parg_self, Positional-insert_parg}
use ucli.Cli.Pargv.{
  Pargs, Parsed, line_ok, bad_param, find_parg, insert_parg, Next, again, stop, Loop, finished,
  stopped, keep_value, take_value, take_option, take_rest, take_positional, take_word, main_loop,
  go_on, check_missing, after_loop, pargv_init, no_value, gather, end_offset, refuse, set_defaults,
}

-- What is sought: the positional parameters in front of `index` have been given.
abbrev IsCovered : Command → Pargs → ℕ → Type 0
IsCovered cmd this index = Positional (λ p. IsGiven this p.name) (take index cmd.paramv)

abbrev Covers : Command → Next → Type 0
Covers cmd (again i index this) = IsCovered cmd this index
Covers cmd (stop refusal) = Unit

-- A positional parameter that is found is covered with its value.
Covers-found :
    (cmd : Command) (this : Pargs) (index : ℕ) (param : Param) (value : Option Bytes)
    → IsCovered cmd this index
    → (next_non_option cmd index).0 ≡ some param
    → IsCovered cmd (insert_parg this param value) (next_non_option cmd index).1
Covers-found cmd this index param value h e =
    next_non_option-Positional (λ p. IsGiven (insert_parg this param value) p.name) cmd index
      (Positional-insert_parg this param value (take index cmd.paramv) h)
      (rw e (insert_parg_self this param value))

module _ (cmd : Command) (argv : Argv) where
  Covers-keep_value :
      (this : Pargs) (i index : ℕ) (param : Param) (validated : Option Bytes)
      → ((value : Option Bytes) → IsCovered cmd (insert_parg this param value) index)
      → Post (Covers cmd) (keep_value argv this i index param validated)
  unfolding keep_value
  Covers-keep_value this i index param (some v) h = h (some v)
  Covers-keep_value this i index param none h =
      Post-bind (Covers cmd) (deref param.ptype) _ (λ ptype. tt)

  Covers-no_value : (param : Param) (i : ℕ) → Post (Covers cmd) (no_value argv param i)
  unfolding no_value
  Covers-no_value param i =
      Post-bind (Covers cmd) (deref param.prefix) _
        (λ prefix. Post-bind (Covers cmd) (deref param.ptype) _ (λ ptype. tt))

  Covers-take_rest :
      (this : Pargs) (i index : ℕ)
      → IsCovered cmd this index
      → Post (Covers cmd) (take_rest cmd argv this i index)
  unfolding take_rest
  Covers-take_rest this i index h = elim (Option-cases cmd.args) [
    | inl e ↦ rw e tt
    | inr (param, e) ↦ rw e (
        Post-bind (Covers cmd) (gather argv (get_count argv - i) i none) _
          (λ args. Positional-insert_parg this param args (take index cmd.paramv) h))
  ]

module _ (regexec : Bytes → Bytes → Bool) (cmd : Command) (argv : Argv) where
  Covers-take_value :
      (this : Pargs) (i index : ℕ) (param : Param) (arg : Option Bytes)
      → ((value : Option Bytes) → IsCovered cmd (insert_parg this param value) index)
      → Post (Covers cmd) (take_value regexec argv this i index param arg)
  unfolding take_value
  Covers-take_value this i index param none h = h none
  Covers-take_value this i index param (some arg) h =
      Post-bind (Covers cmd) (param_validate regexec param arg) _
        (λ validated. Covers-keep_value cmd argv this i index param validated h)

  Covers-take_option :
      (this : Pargs) (i index : ℕ) (param : Param)
      → IsCovered cmd this index
      → Post (Covers cmd) (take_option regexec argv this i index param)
  unfolding take_option take_value
  Covers-take_option this i index param h = elim (Option-cases param.ptype) [
    | inl e ↦
        rw (e, take_option)
          (Covers-take_value this i index param none
            (λ value. Positional-insert_parg this param value (take index cmd.paramv) h))
    | inr (ptype, e) ↦ elim (Option-cases (get_arg argv (i + 1))) [
      | inl none_left ↦ rw (e, none_left, take_option) (Covers-no_value cmd argv param i)
      | inr (arg, some_left) ↦
          rw (e, some_left, take_option)
            (Covers-take_value this (i + 1) index param (some arg)
              (λ value. Positional-insert_parg this param value (take index cmd.paramv) h))
    ]
  ]

  Covers-take_positional :
      (this : Pargs) (i index : ℕ) (arg : Bytes) (found : Option Param × ℕ)
      → IsCovered cmd this index
      → next_non_option cmd index ≡ found
      → Post (Covers cmd) (take_positional regexec cmd argv this i arg found)
  unfolding take_positional
  Covers-take_positional this i index arg (none, index') h e =
      Covers-take_rest cmd argv this i index'
        (rw e at (next_non_option-Positional (λ p. IsGiven this p.name) cmd index h (rw e tt)))
  Covers-take_positional this i index arg (some param, index') h e =
      Covers-take_value this i index' param (some arg)
        (λ value. rw e at (Covers-found cmd this index param value h (rw e)))

  Covers-take_word :
      (this : Pargs) (i index : ℕ) (arg : Bytes)
      → IsCovered cmd this index
      → Post (Covers cmd) (take_word regexec cmd argv this i index arg)
  unfolding take_word
  Covers-take_word this i index arg h = elim (Option-cases (find_option cmd arg)) [
    | inl e ↦ rw (e, take_word) (Covers-take_positional this i index arg _ h refl)
    | inr (param, e) ↦ rw (e, take_word) (Covers-take_option this i index param h)
  ]

  unfoldable IsDone : Loop → Type 0
  IsDone (finished this i index) = IsCovered cmd this index
  IsDone (stopped refusal) = Unit

  IsDone-go_on :
      (go : ℕ → ℕ → Pargs → Run Loop)
      → ((i index : ℕ) (this : Pargs) → IsCovered cmd this index → Post IsDone (go i index this))
      → (next : Next) → Covers cmd next
      → Post IsDone (go_on go next)
  unfolding go_on IsDone
  IsDone-go_on go h (again i index this) c = h i index this c
  IsDone-go_on go h (stop refusal) c = tt

  IsDone-main_loop :
      (fuel : ℕ) (this : Pargs) (i index : ℕ)
      → IsCovered cmd this index
      → Post IsDone (main_loop regexec fuel cmd argv this i index)
  unfolding main_loop IsDone
  IsDone-main_loop zero this i index h = h
  IsDone-main_loop (suc fuel) this i index h = elim (Bool-cases (ltb i (get_count argv))) [
    | inr e ↦ rw (e, Post) h
    | inl e ↦
        rw (e, Post)
          (Post-bind IsDone (deref (get_arg argv i)) _ (λ arg.
            Post-then (Covers cmd) IsDone (take_word regexec cmd argv this i index arg) _
              (Covers-take_word this i index arg h)
              (IsDone-go_on _ (λ i' index' this' c. IsDone-main_loop fuel this' i' index' c))))
  ]

-- What the parsed arguments of the command give, if the line is accepted.
abbrev IsComplete : Command → Parsed → Type 0
IsComplete cmd (line_ok pargs) = Positional (λ p. IsGiven pargs p.name) cmd.paramv
IsComplete cmd (bad_param refusal) = Unit

-- The parameters that are left are looked at one by one.
module _ (cmd : Command) (argv : Argv) (this : Pargs) (i : ℕ) where
  IsComplete-refuse : (param : Param) (m : Run ℕ) → Post (IsComplete cmd) (m >>= refuse param)
  unfolding refuse
  IsComplete-refuse param m =
      Post-bind (IsComplete cmd) m _
        (λ offset. Post-bind (IsComplete cmd) (deref param.ptype) _ (λ ptype. tt))

  IsComplete-check_missing :
      (ps : List Param)
      → (Positional (λ p. IsGiven this p.name) ps
          → Positional (λ p. IsGiven this p.name) cmd.paramv)
      → Post (IsComplete cmd) (check_missing ps argv this i)
  unfolding check_missing
  IsComplete-check_missing [] h = h tt
  IsComplete-check_missing (param ∷ ps) h = elim (Bool-cases (non_option param)) [
    | inr e ↦ rw e (IsComplete-check_missing ps (λ hs. h ((λ t. cc), hs)))
    | inl e ↦ elim (Option-cases (find_parg this param.name)) [
      | inl missing ↦ rw (e, missing) (IsComplete-refuse param (end_offset argv i))
      | inr (parg, there) ↦ rw (e, there) (IsComplete-check_missing ps (λ hs. h ((λ t n. cc), hs)))
    ]
  ]

module _ (regexec : Bytes → Bytes → Bool) (cmd : Command) (argv : Argv) where
  IsComplete-after_loop :
      (loop : Loop)
      → IsDone regexec cmd argv loop
      → Post (IsComplete cmd) (after_loop regexec cmd argv loop)
  unfolding after_loop IsDone
  IsComplete-after_loop (stopped refusal) h = tt
  IsComplete-after_loop (finished this i index) h =
      IsComplete-check_missing cmd argv this i (drop index cmd.paramv) (λ hs.
        rw⁻¹ (take-append-drop index cmd.paramv)
          (All-append _ (take index cmd.paramv) (drop index cmd.paramv) h hs))

  -- If ucli_pargv_init accepts a line, then every parameter that is given by its position (it has a
  -- type and no prefix) has an argument in the result.
  pub pargv_init-IsComplete :
      (pargs : Pargs)
      → pargv_init regexec cmd argv ≡ ok (line_ok pargs)
      → Positional (λ p. IsGiven pargs p.name) cmd.paramv
  unfolding pargv_init
  pargv_init-IsComplete pargs e =
      Post-ok (IsComplete cmd) _
        (Post-bind (IsComplete cmd) (set_defaults regexec [] cmd.paramv) _ (λ this.
          Post-then (IsDone regexec cmd argv) (IsComplete cmd) _ _
            (IsDone-main_loop regexec cmd argv _ this _ 0 tt) (IsComplete-after_loop)))
        e
