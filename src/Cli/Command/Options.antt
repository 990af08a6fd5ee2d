-- ===== src/Cli/Command/Options.antt =====
-- What a search for the next positional parameter passes over.
use ucli.Base.{
  ℕ, true, List, [], ◌∷◌, Option, none, some, All, All-append, take, drop, take-add, Bool-cases,
  ◌≡◌, inl, inr,
}
use ucli.Cli.Param.{Param}
use ucli.Cli.Command.{Command, non_option, next_from, next_non_option}

-- Each parameter of the list that is given by position satisfies `P`.
abbrev pub Positional : (Param → Type 0) → List Param → Type 0
Positional P ps = All (λ p. non_option p ≡ true → P p) ps

abbrev pub Found : (Param → Type 0) → Option Param → Type 0
Found P none = Unit
Found P (some p) = P p

next_from-Positional :
    (P : Param → Type 0) (ps : List Param)
    → Found P (next_from ps).0
    → Positional P (take (next_from ps).1 ps)
unfolding next_from
next_from-Positional P [] f = tt
next_from-Positional P (p ∷ ps) f = elim (Bool-cases (non_option p)) [
  | inl e ↦ rw (e, next_from) ((λ _. rw (e, next_from) at f), tt)
  | inr e ↦ rw (e, next_from) ((λ h. cc), next_from-Positional P ps (rw (e, next_from) at f))
]

-- If all positional parameters in front of `index` satisfy `P`, and the one that is found does, then
-- so do all in front of the new index.
pub next_non_option-Positional :
    (P : Param → Type 0) (cmd : Command) (index : ℕ)
    → Positional P (take index cmd.paramv)
    → Found P (next_non_option cmd index).0
    → Positional P (take (next_non_option cmd index).1 cmd.paramv)
next_non_option-Positional P cmd index h f =
    unfold next_non_option in
    rw take-add (
      All-append _ (take index cmd.paramv) _ h
        (next_from-Positional P (drop index cmd.paramv) (unfold next_non_option in f)))
