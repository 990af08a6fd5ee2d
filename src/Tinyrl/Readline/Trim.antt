-- ===== src/Tinyrl/Readline/Trim.antt =====
-- The space at the end of a line.
use ucli.Base.{
  ℕ, suc, ◌-◌, ◌^◌, ◌<◌, Bool, true, false, [], ◌∷◌, ◌==◌, ◌&&◌, not, if◌then◌else◌, length, take,
  Bool-cases, inl, inr, ◌≡◌, refl, sym, ◌∙◌, ap, arith,
}
use mathlib.Core.Path.{subst}
use ucli.Base.Run.{Run, ok, abort}
use ucli.Lub.Ctype.{Bytes, isspace}
use ucli.Tinyrl.Editor.{Tinyrl, delete_text}
use ucli.Tinyrl.Editor.Shows.{IsEditing}
use ucli.Tinyrl.Keys.Edit.{to_end}
use ucli.Tinyrl.Editor.Delete.{delete_text-IsDeleted}
use ucli.Tinyrl.Editor.Cut.{cut}
use ucli.Tinyrl.Readline.{ends_in_space, trim_done}
use ucli.Tinyrl.Readline.Frame.{delete_text-IsFramed, line_text-IsEditing}

-- The line that the client gets for a text: without a space at its end.
abbrev pub trimmed : Bytes → Bytes
trimmed [] = []
trimmed (c ∷ []) = if isspace c then [] else c ∷ []
trimmed (c ∷ (d ∷ s)) = c ∷ trimmed (d ∷ s)

-- a bell does not change the line
pub trim_done_not : (this : Tinyrl) → this.done ≡ false → trim_done this ≡ ok this
unfolding trim_done
trim_done_not this d = simp d refl

cons_if : (b : Bool) (c : ℕ) (x y : Bytes) → (if b then c ∷ x else c ∷ y) ≡ c ∷ (if b then x else y)
cons_if true c x y = refl
cons_if false c x y = refl

ends_lem :
    (c : ℕ) (s : Bytes)
    → (if ends_in_space (c ∷ s) (length s) then take (length s) (c ∷ s) else c ∷ s)
      ≡ trimmed (c ∷ s)
ends_lem c [] = refl
ends_lem c (d ∷ s) =
    cons_if (ends_in_space (d ∷ s) (length s)) c (take (length s) (d ∷ s)) (d ∷ s)
    ∙ ap (λ t. c ∷ t) (ends_lem d s)

-- The line is done, and it is that text.
abbrev pub IsDone : Bytes → Run Tinyrl → Type 0
IsDone t abort = ⊥
IsDone t (ok next) = (next.done ≡ true) × IsEditing next t

pub trim_done-IsDone :
    (this : Tinyrl) (s : Bytes)
    → IsEditing this s
    → this.done ≡ true
    → suc (length s) < 2 ^ 32
    → IsDone (trimmed s) (trim_done this)
unfolding trim_done
trim_done-IsDone this [] h d small =
    let empty : (this.done && not (this.end == 0)) ≡ false =
      ap (λ b. b && not (this.end == 0)) d ∙ ground (arith, h.1) in
    rw empty (d, h)
trim_done-IsDone this (c ∷ s) h d small =
    let more : (this.done && not (this.end == 0)) ≡ true =
      ap (λ b. b && not (this.end == 0)) d ∙ ground (arith, h.1) in
    let last : this.end - 1 ≡ length s = omega (arith, h.1) in
    let read = line_text-IsEditing this (c ∷ s) h in
    let choose : Bool → Bytes = λ b. if b then take (length s) (c ∷ s) else c ∷ s in
    elim (Bool-cases (ends_in_space (c ∷ s) (length s))) [
      | inl e ↦
          let e' : ends_in_space (c ∷ s) (this.end - 1) ≡ true =
            ap (ends_in_space (c ∷ s)) last ∙ e in
          let deleted =
            delete_text-IsDeleted this (c ∷ s) (this.end - 1) this.end h small (omega arith)
              (omega (arith, h.1)) in
          let text : cut (this.end - 1) this.end (c ∷ s) ≡ trimmed (c ∷ s) =
            to_end (c ∷ s) (this.end - 1) this.end h.1
            ∙ ap (λ n. take n (c ∷ s)) last
            ∙ sym (ap choose e)
            ∙ ends_lem c s in
          rw more (
            rw read (
              rw e' (
                (delete_text-IsFramed this (this.end - 1) this.end).3 ∙ d,
                subst (IsEditing (delete_text this (this.end - 1) this.end)) text deleted.0.0,
              )))
      | inr e ↦
          let e' : ends_in_space (c ∷ s) (this.end - 1) ≡ false =
            ap (ends_in_space (c ∷ s)) last ∙ e in
          let text : c ∷ s ≡ trimmed (c ∷ s) = sym (ap choose e) ∙ ends_lem c s in
          rw more (rw read (rw e' (d, subst (IsEditing this) text h)))
    ]

pub IsDone-ok :
    (t : Bytes) (m : Run Tinyrl)
    → IsDone t m
    → (next : Tinyrl) × (m ≡ ok next) × (next.done ≡ true) × IsEditing next t
IsDone-ok t abort h = absurd h
IsDone-ok t (ok next) (d, h) = (next, refl, d, h)
