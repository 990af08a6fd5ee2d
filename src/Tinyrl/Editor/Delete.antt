-- ===== src/Tinyrl/Editor/Delete.antt =====
-- Deleting text from the line.
use ucli.Base.{
  ℕ, suc, ◌^◌, ◌≤◌, ◌<◌, false, ◌++◌, ltb, if◌then◌else◌, length, take, drop_all, Bool-cases, inl,
  inr, ◌≡◌, refl, sym, ◌∙◌, ap, arith,
}
use mathlib.Core.Path.{subst}
use ucli.Lub.Ctype.{Bytes}
use ucli.Tinyrl.Memory.Held.{}
use ucli.Tinyrl.Editor.{Tinyrl, changed_line, delete_range, delete_text}
use ucli.Tinyrl.Editor.Shows.{IsEditing, IsOwn, IsOwn-IsEditing, changed_line-IsOwn}
use ucli.Tinyrl.Editor.Cut.{cut, length-cut, point_after, delete_range-IsOwn}

-- beyond the end of the line there is nothing to delete
clamp_lem :
    (start last : ℕ) (s : Bytes)
    → cut start (if ltb (length s) last then length s else last) s ≡ cut start last s
clamp_lem start last s = elim (Bool-cases (ltb (length s) last)) [
  | inl e ↦
      let all = drop_all (suc (length s)) s (omega arith) in
      let more = drop_all (suc last) s (ground (arith, e)) in
      rw e (ap (λ t. take start s ++ t) (all ∙ sym more))
  | inr e ↦ rw e refl
]

clamp_point :
    (start last size point : ℕ)
    → point ≤ size
    → point_after start (if ltb size last then size else last) point ≡ point_after start last point
clamp_point start last size point p = ground (arith, p)

-- The text of the editor after a deletion of what is between the two offsets, and its point.
abbrev pub IsDeleted : ℕ → ℕ → ℕ → Bytes → Tinyrl → Type 0
IsDeleted n start last s next =
    IsEditing next (cut start last s) × (next.point ≡ point_after start last n)

ranged-IsDeleted :
    (this : Tinyrl) (s : Bytes) (start last : ℕ)
    → IsOwn this s
    → suc (length s) < 2 ^ 32
    → start ≤ last
    → last ≤ length s
    → IsDeleted this.point start last s (delete_range this start last)
ranged-IsDeleted this s start last h small sl le =
    let (own, point) = delete_range-IsOwn this s start last h small sl le in
    let total = length-cut start last s (omega (arith, sl, le)) in
    (
      IsOwn-IsEditing (delete_range this start last) (cut start last s) own
          (omega (arith, total, small, sl, le)),
      point,
    )

IsDeleted-at :
    (n n' start last stop : ℕ) (s : Bytes) (next : Tinyrl)
    → cut start stop s ≡ cut start last s
    → point_after start stop n ≡ point_after start last n'
    → IsDeleted n start stop s next
    → IsDeleted n' start last s next
IsDeleted-at n n' start last stop s next e k (h, point) = (subst (IsEditing next) e h, point ∙ k)

clamped-IsDeleted :
    (this : Tinyrl) (s : Bytes) (start last : ℕ)
    → IsEditing this s
    → suc (length s) < 2 ^ 32
    → start ≤ last
    → start ≤ length s
    → IsDeleted this.point start last s (
        delete_range
          (changed_line this)
          start
          (if ltb (changed_line this).end last then (changed_line this).end else last))
clamped-IsDeleted this s start last h small sl le =
    let (own, point, _) = changed_line-IsOwn this s h in
    let stop = if ltb (length s) last then length s else last in
    let ranged =
      ranged-IsDeleted (changed_line this) s start stop own small (ground (arith, sl, le))
        (ground arith) in
    let clamped =
      IsDeleted-at (changed_line this).point this.point start last stop s
        (delete_range (changed_line this) start stop) (clamp_lem start last s)
        (ap (point_after start stop) point ∙ clamp_point start last (length s) this.point h.2)
        ranged in
    subst
      (λ e.
        IsDeleted this.point start last s
          (delete_range (changed_line this) start (if ltb e last then e else last)))
      (sym own.2) clamped

-- tinyrl_delete_text deletes the characters from one offset to another that is not in front of it, both
-- included, if the first one is within the line. A point behind them moves with its character, and one
-- among them moves to where they began. Where the offsets come in the other order, only the character at
-- the smaller one is deleted.
pub delete_text-IsDeleted :
    (this : Tinyrl) (s : Bytes) (start last : ℕ)
    → IsEditing this s
    → suc (length s) < 2 ^ 32
    → start ≤ last
    → start ≤ length s
    → IsDeleted this.point start last s (delete_text this start last)
      × IsDeleted this.point start start s (delete_text this last start)
unfolding delete_text
delete_text-IsDeleted this s start last h small sl le =
    let inward : ltb last start ≡ false = ground (arith, sl) in
    let first : (if ltb start last then start else last) ≡ start = ground (arith, sl) in
    (
      rw inward (clamped-IsDeleted this s start last h small sl le),
      rw first (clamped-IsDeleted this s start start h small (omega arith) le),
    )
