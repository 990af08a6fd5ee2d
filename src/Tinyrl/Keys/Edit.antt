-- ===== src/Tinyrl/Keys/Edit.antt =====
-- What the editing keys do to a text with an insertion point in it.
use ucli.Base.{
  ℕ, zero, suc, ◌+◌, ◌%◌, ◌^◌, ◌≤◌, ◌<◌, Bool, true, false, [], ◌++◌, Option, none, some, ltb, ◌==◌,
  if◌then◌else◌, length, take, drop, drop_all, append-nil, Bool-cases, inl, inr, ◌≡◌, refl, ◌∙◌, ap,
  arith,
}
use mathlib.Core.Path.{subst}
use ucli.Base.Run.{Run, ok, abort}
use ucli.Lub.Ctype.{Bytes, IsText}
use ucli.Tinyrl.Editor.{
  Handler, key_default, key_interrupt, key_start_of_line, key_end_of_line, key_kill, key_yank,
  key_crlf, key_backspace, key_delete, key_clear_screen, key_erase_line, key_escape, key_tab,
  client, Tinyrl, insert_text, delete_text,
}
use ucli.Tinyrl.Editor.Shows.{IsEditing}
use ucli.Tinyrl.Editor.Insert.{IsInserted, insert_text-IsInserted}
use ucli.Tinyrl.Editor.Splice.{spliced}
use ucli.Tinyrl.Editor.Delete.{delete_text-IsDeleted}
use ucli.Tinyrl.Editor.Cut.{cut, point_after}
use ucli.Tinyrl.Keys.{typed, control_text, key_text}

-- What an editing key makes of a text and the point in it, with the text that was killed last, and
-- whether it can. The other keys are not editing keys.
abbrev pub edit : Handler → ℕ → Option Bytes → Bytes → ℕ → Option (Bool × Bytes × ℕ)
edit key_default key killed s n = some (true, spliced n (typed key) s, length (typed key) + n)
edit key_interrupt key killed s n = some (true, [], 0)
edit key_start_of_line key killed s n = some (true, s, 0)
edit key_end_of_line key killed s n = some (true, s, length s)
edit key_kill key killed s n = some (true, take n s, n)
edit key_yank key none s n = some (false, s, n)
edit key_yank key (some t) s n = some (true, spliced n t s, length t + n)
edit key_crlf key killed s n = some (true, s, n)
edit key_backspace key killed s zero = some (false, s, 0)
edit key_backspace key killed s (suc n) = some (true, cut n n s, n)
edit key_delete key killed s n =
    some (if ltb n (length s) then (true, cut n n s, n) else (false, s, n))
edit key_erase_line key killed s n = some (true, drop (suc n) s, 0)
edit key_clear_screen key killed s n = none
edit key_escape key killed s n = none
edit key_tab key killed s n = none
edit (client i) key killed s n = none

-- The outcome of a handler: it does not fail, and the editor shows that text with that point.
abbrev pub Becomes : Bool × Bytes × ℕ → Run (Bool × Tinyrl) → Type 0
Becomes (done, t, n) (ok (result, next)) = (result ≡ done) × IsEditing next t × (next.point ≡ n)
Becomes _ abort = ⊥

inserts :
    (n max : ℕ) (s t : Bytes) (r : Bool × Tinyrl)
    → max ≡ 0
    → IsInserted n max s t r
    → Becomes (true, spliced n t s, length t + n) (ok r)
inserts n max s t (true, next) z (h, point) = (refl, h, point)
inserts n max s t (false, next) z (h, point, limited, _) = absurd (limited z)

pub insert_text-Becomes :
    (this : Tinyrl) (s t : Bytes)
    → IsEditing this s
    → IsText t
    → this.max_line_length ≡ 0
    → length t + length s < 2 ^ 32
    → Becomes (true, spliced this.point t s, length t + this.point) (ok (insert_text this t))
insert_text-Becomes this s t h y z small =
    inserts this.point this.max_line_length s t (insert_text this t) z
      (insert_text-IsInserted this s t h y small)

-- what a key puts in is a text of up to three characters
pub typed-IsText : (key : ℕ) → IsText (typed key) × (length (typed key) ≤ 3)
unfolding key_text control_text
typed-IsText key = elim (Bool-cases (ltb 31 key)) [
  | inl e ↦ elim (Bool-cases (key % 256 == 0)) [
    | inl z ↦ rw e (rw z (tt, omega arith))
    | inr z ↦ rw e (rw z (((ground (arith, z), omega arith), tt), omega arith))
  ]
  | inr e ↦ elim (Bool-cases (ltb key 10)) [
    | inl l ↦
        rw e
          (rw l (((omega arith, omega arith), ((omega arith, ground (arith, l)), tt)), omega arith))
    | inr l ↦
        let low : key ≤ 31 = ground (arith, e) in
        rw e (
          rw l (
            (
              (omega arith, omega arith),
              ((omega arith, omega (arith, low)), ((omega arith, omega arith), tt)),
            ),
            omega arith,
          ))
  ]
]

pub deleted-Becomes :
    (this : Tinyrl) (s : Bytes) (start last : ℕ)
    → IsEditing this s
    → suc (length s) < 2 ^ 32
    → start ≤ last
    → start ≤ length s
    → Becomes
        (true, cut start last s, point_after start last this.point)
        (ok (true, delete_text this start last))
deleted-Becomes this s start last h small sl le =
    let (deleted, point) = (delete_text-IsDeleted this s start last h small sl le).0 in
    (refl, deleted, point)

pub Becomes-at :
    (done : Bool) {t t' : Bytes} {n n' : ℕ} (r : Run (Bool × Tinyrl))
    → t ≡ t'
    → n ≡ n'
    → Becomes (done, t, n) r
    → Becomes (done, t', n') r
Becomes-at done {t} {t'} {n} {n'} r e k h =
    subst (λ m. Becomes (done, t', m) r) k (subst (λ u. Becomes (done, u, n) r) e h)

-- What a key promises: nothing, if it is not an editing key.
abbrev pub Keeps : Option (Bool × Bytes × ℕ) → Run (Bool × Tinyrl) → Type 0
Keeps none r = Unit
Keeps (some result) r = Becomes result r

pub one_deleted :
    (this : Tinyrl) (s : Bytes) (n : ℕ)
    → this.point ≡ n
    → IsEditing this s
    → suc (length s) < 2 ^ 32
    → Becomes (true, cut n n s, n) (ok (true, delete_text this this.point this.point))
one_deleted this s n q h small =
    Becomes-at true (ok (true, delete_text this this.point this.point)) (ap (λ m. cut m m s) q)
      (ground (arith, q)) (deleted-Becomes this s this.point this.point h small (omega arith) h.2)

pub to_end : (s : Bytes) (n last : ℕ) → last ≡ length s → cut n last s ≡ take n s
to_end s n last e =
    let none_left = drop_all (suc last) s (omega (arith, e)) in
    ap (λ t. take n s ++ t) none_left ∙ append-nil (take n s)
