-- ===== src/Tinyrl/Editor/Insert.antt =====
-- Inserting text into the line.
use ucli.Base.{
  ℕ, zero, suc, ◌+◌, ◌^◌, ◌≤◌, ◌<◌, Bool, true, false, ltb, if◌then◌else◌, length, Bool-cases, inl,
  inr, ◌≡◌, ◌≢◌, refl, ◌∙◌, ap, arith,
}
use mathlib.Core.Path.{subst}
use ucli.Lub.Ctype.{Bytes, IsText}
use ucli.Tinyrl.Memory.{unsigned}
use ucli.Tinyrl.Memory.Held.{unsigned_small}
use ucli.Tinyrl.Editor.{
  Tinyrl, changed_line, extend_line_buffer, new_size, resize, insert, insert_extended, insert_text,
}
use ucli.Tinyrl.Editor.Shows.{IsEditing, IsOwn, IsOwn-IsEditing, changed_line-IsOwn}
use ucli.Tinyrl.Editor.Splice.{spliced, insert-IsEditing}

-- What `extend_line_buffer` leaves: a block that is large enough, or the editor with a bell.
abbrev IsExtended : Tinyrl → ℕ → Bytes → Bool × Tinyrl → Type 0
IsExtended this len s (true, next) =
    IsOwn next s × (next.point ≡ this.point) × (len ≤ next.buffer_size)
IsExtended this len s (false, next) =
    IsOwn next s
    × (next.point ≡ this.point)
    × (this.max_line_length ≢ 0)
    × (this.max_line_length ≤ len)

resize-IsExtended :
    (this : Tinyrl) (s : Bytes) (len max : ℕ)
    → this.max_line_length ≡ max
    → IsOwn this s
    → this.buffer_size < len
    → IsExtended this len s (resize this (new_size max this.buffer_size len))
unfolding new_size
resize-IsExtended this s len zero q (own, (h, z, x, f), e, p) small =
    ((refl, (h, z, x, ground (arith, f, small)), e, p), refl, ground (arith, small))
resize-IsExtended this s len (suc max) q (own, (h, z, x, f), e, p) small =
    elim (Bool-cases (ltb len (suc max))) [
      | inl below ↦
          rw below
            ((refl, (h, z, x, ground (arith, f, small, below)), e, p), refl, ground (arith, below))
      | inr above ↦
          rw above
            ((own, (h, z, x, f), e, p), refl, (λ k. omega (arith, q, k)), ground (arith, q, above))
    ]

extend_line_buffer-IsExtended :
    (this : Tinyrl) (s : Bytes) (len : ℕ)
    → IsOwn this s
    → IsExtended this len s (extend_line_buffer this len)
unfolding extend_line_buffer
extend_line_buffer-IsExtended this s len (own, (h, z, x, f), e, p) =
    elim (Bool-cases (ltb this.buffer_size len)) [
      | inl small ↦ rw small (
          resize-IsExtended this s len this.max_line_length refl (own, (h, z, x, f), e, p)
            (ground (arith, small)))
      | inr wide ↦ rw wide ((own, (h, z, x, f), e, p), refl, ground (arith, wide))
    ]

room-IsExtended :
    (this : Tinyrl) (s : Bytes) (len : ℕ)
    → IsOwn this s
    → IsExtended this len s
        (if ltb this.buffer_size len then extend_line_buffer this len else (true, this))
room-IsExtended this s len own = elim (Bool-cases (ltb this.buffer_size len)) [
  | inl small ↦ rw small (extend_line_buffer-IsExtended this s len own)
  | inr wide ↦ rw wide (own, refl, ground (arith, wide))
]

-- What inserting a text at the point `n` leaves: the longer text and the point behind what is new, or
-- the text and the point as they were, where the limit `max` is reached.
abbrev pub IsInserted : ℕ → ℕ → Bytes → Bytes → Bool × Tinyrl → Type 0
IsInserted n max s t (true, next) = IsEditing next (spliced n t s) × (next.point ≡ length t + n)
IsInserted n max s t (false, next) =
    IsEditing next s × (next.point ≡ n) × (max ≢ 0) × (max ≤ length t + length s)

IsInserted-at :
    {n n' max max' : ℕ} (s t : Bytes) (r : Bool × Tinyrl)
    → n ≡ n'
    → max ≡ max'
    → IsInserted n max s t r
    → IsInserted n' max' s t r
IsInserted-at {n} {n'} {max} {max'} s t r e k h =
    subst (λ m. IsInserted n' m s t r) k (subst (λ m. IsInserted m max s t r) e h)

insert_point :
    (this : Tinyrl) (s t : Bytes)
    → this.point ≤ length s
    → length t + length s < 2 ^ 32
    → (insert this t (length t)).point ≡ length t + this.point
unfolding insert
insert_point this s t p small =
    let narrow = unsigned_small (this.point + length t) (omega (arith, p, small)) in
    omega (arith, narrow)

insert_extended-IsInserted :
    (this : Tinyrl) (s t : Bytes) (extended : Bool × Tinyrl)
    → IsExtended this (length t + length s) s extended
    → IsText t
    → length t + length s < 2 ^ 32
    → IsInserted this.point this.max_line_length s t (insert_extended extended t (length t))
insert_extended-IsInserted this s t (true, next) ((own, b, e, p), same, large) y small = (
  subst (λ n. IsEditing (insert next t (length t)) (spliced n t s)) same
      (insert-IsEditing next s t own b e p y large small),
  insert_point next s t p small ∙ ap (λ n. length t + n) same,
)
insert_extended-IsInserted this s t (false, next) (own, same, limited, above) y small =
    (IsOwn-IsEditing next s own (omega (arith, small)), same, limited, above)

-- tinyrl_insert_text puts the text in at the insertion point and moves the point behind it. It fails
-- only when the longer line would not be shorter than the limit, and then the line and the point stay.
-- The line that it shows may be the buffer or a history entry.
pub insert_text-IsInserted :
    (this : Tinyrl) (s t : Bytes)
    → IsEditing this s
    → IsText t
    → length t + length s < 2 ^ 32
    → IsInserted this.point this.max_line_length s t (insert_text this t)
unfolding insert_text
insert_text-IsInserted this s t h y small =
    let (own, point, max) = changed_line-IsOwn this s h in
    let delta = unsigned_small (length t) (omega (arith, small)) in
    let sum : unsigned (length t + (changed_line this).end) ≡ length t + length s =
      ap (λ n. unsigned (length t + n)) own.2 ∙ unsigned_small (length t + length s) small in
    let sum' : unsigned ((changed_line this).end + length t) ≡ length t + length s =
      ap unsigned (omega arith) ∙ sum in
    IsInserted-at s t (insert_text this t) point max (
      rw (delta, sum, sum')
        (insert_extended-IsInserted (changed_line this) s t _
          (room-IsExtended (changed_line this) s (length t + length s) own) y small))
