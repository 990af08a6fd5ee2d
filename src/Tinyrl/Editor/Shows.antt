-- ===== src/Tinyrl/Editor/Shows.antt =====
-- The text that the editor shows.
use ucli.Base.{ℕ, ◌+◌, ◌^◌, ◌≤◌, ◌<◌, length, ◌≡◌, refl, arith}
use ucli.Lub.Ctype.{Bytes, IsText}
use ucli.Tinyrl.Memory.{Memory, strncpy, strcpy}
use ucli.Tinyrl.Memory.Held.{Holds, Holds-moved, set_same, set_other, strncpy-Holds}
use ucli.Tinyrl.Editor.{Line, buffer, entry, Tinyrl, changed_line, to_buffer}

-- The buffer holds the text and its terminator.
abbrev pub IsBuffer : Memory → ℕ → Bytes → Type 0
IsBuffer memory size s = Holds memory 0 s × (memory (length s) ≡ 0) × IsText s × (length s ≤ size)

-- `line` points at the text.
abbrev pub PointsAt : Line → Memory → ℕ → Bytes → Type 0
PointsAt buffer memory size s = IsBuffer memory size s
PointsAt (entry t) memory size s = (t ≡ s) × IsText s

pub PointsAt-buffer :
    (line : Line) (memory : Memory) (size : ℕ) (s : Bytes)
    → line ≡ buffer
    → IsBuffer memory size s
    → PointsAt line memory size s
PointsAt-buffer line memory size s own b = rw own b

-- The editor shows the text, with the insertion point inside it.
abbrev pub IsEditing : Tinyrl → Bytes → Type 0
IsEditing this s =
    PointsAt this.line this.memory this.buffer_size s
    × (this.end ≡ length s)
    × (this.point ≤ length s)
    × (length s < 2 ^ 32)

pub strcpy-IsBuffer :
    (memory : Memory) (s : Bytes) → IsText s → IsBuffer (strcpy memory s) (length s) s
unfolding strcpy
strcpy-IsBuffer memory s x =
    let kept : (k : ℕ) → k < length s → strcpy memory s (k + 0) ≡ strncpy memory 0 s (k + 0) =
      λ k lt. set_other (strncpy memory 0 s) (length s) 0 (k + 0) (λ e. omega (arith, e, lt)) in
    (
      Holds-moved (strncpy memory 0 s) (strcpy memory s) 0 0 s kept (strncpy-Holds memory 0 s),
      set_same (strncpy memory 0 s) (length s) 0,
      x,
      omega arith,
    )

-- The editor shows the text, and its buffer holds it.
abbrev pub IsOwn : Tinyrl → Bytes → Type 0
IsOwn this s =
    (this.line ≡ buffer)
    × IsBuffer this.memory this.buffer_size s
    × (this.end ≡ length s)
    × (this.point ≤ length s)

pub IsOwn-IsEditing :
    (this : Tinyrl) (s : Bytes) → IsOwn this s → length s < 2 ^ 32 → IsEditing this s
IsOwn-IsEditing this s (own, b, e, p) small =
    (PointsAt-buffer this.line this.memory this.buffer_size s own b, e, p, small)

to_buffer-IsOwn :
    (this : Tinyrl) (s : Bytes) (line : Line)
    → this.line ≡ line
    → PointsAt line this.memory this.buffer_size s
    → this.end ≡ length s
    → this.point ≤ length s
    → IsOwn (to_buffer line this) s
      × ((to_buffer line this).point ≡ this.point)
      × ((to_buffer line this).max_line_length ≡ this.max_line_length)
unfolding to_buffer
to_buffer-IsOwn this s buffer own b e p = ((own, b, e, p), refl, refl)
to_buffer-IsOwn this s (entry t) shown (q, x) e p =
    let written : IsBuffer (strcpy this.memory t) (length t) s =
      rw q (strcpy-IsBuffer this.memory s x) in
    ((refl, written, e, p), refl, refl)

-- `changed_line` keeps the text, the point and the limit, and makes the buffer hold the text.
pub changed_line-IsOwn :
    (this : Tinyrl) (s : Bytes)
    → IsEditing this s
    → IsOwn (changed_line this) s
      × ((changed_line this).point ≡ this.point)
      × ((changed_line this).max_line_length ≡ this.max_line_length)
unfolding changed_line
changed_line-IsOwn this s (h, e, p, small) = to_buffer-IsOwn this s this.line refl h e p
