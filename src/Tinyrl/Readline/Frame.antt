-- ===== src/Tinyrl/Readline/Frame.antt =====
-- What inserting a text leaves alone, and what a redisplay does.
use ucli.Base.{
  ℕ, suc, ◌+◌, Bool, true, false, ◌++◌, Option, none, some, if◌then◌else◌, length, ◌≡◌, refl, ◌∙◌,
  ap, arith,
}
use ucli.Base.Run.{ok, ◌>>=◌}
use ucli.Lub.Ctype.{Bytes}
use ucli.Tinyrl.Memory.{Memory, unsigned}
use ucli.Tinyrl.Memory.Held.{cstring-Holds}
use ucli.Tinyrl.Editor.{
  Line, buffer, entry, Tinyrl, to_buffer, new_size, resize, changed_line, extend_line_buffer,
  insert, insert_extended, insert_text, delete_range, delete_text, line_text, text_of_line,
}
use ucli.Tinyrl.Editor.Shows.{PointsAt, IsEditing}
use ucli.Tinyrl.Redisplay.{draw, redisplay}

-- The fields that are not about the text.
abbrev pub IsFramed : Tinyrl → Tinyrl → Type 0
IsFramed this next =
    (next.handlers ≡ this.handlers)
    × (next.max_line_length ≡ this.max_line_length)
    × (next.istream ≡ this.istream)
    × (next.done ≡ this.done)

IsFramed-trans : (a b c : Tinyrl) → IsFramed a b → IsFramed b c → IsFramed a c
IsFramed-trans a b c (h, m, i, d) (h', m', i', d') = (h' ∙ h, m' ∙ m, i' ∙ i, d' ∙ d)

to_buffer-IsFramed : (this : Tinyrl) (line : Line) → IsFramed this (to_buffer line this)
unfolding to_buffer
to_buffer-IsFramed this buffer = (refl, refl, refl, refl)
to_buffer-IsFramed this (entry s) = (refl, refl, refl, refl)

resize-IsFramed : (this : Tinyrl) (size : Option ℕ) → IsFramed this (resize this size).1
resize-IsFramed this none = (refl, refl, refl, refl)
resize-IsFramed this (some n) = (refl, refl, refl, refl)

choice-IsFramed :
    (this : Tinyrl) (b : Bool) (x y : Bool × Tinyrl)
    → IsFramed this x.1
    → IsFramed this y.1
    → IsFramed this (if b then x else y).1
choice-IsFramed this true x y h k = h
choice-IsFramed this false x y h k = k

extend-IsFramed : (this : Tinyrl) (len : ℕ) → IsFramed this (extend_line_buffer this len).1
unfolding extend_line_buffer
extend-IsFramed this len =
    choice-IsFramed this _ _ _
      (resize-IsFramed this (new_size this.max_line_length this.buffer_size len))
      (refl, refl, refl, refl)

insert_extended-IsFramed :
    (this : Tinyrl) (extended : Bool × Tinyrl) (t : Bytes) (delta : ℕ)
    → IsFramed this extended.1
    → IsFramed this (insert_extended extended t delta).1
unfolding insert
insert_extended-IsFramed this (true, next) t delta h = h
insert_extended-IsFramed this (false, next) t delta h = h

pub insert_text-IsFramed : (this : Tinyrl) (t : Bytes) → IsFramed this (insert_text this t).1
unfolding insert_text changed_line
insert_text-IsFramed this t =
    let changed = to_buffer-IsFramed this this.line in
    insert_extended-IsFramed this _ t (unsigned (length t)) (
      choice-IsFramed this _ _ _
        (IsFramed-trans this (changed_line this)
          (extend_line_buffer (changed_line this)
            (unsigned ((changed_line this).end + unsigned (length t)))).1
          changed
          (extend-IsFramed (changed_line this)
            (unsigned ((changed_line this).end + unsigned (length t)))))
        changed)

pub delete_text-IsFramed :
    (this : Tinyrl) (start end : ℕ) → IsFramed this (delete_text this start end)
unfolding delete_text delete_range changed_line
delete_text-IsFramed this start end = to_buffer-IsFramed this this.line

text_of_line-PointsAt :
    (line : Line) (memory : Memory) (size : ℕ) (s : Bytes)
    → PointsAt line memory size s
    → text_of_line line memory size ≡ ok s
text_of_line-PointsAt buffer memory size s (h, z, x, fits) =
    cstring-Holds memory (suc size) 0 s x h (ap memory (omega arith) ∙ z) (omega (arith, fits))
text_of_line-PointsAt (entry t) memory size s (e, x) = ap ok e

pub line_text-IsEditing : (this : Tinyrl) (s : Bytes) → IsEditing this s → line_text this ≡ ok s
line_text-IsEditing this s h = text_of_line-PointsAt this.line this.memory this.buffer_size s h.0

-- the editor once it has drawn its line
abbrev pub drawn : Tinyrl → Bytes → Tinyrl
drawn this s = record this {
  term = this.term ++ draw this s this.last_buffer;
  last_buffer = some s;
  last_point = this.point;
}

pub redisplay-drawn :
    (this : Tinyrl) (s : Bytes) → IsEditing this s → redisplay this ≡ ok (drawn this s)
unfolding redisplay
redisplay-drawn this s h =
    ap (λ r. r >>= λ line. ok (drawn this line)) (line_text-IsEditing this s h)
