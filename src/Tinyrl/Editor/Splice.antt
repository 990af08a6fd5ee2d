-- ===== src/Tinyrl/Editor/Splice.antt =====
-- Putting a text into the block of memory.
use ucli.Base.{
  ℕ, ◌+◌, ◌-◌, ◌^◌, ◌≤◌, ◌<◌, ◌++◌, ltb, length, take, drop, length-take, length-append,
  length-drop, take-append-drop, All-split, All-append, Bool-cases, inl, inr, ◌≡◌, sym, ◌∙◌, ap,
  arith,
}
use ucli.Lub.Ctype.{Bytes, IsText}
use ucli.Tinyrl.Memory.{Memory, unsigned, minus, set, memmove, strncpy}
use ucli.Tinyrl.Memory.Held.{
  Holds, Holds-at, Holds-append, Holds-split, Holds-moved, unsigned_small, minus_small, set_same,
  set_other, memmove_inside, memmove_outside, strncpy_before, strncpy_behind, strncpy-Holds,
}
use ucli.Tinyrl.Editor.{buffer, Tinyrl, shift, insert}
use ucli.Tinyrl.Editor.Shows.{IsBuffer, PointsAt-buffer, IsEditing}

-- The text with `t` inserted at offset `n`.
abbrev pub spliced : ℕ → Bytes → Bytes → Bytes
spliced n t s = take n s ++ (t ++ drop n s)

length-spliced : (n : ℕ) (t s : Bytes) → n ≤ length s → length (spliced n t s) ≡ length t + length s
length-spliced n t s h =
    let inner = length-append t (drop n s) in
    let outer = length-append (take n s) (t ++ drop n s) in
    let front = length-take n s h in
    let back = length-drop n s in omega (arith, inner, outer, front, back, h)

-- A block that has `t` at offset `n`, and around it what another block has.
spliced-IsBuffer :
    (memory other : Memory) (size size' n : ℕ) (s t : Bytes)
    → IsBuffer memory size s
    → n ≤ length s
    → IsText t
    → length t + length s ≤ size'
    → ((k : ℕ) → k < n → other k ≡ memory k)
    → Holds other n t
    → ((k : ℕ) → k + n ≤ length s → other (k + (length t + n)) ≡ memory (k + n))
    → IsBuffer other size' (spliced n t s)
spliced-IsBuffer memory other size size' n s t (h, z, x, _) l y fits before middle behind =
    let front = length-take n s l in
    let back = length-drop n s in
    let total = length-spliced n t s l in
    let whole : Holds memory 0 (take n s ++ drop n s) = rw (take-append-drop n s) h in
    let (h1, h2) = Holds-split memory 0 (take n s) (drop n s) whole in
    let legal : IsText (take n s ++ drop n s) = rw (take-append-drop n s) x in
    let (x1, x2) = All-split _ (take n s) (drop n s) legal in
    let same1 : (k : ℕ) → k < length (take n s) → other (k + 0) ≡ memory (k + 0) = λ k lt.
      ap other (omega arith) ∙ before k (omega (arith, front, lt)) ∙ ap memory (omega arith) in
    let same2 : (k : ℕ)
        → k < length (drop n s)
        → other (k + (length t + (length (take n s) + 0))) ≡ memory (k + (length (take n s) + 0)) =
      λ k lt.
        ap other (omega (arith, front))
        ∙ behind k (omega (arith, front, back, lt))
        ∙ ap memory (omega (arith, front)) in
    let last : other (length (spliced n t s)) ≡ 0 =
      ap other (omega (arith, total, l))
      ∙ behind (length s - n) (omega (arith, l))
      ∙ ap memory (omega (arith, l))
      ∙ z in
    (
      Holds-append other 0 (take n s) (t ++ drop n s)
          (Holds-moved memory other 0 0 (take n s) same1 h1)
          (Holds-append other (length (take n s) + 0) t (drop n s)
            (Holds-at other t (omega (arith, front)) middle)
            (Holds-moved memory other (length (take n s) + 0) (length t + (length (take n s) + 0))
              (drop n s) same2 h2)),
      last,
      All-append _ (take n s) (t ++ drop n s) x1 (All-append _ t (drop n s) y x2),
      omega (arith, total, fits),
    )

shift_before :
    (this : Tinyrl) (delta k : ℕ)
    → this.point ≤ this.end
    → this.end + delta < 2 ^ 32
    → k < this.point
    → shift this delta k ≡ this.memory k
unfolding shift
shift_before this delta k p small h = elim (Bool-cases (ltb this.point this.end)) [
  | inl e ↦
      let wide = unsigned_small (this.point + delta) (omega (arith, p, small)) in
      rw e (
        memmove_outside this.memory (unsigned (this.point + delta)) this.point
          (minus this.end this.point + 1) k (omega (arith, wide, h)))
  | inr e ↦
      let wide = unsigned_small (this.end + delta) (omega (arith, small)) in
      rw e (
        set_other this.memory (unsigned (this.end + delta)) 0 k (λ q. omega (arith, q, wide, h, p)))
]

shift_behind :
    (this : Tinyrl) (delta k : ℕ)
    → this.point ≤ this.end
    → this.end + delta < 2 ^ 32
    → this.memory this.end ≡ 0
    → k + this.point ≤ this.end
    → shift this delta (k + (delta + this.point)) ≡ this.memory (k + this.point)
unfolding shift
shift_behind this delta k p small z h = elim (Bool-cases (ltb this.point this.end)) [
  | inl e ↦
      let wide = unsigned_small (this.point + delta) (omega (arith, p, small)) in
      let rest = minus_small this.end this.point p (omega (arith, small)) in
      rw e (
        ap
          (memmove this.memory (unsigned (this.point + delta)) this.point
            (minus this.end this.point + 1))
          (omega (arith, wide))
        ∙ memmove_inside this.memory (unsigned (this.point + delta)) this.point
            (minus this.end this.point + 1) k (omega (arith, rest, h, p)))
  | inr e ↦
      let wide = unsigned_small (this.end + delta) (omega (arith, small)) in
      let last : this.point ≡ this.end = ground (arith, p, e) in
      rw e (
        ap (set this.memory (unsigned (this.end + delta)) 0) (omega (arith, wide, last, h))
        ∙ set_same this.memory (unsigned (this.end + delta)) 0
        ∙ sym z
        ∙ ap this.memory (omega (arith, last, h)))
]

-- `insert` into an editor that shows its buffer, which has room for the text
pub insert-IsEditing :
    (this : Tinyrl) (s t : Bytes)
    → this.line ≡ buffer
    → IsBuffer this.memory this.buffer_size s
    → this.end ≡ length s
    → this.point ≤ length s
    → IsText t
    → length t + length s ≤ this.buffer_size
    → length t + length s < 2 ^ 32
    → IsEditing (insert this t (length t)) (spliced this.point t s)
unfolding insert
insert-IsEditing this s t own (h, z, x, f) e p y fits small =
    let inside : this.point ≤ this.end = omega (arith, e, p) in
    let moved =
      spliced-IsBuffer this.memory (strncpy (shift this (length t)) this.point t) this.buffer_size
        this.buffer_size this.point s t (h, z, x, f) p y fits
        (λ k lt.
          strncpy_before (shift this (length t)) this.point t k lt
          ∙ shift_before this (length t) k inside (omega (arith, e, small)) lt)
        (strncpy-Holds (shift this (length t)) this.point t)
        (λ k le.
          strncpy_behind (shift this (length t)) this.point t (k + (length t + this.point))
            (omega arith)
          ∙ shift_behind this (length t) k inside (omega (arith, e, small)) (ap this.memory e ∙ z)
              (omega (arith, e, le))) in
    let total = length-spliced this.point t s p in
    let narrow = unsigned_small (this.point + length t) (omega (arith, p, small)) in
    let wide = unsigned_small (this.end + length t) (omega (arith, e, small)) in
    (
      PointsAt-buffer this.line _ this.buffer_size _ own moved,
      omega (arith, e, total, wide),
      omega (arith, narrow, total, p),
      omega (arith, total, small),
    )
