-- ===== src/Tinyrl/Editor/Cut.antt =====
-- Taking a range of bytes out of the block of memory.
use ucli.Base.{
  ℕ, suc, ◌+◌, ◌-◌, ◌^◌, ◌≤◌, ◌<◌, ◌++◌, ltb, leb, if◌then◌else◌, length, take, drop, length-take,
  length-append, length-drop, take-append-drop, All-split, All-append, Bool-cases, inl, inr, ◌≡◌,
  refl, sym, ◌∙◌, ap, arith,
}
use ucli.Lub.Ctype.{Bytes, IsText}
use ucli.Tinyrl.Memory.{Memory, unsigned, minus, set, memmove}
use ucli.Tinyrl.Memory.Held.{
  Holds-append, Holds-take, Holds-drop, Holds-moved, unsigned_small, minus_small, set_same,
  set_other, memmove_inside, memmove_outside,
}
use ucli.Tinyrl.Editor.{Tinyrl, delete_range}
use ucli.Tinyrl.Editor.Shows.{IsBuffer, IsOwn}

-- The text without the bytes from offset `start` to offset `last`.
abbrev pub cut : ℕ → ℕ → Bytes → Bytes
cut start last s = take start s ++ drop (suc last) s

pub length-cut :
    (start last : ℕ) (s : Bytes)
    → start ≤ length s
    → length (cut start last s) ≡ start + (length s - suc last)
length-cut start last s h =
    let all = length-append (take start s) (drop (suc last) s) in
    let front = length-take start s h in
    let back = length-drop (suc last) s in omega (arith, all, front, back)

-- A block that has the bytes behind `last` at offset `start`.
cut-IsBuffer :
    (memory other : Memory) (size start last : ℕ) (s : Bytes)
    → IsBuffer memory size s
    → start ≤ length s
    → start ≤ last
    → ((k : ℕ) → k < start → other k ≡ memory k)
    → ((k : ℕ) → k + suc last < length s → other (k + start) ≡ memory (k + suc last))
    → other (start + (length s - suc last)) ≡ 0
    → IsBuffer other size (cut start last s)
cut-IsBuffer memory other size start last s (h, z, x, fits) l m before behind ends =
    let front = length-take start s l in
    let back = length-drop (suc last) s in
    let total = length-cut start last s l in
    let legal : (n : ℕ) → IsText (take n s) × IsText (drop n s) =
      λ n. All-split _ (take n s) (drop n s) (rw (take-append-drop n s) x) in
    let same1 : (k : ℕ) → k < length (take start s) → other (k + 0) ≡ memory (k + 0) = λ k lt.
      ap other (omega arith) ∙ before k (omega (arith, front, lt)) ∙ ap memory (omega arith) in
    let same2 : (k : ℕ)
        → k < length (drop (suc last) s)
        → other (k + (length (take start s) + 0)) ≡ memory (k + (suc last + 0)) =
      λ k lt.
        ap other (omega (arith, front))
        ∙ behind k (omega (arith, back, lt))
        ∙ ap memory (omega arith) in
    (
      Holds-append other 0 (take start s) (drop (suc last) s)
          (Holds-moved memory other 0 0 (take start s) same1 (Holds-take memory 0 start s h))
          (Holds-moved memory other (suc last + 0) (length (take start s) + 0) (drop (suc last) s)
            same2 (Holds-drop memory 0 (suc last) s h)),
      ap other total ∙ ends,
      All-append _ (take start s) (drop (suc last) s) (legal start).0 (legal (suc last)).1,
      omega (arith, total, m, l, fits),
    )

-- Where the insertion point is, once the bytes from `start` to `last` are gone.
abbrev pub point_after : ℕ → ℕ → ℕ → ℕ
point_after start last point =
    if ltb point start
    then point
    else (if ltb last point then start + (point - suc last) else start)

-- the block that `delete_range` leaves, with its offsets worked out
moved-IsBuffer :
    (memory : Memory) (size start last : ℕ) (s : Bytes)
    → IsBuffer memory size s
    → start ≤ last
    → last ≤ length s
    → IsBuffer
        (set (memmove memory start (suc last) (length s - start)) (start + (length s - suc last)) 0)
        size
        (cut start last s)
moved-IsBuffer memory size start last s b sl le =
    let end = start + (length s - suc last) in
    let moved = memmove memory start (suc last) (length s - start) in
    cut-IsBuffer memory (set moved end 0) size start last s b (omega (arith, sl, le)) sl
      (λ k lt.
        set_other moved end 0 k (λ e. omega (arith, e, lt))
        ∙ memmove_outside memory start (suc last) (length s - start) k lt)
      (λ k lt.
        set_other moved end 0 (k + start) (λ e. omega (arith, e, lt))
        ∙ memmove_inside memory start (suc last) (length s - start) k (omega (arith, sl, lt)))
      (set_same moved end 0)

point_lem :
    (start last point : ℕ)
    → start ≤ last
    → point < 2 ^ 32
    → (if leb start point
        then (if ltb last point then minus point (suc last - start) else start)
        else point)
      ≡ point_after start last point
point_lem start last point sl small = elim (Bool-cases (ltb last point)) [
  | inl e ↦
      let back = minus_small point (suc last - start) (ground (arith, e)) small in
      rw (e, back) (ground (arith, e, sl))
  | inr e ↦ rw e (ground (arith, e))
]

end_lem :
    (start last end : ℕ)
    → start ≤ last
    → last ≤ end
    → end < 2 ^ 32
    → (if ltb last end then minus end (suc last - start) else start) ≡ start + (end - suc last)
end_lem start last end sl le small = elim (Bool-cases (ltb last end)) [
  | inl e ↦
      let back = minus_small end (suc last - start) (ground (arith, e)) small in
      rw (e, back) (ground (arith, e, sl))
  | inr e ↦ rw e (ground (arith, e))
]

point_after_inside :
    (start last point : ℕ) (s : Bytes)
    → start ≤ last
    → start ≤ length s
    → point ≤ length s
    → point_after start last point ≤ start + (length s - suc last)
point_after_inside start last point s sl l p = ground (arith, sl, l, p)

pub delete_range-IsOwn :
    (this : Tinyrl) (s : Bytes) (start last : ℕ)
    → IsOwn this s
    → suc (length s) < 2 ^ 32
    → start ≤ last
    → last ≤ length s
    → IsOwn (delete_range this start last) (cut start last s)
      × ((delete_range this start last).point ≡ point_after start last this.point)
unfolding delete_range
delete_range-IsOwn this s start last (own, b, e, p) small sl le =
    let wide = minus_small last start sl (omega (arith, le, small)) in
    let delta : unsigned (minus last start + 1) ≡ suc last - start =
      ap unsigned (omega (arith, wide, sl))
      ∙ unsigned_small (suc last - start) (omega (arith, le, small)) in
    let from : unsigned (start + (suc last - start)) ≡ suc last =
      ap unsigned (omega (arith, sl)) ∙ unsigned_small (suc last) (omega (arith, le, small)) in
    let rest : minus this.end start ≡ length s - start =
      ap (λ n. minus n start) e
      ∙ minus_small (length s) start (omega (arith, sl, le)) (omega (arith, small)) in
    let end : (if ltb last this.end then minus this.end (suc last - start) else start)
        ≡ start + (length s - suc last) =
      ap (λ n. if ltb last n then minus n (suc last - start) else start) e
      ∙ end_lem start last (length s) sl le (omega (arith, small)) in
    let point = point_lem start last this.point sl (omega (arith, p, small)) in
    let total = length-cut start last s (omega (arith, sl, le)) in
    let inside = point_after_inside start last this.point s sl (omega (arith, sl, le)) p in
    rw (delta, from, rest, end, point)
      (
        (
          own,
          moved-IsBuffer this.memory this.buffer_size start last s b sl le,
          sym total,
          omega (arith, total, inside),
        ),
        refl,
      )
