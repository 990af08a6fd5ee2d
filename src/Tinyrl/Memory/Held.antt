-- ===== src/Tinyrl/Memory/Held.antt =====
-- What a block of memory holds, and what copying keeps of it.
use ucli.Base.{
  ℕ, zero, suc, ◌+◌, ◌-◌, ◌^◌, ◌≤◌, ◌<◌, true, false, [], ◌∷◌, ◌++◌, ◌&&◌, ltb, leb, ◌==◌, length,
  take, drop, ◌≡◌, ◌≢◌, refl, ◌∙◌, ap, arith,
}
use mathlib.Core.Path.{subst}
use ucli.Base.Run.{ok}
use ucli.Lub.Ctype.{Bytes, IsText}
use ucli.Tinyrl.Memory.{Memory, unsigned, minus, set, memmove, strncpy, cstring}

pub unsigned_small : (n : ℕ) → n < 2 ^ 32 → unsigned n ≡ n
unfolding unsigned
unsigned_small n h = omega (arith, h)

pub minus_small : (a b : ℕ) → b ≤ a → a < 2 ^ 32 → minus a b ≡ a - b
unfolding minus
minus_small a b h k = omega (arith, h, k)

-- The bytes from offset `i` on are those of the text.
abbrev pub Holds : Memory → ℕ → Bytes → Type 0
Holds memory i [] = Unit
Holds memory i (c ∷ s) = (memory i ≡ c) × Holds memory (suc i) s

pub Holds-at : (memory : Memory) {i j : ℕ} (s : Bytes) → i ≡ j → Holds memory i s → Holds memory j s
Holds-at memory s e h = subst (λ n. Holds memory n s) e h

pub Holds-append :
    (memory : Memory) (i : ℕ) (s t : Bytes)
    → Holds memory i s
    → Holds memory (length s + i) t
    → Holds memory i (s ++ t)
Holds-append memory i [] t h k = Holds-at memory t (omega arith) k
Holds-append memory i (c ∷ s) t (e, h) k =
    (e, Holds-append memory (suc i) s t h (Holds-at memory t (omega arith) k))

pub Holds-split :
    (memory : Memory) (i : ℕ) (s t : Bytes)
    → Holds memory i (s ++ t)
    → Holds memory i s × Holds memory (length s + i) t
Holds-split memory i [] t h = (tt, Holds-at memory t (omega arith) h)
Holds-split memory i (c ∷ s) t (e, h) =
    let (l, r) = Holds-split memory (suc i) s t h in ((e, l), Holds-at memory t (omega arith) r)

pub Holds-take :
    (memory : Memory) (i n : ℕ) (s : Bytes) → Holds memory i s → Holds memory i (take n s)
Holds-take memory i zero s h = tt
Holds-take memory i (suc n) [] h = tt
Holds-take memory i (suc n) (c ∷ s) (e, h) = (e, Holds-take memory (suc i) n s h)

pub Holds-drop :
    (memory : Memory) (i n : ℕ) (s : Bytes) → Holds memory i s → Holds memory (n + i) (drop n s)
Holds-drop memory i zero s h = Holds-at memory s (omega arith) h
Holds-drop memory i (suc n) [] h = tt
Holds-drop memory i (suc n) (c ∷ s) (e, h) =
    Holds-at memory (drop n s) (omega arith) (Holds-drop memory (suc i) n s h)

-- The same bytes, in another block at another offset.
pub Holds-moved :
    (memory other : Memory) (i j : ℕ) (s : Bytes)
    → ((k : ℕ) → k < length s → other (k + j) ≡ memory (k + i))
    → Holds memory i s
    → Holds other j s
Holds-moved memory other i j [] same h = tt
Holds-moved memory other i j (c ∷ s) same (e, h) =
    let first : other j ≡ memory i =
      ap other (omega arith) ∙ same 0 (omega arith) ∙ ap memory (omega arith) in
    let later : (k : ℕ) → k < length s → other (k + suc j) ≡ memory (k + suc i) =
      λ k l. ap other (omega arith) ∙ same (suc k) (omega (arith, l)) ∙ ap memory (omega arith) in
    (first ∙ e, Holds-moved memory other (suc i) (suc j) s later h)

pub set_same : (memory : Memory) (i c : ℕ) → set memory i c i ≡ c
unfolding set
set_same memory i c = ground arith

pub set_other : (memory : Memory) (i c k : ℕ) → k ≢ i → set memory i c k ≡ memory k
unfolding set
set_other memory i c k h = ground arith

pub memmove_inside :
    (memory : Memory) (to from n k : ℕ)
    → k < n
    → memmove memory to from n (k + to) ≡ memory (k + from)
unfolding memmove
memmove_inside memory to from n k h =
    let inside : (leb to (k + to) && ltb (k + to) (to + n)) ≡ true = ground (arith, h) in
    rw inside (ap memory (omega arith))

pub memmove_outside :
    (memory : Memory) (to from n k : ℕ) → k < to → memmove memory to from n k ≡ memory k
unfolding memmove
memmove_outside memory to from n k h = ground arith

pub strncpy_before :
    (memory : Memory) (i : ℕ) (s : Bytes) (k : ℕ) → k < i → strncpy memory i s k ≡ memory k
unfolding strncpy
strncpy_before memory i [] k h = refl
strncpy_before memory i (c ∷ s) k h =
    strncpy_before (set memory i c) (suc i) s k (omega (arith, h))
    ∙ set_other memory i c k (λ e. omega (arith, e, h))

pub strncpy_behind :
    (memory : Memory) (i : ℕ) (s : Bytes) (k : ℕ)
    → length s + i ≤ k
    → strncpy memory i s k ≡ memory k
unfolding strncpy
strncpy_behind memory i [] k h = refl
strncpy_behind memory i (c ∷ s) k h =
    strncpy_behind (set memory i c) (suc i) s k (omega (arith, h))
    ∙ set_other memory i c k (λ e. omega (arith, e, h))

pub strncpy-Holds : (memory : Memory) (i : ℕ) (s : Bytes) → Holds (strncpy memory i s) i s
unfolding strncpy
strncpy-Holds memory i [] = tt
strncpy-Holds memory i (c ∷ s) = (
  strncpy_before (set memory i c) (suc i) s i (omega arith) ∙ set_same memory i c,
  strncpy-Holds (set memory i c) (suc i) s,
)

pub cstring-Holds :
    (memory : Memory) (n i : ℕ) (s : Bytes)
    → IsText s
    → Holds memory i s
    → memory (length s + i) ≡ 0
    → length s < n
    → cstring memory n i ≡ ok s
unfolding cstring
cstring-Holds memory zero i s t h z l = ground arith
cstring-Holds memory (suc n) i [] t h z l =
    let ends : memory i ≡ 0 = ap memory (omega arith) ∙ z in rw ends refl
cstring-Holds memory (suc n) i (c ∷ s) t (e, h) z l =
    let more : (memory i == 0) ≡ false = rw e (ground (arith, t)) in
    let tail =
      cstring-Holds memory n (suc i) s t.1 h (ap memory (omega arith) ∙ z) (omega (arith, l)) in
    rw more (rw (tail, e) refl)
