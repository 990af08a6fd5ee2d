-- ===== src/Tinyrl/Memory.antt =====
-- A block of memory, as the line editor uses it through the C library's memmove, strncpy and strcpy.
-- The block is a function from offsets to bytes; what it holds where nothing was written is arbitrary.
pub mod Held
use ucli.Base.{
  ℕ, zero, suc, ◌+◌, ◌-◌, ◌%◌, ◌^◌, Bool, List, [], ◌∷◌, ◌&&◌, ltb, leb, ◌==◌, if◌then◌else◌,
  length,
}
use ucli.Base.Run.{Run, ok, abort, ◌>>=◌}
use ucli.Lub.Ctype.{Bytes}

abbrev pub Memory : Type 0
Memory = ℕ → ℕ

-- the value as an `unsigned`
unfoldable pub unsigned : ℕ → ℕ
unsigned n = n % 2 ^ 32

-- the difference of two values of type `unsigned`
pub minus : ℕ → ℕ → ℕ
minus a b = (a + (2 ^ 32 - b)) % 2 ^ 32

pub set : Memory → ℕ → ℕ → Memory
set memory i c = λ k. if k == i then c else memory k

-- `n` bytes go from offset `from` to offset `to`
pub memmove : Memory → ℕ → ℕ → ℕ → Memory
memmove memory to from n =
    λ k. if leb to k && ltb k (to + n) then memory (from + (k - to)) else memory k

-- strncpy of a text with its length: no terminator is written
pub strncpy : Memory → ℕ → Bytes → Memory
strncpy memory i [] = memory
strncpy memory i (c ∷ text) = strncpy (set memory i c) (suc i) text

unfoldable pub strcpy : Memory → Bytes → Memory
strcpy memory text = set (strncpy memory 0 text) (length text) 0

-- The C string at offset `i`. A terminator that is not among the `n` bytes behind it is a read beyond
-- the block.
pub cstring : Memory → ℕ → ℕ → Run Bytes
cstring memory zero i = abort
cstring memory (suc n) i =
    let rest = cstring memory n (suc i) in
    if memory i == 0 then ok [] else (do s ← rest; ok (memory i ∷ s))
