-- ===== src/Lub/Ctype.antt =====
-- contrib/lub/ctype: character classes, over the C library's in the "C" locale. A C string is the
-- list of its bytes before the terminating zero, each a number from 1 to 255.
use Prim.Native.Char.{code}
use Prim.Native.String.{String}
use ucli.Base.{
  ℕ, ◌+◌, ◌-◌, ◌≤◌, ◌<◌, Bool, ◌&&◌, ◌||◌, List, [], ◌∷◌, leb, ◌==◌, if◌then◌else◌, All, ◌≡◌, arith,
}

abbrev pub Bytes : Type 0
Bytes = List ℕ

-- A string literal, which is ASCII wherever this is used.
abbrev pub codes : String → Bytes
codes String.[] = []
codes (String.◌∷◌ c s) = code c ∷ codes s

-- The bytes of a C string.
abbrev pub IsText : Bytes → Type 0
IsText s = All (λ c. (1 ≤ c) × (c < 256)) s

unfoldable pub isspace : ℕ → Bool
isspace c = c == 32 || (leb 9 c && leb c 13)

unfoldable pub isdigit : ℕ → Bool
isdigit c = leb b'0' c && leb c b'9'

unfoldable pub tolower : ℕ → ℕ
tolower c = if leb b'A' c && leb c b'Z' then c + 32 else c

pub toupper : ℕ → ℕ
toupper c = if leb b'a' c && leb c b'z' then c - 32 else c

-- `tolower` keeps a byte within 1 to 255, and on its side of 128.
pub tolower_range :
    (c : ℕ)
    → 1 ≤ c
    → c < 256
    → (1 ≤ tolower c) × (tolower c < 256) × (leb 128 (tolower c) ≡ leb 128 c)
unfolding tolower
tolower_range c h k = ground arith
