-- ===== src/Tinyrl/Redisplay/Terminal.antt =====
-- What a terminal does, which is not part of the program: `Terminal` says what its documentation says
-- of the requests that the editor makes, on a line that does not wrap. Also what the tests of a redisplay
-- say of two lines.
use ucli.Base.{
  ℕ, ◌+◌, ◌-◌, ◌≤◌, ◌<◌, Bool, true, false, [], ◌∷◌, ◌++◌, ◌==◌, ◌&&◌, ◌||◌, not, if◌then◌else◌,
  length, take, drop, ◌≡◌, refl, ap, arith,
}
use ucli.Lub.Ctype.{Bytes}
use ucli.Lub.Text.{same_text}
use ucli.Tinyrl.Editor.{Tinyrl, Output, print, cursor_back, cursor_forward, erase}
use ucli.Tinyrl.Redisplay.{echo, echoes, internal_print, same_prefix}

-- A screen shows a text behind the prompt, with the cursor at an offset in it.
pub record Terminal : Type 1 where
  pub Screen : Type 0
  pub obey : Output → Screen → Screen
  pub Shows : Screen → Bytes → ℕ → Type 0
  pub print_end :
      (screen : Screen) (s t : Bytes)
      → Shows screen s (length s)
      → Shows (obey (print t) screen) (s ++ t) (length (s ++ t))
  pub back :
      (screen : Screen) (s : Bytes) (n k : ℕ)
      → 0 < k
      → k ≤ n
      → Shows screen s n
      → Shows (obey (cursor_back k) screen) s (n - k)
  pub forward :
      (screen : Screen) (s : Bytes) (n k : ℕ)
      → 0 < k
      → n + k ≤ length s
      → Shows screen s n
      → Shows (obey (cursor_forward k) screen) s (n + k)
  pub erase_at :
      (screen : Screen) (s : Bytes) (n k : ℕ)
      → 0 < k
      → n + k ≤ length s
      → Shows screen s n
      → Shows (obey (erase k) screen) (take n s ++ drop (n + k) s) n

and_true : (a b : Bool) → (a && b) ≡ true → (a ≡ true) × (b ≡ true)
and_true true b h = (refl, h)
and_true false b h = cc

pub same_prefix-take :
    (s t : Bytes) → length t ≤ length s → same_prefix (length t) s t ≡ true → take (length t) s ≡ t
unfolding same_prefix
same_prefix-take s [] h e = refl
same_prefix-take [] (d ∷ t) h e = ground (arith, h)
same_prefix-take (c ∷ s) (d ∷ t) h e =
    let (same, rest) = and_true (c == d) (same_prefix (length t) s t) e in
    let head : c ≡ d = ground (arith, same) in
    rw (same_prefix-take s t (omega (arith, h)) rest) (ap (λ x. x ∷ t) head)

pub internal_print-echo :
    (this : Tinyrl) (text : Bytes)
    → this.echo_enabled ≡ true
    → internal_print this text ≡ print text ∷ []
unfolding internal_print
internal_print-echo this text e =
    ap
      (λ b.
        if b
        then print text ∷ []
        else (if this.echo_char == 0 then [] else echo this.echo_char text))
      e

pub differs_some :
    (line last : Bytes) → same_prefix (length last) line last ≡ false → 0 < length last
unfolding same_prefix
differs_some line [] e = cc
differs_some line (c ∷ last) e = omega arith

pub differs_same :
    (line last : Bytes) → length line ≡ length last → same_text line last ≡ false → 0 < length last
unfolding same_text
differs_same [] [] h e = cc
differs_same (c ∷ line) [] h e = ground (arith, h)
differs_same line (c ∷ last) h e = omega arith

pub echoes_on : (this : Tinyrl) → this.echo_enabled ≡ true → echoes this ≡ true
echoes_on this e = ap (λ b. b || not (this.echo_char == 0)) e
