-- ===== src/Tinyrl/Keys/Refine.antt =====
-- The key handlers, and what the keys do to the text.
use ucli.Base.{
  ℕ, zero, suc, ◌+◌, ◌-◌, ◌^◌, ◌<◌, true, false, [], ◌++◌, Option, none, some, ltb, ◌==◌, length,
  take, drop, take-append-drop, length-drop, All-split, Bool-cases, inl, inr, ◌≡◌, refl, ◌∙◌, ap,
  arith,
}
use mathlib.Core.Path.{subst}
use ucli.Base.Run.{ok}
use ucli.Lub.Ctype.{Bytes, IsText}
use ucli.Lub.Text.{text_of}
use ucli.Tinyrl.Memory.{cstring}
use ucli.Tinyrl.Memory.Held.{Holds-drop, Holds-at, cstring-Holds}
use ucli.Tinyrl.Editor.{
  buffer, Handler, key_default, key_interrupt, key_start_of_line, key_end_of_line, key_kill,
  key_yank, key_crlf, key_backspace, key_delete, key_clear_screen, key_erase_line, key_escape,
  key_tab, client, Tinyrl, delete_text, crlf,
}
use ucli.Tinyrl.Editor.Shows.{IsBuffer, PointsAt, IsEditing}
use ucli.Tinyrl.Keys.{
  typed, yank, CompletionFunc, ClientHandler, run_handler, run_default, run_interrupt, run_kill,
  run_yank, run_crlf, run_backspace, run_delete, run_erase_line,
}
use ucli.Tinyrl.Keys.Edit.{
  edit, Becomes, Keeps, typed-IsText, insert_text-Becomes, deleted-Becomes, one_deleted, to_end,
  Becomes-at,
}

backspace-Keeps :
    (this : Tinyrl) (s : Bytes) (key : ℕ) (killed : Option Bytes) (n : ℕ)
    → this.point ≡ n
    → IsEditing this s
    → suc (length s) < 2 ^ 32
    → Keeps (edit key_backspace key killed s n) (ok (run_backspace this))
unfolding run_backspace
backspace-Keeps this s key killed zero q h small =
    let first : (this.point == 0) ≡ true = ground (arith, q) in rw first (refl, h, q)
backspace-Keeps this s key killed (suc n) q (h, e, p, l) small =
    let later : (this.point == 0) ≡ false = ground (arith, q) in
    rw later (
      one_deleted (record this { point = this.point - 1 }) s n (omega (arith, q))
        (h, e, omega (arith, p), l) small)

delete-Keeps :
    (this : Tinyrl) (s : Bytes) (key : ℕ) (killed : Option Bytes)
    → IsEditing this s
    → suc (length s) < 2 ^ 32
    → Keeps (edit key_delete key killed s this.point) (ok (run_delete this))
unfolding run_delete
delete-Keeps this s key killed h small = elim (Bool-cases (ltb this.point (length s))) [
  | inl e ↦
      let e' : ltb this.point this.end ≡ true = ap (ltb this.point) h.1 ∙ e in
      rw (e, e') (one_deleted this s this.point refl h small)
  | inr e ↦
      let e' : ltb this.point this.end ≡ false = ap (ltb this.point) h.1 ∙ e in
      rw (e, e') (refl, h, refl)
]

kill_rest :
    (this : Tinyrl) (s : Bytes)
    → IsEditing this s
    → suc (length s) < 2 ^ 32
    → Becomes
        (true, take this.point s, this.point)
        (ok (true, delete_text this this.point this.end))
kill_rest this s h small =
    Becomes-at true (ok (true, delete_text this this.point this.end))
      (to_end s this.point this.end h.1) (ground (arith, h.1, h.2))
      (deleted-Becomes this s this.point this.end h small (omega (arith, h)) h.2)

interrupt-Becomes :
    (this : Tinyrl) (s : Bytes)
    → IsEditing this s
    → suc (length s) < 2 ^ 32
    → Becomes (true, [], 0) (ok (run_interrupt this))
unfolding run_interrupt
interrupt-Becomes this s h small =
    let (_, gone, point) =
      Becomes-at true (ok (true, delete_text this 0 this.end)) (to_end s 0 this.end h.1)
        (ground (arith, h.1, h.2))
        (deleted-Becomes this s 0 this.end h small (omega arith) (omega arith)) in
    (refl, gone, point)

erase_line-Becomes :
    (this : Tinyrl) (s : Bytes)
    → IsEditing this s
    → suc (length s) < 2 ^ 32
    → Becomes (true, drop (suc this.point) s, 0) (ok (run_erase_line this))
unfolding run_erase_line
erase_line-Becomes this s h small =
    let (_, (shown, e, p, l), _) =
      deleted-Becomes this s 0 this.point h small (omega arith) (omega arith) in
    (refl, (shown, e, omega arith, l), refl)

-- what the kill key takes out, when the line is the buffer
kill_lem :
    (this : Tinyrl) (s : Bytes)
    → IsEditing this s
    → this.line ≡ buffer
    → run_kill this
      ≡ ok (
        true,
        delete_text (record this { kill_string = some (drop this.point s) }) this.point this.end,
      )
unfolding run_kill
kill_lem this s (h, e, p, l) own =
    let (held, z, x, fits) : IsBuffer this.memory this.buffer_size s =
      subst (λ k. PointsAt k this.memory this.buffer_size s) own h in
    let whole : IsText (take this.point s ++ drop this.point s) =
      rw (take-append-drop this.point s) x in
    let legal = All-split _ (take this.point s) (drop this.point s) whole in
    let size = length-drop this.point s in
    let read : cstring this.memory (suc this.buffer_size - this.point) this.point
        ≡ ok (drop this.point s) =
      cstring-Holds this.memory (suc this.buffer_size - this.point) this.point (drop this.point s)
        legal.1
        (Holds-at this.memory (drop this.point s) (omega arith)
          (Holds-drop this.memory 0 this.point s held))
        (ap this.memory (omega (arith, size, p)) ∙ z) (omega (arith, size, p, fits)) in
    rw read refl

yank-Keeps :
    (this : Tinyrl) (s : Bytes) (key : ℕ) (killed : Option Bytes)
    → IsEditing this s
    → this.max_line_length ≡ 0
    → IsText (text_of killed)
    → length (text_of killed) + length s < 2 ^ 32
    → Keeps (edit key_yank key killed s this.point) (ok (yank this killed))
yank-Keeps this s key none h z y small = (refl, h, refl)
yank-Keeps this s key (some t) h z y small = insert_text-Becomes this s t h y z small

module _ (attempt : CompletionFunc) (bound : ClientHandler) where
  -- The handlers of the editing keys do to the line what `edit` says, and none of them fails, where no
  -- limit is set on the line and it stays below 2 ^ 32 bytes. The line may be the buffer or a history
  -- entry; for the kill key it is the buffer. The key that erases the line deletes what is in front of
  -- the point and the character at it, and keeps the rest.
  pub run_handler-Keeps :
      (handler : Handler) (this : Tinyrl) (key : ℕ) (s : Bytes)
      → IsEditing this s
      → this.max_line_length ≡ 0
      → IsText (text_of this.kill_string)
      → length (text_of this.kill_string) + length s + 3 < 2 ^ 32
      → (handler ≡ key_kill → this.line ≡ buffer)
      → Keeps
          (edit handler key this.kill_string s this.point)
          (run_handler attempt bound handler this key)
  unfolding run_handler run_default run_crlf run_yank crlf
  run_handler-Keeps key_default this key s h z y small own =
      let (legal, short) = typed-IsText key in
      insert_text-Becomes this s (typed key) h legal z (omega (arith, short, small))
  run_handler-Keeps key_interrupt this key s h z y small own =
      interrupt-Becomes this s h (omega (arith, small))
  run_handler-Keeps key_start_of_line this key s (shown, e, p, l) z y small own =
      (refl, (shown, e, omega arith, l), refl)
  run_handler-Keeps key_end_of_line this key s (shown, e, p, l) z y small own =
      (refl, (shown, e, omega (arith, e), l), e)
  run_handler-Keeps key_kill this key s h z y small own = rw (kill_lem this s h (own refl)) (
      kill_rest (record this { kill_string = some (drop this.point s) }) s h (omega (arith, small)))
  run_handler-Keeps key_yank this key s h z y small own =
      yank-Keeps this s key this.kill_string h z y (omega (arith, small))
  run_handler-Keeps key_crlf this key s h z y small own = (refl, h, refl)
  run_handler-Keeps key_backspace this key s h z y small own =
      backspace-Keeps this s key this.kill_string this.point refl h (omega (arith, small))
  run_handler-Keeps key_delete this key s h z y small own =
      delete-Keeps this s key this.kill_string h (omega (arith, small))
  run_handler-Keeps key_clear_screen this key s h z y small own = tt
  run_handler-Keeps key_erase_line this key s h z y small own =
      erase_line-Becomes this s h (omega (arith, small))
  run_handler-Keeps key_escape this key s h z y small own = tt
  run_handler-Keeps key_tab this key s h z y small own = tt
  run_handler-Keeps (client i) this key s h z y small own = tt
