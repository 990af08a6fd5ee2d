-- ===== src/Tinyrl/Readline/Typed.antt =====
-- Typing a line.
use ucli.Base.{
  ℕ, zero, suc, ◌+◌, ◌%◌, ◌^◌, ◌≤◌, ◌<◌, Bool, true, false, [], ◌∷◌, ◌++◌, Option, none, some, ltb,
  ◌==◌, length, length-append, append-nil, append_assoc, drop_all, take_all, All, ◌≡◌, refl, sym,
  ◌∙◌, ap, arith,
}
use mathlib.Core.Path.{subst}
use ucli.Base.Run.{Run, ok, abort, ◌>>=◌}
use ucli.Lub.Ctype.{Bytes}
use ucli.Tinyrl.Editor.{key_default, key_crlf, Tinyrl, crlf, insert_text}
use ucli.Tinyrl.Editor.Shows.{IsEditing, strcpy-IsBuffer}
use ucli.Tinyrl.Redisplay.{redisplay, reset_line_state}
use ucli.Tinyrl.Complete.{CompletionFunc}
use ucli.Tinyrl.Keys.{ClientHandler, run_handler, run_default, run_crlf, typed, key_text}
use ucli.Tinyrl.Keys.Edit.{Becomes, insert_text-Becomes}
use ucli.Tinyrl.Editor.Splice.{spliced}
use ucli.Tinyrl.Readline.{
  Outcome, end_of_input, finished, get_key, proceed, loop, ring, trim_done, finish, readline,
  start_line,
}
use ucli.Tinyrl.Readline.Frame.{insert_text-IsFramed, line_text-IsEditing, drawn, redisplay-drawn}
use ucli.Tinyrl.Readline.Trim.{trimmed, trim_done_not, trim_done-IsDone, IsDone-ok}

typed_lem : (c : ℕ) → 31 < c → c < 256 → typed c ≡ c ∷ []
unfolding key_text
typed_lem c low high =
    let printable : ltb 31 c ≡ true = ground (arith, low) in
    let same : c % 256 ≡ c = omega (arith, high) in
    let some_text : (c == 0) ≡ false = ground (arith, low) in
    rw printable (rw same (rw some_text refl))

ring_lem : (r : Bool × Tinyrl) → r.0 ≡ true → ring r ≡ r.1
ring_lem (true, this) e = refl
ring_lem (false, this) e = cc

Becomes-ok :
    (n : ℕ) (t : Bytes) (r : Bool × Tinyrl)
    → Becomes (true, t, n) (ok r)
    → (r.0 ≡ true) × IsEditing r.1 t × (r.1.point ≡ n)
Becomes-ok n t (result, next) h = h

spliced_end : (s t : Bytes) → spliced (length s) t s ≡ s ++ t
spliced_end s t =
    let rest = drop_all (length s) s (omega arith) in
    rw (rest, take_all s) (ap (λ u. s ++ u) (append-nil t))

-- The loop ends with a line that is done, and it is that text.
abbrev pub Finishes : Bytes → Run (Option Outcome) → Type 0
Finishes t (ok (some (finished next))) = (next.done ≡ true) × IsEditing next t
Finishes t _ = ⊥

-- What the client is given.
abbrev pub Gives : Bytes → Run (Option (Option Bytes × Tinyrl)) → Type 0
Gives t (ok (some (some line, next))) = line ≡ t
Gives t _ = ⊥

module _ (attempt : CompletionFunc) (bound : ClientHandler) where
  loop_next :
      (fuel : ℕ) (this that next : Tinyrl)
      → this.done ≡ false
      → redisplay this ≡ ok that
      → get_key attempt bound that that.istream ≡ ok (some next)
      → loop attempt bound (suc fuel) this ≡ loop attempt bound fuel next
  unfolding loop
  loop_next fuel this that next d r g =
      ap (proceed attempt bound (loop attempt bound fuel) this) d ∙ simp r (simp g refl)

  get_key_typed :
      (this : Tinyrl) (s : Bytes) (c : ℕ) (stream : Bytes)
      → IsEditing this s
      → this.done ≡ false
      → this.max_line_length ≡ 0
      → this.handlers c ≡ key_default
      → 31 < c
      → c < 256
      → length s + 1 < 2 ^ 32
      → get_key attempt bound this (c ∷ stream)
        ≡ ok (some (insert_text (record this { istream = stream }) (c ∷ [])).1)
  unfolding get_key run_handler run_default
  get_key_typed this s c stream h d z k low high small =
      let reading : Tinyrl = record this { istream = stream } in
      let inserted = insert_text reading (c ∷ []) in
      let (told, _, _) = Becomes-ok (1 + this.point) (spliced this.point (c ∷ []) s) inserted (
        insert_text-Becomes reading s (c ∷ []) h ((omega (arith, low), high), tt) z
          (omega (arith, small))) in
      let framed = insert_text-IsFramed reading (c ∷ []) in
      let goes_on : trim_done (ring (run_default reading c)) ≡ ok inserted.1 =
        ap (λ t. trim_done (ring (insert_text reading t))) (typed_lem c low high)
        ∙ ap trim_done (ring_lem inserted told)
        ∙ trim_done_not inserted.1 (framed.3 ∙ d) in
      simp k (ap (λ m. m >>= λ t. ok (some t)) goes_on)

  get_key_crlf :
      (this : Tinyrl) (s rest : Bytes)
      → IsEditing this s
      → this.handlers 10 ≡ key_crlf
      → suc (length s) < 2 ^ 32
      → (next : Tinyrl) × (get_key attempt bound this (10 ∷ rest) ≡ ok (some next))
        × (next.done ≡ true)
        × IsEditing next (trimmed s)
  unfolding get_key run_handler run_crlf crlf
  get_key_crlf this s rest h k small =
      let done : Tinyrl = (run_crlf (record this { istream = rest })).1 in
      let (next, e, d, h') =
        IsDone-ok (trimmed s) (trim_done done) (trim_done-IsDone done s h refl small) in
      (next, simp k (ap (λ m. m >>= λ t. ok (some t)) e), d, h')

  loop_done :
      (fuel : ℕ) (this : Tinyrl) (t : Bytes)
      → 0 < fuel
      → this.done ≡ true
      → IsEditing this t
      → Finishes t (loop attempt bound fuel this)
  unfolding loop
  loop_done zero this t enough d h = ground (arith, enough)
  loop_done (suc fuel) this t enough d h =
      subst (λ b. Finishes t (proceed attempt bound (loop attempt bound fuel) this b)) (sym d)
        (d, h)

  -- at the key for the end of the line
  loop-crlf :
      (fuel : ℕ) (this : Tinyrl) (s rest : Bytes)
      → IsEditing this s
      → this.done ≡ false
      → this.handlers 10 ≡ key_crlf
      → this.istream ≡ 10 ∷ rest
      → suc (length s) < 2 ^ 32
      → 2 ≤ fuel
      → Finishes (trimmed s) (loop attempt bound fuel this)
  loop-crlf zero this s rest h d k i small enough = ground (arith, enough)
  loop-crlf (suc fuel) this s rest h d k i small enough =
      let (next, e, d', h') = get_key_crlf (drawn this s) s rest h k small in
      let turn =
        loop_next fuel this (drawn this s) next d (redisplay-drawn this s h)
          (ap (get_key attempt bound (drawn this s)) i ∙ e) in
      rw turn (loop_done fuel next (trimmed s) (omega (arith, enough)) d' h')

  -- The text `t` is typed behind the text `s`, and then the line is ended.
  loop-Finishes :
      (t : Bytes) (fuel : ℕ) (this : Tinyrl) (s rest : Bytes)
      → IsEditing this s
      → this.point ≡ length s
      → this.done ≡ false
      → this.max_line_length ≡ 0
      → All (λ c. (this.handlers c ≡ key_default) × (31 < c) × (c < 256)) t
      → this.handlers 10 ≡ key_crlf
      → this.istream ≡ t ++ (10 ∷ rest)
      → suc (length t + length s) < 2 ^ 32
      → length t + 2 ≤ fuel
      → Finishes (trimmed (s ++ t)) (loop attempt bound fuel this)
  loop-Finishes [] fuel this s rest h p d m k e i small enough =
      rw (append-nil s)
        (loop-crlf fuel this s rest h d e i (omega (arith, small)) (omega (arith, enough)))
  loop-Finishes (c ∷ t) zero this s rest h p d m k e i small enough = ground (arith, enough)
  loop-Finishes (c ∷ t) (suc fuel) this s rest h p d m ((default, low, high), k) e i small enough =
      let reading : Tinyrl = record (drawn this s) { istream = t ++ (10 ∷ rest) } in
      let inserted = insert_text reading (c ∷ []) in
      let got =
        ap (get_key attempt bound (drawn this s)) i
        ∙ get_key_typed (drawn this s) s c (t ++ (10 ∷ rest)) h d m default low high
            (omega (arith, small)) in
      let turn = loop_next fuel this (drawn this s) inserted.1 d (redisplay-drawn this s h) got in
      let (_, shown, point) = Becomes-ok (1 + this.point) (spliced this.point (c ∷ []) s) inserted (
        insert_text-Becomes reading s (c ∷ []) h ((omega (arith, low), high), tt) m
          (omega (arith, small))) in
      let (handlers, max, istream, done) = insert_text-IsFramed reading (c ∷ []) in
      let longer : IsEditing inserted.1 (s ++ (c ∷ [])) =
        subst (IsEditing inserted.1) (ap (λ n. spliced n (c ∷ []) s) p ∙ spliced_end s (c ∷ []))
          shown in
      let total = length-append s (c ∷ []) in
      rw turn (
        subst (λ u. Finishes (trimmed u) (loop attempt bound fuel inserted.1))
          (append_assoc s (c ∷ []) t)
          (loop-Finishes t fuel inserted.1 (s ++ (c ∷ [])) rest longer
            (point ∙ omega (arith, p, total)) (done ∙ d) (max ∙ m)
            (subst (λ f. All (λ c. (f c ≡ key_default) × (31 < c) × (c < 256)) t) (sym handlers) k)
            (ap (λ f. f 10) handlers ∙ e) istream (omega (arith, total, small))
            (omega (arith, enough))))

  finish-Gives : (t : Bytes) (r : Run (Option Outcome)) → Finishes t r → Gives t (r >>= finish)
  finish-Gives t (ok (some (finished next))) (d, h) = rw (line_text-IsEditing next t h) refl
  finish-Gives t (ok (some (end_of_input next))) h = absurd h
  finish-Gives t (ok none) h = absurd h
  finish-Gives t abort h = absurd h

  -- A user who types a line gets it: if the keys of the text are not bound to anything else, and a key that
  -- ends the line follows, then tinyrl_readline returns the text, without a space at its end. There is
  -- no limit on the line, it stays below 2 ^ 32 bytes, and two turns of the loop more than it has
  -- characters are enough.
  pub readline-Gives :
      (t : Bytes) (fuel : ℕ) (this : Tinyrl) (prompt rest : Bytes)
      → this.max_line_length ≡ 0
      → All (λ c. (this.handlers c ≡ key_default) × (31 < c) × (c < 256)) t
      → this.handlers 10 ≡ key_crlf
      → this.istream ≡ t ++ (10 ∷ rest)
      → suc (length t) < 2 ^ 32
      → length t + 2 ≤ fuel
      → Gives (trimmed t) (readline attempt bound fuel this prompt)
  unfolding readline start_line reset_line_state
  readline-Gives t fuel this prompt rest m k e i small enough =
      let start : Tinyrl = record (start_line this prompt) { last_buffer = none } in
      let begun : IsEditing start [] =
        (strcpy-IsBuffer this.memory [] tt, refl, omega arith, omega arith) in
      let looped =
        loop-Finishes t fuel (drawn start []) [] rest begun refl refl m k e i (omega (arith, small))
          enough in
      let redrawn : redisplay start ≡ ok (drawn start []) = redisplay-drawn start [] begun in
      rw redrawn (finish-Gives (trimmed t) (loop attempt bound fuel (drawn start [])) looped)
