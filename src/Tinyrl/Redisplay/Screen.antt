-- ===== src/Tinyrl/Redisplay/Screen.antt =====
-- What a terminal shows after a redisplay.
use ucli.Base.{
  ℕ, ◌+◌, ◌-◌, ◌≤◌, ◌<◌, true, List, [], ◌∷◌, ◌++◌, some, ltb, ◌==◌, if◌then◌else◌, length, take,
  drop, drop_all, take-append-drop, Bool-cases, inl, inr, ◌≡◌, refl, sym, ◌∙◌, ap, arith,
}
use mathlib.Core.Path.{subst}
use ucli.Lub.Ctype.{Bytes}
use ucli.Lub.Text.{same_text}
use ucli.Lub.Text.Same.{same_text_eq}
use ucli.Tinyrl.Editor.{Tinyrl, Output, print, cursor_back, cursor_forward, erase}
use ucli.Tinyrl.Redisplay.{internal_print, same_prefix, move_cursor, redraw, draw}
use ucli.Tinyrl.Redisplay.Terminal.{
  Terminal, same_prefix-take, internal_print-echo, differs_some, differs_same, echoes_on,
}

module _ (terminal : Terminal) where
  abbrev pub obey_all : List Output → terminal.Screen → terminal.Screen
  obey_all [] screen = screen
  obey_all (output ∷ outputs) screen = obey_all outputs (terminal.obey output screen)

  obey_all-append :
      (xs ys : List Output) (screen : terminal.Screen)
      → obey_all (xs ++ ys) screen ≡ obey_all ys (obey_all xs screen)
  obey_all-append [] ys screen = refl
  obey_all-append (x ∷ xs) ys screen = obey_all-append xs ys (terminal.obey x screen)

  move_cursor-Shows :
      (screen : terminal.Screen) (s : Bytes) (last_point point : ℕ)
      → terminal.Shows screen s last_point
      → last_point ≤ length s
      → point ≤ length s
      → terminal.Shows (obey_all (move_cursor last_point point) screen) s point
  unfolding move_cursor
  move_cursor-Shows screen s last_point point h l p = elim (Bool-cases (ltb point last_point)) [
    | inl e ↦ rw e (
        subst (terminal.Shows (terminal.obey (cursor_back (last_point - point)) screen) s)
          (ground (arith, e))
          (terminal.back screen s last_point (last_point - point) (ground (arith, e))
            (ground (arith, e)) h))
    | inr e ↦ elim (Bool-cases (ltb last_point point)) [
      | inl f ↦ rw e (
          rw f (
            subst (terminal.Shows (terminal.obey (cursor_forward (point - last_point)) screen) s)
              (ground (arith, f))
              (terminal.forward screen s last_point (point - last_point) (ground (arith, f))
                (ground (arith, f, p)) h)))
      | inr f ↦ rw e (rw f (subst (terminal.Shows screen s) (ground (arith, e, f)) h))
    ]
  ]

  to_start :
      (screen : terminal.Screen) (s : Bytes) (n : ℕ)
      → terminal.Shows screen s n
      → terminal.Shows (obey_all (if n == 0 then [] else cursor_back n ∷ []) screen) s 0
  to_start screen s n h = elim (Bool-cases (n == 0)) [
    | inl e ↦ rw e (subst (terminal.Shows screen s) (ground (arith, e)) h)
    | inr e ↦ rw e (
        subst (terminal.Shows (terminal.obey (cursor_back n) screen) s) (omega arith)
          (terminal.back screen s n n (ground (arith, e)) (omega arith) h))
  ]

  from_end :
      (screen : terminal.Screen) (s : Bytes) (n : ℕ)
      → n ≤ length s
      → terminal.Shows screen s (length s)
      → terminal.Shows
          (obey_all (if length s == n then [] else cursor_back (length s - n) ∷ []) screen)
          s
          n
  from_end screen s n l h = elim (Bool-cases (length s == n)) [
    | inl e ↦ rw e (subst (terminal.Shows screen s) (ground (arith, e)) h)
    | inr e ↦ rw e (
        subst (terminal.Shows (terminal.obey (cursor_back (length s - n)) screen) s)
          (omega (arith, l))
          (terminal.back screen s (length s) (length s - n) (ground (arith, e, l)) (omega arith) h))
  ]

  -- the text is erased and another one printed
  replace-Shows :
      (screen : terminal.Screen) (last line : Bytes)
      → 0 < length last
      → terminal.Shows screen last 0
      → terminal.Shows (obey_all (erase (length last) ∷ print line ∷ []) screen) line (length line)
  replace-Shows screen last line some_text h =
      let gone : take 0 last ++ drop (0 + length last) last ≡ [] =
        ap (λ n. drop n last) (omega arith) ∙ drop_all (length last) last (omega arith) in
      terminal.print_end (terminal.obey (erase (length last)) screen) [] line (
        subst (λ s. terminal.Shows (terminal.obey (erase (length last)) screen) s 0) gone
          (terminal.erase_at screen last 0 (length last) some_text (omega arith) h))

  redraw-Shows :
      (screen : terminal.Screen) (this : Tinyrl) (line last : Bytes)
      → this.echo_enabled ≡ true
      → terminal.Shows screen last this.last_point
      → 0 < length last
      → this.point ≤ length line
      → terminal.Shows (obey_all (redraw this line last) screen) line this.point
  unfolding redraw
  redraw-Shows screen this line last on h some_text p =
      let start = if this.last_point == 0 then [] else cursor_back this.last_point ∷ [] in
      let end =
        if length line == this.point then [] else cursor_back (length line - this.point) ∷ [] in
      let at_start = to_start screen last this.last_point h in
      let replaced = replace-Shows (obey_all start screen) last line some_text at_start in
      let screen' = obey_all (erase (length last) ∷ print line ∷ []) (obey_all start screen) in
      let all : obey_all (start ++ (erase (length last) ∷ internal_print this line) ++ end) screen
          ≡ obey_all end screen' =
        ap (λ t. obey_all (start ++ (erase (length last) ∷ t) ++ end) screen)
          (internal_print-echo this line on)
        ∙ obey_all-append (start ++ (erase (length last) ∷ print line ∷ [])) end screen
        ∙ ap (obey_all end)
            (obey_all-append start (erase (length last) ∷ print line ∷ []) screen) in
      rw all (from_end screen' line this.point p replaced)

  extended-Shows :
      (screen : terminal.Screen) (this : Tinyrl) (line last : Bytes)
      → this.echo_enabled ≡ true
      → terminal.Shows screen last (length last)
      → length last < length line
      → same_prefix (length last) line last ≡ true
      → terminal.Shows
          (obey_all
            (internal_print this (drop (length line - (length line - length last)) line))
            screen)
          line
          (length line)
  extended-Shows screen this line last on h longer e =
      let rest : length line - (length line - length last) ≡ length last = omega (arith, longer) in
      let front = same_prefix-take line last (omega (arith, longer)) e in
      let whole : last ++ drop (length last) line ≡ line =
        ap (λ t. t ++ drop (length last) line) (sym front) ∙ take-append-drop (length last) line in
      rw rest (
        rw (internal_print-echo this (drop (length last) line) on) (
          subst
            (λ t.
              terminal.Shows (terminal.obey (print (drop (length last) line)) screen) t (length t))
            whole (terminal.print_end screen last (drop (length last) line) h)))

  shortened-Shows :
      (screen : terminal.Screen) (this : Tinyrl) (line last : Bytes)
      → terminal.Shows screen last this.last_point
      → this.last_point ≤ length last
      → this.point ≤ length line
      → length line < length last
      → take this.point last ++ drop (this.point + (length last - length line)) last ≡ line
      → terminal.Shows
          (obey_all
            (move_cursor this.last_point this.point ++ (erase (length last - length line) ∷ []))
            screen)
          line
          this.point
  shortened-Shows screen this line last h l p shorter e =
      let moved =
        move_cursor-Shows screen last this.last_point this.point h l (omega (arith, p, shorter)) in
      let at_point = obey_all (move_cursor this.last_point this.point) screen in
      let erased =
        terminal.erase_at at_point last this.point (length last - length line)
          (omega (arith, shorter)) (omega (arith, p, shorter)) moved in
      rw
        (obey_all-append (move_cursor this.last_point this.point)
          (erase (length last - length line) ∷ []) screen)
        (subst
          (λ t.
            terminal.Shows (terminal.obey (erase (length last - length line)) at_point) t
              this.point)
          e erased)

  -- If the terminal shows what was drawn last, then after tinyrl_redisplay it shows the line, with the
  -- cursor at the point, where the input is echoed. Where characters were put in behind all others,
  -- the cursor was at the end and the point is there, and where the line was cut to a beginning of it, the
  -- characters that went were those behind the point.
  pub draw-Shows :
      (screen : terminal.Screen) (this : Tinyrl) (line last : Bytes)
      → this.echo_enabled ≡ true
      → terminal.Shows screen last this.last_point
      → this.last_point ≤ length last
      → this.point ≤ length line
      → (length last < length line
          → same_prefix (length last) line last ≡ true
          → (this.last_point ≡ length last) × (this.point ≡ length line))
      → (length line < length last
          → same_prefix (length line) line last ≡ true
          → take this.point last ++ drop (this.point + (length last - length line)) last ≡ line)
      → terminal.Shows (obey_all (draw this line (some last)) screen) line this.point
  unfolding draw
  draw-Shows screen this line last on h l p extended cut =
      elim (Bool-cases (ltb (length last) (length line))) [
        | inl longer ↦ elim (Bool-cases (same_prefix (length last) line last)) [
          | inl e ↦
              let (at_end, ends) = extended (ground (arith, longer)) e in
              rw longer (
                rw e (
                  subst (terminal.Shows _ line) (sym ends) (
                    extended-Shows screen this line last on
                      (subst (terminal.Shows screen last) at_end h) (ground (arith, longer)) e)))
          | inr e ↦
              rw longer
                (rw e (redraw-Shows screen this line last on h (differs_some line last e) p))
        ]
        | inr not_longer ↦ elim (Bool-cases (ltb (length line) (length last))) [
          | inl shorter ↦ elim (Bool-cases (same_prefix (length line) line last)) [
            | inl e ↦ rw not_longer (
                rw shorter (
                  rw e (
                    rw (echoes_on this on) (
                      shortened-Shows screen this line last h l p (ground (arith, shorter))
                        (cut (ground (arith, shorter)) e)))))
            | inr e ↦ rw not_longer (
                rw shorter
                  (rw e (redraw-Shows screen this line last on h (ground (arith, shorter)) p)))
          ]
          | inr same ↦ elim (Bool-cases (same_text line last)) [
            | inl e ↦ rw not_longer (
                rw same (
                  rw e (
                    rw (echoes_on this on) (
                      subst
                        (λ t.
                          terminal.Shows (obey_all (move_cursor this.last_point this.point) screen)
                            t this.point)
                        (sym (same_text_eq line last e))
                        (move_cursor-Shows screen last this.last_point this.point h l
                          (ground (arith, p, not_longer)))))))
            | inr e ↦ rw not_longer (
                rw same (
                  rw e (
                    redraw-Shows screen this line last on h
                      (differs_same line last (ground (arith, same, not_longer)) e) p)))
          ]
        ]
      ]
