-- ===== src/Tests/Editing.antt =====
-- Runs of the line editor and its history, and instances of what is proved of them.
use ucli.Base.{
  ℕ, ◌+◌, ◌-◌, true, [], ◌∷◌, ◌++◌, none, some, length, take, drop, length-append, take_all,
  drop_all, append-nil, ◌==◌, if◌then◌else◌, ◌≡◌, ◌≢◌, refl, ap, ◌∙◌, arith,
}
use ucli.Base.Run.{ok, abort, Post}
use ucli.Lub.Ctype.{Bytes, IsText, codes}
use ucli.Tinyrl.Batch.{read_pieces}
use ucli.Tinyrl.Batch.Fuel.{read_pieces-ends}
use ucli.Tinyrl.History.{Entry, History, history_new, add, clear}
use ucli.Tinyrl.History.Added.{added, add-added}
use ucli.Tinyrl.History.Valid.{IsHistory}
use ucli.Tinyrl.History.Reach.{clear_lem, here, after, adds, Reach-IsHistory}
use ucli.Base.Int.{pos}
use ucli.Tinyrl.Expand.{expand}
use ucli.Tinyrl.Expand.Numbers.{absolute, relative}
use ucli.Tinyrl.Expand.Reference.{expand-replaces}
use ucli.Tinyrl.Memory.{strcpy}
use ucli.Tinyrl.Redisplay.{draw}
use ucli.Tinyrl.Redisplay.Screen.{obey_all, draw-Shows}
use ucli.Tinyrl.Redisplay.Terminal.{Terminal}
use ucli.Tinyrl.Editor.{
  Output, print, cursor_back, cursor_forward, erase, Tinyrl, entry, key_backspace, insert_text,
  delete_text,
}
use ucli.Tinyrl.Editor.Shows.{IsBuffer, IsEditing, strcpy-IsBuffer}
use ucli.Tinyrl.Editor.Insert.{IsInserted, insert_text-IsInserted}
use ucli.Tinyrl.Editor.Delete.{IsDeleted, delete_text-IsDeleted}
use ucli.Tinyrl.Vt100.{escape_decode, code_of, cursor_up}
use ucli.Tinyrl.Complete.{CompletionFunc, completion}
use ucli.Tinyrl.Complete.Prefix.{IsCompletion, completion-IsCompletion}
use ucli.Tinyrl.Keys.{ClientHandler, run_handler}
use ucli.Tinyrl.Keys.Edit.{edit, Keeps}
use ucli.Tinyrl.Keys.Refine.{run_handler-Keeps}
use ucli.Tinyrl.Keys.Browse.{}
use ucli.Tinyrl.Keys.Return.{ups, downs, IsBack, ups-downs}
use ucli.Tinyrl.Readline.{tinyrl_new, readline}
use ucli.Tinyrl.Readline.Trim.{trimmed}
use ucli.Tinyrl.Readline.Typed.{Gives, readline-Gives}

abbrev no_client : ClientHandler
no_client n this key = ok (true, this)

abbrev no_attempt : CompletionFunc
no_attempt line start end = none

readline-Gives_example :
    Gives
      (trimmed (codes "ls "))
      (readline no_attempt no_client 5 (tinyrl_new (codes "ls " ++ (10 ∷ [])) 0) [])
unfolding tinyrl_new ucli.Tinyrl.Readline.initial_handler
readline-Gives_example =
    readline-Gives no_attempt no_client (codes "ls ") 5 (tinyrl_new (codes "ls " ++ (10 ∷ [])) 0) []
      [] refl
      (
        (refl, omega arith, omega arith),
        ((refl, omega arith, omega arith), ((refl, omega arith, omega arith), tt)),
      )
      refl refl (omega arith) (omega arith)

abbrev first_entry : Entry
first_entry = record { line = codes "ls"; index = 1 }

abbrev second_entry : Entry
second_entry = record { line = codes "ps"; index = 2 }

-- two lines, as many as there may be
abbrev two_lines : History
two_lines = record {
  entries = first_entry ∷ second_entry ∷ [];
  size = 10;
  current_index = 3;
  stifle = 2;
}

-- "show" in the buffer, with the point in the middle of it
abbrev in_show : Tinyrl
in_show = record (tinyrl_new [] 0) {
  memory = strcpy (λ i. 0) (codes "show");
  buffer_size = 4;
  point = 2;
  end = 4;
  history = two_lines;
}

show-IsText : IsText (codes "show")
show-IsText = (
  (omega arith, omega arith),
  ((omega arith, omega arith), ((omega arith, omega arith), ((omega arith, omega arith), tt))),
)

show-IsBuffer : IsBuffer in_show.memory in_show.buffer_size (codes "show")
show-IsBuffer = strcpy-IsBuffer (λ i. 0) (codes "show") show-IsText

in_show-IsEditing : IsEditing in_show (codes "show")
unfolding tinyrl_new
in_show-IsEditing = (show-IsBuffer, refl, omega arith, omega arith)

insert_text-IsInserted_example :
    IsInserted in_show.point in_show.max_line_length
      (codes "show")
      (codes "ow")
      (insert_text in_show (codes "ow"))
insert_text-IsInserted_example =
    insert_text-IsInserted in_show (codes "show") (codes "ow") in_show-IsEditing
      ((omega arith, omega arith), ((omega arith, omega arith), tt)) (omega arith)

delete_text-IsDeleted_example :
    IsDeleted in_show.point 1 2 (codes "show") (delete_text in_show 1 2)
    × IsDeleted in_show.point 1 1 (codes "show") (delete_text in_show 2 1)
delete_text-IsDeleted_example =
    delete_text-IsDeleted in_show (codes "show") 1 2 in_show-IsEditing (omega arith) (omega arith)
      (omega arith)

run_handler-Keeps_example :
    Keeps
      (edit key_backspace 8 in_show.kill_string (codes "show") in_show.point)
      (run_handler no_attempt no_client key_backspace in_show 8)
unfolding tinyrl_new
run_handler-Keeps_example =
    run_handler-Keeps no_attempt no_client key_backspace in_show 8 (codes "show") in_show-IsEditing
      refl tt (omega arith) (λ e. refl)

-- the older entry is shown
abbrev at_first : Tinyrl
at_first = record in_show { line = entry (codes "ls"); hist_iter = 0 }

ups-downs_example : IsBack in_show (codes "show") (downs 2 (ups 2 in_show))
unfolding tinyrl_new
ups-downs_example =
    ups-downs 2 in_show (codes "show") refl show-IsBuffer (omega arith) (omega arith)

completion-IsCompletion_example :
    IsCompletion (codes "show" ∷ codes "shut" ∷ []) (completion (codes "show" ∷ codes "shut" ∷ []))
completion-IsCompletion_example = completion-IsCompletion (codes "show" ∷ codes "shut" ∷ [])

add-added_example : add two_lines (codes "ls") ≡ ok (added two_lines (codes "ls"))
add-added_example = add-added two_lines (codes "ls") (omega arith)

clear_lem_example :
    clear two_lines
    ≡ (if length two_lines.entries == 0 then abort else ok (record two_lines { entries = [] }))
clear_lem_example = clear_lem two_lines (omega arith)

abbrev one_line : History
one_line = added (history_new 2) (codes "ls")

two_lines-IsHistory : IsHistory two_lines
unfolding ucli.Lub.Text.same_text
two_lines-IsHistory = (
  omega arith,
  (λ n. omega arith),
  (((refl, omega arith), tt), (tt, tt)),
  (omega arith, (omega arith, tt)),
)

Reach-IsHistory_example : IsHistory one_line
unfolding history_new
Reach-IsHistory_example = Reach-IsHistory 2 (
    after here
      (adds (codes "ls") (omega arith) (add-added (history_new 2) (codes "ls") (omega arith))))

-- a screen of one line
abbrev obey : Output → Bytes × ℕ → Bytes × ℕ
obey (print t) (s, n) = (take n s ++ (t ++ drop (n + length t) s), n + length t)
obey (cursor_back k) (s, n) = (s, n - k)
obey (cursor_forward k) (s, n) = (s, n + k)
obey (erase k) (s, n) = (take n s ++ drop (n + k) s, n)
obey _ screen = screen

printed : (s t : Bytes) → obey (print t) (s, length s) ≡ (s ++ t, length (s ++ t))
printed s t =
    let rest = drop_all (length s + length t) s (omega arith) in
    rw (take_all s, rest, append-nil t, length-append s t) refl

abbrev one_line_terminal : Terminal
one_line_terminal = record {
  Screen = Bytes × ℕ;
  obey = obey;
  Shows = λ screen s n. screen ≡ (s, n);
  print_end = λ screen s t h. ap (obey (print t)) h ∙ printed s t;
  back = λ screen s n k pos le h. ap (obey (cursor_back k)) h;
  forward = λ screen s n k pos le h. ap (obey (cursor_forward k)) h;
  erase_at = λ screen s n k pos le h. ap (obey (erase k)) h;
}

-- "show" was drawn with the cursor at its end, and the first character is gone
abbrev at_hows : Tinyrl
at_hows = record in_show { last_buffer = some (codes "show"); last_point = 4; point = 0 }

draw-Shows_example :
    one_line_terminal.Shows
      (obey_all one_line_terminal
        (draw at_hows (codes "how") (some (codes "show")))
        (codes "show", 4))
      (codes "how")
      0
unfolding tinyrl_new ucli.Tinyrl.Redisplay.same_prefix
draw-Shows_example =
    draw-Shows one_line_terminal (codes "show", 4) at_hows (codes "how") (codes "show") refl refl
      (omega arith) (omega arith) (λ h. ground (arith, h)) (λ h e. cc)

-- "say !1 x", where the first entry is "ls"
expand-replaces_example :
    expand two_lines (pos 0) (codes "say " ++ (b'!' ∷ (codes "1" ++ (b' ' ∷ codes "x"))))
    ≡ ok (true, some ((codes "say " ++ codes "ls") ++ (b' ' ∷ codes "x")))
unfolding ucli.Tinyrl.Expand.in_reference ucli.Lub.Ctype.isdigit
expand-replaces_example =
    expand-replaces two_lines (pos 0) (codes "say ") (codes "1") b' ' (codes "x") 0 first_entry
      two_lines-IsHistory (omega arith) (refl, (refl, (refl, (refl, tt))))
      (absolute b'1' [] (refl, tt) (omega arith)) refl refl (refl, tt)

-- "!!" stands for the line before, and "!-1" for the one before that.
expand_before : expand two_lines (pos 0) (codes "!-1 ") ≡ ok (true, some (codes "ls "))
unfolding ucli.Tinyrl.Expand.in_reference ucli.Lub.Ctype.isdigit
expand_before =
    expand-replaces two_lines (pos 0) [] (codes "-1") b' ' [] 0 first_entry two_lines-IsHistory
      (omega arith) tt (relative b'1' [] 0 (refl, tt) refl (omega arith)) refl refl tt

-- a reference at the end of the line: the loop runs past the terminator
expand_end : expand two_lines (pos 0) (codes "!1") ≡ abort
unfolding expand ucli.Tinyrl.Expand.expand_from ucli.Tinyrl.Expand.reference ucli.Tinyrl.Expand.scan
    ucli.Lub.Ctype.isspace ucli.Tinyrl.Expand.scan_digits ucli.Tinyrl.Expand.strspn
    ucli.Tinyrl.Expand.in_reference
expand_end = refl

read_pieces-ends_example :
    Post (λ reading. reading ≢ none) (read_pieces 10 (tinyrl_new (codes "ls" ++ (10 ∷ [])) 0))
unfolding tinyrl_new
read_pieces-ends_example =
    read_pieces-ends 10 (tinyrl_new (codes "ls" ++ (10 ∷ [])) 0) (omega arith)

-- a sequence that is not in the table is read as the key for up
unknown_sequence : escape_decode (codes "[H") ≡ ok (cursor_up, [])
unfolding escape_decode ucli.Tinyrl.Vt100.read_sequence ucli.Tinyrl.Vt100.code_of
unknown_sequence = refl

-- "aa" was drawn with the cursor at its start, and an "a" was put in there
abbrev in_front : Tinyrl
in_front = record in_show { last_buffer = some (codes "aa"); last_point = 0; point = 1 }

-- only the new end of the line is printed, where the cursor is
overwritten :
    obey_all one_line_terminal (draw in_front (codes "aaa") (some (codes "aa"))) (codes "aa", 0)
    ≡ (codes "aa", 1)
unfolding tinyrl_new draw ucli.Tinyrl.Redisplay.same_prefix ucli.Tinyrl.Redisplay.internal_print
overwritten = refl
