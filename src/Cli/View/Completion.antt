-- ===== src/Cli/View/Completion.antt =====
-- libucli/view/view.c: the commands of a view that a line is the beginning of, one after the other.
use ucli.Base.{
  ℕ, zero, suc, ◌+◌, ◌<◌, Bool, true, false, ◌&&◌, List, [], ◌∷◌, Option, none, some, filter,
  filter-All, length, List-cases, Bool-cases, ◌==◌, if◌then◌else◌, ◌≡◌, inl, inr, refl, sym, ap,
  ◌∙◌, ◌++◌, arith,
}
use mathlib.Core.Path.{subst}
use ucli.Base.Run.{Run, ok, abort}
use ucli.Lub.Ctype.{Bytes, IsText, isspace}
use ucli.Lub.Text.{nocasestr}
use ucli.Lub.Text.Search.{Begins, nocasestr-Begins, Begins-nocasestr}
use ucli.Lub.Argv.{argv_new, wordcount, get_count}
use ucli.Lub.Bintree.{Tree, to_list, findnext}
use ucli.Lub.Bintree.Next.{first}
use ucli.Lub.Bintree.Sorted.{AllValid}
use ucli.Lub.Bintree.Walk.{behind, behind-All, length-behind, behind_next, found_next}
use ucli.Cli.Command.{Command, bt_compare, bt_getkey}
use ucli.Cli.View.{View}
use ucli.Cli.View.Sorted.{IsView, AreCommands, name_order}

-- `lub_ctype_isspace(line[strlen(line)-1])`, and true for the empty line
ends_space : Bytes → Bool
ends_space [] = true
ends_space (c ∷ []) = isspace c
ends_space (c ∷ d ∷ s) = ends_space (d ∷ s)

-- the words of the line, the one that is still to come counted too
unfoldable pub line_words : Bytes → ℕ
unfolding ends_space argv_new isspace
line_words line =
    let words = get_count (argv_new line 0) in if ends_space line then words + 1 else words

-- `nocasestr` returns a pointer to its first argument
is_start : Option ℕ → Bool
is_start none = false
is_start (some i) = i == 0

-- a command of so many words that begins with the line
unfoldable pub completes : ℕ → Bytes → Command → Bool
unfolding is_start wordcount nocasestr
completes words line cmd = words == wordcount cmd.name && is_start (nocasestr cmd.name line)

-- The loop of `ucli_view_find_next_completion`; the first argument is fuel.
completion_loop : ℕ → View → ℕ → Bytes → Bytes → Run (Option Command × View)
completion_loop zero this words line name = abort
completion_loop (suc n) this words line name =
    let (cmd, tree) = findnext (λ c. bt_compare c name) this.tree in
    let this' = record this { tree = tree } in
    elim cmd [
      | none ↦ ok (none, this')
      | some c ↦ elim (completes words line c) [
        | true ↦ ok (some c, this')
        | false ↦ completion_loop n this' words line c.name
      ]
    ]

abbrev pub name_of : Option Command → Bytes
name_of none = []
name_of (some cmd) = cmd.name

-- a command after `cmd` is looked for, or the first one
unfoldable pub find_next_completion : View → Option Command → Bytes → Run (Option Command × View)
unfolding completion_loop completes line_words findnext
find_next_completion this cmd line =
    completion_loop (suc (length (to_list this.tree))) this (line_words line) line (name_of cmd)

-- The commands behind a name that the line is the beginning of, in the order of the view.
abbrev pub completions : Bytes → Bytes → List Command → List Command
completions line name commands =
    filter (completes (line_words line) line) (behind (λ c. bt_compare c name) commands)

-- The search has found `cmd`, and has turned the tree of the view, which keeps its commands.
abbrev pub Finds : View → Option Command → Run (Option Command × View) → Type 0
Finds this cmd r =
    (tree : Tree Command) × (r ≡ ok (cmd, record this { tree = tree }))
    × (to_list tree ≡ to_list this.tree)

module _ (words : ℕ) (line : Bytes) where
  completion_loop-Finds :
      (n : ℕ) (this : View) (name : Bytes)
      → IsView this
      → IsText name
      → length (behind (λ c. bt_compare c name) (to_list this.tree)) < n
      → Finds this
          (first
            (filter (completes words line) (behind (λ c. bt_compare c name) (to_list this.tree))))
          (completion_loop n this words line name)
  unfolding completion_loop
  completion_loop-Finds zero this name v t b = ground arith
  completion_loop-Finds (suc n) this name v t b =
      let xs = to_list this.tree in
      let (next, nodes) =
        found_next bt_compare bt_getkey IsText name_order name this.tree xs refl t v.1 v.0 in
      let tree' = (findnext (λ c. bt_compare c name) this.tree).1 in
      elim (List-cases (behind (λ c. bt_compare c name) xs)) [
        | inl none_left ↦
            let p : (findnext (λ c. bt_compare c name) this.tree).0 ≡ none =
              next ∙ ap first none_left in
            rw none_left (rw (p, completion_loop) (tree', refl, nodes))
        | inr (y, ys, more) ↦
            let p : (findnext (λ c. bt_compare c name) this.tree).0 ≡ some y =
              next ∙ ap first more in
            let valid =
              subst (AllValid bt_getkey IsText) more
                (behind-All (λ c. bt_compare c name) (λ c. IsText (bt_getkey c)) xs v.0) in
            let step = behind_next bt_compare bt_getkey IsText name_order name xs y ys v.1 more in
            let long : length (behind (λ c. bt_compare c name) xs) ≡ suc (length ys) =
              ap length more in
            let v' = subst AreCommands (sym nodes) v in
            let lt : length ys < n = omega (arith, long, b) in
            rw more (elim (Bool-cases (completes words line y)) [
              | inl e ↦ rw (p, e, completion_loop, filter) (tree', refl, nodes)
              | inr e ↦
                  let this' = record this { tree = tree' } in
                  let same : behind (λ c. bt_compare c y.name) (to_list tree') ≡ ys =
                    ap (behind (λ c. bt_compare c y.name)) nodes ∙ step in
                  let rest = completion_loop-Finds n this' y.name v' valid.0 (rw same lt) in
                  let (tree'', out, nodes') =
                    subst
                      (λ l.
                        Finds this' (first (filter (completes words line) l))
                          (completion_loop n this' words line y.name))
                      same rest in
                  rw (p, e, completion_loop, filter) (tree'', out, nodes' ∙ nodes)
            ])
      ]

is_start-zero : (o : Option ℕ) → is_start o ≡ true → o ≡ some 0
unfolding is_start
is_start-zero none h = cc
is_start-zero (some i) h = ap some (ground (arith, h))

-- A command of which the line is the beginning, in upper or lower case, and which has as many words.
abbrev pub Continues : Bytes → Bytes → Type 0
Continues line name = (wordcount name ≡ line_words line) × Begins line name

completes-Continues :
    (line : Bytes) (c : Command) → completes (line_words line) line c ≡ true → Continues line c.name
unfolding completes
completes-Continues line c h =
    let same : (line_words line == wordcount c.name) ≡ true = ground (arith, h) in
    let start : is_start (nocasestr c.name line) ≡ true = ground (arith, h) in
    (
      ground (arith, same),
      nocasestr-Begins line c.name (is_start-zero (nocasestr c.name line) start),
    )

Continues-completes :
    (line : Bytes) (c : Command) → Continues line c.name → completes (line_words line) line c ≡ true
unfolding completes is_start
Continues-completes line c (words, begins) =
    let same : (line_words line == wordcount c.name) ≡ true = ground (arith, words) in
    rw (same, Begins-nocasestr line c.name begins) refl

ends_space-append : (s : Bytes) (c : ℕ) → ends_space (s ++ (c ∷ [])) ≡ isspace c
unfolding ends_space
ends_space-append [] c = refl
ends_space-append (d ∷ []) c = refl
ends_space-append (d ∷ e ∷ s) c = ends_space-append (e ∷ s) c

-- A line has the words that stand in it, and one to come if it ends with a space or is empty.
abbrev pub CountsWords : (Bytes → ℕ) → Type 0
CountsWords count =
    (count [] ≡ 1)
    × ((s : Bytes) (c : ℕ)
        → isspace c ≡ true
        → count (s ++ (c ∷ [])) ≡ suc (wordcount (s ++ (c ∷ []))))
    × ((s : Bytes) (c : ℕ) → isspace c ≡ false → count (s ++ (c ∷ [])) ≡ wordcount (s ++ (c ∷ [])))

line_words-CountsWords : CountsWords line_words
unfolding line_words argv_new
line_words-CountsWords = (
  unfold wordcount in refl,
  λ s c h. rw (ends_space-append s c ∙ h, line_words) (omega arith),
  λ s c h. rw (ends_space-append s c ∙ h, line_words) refl,
)

-- On a view in order, `ucli_view_find_next_completion` ends, and returns the first of the commands
-- behind `cmd`, or of all commands with a name if that is NULL, that are completions, or NULL if there is
-- none. A completion is a command that has as many words as the line, counting one to come after a
-- space or in an empty line, and whose name is not empty and begins with the line, up to case.
pub find_next_completion-Finds :
    (this : View) (cmd : Option Command) (line : Bytes)
    → IsView this
    → IsText (name_of cmd)
    → Finds this
        (first (completions line (name_of cmd) (to_list this.tree)))
        (find_next_completion this cmd line)
      × ((c : Command) → completes (line_words line) line c ≡ true → Continues line c.name)
      × ((c : Command) → Continues line c.name → completes (line_words line) line c ≡ true)
      × CountsWords line_words
unfolding find_next_completion
find_next_completion-Finds this cmd line v t = (
  completion_loop-Finds (line_words line) line (suc (length (to_list this.tree))) this (name_of cmd)
      v t (omega (arith, length-behind (λ c. bt_compare c (name_of cmd)) (to_list this.tree))),
  completes-Continues line,
  Continues-completes line,
  line_words-CountsWords,
)

completions_rest :
    (line name : Bytes) (commands l : List Command)
    → AreCommands commands
    → behind (λ c. bt_compare c name) commands ≡ l
    → (y : Command) (ys : List Command) → filter (completes (line_words line) line) l ≡ y ∷ ys
    → completions line y.name commands ≡ ys
completions_rest line name commands [] w e y ys h = cc
completions_rest line name commands (z ∷ zs) w e y ys h =
    let step = behind_next bt_compare bt_getkey IsText name_order name commands z zs w.1 e in
    elim (Bool-cases (completes (line_words line) line z)) [
      | inl t ↦
          let here : filter (completes (line_words line) line) (z ∷ zs)
              ≡ z ∷ filter (completes (line_words line) line) zs =
            rw (t, filter) refl in
          let same : z ∷ filter (completes (line_words line) line) zs ≡ y ∷ ys = sym here ∙ h in
          let head : z ≡ y = cc in
          let tail : filter (completes (line_words line) line) zs ≡ ys = cc in
          rw (← head) (rw step tail)
      | inr f ↦
          let past : filter (completes (line_words line) line) (z ∷ zs)
              ≡ filter (completes (line_words line) line) zs =
            rw (f, filter) refl in
          completions_rest line z.name commands zs w step y ys (sym past ∙ h)
    ]

-- The completions behind the first one are the others.
pub completions_next :
    (line name : Bytes) (commands : List Command) (y : Command) (ys : List Command)
    → AreCommands commands
    → completions line name commands ≡ y ∷ ys
    → completions line y.name commands ≡ ys
completions_next line name commands y ys w h =
    completions_rest line name commands (behind (λ c. bt_compare c name) commands) w refl y ys h

-- A completion is a command of the view, and has a text for its name.
pub completions-IsText :
    (line name : Bytes) (commands : List Command)
    → AreCommands commands
    → AllValid bt_getkey IsText (completions line name commands)
completions-IsText line name commands w =
    filter-All (completes (line_words line) line) (λ c. IsText c.name)
      (behind (λ c. bt_compare c name) commands)
      (behind-All (λ c. bt_compare c name) (λ c. IsText (bt_getkey c)) commands w.0)
