-- ===== src/Cli/Shell/Completion/Visit.antt =====
-- The completions of a line in a shell are those of its two views, merged.
use ucli.Base.{
  ℕ, zero, suc, ◌+◌, ◌≤◌, List, [], ◌∷◌, Option, none, some, length, ◌≡◌, refl, sym, ap, ◌∙◌, arith,
}
use ucli.Cli.Shell.Completion.Merge.{
  merge, merge_head, length-merge, length-completions, commands_at-length,
}
use mathlib.Core.Path.{subst}
use ucli.Base.Int.{sign}
use ucli.Base.Run.{ok}
use ucli.Lub.Ctype.{Bytes, IsText}
use ucli.Lub.Text.{nocasecmp}
use ucli.Lub.Bintree.{Tree, to_list}
use ucli.Lub.Bintree.Splay.{sign_cases, is_neg, is_nil, is_plus}
use ucli.Lub.Bintree.Next.{first}
use ucli.Lub.Bintree.Sorted.{AllValid}
use ucli.Cli.Command.{Command, command_diff, bt_getkey}
use ucli.Cli.View.{View}
use ucli.Cli.View.Completion
use ucli.Cli.View.Sorted.{AreCommands}
use ucli.Cli.View.Completion.{
  name_of, completions, completes, line_words, completions_next, completions-IsText, Finds,
  find_next_completion-Finds,
}
use ucli.Cli.Shell.{Shell, ShellIterator}
use ucli.Cli.Shell.Views.{HasCommands, KeepsViews, in_view-Finds}
use ucli.Cli.Shell.Completion.{
  iterator_init, choose_next, find_next_completion, getnext_command, getfirst_command, commands_at,
  visit, visit_all,
}

find_next_completion-first :
    (line : Bytes) (cmd : Option Command) (commands xs : List Command)
    → AreCommands commands
    → IsText (name_of cmd)
    → completions line (name_of cmd) commands ≡ xs
    → (v : View) → to_list v.tree ≡ commands
    → Finds v (first xs) (Completion.find_next_completion v cmd line)
find_next_completion-first line cmd commands xs w t c v e =
    subst (λ l. Finds v (first l) (Completion.find_next_completion v cmd line))
      (ap (completions line (name_of cmd)) e ∙ c)
      (find_next_completion-Finds v cmd line (subst AreCommands (sym e) w) t).0

-- What is left of two lists when the next command has been taken from the one, the other or both.
module _ (line : Bytes) (locals globals : List Command) (lw : AreCommands locals)
    (gw : AreCommands globals) where
  -- Where the iterator stands: the names it goes on from are texts, and this is still to come.
  record StandsAt (iter : ShellIterator) (xs ys : List Command) : Type 0 where
    text_local : IsText (name_of iter.last_cmd_local)
    text_global : IsText (name_of iter.last_cmd_global)
    to_come_local : completions line (name_of iter.last_cmd_local) locals ≡ xs
    to_come_global : completions line (name_of iter.last_cmd_global) globals ≡ ys

  -- The choice takes the head of the merged lists, and moves the iterator to the rest of them.
  Takes : ShellIterator → List Command → List Command → Option Command × ShellIterator → Type 0
  Takes iter xs ys (none, iter') = merge xs ys ≡ []
  Takes iter xs ys (some cmd, iter') =
      (xs' : List Command) × (ys' : List Command) × (merge xs ys ≡ cmd ∷ merge xs' ys')
      × StandsAt iter' xs' ys'

  move_local :
      (iter : ShellIterator) (x : Command) (xs ys : List Command)
      → StandsAt iter (x ∷ xs) ys
      → StandsAt (record iter { last_cmd_local = some x }) xs ys
  move_local iter x xs ys s = record {
    text_local =
        (subst (AllValid bt_getkey IsText) s.to_come_local
          (completions-IsText line (name_of iter.last_cmd_local) locals lw)).0;
    text_global = s.text_global;
    to_come_local =
        completions_next line (name_of iter.last_cmd_local) locals x xs lw s.to_come_local;
    to_come_global = s.to_come_global;
  }

  move_global :
      (iter : ShellIterator) (y : Command) (xs ys : List Command)
      → StandsAt iter xs (y ∷ ys)
      → StandsAt (record iter { last_cmd_global = some y }) xs ys
  move_global iter y xs ys s = record {
    text_local = s.text_local;
    text_global =
        (subst (AllValid bt_getkey IsText) s.to_come_global
          (completions-IsText line (name_of iter.last_cmd_global) globals gw)).0;
    to_come_local = s.to_come_local;
    to_come_global =
        completions_next line (name_of iter.last_cmd_global) globals y ys gw s.to_come_global;
  }

  choose_next-Takes :
      (iter : ShellIterator) (xs ys : List Command)
      → StandsAt iter xs ys
      → Takes iter xs ys (choose_next (first xs) (first ys) iter)
  unfolding choose_next Takes merge merge_head command_diff
  choose_next-Takes iter [] [] s = refl
  choose_next-Takes iter [] (y ∷ ys) s = ([], ys, refl, move_global iter y [] ys s)
  choose_next-Takes iter (x ∷ xs) [] s = (xs, [], refl, move_local iter x xs [] s)
  choose_next-Takes iter (x ∷ xs) (y ∷ ys) s = elim (sign_cases (sign (nocasecmp x.name y.name))) [
    | is_neg e ↦
        let q : merge (x ∷ xs) (y ∷ ys) ≡ x ∷ merge xs (y ∷ ys) = rw (e, merge_head) refl in
        rw (e, choose_next, Takes) (xs, y ∷ ys, q, move_local iter x xs (y ∷ ys) s)
    | is_nil e ↦
        let q : merge (x ∷ xs) (y ∷ ys) ≡ x ∷ merge xs ys = rw (e, merge_head) refl in
        let global = record iter { last_cmd_global = some y } in
        rw (e, choose_next, Takes)
          (xs, ys, q, move_local global x xs ys (move_global iter y (x ∷ xs) ys s))
    | is_plus e ↦
        let q : merge (x ∷ xs) (y ∷ ys) ≡ y ∷ merge (x ∷ xs) ys = rw (e, merge_head) refl in
        rw (e, choose_next, Takes) (x ∷ xs, ys, q, move_global iter y (x ∷ xs) ys s)
  ]

  -- the two pointers lead to views of these commands
  abbrev Shows : Shell → Type 0
  Shows this =
      HasCommands this.view_tree this.view locals × HasCommands this.view_tree this.global globals

  find_next_completion-choose_next :
      (this : Shell) (iter : ShellIterator) (xs ys : List Command)
      → Shows this
      → StandsAt iter xs ys
      → (t : Tree View) × (find_next_completion this line iter
          ≡ ok (choose_next (first xs) (first ys) iter, record this { view_tree = t }))
        × KeepsViews this.view_tree t
  unfolding find_next_completion
  find_next_completion-choose_next this iter xs ys (hl, hg) s =
      let (t, out, keep) =
        in_view-Finds this this.view locals (first xs)
          (λ v. Completion.find_next_completion v iter.last_cmd_local line) hl
          (find_next_completion-first line iter.last_cmd_local locals xs lw s.text_local
            s.to_come_local) in
      let this' = record this { view_tree = t } in
      let (t', out', keep') =
        in_view-Finds this' this.global globals (first ys)
          (λ v. Completion.find_next_completion v iter.last_cmd_global line)
          (keep this.global globals hg)
          (find_next_completion-first line iter.last_cmd_global globals ys gw s.text_global
            s.to_come_global) in
      (t', rw out (rw out' refl), λ view commands h. keep' view commands (keep view commands h))

  -- The loop goes through what is to come, as long as there is fuel.
  visit-merge :
      (n : ℕ) (this : Shell) (iter : ShellIterator) (xs ys : List Command)
      (out : Option Command × ShellIterator)
      → Shows this
      → Takes iter xs ys out
      → length (merge xs ys) ≤ n
      → (this' : Shell) × (visit n line out.0 (record this { iter = out.1 })
          ≡ ok (merge xs ys, this'))
        × KeepsViews this.view_tree this'.view_tree
  unfolding visit Takes getnext_command
  visit-merge n this iter xs ys (none, iter') shows takes b =
      (record this { iter = iter' }, rw takes refl, λ view commands h. h)
  visit-merge zero this iter xs ys (some cmd, iter') shows (xs', ys', more, s) b =
      let long : length (merge xs ys) ≡ suc (length (merge xs' ys')) = ap length more in
      ground (arith, long, b)
  visit-merge (suc n) this iter xs ys (some cmd, iter') shows (xs', ys', more, s) b =
      let long : length (merge xs ys) ≡ suc (length (merge xs' ys')) = ap length more in
      let lt : length (merge xs' ys') ≤ n = omega (arith, long, b) in
      let here = record this { iter = iter' } in
      let (t, found, keep) = find_next_completion-choose_next here iter' xs' ys' shows s in
      let there = record here { view_tree = t } in
      let (this', rest, keep') =
        visit-merge n there iter' xs' ys' (choose_next (first xs') (first ys') iter')
          (keep this.view locals shows.0, keep this.global globals shows.1)
          (choose_next-Takes iter' xs' ys' s) lt in
      (
        this',
        rw found (rw rest (rw more refl)),
        λ view commands h. keep' view commands (keep view commands h),
      )

  -- If the current and the global view are there and hold commands in the order of their names, then
  -- the loop that calls `ucli_shell_getfirst_command` and then `ucli_shell_getnext_command` until NULL
  -- ends, and goes through the completions of the line in either view merged in the order of their
  -- names, a local command in place of the global one of its name; every view keeps its commands.
  pub visit_all-merge :
      (this : Shell)
      → Shows this
      → (this' : Shell) × (visit_all this line
          ≡ ok (merge (completions line [] locals) (completions line [] globals), this'))
        × KeepsViews this.view_tree this'.view_tree
  unfolding visit_all getfirst_command getnext_command iterator_init
  visit_all-merge this shows =
      let xs = completions line [] locals in
      let ys = completions line [] globals in
      let start : StandsAt iterator_init xs ys = record {
        text_local = tt;
        text_global = tt;
        to_come_local = refl;
        to_come_global = refl;
      } in
      let here = record this { iter = iterator_init } in
      let (t, found, keep) =
        find_next_completion-choose_next here iterator_init xs ys shows start in
      let there = record here { view_tree = t } in
      let fuel = commands_at this this.view + commands_at this this.global in
      let shows' : Shows there =
        (keep this.view locals shows.0, keep this.global globals shows.1) in
      let enough : length (merge xs ys) ≤ fuel = omega (
        arith,
        length-merge xs ys,
        length-completions line [] locals,
        length-completions line [] globals,
        commands_at-length this this.view locals shows.0,
        commands_at-length this this.global globals shows.1,
      ) in
      let (this', rest, keep') =
        visit-merge fuel there iterator_init xs ys (choose_next (first xs) (first ys) iterator_init)
          shows' (choose_next-Takes iterator_init xs ys start) enough in
      (this', rw found rest, λ view commands h. keep' view commands (keep view commands h))
