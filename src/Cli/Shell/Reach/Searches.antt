-- ===== src/Cli/Shell/Reach/Searches.antt =====
-- The searches for completions and for a line's command keep the shell well formed.
use ucli.Base.{Bool, ℕ, List, [], ◌∷◌, Option, sym}
use mathlib.Core.Path.{subst}
use ucli.Base.Int.{sign}
use ucli.Base.Run.{Run, Post, Post-then, Post-map}
use ucli.Lub.Ctype.{Bytes, IsText}
use ucli.Lub.Bintree.{to_list}
use ucli.Lub.Bintree.Splay.{sign_cases, is_neg, is_nil, is_plus}
use ucli.Lub.Bintree.Next.{first}
use ucli.Lub.Bintree.Sorted.{AllValid}
use ucli.Cli.Command.{Command, bt_getkey, command_diff}
use ucli.Cli.View
use ucli.Cli.View.{View}
use ucli.Cli.View.Completion
use ucli.Cli.View.Sorted.{IsView, AreCommands}
use ucli.Cli.View.Completion.{
  name_of, completions, completions-IsText, Finds, find_next_completion-Finds,
}
use ucli.Cli.View.Resolve.{SameCommands, resolve_prefix-SameCommands, resolve_command-SameCommands}
use ucli.Cli.Shell.{Shell, ShellIterator, in_view, in_both, resolve_prefix, resolve_command}
use ucli.Cli.Shell.Completion.{
  iterator_init, choose_next, find_next_completion, getnext_command, getfirst_command,
}
use ucli.Cli.Shell.Reach.{IsShell, in_view-IsShell}

first-IsText :
    (commands : List Command)
    → AllValid bt_getkey IsText commands
    → IsText (name_of (first commands))
first-IsText [] a = tt
first-IsText (c ∷ commands) (t, a) = t

-- The commands that the iterator stands at have texts for their names.
abbrev pub IsIterator : ShellIterator → Type 0
IsIterator iter = IsText (name_of iter.last_cmd_local) × IsText (name_of iter.last_cmd_global)

Finds-IsView :
    (v : View) (cmd : Option Command) (r : Run (Option Command × View))
    → IsView v
    → IsText (name_of cmd)
    → Finds v cmd r
    → Post (λ out. IsText (name_of out.0) × IsView out.1) r
Finds-IsView v cmd r w t (tree, e, same) = rw e (t, subst AreCommands (sym same) w)

find_in_view :
    (last : Option Command) (line : Bytes)
    → IsText (name_of last)
    → (v : View) → IsView v
    → Post
        (λ out. IsText (name_of out.0) × IsView out.1)
        (Completion.find_next_completion v last line)
find_in_view last line t v w =
    Finds-IsView v (first (completions line (name_of last) (to_list v.tree)))
      (Completion.find_next_completion v last line) w
      (first-IsText (completions line (name_of last) (to_list v.tree))
        (completions-IsText line (name_of last) (to_list v.tree) w))
      (find_next_completion-Finds v last line w t).0

choose_next-IsIterator :
    (cmd1 cmd2 : Option Command) (iter : ShellIterator)
    → IsText (name_of cmd1)
    → IsText (name_of cmd2)
    → IsIterator iter
    → IsIterator (choose_next cmd1 cmd2 iter).1
unfolding choose_next
choose_next-IsIterator cmd1 cmd2 iter t1 t2 (l, g) =
    elim (sign_cases (sign (command_diff cmd1 cmd2))) [
      | is_plus e ↦ rw (e, choose_next) (l, t2)
      | is_nil e ↦ rw (e, choose_next) (t1, t2)
      | is_neg e ↦ rw (e, choose_next) (t1, g)
    ]

pub find_next_completion-IsShell :
    {held : List Bytes} (this : Shell) (line : Bytes) (iter : ShellIterator)
    → IsIterator iter
    → IsShell held this
    → Post (λ out. IsIterator out.0.1 × IsShell held out.1) (find_next_completion this line iter)
unfolding find_next_completion
find_next_completion-IsShell {held} this line iter (l, g) s =
    Post-then (λ out. IsText (name_of out.0) × IsShell held out.1)
      (λ out. IsIterator out.0.1 × IsShell held out.1)
      (in_view this this.view (λ v. Completion.find_next_completion v iter.last_cmd_local line)) _
      (in_view-IsShell (λ c. IsText (name_of c)) this this.view _
        (find_in_view iter.last_cmd_local line l) s)
      (λ out q.
        Post-then (λ out. IsText (name_of out.0) × IsShell held out.1)
          (λ out. IsIterator out.0.1 × IsShell held out.1)
          (in_view out.1 this.global
            (λ v. Completion.find_next_completion v iter.last_cmd_global line))
          _
          (in_view-IsShell (λ c. IsText (name_of c)) out.1 this.global _
            (find_in_view iter.last_cmd_global line g) q.1)
          (λ out' q'. (choose_next-IsIterator out.0 out'.0 iter q.0 q'.0 (l, g), q'.1)))

with_iter :
    {held : List Bytes} (this : Shell) (iter : ShellIterator)
    → IsIterator iter
    → IsShell held this
    → IsShell held (record this { iter = iter })
with_iter {held} this iter (l, g) s = record {
  views = s.views;
  current = s.current;
  global = s.global;
  text_local = l;
  text_global = g;
  kept = s.kept;
}

pub getnext_command-IsShell :
    {held : List Bytes} (this : Shell) (line : Bytes)
    → IsShell held this
    → Post (λ out. IsShell held out.1) (getnext_command this line)
unfolding getnext_command
getnext_command-IsShell {held} this line s =
    Post-then (λ out. IsIterator out.0.1 × IsShell held out.1) (λ out. IsShell held out.1)
      (find_next_completion this line this.iter) _
      (find_next_completion-IsShell this line this.iter (s.text_local, s.text_global) s)
      (λ out q. with_iter out.1 out.0.1 q.0 q.1)

pub getfirst_command-IsShell :
    {held : List Bytes} (this : Shell) (line : Bytes)
    → IsShell held this
    → Post (λ out. IsShell held out.1) (getfirst_command this line)
unfolding getfirst_command iterator_init
getfirst_command-IsShell {held} this line s =
    getnext_command-IsShell (record this { iter = iterator_init }) line
      (with_iter this iterator_init (tt, tt) s)

in_both-IsShell :
    {held : List Bytes} (this : Shell) (search : View → Run (Option Command × View))
    → ((v : View) → IsView v → Post (λ out. Unit {0} × IsView out.1) (search v))
    → IsShell held this
    → Post (λ out. IsShell held out.1) (in_both this search)
unfolding in_both
in_both-IsShell {held} this search h s =
    Post-then (λ out. Unit {0} × IsShell held out.1) (λ out. IsShell held out.1)
      (in_view this this.view search) _ (in_view-IsShell (λ _. Unit) this this.view _ h s)
      (λ out q.
        Post-then (λ out. Unit {0} × IsShell held out.1) (λ out. IsShell held out.1)
          (in_view out.1 this.global search) _
          (in_view-IsShell (λ _. Unit) out.1 this.global _ h q.1) (λ out' q'. q'.1))

same-IsView :
    (v : View) (m : Run (Option Command × View))
    → IsView v
    → Post (λ out. SameCommands v out.1) m
    → Post (λ out. Unit {0} × IsView out.1) m
same-IsView v m w h =
    Post-map (λ out. SameCommands v out.1) (λ out. Unit {0} × IsView out.1) m h
      (λ out e. (tt, subst AreCommands (sym e) w))

pub resolve_prefix-IsShell :
    {held : List Bytes} (this : Shell) (line : Bytes)
    → IsShell held this
    → Post (λ out. IsShell held out.1) (resolve_prefix this line)
unfolding resolve_prefix
resolve_prefix-IsShell {held} this line s =
    in_both-IsShell this (λ v. View.resolve_prefix v line)
      (λ v w. same-IsView v (View.resolve_prefix v line) w (resolve_prefix-SameCommands v line)) s

pub resolve_command-IsShell :
    {held : List Bytes} (getenv : Bytes → Option Bytes)
    (regcomp : Bytes → Option (Bytes → Option (ℕ × ℕ))) (regexec : Bytes → Bytes → Bool)
    (this : Shell) (line : Bytes)
    → IsShell held this
    → Post (λ out. IsShell held out.1) (resolve_command getenv regcomp regexec this line)
unfolding resolve_command
resolve_command-IsShell {held} getenv regcomp regexec this line s =
    in_both-IsShell this (λ v. View.resolve_command getenv regcomp v line)
      (λ v w.
        same-IsView v (View.resolve_command getenv regcomp v line) w
          (resolve_command-SameCommands getenv regcomp v line))
      s
