-- ===== src/Cli/Shell/Reach/Types.antt =====
-- The declaration of a type keeps the shell's views and pointers.
use ucli.Base.{List, Option, none, some}
use ucli.Base.Run.{Post, Post-bind}
use ucli.Lub.Ctype.{Bytes}
use ucli.Lub.Bintree.{Tree, find}
use ucli.Cli.Ptype.{Ptype, Method, Preprocess}
use ucli.Cli.Ptype.Pattern.{Library, ptype_new}
use ucli.Cli.Shell.{Shell}
use ucli.Cli.Shell.Types.{
  ptype_compare, insert_ptype, new_pattern, new_text, create_or_set, find_create_ptype,
}
use ucli.Cli.Shell.Reach.{IsShell}

typed-IsShell :
    {held : List Bytes} (this : Shell) (tree : Tree Ptype)
    → IsShell held this
    → IsShell held (record this { ptype_tree = tree })
typed-IsShell {held} this tree s = record {
  views = s.views;
  current = s.current;
  global = s.global;
  text_local = s.text_local;
  text_global = s.text_global;
  kept = s.kept;
}

module _ (library : Library) (memory : Ptype) (name : Bytes) (text pattern : Option Bytes)
    (method : Method) (preprocess : Preprocess) where
  create_or_set-IsShell :
      {held : List Bytes} (found : Option Ptype) (this : Shell)
      → IsShell held this
      → Post
          (λ out. IsShell held out.1)
          (create_or_set library memory name text pattern method preprocess (found, this))
  unfolding create_or_set insert_ptype
  create_or_set-IsShell {held} none this s =
      Post-bind (λ out. IsShell held out.1)
        (ptype_new library memory name text pattern method preprocess) _
        (λ ptype. typed-IsShell this _ s)
  create_or_set-IsShell {held} (some ptype) this s =
      Post-bind (λ out. IsShell held out.1) (new_pattern library ptype pattern method preprocess) _
        (λ ptype'.
          Post-bind (λ out. IsShell held out.1) (new_text library ptype' text) _
            (λ ptype''. typed-IsShell this _ s))

  -- `ucli_shell_find_create_ptype` keeps the shell well formed.
  pub find_create_ptype-IsShell :
      {held : List Bytes} (this : Shell)
      → IsShell held this
      → Post
          (λ out. IsShell held out.1)
          (find_create_ptype library memory this name text pattern method preprocess)
  unfolding find_create_ptype
  find_create_ptype-IsShell {held} this s =
      let (found, tree) = find (λ t. ptype_compare t name) this.ptype_tree in
      create_or_set-IsShell found (record this { ptype_tree = tree }) (typed-IsShell this tree s)
