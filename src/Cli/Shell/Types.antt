-- ===== src/Cli/Shell/Types.antt =====
-- libucli/shell: shell_insert_ptype.c and shell_find_create_ptype.c. A type is pointed at by its name.
pub mod Declared
use ucli.Base.{Option, none, some, if◌then◌else◌}
use ucli.Base.Int.{ℤ}
use ucli.Base.Run.{Run, ok, abort, ◌>>=◌}
use ucli.Lub.Ctype.{Bytes}
use ucli.Lub.Text.{strcmp, same_text}
use ucli.Lub.Bintree.{Tree, leaf, node, find, insert}
use ucli.Cli.Ptype.{Ptype, Method, Preprocess}
use ucli.Cli.Ptype.Pattern.{Library, ptype_new, set_pattern, set_text}
use ucli.Cli.Shell.{Shell}

-- The comparison and the key by which the shell's tree orders its types.
abbrev pub ptype_compare : Ptype → Bytes → ℤ
ptype_compare this key = strcmp this.name key

abbrev pub ptype_getkey : Ptype → Bytes
ptype_getkey this = this.name

-- the type behind a pointer is changed
unfoldable pub put_at : Ptype → Ptype → Ptype
unfolding same_text
put_at ptype t = if same_text t.name ptype.name then ptype else t

unfoldable pub put_ptype : Tree Ptype → Ptype → Tree Ptype
unfolding put_at
put_ptype leaf ptype = leaf
put_ptype (node l t r) ptype = node (put_ptype l ptype) (put_at ptype t) (put_ptype r ptype)

unfoldable pub insert_ptype : Shell → Ptype → Shell
unfolding insert
insert_ptype this ptype =
    let (code, tree) = insert (λ t. ptype_compare t (ptype_getkey ptype)) ptype this.ptype_tree in
    record this { ptype_tree = tree }

module _ (library : Library) where
  unfoldable pub new_pattern : Ptype → Option Bytes → Method → Preprocess → Run Ptype
  unfolding set_pattern
  new_pattern ptype none method preprocess = ok ptype
  new_pattern ptype (some pattern) method preprocess = do
    ptype' ← set_pattern library ptype pattern method
    ok (record ptype' { preprocess = preprocess })

  unfoldable pub new_text : Ptype → Option Bytes → Run Ptype
  unfolding set_text
  new_text ptype none = ok ptype
  new_text ptype (some text) = set_text library ptype text

  -- `memory` is what malloc returns for a new type
  unfoldable pub create_or_set :
      Ptype
      → Bytes
      → Option Bytes
      → Option Bytes
      → Method
      → Preprocess
      → Option Ptype × Shell
      → Run (Bytes × Shell)
  unfolding ptype_new insert_ptype new_pattern new_text put_ptype
  create_or_set memory name text pattern method preprocess (none, this) = do
    ptype ← ptype_new library memory name text pattern method preprocess
    ok (name, insert_ptype this ptype)
  create_or_set memory name text pattern method preprocess (some ptype, this) = do
    ptype' ← new_pattern ptype pattern method preprocess
    ptype'' ← new_text ptype' text
    ok (ptype.name, record this { ptype_tree = put_ptype this.ptype_tree ptype'' })

  unfoldable pub find_create_ptype :
      Ptype
      → Shell
      → Bytes
      → Option Bytes
      → Option Bytes
      → Method
      → Preprocess
      → Run (Bytes × Shell)
  unfolding create_or_set find
  find_create_ptype memory this name text pattern method preprocess =
      let (ptype, tree) = find (λ t. ptype_compare t name) this.ptype_tree in
      create_or_set memory name text pattern method preprocess
        (ptype, record this { ptype_tree = tree })
