-- ===== src/Cli/Param.antt =====
-- libucli/param/param.c: a parameter of a command.
use ucli.Base.{Option, none, some}
use ucli.Base.Run.{Run, ok, abort, ◌>>=◌, deref}
use ucli.Lub.Ctype.{Bytes}
use ucli.Lub.Text.{dup}
use ucli.Base.{Bool}
use ucli.Cli.Ptype.{Ptype, translate}

pub record Param : Type 0 where
  pub name : Bytes
  pub text : Option Bytes
  pub ptype : Option Ptype
  pub prefix : Option Bytes
  pub defval : Option Bytes

unfoldable param_new : Bytes → Option Bytes → Option Ptype → Param
unfolding dup
param_new name text ptype = record {
  name = name;
  text = dup text;
  ptype = ptype;
  prefix = none;
  defval = none;
}

-- the setters assert that the field is not set yet
unfoldable set_prefix : Param → Option Bytes → Run Param
unfolding dup
set_prefix this prefix = elim this.prefix [
  | none ↦ ok (record this { prefix = dup prefix })
  | some _ ↦ abort
]

unfoldable pub set_default : Param → Option Bytes → Run Param
unfolding dup
set_default this defval = elim this.defval [
  | none ↦ ok (record this { defval = dup defval })
  | some _ ↦ abort
]

abbrev pub param_validate : (Bytes → Bytes → Bool) → Param → Bytes → Run (Option Bytes)
param_validate regexec this text = do ptype ← deref this.ptype; translate regexec ptype text
