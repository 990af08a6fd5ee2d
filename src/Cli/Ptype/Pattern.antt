-- ===== src/Cli/Ptype/Pattern.antt =====
-- libucli/ptype/ptype.c: a new type, its pattern with the range that the help shows, and the words that
-- complete a text.
pub mod Named
use ucli.Base.{
  ℕ, zero, suc, ◌+◌, ◌-◌, ◌^◌, Bool, true, false, List, [], ◌∷◌, ◌++◌, Option, none, some, ltb, leb,
  ◌==◌, if◌then◌else◌, length, ◌≡◌, refl,
}
use ucli.Base.Run.{Run, ok, abort, ◌>>=◌, deref}
use ucli.Lub.Ctype.{Bytes, codes}
use ucli.Lub.Text.{cat, dup, nocasestr, same_text}
use ucli.Lub.Argv.{Argv, argv_new, get_count}
use ucli.Cli.Ptype.{
  Ptype, Method, regexp, integer, unsigned_integer, select, Preprocess, nothing, to_upper, to_lower,
  select_get_name, validate,
}

-- the C library's formatted input and output of a range: `%d..%d` or `%u..%u`, where the numbers that
-- are read are those that the text has, as 32-bit patterns, and the test of a regular expression
pub record Library : Type 0 where
  pub sscanf : Method → Bytes → Option ℕ × Option ℕ
  pub sprintf : Method → ℕ → ℕ → Bytes
  pub compiles : Bytes → Bool

-- what is read, or the value that was there
or_default : Option ℕ → ℕ → ℕ
or_default none n = n
or_default (some m) n = m

-- the text goes through an array of 80 bytes
unfoldable pub copied : Bytes → Run Bytes
copied text = if ltb (length text) 80 then ok text else abort

slash : ℕ → Bytes
slash i = if ltb 0 i then b'/' ∷ [] else []

-- the loop over the names of the items from `i` on, of which `n` are left
unfoldable pub range_loop : Argv → ℕ → ℕ → Option Bytes → Run (Option Bytes)
unfolding copied slash
range_loop items zero i range = ok range
range_loop items (suc n) i range = do
  name ← select_get_name items i
  text ← deref name
  tmp ← copied (slash i ++ text)
  range_loop items n (i + 1) (cat range (some tmp))

module _ (library : Library) where
  open library use {sscanf, sprintf, compiles}

  unfoldable pub set_range : Ptype → Method → Run Ptype
  unfolding range_loop
  set_range this regexp = ok this
  set_range this integer = do
    tmp ← copied (sprintf integer this.min this.max)
    ok (record this { range = dup (some tmp) })
  set_range this unsigned_integer = do
    tmp ← copied (sprintf unsigned_integer this.min this.max)
    ok (record this { range = dup (some tmp) })
  set_range this select = do
    range ← range_loop this.items (get_count this.items) 0 this.range
    ok (record this { range = range })

  -- the limits of the type of the numbers, and those that the pattern has in their place
  unfoldable pub read_range : Ptype → Bytes → Method → ℕ → ℕ → Ptype
  unfolding or_default
  read_range this pattern method lo hi =
      let (first, second) = sscanf method pattern in
      record this {
        pattern = dup (some pattern);
        min = or_default first lo;
        max = or_default second hi;
      }

  unfoldable pub apply_pattern : Ptype → Bytes → Method → Run Ptype
  unfolding read_range
  apply_pattern this pattern regexp = do
    text ← deref (cat (cat (cat none (some (b'^' ∷ []))) (some pattern)) (some (b'$' ∷ [])))
    if compiles text then ok (record this { pattern = some text }) else abort
  apply_pattern this pattern integer = ok (read_range this pattern integer (2 ^ 31) (2 ^ 31 - 1))
  apply_pattern this pattern unsigned_integer =
      ok (read_range this pattern unsigned_integer 0 (2 ^ 32 - 1))
  apply_pattern this pattern select =
      ok (record this { pattern = dup (some pattern); items = argv_new pattern 0 })

  unfoldable pub set_pattern : Ptype → Bytes → Method → Run Ptype
  unfolding apply_pattern set_range
  set_pattern this pattern method = elim this.pattern [
    | some _ ↦ abort
    | none ↦ do
      this' ← apply_pattern (record this { method = method }) pattern method
      set_range this' method
  ]

  unfoldable pub set_text : Ptype → Bytes → Run Ptype
  set_text this text = elim this.text [
    | some _ ↦ abort
    | none ↦ ok (record this { text = dup (some text) })
  ]

  unfoldable pub given_pattern : Ptype → Option Bytes → Method → Run Ptype
  unfolding set_pattern
  given_pattern this none method = ok this
  given_pattern this (some pattern) method = set_pattern this pattern method

  unfoldable pub given_text : Ptype → Option Bytes → Run Ptype
  unfolding set_text
  given_text this none = ok this
  given_text this (some text) = set_text this text

  -- The first argument is the memory that malloc returns: the method, the range and the place of the
  -- generator are not set without a pattern.
  unfoldable pub ptype_new :
      Ptype → Bytes → Option Bytes → Option Bytes → Method → Preprocess → Run Ptype
  unfolding given_pattern given_text
  ptype_new memory name text pattern method preprocess = do
    this ←
        given_pattern
          (record memory {
            name = name;
            text = none;
            pattern = none;
            preprocess = preprocess;
            range = none;
          })
          pattern method
    given_text this text

-- `nocasestr` returns a pointer to its first argument
unfoldable pub is_start : Option ℕ → Bool
is_start none = false
is_start (some i) = i == 0

-- a completion ends the loop, and the rounds that follow are `rest`
unfoldable pub take_word :
    Bool → Bytes → Ptype → Run (Option Bytes × Ptype) → Run (Option Bytes × Ptype)
take_word true word this rest = ok (some word, this)
take_word false word this rest = rest

-- the names from the place of the generator on, of which there are `n`, up to one that the text begins
unfoldable pub next_word : ℕ → Ptype → Bytes → Run (Option Bytes × Ptype)
unfolding is_start take_word
next_word zero this text = ok (none, record this { last_name = this.last_name + 1 })
next_word (suc n) this text = do
  name ← select_get_name this.items this.last_name
  word ← deref name
  let this' = record this { last_name = this.last_name + 1 }
  take_word (is_start (nocasestr word text)) word this' (next_word n this' text)

unfoldable pub by_method : Ptype → Bytes → ℕ → Method → Run (Option Bytes × Ptype)
unfolding next_word
by_method this text state select =
    let this' = if state == 0 then record this { last_name = 0 } else this in
    next_word (get_count this'.items - this'.last_name) this' text
by_method this text state _ = ok (none, this)

-- a text that is valid is its own completion
unfoldable pub answered : Ptype → Bytes → ℕ → Option Bytes → Run (Option Bytes × Ptype)
unfolding by_method
answered this text state (some word) = ok (some word, this)
answered this text state none = by_method this text state this.method

module _ (regexec : Bytes → Bytes → Bool) where
  unfoldable pub tried : Ptype → Bytes → ℕ → Run (Option Bytes)
  tried this text state = if state == 0 then validate regexec this text else ok none

  unfoldable pub word_generator : Ptype → Bytes → ℕ → Run (Option Bytes × Ptype)
  unfolding answered tried
  word_generator this text state = do
    result ← tried this text state
    answered this text state result

unfoldable method_get_name : Method → Bytes
method_get_name regexp = codes "regexp"
method_get_name integer = codes "integer"
method_get_name unsigned_integer = codes "unsignedInteger"
method_get_name select = codes "select"

-- the search of a table of names; an assertion fails for a name that is not in it
resolved_in : {A : Type 0} → List (Bytes × A) → Bytes → Run A
unfolding same_text
resolved_in [] name = abort
resolved_in ((entry, a) ∷ names) name =
    let rest = resolved_in names name in if same_text name entry then ok a else rest

unfoldable method_resolve : Option Bytes → Run Method
unfolding resolved_in method_get_name
method_resolve none = ok regexp
method_resolve (some name) =
    resolved_in
      ((method_get_name regexp, regexp)
        ∷ (method_get_name integer, integer)
        ∷ (method_get_name unsigned_integer, unsigned_integer)
        ∷ (method_get_name select, select)
        ∷ [])
      name

unfoldable preprocess_get_name : Preprocess → Bytes
preprocess_get_name nothing = codes "none"
preprocess_get_name to_upper = codes "toupper"
preprocess_get_name to_lower = codes "tolower"

unfoldable preprocess_resolve : Option Bytes → Run Preprocess
unfolding resolved_in preprocess_get_name
preprocess_resolve none = ok nothing
preprocess_resolve (some name) =
    resolved_in
      ((preprocess_get_name nothing, nothing)
        ∷ (preprocess_get_name to_upper, to_upper)
        ∷ (preprocess_get_name to_lower, to_lower)
        ∷ [])
      name

-- Each method and each preprocessing is resolved from its name.
method_resolve-method_get_name : (m : Method) → method_resolve (some (method_get_name m)) ≡ ok m
unfolding method_resolve same_text
method_resolve-method_get_name regexp = refl
method_resolve-method_get_name integer = refl
method_resolve-method_get_name unsigned_integer = refl
method_resolve-method_get_name select = refl

preprocess_resolve-preprocess_get_name :
    (p : Preprocess) → preprocess_resolve (some (preprocess_get_name p)) ≡ ok p
unfolding preprocess_resolve same_text
preprocess_resolve-preprocess_get_name nothing = refl
preprocess_resolve-preprocess_get_name to_upper = refl
preprocess_resolve-preprocess_get_name to_lower = refl

unfoldable set_preprocess : Ptype → Preprocess → Ptype
set_preprocess this preprocess = record this { preprocess = preprocess }
