-- ===== src/Tinyrl/History.antt =====
-- contrib/tinyrl/history: the lines that were entered before, oldest first. `length` is the length of
-- the list; the slots behind it, of which there are `size` in all, hold nothing that is read. An
-- `unsigned` wraps around at 2 ^ 32.
pub mod Added
pub mod Valid
pub mod Reach
pub mod Lookup
use ucli.Base.{
  ℕ, zero, suc, ◌+◌, ◌-◌, ◌%◌, ◌^◌, Bool, true, false, not, ◌&&◌, List, [], ◌∷◌, ◌++◌, Option, none,
  some, ltb, leb, ◌==◌, if◌then◌else◌, length, get_elem?, take, drop,
}
use ucli.Base.Run.{Run, ok, abort, ◌>>=◌}
use ucli.Lub.Ctype.{Bytes}
use ucli.Lub.Text.{same_text}
use mathlib.Core.Option

pub record Entry : Type 0 where
  pub line : Bytes
  pub index : ℕ

pub record History : Type 0 where
  pub entries : List Entry
  pub size : ℕ
  pub current_index : ℕ
  pub stifle : ℕ

unfoldable pub history_new : ℕ → History
history_new stifle = record { entries = []; size = 0; current_index = 1; stifle = stifle }

-- a failed `assert`
abbrev assert : {A : Type 0} → Bool → A → Run A
assert true a = ok a
assert false a = abort

-- `length - 1`
abbrev pub last_offset : History → ℕ
last_offset this = (length this.entries + (2 ^ 32 - 1)) % 2 ^ 32

-- the entries are released, and stay in the array
pub free_entries : History → ℕ → ℕ → Run History
free_entries this start end = assert (leb start end && ltb end (length this.entries)) this

pub remove_entries : History → ℕ → ℕ → Run History
remove_entries this start end =
    assert (leb start end && ltb end (length this.entries))
      (record this { entries = take start this.entries ++ drop (end + 1) this.entries })

-- the offset of the first entry with that line
find_line : List Entry → Bytes → Option ℕ
find_line [] line = none
find_line (entry ∷ entries) line =
    let rest = Option.map suc (find_line entries line) in
    let here : Option ℕ = some 0 in if same_text line entry.line then here else rest

abbrev delete_entries : History → ℕ → ℕ → Run History
delete_entries this start end = do
  freed ← free_entries this start end
  remove_entries freed start end

-- whether there was one, and the history without it
remove_duplicate : History → Bytes → Run (Bool × History)
remove_duplicate this line = elim (find_line this.entries line) [
  | none ↦ ok (false, this)
  | some i ↦ do this' ← delete_entries this i i; ok (true, this')
]

-- `insert_entry`, once `length` has been raised
append_entry : History → Bytes → History
append_entry this line =
    if ltb (length this.entries) this.size
    then record this {
      entries = this.entries ++ ((record { line = line; index = this.current_index }) ∷ []);
      current_index = (this.current_index + 1) % 2 ^ 32;
    }
    else this

-- the oldest entry goes, unless an older copy of the line has gone
make_room : Bool × History → Run History
make_room (true, this) = ok this
make_room (false, this) = delete_entries this 0 0

add_n_replace : History → Bytes → Run History
add_n_replace this line = do
  removed ← remove_duplicate this line
  room ← make_room removed
  ok (append_entry room line)

-- there is always memory for ten entries more
grow : History → History
grow this = if this.size == length this.entries then record this { size = this.size + 10 } else this

add_n_grow : History → Bytes → Run History
add_n_grow this line = do
  removed ← remove_duplicate (grow this) line
  ok (append_entry removed.1 line)

pub add : History → Bytes → Run History
unfolding add_n_replace add_n_grow grow make_room append_entry remove_duplicate find_line
    free_entries remove_entries same_text
add this line =
    if not (length this.entries == 0) && length this.entries == this.stifle
    then add_n_replace this line
    else add_n_grow this line

-- an entry of the array, which the callers ask for below `length` only
abbrev pub entry_at : History → ℕ → Option Entry
entry_at this offset = get_elem? this.entries offset

unfoldable pub remove : History → ℕ → Run (Option Entry × History)
unfolding remove_entries
remove this offset =
    if ltb offset (length this.entries)
    then (do this' ← remove_entries this offset offset; ok (entry_at this offset, this'))
    else ok (none, this)

pub clear : History → Run History
unfolding free_entries remove_entries
clear this = delete_entries this 0 (last_offset this)

-- the entries beyond the limit, the oldest ones, are deleted
abbrev trim : History → ℕ → Run History
trim this limit =
    if ltb limit (length this.entries)
    then delete_entries this 0 (length this.entries - limit - 1)
    else ok this

unfoldable pub stifle : History → ℕ → Run History
unfolding free_entries remove_entries
stifle this limit =
    if limit == 0
    then ok this
    else (do this' ← trim this limit; ok (record this' { stifle = limit }))

unfoldable pub unstifle : History → ℕ × History
unstifle this = (this.stifle, record this { stifle = 0 })

unfoldable is_stifled : History → Bool
is_stifled this = not (this.stifle == 0)

-- the entry with that index
find_index : List Entry → ℕ → Option Entry
find_index [] position = none
find_index (entry ∷ entries) position =
    let rest = find_index entries position in if position == entry.index then some entry else rest

unfoldable pub get : History → ℕ → Option Entry
unfolding find_index
get this position = find_index this.entries position

-- An iterator is an offset. Each function returns an entry, or NULL, and where the iterator is then.
unfoldable pub getfirst : History → Option Entry × ℕ
getfirst this = (if length this.entries == 0 then none else entry_at this 0, 0)

unfoldable pub getnext : History → ℕ → Option Entry × ℕ
getnext this offset =
    if ltb offset (last_offset this)
    then (entry_at this (offset + 1), offset + 1)
    else (none, offset)

unfoldable pub getprevious : History → ℕ → Option Entry × ℕ
getprevious this offset =
    if offset == 0 then (none, offset) else (entry_at this (offset - 1), offset - 1)

unfoldable pub getlast : History → Option Entry × ℕ
unfolding getprevious
getlast this = getprevious this (length this.entries)
