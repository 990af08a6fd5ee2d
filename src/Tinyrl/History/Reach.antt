-- ===== src/Tinyrl/History/Reach.antt =====
-- The other operations, and the histories that all of them lead to.
use ucli.Base.{
  ℕ, suc, ◌+◌, ◌-◌, ◌%◌, ◌^◌, ◌≤◌, ◌<◌, true, [], ◌++◌, Option, none, ltb, leb, ◌==◌, if◌then◌else◌,
  length, take, drop, length-drop, drop_all, Bool-cases, inl, inr, ◌≡◌, refl, ap, sym, ◌∙◌, arith,
}
use mathlib.Core.Path.{subst}
use ucli.Base.Run.{Run, ok, abort}
use ucli.Lub.Ctype.{Bytes}
use ucli.Tinyrl.History.{
  Entry, History, history_new, add, remove, stifle, unstifle, clear, entry_at, trim, last_offset,
}
use ucli.Tinyrl.History.Added.{add-added, delete_entries_lem, delete_entries_abort, plus_one}
use ucli.Tinyrl.History.Valid.{IsHistory, drop-Part, cut-Part, IsHistory-Part, added-IsHistory}

-- The history with a limit, which keeps the newest entries.
abbrev pub limited : History → ℕ → History
limited this limit =
    if limit == 0
    then this
    else record this { entries = drop (length this.entries - limit) this.entries; stifle = limit }

trim_lem :
    (this : History) (limit : ℕ)
    → trim this limit
      ≡ ok (record this { entries = drop (length this.entries - limit) this.entries })
trim_lem this limit = elim (Bool-cases (ltb limit (length this.entries))) [
  | inl e ↦
      let last : suc (length this.entries - limit - 1) ≡ length this.entries - limit =
        ground (arith, e) in
      rw e (
        delete_entries_lem this 0 (length this.entries - limit - 1) (omega arith)
          (ground (arith, e))
        ∙ ap (λ n. ok (record this { entries = drop n this.entries })) last)
  | inr e ↦
      let none_left : 0 ≡ length this.entries - limit = ground (arith, e) in
      rw e (ap (λ n. ok (record this { entries = drop n this.entries })) none_left)
]

-- tinyrl_history_stifle does not fail: with a limit it deletes the oldest entries that are too many,
-- and without one it does nothing.
pub stifle-limited : (this : History) (limit : ℕ) → stifle this limit ≡ ok (limited this limit)
unfolding stifle
stifle-limited this limit = elim (Bool-cases (limit == 0)) [
  | inl e ↦ rw e refl
  | inr e ↦ rw e (rw trim_lem refl)
]

-- the history without the entry at that offset
abbrev pub removed : History → ℕ → History
removed this offset = record this {
  entries = take offset this.entries ++ drop (suc offset) this.entries;
}

leb_refl : (n : ℕ) → leb n n ≡ true
leb_refl n = ground arith

-- tinyrl_history_remove does not fail: inside the array it returns the entry and closes the gap, and
-- elsewhere it returns NULL and does nothing.
pub remove-removed :
    (this : History) (offset : ℕ)
    → remove this offset
      ≡ ok (
          if ltb offset (length this.entries)
          then (entry_at this offset, removed this offset)
          else (none, this))
unfolding remove
remove-removed this offset = elim (Bool-cases (ltb offset (length this.entries))) [
  | inl e ↦ rw e (rw (leb_refl offset) (rw plus_one refl))
  | inr e ↦ rw e refl
]

wraps : (n : ℕ) → n ≡ 0 → n ≤ (n + (2 ^ 32 - 1)) % 2 ^ 32
wraps n h = rw h (omega arith)

last_inside : (n : ℕ) → 0 < n → n < 2 ^ 32 → suc ((n + (2 ^ 32 - 1)) % 2 ^ 32) ≡ n
last_inside n h small = omega (arith, h, small)

-- tinyrl_history_clear empties a history that has an entry, and fails on an empty one, where the
-- unsigned offset of the last entry wraps around.
pub clear_lem :
    (this : History)
    → length this.entries < 2 ^ 32
    → clear this ≡ (if length this.entries == 0 then abort else ok (record this { entries = [] }))
unfolding clear
clear_lem this small = elim (Bool-cases (length this.entries == 0)) [
  | inl e ↦ rw e (
      delete_entries_abort this 0 (last_offset this)
        (wraps (length this.entries) (ground (arith, e))))
  | inr e ↦
      let last = last_inside (length this.entries) (ground (arith, e)) small in
      rw e (
        delete_entries_lem this 0 (last_offset this) (omega arith) (omega (arith, last))
        ∙ ap (λ xs. ok (record this { entries = xs }))
            (drop_all (suc (last_offset this)) this.entries (omega (arith, last))))
]

-- How a history changes. The indices do not wrap around.
pub data Step : History → History → Type 0 where
  adds :
      {this next : History} (line : Bytes)
      → this.current_index + 1 < 2 ^ 32
      → add this line ≡ ok next
      → Step this next
  removes :
      {this next : History} (offset : ℕ) (entry : Option Entry)
      → remove this offset ≡ ok (entry, next)
      → Step this next
  stifles : {this next : History} (limit : ℕ) → stifle this limit ≡ ok next → Step this next
  unstifles : {this : History} → Step this (unstifle this).1
  clears :
      {this next : History} → length this.entries < 2 ^ 32 → clear this ≡ ok next → Step this next

pub data Reach (start : History) : History → Type 0 where
  here : Reach start start
  after : {this that : History} → Reach start this → Step this that → Reach start that

history_new-IsHistory : (limit : ℕ) → IsHistory (history_new limit)
unfolding history_new
history_new-IsHistory limit = (omega arith, (λ n. omega arith), tt, tt)

limited-IsHistory : (this : History) (limit : ℕ) → IsHistory this → IsHistory (limited this limit)
limited-IsHistory this limit h = elim (Bool-cases (limit == 0)) [
  | inl e ↦ rw e h
  | inr e ↦
      let (fits, _, older, below) =
        IsHistory-Part this (drop (length this.entries - limit) this.entries)
          (drop-Part (length this.entries - limit) this.entries) h in
      rw e (fits, (λ n. rw length-drop (omega arith)), older, below)
]

removed-IsHistory : (this : History) (offset : ℕ) → IsHistory this → IsHistory (removed this offset)
removed-IsHistory this offset h =
    IsHistory-Part this _ (cut-Part offset (suc offset) this.entries (omega arith)) h

unstifle-IsHistory : (this : History) → IsHistory this → IsHistory (unstifle this).1
unfolding unstifle
unstifle-IsHistory this (fits, _, older, below) = (fits, (λ n. absurd (n refl)), older, below)

ok_inj : {A : Type 0} {a b : A} → ok a ≡ ok b → a ≡ b
ok_inj e = cc

-- What the outcome of an operation says of the next history.
from_ok :
    {this next : History} (m : Run History)
    → m ≡ ok this
    → m ≡ ok next
    → IsHistory this
    → IsHistory next
from_ok m e d h = let same = sym e ∙ d in subst IsHistory (ok_inj same) h

from_pair :
    {this next : History} {found entry : Option Entry} (m : Run (Option Entry × History))
    → m ≡ ok (found, this)
    → m ≡ ok (entry, next)
    → IsHistory this
    → IsHistory next
from_pair m e d h = let same = sym e ∙ d in subst IsHistory (ap (λ p. p.1) (ok_inj same)) h

remove-IsHistory :
    (this next : History) (offset : ℕ) (entry : Option Entry)
    → remove this offset ≡ ok (entry, next)
    → IsHistory this
    → IsHistory next
remove-IsHistory this next offset entry e h = elim (Bool-cases (ltb offset (length this.entries))) [
  | inl i ↦
      let inside : remove this offset ≡ ok (entry_at this offset, removed this offset) =
        remove-removed this offset ∙ rw i refl in
      from_pair (remove this offset) inside e (removed-IsHistory this offset h)
  | inr i ↦
      let outside : remove this offset ≡ ok (none, this) = remove-removed this offset ∙ rw i refl in
      from_pair (remove this offset) outside e h
]

clear-IsHistory :
    (this next : History)
    → length this.entries < 2 ^ 32
    → clear this ≡ ok next
    → IsHistory this
    → IsHistory next
clear-IsHistory this next small e h = elim (Bool-cases (length this.entries == 0)) [
  | inl i ↦
      let fails : clear this ≡ abort = clear_lem this small ∙ rw i refl in
      let same = sym fails ∙ e in cc
  | inr i ↦
      let empties : clear this ≡ ok (record this { entries = [] }) =
        clear_lem this small ∙ rw i refl in
      from_ok (clear this) empties e (omega arith, (λ n. omega arith), tt, tt)
]

-- Each operation keeps what `IsHistory` says of a history.
pub Step-IsHistory : {this next : History} → Step this next → IsHistory this → IsHistory next
Step-IsHistory {this} (adds line small e) h =
    from_ok (add this line) (add-added this line h.0) e (added-IsHistory this line h small)
Step-IsHistory {this} {next} (removes offset entry e) h =
    remove-IsHistory this next offset entry e h
Step-IsHistory {this} (stifles limit e) h =
    from_ok (stifle this limit) (stifle-limited this limit) e (limited-IsHistory this limit h)
Step-IsHistory {this} unstifles h = unstifle-IsHistory this h
Step-IsHistory {this} {next} (clears small e) h = clear-IsHistory this next small e h

-- Every history that the operations make from a new one keeps within its limit and its array, and has
-- entries with different lines and increasing indices.
pub Reach-IsHistory : (limit : ℕ) {this : History} → Reach (history_new limit) this → IsHistory this
Reach-IsHistory limit here = history_new-IsHistory limit
Reach-IsHistory limit (after r s) = Step-IsHistory s (Reach-IsHistory limit r)
