-- ===== src/Tinyrl/History/Added.antt =====
-- What a new line does to the history.
use ucli.Base.{
  ℕ, suc, ◌+◌, ◌%◌, ◌^◌, ◌≤◌, ◌<◌, Bool, true, false, not, ◌&&◌, List, [], ◌∷◌, ◌++◌, Option, none,
  some, ltb, leb, ◌==◌, if◌then◌else◌, length, take, drop, length-drop, Bool-cases, inl, inr, ◌≡◌,
  refl, ap, sym, ◌∙◌, arith,
}
use ucli.Base.Run.{ok, abort}
use ucli.Lub.Ctype.{Bytes}
use ucli.Lub.Text.{same_text}
use ucli.Tinyrl.History.{
  Entry, History, free_entries, remove_entries, delete_entries, find_line, remove_duplicate,
  append_entry, make_room, add_n_replace, add_n_grow, grow, add,
}
use mathlib.Core.Option

-- the entries without the first one with that line
unfoldable pub without : List Entry → Bytes → List Entry
without [] line = []
without (entry ∷ entries) line =
    let rest = entry ∷ without entries line in if same_text line entry.line then entries else rest

unfoldable pub has_line : List Entry → Bytes → Bool
has_line [] line = false
has_line (entry ∷ entries) line =
    let rest = has_line entries line in if same_text line entry.line then true else rest

-- the history holds as many lines as it may
abbrev pub full : History → Bool
full this = not (length this.entries == 0) && length this.entries == this.stifle

-- the entries that stay when a line is added: all but an older copy of it, or the oldest one where
-- there is no such copy and the history is full
abbrev pub kept : History → Bytes → List Entry
kept this line =
    if has_line this.entries line
    then without this.entries line
    else if full this
    then drop 1 this.entries
    else this.entries

-- What `find_line` finds.
IsFound : List Entry → Bytes → Option ℕ → Type 0
IsFound entries line none = (has_line entries line ≡ false)
IsFound entries line (some i) =
    (has_line entries line ≡ true)
    × (i < length entries)
    × (take i entries ++ drop (suc i) entries ≡ without entries line)

IsFound-suc :
    (entry : Entry) (entries : List Entry) (line : Bytes) (o : Option ℕ)
    → same_text line entry.line ≡ false
    → IsFound entries line o
    → IsFound (entry ∷ entries) line (Option.map suc o)
unfolding IsFound has_line without
IsFound-suc entry entries line none e h = rw e h
IsFound-suc entry entries line (some i) e (h, lt, t) = rw e (h, omega (arith, lt), rw t)

find_line-IsFound :
    (entries : List Entry) (line : Bytes) → IsFound entries line (find_line entries line)
unfolding find_line
find_line-IsFound [] line = unfold IsFound in unfold has_line in refl
find_line-IsFound (entry ∷ entries) line = elim (Bool-cases (same_text line entry.line)) [
  | inl e ↦
      rw (e, find_line)
        (unfold IsFound in unfold has_line in unfold without in (rw e refl, omega arith, rw e refl))
  | inr e ↦ rw (e, find_line) (IsFound-suc entry entries line _ e (find_line-IsFound entries line))
]

pub plus_one : (n : ℕ) → n + 1 ≡ suc n
plus_one n = omega arith

out_of_bounds : (i j n : ℕ) → n ≤ j → (leb i j && ltb j n) ≡ false
out_of_bounds i j n h = ground (arith, h)

module _ (this : History) (start end : ℕ) where
  in_bounds :
      start ≤ end
      → end < length this.entries
      → (leb start end && ltb end (length this.entries)) ≡ true
  in_bounds le lt = ground (arith, le, lt)

  remove_entries_lem :
      start ≤ end
      → end < length this.entries
      → remove_entries this start end
        ≡ ok (record this { entries = take start this.entries ++ drop (suc end) this.entries })
  unfolding remove_entries
  remove_entries_lem le lt = rw (in_bounds le lt) (rw plus_one refl)

  -- Others make the assertion fail.
  pub delete_entries_abort : length this.entries ≤ end → delete_entries this start end ≡ abort
  unfolding free_entries
  delete_entries_abort h = rw (out_of_bounds start end (length this.entries) h) refl

  -- Entries inside the array can be deleted.
  pub delete_entries_lem :
      start ≤ end
      → end < length this.entries
      → delete_entries this start end
        ≡ ok (record this { entries = take start this.entries ++ drop (suc end) this.entries })
  unfolding free_entries remove_entries
  delete_entries_lem le lt = rw (in_bounds le lt) (rw (in_bounds le lt) (rw plus_one refl))

pub without_absent :
    (entries : List Entry) (line : Bytes)
    → has_line entries line ≡ false
    → without entries line ≡ entries
unfolding without has_line
without_absent [] line h = refl
without_absent (entry ∷ entries) line h = elim (Bool-cases (same_text line entry.line)) [
  | inl e ↦ (let t : true ≡ false = rw e at h in cc)
  | inr e ↦ rw (e, without) (rw (without_absent entries line (rw e at h)))
]

pub length-without :
    (entries : List Entry) (line : Bytes)
    → (length (without entries line) ≤ length entries)
      × (has_line entries line ≡ true → suc (length (without entries line)) ≡ length entries)
unfolding without has_line
length-without [] line = (omega arith, λ h. cc)
length-without (entry ∷ entries) line = elim (Bool-cases (same_text line entry.line)) [
  | inl e ↦ rw (e, without, has_line) (omega arith, λ h. refl)
  | inr e ↦
      let (le, eq) = length-without entries line in
      rw (e, without, has_line) (omega (arith, le), λ h. ap suc (eq h))
]

module _ (this : History) (line : Bytes) where
  removed_as :
      (o : Option ℕ)
      → find_line this.entries line ≡ o
      → IsFound this.entries line o
      → remove_duplicate this line
        ≡ ok (has_line this.entries line, record this { entries = without this.entries line })
  unfolding remove_duplicate IsFound
  removed_as none e f =
      rw (e, remove_duplicate, f)
        (λ i. ok (false, record this { entries = sym (without_absent this.entries line f) i }))
  removed_as (some i) e (h, lt, t) =
      rw (e, remove_duplicate, h) (rw (delete_entries_lem this i i (omega arith) lt) (rw t refl))

  remove_duplicate-without :
      remove_duplicate this line
      ≡ ok (has_line this.entries line, record this { entries = without this.entries line })
  remove_duplicate-without =
      removed_as (find_line this.entries line) refl (find_line-IsFound this.entries line)

append_entry_room :
    (this : History) (line : Bytes)
    → length this.entries < this.size
    → append_entry this line ≡ record this {
      entries = this.entries ++ ((record { line = line; index = this.current_index }) ∷ []);
      current_index = (this.current_index + 1) % 2 ^ 32;
    }
unfolding append_entry
append_entry_room this line lt = elim (Bool-cases (ltb (length this.entries) this.size)) [
  | inl e ↦ rw e refl
  | inr e ↦ ground (arith, e, lt)
]

-- the slots behind the addition of a line
abbrev pub grown : History → ℕ
grown this =
    if full this
    then this.size
    else if this.size == length this.entries
    then this.size + 10
    else this.size

-- the history with a new line
abbrev pub added : History → Bytes → History
added this line = record this {
  entries = kept this line ++ ((record { line = line; index = this.current_index }) ∷ []);
  size = grown this;
  current_index = (this.current_index + 1) % 2 ^ 32;
}

grow_as :
    (this : History)
    → grow this ≡ record this {
      size = if this.size == length this.entries then this.size + 10 else this.size;
    }
unfolding grow
grow_as this = elim (Bool-cases (this.size == length this.entries)) [
  | inl e ↦ rw e refl
  | inr e ↦ rw e refl
]

module _ (this : History) (line : Bytes) where
  kept_not_full : full this ≡ false → kept this line ≡ without this.entries line
  kept_not_full f = elim (Bool-cases (has_line this.entries line)) [
    | inl e ↦ rw e refl
    | inr e ↦ rw (e, f) (sym (without_absent this.entries line e))
  ]

module _ (this : History) (line : Bytes) (fits : length this.entries ≤ this.size) where
  more_slots :
      length (without this.entries line)
      < (if this.size == length this.entries then this.size + 10 else this.size)
  more_slots = let (le, eq) = length-without this.entries line in ground (arith, fits, le)

  not_empty : full this ≡ true → 0 < length this.entries
  not_empty f = ground (arith, f)

  fewer : 0 < length this.entries → length (drop 1 this.entries) < this.size
  fewer lt = rw length-drop (omega (arith, fits, lt))

  add_n_grow-added : full this ≡ false → add_n_grow this line ≡ ok (added this line)
  unfolding add_n_grow
  add_n_grow-added f = rw grow_as (
      rw remove_duplicate-without (
        rw
          (append_entry_room
            (record this {
              entries = without this.entries line;
              size = if this.size == length this.entries then this.size + 10 else this.size;
            })
            line more_slots)
          (rw (kept_not_full this line f, f) refl)))

  add_n_replace-added : full this ≡ true → add_n_replace this line ≡ ok (added this line)
  unfolding add_n_replace make_room
  add_n_replace-added f =
      rw remove_duplicate-without (elim (Bool-cases (has_line this.entries line)) [
        | inl e ↦
            rw (e, make_room)
              (rw
                (append_entry_room (record this { entries = without this.entries line }) line
                  (omega (arith, fits, (length-without this.entries line).1 e)))
                (rw f refl))
        | inr e ↦
            rw (e, make_room)
              (rw (without_absent this.entries line e) (
                rw (delete_entries_lem this 0 0 (omega arith) (not_empty f)) (
                  rw
                    (append_entry_room (record this { entries = drop 1 this.entries }) line
                      (fewer (not_empty f)))
                    (rw f refl))))
      ])

  add-full : full this ≡ true → add this line ≡ add_n_replace this line
  unfolding add
  add-full f = rw f refl

  add_not_full : full this ≡ false → add this line ≡ add_n_grow this line
  unfolding add
  add_not_full f = rw f refl

  -- If the entries fit into the slots of the array, then the addition of a line does not fail. The line
  -- is the last entry then, in front of it are the entries that were kept, and the array has grown if
  -- it was full.
  pub add-added : add this line ≡ ok (added this line)
  add-added = elim (Bool-cases (full this)) [
    | inl f ↦ add-full f ∙ add_n_replace-added f
    | inr f ↦ add_not_full f ∙ add_n_grow-added f
  ]
