-- ===== src/Cli/Shell/Execute/Listing.antt =====
-- libucli/shell/shell_execute.c: what the builtin `ucli_history` prints, and what it does to the history.
use ucli.Base.{
  ℕ, zero, suc, ◌+◌, ◌-◌, ◌≤◌, ◌<◌, ◌^◌, true, false, List, [], ◌∷◌, none, some, ◌==◌, ltb,
  if◌then◌else◌, Bool-cases, inl, inr, length, drop, get_elem?, length-drop, ◌≡◌, refl, sym, ap,
  ◌∙◌, arith,
}
use Prim.Native.Nat.add
use ucli.Base.Run.{ok}
use ucli.Lub.Ctype.{Bytes}
use ucli.Lub.Argv.{Argv, get_arg}
use ucli.Tinyrl.History.{History, Entry, getfirst, getnext, last_offset, stifle, unstifle}
use ucli.Tinyrl.History.Reach.{stifle-limited}
use ucli.Cli.Shell.{Shell, Output, entry_line}
use ucli.Cli.Shell.Execute.{System, print, print_entries, print_history, set_limit, ucli_history}

-- the lines for the entries, on top of what has been printed
abbrev pub listed : List Entry → List Output → List Output
listed [] output = output
listed (entry ∷ entries) output = listed entries (entry_line entry.index entry.line ∷ output)

module _ {ℓ} {A : Type ℓ} where
  drop_next :
      (i : ℕ) (xs : List A) (x : A) (rest : List A)
      → drop i xs ≡ x ∷ rest
      → (get_elem? xs i ≡ some x) × (drop (i + 1) xs ≡ rest)
  drop_next zero [] x rest h = cc
  drop_next zero (y ∷ xs) x rest h = (cc, cc)
  drop_next (suc i) [] x rest h = cc
  drop_next (suc i) (y ∷ xs) x rest h = rw add.suc (drop_next i xs x rest h)

last_offset_lem :
    (history : History)
    → 1 ≤ length history.entries
    → length history.entries < 2 ^ 32
    → suc (last_offset history) ≡ length history.entries
last_offset_lem history h b = omega (arith, h, b)

getnext-end :
    (history : History) (offset : ℕ)
    → suc offset ≡ length history.entries
    → length history.entries < 2 ^ 32
    → getnext history offset ≡ (none, offset)
unfolding getnext
getnext-end history offset e b =
    let l = last_offset_lem history (omega (arith, e)) b in
    let no_more : ltb offset (last_offset history) ≡ false = ground (arith, e, l) in rw no_more refl

getnext-more :
    (history : History) (offset : ℕ) (entry : Entry)
    → suc offset < length history.entries
    → length history.entries < 2 ^ 32
    → get_elem? history.entries (offset + 1) ≡ some entry
    → getnext history offset ≡ (some entry, offset + 1)
unfolding getnext
getnext-more history offset entry e b g =
    let l = last_offset_lem history (omega (arith, e)) b in
    let more : ltb offset (last_offset history) ≡ true = ground (arith, e, l) in rw more (rw g refl)

print_entries-listed :
    (history : History) (offset : ℕ) (entry : Entry) (rest : List Entry) (this : Shell)
    → length history.entries < 2 ^ 32
    → drop offset history.entries ≡ entry ∷ rest
    → print_entries (suc (length rest)) history offset (some entry) this
      ≡ ok (record this { output = listed (entry ∷ rest) this.output })
unfolding print_entries
print_entries-listed history offset entry [] this b h =
    let left : length (drop offset history.entries) ≡ 1 = ap length h in
    let here : suc offset ≡ length history.entries =
      omega (arith, length-drop offset history.entries, left) in
    ap (λ p. print_entries 0 history p.1 p.0 (print this (entry_line entry.index entry.line)))
      (getnext-end history offset here b)
print_entries-listed history offset entry (entry' ∷ rest) this b h =
    let left : length (drop offset history.entries) ≡ suc (suc (length rest)) = ap length h in
    let here : suc offset < length history.entries =
      omega (arith, length-drop offset history.entries, left) in
    let next = (drop_next offset history.entries entry (entry' ∷ rest) h).1 in
    let got = (drop_next (offset + 1) history.entries entry' rest next).0 in
    let printed = print this (entry_line entry.index entry.line) in
    ap (λ p. print_entries (suc (length rest)) history p.1 p.0 printed)
      (getnext-more history offset entry' here b got)
    ∙ print_entries-listed history (offset + 1) entry' rest printed b next

print_history-listed :
    (history : History) (entries : List Entry) (this : Shell)
    → length entries < 2 ^ 32
    → print_history (record history { entries = entries }) this
      ≡ ok (record this { output = listed entries this.output })
unfolding print_history getfirst
print_history-listed history [] this b = refl
print_history-listed history (entry ∷ rest) this b =
    let all = record history { entries = entry ∷ rest } in
    let some_left : (suc (length rest) == 0) ≡ false = ground arith in
    ap (λ b. print_entries (suc (length rest)) all 0 (if b then none else some entry) this)
      some_left
    ∙ print_entries-listed all 0 entry rest this b refl

-- a history with its newest entries
abbrev kept : History → ℕ → History
kept history limit = record history {
  entries = drop (length history.entries - limit) history.entries;
  stifle = limit;
}

stifle_some :
    (history : History) (limit : ℕ)
    → (limit == 0) ≡ false
    → stifle history limit ≡ ok (kept history limit)
stifle_some history limit e = stifle-limited history limit ∙ rw e refl

-- the history that `set_limit` leaves for an argument that is there: without a limit for zero, and else
-- with the entries beyond the limit, the oldest ones, taken away
pub limited_to : History → ℕ → History
limited_to history limit = if limit == 0 then record history { stifle = 0 } else kept history limit

length-limited_to :
    (history : History) (limit : ℕ)
    → length (limited_to history limit).entries ≤ length history.entries
unfolding limited_to
length-limited_to history limit = elim (Bool-cases (limit == 0)) [
  | inl e ↦ rw (e, limited_to) (omega arith)
  | inr e ↦
      rw (e, limited_to)
        (omega (arith, length-drop (length history.entries - limit) history.entries))
]

module _ (system : System) where
  set_limit-limited_to :
      (history : History) (c : ℕ) (arg : Bytes)
      → set_limit system history (some (c ∷ arg)) ≡ ok (limited_to history (system.atoi (c ∷ arg)))
  unfolding set_limit limited_to unstifle
  set_limit-limited_to history c arg =
      let limit = system.atoi (c ∷ arg) in
      elim (Bool-cases (limit == 0)) [
        | inl e ↦ rw (e, set_limit, limited_to) refl
        | inr e ↦
            ap (λ b. if b then ok (unstifle history).1 else stifle history limit) e
            ∙ stifle_some history limit e
            ∙ ap (λ b. ok (if b then record history { stifle = 0 } else kept history limit)) (sym e)
      ]

  -- The builtin `ucli_history` with an argument that is not empty does not fail: it removes the limit of
  -- the history if the argument reads as zero, and else sets it to the number that it reads as, which
  -- takes away the oldest entries that are too many; then it prints the entries that are left, the
  -- oldest one first.
  pub ucli_history-listed :
      (this : Shell) (argv : Argv) (c : ℕ) (arg : Bytes)
      → get_arg argv 0 ≡ some (c ∷ arg)
      → length this.history.entries < 2 ^ 32
      → ucli_history system this (some argv)
        ≡ ok (
          true,
          record this {
            history = limited_to this.history (system.atoi (c ∷ arg));
            output = listed (limited_to this.history (system.atoi (c ∷ arg))).entries this.output;
          },
        )
  unfolding ucli_history
  ucli_history-listed this argv c arg e b =
      let history = limited_to this.history (system.atoi (c ∷ arg)) in
      let here = record this { history = history } in
      let small : length history.entries < 2 ^ 32 =
        omega (arith, b, length-limited_to this.history (system.atoi (c ∷ arg))) in
      let printed = print_history-listed history history.entries here small in
      rw (e, set_limit-limited_to this.history c arg) (rw printed refl)
