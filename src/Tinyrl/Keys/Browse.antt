-- ===== src/Tinyrl/Keys/Browse.antt =====
-- Going through the history with the keys for up and down.
use ucli.Base.{
  ℕ, zero, suc, ◌+◌, ◌-◌, ◌^◌, ◌<◌, Bool, true, false, List, [], ◌∷◌, Option, none, some, ltb, ◌==◌,
  Bool-cases, inl, inr, length, get_elem?, ◌≡◌, refl, sym, ◌∙◌, ap, arith,
}
use ucli.Base.Run.{Run, ok, abort}
use ucli.Lub.Ctype.{Bytes}
use ucli.Tinyrl.History.{Entry, History, getlast, getprevious, getnext, last_offset}
use ucli.Tinyrl.Memory.{cstring}
use ucli.Tinyrl.Memory.Held.{cstring-Holds}
use ucli.Tinyrl.Editor.{Line, buffer, entry, Tinyrl}
use ucli.Tinyrl.Editor.Shows.{IsBuffer}
use ucli.Tinyrl.Keys.{run_up, run_down, show_previous, show_next, previous_entry, next_entry}

-- The editor shows entry `i` of its history, behind whose last entry the buffer stands.
pub data StandsAt (this : Tinyrl) (i : ℕ) : Type 0 where
  at_buffer : this.line ≡ buffer → length this.history.entries ≡ i → StandsAt this i
  at_entry :
      (found : Entry)
      → get_elem? this.history.entries i ≡ some found
      → this.line ≡ entry found.line
      → this.hist_iter ≡ i
      → StandsAt this i

-- What browsing keeps.
abbrev pub IsSame : Tinyrl → Tinyrl → Type 0
IsSame this next =
    (next.history ≡ this.history)
    × (next.memory ≡ this.memory)
    × (next.buffer_size ≡ this.buffer_size)

get_below :
    (entries : List Entry) (i : ℕ)
    → i < length entries
    → (found : Entry) × (get_elem? entries i ≡ some found)
get_below [] i h = ground (arith, h)
get_below (e ∷ entries) zero h = (e, refl)
get_below (e ∷ entries) (suc i) h = get_below entries i (omega (arith, h))

pub below_get :
    (entries : List Entry) (i : ℕ) (found : Entry)
    → get_elem? entries i ≡ some found
    → i < length entries
below_get [] i found e = cc
below_get (e ∷ entries) zero found k = omega arith
below_get (e ∷ entries) (suc i) found k = let lt = below_get entries i found k in omega (arith, lt)

stands_below : (this : Tinyrl) (i : ℕ) → StandsAt this (suc i) → i < length this.history.entries
stands_below this i (at_buffer own e) = omega (arith, e)
stands_below this i (at_entry found g shown k) =
    let lt = below_get this.history.entries (suc i) found g in omega (arith, lt)

-- the entry in front of offset `suc i`
previous_lem :
    (history : History) (i : ℕ) (found : Entry)
    → get_elem? history.entries i ≡ some found
    → getprevious history (suc i) ≡ (some found, i)
unfolding getprevious
previous_lem history i found e =
    let more : (suc i == 0) ≡ false = ground arith in
    let before : suc i - 1 ≡ i = omega arith in rw more (rw before (rw e refl))

previous_at :
    (this : Tinyrl) (i : ℕ) (found : Entry) (line : Line)
    → StandsAt this (suc i)
    → this.line ≡ line
    → get_elem? this.history.entries i ≡ some found
    → previous_entry line this ≡ (some found, i)
unfolding getlast
previous_at this i found buffer (at_buffer own e) q g =
    ap (getprevious this.history) e ∙ previous_lem this.history i found g
previous_at this i found buffer (at_entry there h shown k) q g = let same = sym q ∙ shown in cc
previous_at this i found (entry t) (at_buffer own e) q g = let same = sym q ∙ own in cc
previous_at this i found (entry t) (at_entry there h shown k) q g =
    ap (getprevious this.history) k ∙ previous_lem this.history i found g

shown_entry :
    (this : Tinyrl) (i : ℕ) (found : Entry) (r : Option Entry × ℕ)
    → get_elem? this.history.entries i ≡ some found
    → r ≡ (some found, i)
    → ((show_previous this r).0 ≡ true)
      × StandsAt (show_previous this r).1 i
      × IsSame this (show_previous this r).1
shown_entry this i found r g e = rw e (refl, at_entry found g refl refl, (refl, refl, refl))

-- The key for up shows the entry before the one that is shown, or the newest entry in place of the
-- buffer, and leaves the buffer and the history as they are.
pub run_up-StandsAt :
    (this : Tinyrl) (i : ℕ)
    → StandsAt this (suc i)
    → ((run_up this).0 ≡ true) × StandsAt (run_up this).1 i × IsSame this (run_up this).1
unfolding run_up
run_up-StandsAt this i s =
    let (found, g) = get_below this.history.entries i (stands_below this i s) in
    shown_entry this i found (previous_entry this.line this) g
      (previous_at this i found this.line s refl g)

-- The outcome of the key for down at entry `i`.
abbrev pub GoesDown : Tinyrl → ℕ → Run (Bool × Tinyrl) → Type 0
GoesDown this i abort = ⊥
GoesDown this i (ok (result, next)) =
    (result ≡ true) × StandsAt next (suc i) × IsSame this next × (next.point ≡ next.end)

next_lem :
    (history : History) (i : ℕ) (found : Entry)
    → get_elem? history.entries (suc i) ≡ some found
    → suc i < length history.entries
    → length history.entries < 2 ^ 32
    → getnext history i ≡ (some found, suc i)
unfolding getnext
next_lem history i found g below small =
    let more : ltb i (last_offset history) ≡ true = ground (arith, below, small) in
    let later : i + 1 ≡ suc i = omega arith in rw more (rw later (rw g refl))

last_lem :
    (history : History) (i : ℕ)
    → suc i ≡ length history.entries
    → length history.entries < 2 ^ 32
    → getnext history i ≡ (none, i)
unfolding getnext
last_lem history i e small =
    let last : ltb i (last_offset history) ≡ false = ground (arith, e, small) in rw last refl

down_entry :
    (this : Tinyrl) (i : ℕ) (found : Entry) (r : Option Entry × ℕ)
    → get_elem? this.history.entries (suc i) ≡ some found
    → r ≡ (some found, suc i)
    → GoesDown this i (show_next this r)
down_entry this i found r g e = rw e (refl, at_entry found g refl refl, (refl, refl, refl), refl)

down_buffer :
    (this : Tinyrl) (i : ℕ) (t : Bytes) (r : Option Entry × ℕ)
    → IsBuffer this.memory this.buffer_size t
    → suc i ≡ length this.history.entries
    → r ≡ (none, i)
    → GoesDown this i (show_next this r)
down_buffer this i t r (h, z, x, fits) last e =
    let read : cstring this.memory (suc this.buffer_size) 0 ≡ ok t =
      cstring-Holds this.memory (suc this.buffer_size) 0 t x h (ap this.memory (omega arith) ∙ z)
        (omega (arith, fits)) in
    rw e (rw read (refl, at_buffer refl (sym last), (refl, refl, refl), refl))

down_from :
    (this : Tinyrl) (i : ℕ) (t : Bytes) (line : Line)
    → this.line ≡ line
    → StandsAt this i
    → IsBuffer this.memory this.buffer_size t
    → i < length this.history.entries
    → length this.history.entries < 2 ^ 32
    → GoesDown this i (next_entry line this)
down_from this i t line q (at_buffer own e) b below small =
    let none_below : ⊥ = omega (arith, e, below) in absurd none_below
down_from this i t buffer q (at_entry here g shown k) b below small = let same = sym q ∙ shown in cc
down_from this i t (entry s) q (at_entry here g shown k) b below small =
    elim (Bool-cases (ltb (suc i) (length this.history.entries))) [
      | inl more ↦
          let (found, g') = get_below this.history.entries (suc i) (ground (arith, more)) in
          down_entry this i found (getnext this.history this.hist_iter) g' (
            ap (getnext this.history) k
            ∙ next_lem this.history i found g' (ground (arith, more)) small)
      | inr last ↦
          let end : suc i ≡ length this.history.entries = ground (arith, last, below) in
          down_buffer this i t (getnext this.history this.hist_iter) b end
            (ap (getnext this.history) k ∙ last_lem this.history i end small)
    ]

-- The key for down shows the entry behind the one that is shown, or the buffer behind the newest, with
-- the point at its end, and leaves the buffer and the history as they are.
pub run_down-StandsAt :
    (this : Tinyrl) (i : ℕ) (t : Bytes)
    → StandsAt this i
    → IsBuffer this.memory this.buffer_size t
    → i < length this.history.entries
    → length this.history.entries < 2 ^ 32
    → GoesDown this i (run_down this)
unfolding run_down
run_down-StandsAt this i t s b below small = down_from this i t this.line refl s b below small
