-- ===== src/Tinyrl/History/Lookup.antt =====
-- Finding an entry by its index.
use ucli.Base.{
  ℕ, zero, suc, ◌<◌, true, false, List, [], ◌∷◌, some, All, ◌==◌, get_elem?, ◌≡◌, ap, arith,
}
use ucli.Tinyrl.History.{Entry, History, find_index, get}
use ucli.Tinyrl.History.Valid.{Pairwise, IsOlder, IsHistory}

some_inj : {a b : Entry} → some a ≡ some b → a ≡ b
some_inj e = cc

All-get_elem? :
    (index : ℕ) (entries : List Entry) (i : ℕ) (found : Entry)
    → All (λ e. index < e.index) entries
    → get_elem? entries i ≡ some found
    → index < found.index
All-get_elem? index [] i found h g = cc
All-get_elem? index (e ∷ entries) zero found (h, hs) g =
    let same = ap (λ x. x.index) (some_inj g) in omega (arith, h, same)
All-get_elem? index (e ∷ entries) (suc i) found (h, hs) g = All-get_elem? index entries i found hs g

later :
    (x : Entry) (entries : List Entry)
    → All (IsOlder x) entries
    → All (λ e. x.index < e.index) entries
later x [] h = tt
later x (e ∷ entries) ((_, lt), h) = (lt, later x entries h)

find_index-get_elem? :
    (entries : List Entry) (i : ℕ) (found : Entry)
    → Pairwise IsOlder entries
    → get_elem? entries i ≡ some found
    → find_index entries found.index ≡ some found
unfolding find_index
find_index-get_elem? [] i found h g = cc
find_index-get_elem? (e ∷ entries) zero found h g =
    let same = ap (λ x. x.index) (some_inj g) in
    let here : (found.index == e.index) ≡ true = ground (arith, same) in rw here g
find_index-get_elem? (e ∷ entries) (suc i) found (h, hs) g =
    let behind = All-get_elem? e.index entries i found (later e entries h) g in
    let elsewhere : (found.index == e.index) ≡ false = ground (arith, behind) in
    rw elsewhere (find_index-get_elem? entries i found hs g)

-- In a history that keeps its entries in order, tinyrl_history_get finds each entry by its index.
pub get-get_elem? :
    (this : History) (i : ℕ) (found : Entry)
    → IsHistory this
    → get_elem? this.entries i ≡ some found
    → get this found.index ≡ some found
unfolding get
get-get_elem? this i found (_, _, older, _) g = find_index-get_elem? this.entries i found older g
