-- ===== src/Tinyrl/Keys/Return.antt =====
-- Going back through the history and forth again.
use ucli.Base.{ℕ, zero, suc, ◌+◌, ◌-◌, ◌^◌, ◌≤◌, ◌<◌, Bool, length, ◌≡◌, refl, sym, ◌∙◌, ap, arith}
use mathlib.Core.Path.{subst}
use ucli.Base.Run.{Run, ok, abort, ◌>>=◌}
use ucli.Lub.Ctype.{Bytes}
use ucli.Tinyrl.Editor.{buffer, Tinyrl}
use ucli.Tinyrl.Editor.Shows.{IsBuffer}
use ucli.Tinyrl.Keys.{run_up, run_down}
use ucli.Tinyrl.Keys.Browse.{
  StandsAt, at_buffer, at_entry, IsSame, GoesDown, below_get, run_up-StandsAt, run_down-StandsAt,
}

-- The keys for up and down, pressed several times.
abbrev pub ups : ℕ → Tinyrl → Tinyrl
ups zero this = this
ups (suc n) this = ups n (run_up this).1

abbrev pub downs : ℕ → Tinyrl → Run Tinyrl
downs zero this = ok this
downs (suc n) this = do step ← run_down this; downs n step.1

IsSame-trans : (a b c : Tinyrl) → IsSame a b → IsSame b c → IsSame a c
IsSame-trans a b c (h, m, s) (h', m', s') = (h' ∙ h, m' ∙ m, s' ∙ s)

ups-StandsAt :
    (n : ℕ) (this : Tinyrl) (i : ℕ)
    → StandsAt this (n + i)
    → StandsAt (ups n this) i × IsSame this (ups n this)
ups-StandsAt zero this i s = (subst (StandsAt this) (omega arith) s, (refl, refl, refl))
ups-StandsAt (suc n) this i s =
    let (_, up, same) = run_up-StandsAt this (n + i) (subst (StandsAt this) (omega arith) s) in
    let (up', same') = ups-StandsAt n (run_up this).1 i up in
    (up', IsSame-trans this (run_up this).1 (ups n (run_up this).1) same same')

-- An editor that still has its history and its buffer, at entry `i`.
abbrev pub Stays : Tinyrl → ℕ → Run Tinyrl → Type 0
Stays this i abort = ⊥
Stays this i (ok next) = StandsAt next i × IsSame this next

after_down :
    (this : Tinyrl) (i j n : ℕ) (r : Run (Bool × Tinyrl))
    → GoesDown this i r
    → ((next : Tinyrl) → StandsAt next (suc i) → IsSame this next → Stays this j (downs n next))
    → Stays this j (r >>= λ step. downs n step.1)
after_down this i j n abort h k = absurd h
after_down this i j n (ok (result, next)) (_, s, same, _) k = k next s same

Stays-trans :
    (this that : Tinyrl) (i : ℕ) (r : Run Tinyrl)
    → IsSame this that
    → Stays that i r
    → Stays this i r
Stays-trans this that i abort same h = h
Stays-trans this that i (ok next) same (s, same') = (s, IsSame-trans this that next same same')

IsSame-IsBuffer :
    (this next : Tinyrl) (t : Bytes)
    → IsSame this next
    → IsBuffer this.memory this.buffer_size t
    → IsBuffer next.memory next.buffer_size t
IsSame-IsBuffer this next t (h, m, k) b =
    subst (λ q. IsBuffer next.memory q t) (sym k)
      (subst (λ q. IsBuffer q this.buffer_size t) (sym m) b)

downs-Stays :
    (n : ℕ) (this : Tinyrl) (i : ℕ) (t : Bytes)
    → StandsAt this i
    → IsBuffer this.memory this.buffer_size t
    → n + i ≤ length this.history.entries
    → length this.history.entries < 2 ^ 32
    → Stays this (n + i) (downs n this)
downs-Stays zero this i t s b fits small =
    (subst (StandsAt this) (omega arith) s, (refl, refl, refl))
downs-Stays (suc n) this i t s b fits small =
    after_down this i (suc n + i) n (run_down this)
      (run_down-StandsAt this i t s b (omega (arith, fits)) small)
      (λ next s' same.
        let size : length next.history.entries ≡ length this.history.entries =
          ap (λ h. length h.entries) same.0 in
        Stays-trans this next (suc n + i) (downs n next) same (
          subst (λ j. Stays next j (downs n next)) (omega arith)
            (downs-Stays n next (suc i) t s' (IsSame-IsBuffer this next t same b)
              (omega (arith, fits, size)) (omega (arith, small, size)))))

-- The editor shows its buffer again, which holds what it held.
abbrev pub IsBack : Tinyrl → Bytes → Run Tinyrl → Type 0
IsBack this t abort = ⊥
IsBack this t (ok next) =
    (next.line ≡ buffer) × IsBuffer next.memory next.buffer_size t × (next.history ≡ this.history)

Stays-IsBack :
    (this : Tinyrl) (t : Bytes) (r : Run Tinyrl)
    → IsBuffer this.memory this.buffer_size t
    → Stays this (length this.history.entries) r
    → IsBack this t r
Stays-IsBack this t abort b h = h
Stays-IsBack this t (ok next) b (at_buffer own e, same) =
    (own, IsSame-IsBuffer this next t same b, same.0)
Stays-IsBack this t (ok next) b (at_entry found g shown k, same) =
    let size : length next.history.entries ≡ length this.history.entries =
      ap (λ h. length h.entries) same.0 in
    let inside = below_get next.history.entries (length this.history.entries) found g in
    let outside : ⊥ = omega (arith, size, inside) in absurd outside

-- After the key for up and then the key for down, each pressed the same number of times, the editor shows
-- its buffer again, with the text that was in it.
pub ups-downs :
    (n : ℕ) (this : Tinyrl) (t : Bytes)
    → this.line ≡ buffer
    → IsBuffer this.memory this.buffer_size t
    → n ≤ length this.history.entries
    → length this.history.entries < 2 ^ 32
    → IsBack this t (downs n (ups n this))
ups-downs n this t own b fits small =
    let start = length this.history.entries - n in
    let (s, same) = ups-StandsAt n this start (at_buffer own (omega (arith, fits))) in
    let size : length (ups n this).history.entries ≡ length this.history.entries =
      ap (λ h. length h.entries) same.0 in
    let down =
      downs-Stays n (ups n this) start t s (IsSame-IsBuffer this (ups n this) t same b)
        (omega (arith, size, fits)) (omega (arith, size, small)) in
    Stays-IsBack this t (downs n (ups n this)) b (
      subst (λ j. Stays this j (downs n (ups n this))) (omega (arith, fits))
        (Stays-trans this (ups n this) (n + start) (downs n (ups n this)) same down))
