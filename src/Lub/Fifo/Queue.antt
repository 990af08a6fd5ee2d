-- ===== src/Lub/Fifo/Queue.antt =====
-- The queue of a fifo as a list of its nodes: a push puts one at the end, a pull takes the first.
use ucli.Base.{
  ℕ, true, false, List, [], ◌∷◌, ◌++◌, Option, none, some, All, All-append, ◌==◌, ◌≡◌, refl, sym,
  ap, ◌∙◌, arith,
}
use mathlib.Core.Path.{subst}
use ucli.Base.Run.{ok, ◌>>=◌, deref}
use ucli.Lub.Fifo.{Fifo, set_next, getnode, getclientnode, link, push, unlink, taken, pull}

-- From this pointer on, the nodes are these, one behind the other.
abbrev pub IsChain : (ℕ → Option ℕ) → Option ℕ → List ℕ → Type 0
IsChain next p [] = p ≡ none
IsChain next p (x ∷ xs) = (p ≡ some x) × IsChain next (next x) xs

abbrev pub last_of : ℕ → List ℕ → ℕ
last_of x [] = x
last_of x (y ∷ ys) = last_of y ys

abbrev pub EndsAt : Option ℕ → List ℕ → Type 0
EndsAt p [] = p ≡ none
EndsAt p (x ∷ xs) = p ≡ some (last_of x xs)

-- the node is none of these
abbrev pub IsFresh : ℕ → List ℕ → Type 0
IsFresh n xs = All (λ y. (y == n) ≡ false) xs

abbrev pub AreDistinct : List ℕ → Type 0
AreDistinct [] = Unit
AreDistinct (x ∷ xs) = IsFresh x xs × AreDistinct xs

pub record IsQueue (self : Fifo) (xs : List ℕ) : Type 0 where
  pub chain : IsChain self.next self.head xs
  pub ends : EndsAt self.tail xs
  pub distinct : AreDistinct xs

set_next-here : (next : ℕ → Option ℕ) (n : ℕ) (p : Option ℕ) → set_next next n p n ≡ p
unfolding set_next
set_next-here next n p = let here : (n == n) ≡ true = ground arith in rw here refl

set_next-other :
    (next : ℕ → Option ℕ) (n m : ℕ) (p : Option ℕ) → (m == n) ≡ false → set_next next n p m ≡ next m
unfolding set_next
set_next-other next n m p e = rw e refl

set_next-IsChain :
    (next : ℕ → Option ℕ) (n : ℕ) (v p : Option ℕ) (xs : List ℕ)
    → IsFresh n xs
    → IsChain next p xs
    → IsChain (set_next next n v) p xs
set_next-IsChain next n v p [] f c = c
set_next-IsChain next n v p (x ∷ xs) (e, f) (q, c) = (
  q,
  set_next-IsChain next n v (set_next next n v x) xs f
      (subst (λ r. IsChain next r xs) (sym (set_next-other next n x v e)) c),
)

last-All : (P : ℕ → Type 0) (x : ℕ) (xs : List ℕ) → All P (x ∷ xs) → P (last_of x xs)
last-All P x [] (h, a) = h
last-All P x (y ∷ ys) (h, a) = last-All P y ys a

append-IsChain :
    (next : ℕ → Option ℕ) (p : Option ℕ) (x : ℕ) (xs : List ℕ) (n : ℕ)
    → AreDistinct (x ∷ xs)
    → IsFresh n (x ∷ xs)
    → next n ≡ none
    → IsChain next p (x ∷ xs)
    → IsChain (set_next next (last_of x xs) (some n)) p (x ∷ (xs ++ (n ∷ [])))
append-IsChain next p x [] n d (f, _) e (q, c) =
    let other : (n == x) ≡ false = ground (arith, f) in
    (q, (set_next-here next x (some n), set_next-other next x n (some n) other ∙ e))
append-IsChain next p x (y ∷ ys) n (f, d) (_, g) e (q, c) =
    let t = last_of y ys in
    let apart : (t == x) ≡ false = last-All (λ z. (z == x) ≡ false) y ys f in
    let other : (x == t) ≡ false = ground (arith, apart) in
    let there = sym (set_next-other next t x (some n) other) in
    (
      q,
      append-IsChain next (set_next next t (some n) x) y ys n d g e
          (subst (λ r. IsChain next r (y ∷ ys)) there c),
    )

last_of-append : (x : ℕ) (xs : List ℕ) (n : ℕ) → last_of x (xs ++ (n ∷ [])) ≡ n
last_of-append x [] n = refl
last_of-append x (y ∷ ys) n = last_of-append y ys n

append-AreDistinct :
    (xs : List ℕ) (n : ℕ) → AreDistinct xs → IsFresh n xs → AreDistinct (xs ++ (n ∷ []))
append-AreDistinct [] n d f = (tt, tt)
append-AreDistinct (x ∷ xs) n (g, d) (e, f) =
    let other : (n == x) ≡ false = ground (arith, e) in
    (All-append (λ y. (y == x) ≡ false) xs (n ∷ []) g (other, tt), append-AreDistinct xs n d f)

-- `lub_fifo_push` does not fail, and puts a node that is not in the queue at its end.
pub push-IsQueue :
    (self : Fifo) (clientnode : ℕ) (xs : List ℕ)
    → IsQueue self xs
    → IsFresh (getnode self clientnode) xs
    → (self' : Fifo) × (push self clientnode ≡ ok self')
      × IsQueue self' (xs ++ (getnode self clientnode ∷ []))
unfolding push link
push-IsQueue self clientnode [] q f =
    let n = getnode self clientnode in
    let next = set_next self.next n none in
    let fresh = record self { next = next } in
    (
      record fresh { head = some n; tail = some n },
      ap (link fresh n) q.chain,
      record { chain = (refl, set_next-here self.next n none); ends = refl; distinct = (tt, tt) },
    )
push-IsQueue self clientnode (x ∷ xs) q f =
    let n = getnode self clientnode in
    let next = set_next self.next n none in
    let fresh = record self { next = next } in
    let t = last_of x xs in
    (
      record fresh { next = set_next next t (some n); tail = some n },
      ap (link fresh n) q.chain.0
          ∙ ap
              (λ p. deref p >>= λ (tail : ℕ).
                ok (record fresh { next = set_next next tail (some n); tail = some n }))
              q.ends,
      record {
        chain =
            append-IsChain next self.head x xs n q.distinct f (set_next-here self.next n none)
              (set_next-IsChain self.next n none self.head (x ∷ xs) f q.chain);
        ends = ap some (sym (last_of-append x xs n));
        distinct = append-AreDistinct (x ∷ xs) n q.distinct f;
      },
    )

unlink-IsQueue :
    (self : Fifo) (x : ℕ) (xs : List ℕ) (p : Option ℕ)
    → self.next x ≡ p
    → IsQueue self (x ∷ xs)
    → IsQueue (unlink self x p) xs
unfolding unlink
unlink-IsQueue self x [] none e q = record { chain = refl; ends = refl; distinct = tt }
unlink-IsQueue self x [] (some y) e q = let bad : some y ≡ none = sym e ∙ q.chain.1 in cc
unlink-IsQueue self x (y ∷ ys) none e q = let bad : none ≡ some y = sym e ∙ q.chain.1.0 in cc
unlink-IsQueue self x (y ∷ ys) (some z) e q = record {
  chain =
      set_next-IsChain self.next x none (some z) (y ∷ ys) q.distinct.0
        (subst (λ p. IsChain self.next p (y ∷ ys)) e q.chain.1);
  ends = q.ends;
  distinct = q.distinct.1;
}

-- `lub_fifo_pull` takes the first node out of a queue that is not empty, and gives the structure of the
-- client around it; the other nodes stay in their order.
pub pull-IsQueue :
    (self : Fifo) (x : ℕ) (xs : List ℕ)
    → IsQueue self (x ∷ xs)
    → ((pull self).0 ≡ some (getclientnode self x)) × IsQueue (pull self).1 xs
unfolding pull taken
pull-IsQueue self x xs q =
    let out : pull self ≡ (some (getclientnode self x), unlink self x (self.next x)) =
      ap (taken self) q.chain.0 in
    (
      ap (λ o. o.0) out,
      subst (λ (o : Option ℕ × Fifo). IsQueue o.1 xs) (sym out)
          (unlink-IsQueue self x xs (self.next x) refl q),
    )
