-- ===== src/Lub/Fifo.antt =====
-- contrib/lub/fifo/fifo.c: a queue of nodes that stand inside the client's structures. Memory is a
-- function from the address of a node to its `next`; a NULL pointer is none.
pub mod Queue
use ucli.Base.{ℕ, ◌+◌, ◌-◌, Bool, true, false, Option, none, some, ◌==◌, if◌then◌else◌}
use mathlib.Core.Option
use ucli.Base.Run.{Run, ok, abort, ◌>>=◌, deref}

pub record Fifo : Type 0 where
  pub head : Option ℕ
  pub tail : Option ℕ
  pub node_offset : ℕ
  pub next : ℕ → Option ℕ

-- memory with one `next` written
unfoldable pub set_next : (ℕ → Option ℕ) → ℕ → Option ℕ → ℕ → Option ℕ
set_next next node pointer other = if other == node then pointer else next other

abbrev pub getnode : Fifo → ℕ → ℕ
getnode self clientnode = clientnode + self.node_offset

abbrev pub getclientnode : Fifo → ℕ → ℕ
getclientnode self node = node - self.node_offset

unfoldable pub fifo_init : (ℕ → Option ℕ) → ℕ → Fifo
fifo_init next node_offset = record {
  head = none;
  tail = none;
  node_offset = node_offset;
  next = next;
}

-- a queue that is not empty fails
unfoldable fifo_fini : Fifo → Run Fifo
fifo_fini self = elim self.head [
  | some _ ↦ abort
  | none ↦ ok (record self { head = none; tail = none; node_offset = 0 })
]

unfoldable pub link : Fifo → ℕ → Option ℕ → Run Fifo
unfolding set_next
link self node none = ok (record self { head = some node; tail = some node })
link self node (some head) = do
  tail ← deref self.tail
  ok (record self { next = set_next self.next tail (some node); tail = some node })

unfoldable pub push : Fifo → ℕ → Run Fifo
unfolding link set_next
push self clientnode =
    let node = getnode self clientnode in
    let self' = record self { next = set_next self.next node none } in link self' node self.head

-- the rest of the queue once its head is taken
unfoldable pub unlink : Fifo → ℕ → Option ℕ → Fifo
unfolding set_next
unlink self node none = record self {
  head = none;
  tail = none;
  next = set_next self.next node none;
}
unlink self node (some head) = record self { head = some head; next = set_next self.next node none }

unfoldable pub taken : Fifo → Option ℕ → Option ℕ × Fifo
unfolding unlink
taken self none = (none, self)
taken self (some node) = (some (getclientnode self node), unlink self node (self.next node))

unfoldable pub pull : Fifo → Option ℕ × Fifo
unfolding taken
pull self = taken self self.head

unfoldable pub is_empty : Fifo → Bool
is_empty self = elim self.head [ none ↦ true | some _ ↦ false ]
