-- ===== src/Tests/Libraries.antt =====
-- Instances of what is proved of contrib/lub, on a tree of three commands' names and on a line.
use ucli.Base.Run.{ok}
use ucli.Base.{ℕ, Bool, ltb, some, none, true, false, List, [], ◌∷◌, length, All, ◌≡◌, refl, arith}
use ucli.Base.Int.{ℤ, sub_ℕ, neg, sign}
use ucli.Lub.Ctype.{Bytes, IsText, tolower, codes}
use ucli.Lub.Text.{nocasecmp, nocasestr}
use ucli.Lub.Text.Search.{FirstOccurrence, nocasestr-FirstOccurrence}
use ucli.Base.Run.{ok, ◌>>=◌}
use ucli.Lub.Fifo.{Fifo, set_next, getclientnode, fifo_init, push, pull}
use ucli.Lub.Fifo.Queue.{IsQueue, push-IsQueue, pull-IsQueue}
use ucli.Lub.Argv.{argv_new}
use ucli.Lub.Argv.Count.{length-argv_new}
use ucli.Lub.Argv.RoundTrip.{Item, IsItem, print_items, items_at, argv_new-print_items}
use ucli.Lub.Bintree.{Tree, leaf, node, to_list, find, findnext, insert, remove}
use ucli.Lub.Bintree.Walk.{IsWalkable, visit_all, visit_all-to_list}
use ucli.Lub.Bintree.Previous.{findprevious, findlast, previous_list, findprevious-previous_list}
use ucli.Lub.Bintree.Sorted.{IsKeyOrder}
use ucli.Lub.Bintree.Cut.{Cut}
use ucli.Lub.Bintree.Refine.{
  find_list, next_list, insert_list, delete_list, inserted, find-find_list, insert-insert_list,
}
use ucli.Lub.Bintree.Remove.{remove-delete_list}
use ucli.Lub.Bintree.Next.{findnext-next_list}
use mathlib.Core.Option

-- "show -l" and the rest in quotation marks
abbrev words : List Item
words =
    (record { quoted = false; text = codes "show" })
    ∷ (record { quoted = true; text = codes "a b" })
    ∷ (record { quoted = false; text = codes "-l" })
    ∷ []

words-IsItem : All IsItem words
unfolding ucli.Lub.Ctype.isspace
words-IsItem = ((refl, λ e n. cc), ((refl, λ e n. cc), ((refl, λ e n. cc), tt)))

argv_new-print_items_example :
    argv_new (print_items words) 4 ≡ record { argc = length words; argv = items_at 4 words }
argv_new-print_items_example = argv_new-print_items words 4 words-IsItem

length-argv_new_example :
    length (argv_new (codes "ab\"cd\" e") 0).argv ≡ (argv_new (codes "ab\"cd\" e") 0).argc
length-argv_new_example = length-argv_new (codes "ab\"cd\" e") 0

nocasestr-FirstOccurrence_example :
    FirstOccurrence
      (codes "No Shutdown")
      (codes "SHUT")
      (nocasestr (codes "No Shutdown") (codes "SHUT"))
nocasestr-FirstOccurrence_example = nocasestr-FirstOccurrence (codes "No Shutdown") (codes "SHUT")

-- a tree of numbers
abbrev tree : Tree ℕ
tree = node (node leaf 2 leaf) 4 (node leaf 6 (node leaf 9 leaf))

abbrev against : ℕ → ℕ → ℤ
against k n = sub_ℕ n k

tree-Cut : Cut (against 6) (to_list tree)
tree-Cut = ((λ n. absurd (n refl)), ((λ n. absurd (n refl)), ((λ n. (refl, tt)), ((λ n. tt), tt))))

find-find_list_example :
    ((find (against 6) tree).0 ≡ find_list (against 6) (to_list tree))
    × (to_list (find (against 6) tree).1 ≡ to_list tree)
find-find_list_example = find-find_list (against 6) tree tree-Cut

insert-insert_list_example :
    ((insert (against 6) 6 tree).0 ≡ inserted (find_list (against 6) (to_list tree)))
    × (to_list (insert (against 6) 6 tree).1 ≡ insert_list (against 6) 6 (to_list tree))
insert-insert_list_example = insert-insert_list (against 6) 6 tree tree-Cut

findnext-next_list_example :
    ((findnext (against 6) tree).0 ≡ next_list (against 6) (to_list tree))
    × (to_list (findnext (against 6) tree).1 ≡ to_list tree)
findnext-next_list_example = findnext-next_list (against 6) tree tree-Cut

remove-delete_list_example :
    Option.map to_list (remove (against 6) tree)
    ≡ Option.map
        (λ _. delete_list (against 6) (to_list tree))
        (find_list (against 6) (to_list tree))
remove-delete_list_example = remove-delete_list (against 6) tree tree-Cut

exit-IsText : IsText (codes "exit")
exit-IsText = ground arith

ping-IsText : IsText (codes "Ping")
ping-IsText = ground arith

show-IsText : IsText (codes "SHOW")
show-IsText = ground arith

other_ping-IsText : IsText (codes "pING")
other_ping-IsText = ground arith

exit_ping : sign (nocasecmp (codes "exit") (codes "Ping")) ≡ neg
unfolding nocasecmp tolower
exit_ping = refl

ping_show : sign (nocasecmp (codes "Ping") (codes "SHOW")) ≡ neg
unfolding nocasecmp tolower
ping_show = refl

abbrev compare : ℕ → ℕ → ℤ
compare n k = sub_ℕ n k

abbrev self : ℕ → ℕ
self n = n

AnyKey : ℕ → Type 0
AnyKey n = Unit

abbrev small_key : ℕ → Bool
small_key n = ltb n 200

number_order : IsKeyOrder compare self AnyKey
number_order = record { flips = λ x y. ground arith; trans = λ x y k vx vy vk lt le. ground arith }

numbers : IsWalkable compare self AnyKey number_order small_key (to_list tree)
unfolding AnyKey
numbers = ground arith

visit_all-to_list_example :
    visit_all compare self small_key (record { tree = leaf; key = 0 }) tree ≡ ok (to_list tree)
visit_all-to_list_example =
    visit_all-to_list compare self AnyKey number_order small_key (record { tree = leaf; key = 0 })
      tree numbers

findprevious-previous_list_example :
    ((findprevious (against 6) tree).0 ≡ previous_list (against 6) (to_list tree))
    × (to_list (findprevious (against 6) tree).1 ≡ to_list tree)
findprevious-previous_list_example = findprevious-previous_list (against 6) tree tree-Cut

last_node : (findlast tree).0 ≡ some 9
unfolding findlast
last_node = refl

-- a queue of the client's structures at 100 and 200, with the node 8 bytes behind each address
abbrev two_queued : Fifo
two_queued = record {
  head = some 108;
  tail = some 208;
  node_offset = 8;
  next = set_next (set_next (λ node. none) 208 none) 108 (some 208);
}

two_queued-IsQueue : IsQueue two_queued (108 ∷ 208 ∷ [])
unfolding set_next
two_queued-IsQueue = record {
  chain = (refl, (refl, refl));
  ends = refl;
  distinct = ((refl, tt), (tt, tt));
}

push-IsQueue_example :
    (self' : Fifo) × (push two_queued 300 ≡ ok self') × IsQueue self' (108 ∷ 208 ∷ 308 ∷ [])
push-IsQueue_example =
    push-IsQueue two_queued 300 (108 ∷ 208 ∷ []) two_queued-IsQueue (refl, (refl, tt))

pull-IsQueue_example :
    ((pull two_queued).0 ≡ some (getclientnode two_queued 108))
    × IsQueue (pull two_queued).1 (208 ∷ [])
pull-IsQueue_example = pull-IsQueue two_queued 108 (208 ∷ []) two_queued-IsQueue

queued : push (fifo_init (λ node. none) 8) 100 >>= (λ self. ok (pull self).0) ≡ ok (some 100)
unfolding push fifo_init pull set_next
queued = refl
