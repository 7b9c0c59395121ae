-- ===== src/Chain/Tests.antt =====
-- The theorems on the lists of pa1/linkedListStr.c at two nodes.
use systemprogramminglab.Prelude.{ℕ, ◌≡◌, refl, none, some, List, [], ◌∷◌, arith, All, pos}
use systemprogramminglab.Chain.{
  Item, Chain, write, insert_at_next, insert_at_before, delete_node, delete_all_node,
}
use systemprogramminglab.Chain.Links.{Cell, IsFree, Holds}
use systemprogramminglab.Chain.Insert.{lone}
use systemprogramminglab.Chain.Middle.{insert_at_next_lem}
use systemprogramminglab.Chain.Before.{insert_at_before_lem}
use systemprogramminglab.Chain.Delete.{delete_node_lem, delete_all_node_lem}

abbrev one : Item
one = record { line_num = 1; content = b'a' ∷ [] }

abbrev two : Item
two = record { line_num = 2; content = b'b' ∷ b'c' ∷ [] }

abbrev new : Item
new = record { line_num = 3; content = [] }

-- Nodes at the addresses 10 and 20, and one at 30 that is not in the list.
abbrev pair : Chain Item
pair = record {
  heap =
      write
        (write (write (λ a. none) 10 (some (record { item = one; next = some 20; prev = none }))) 20
          (some (record { item = two; next = none; prev = some 10 })))
        30 (some (lone new));
  num = pos 2;
  head = some 10;
  tail = some 20;
}

abbrev cells : List (Cell Item)
cells = (10, one) ∷ (20, two) ∷ []

pair-Holds : Holds pair cells
unfolding write
pair-Holds = record {
  linked = (refl, (refl, tt));
  distinct = ground arith;
  at_head = refl;
  at_tail = refl;
  counted = refl;
}

unlinked : pair.heap 30 ≡ some (lone new)
unfolding write
unlinked = refl

new_apart : IsFree 30 cells
new_apart = ground arith

insert_at_next_lem_example :
    (t : Chain Item) × (insert_at_next pair 10 30 ≡ some t)
    × Holds t ((10, one) ∷ (30, new) ∷ (20, two) ∷ [])
insert_at_next_lem_example =
    insert_at_next_lem pair 10 30 one new unlinked [] [] 20 two pair-Holds new_apart

insert_at_before_lem_example :
    (t : Chain Item) × (insert_at_before pair 20 30 ≡ some t)
    × Holds t ((10, one) ∷ (30, new) ∷ (20, two) ∷ [])
insert_at_before_lem_example =
    insert_at_before_lem pair 20 30 two new unlinked [] [] 10 one pair-Holds new_apart

delete_node_lem_example :
    (t : Chain Item) × (delete_node pair 20 ≡ some t)
    × Holds t ((10, one) ∷ [])
    × (t.heap 20 ≡ none)
    × ((b : ℕ) → IsFree b cells → t.heap b ≡ pair.heap b)
delete_node_lem_example = delete_node_lem pair ((10, one) ∷ []) 20 two [] pair-Holds

delete_all_node_lem_example :
    (t : Chain Item) × (delete_all_node 3 pair ≡ some t)
    × Holds t []
    × All (λ x. t.heap x.0 ≡ none) cells
    × ((b : ℕ) → IsFree b cells → t.heap b ≡ pair.heap b)
delete_all_node_lem_example = delete_all_node_lem cells pair 3 pair-Holds (omega arith)
