-- ===== src/Search/Index/Nodes.antt =====
-- pa1/linkedList.c: the list that the index of the lines of a file is kept in. Its operations are
-- those of pa1/linkedListStr.c, word for word, on another kind of node.
use systemprogramminglab.Prelude.{
  ℕ, ◌≤◌, ◌≡◌, refl, ◌∙◌, ap, subst, fun_ext, Option, none, some, List, [], ◌∷◌, ◌>>=◌, arith, All,
  length, pos,
}
use systemprogramminglab.Chain
use systemprogramminglab.Chain.{Heap, Chain, new_node, delete_all_node_idx}
use systemprogramminglab.Chain.Links.{AreDistinct, Holds}
use systemprogramminglab.Chain.Collected.{
  collect, walk, cells_at, items-cells_at, length-cells_at, empty_list, collected,
}
use systemprogramminglab.Chain.Release.{delete_all_node_idx_lem}
use systemprogramminglab.Search.Index.{Entry}

-- `a` is the address that `malloc` returns.
unfoldable pub create_node_idx : Heap Entry → ℕ → ℕ → ℕ → ℕ → Heap Entry
unfolding new_node
create_node_idx h a offset size line_num =
    new_node h a (record { offset = offset; size = size; line_num = line_num })

unfoldable pub insert_at_head_idx : Chain Entry → ℕ → Option (Chain Entry)
unfolding Chain.insert_at_head
insert_at_head_idx list node = Chain.insert_at_head list node

unfoldable pub insert_at_tail_idx : Chain Entry → ℕ → Option (Chain Entry)
unfolding Chain.insert_at_tail
insert_at_tail_idx list node = Chain.insert_at_tail list node

unfoldable pub insert_at_next_idx : Chain Entry → ℕ → ℕ → Option (Chain Entry)
unfolding Chain.insert_at_next
insert_at_next_idx list node to_insert = Chain.insert_at_next list node to_insert

unfoldable pub insert_at_before_idx : Chain Entry → ℕ → ℕ → Option (Chain Entry)
unfolding Chain.insert_at_before
insert_at_before_idx list node to_insert = Chain.insert_at_before list node to_insert

unfoldable pub delete_node_idx : Chain Entry → ℕ → Option (Chain Entry)
unfolding Chain.delete_node
delete_node_idx list node = Chain.delete_node list node

-- The calls of `insert_at_tail_idx` that `read_file` makes; `malloc` returns the addresses.
unfoldable pub insert_entries : Chain Entry → List ℕ → List Entry → Option (Chain Entry)
unfolding create_node_idx insert_at_tail_idx
insert_entries list addresses [] = some list
insert_entries list [] (x ∷ xs) = none
insert_entries list (a ∷ addresses) (x ∷ xs) = do
  list' ←
      insert_at_tail_idx
        (record list { heap = create_node_idx list.heap a x.offset x.size x.line_num }) a
  insert_entries list' addresses xs

insert_entries-collect :
    (list : Chain Entry) (addresses : List ℕ) (xs : List Entry)
    → length xs ≤ length addresses
    → insert_entries list addresses xs ≡ collect list (cells_at addresses xs)
unfolding insert_entries collect create_node_idx insert_at_tail_idx
insert_entries-collect list [] [] h = refl
insert_entries-collect list [] (x ∷ xs) h = absurd (omega arith)
insert_entries-collect list (a ∷ addresses) [] h = refl
insert_entries-collect list (a ∷ addresses) (x ∷ xs) h =
    ap
      (λ k.
        insert_at_tail_idx
          (record list { heap = create_node_idx list.heap a x.offset x.size x.line_num }) a
        >>= k)
      (fun_ext (λ l. insert_entries-collect l addresses xs (omega arith)))

-- The list of these entries, in new nodes at addresses that all differ, is gone through in order;
-- deleting all of it frees every node.
pub index_list_lem :
    (h : Heap Entry) (addresses : List ℕ) (xs : List Entry)
    → length xs ≤ length addresses
    → AreDistinct (cells_at addresses xs)
    → (t : Chain Entry) × (insert_entries (empty_list h) addresses xs ≡ some t)
      × (walk (length xs) t.heap t.head ≡ some xs)
      × (t.num ≡ pos (length xs))
      × (u : Chain Entry) × (delete_all_node_idx (length xs) t ≡ some u)
      × Holds u []
      × All (λ cell. u.heap cell.0 ≡ none) (cells_at addresses xs)
index_list_lem h addresses xs enough distinct =
    let cells = cells_at addresses xs in
    let many : length cells ≡ length xs = length-cells_at addresses xs enough in
    let (t, e, held, walked, num) = collected h cells distinct in
    let (u, e', empty, freed, _) = delete_all_node_idx_lem cells t (length xs) held (omega arith) in
    (
      t,
      insert_entries-collect (empty_list h) addresses xs enough ∙ e,
      subst (λ n. walk n t.heap t.head ≡ some xs) many
          (walked ∙ ap some (items-cells_at addresses xs enough)),
      num ∙ ap pos many,
      u,
      e',
      empty,
      freed,
    )
