-- ===== src/Chain.antt =====
-- The doubly linked lists of pa1/linkedListStr.c; those of pa1/linkedList.c and pa2/linkedList.c
-- have the same code for another kind of node. The nodes stand on a heap, a function from
-- addresses; an access through NULL or to a freed node is `none`.
pub mod Links
pub mod Insert
pub mod Middle
pub mod Before
pub mod Collected
pub mod Delete
pub mod Release
mod Tests
use systemprogramminglab.Prelude.{
  ℕ, zero, suc, Option, none, some, List, [], ◌∷◌, ◌++◌, ◌==◌, if◌then◌else◌, ◌>>=◌, ℤ, inc, dec,
  pos, negsuc,
}

-- What a node holds besides its pointers; `length` is the length of `content`.
pub record Item : Type 0 where
  pub line_num : ℕ
  pub content : List ℕ

pub record Node (A : Type 0) : Type 0 where
  pub item : A
  pub next : Option ℕ
  pub prev : Option ℕ

abbrev pub Heap : Type 0 → Type 0
Heap A = ℕ → Option (Node A)

pub record Chain (A : Type 0) : Type 0 where
  pub heap : Heap A
  pub num : ℤ
  pub head : Option ℕ
  pub tail : Option ℕ

module _ {A : Type 0} where
  unfoldable pub write : Heap A → ℕ → Option (Node A) → Heap A
  write h a n b = if b == a then n else h b

  -- `a->next = p` and `a->prev = p`
  unfoldable pub set_next : Heap A → ℕ → Option ℕ → Option (Heap A)
  set_next h a p = do n ← h a; some (write h a (some (record n { next = p })))

  unfoldable pub set_prev : Heap A → ℕ → Option ℕ → Option (Heap A)
  set_prev h a p = do n ← h a; some (write h a (some (record n { prev = p })))

  -- A new node at `a`, with no neighbours.
  unfoldable pub new_node : Heap A → ℕ → A → Heap A
  unfolding write
  new_node h a item = write h a (some (record { item = item; next = none; prev = none }))

  unfoldable pub insert_at_head : Chain A → ℕ → Option (Chain A)
  insert_at_head c node = elim c.head [
    | none ↦ some (record c { head = some node; tail = some node; num = inc c.num })
    | some first ↦ do
      h ← set_next c.heap node (some first)
      h' ← set_prev h first (some node)
      some (record c { heap = h'; head = some node; num = inc c.num })
  ]

  unfoldable pub insert_at_tail : Chain A → ℕ → Option (Chain A)
  insert_at_tail c node = elim c.tail [
    | none ↦ some (record c { head = some node; tail = some node; num = inc c.num })
    | some last ↦ do
      h ← set_prev c.heap node (some last)
      h' ← set_next h last (some node)
      some (record c { heap = h'; tail = some node; num = inc c.num })
  ]

  -- Behind the last node it hands `node` itself to `insert_at_tail`, not `to_insert`.
  unfoldable pub insert_at_next : Chain A → ℕ → ℕ → Option (Chain A)
  unfolding insert_at_tail
  insert_at_next c node to_insert = do
    n ← c.heap node
    elim n.next [
      | none ↦ insert_at_tail c node
      | some behind ↦ do
        h ← set_prev c.heap to_insert (some node)
        h' ← set_next h to_insert (some behind)
        h'' ← set_prev h' behind (some to_insert)
        h''' ← set_next h'' node (some to_insert)
        some (record c { heap = h'''; num = inc c.num })
    ]

  unfoldable pub insert_at_before : Chain A → ℕ → ℕ → Option (Chain A)
  unfolding insert_at_head
  insert_at_before c node to_insert = do
    n ← c.heap node
    elim n.prev [
      | none ↦ insert_at_head c node
      | some before ↦ do
        h ← set_next c.heap to_insert (some node)
        h' ← set_prev h to_insert (some before)
        h'' ← set_next h' before (some to_insert)
        h''' ← set_prev h'' node (some to_insert)
        some (record c { heap = h'''; num = inc c.num })
    ]

  -- `node->prev->next = node->next`, or the head.
  unfoldable pub bypass_next : Chain A → Node A → Option (Chain A)
  bypass_next c n = elim n.prev [
    | none ↦ some (record c { head = n.next })
    | some before ↦ do h ← set_next c.heap before n.next; some (record c { heap = h })
  ]

  -- `node->next->prev = node->prev`, or the tail.
  unfoldable pub bypass_prev : Chain A → Node A → Option (Chain A)
  bypass_prev c n = elim n.next [
    | none ↦ some (record c { tail = n.prev })
    | some behind ↦ do h ← set_prev c.heap behind n.prev; some (record c { heap = h })
  ]

  -- The pointers of `node` are read again after the first assignment, which may have changed them if
  -- the list is not well formed.
  unfoldable pub delete_node : Chain A → ℕ → Option (Chain A)
  unfolding bypass_next bypass_prev
  delete_node c node = do
    n ← c.heap node
    c' ← bypass_next c n
    n' ← c'.heap node
    c'' ← bypass_prev c' n'
    some (record c'' { heap = write c''.heap node none; num = dec c''.num })

  unfoldable pub delete_all_node : ℕ → Chain A → Option (Chain A)
  delete_all_node zero c = none
  delete_all_node (suc fuel) c = elim c.head [
    | none ↦ some c
    | some node ↦ do c' ← delete_node c node; delete_all_node fuel c'
  ]

  -- The loop of `delete_all_node_idx` of pa1/linkedList.c, which frees the nodes from `node` on
  -- without unlinking them.
  unfoldable pub free_loop : ℕ → Heap A → Option ℕ → Option (Heap A)
  free_loop fuel h none = some h
  free_loop zero h (some node) = none
  free_loop (suc fuel) h (some node) = do n ← h node; free_loop fuel (write h node none) n.next

  unfoldable pub delete_all_node_idx : ℕ → Chain A → Option (Chain A)
  unfolding free_loop
  delete_all_node_idx fuel c = do
    h ← free_loop fuel c.heap c.head
    some (record { heap = h; num = pos 0; head = none; tail = none })

-- `a` is the address that `malloc` returns.
unfoldable pub create_node : Heap Item → ℕ → ℕ → List ℕ → Heap Item
unfolding new_node
create_node h a line_num content = new_node h a (record { line_num = line_num; content = content })

-- The bytes that the loop from `node` on writes; `none` is out of fuel or an invalid access.
unfoldable pub print_loop : ℕ → Heap Item → Option ℕ → Option (List ℕ)
print_loop fuel h none = some []
print_loop zero h (some node) = none
print_loop (suc fuel) h (some node) = do
  n ← h node
  rest ← print_loop fuel h n.next
  some (n.item.content ++ (b'\n' ∷ rest))

unfoldable pub print_list : ℕ → Chain Item → Option (List ℕ)
unfolding print_loop
print_list fuel c = print_loop fuel c.heap c.head
