-- ===== src/Shell/Commands.antt =====
-- pa2/linkedList.c: the list of the commands of a line, which `parse_pipelines` of pa2/main.c fills
-- and `main` goes through and deletes. Its operations are those of pa1/linkedListStr.c, word for
-- word, on another kind of node.
use systemprogramminglab.Prelude.{
  ℕ, zero, suc, ◌≤◌, ◌≡◌, refl, ◌∙◌, ap, subst, Option, none, some, List, [], ◌∷◌, ◌++◌, ◌>>=◌, map,
  arith, All, length, take, fun_ext, pos,
}
use systemprogramminglab.Chain
use systemprogramminglab.Chain.{Heap, Node, Chain, new_node}
use systemprogramminglab.Chain.Links.{Cell, AreDistinct, Holds}
use systemprogramminglab.Chain.Collected.{
  collect, walk, cells_at, items-cells_at, length-cells_at, empty_list, collected,
}
use systemprogramminglab.Chain.Delete.{delete_all_node_lem}
use systemprogramminglab.Shell.Command.{Kind, commands}
use systemprogramminglab.Shell.Pipelines.{parse_pipelines}

-- What a `Node` holds besides its pointers.
pub record Text : Type 0 where
  pub kind : Kind
  pub length : ℕ
  pub content : List ℕ

abbrev pub text_of : Kind → List ℕ → Text
text_of kind content = record { kind = kind; length = length content; content = content }

-- `a` is the address that `malloc` returns, and `content` a text up to its NUL.
unfoldable pub create_node : Heap Text → ℕ → Kind → List ℕ → Heap Text
unfolding new_node
create_node h a kind content = new_node h a (text_of kind content)

unfoldable pub insert_at_head : Chain Text → ℕ → Option (Chain Text)
unfolding Chain.insert_at_head
insert_at_head list node = Chain.insert_at_head list node

unfoldable pub insert_at_tail : Chain Text → ℕ → Option (Chain Text)
unfolding Chain.insert_at_tail
insert_at_tail list node = Chain.insert_at_tail list node

unfoldable pub insert_at_next : Chain Text → ℕ → ℕ → Option (Chain Text)
unfolding Chain.insert_at_next
insert_at_next list node to_insert = Chain.insert_at_next list node to_insert

unfoldable pub insert_at_before : Chain Text → ℕ → ℕ → Option (Chain Text)
unfolding Chain.insert_at_before
insert_at_before list node to_insert = Chain.insert_at_before list node to_insert

unfoldable pub delete_node : Chain Text → ℕ → Option (Chain Text)
unfolding Chain.delete_node
delete_node list node = Chain.delete_node list node

unfoldable pub delete_all_node : ℕ → Chain Text → Option (Chain Text)
unfolding Chain.delete_all_node
delete_all_node fuel list = Chain.delete_all_node fuel list

-- The bytes that the loop from `node` on writes.
unfoldable pub print_loop : ℕ → Heap Text → Option ℕ → Option (List ℕ)
print_loop fuel h none = some []
print_loop zero h (some node) = none
print_loop (suc fuel) h (some node) = do
  n ← h node
  rest ← print_loop fuel h n.next
  some (take n.item.length n.item.content ++ (b'\n' ∷ rest))

unfoldable pub print_list : ℕ → Chain Text → Option (List ℕ)
unfolding print_loop
print_list fuel list = print_loop fuel list.heap list.head

-- The loop of `parse_pipelines` for these commands; `malloc` returns the addresses.
unfoldable pub insert_commands : Chain Text → List ℕ → List (List ℕ) → Option (Chain Text)
unfolding create_node insert_at_tail
insert_commands list addresses [] = some list
insert_commands list [] (cmd ∷ cmds) = none
insert_commands list (a ∷ addresses) (cmd ∷ cmds) = do
  list' ← insert_at_tail (record list { heap = create_node list.heap a commands cmd }) a
  insert_commands list' addresses cmds

unfoldable pub list_pipelines : Chain Text → List ℕ → List ℕ → Option (Chain Text)
unfolding insert_commands parse_pipelines
list_pipelines list addresses cmd = do
  cmds ← parse_pipelines cmd
  insert_commands list addresses cmds

insert_commands-collect :
    (list : Chain Text) (addresses : List ℕ) (cmds : List (List ℕ))
    → length cmds ≤ length addresses
    → insert_commands list addresses cmds
      ≡ collect list (cells_at addresses (map (text_of commands) cmds))
unfolding insert_commands collect create_node insert_at_tail
insert_commands-collect list [] [] h = refl
insert_commands-collect list [] (cmd ∷ cmds) h = absurd (omega arith)
insert_commands-collect list (a ∷ addresses) [] h = refl
insert_commands-collect list (a ∷ addresses) (cmd ∷ cmds) h =
    ap (λ k. insert_at_tail (record list { heap = create_node list.heap a commands cmd }) a >>= k)
      (fun_ext (λ l. insert_commands-collect l addresses cmds (omega arith)))

-- The nodes of the commands of a line.
abbrev pub cells_of : List ℕ → List (List ℕ) → List (Cell Text)
cells_of addresses cmds = cells_at addresses (map (text_of commands) cmds)

length-map : (cmds : List (List ℕ)) → length (map (text_of commands) cmds) ≡ length cmds
length-map [] = refl
length-map (cmd ∷ cmds) = ap suc (length-map cmds)

-- Where `parse_pipelines` cuts a line into some commands, and `malloc` returns addresses that all
-- differ, the list that starts empty is filled with one node for each command: going through it
-- from its head as often as there are commands reads their texts and lengths in order, and `num` is
-- their number. With a round more than that, `delete_all_node` then ends, with an empty list and
-- every node freed.
pub list_pipelines_lem :
    (h : Heap Text) (addresses cmd : List ℕ) (cmds : List (List ℕ))
    → parse_pipelines cmd ≡ some cmds
    → length cmds ≤ length addresses
    → AreDistinct (cells_of addresses cmds)
    → (t : Chain Text) × (list_pipelines (empty_list h) addresses cmd ≡ some t)
      × (walk (length cmds) t.heap t.head ≡ some (map (text_of commands) cmds))
      × (t.num ≡ pos (length cmds))
      × (u : Chain Text) × (delete_all_node (suc (length cmds)) t ≡ some u)
      × Holds u []
      × All (λ cell. u.heap cell.0 ≡ none) (cells_of addresses cmds)
unfolding list_pipelines delete_all_node
list_pipelines_lem h addresses cmd cmds e enough distinct =
    let cells = cells_of addresses cmds in
    let fit : length (map (text_of commands) cmds) ≤ length addresses =
      omega (arith, length-map cmds) in
    let many : length cells ≡ length cmds =
      length-cells_at addresses (map (text_of commands) cmds) fit ∙ length-map cmds in
    let (t, e', held, walked, num) = collected h cells distinct in
    let (u, e'', empty, freed, _) =
      delete_all_node_lem cells t (suc (length cmds)) held (omega arith) in
    (
      t,
      rw e (insert_commands-collect (empty_list h) addresses cmds enough ∙ e'),
      subst (λ n. walk n t.heap t.head ≡ some (map (text_of commands) cmds)) many
          (walked ∙ ap some (items-cells_at addresses (map (text_of commands) cmds) fit)),
      num ∙ ap pos many,
      u,
      e'',
      empty,
      freed,
    )
