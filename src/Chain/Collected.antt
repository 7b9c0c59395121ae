-- ===== src/Chain/Collected.antt =====
-- What a program of pa1 or pa2 does with a list: it adds new nodes at the end, one by one, goes
-- through them, and deletes them.
use systemprogramminglab.Prelude.{
  ℕ, zero, suc, ◌≤◌, ◌≡◌, refl, ◌∙◌, sym, ap, subst, Option, none, some, List, [], ◌∷◌, ◌++◌, ◌>>=◌,
  append_assoc, append-nil, arith, map, length, pos,
}
use systemprogramminglab.Chain.{Heap, Chain, write, new_node, insert_at_tail}
use systemprogramminglab.Chain.Links.{
  AreDistinct-split, Cell, first, Links, IsFree, AreDistinct, Holds, write_same, Links-write,
}
use systemprogramminglab.Chain.Insert.{lone, insert_at_tail_lem}
use systemprogramminglab.Chain.Middle.{AreApart-first}

module _ {A : Type 0} where
  -- New nodes at these addresses, the ones that `malloc` returns, each at the end of the list.
  unfoldable pub collect : Chain A → List (Cell A) → Option (Chain A)
  unfolding new_node insert_at_tail
  collect c [] = some c
  collect c ((a, item) ∷ cells) = do
    c' ← insert_at_tail (record c { heap = new_node c.heap a item }) a
    collect c' cells

  -- The loop `node = node->next` from the head of a list: what the nodes hold.
  unfoldable pub walk : ℕ → Heap A → Option ℕ → Option (List A)
  walk fuel h none = some []
  walk zero h (some node) = none
  walk (suc fuel) h (some node) = do n ← h node; rest ← walk fuel h n.next; some (n.item ∷ rest)

  abbrev pub items : List (Cell A) → List A
  items = map (λ c. c.1)

  pub walk_lem :
      (h : Heap A) (p : Option ℕ) (cells : List (Cell A)) (fuel : ℕ)
      → Links h p cells none
      → length cells ≤ fuel
      → walk fuel h (first cells none) ≡ some (items cells)
  unfolding walk
  walk_lem h p [] fuel l le = refl
  walk_lem h p ((a, v) ∷ cells) zero l le = absurd (omega arith)
  walk_lem h p ((a, v) ∷ cells) (suc fuel) l le =
      rw (l.0, walk_lem h (some a) cells fuel l.1 (omega arith)) refl

  -- A list with no nodes.
  abbrev pub empty_list : Heap A → Chain A
  empty_list h = record { heap = h; num = pos 0; head = none; tail = none }

  AreDistinct-IsFree :
      (old : List (Cell A)) (a : ℕ) (item : A) (cells : List (Cell A))
      → AreDistinct (old ++ ((a, item) ∷ cells))
      → IsFree a old
  AreDistinct-IsFree old a item cells d =
      (AreApart-first old a item cells (AreDistinct-split old ((a, item) ∷ cells) d).2).0

  -- With addresses that no other node has, `collect` adds the nodes behind those of the list.
  pub collect_lem :
      (cells old : List (Cell A)) (c : Chain A)
      → Holds c old
      → AreDistinct (old ++ cells)
      → (t : Chain A) × (collect c cells ≡ some t) × Holds t (old ++ cells)
  unfolding collect new_node
  collect_lem [] old c hold d = (c, refl, subst (Holds c) (sym (append-nil old)) hold)
  collect_lem ((a, item) ∷ cells) old c hold d =
      let free : IsFree a old = AreDistinct-IsFree old a item cells d in
      let c' : Chain A = record c { heap = write c.heap a (some (lone item)) } in
      let hold' : Holds c' old = record {
        linked = Links-write c.heap a _ none old none free hold.linked;
        distinct = hold.distinct;
        at_head = hold.at_head;
        at_tail = hold.at_tail;
        counted = hold.counted;
      } in
      let (s, e, held) = insert_at_tail_lem c' a item (write_same c.heap a _) old hold' free in
      let (t, e', held') =
        collect_lem cells (old ++ ((a, item) ∷ [])) s held
          (subst AreDistinct (sym (append_assoc old ((a, item) ∷ []) cells)) d) in
      (t, rw e e', subst (Holds t) (append_assoc old ((a, item) ∷ []) cells) held')

  -- A list that is made of new nodes is gone through in order, and counts them.
  pub collected :
      (h : Heap A) (cells : List (Cell A))
      → AreDistinct cells
      → (t : Chain A) × (collect (empty_list h) cells ≡ some t)
        × Holds t cells
        × (walk (length cells) t.heap t.head ≡ some (items cells))
        × (t.num ≡ pos (length cells))
  collected h cells d =
      let (t, e, held) =
        collect_lem cells [] (empty_list h)
          (record { linked = tt; distinct = tt; at_head = refl; at_tail = refl; counted = refl })
          d in
      (
        t,
        e,
        held,
        ap (walk (length cells) t.heap) held.at_head
            ∙ walk_lem t.heap none cells (length cells) held.linked (omega arith),
        held.counted,
      )

  -- Addresses, as `malloc` returns them, for what is to be stored.
  abbrev pub cells_at : List ℕ → List A → List (Cell A)
  cells_at [] xs = []
  cells_at (a ∷ addresses) [] = []
  cells_at (a ∷ addresses) (x ∷ xs) = (a, x) ∷ cells_at addresses xs

  pub items-cells_at :
      (addresses : List ℕ) (xs : List A)
      → length xs ≤ length addresses
      → items (cells_at addresses xs) ≡ xs
  items-cells_at [] [] h = refl
  items-cells_at [] (x ∷ xs) h = absurd (omega arith)
  items-cells_at (a ∷ addresses) [] h = refl
  items-cells_at (a ∷ addresses) (x ∷ xs) h =
      ap (λ t. x ∷ t) (items-cells_at addresses xs (omega arith))

  pub length-cells_at :
      (addresses : List ℕ) (xs : List A)
      → length xs ≤ length addresses
      → length (cells_at addresses xs) ≡ length xs
  length-cells_at [] [] h = refl
  length-cells_at [] (x ∷ xs) h = absurd (omega arith)
  length-cells_at (a ∷ addresses) [] h = refl
  length-cells_at (a ∷ addresses) (x ∷ xs) h = ap suc (length-cells_at addresses xs (omega arith))
