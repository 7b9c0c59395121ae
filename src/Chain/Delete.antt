-- ===== src/Chain/Delete.antt =====
-- Deletion and printing of the lists of pa1/linkedListStr.c.
use systemprogramminglab.Prelude.{
  dec, ℕ, zero, suc, ◌≤◌, ◌<◌, ◌≡◌, refl, ◌∙◌, sym, ap, Option, none, some, List, [], ◌∷◌, ◌++◌,
  arith, All, pos, length, length-append,
}
use systemprogramminglab.Chain.{
  Item, Node, Heap, Chain, write, bypass_next, bypass_prev, delete_node, delete_all_node,
  print_loop, print_list,
}
use systemprogramminglab.Chain.Links.{
  Cell, first, last, Links, IsFree, AreDistinct, Holds, write_same, write_other, Links-write,
  Links-append, Links-split, end_of, last-end_of, end_of-IsFree, set_next-last, set_prev-first,
  IsFree-append, IsFree-split, AreApart, AreDistinct-append, AreDistinct-split, end_of-AreApart,
}
use systemprogramminglab.Chain.Middle.{last-append, AreApart-first}

module _ {A : Type 0} where
  -- What the first assignment of `delete_node` does: the nodes before `a` are linked to those
  -- behind.
  module _ (c : Chain A) (a : ℕ) (v : A) where
    abbrev node : List (Cell A) → List (Cell A) → Node A
    node xs ys = record { item = v; next = first ys none; prev = last none xs }

    bypass_next_lem :
        (xs ys : List (Cell A))
        → Holds c (xs ++ ((a, v) ∷ ys))
        → (t : Chain A) × (bypass_next c (node xs ys) ≡ some t)
          × Links t.heap none xs (first ys none)
          × Links t.heap (some a) ys none
          × (t.heap a ≡ some (node xs ys))
          × ((b : ℕ) → IsFree b xs → t.heap b ≡ c.heap b)
          × (t.head ≡ first (xs ++ ys) none)
          × (t.tail ≡ c.tail)
          × (t.num ≡ c.num)
    unfolding bypass_next
    bypass_next_lem [] ys hold = (
      record c { head = first ys none },
      refl,
      tt,
      hold.linked.1,
      hold.linked.0,
      λ b f. refl,
      refl,
      refl,
      refl,
    )
    bypass_next_lem (x ∷ xs) ys hold =
        let (lx, la) = Links-split c.heap none (x ∷ xs) ((a, v) ∷ ys) none hold.linked in
        let (dx, dy, apart) = AreDistinct-split (x ∷ xs) ((a, v) ∷ ys) hold.distinct in
        let z = end_of x xs in
        let fz = end_of-AreApart x xs ((a, v) ∷ ys) apart in
        let (n, eq, l) = set_next-last c.heap none x xs (some a) (first ys none) dx lx in
        (
          record c { heap = write c.heap z (some n) },
          rw (last-end_of none x xs, eq) refl,
          l,
          Links-write c.heap z _ (some a) ys none fz.1 la.1,
          write_other c.heap z a _ fz.0 ∙ la.0,
          λ b f. write_other c.heap z b _ (λ e. end_of-IsFree b x xs f (sym e)),
          hold.at_head,
          refl,
          refl,
        )

  -- And the second one, where `c` is what the first has left.
  module _ (c : Chain A) (a : ℕ) (v : A) (xs : List (Cell A)) where
    bypass_prev_lem :
        (ys : List (Cell A))
        → Links c.heap none xs (first ys none)
        → Links c.heap (some a) ys none
        → c.tail ≡ last none (xs ++ ((a, v) ∷ ys))
        → AreApart xs ys
        → AreDistinct ys
        → (t : Chain A) × (bypass_prev c (node c a v xs ys) ≡ some t)
          × Links t.heap none (xs ++ ys) none
          × ((b : ℕ) → IsFree b ys → t.heap b ≡ c.heap b)
          × (t.head ≡ c.head)
          × (t.tail ≡ last none (xs ++ ys))
          × (t.num ≡ c.num)
    unfolding bypass_prev
    bypass_prev_lem [] lx ly at apart d = (
      record c { tail = last none xs },
      refl,
      Links-append c.heap none xs [] none lx tt,
      λ b f. refl,
      refl,
      sym (last-append none xs []),
      refl,
    )
    bypass_prev_lem ((b, w) ∷ ys) lx ly at apart d =
        let (n, eq, l) = set_prev-first c.heap (some a) (last none xs) b w ys none d.0 ly in
        let (fxb, _) = AreApart-first xs b w ys apart in
        (
          record c { heap = write c.heap b (some n) },
          rw eq refl,
          Links-append (write c.heap b (some n)) none xs ((b, w) ∷ ys) none
              (Links-write c.heap b _ none xs (some b) fxb lx) l,
          λ i f. write_other c.heap b i _ (λ e. f.0 (sym e)),
          refl,
          at ∙ last-append none xs ((a, v) ∷ (b, w) ∷ ys) ∙ sym (last-append none xs ((b, w) ∷ ys)),
          refl,
        )

  length-middle :
      (xs : List (Cell A)) (x : Cell A) (ys : List (Cell A))
      → length (xs ++ (x ∷ ys)) ≡ suc (length (xs ++ ys))
  length-middle xs x ys = length-append xs (x ∷ ys) ∙ omega (arith, length-append xs ys)

  -- `delete_node` takes a node out of the list, wherever it stands, and frees it; the list holds the
  -- others in the same order, and nothing else on the heap has changed.
  pub delete_node_lem :
      (c : Chain A) (xs : List (Cell A)) (a : ℕ) (v : A) (ys : List (Cell A))
      → Holds c (xs ++ ((a, v) ∷ ys))
      → (t : Chain A) × (delete_node c a ≡ some t)
        × Holds t (xs ++ ys)
        × (t.heap a ≡ none)
        × ((b : ℕ) → IsFree b (xs ++ ((a, v) ∷ ys)) → t.heap b ≡ c.heap b)
  unfolding delete_node
  delete_node_lem c xs a v ys hold =
      let (lx, la) = Links-split c.heap none xs ((a, v) ∷ ys) none hold.linked in
      let (dx, dy, apart) = AreDistinct-split xs ((a, v) ∷ ys) hold.distinct in
      let (fxa, apart') = AreApart-first xs a v ys apart in
      let (t, eq, mx, my, ta, frame, at_head, at_tail, num) = bypass_next_lem c a v xs ys hold in
      let (u, eq', l, frame', uh, ut, un) =
        bypass_prev_lem t a v xs ys mx my (at_tail ∙ hold.at_tail) apart' dy.1 in
      (
        record u { heap = write u.heap a none; num = dec u.num },
        rw (la.0, eq, ta, eq') refl,
        record {
          linked =
              Links-write u.heap a none none (xs ++ ys) none (IsFree-append a xs ys fxa dy.0) l;
          distinct = AreDistinct-append xs ys dx dy.1 apart';
          at_head = uh ∙ at_head;
          at_tail = ut;
          counted = ap dec (un ∙ num ∙ hold.counted ∙ ap pos (length-middle xs (a, v) ys));
        },
        write_same u.heap a none,
        λ b f.
            let (fx, fa) = IsFree-split b xs ((a, v) ∷ ys) f in
            write_other u.heap a b none (λ e. fa.0 (sym e)) ∙ frame' b fa.1 ∙ frame b fx,
      )

  delete_all_round :
      (c t : Chain A) (a fuel : ℕ) (r : Option (Chain A))
      → c.head ≡ some a
      → delete_node c a ≡ some t
      → delete_all_node fuel t ≡ r
      → delete_all_node (suc fuel) c ≡ r
  unfolding delete_all_node
  delete_all_round c t a fuel r at eq more = ground (arith, at, eq, more)

  -- With a round for each node and one more, `delete_all_node` ends, leaves an empty list, and has
  -- freed every node.
  pub delete_all_node_lem :
      (cells : List (Cell A)) (c : Chain A) (fuel : ℕ)
      → Holds c cells
      → length cells < fuel
      → (t : Chain A) × (delete_all_node fuel c ≡ some t)
        × Holds t []
        × All (λ x. t.heap x.0 ≡ none) cells
        × ((b : ℕ) → IsFree b cells → t.heap b ≡ c.heap b)
  unfolding delete_all_node
  delete_all_node_lem cells c zero hold less = absurd (omega arith)
  delete_all_node_lem [] c (suc fuel) hold less = (c, rw (hold.at_head) refl, hold, tt, λ b f. refl)
  delete_all_node_lem ((a, v) ∷ cells) c (suc fuel) hold less =
      let (t, eq, next, gone, frame) = delete_node_lem c [] a v cells hold in
      let (u, eq', empty, freed, frame') = delete_all_node_lem cells t fuel next (omega arith) in
      (
        u,
        delete_all_round c t a fuel (some u) hold.at_head eq eq',
        empty,
        (frame' a hold.distinct.0 ∙ gone, freed),
        λ b f. frame' b f.1 ∙ frame b f,
      )

-- The lines of a list.
unfoldable pub printed : List (Cell Item) → List ℕ
printed [] = []
printed ((_, v) ∷ cells) = v.content ++ (b'\n' ∷ printed cells)

print_loop_lem :
    (h : Heap Item) (p : Option ℕ) (cells : List (Cell Item)) (fuel : ℕ)
    → Links h p cells none
    → length cells ≤ fuel
    → print_loop fuel h (first cells none) ≡ some (printed cells)
unfolding print_loop printed
print_loop_lem h p [] fuel l le = refl
print_loop_lem h p ((a, v) ∷ cells) zero l le = absurd (omega arith)
print_loop_lem h p ((a, v) ∷ cells) (suc fuel) l le =
    rw (l.0, print_loop_lem h (some a) cells fuel l.1 (omega arith)) refl

-- With a round for each node `print_list` ends, and writes the contents of the nodes in order,
-- each with a newline.
pub print_list_lem :
    (c : Chain Item) (cells : List (Cell Item)) (fuel : ℕ)
    → Holds c cells
    → length cells ≤ fuel
    → print_list fuel c ≡ some (printed cells)
unfolding print_list
print_list_lem c cells fuel hold le =
    rw (hold.at_head) (print_loop_lem c.heap none cells fuel hold.linked le)
