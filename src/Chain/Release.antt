-- ===== src/Chain/Release.antt =====
-- `delete_all_node_idx` of pa1/linkedList.c.
use systemprogramminglab.Prelude.{
  ℕ, zero, suc, ◌≤◌, ◌≡◌, refl, ◌∙◌, sym, Option, none, some, List, [], ◌∷◌, arith, All, pos,
  length,
}
use systemprogramminglab.Chain.{Heap, Chain, write, free_loop, delete_all_node_idx}
use systemprogramminglab.Chain.Links.{
  Cell, first, Links, IsFree, AreDistinct, Holds, write_same, write_other, Links-write,
}

module _ {A : Type 0} where
  free_loop_lem :
      (h : Heap A) (p : Option ℕ) (cells : List (Cell A)) (fuel : ℕ)
      → Links h p cells none
      → AreDistinct cells
      → length cells ≤ fuel
      → (g : Heap A) × (free_loop fuel h (first cells none) ≡ some g)
        × All (λ x. g x.0 ≡ none) cells
        × ((b : ℕ) → IsFree b cells → g b ≡ h b)
  unfolding free_loop
  free_loop_lem h p [] fuel l d le = (h, refl, tt, λ b f. refl)
  free_loop_lem h p ((a, v) ∷ cells) zero l d le = absurd (omega arith)
  free_loop_lem h p ((a, v) ∷ cells) (suc fuel) l d le =
      let (g, e, gone, frame) =
        free_loop_lem (write h a none) (some a) cells fuel
          (Links-write h a none (some a) cells none d.0 l.1) d.1 (omega arith) in
      (
        g,
        rw (l.0) e,
        (frame a d.0 ∙ write_same h a none, gone),
        λ b f. frame b f.1 ∙ write_other h a b none (λ e. f.0 (sym e)),
      )

  -- With a round for each node `delete_all_node_idx` ends, leaves an empty list, has freed every node,
  -- and leaves the rest of the heap alone.
  pub delete_all_node_idx_lem :
      (cells : List (Cell A)) (c : Chain A) (fuel : ℕ)
      → Holds c cells
      → length cells ≤ fuel
      → (t : Chain A) × (delete_all_node_idx fuel c ≡ some t)
        × Holds t []
        × All (λ x. t.heap x.0 ≡ none) cells
        × ((b : ℕ) → IsFree b cells → t.heap b ≡ c.heap b)
  unfolding delete_all_node_idx
  delete_all_node_idx_lem cells c fuel hold le =
      let (g, e, gone, frame) = free_loop_lem c.heap none cells fuel hold.linked hold.distinct le in
      (
        record { heap = g; num = pos 0; head = none; tail = none },
        rw (hold.at_head, e) refl,
        record { linked = tt; distinct = tt; at_head = refl; at_tail = refl; counted = refl },
        gone,
        frame,
      )
