-- ===== src/Chain/Before.antt =====
-- Insertion in front of a node of the lists of pa1/linkedListStr.c.
use systemprogramminglab.Prelude.{inc, ℕ, ◌≡◌, refl, ◌∙◌, sym, ap, none, some, List, ◌∷◌, ◌++◌, pos}
use systemprogramminglab.Chain.{Chain, write, insert_at_before}
use systemprogramminglab.Chain.Links.{
  Cell, last, IsFree, Holds, write_same, write_other, Links-write, Links-append, Links-split,
  set_prev-first, set_prev-lone, set_next-lone, IsFree-split, AreDistinct-split,
}
use systemprogramminglab.Chain.Insert.{lone}
use systemprogramminglab.Chain.Middle.{
  first-append, last-append, length-grow, AreDistinct-grow, AreApart-first, Links-writes,
}

module _ {A : Type 0} (c : Chain A) (a d : ℕ) (v u : A) (fresh : c.heap d ≡ some (lone u)) where
  -- `insert_at_before` puts a new node, one that is not in the list, in front of a node that is not
  -- the first, and leaves the order of the others as it was.
  pub insert_at_before_lem :
      (xs ys : List (Cell A)) (b : ℕ) (w : A)
      → Holds c (xs ++ ((b, w) ∷ (a, v) ∷ ys))
      → IsFree d (xs ++ ((b, w) ∷ (a, v) ∷ ys))
      → (t : Chain A) × (insert_at_before c a d ≡ some t)
        × Holds t (xs ++ ((b, w) ∷ (d, u) ∷ (a, v) ∷ ys))
  unfolding insert_at_before
  insert_at_before_lem xs ys b w hold free =
      let (lx, la) = Links-split c.heap none xs ((b, w) ∷ (a, v) ∷ ys) none hold.linked in
      let (fx, fa) = IsFree-split d xs ((b, w) ∷ (a, v) ∷ ys) free in
      let (dx, dy, apart) = AreDistinct-split xs ((b, w) ∷ (a, v) ∷ ys) hold.distinct in
      let (fxb, apart') = AreApart-first xs b w ((a, v) ∷ ys) apart in
      let (fxa, _) = AreApart-first xs a v ys apart' in
      let h1 = write c.heap d (some (record { item = u; next = some a; prev = none })) in
      let h2 = write h1 d (some (record { item = u; next = some a; prev = some b })) in
      let h3 = write h2 b (some (record { item = w; next = some d; prev = last none xs })) in
      let b2 : h2 b ≡ some (record { item = w; next = some a; prev = last none xs }) =
        write_other h1 d b _ fa.0 ∙ write_other c.heap d b _ fa.0 ∙ la.0 in
      let l3 = Links-write h2 b _ (some b) ((a, v) ∷ ys) none dy.0 (
        Links-write h1 d _ (some b) ((a, v) ∷ ys) none fa.1
          (Links-write c.heap d _ (some b) ((a, v) ∷ ys) none fa.1 la.1)) in
      let (n4, eq4, l4) = set_prev-first h3 (some b) (some d) a v ys none dy.1.0 l3 in
      let h4 = write h3 a (some n4) in
      (
        record c { heap = h4; num = inc c.num },
        rw
            (
              la.1.0,
              set_next-lone c.heap d u none (some a) none fresh,
              set_prev-lone h1 d u (some a) none (some b) (write_same c.heap d _),
              set_next-lone h2 b w (some a) (some d) (last none xs) b2,
              eq4,
            )
            refl,
        record {
          linked =
              Links-append h4 none xs ((b, w) ∷ (d, u) ∷ (a, v) ∷ ys) none
                (Links-writes c.heap d b a _ _ _ _ none xs (some b) fx fxb fxa lx)
                (
                  write_other h3 a b _ (λ e. dy.0.0 (sym e)) ∙ write_same h2 b _,
                  (
                    write_other h3 a d _ (λ e. fa.1.0 (sym e))
                        ∙ write_other h2 b d _ (λ e. fa.0 (sym e))
                        ∙ write_same h1 d _,
                    l4,
                  ),
                );
          distinct = AreDistinct-grow xs (b, w) (d, u) ((a, v) ∷ ys) free hold.distinct;
          at_head =
              hold.at_head
              ∙ first-append xs ((b, w) ∷ (a, v) ∷ ys) none
              ∙ sym (first-append xs ((b, w) ∷ (d, u) ∷ (a, v) ∷ ys) none);
          at_tail =
              hold.at_tail
              ∙ last-append none xs ((b, w) ∷ (a, v) ∷ ys)
              ∙ sym (last-append none xs ((b, w) ∷ (d, u) ∷ (a, v) ∷ ys));
          counted = ap inc hold.counted ∙ ap pos (sym (length-grow xs (b, w) (d, u) ((a, v) ∷ ys)));
        },
      )
