-- ===== src/Chain/Middle.antt =====
-- Insertion between two nodes of the lists of pa1/linkedListStr.c, and behind the last one.
use systemprogramminglab.Prelude.{
  inc, ℕ, suc, ◌≡◌, ◌≢◌, refl, ◌∙◌, sym, ap, Option, none, some, List, [], ◌∷◌, ◌++◌, arith, pos,
  length, length-append,
}
use systemprogramminglab.Chain.{Node, Heap, Chain, write, insert_at_tail, insert_at_next}
use systemprogramminglab.Chain.Links.{
  Cell, first, last, Links, IsFree, AreDistinct, Holds, write_same, write_other, Links-write,
  Links-append, Links-split, set_prev-first, set_prev-lone, set_next-lone, IsFree-append,
  IsFree-split, AreApart, AreDistinct-split,
}
use systemprogramminglab.Chain.Insert.{lone}

module _ {A : Type 0} where
  pub first-append :
      (xs ys : List (Cell A)) (e : Option ℕ) → first (xs ++ ys) e ≡ first xs (first ys e)
  first-append [] ys e = refl
  first-append (x ∷ xs) ys e = refl

  pub last-append : (p : Option ℕ) (xs ys : List (Cell A)) → last p (xs ++ ys) ≡ last (last p xs) ys
  last-append p [] ys = refl
  last-append p ((a, _) ∷ xs) ys = last-append (some a) xs ys

  pub length-grow :
      (xs : List (Cell A)) (x d : Cell A) (ys : List (Cell A))
      → length (xs ++ (x ∷ d ∷ ys)) ≡ suc (length (xs ++ (x ∷ ys)))
  length-grow xs x d ys = length-append xs (x ∷ d ∷ ys) ∙ omega (arith, length-append xs (x ∷ ys))

  IsFree-grow :
      (i : ℕ) (xs : List (Cell A)) (x d : Cell A) (ys : List (Cell A))
      → d.0 ≢ i
      → IsFree i (xs ++ (x ∷ ys))
      → IsFree i (xs ++ (x ∷ d ∷ ys))
  IsFree-grow i xs x d ys ne f =
      let (g, k) = IsFree-split i xs (x ∷ ys) f in
      IsFree-append i xs (x ∷ d ∷ ys) g (k.0, (ne, k.1))

  pub AreDistinct-grow :
      (xs : List (Cell A)) (x d : Cell A) (ys : List (Cell A))
      → IsFree d.0 (xs ++ (x ∷ ys))
      → AreDistinct (xs ++ (x ∷ ys))
      → AreDistinct (xs ++ (x ∷ d ∷ ys))
  AreDistinct-grow [] x d ys f k = ((λ e. f.0 (sym e), k.0), (f.1, k.1))
  AreDistinct-grow (w ∷ xs) x d ys f k =
      (IsFree-grow w.0 xs x d ys (λ e. f.0 (sym e)) k.0, AreDistinct-grow xs x d ys f.1 k.1)

  pub AreApart-first :
      (xs : List (Cell A)) (a : ℕ) (v : A) (ys : List (Cell A))
      → AreApart xs ((a, v) ∷ ys)
      → IsFree a xs × AreApart xs ys
  AreApart-first [] a v ys f = (tt, tt)
  AreApart-first (x ∷ xs) a v ys f =
      let (g, k) = AreApart-first xs a v ys f.1 in ((λ e. f.0.0 (sym e), g), (f.0.1, k))

  -- Four writes elsewhere, two of them to the same node.
  pub Links-writes :
      (h : Heap A) (d b a : ℕ) (n1 n2 n3 n4 : Option (Node A)) (p : Option ℕ) (xs : List (Cell A))
      (e : Option ℕ)
      → IsFree d xs
      → IsFree b xs
      → IsFree a xs
      → Links h p xs e
      → Links (write (write (write (write h d n1) d n2) b n3) a n4) p xs e
  Links-writes h d b a n1 n2 n3 n4 p xs e fd fb fa l =
      Links-write _ a n4 p xs e fa (
        Links-write _ b n3 p xs e fb
          (Links-write _ d n2 p xs e fd (Links-write h d n1 p xs e fd l)))

  module _ (c : Chain A) (a d : ℕ) (v u : A) (fresh : c.heap d ≡ some (lone u)) where
    -- `insert_at_next` puts a new node, one that is not in the list, behind a node that is not the
    -- last, and leaves the order of the others as it was.
    pub insert_at_next_lem :
        (xs ys : List (Cell A)) (b : ℕ) (w : A)
        → Holds c (xs ++ ((a, v) ∷ (b, w) ∷ ys))
        → IsFree d (xs ++ ((a, v) ∷ (b, w) ∷ ys))
        → (t : Chain A) × (insert_at_next c a d ≡ some t)
          × Holds t (xs ++ ((a, v) ∷ (d, u) ∷ (b, w) ∷ ys))
    unfolding insert_at_next
    insert_at_next_lem xs ys b w hold free =
        let (lx, la) = Links-split c.heap none xs ((a, v) ∷ (b, w) ∷ ys) none hold.linked in
        let (fx, fa) = IsFree-split d xs ((a, v) ∷ (b, w) ∷ ys) free in
        let (dx, dy, apart) = AreDistinct-split xs ((a, v) ∷ (b, w) ∷ ys) hold.distinct in
        let h1 = write c.heap d (some (record { item = u; next = none; prev = some a })) in
        let h2 = write h1 d (some (record { item = u; next = some b; prev = some a })) in
        let l2 =
          Links-write h1 d _ (some a) ((b, w) ∷ ys) none fa.1
            (Links-write c.heap d _ (some a) ((b, w) ∷ ys) none fa.1 la.1) in
        let (n3, eq3, l3) = set_prev-first h2 (some a) (some d) b w ys none dy.1.0 l2 in
        let h3 = write h2 b (some n3) in
        let (fxa, apart') = AreApart-first xs a v ((b, w) ∷ ys) apart in
        let (fxb, _) = AreApart-first xs b w ys apart' in
        let a3 : h3 a ≡ some (record { item = v; next = some b; prev = last none xs }) =
          write_other h2 b a (some n3) (λ e. dy.0.0 (sym e))
          ∙ write_other h1 d a _ fa.0
          ∙ write_other c.heap d a _ fa.0
          ∙ la.0 in
        let h4 = write h3 a (some (record { item = v; next = some d; prev = last none xs })) in
        (
          record c { heap = h4; num = inc c.num },
          rw
              (
                la.0,
                set_prev-lone c.heap d u none none (some a) fresh,
                set_next-lone h1 d u none (some b) (some a) (write_same c.heap d _),
                eq3,
                set_next-lone h3 a v (some b) (some d) (last none xs) a3,
              )
              refl,
          record {
            linked =
                Links-append h4 none xs ((a, v) ∷ (d, u) ∷ (b, w) ∷ ys) none
                  (Links-writes c.heap d b a _ _ _ _ none xs (some a) fx fxb fxa lx)
                  (
                    write_same h3 a _,
                    (
                      write_other h3 a d _ (λ e. fa.0 (sym e))
                          ∙ write_other h2 b d _ (λ e. fa.1.0 (sym e))
                          ∙ write_same h1 d _,
                      Links-write h3 a _ (some d) ((b, w) ∷ ys) none dy.0 l3,
                    ),
                  );
            distinct = AreDistinct-grow xs (a, v) (d, u) ((b, w) ∷ ys) free hold.distinct;
            at_head =
                hold.at_head
                ∙ first-append xs ((a, v) ∷ (b, w) ∷ ys) none
                ∙ sym (first-append xs ((a, v) ∷ (d, u) ∷ (b, w) ∷ ys) none);
            at_tail =
                hold.at_tail
                ∙ last-append none xs ((a, v) ∷ (b, w) ∷ ys)
                ∙ sym (last-append none xs ((a, v) ∷ (d, u) ∷ (b, w) ∷ ys));
            counted =
                ap inc hold.counted ∙ ap pos (sym (length-grow xs (a, v) (d, u) ((b, w) ∷ ys)));
          },
        )

  -- Asked to put another node behind the last one, `insert_at_next` does not: the last node is
  -- linked to itself, both ways, the node to insert is left alone, and the list counts one node
  -- more.
  pub insert_at_next_last :
      (c : Chain A) (a d : ℕ) (v : A) (xs : List (Cell A))
      → Holds c (xs ++ ((a, v) ∷ []))
      → a ≢ d
      → (t : Chain A) × (insert_at_next c a d ≡ some t)
        × (t.heap a ≡ some (record { item = v; next = some a; prev = some a }))
        × (t.heap d ≡ c.heap d)
        × (t.num ≡ inc c.num)
  unfolding insert_at_next insert_at_tail
  insert_at_next_last c a d v xs hold ne =
      let (lx, la) = Links-split c.heap none xs ((a, v) ∷ []) none hold.linked in
      let h1 = write c.heap a (some (record { item = v; next = none; prev = some a })) in
      let h2 = write h1 a (some (record { item = v; next = some a; prev = some a })) in
      (
        record c { heap = h2; tail = some a; num = inc c.num },
        rw
            (
              la.0,
              hold.at_tail ∙ last-append none xs ((a, v) ∷ []),
              set_prev-lone c.heap a v none (last none xs) (some a) la.0,
              set_next-lone h1 a v none (some a) (some a) (write_same c.heap a _),
            )
            refl,
        write_same h1 a _,
        write_other h1 a d _ (λ e. ne (sym e)) ∙ write_other c.heap a d _ (λ e. ne (sym e)),
        refl,
      )
