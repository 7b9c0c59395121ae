-- ===== src/Chain/Insert.antt =====
-- Insertion into the lists of pa1/linkedListStr.c.
use systemprogramminglab.Prelude.{
  inc, ℕ, suc, ◌≡◌, ◌≢◌, refl, ◌∙◌, sym, ap, Option, none, some, List, [], ◌∷◌, ◌++◌, pos, length,
}
use systemprogramminglab.Chain.{Node, Chain, write, insert_at_head, insert_at_tail}
use systemprogramminglab.Chain.Links.{
  Cell, last, IsFree, Holds, write_same, write_other, Links-write, Links-append, end_of,
  last-end_of, end_of-IsFree, set_next-last, set_prev-first, set_prev-lone, set_next-lone, AreApart,
  AreDistinct-append,
}

module _ {A : Type 0} where
  -- A node that `create_node` has made.
  abbrev pub lone : A → Node A
  lone v = record { item = v; next = none; prev = none }

  last-snoc :
      (p : Option ℕ) (xs : List (Cell A)) (a : ℕ) (v : A) → last p (xs ++ ((a, v) ∷ [])) ≡ some a
  last-snoc p [] a v = refl
  last-snoc p ((b, _) ∷ xs) a v = last-snoc (some b) xs a v

  AreApart-one : (xs : List (Cell A)) (a : ℕ) (v : A) → IsFree a xs → AreApart xs ((a, v) ∷ [])
  AreApart-one [] a v f = tt
  AreApart-one (x ∷ xs) a v f = ((λ e. f.0 (sym e), tt), AreApart-one xs a v f.1)

  length-snoc : (xs : List (Cell A)) (c : Cell A) → length (xs ++ (c ∷ [])) ≡ suc (length xs)
  length-snoc [] c = refl
  length-snoc (x ∷ xs) c = ap suc (length-snoc xs c)

  module _ (c : Chain A) (a : ℕ) (v : A) (fresh : c.heap a ≡ some (lone v)) where
    -- `insert_at_tail` adds a new node, one that is not in the list, behind the others.
    pub insert_at_tail_lem :
        (cells : List (Cell A))
        → Holds c cells
        → IsFree a cells
        → (t : Chain A) × (insert_at_tail c a ≡ some t) × Holds t (cells ++ ((a, v) ∷ []))
    unfolding insert_at_tail
    insert_at_tail_lem [] hold free = (
      record c { head = some a; tail = some a; num = inc c.num },
      rw (hold.at_tail) refl,
      record {
        linked = (fresh, tt);
        distinct = (tt, tt);
        at_head = refl;
        at_tail = refl;
        counted = ap inc hold.counted;
      },
    )
    insert_at_tail_lem (x ∷ xs) hold free =
        let z = end_of x xs in
        let h = write c.heap a (some (record { item = v; next = none; prev = some z })) in
        let ne : a ≢ z = λ e. end_of-IsFree a x xs free (sym e) in
        let (n, eq, l) =
          set_next-last h none x xs none (some a) hold.distinct
            (Links-write c.heap a _ none (x ∷ xs) none free hold.linked) in
        (
          record c { heap = write h z (some n); tail = some a; num = inc c.num },
          rw
              (
                hold.at_tail ∙ last-end_of none x xs,
                set_prev-lone c.heap a v none none (some z) fresh,
                eq,
              )
              refl,
          record {
            linked = Links-append (write h z (some n)) none (x ∷ xs) ((a, v) ∷ []) none l (
              write_other h z a (some n) ne
                  ∙ write_same c.heap a _
                  ∙ ap (λ p. some (record { item = v; next = none; prev = p }))
                      (sym (last-end_of none x xs)),
              tt,
            );
            distinct =
                AreDistinct-append (x ∷ xs) ((a, v) ∷ []) hold.distinct (tt, tt)
                  (AreApart-one (x ∷ xs) a v free);
            at_head = hold.at_head;
            at_tail = sym (last-snoc none (x ∷ xs) a v);
            counted = ap inc hold.counted ∙ ap pos (sym (length-snoc (x ∷ xs) (a, v)));
          },
        )

    -- `insert_at_head` adds a new node, one that is not in the list, in front of the others.
    pub insert_at_head_lem :
        (cells : List (Cell A))
        → Holds c cells
        → IsFree a cells
        → (t : Chain A) × (insert_at_head c a ≡ some t) × Holds t ((a, v) ∷ cells)
    unfolding insert_at_head
    insert_at_head_lem [] hold free = (
      record c { head = some a; tail = some a; num = inc c.num },
      rw (hold.at_head) refl,
      record {
        linked = (fresh, tt);
        distinct = (tt, tt);
        at_head = refl;
        at_tail = refl;
        counted = ap inc hold.counted;
      },
    )
    insert_at_head_lem ((b, w) ∷ xs) hold free =
        let h = write c.heap a (some (record { item = v; next = some b; prev = none })) in
        let (n, eq, l) =
          set_prev-first h none (some a) b w xs none hold.distinct.0
            (Links-write c.heap a _ none ((b, w) ∷ xs) none free hold.linked) in
        (
          record c { heap = write h b (some n); head = some a; num = inc c.num },
          rw (hold.at_head, set_next-lone c.heap a v none (some b) none fresh, eq) refl,
          record {
            linked = (write_other h b a (some n) (λ e. free.0 (sym e)) ∙ write_same c.heap a _, l);
            distinct = (free, hold.distinct);
            at_head = refl;
            at_tail = hold.at_tail;
            counted = ap inc hold.counted;
          },
        )
