-- ===== src/Chain/Links.antt =====
-- Which sequence of nodes a list of pa1/linkedListStr.c stands for, and what a write does to it.
use systemprogramminglab.Prelude.{
  ℕ, ◌≡◌, ◌≢◌, refl, ◌∙◌, sym, Option, none, some, List, [], ◌∷◌, ◌++◌, arith, All, pos, length,
}
use systemprogramminglab.Chain.{Node, Heap, Chain, write, set_next, set_prev}

-- A node with its address.
abbrev pub Cell : Type 0 → Type 0
Cell A = ℕ × A

module _ {A : Type 0} where
  abbrev pub first : List (Cell A) → Option ℕ → Option ℕ
  first [] e = e
  first ((a, _) ∷ cells) e = some a

  abbrev pub last : Option ℕ → List (Cell A) → Option ℕ
  last p [] = p
  last p ((a, _) ∷ cells) = last (some a) cells

  -- The heap has these nodes, linked in this order between `p` and `e`.
  abbrev pub Links : Heap A → Option ℕ → List (Cell A) → Option ℕ → Type 0
  Links h p [] e = Unit
  Links h p ((a, v) ∷ cells) e =
      (h a ≡ some (record { item = v; next = first cells e; prev = p })) × Links h (some a) cells e

  -- No node stands at address `a`.
  abbrev pub IsFree : ℕ → List (Cell A) → Type 0
  IsFree a = All (λ c. c.0 ≢ a)

  abbrev pub AreDistinct : List (Cell A) → Type 0
  AreDistinct [] = Unit
  AreDistinct ((a, _) ∷ cells) = IsFree a cells × AreDistinct cells

-- The list stands for these nodes in this order.
pub record Holds {A : Type 0} (c : Chain A) (cells : List (Cell A)) : Type 0 where
  pub linked : Links c.heap none cells none
  pub distinct : AreDistinct cells
  pub at_head : c.head ≡ first cells none
  pub at_tail : c.tail ≡ last none cells
  pub counted : c.num ≡ pos (length cells)

module _ {A : Type 0} where
  pub write_same : (h : Heap A) (a : ℕ) (n : Option (Node A)) → write h a n a ≡ n
  unfolding write
  write_same h a n = ground arith

  pub write_other : (h : Heap A) (a b : ℕ) (n : Option (Node A)) → b ≢ a → write h a n b ≡ h b
  unfolding write
  write_other h a b n ne = ground arith

  -- A write elsewhere.
  pub Links-write :
      (h : Heap A) (a : ℕ) (n : Option (Node A)) (p : Option ℕ) (cells : List (Cell A))
      (e : Option ℕ)
      → IsFree a cells
      → Links h p cells e
      → Links (write h a n) p cells e
  Links-write h a n p [] e free l = tt
  Links-write h a n p ((b, v) ∷ cells) e free l =
      (write_other h a b n free.0 ∙ l.0, Links-write h a n (some b) cells e free.1 l.1)

  pub Links-append :
      (h : Heap A) (p : Option ℕ) (xs ys : List (Cell A)) (e : Option ℕ)
      → Links h p xs (first ys e)
      → Links h (last p xs) ys e
      → Links h p (xs ++ ys) e
  Links-append h p [] ys e l k = k
  Links-append h p ((a, v) ∷ []) ys e l k = (l.0, k)
  Links-append h p ((a, v) ∷ x ∷ xs) ys e l k = (l.0, Links-append h (some a) (x ∷ xs) ys e l.1 k)

  pub Links-split :
      (h : Heap A) (p : Option ℕ) (xs ys : List (Cell A)) (e : Option ℕ)
      → Links h p (xs ++ ys) e
      → Links h p xs (first ys e) × Links h (last p xs) ys e
  Links-split h p [] ys e l = (tt, l)
  Links-split h p ((a, v) ∷ []) ys e l = ((l.0, tt), l.1)
  Links-split h p ((a, v) ∷ x ∷ xs) ys e l =
      let (m, k) = Links-split h (some a) (x ∷ xs) ys e l.1 in ((l.0, m), k)

  abbrev pub end_of : Cell A → List (Cell A) → ℕ
  end_of (a, _) [] = a
  end_of c (x ∷ xs) = end_of x xs

  pub last-end_of :
      (p : Option ℕ) (x : Cell A) (xs : List (Cell A)) → last p (x ∷ xs) ≡ some (end_of x xs)
  last-end_of p (a, _) [] = refl
  last-end_of p (a, _) (x ∷ xs) = last-end_of (some a) x xs

  pub end_of-IsFree :
      (a : ℕ) (x : Cell A) (xs : List (Cell A)) → IsFree a (x ∷ xs) → end_of x xs ≢ a
  end_of-IsFree a (b, _) [] f = f.0
  end_of-IsFree a (b, _) (x ∷ xs) f = end_of-IsFree a x xs f.1

  -- `last->next = e'`, where `last` is the last of the nodes.
  pub set_next-last :
      (h : Heap A) (p : Option ℕ) (x : Cell A) (xs : List (Cell A)) (e e' : Option ℕ)
      → AreDistinct (x ∷ xs)
      → Links h p (x ∷ xs) e
      → (n : Node A) × (set_next h (end_of x xs) e' ≡ some (write h (end_of x xs) (some n)))
        × Links (write h (end_of x xs) (some n)) p (x ∷ xs) e'
  unfolding set_next
  set_next-last h p (a, v) [] e e' d l = (_, rw (l.0) refl, (write_same h a _, tt))
  set_next-last h p (a, v) (x ∷ xs) e e' d l =
      let (n, eq, k) = set_next-last h (some a) x xs e e' d.1 l.1 in
      (
        n,
        eq,
        (
          write_other h (end_of x xs) a (some n) (λ same. end_of-IsFree a x xs d.0 (sym same))
              ∙ l.0,
          k,
        ),
      )

  -- `first->prev = p'`, where `first` is the first of the nodes.
  pub set_prev-first :
      (h : Heap A) (p p' : Option ℕ) (a : ℕ) (v : A) (xs : List (Cell A)) (e : Option ℕ)
      → IsFree a xs
      → Links h p ((a, v) ∷ xs) e
      → (n : Node A) × (set_prev h a p' ≡ some (write h a (some n)))
        × Links (write h a (some n)) p' ((a, v) ∷ xs) e
  unfolding set_prev
  set_prev-first h p p' a v xs e f l =
      (_, rw (l.0) refl, (write_same h a _, Links-write h a _ (some a) xs e f l.1))

  -- A fresh node, as `create_node` makes it, gets a pointer.
  pub set_prev-lone :
      (h : Heap A) (a : ℕ) (v : A) (e p p' : Option ℕ)
      → h a ≡ some (record { item = v; next = e; prev = p })
      → set_prev h a p' ≡ some (write h a (some (record { item = v; next = e; prev = p' })))
  unfolding set_prev
  set_prev-lone h a v e p p' l = rw l refl

  pub set_next-lone :
      (h : Heap A) (a : ℕ) (v : A) (e e' p : Option ℕ)
      → h a ≡ some (record { item = v; next = e; prev = p })
      → set_next h a e' ≡ some (write h a (some (record { item = v; next = e'; prev = p })))
  unfolding set_next
  set_next-lone h a v e e' p l = rw l refl

  pub IsFree-append :
      (a : ℕ) (xs ys : List (Cell A)) → IsFree a xs → IsFree a ys → IsFree a (xs ++ ys)
  IsFree-append a [] ys f g = g
  IsFree-append a (x ∷ xs) ys f g = (f.0, IsFree-append a xs ys f.1 g)

  pub IsFree-split :
      (a : ℕ) (xs ys : List (Cell A)) → IsFree a (xs ++ ys) → IsFree a xs × IsFree a ys
  IsFree-split a [] ys f = (tt, f)
  IsFree-split a (x ∷ xs) ys f = let (g, k) = IsFree-split a xs ys f.1 in ((f.0, g), k)

  -- Two stretches that share no node.
  abbrev pub AreApart : List (Cell A) → List (Cell A) → Type 0
  AreApart xs ys = All (λ c. IsFree c.0 ys) xs

  pub AreDistinct-append :
      (xs ys : List (Cell A))
      → AreDistinct xs
      → AreDistinct ys
      → AreApart xs ys
      → AreDistinct (xs ++ ys)
  AreDistinct-append [] ys d k f = k
  AreDistinct-append ((a, v) ∷ xs) ys d k f =
      (IsFree-append a xs ys d.0 f.0, AreDistinct-append xs ys d.1 k f.1)

  pub AreDistinct-split :
      (xs ys : List (Cell A))
      → AreDistinct (xs ++ ys)
      → AreDistinct xs × AreDistinct ys × AreApart xs ys
  AreDistinct-split [] ys d = (tt, d, tt)
  AreDistinct-split ((a, v) ∷ xs) ys d =
      let (f, g) = IsFree-split a xs ys d.0 in
      let (dx, dy, k) = AreDistinct-split xs ys d.1 in ((f, dx), dy, (g, k))

  -- What holds of the last node of a stretch that is apart.
  pub end_of-AreApart :
      (x : Cell A) (xs ys : List (Cell A)) → AreApart (x ∷ xs) ys → IsFree (end_of x xs) ys
  end_of-AreApart x [] ys f = f.0
  end_of-AreApart x (y ∷ xs) ys f = end_of-AreApart y xs ys f.1
