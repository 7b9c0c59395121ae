-- ===== src/BoundedQueue/Progress.antt =====
-- The producer and the consumer of week15/main.c together: what every schedule keeps, that no
-- schedule gets stuck, and that all of them end with every value delivered.
use systemprogramminglab.Prelude.{
  ℕ, zero, suc, ◌+◌, ◌*◌, ◌≤◌, ◌<◌, ◌≡◌, refl, ◌∙◌, sym, ap, subst, inl, inr, ◌⊎◌, Option, none,
  some, List, [], ◌∷◌, ◌++◌, append-nil, arith, length,
}
use systemprogramminglab.BoundedQueue.{
  Queue, Thread, running, waiting, finished, System, produce_turn, consume_turn, qinit,
}
use systemprogramminglab.BoundedQueue.Ring.{IsValid, contents, slots, qinit-IsValid}
use systemprogramminglab.BoundedQueue.Threads.{
  Turn, produces, consumes, Step, turns, wakes_producer, wakes_consumer, Reach, here, then, Turns,
  none_yet, one_more, main, count_from, Invariant, awake, weight,
}
use systemprogramminglab.BoundedQueue.Turns.{Advances, produce_turn_lem, consume_turn_lem}

some_inj : {A : Type 0} {a b : A} → some a ≡ some b → a ≡ b
some_inj {a = a} e = ap (λ o. elim o [ some x ↦ x | none ↦ a ]) e

from_Advances :
    (n : ℕ) (s t : System) (o : Option System)
    → Advances n s o
    → o ≡ some t
    → Invariant n t × (weight n t < weight n s)
from_Advances n s t o (u, e, v, less) f =
    subst (λ x. Invariant n x × (weight n x < weight n s)) (some_inj (sym e ∙ f)) (v, less)

Turn-Advances :
    (n : ℕ) (s t : System) → Invariant n s → Turn s t → Invariant n t × (weight n t < weight n s)
Turn-Advances n s t v (produces e f) =
    from_Advances n s t (produce_turn s) (produce_turn_lem n s v e) f
Turn-Advances n s t v (consumes e f) =
    from_Advances n s t (consume_turn s) (consume_turn_lem n s v e) f

main-Invariant :
    (capacity n : ℕ) (cells : List ℕ)
    → 0 < capacity
    → length cells ≡ capacity
    → Invariant n (main capacity n cells)
unfolding qinit slots count_from
main-Invariant capacity n cells h room =
    let (v, _) = qinit-IsValid capacity n cells h room in
    record {
      valid = v;
      loops = refl;
      put_in = omega arith;
      balance = omega arith;
      order = refl;
      got = refl;
      full = λ w. ground arith;
      empty = λ w. ground arith;
      put_all = λ w. ground arith;
      got_all = λ w. ground arith;
    }

Step-Invariant : (n : ℕ) (s t : System) → Invariant n s → Step s t → Invariant n t
Step-Invariant n s t v (turns x) = let (w, _) = Turn-Advances n s t v x in w
Step-Invariant n s _ v (wakes_producer e) = record {
  valid = v.valid;
  loops = v.loops;
  put_in = v.put_in;
  balance = v.balance;
  order = v.order;
  got = v.got;
  full = λ w. ground arith;
  empty = v.empty;
  put_all = λ w. ground arith;
  got_all = v.got_all;
}
Step-Invariant n s _ v (wakes_consumer e) = record {
  valid = v.valid;
  loops = v.loops;
  put_in = v.put_in;
  balance = v.balance;
  order = v.order;
  got = v.got;
  full = v.full;
  empty = λ w. ground arith;
  put_all = v.put_all;
  got_all = λ w. ground arith;
}

Reach-Invariant : (n : ℕ) (s t : System) → Invariant n s → Reach s t → Invariant n t
Reach-Invariant n s t v here = v
Reach-Invariant n s t v (then {t = u} r x) = Step-Invariant n u t (Reach-Invariant n s u v r) x

-- For a capacity that is not 0, and an array of as many cells: whatever the schedule and the
-- wakeups, the queue of `main` stays valid, it never holds more than
-- its capacity, and what the consumer has received, followed by what the queue holds, is what the
-- producer has put: the numbers from zero on, each once and in order.
pub queue_order :
    (capacity n : ℕ) (cells : List ℕ) (s : System)
    → 0 < capacity
    → length cells ≡ capacity
    → Reach (main capacity n cells) s
    → IsValid s.queue
      × (s.received ++ contents s.queue ≡ count_from 0 s.put_count)
      × (length s.received ≡ s.get_count)
      × (s.put_count ≤ n)
queue_order capacity n cells s h room r =
    let v =
      Reach-Invariant n (main capacity n cells) s (main-Invariant capacity n cells h room) r in
    (v.valid, v.order, v.got, v.put_in)

Thread-cases : (t : Thread) → (t ≡ running) ⊎ ((t ≡ waiting) ⊎ (t ≡ finished))
Thread-cases running = inl refl
Thread-cases waiting = inr (inl refl)
Thread-cases finished = inr (inr refl)

abbrev pub AllFinished : System → Type 0
AllFinished s = (s.producer ≡ finished) × (s.consumer ≡ finished)

-- One of the threads can move, since they never both wait and neither waits for one that is gone.
Invariant-moves : (n : ℕ) (s : System) → Invariant n s → AllFinished s ⊎ ((t : System) × Turn s t)
Invariant-moves n s v = elim (Thread-cases s.producer) [
  | inl e ↦ let (t, f, _, _) = produce_turn_lem n s v e in inr (t, produces e f)
  | inr p ↦ elim (Thread-cases s.consumer) [
    | inl e ↦ let (t, f, _, _) = consume_turn_lem n s v e in inr (t, consumes e f)
    | inr c ↦ elim p [
      | inl pw ↦
          let (full, more) = v.full pw in
          elim c [
            | inl cw ↦ let (empty, _) = v.empty cw in absurd (omega (arith, v.valid.positive))
            | inr cf ↦ absurd (omega (arith, v.got_all cf, v.balance, v.valid.positive))
          ]
      | inr pf ↦ elim c [
        | inl cw ↦ let (empty, more) = v.empty cw in absurd (omega (arith, v.put_all pf, v.balance))
        | inr cf ↦ inl (pf, cf)
      ]
    ]
  ]
]

-- No deadlock and no lost wakeup, for a capacity that is not 0 and an array of as many cells: in
-- every reachable state in which not both threads have ended, one of them can take a turn without
-- a wakeup that nobody signalled.
pub no_deadlock :
    (capacity n : ℕ) (cells : List ℕ) (s : System)
    → 0 < capacity
    → length cells ≡ capacity
    → Reach (main capacity n cells) s
    → AllFinished s ⊎ ((t : System) × Turn s t)
no_deadlock capacity n cells s h room r =
    Invariant-moves n s
      (Reach-Invariant n (main capacity n cells) s (main-Invariant capacity n cells h room) r)

Turns-weight :
    (n : ℕ) (s : System) (k : ℕ) (t : System)
    → Invariant n s
    → Turns s k t
    → Invariant n t × (weight n t + k ≤ weight n s)
Turns-weight n s _ t v none_yet = (v, omega arith)
Turns-weight n s _ t v (one_more {k = k} {t = u} more x) =
    let (w, less) = Turns-weight n s k u v more in
    let (z, small) = Turn-Advances n u t w x in (z, omega arith)

prepend : (s t : System) → Turn s t → (k : ℕ) (u : System) → Turns t k u → Turns s (suc k) u
prepend s t x _ u none_yet = one_more none_yet x
prepend s t x _ u (one_more {k = k} {t = w} ts y) = one_more (prepend s t x k w ts) y

nil-of_length : (xs : List ℕ) → length xs ≡ 0 → xs ≡ []
nil-of_length [] h = refl
nil-of_length (x ∷ xs) h = ground arith

slots_zero : (q : Queue) → q.size ≡ 0 → contents q ≡ []
unfolding slots
slots_zero q e = rw e refl

Invariant-delivered :
    (n : ℕ) (s : System) → Invariant n s → AllFinished s → s.received ≡ count_from 0 n
Invariant-delivered n s v (p, c) =
    sym (append-nil s.received)
    ∙ ap (λ xs. s.received ++ xs)
        (sym (slots_zero s.queue (omega (arith, v.balance, v.put_all p, v.got_all c))))
    ∙ v.order
    ∙ ap (count_from 0) (v.put_all p)

-- When both threads have ended, after whatever schedule and wakeups, the consumer has received all
-- the values of the producer, each once and in order.
pub delivered :
    (capacity n : ℕ) (cells : List ℕ) (s : System)
    → 0 < capacity
    → length cells ≡ capacity
    → Reach (main capacity n cells) s
    → AllFinished s
    → s.received ≡ count_from 0 n
delivered capacity n cells s h room r done =
    Invariant-delivered n s
      (Reach-Invariant n (main capacity n cells) s (main-Invariant capacity n cells h room) r) done

-- Any schedule of turns without stray wakeups has at most four turns for each value, and two.
pub turn_bound :
    (capacity n k : ℕ) (cells : List ℕ) (s : System)
    → 0 < capacity
    → length cells ≡ capacity
    → Turns (main capacity n cells) k s
    → k ≤ 4 * n + 2
unfolding awake
turn_bound capacity n k cells s h room ts =
    let (_, le) =
      Turns-weight n (main capacity n cells) k s (main-Invariant capacity n cells h room) ts in
    omega arith

finish_within :
    (n fuel : ℕ) (s : System)
    → Invariant n s
    → weight n s ≤ fuel
    → (k : ℕ) × (t : System) × Turns s k t × AllFinished t
finish_within n zero s v le = elim (Invariant-moves n s v) [
  | inl done ↦ (0, s, none_yet, done)
  | inr (t, x) ↦ let (_, less) = Turn-Advances n s t v x in absurd (omega arith)
]
finish_within n (suc fuel) s v le = elim (Invariant-moves n s v) [
  | inl done ↦ (0, s, none_yet, done)
  | inr (t, x) ↦
      let (w, less) = Turn-Advances n s t v x in
      let (k, u, ts, done) = finish_within n fuel t w (omega arith) in
      (suc k, u, prepend s t x k u ts, done)
]

-- For a capacity that is not 0 and an array of as many cells: from every reachable state some
-- turns in a row end both threads, and then the consumer has received all the values of the
-- producer, each once and in order.
pub terminates :
    (capacity n : ℕ) (cells : List ℕ) (s : System)
    → 0 < capacity
    → length cells ≡ capacity
    → Reach (main capacity n cells) s
    → (k : ℕ) × (t : System) × Turns s k t × AllFinished t × (t.received ≡ count_from 0 n)
terminates capacity n cells s h room r =
    let v =
      Reach-Invariant n (main capacity n cells) s (main-Invariant capacity n cells h room) r in
    let (k, t, ts, done) = finish_within n (weight n s) s v (omega arith) in
    let (w, _) = Turns-weight n s k t v ts in (k, t, ts, done, Invariant-delivered n t w done)
