-- ===== src/BoundedQueue/Turns.antt =====
-- What one turn of a thread of week15/main.c does to the invariant.
use systemprogramminglab.Prelude.{
  ℕ, zero, suc, ◌+◌, ◌≤◌, ◌<◌, ◌≡◌, ◌≢◌, refl, ◌∙◌, sym, ap, inl, inr, Option, some, [], ◌∷◌, ◌++◌,
  length-append, append_assoc, arith, ◌==◌, Bool-cases,
}
use systemprogramminglab.BoundedQueue.{
  Queue, put_data, Thread, running, waiting, finished, System, signal, produce_turn, consume_turn,
}
use systemprogramminglab.BoundedQueue.Ring.{IsValid, contents, put_data_lem, get_data_lem}
use systemprogramminglab.BoundedQueue.Threads.{count_from, Invariant, awake, weight}

count_from-suc : (a n : ℕ) → count_from a (suc n) ≡ count_from a n ++ ((a + n) ∷ [])
unfolding count_from
count_from-suc a zero = ap (λ k. k ∷ []) (omega arith)
count_from-suc a (suc n) =
    ap (λ t. a ∷ t)
      (count_from-suc (suc a) n ∙ ap (λ k. count_from (suc a) n ++ (k ∷ [])) (omega arith))

count_to : (n : ℕ) → count_from 0 n ++ (n ∷ []) ≡ count_from 0 (n + 1)
count_to n =
    ap (λ k. count_from 0 n ++ (k ∷ [])) (omega arith)
    ∙ sym (count_from-suc 0 n)
    ∙ ap (count_from 0) (omega arith)

awake-signal : (t : Thread) → awake (signal t) ≤ awake t + 1
unfolding awake signal
awake-signal running = ground arith
awake-signal waiting = ground arith
awake-signal finished = ground arith

signal_ne_waiting : (t : Thread) → signal t ≢ waiting
unfolding signal
signal_ne_waiting running = λ e. ground arith
signal_ne_waiting waiting = λ e. ground arith
signal_ne_waiting finished = λ e. ground arith

signal_finished : (t : Thread) → signal t ≡ finished → t ≡ finished
unfolding signal
signal_finished running e = ground arith
signal_finished waiting e = ground arith
signal_finished finished e = refl

-- What a turn keeps and how far it goes.
abbrev pub Advances : ℕ → System → Option System → Type 0
Advances n s o = (t : System) × (o ≡ some t) × Invariant n t × (weight n t < weight n s)

produces_one :
    (n : ℕ) (s : System)
    → Invariant n s
    → s.producer ≡ running
    → s.put_count ≢ n
    → s.queue.size ≢ s.queue.capacity
    → (q : Queue) → put_data s.queue s.put_count ≡ some q
    → IsValid q
    → contents q ≡ contents s.queue ++ (s.put_count ∷ [])
    → q.size ≡ s.queue.size + 1
    → q.n_loops ≡ s.queue.n_loops
    → let t = record s { queue = q; put_count = s.put_count + 1; consumer = signal s.consumer } in
      Invariant n t × (weight n t < weight n s)
unfolding awake
produces_one n s v e ne room q eq vq cont size loops = (
  record {
    valid = vq;
    loops = loops ∙ v.loops;
    put_in = omega (arith, v.put_in);
    balance = omega (arith, v.balance);
    order =
        ap (λ xs. s.received ++ xs) cont
        ∙ sym (append_assoc s.received (contents s.queue) (s.put_count ∷ []))
        ∙ ap (λ xs. xs ++ (s.put_count ∷ [])) v.order
        ∙ count_to s.put_count;
    got = v.got;
    full = λ w. ground arith;
    empty = λ w. absurd (signal_ne_waiting s.consumer w);
    put_all = λ w. ground arith;
    got_all = λ w. v.got_all (signal_finished s.consumer w);
  },
  omega (arith, awake-signal s.consumer, v.put_in, ap awake e),
)

pub produce_turn_lem :
    (n : ℕ) (s : System) → Invariant n s → s.producer ≡ running → Advances n s (produce_turn s)
unfolding produce_turn awake
produce_turn_lem n s v e = elim (Bool-cases (s.put_count == s.queue.n_loops)) [
  | inl past ↦ (
    record s { producer = finished },
    rw past refl,
    record {
      valid = v.valid;
      loops = v.loops;
      put_in = v.put_in;
      balance = v.balance;
      order = v.order;
      got = v.got;
      full = λ w. ground arith;
      empty = v.empty;
      put_all = λ w. ground (arith, v.loops);
      got_all = v.got_all;
    },
    omega (arith, ap awake e),
  )
  | inr more ↦ elim (Bool-cases (s.queue.size == s.queue.capacity)) [
    | inl full ↦ (
      record s { producer = waiting },
      rw (more, full) refl,
      record {
        valid = v.valid;
        loops = v.loops;
        put_in = v.put_in;
        balance = v.balance;
        order = v.order;
        got = v.got;
        full = λ w. (ground arith, ground (arith, v.loops, v.put_in));
        empty = v.empty;
        put_all = λ w. ground arith;
        got_all = v.got_all;
      },
      omega (arith, ap awake e),
    )
    | inr room ↦
        let (q, eq, vq, cont, size, _, loops) =
          put_data_lem s.queue s.put_count v.valid (ground arith) in
        let (next, less) =
          produces_one n s v e (ground (arith, v.loops)) (ground arith) q eq vq cont size loops in
        (_, rw (more, room, eq) refl, next, less)
  ]
]

consumes_one :
    (n : ℕ) (s : System)
    → Invariant n s
    → s.consumer ≡ running
    → s.get_count ≢ n
    → (value : ℕ) (q : Queue) → IsValid q
    → contents s.queue ≡ value ∷ contents q
    → q.size + 1 ≡ s.queue.size
    → q.n_loops ≡ s.queue.n_loops
    → let t = record s {
      queue = q;
      get_count = s.get_count + 1;
      producer = signal s.producer;
      received = s.received ++ (value ∷ []);
    } in
      Invariant n t × (weight n t < weight n s)
unfolding awake
consumes_one n s v e ne value q vq cont size loops = (
  record {
    valid = vq;
    loops = loops ∙ v.loops;
    put_in = v.put_in;
    balance = omega (arith, v.balance);
    order =
        append_assoc s.received (value ∷ []) (contents q)
        ∙ ap (λ xs. s.received ++ xs) (sym cont)
        ∙ v.order;
    got = length-append s.received (value ∷ []) ∙ ap (λ k. k + 1) v.got;
    full = λ w. absurd (signal_ne_waiting s.producer w);
    empty = λ w. ground arith;
    put_all = λ w. v.put_all (signal_finished s.producer w);
    got_all = λ w. ground arith;
  },
  omega (arith, awake-signal s.producer, v.put_in, v.balance, ap awake e),
)

pub consume_turn_lem :
    (n : ℕ) (s : System) → Invariant n s → s.consumer ≡ running → Advances n s (consume_turn s)
unfolding consume_turn awake
consume_turn_lem n s v e = elim (Bool-cases (s.get_count == s.queue.n_loops)) [
  | inl past ↦ (
    record s { consumer = finished },
    rw past refl,
    record {
      valid = v.valid;
      loops = v.loops;
      put_in = v.put_in;
      balance = v.balance;
      order = v.order;
      got = v.got;
      full = v.full;
      empty = λ w. ground arith;
      put_all = v.put_all;
      got_all = λ w. ground (arith, v.loops);
    },
    omega (arith, ap awake e),
  )
  | inr more ↦ elim (Bool-cases (s.queue.size == 0)) [
    | inl none_left ↦ (
      record s { consumer = waiting },
      rw (more, none_left) refl,
      record {
        valid = v.valid;
        loops = v.loops;
        put_in = v.put_in;
        balance = v.balance;
        order = v.order;
        got = v.got;
        full = v.full;
        empty = λ w. (ground arith, ground (arith, v.loops, v.put_in, v.balance));
        put_all = v.put_all;
        got_all = λ w. ground arith;
      },
      omega (arith, ap awake e),
    )
    | inr held ↦
        let (value, q, eq, vq, cont, size, _, loops) =
          get_data_lem s.queue v.valid (ground arith) in
        let (next, less) =
          consumes_one n s v e (ground (arith, v.loops)) value q vq cont size loops in
        (_, rw (more, held, eq) refl, next, less)
  ]
]
