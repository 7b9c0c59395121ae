-- ===== src/BoundedQueue/Threads.antt =====
-- The producer and the consumer of week15/main.c as a step relation: which turns may follow one
-- another, and what holds of every state that they reach.
use systemprogramminglab.Prelude.{
  ℕ, zero, suc, ◌+◌, ◌-◌, ◌*◌, ◌≤◌, ◌<◌, ◌≡◌, some, List, [], ◌∷◌, ◌++◌, length,
}
use systemprogramminglab.BoundedQueue.{
  qinit, Thread, running, waiting, finished, System, produce_turn, consume_turn,
}
use systemprogramminglab.BoundedQueue.Ring.{IsValid, contents}

-- A turn of a thread that may run.
pub data Turn : System → System → Type 0 where
  produces : {s t : System} → s.producer ≡ running → produce_turn s ≡ some t → Turn s t
  consumes : {s t : System} → s.consumer ≡ running → consume_turn s ≡ some t → Turn s t

-- POSIX lets `pthread_cond_wait` return without a signal.
pub data Step : System → System → Type 0 where
  turns : {s t : System} → Turn s t → Step s t
  wakes_producer : {s : System} → s.producer ≡ waiting → Step s (record s { producer = running })
  wakes_consumer : {s : System} → s.consumer ≡ waiting → Step s (record s { consumer = running })

pub data Reach (s : System) : System → Type 0 where
  here : Reach s s
  then : {t u : System} → Reach s t → Step t u → Reach s u

-- A number of turns in a row, with no wakeup that nobody signalled.
pub data Turns (s : System) : ℕ → System → Type 0 where
  none_yet : Turns s 0 s
  one_more : {k : ℕ} {t u : System} → Turns s k t → Turn t u → Turns s (suc k) u

-- The numbers from `a` on.
unfoldable pub count_from : ℕ → ℕ → List ℕ
count_from a zero = []
count_from a (suc n) = a ∷ count_from (suc a) n

-- `main`: a fresh queue and two threads at the head of their loops.
abbrev pub main : ℕ → ℕ → List ℕ → System
main capacity n_loops cells = record {
  queue = qinit capacity n_loops cells;
  producer = running;
  put_count = 0;
  consumer = running;
  get_count = 0;
  received = [];
}

pub record Invariant (n : ℕ) (s : System) : Type 0 where
  pub valid : IsValid s.queue
  pub loops : s.queue.n_loops ≡ n
  pub put_in : s.put_count ≤ n
  pub balance : s.get_count + s.queue.size ≡ s.put_count
  pub order : s.received ++ contents s.queue ≡ count_from 0 s.put_count
  pub got : length s.received ≡ s.get_count
  pub full : s.producer ≡ waiting → (s.queue.size ≡ s.queue.capacity) × (s.put_count < n)
  pub empty : s.consumer ≡ waiting → (s.queue.size ≡ 0) × (s.get_count < n)
  pub put_all : s.producer ≡ finished → s.put_count ≡ n
  pub got_all : s.consumer ≡ finished → s.get_count ≡ n

-- How many turns a thread can still take without a counter moving.
unfoldable pub awake : Thread → ℕ
awake running = 1
awake waiting = 0
awake finished = 0

-- Falls at every turn, put and get included.
abbrev pub weight : ℕ → System → ℕ
weight n s = (n - s.put_count) * 2 + (n - s.get_count) * 2 + awake s.producer + awake s.consumer
