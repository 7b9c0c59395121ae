-- ===== src/BoundedQueue.antt =====
-- week15/main.c: the circular array of `queue_t`, and a producer and a consumer that share it.
pub mod Ring
pub mod Threads
pub mod Turns
pub mod Progress
mod Tests
use systemprogramminglab.Prelude.{
  ℕ, zero, suc, ◌+◌, ◌-◌, ◌%◌, Bool, true, false, Option, none, some, List, [], ◌∷◌, ◌++◌, ltb,
  ◌==◌, if◌then◌else◌, ◌>>=◌, length, get_elem?, set, replicate,
}

-- `queue_t`, without its lock and conditions. The values put are the counters of a loop, so that
-- they are not negative. `cells` is the array `data`.
pub record Queue : Type 0 where
  pub put_index : ℕ
  pub get_index : ℕ
  pub size : ℕ
  pub capacity : ℕ
  pub n_loops : ℕ
  pub cells : List ℕ

-- The bytes that `malloc` leaves in `data` are unknown: they are an argument.
unfoldable pub qinit : ℕ → ℕ → List ℕ → Queue
qinit capacity n_loops cells = record {
  put_index = 0;
  get_index = 0;
  size = 0;
  capacity = capacity;
  n_loops = n_loops;
  cells = cells;
}

-- What `put_data` does once the queue is not full; `none` is a write outside the array.
unfoldable pub put_data : Queue → ℕ → Option Queue
put_data q value =
    if ltb q.put_index (length q.cells)
    then some (record q {
      cells = set q.cells q.put_index value;
      put_index = (q.put_index + 1) % q.capacity;
      size = q.size + 1;
    })
    else none

-- What `get_data` does once the queue is not empty.
unfoldable pub get_data : Queue → Option (ℕ × Queue)
get_data q = do
  value ← get_elem? q.cells q.get_index
  some (value, record q { get_index = (q.get_index + 1) % q.capacity; size = q.size - 1 })

-- A thread: on its way to the lock, in `pthread_cond_wait`, or past its loop.
pub data Thread : Type 0 where
  running waiting finished : Thread

-- The queue and the two threads. `put_count` and `get_count` are the loop counters; `received` are
-- the values that `get_data` has returned.
pub record System : Type 0 where
  pub queue : Queue
  pub producer : Thread
  pub put_count : ℕ
  pub consumer : Thread
  pub get_count : ℕ
  pub received : List ℕ

unfoldable pub signal : Thread → Thread
signal waiting = running
signal t = t

-- A turn of the producer: from the test of its loop, or from the return of `pthread_cond_wait`, to
-- the next unlock. It holds the lock all the while, so that the turns do not overlap.
unfoldable pub produce_turn : System → Option System
unfolding put_data signal
produce_turn s =
    if s.put_count == s.queue.n_loops
    then some (record s { producer = finished })
    else if s.queue.size == s.queue.capacity
    then some (record s { producer = waiting })
    else (do
      q ← put_data s.queue s.put_count
      some (record s { queue = q; put_count = s.put_count + 1; consumer = signal s.consumer }))

unfoldable pub consume_turn : System → Option System
unfolding get_data signal
consume_turn s =
    if s.get_count == s.queue.n_loops
    then some (record s { consumer = finished })
    else if s.queue.size == 0
    then some (record s { consumer = waiting })
    else (do
      (value, q) ← get_data s.queue
      some (record s {
        queue = q;
        get_count = s.get_count + 1;
        producer = signal s.producer;
        received = s.received ++ (value ∷ []);
      }))
