-- ===== src/BoundedQueue/Tests.antt =====
-- The theorems on week15/main.c at a queue of two cells.
use systemprogramminglab.Prelude.{ℕ, ◌≡◌, ◌+◌, ◌≤◌, ◌*◌, ◌⊎◌, refl, [], ◌∷◌, ◌++◌, arith, length}
use systemprogramminglab.BoundedQueue.{
  Queue, qinit, put_data, get_data, waiting, finished, System, signal, produce_turn, consume_turn,
}
use systemprogramminglab.BoundedQueue.Ring.{IsValid, contents}
use systemprogramminglab.BoundedQueue.Threads.{
  Turn, produces, consumes, turns, Reach, here, then, Turns, none_yet, one_more, main, count_from,
}
use systemprogramminglab.BoundedQueue.Progress.{
  AllFinished, queue_order, no_deadlock, terminates, turn_bound,
}

-- The last cell is taken, and the next put goes to the first.
abbrev half : Queue
half = record {
  put_index = 0;
  get_index = 1;
  size = 1;
  capacity = 2;
  n_loops = 3;
  cells = 8 ∷ 9 ∷ [];
}

half-IsValid : IsValid half
half-IsValid = record {
  room = refl;
  positive = omega arith;
  get_in = omega arith;
  size_in = omega arith;
  put_at = refl;
}

-- One value, of which the producer has put none and the consumer waits.
abbrev small : System
small = main 2 1 (0 ∷ 0 ∷ [])

abbrev asleep : System
asleep = record small { consumer = waiting }

small_waits : Turn small asleep
unfolding qinit consume_turn
small_waits = consumes refl refl

abbrev put_once : System
put_once = record small {
  queue = record {
    put_index = 1;
    get_index = 0;
    size = 1;
    capacity = 2;
    n_loops = 1;
    cells = 0 ∷ 0 ∷ [];
  };
  put_count = 1;
}

asleep_put : Turn asleep put_once
unfolding qinit produce_turn put_data signal
asleep_put = produces refl refl

abbrev put_all : System
put_all = record put_once { producer = finished }

put_ends : Turn put_once put_all
unfolding qinit produce_turn
put_ends = produces refl refl

abbrev got_once : System
got_once = record put_all {
  queue = record {
    put_index = 1;
    get_index = 1;
    size = 0;
    capacity = 2;
    n_loops = 1;
    cells = 0 ∷ 0 ∷ [];
  };
  get_count = 1;
  received = 0 ∷ [];
}

get_one : Turn put_all got_once
unfolding qinit consume_turn get_data signal
get_one = consumes refl refl

abbrev ended : System
ended = record got_once { consumer = finished }

get_ends : Turn got_once ended
unfolding qinit consume_turn
get_ends = consumes refl refl

small-put_all : Reach small put_all
small-put_all = then (then (then here (turns small_waits)) (turns asleep_put)) (turns put_ends)

small-ended : Reach small ended
small-ended = then (then small-put_all (turns get_one)) (turns get_ends)

queue_order_example :
    IsValid put_all.queue
    × (put_all.received ++ contents put_all.queue ≡ count_from 0 put_all.put_count)
    × (length put_all.received ≡ put_all.get_count)
    × (put_all.put_count ≤ 1)
queue_order_example = queue_order 2 1 (0 ∷ 0 ∷ []) put_all (omega arith) refl small-put_all

no_deadlock_example : AllFinished put_all ⊎ ((t : System) × Turn put_all t)
no_deadlock_example = no_deadlock 2 1 (0 ∷ 0 ∷ []) put_all (omega arith) refl small-put_all

terminates_example :
    (k : ℕ) × (t : System) × Turns put_all k t × AllFinished t × (t.received ≡ count_from 0 1)
terminates_example = terminates 2 1 (0 ∷ 0 ∷ []) put_all (omega arith) refl small-put_all

all_turns : Turns small 5 ended
all_turns =
    one_more
      (one_more (one_more (one_more (one_more none_yet small_waits) asleep_put) put_ends) get_one)
      get_ends

turn_bound_example : 5 ≤ 4 * 1 + 2
turn_bound_example = turn_bound 2 1 5 (0 ∷ 0 ∷ []) ended (omega arith) refl all_turns
