-- ===== src/Messages/Run.antt =====
-- week10/main.c: two users at one queue, and the steps of their four processes in any order.
use systemprogramminglab.Prelude.{ℕ, ◌≡◌, length, Lacks, Option, some, List, [], ◌∷◌, ◌>>=◌}
use systemprogramminglab.Messages.{MessageQueue, User, start_user, sender_turn, receiver_turn}

pub record Chat (Queue : Type 0) : Type 0 where
  pub queue : Option Queue
  pub left : User
  pub right : User

-- A round of the parent, or a call of the child at some time, with what its arrays held.
pub data Action : Type 0 where
  sends : List ℕ → Action
  receives : List ℕ → List ℕ → Action

pub data Move : Type 0 where
  of_left of_right : Action → Move

-- The array `text` has 512 bytes, and the time is a text.
abbrev pub IsAction : Action → Type 0
IsAction (sends stale) = length stale ≡ 512
IsAction (receives stale now) = Lacks 0 now

abbrev pub IsMove : Move → Type 0
IsMove (of_left turn) = IsAction turn
IsMove (of_right turn) = IsAction turn

-- The two programs as they are started, and the queue that they find.
unfoldable pub started :
    {Queue : Type 0}
    → Option Queue
    → List ℕ × List ℕ
    → List ℕ × List ℕ
    → List (List ℕ)
    → List (List ℕ)
    → Chat Queue
unfolding start_user
started q ids ids' lines lines' = record {
  queue = q;
  left = start_user ids.0 ids.1 lines;
  right = start_user ids'.0 ids'.1 lines';
}

module _ {Queue : Type 0} (mq : MessageQueue Queue) where
  unfoldable pub act : Action → User → Option Queue → Option (User × Option Queue)
  unfolding sender_turn receiver_turn
  act (sends stale) u q = sender_turn mq stale u q
  act (receives stale now) u q = receiver_turn mq stale now u q

  unfoldable pub next_state : Move → Chat Queue → Option (Chat Queue)
  unfolding act
  next_state (of_left turn) s = do
    (u, q) ← act turn s.left s.queue
    some (record s { queue = q; left = u })
  next_state (of_right turn) s = do
    (u, q) ← act turn s.right s.queue
    some (record s { queue = q; right = u })

  unfoldable pub run_events : List Move → Chat Queue → Option (Chat Queue)
  unfolding next_state
  run_events [] s = some s
  run_events (event ∷ events) s = do t ← next_state event s; run_events events t
