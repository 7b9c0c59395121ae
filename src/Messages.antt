-- ===== src/Messages.antt =====
-- week10/main.c: two users who chat through a System V message queue. Each runs a parent that
-- sends and a child that receives and acknowledges; a step is one call on the queue.
pub mod Bytes
pub mod Run
pub mod Flow
pub mod Invariant
pub mod Exchanges
pub mod Sending
pub mod Turns
pub mod Delivery
pub mod Drain
pub mod Ids
mod Tests
use systemprogramminglab.Prelude.{
  ℕ, suc, ◌+◌, ◌-◌, ◌*◌, ◌/◌, ◌%◌, ◌<◌, ◌≡◌, Option, none, some, List, [], ◌∷◌, ◌++◌, ◌==◌, ltb,
  if◌then◌else◌, ◌>>=◌, length, take, drop, codes, ℤ, pos, negsuc,
}
use systemprogramminglab.Libc.Texts.{c_text, same}
use systemprogramminglab.Libc.Decimal.Casts.{int_word, int_of, to_int, strtol_int}

-- The calls of the system on a queue, for positive types: `msgsnd` (`none` is -1; a call that has
-- to wait for room is the step of its return) and `msgrcv` with `IPC_NOWAIT`. `waiting` has the
-- messages of a type, the oldest first.
pub record MessageQueue (Queue : Type 0) : Type 0 where
  pub empty : Queue
  pub msgsnd : Queue → ℤ → List ℕ → Option Queue
  pub msgrcv : Queue → ℤ → Option (List ℕ × Queue)
  pub waiting : Queue → ℕ → List (List ℕ)
  pub waiting-empty : (t : ℕ) → waiting empty t ≡ []
  pub sends :
      (q : Queue) (t : ℕ) (m : List ℕ) → 0 < t → (q' : Queue) × (msgsnd q (pos t) m ≡ some q')
  pub waiting-sent :
      (q q' : Queue) (t u : ℕ) (m : List ℕ)
      → 0 < t
      → msgsnd q (pos t) m ≡ some q'
      → waiting q' u ≡ (if u == t then waiting q u ++ (m ∷ []) else waiting q u)
  pub receives_none : (q : Queue) (t : ℕ) → 0 < t → waiting q t ≡ [] → msgrcv q (pos t) ≡ none
  pub receives :
      (q : Queue) (t : ℕ) (m : List ℕ) (ms : List (List ℕ))
      → 0 < t
      → waiting q t ≡ m ∷ ms
      → (q' : Queue) × (msgrcv q (pos t) ≡ some (m, q'))
        × ((u : ℕ) → waiting q' u ≡ (if u == t then ms else waiting q u))

-- `T_MSG + id`, an `int` that wraps around.
unfoldable pub ack_type : ℤ → ℤ
unfolding to_int
ack_type (pos n) = to_int (pos (20 + n))
ack_type (negsuc n) = if ltb n 20 then pos (19 - n) else negsuc (n - 20)

-- The four bytes of an `int`, the lowest first.
unfoldable pub int_bytes : ℤ → List ℕ
int_bytes i =
    let w = int_word i in w % 256 ∷ w / 256 % 256 ∷ w / 65536 % 256 ∷ w / 16777216 % 256 ∷ []

unfoldable pub bytes_int : List ℕ → ℤ
bytes_int (a ∷ b ∷ c ∷ d ∷ rest) = int_of (a + 256 * b + 65536 * c + 16777216 * d)
bytes_int short = pos 0

-- What `%s` prints of an array; `none` is a read past its end.
unfoldable pub string_in : List ℕ → Option (List ℕ)
string_in [] = none
string_in (c ∷ s) =
    let rest = string_in s in if c == 0 then some [] else (do t ← rest; some (c ∷ t))

-- `strcpy` into an array that held `stale`; `none` is a write past its end.
unfoldable pub strcpy : List ℕ → List ℕ → Option (List ℕ)
strcpy stale s =
    if ltb (length s) (length stale) then some (s ++ (0 ∷ drop (length s + 1) stale)) else none

-- What `msgsnd` takes of a `msgbuf`: `sizeof(buf.text)` bytes, which begin with the sender.
unfoldable pub message_bytes : List ℕ → ℤ → List ℕ → Option (List ℕ)
unfolding strcpy int_bytes
message_bytes stale sender line = do
  text ← strcpy stale line
  some (take 512 (int_bytes sender ++ text))

-- What is printed of a `msgbuf` that held `stale`, once `msgrcv` has put `m` at its start.
unfoldable pub read_message : List ℕ → List ℕ → Option (ℤ × List ℕ)
unfolding bytes_int string_in
read_message stale m = do
  let buf = m ++ drop (length m) stale
  text ← string_in (drop 4 buf)
  some (bytes_int buf, text)

-- The acknowledgement of the time `now`, and what is printed of one.
unfoldable pub ack_bytes : List ℕ → List ℕ → List ℕ
ack_bytes stale now = now ++ (0 ∷ drop (length now + 1) stale)

unfoldable pub read_ack : List ℕ → List ℕ → Option (List ℕ)
unfolding string_in
read_ack stale m = string_in (m ++ drop (length m) stale)

pub data Sender : Type 0 where
  running : Sender
  exited : ℕ → Sender

-- The call that the child makes next; `interrupted` is SIGINT, `failed` is `exit(1)`.
pub data Receiver : Type 0 where
  receiving acking confirming interrupted failed : Receiver

-- A user's two processes. `lines` is what is still to be typed; the other lists are the texts
-- sent, the messages printed, and the times acknowledged and printed so far.
pub record User : Type 0 where
  pub user_id : ℤ
  pub receiver_id : ℤ
  pub parent : Sender
  pub child : Receiver
  pub lines : List (List ℕ)
  pub sent : List (List ℕ)
  pub received : List (ℤ × List ℕ)
  pub acked : List (List ℕ)
  pub confirmed : List (List ℕ)

-- `get_id`
unfoldable pub get_id : List ℕ → ℤ
unfolding strtol_int
get_id input = strtol_int input

-- What `main` has before its loops.
unfoldable pub start_user : List ℕ → List ℕ → List (List ℕ) → User
unfolding get_id
start_user user receiver lines = record {
  user_id = get_id user;
  receiver_id = get_id receiver;
  parent = running;
  child = receiving;
  lines = lines;
  sent = [];
  received = [];
  acked = [];
  confirmed = [];
}

unfoldable pub stop : Receiver → Receiver
stop failed = failed
stop c = interrupted

module _ {Queue : Type 0} (mq : MessageQueue Queue) where
  -- `msgget` with `IPC_CREAT`
  abbrev pub created : Option Queue → Queue
  created none = mq.empty
  created (some q) = q

  abbrev pub after_send : User → List ℕ → List (List ℕ) → Queue → Option Queue → User × Option Queue
  after_send u line lines q none = (record u { lines = lines; parent = exited 1 }, some q)
  after_send u line lines q (some q') =
      (record u { lines = lines; sent = u.sent ++ (line ∷ []) }, some q')

  -- One round of the parent's loop; `stale` is what the array `text` held.
  abbrev pub send_line : List ℕ → User → Queue → List (List ℕ) → Option (User × Option Queue)
  send_line stale u q [] = some (record u { parent = exited 1 }, some q)
  send_line stale u q (typed ∷ lines) =
      let line = c_text typed in
      if same line (codes "quit\n")
      then some (record u { lines = lines; parent = exited 0; child = stop u.child }, some q)
      else (do
        m ← message_bytes stale u.user_id line
        some (after_send u line lines q (mq.msgsnd q u.receiver_id m)))

  abbrev pub handle_parent : List ℕ → User → Option Queue → Sender → Option (User × Option Queue)
  handle_parent stale u q running = send_line stale u (created q) u.lines
  handle_parent stale u q (exited code) = some (u, q)

  unfoldable pub sender_turn : List ℕ → User → Option Queue → Option (User × Option Queue)
  unfolding message_bytes c_text same stop
  sender_turn stale u q = handle_parent stale u q u.parent

  -- `msgrcv` and `msgsnd` fail while there is no queue.
  abbrev pub receive_now : Option Queue → ℤ → Option (List ℕ × Queue)
  receive_now none t = none
  receive_now (some q) t = mq.msgrcv q t

  abbrev pub send_now : Option Queue → ℤ → List ℕ → Option Queue
  send_now none t m = none
  send_now (some q) t m = mq.msgsnd q t m

  abbrev pub handle_message :
      List ℕ → User → Option Queue → Option (List ℕ × Queue) → Option (User × Option Queue)
  handle_message stale u q none = some (record u { child = confirming }, q)
  handle_message stale u q (some (m, q')) = do
    message ← read_message stale m
    some (record u { child = acking; received = u.received ++ (message ∷ []) }, some q')

  abbrev pub handle_ack : List ℕ → User → Option Queue → Option Queue → User × Option Queue
  handle_ack now u q none = (record u { child = failed }, q)
  handle_ack now u q (some q') =
      (record u { child = confirming; acked = u.acked ++ (now ∷ []) }, some q')

  abbrev pub handle_confirmed :
      List ℕ → User → Option Queue → Option (List ℕ × Queue) → Option (User × Option Queue)
  handle_confirmed stale u q none = some (record u { child = receiving }, q)
  handle_confirmed stale u q (some (m, q')) = do
    time ← read_ack stale m
    some (record u { child = receiving; confirmed = u.confirmed ++ (time ∷ []) }, some q')

  abbrev pub handle_child :
      List ℕ → List ℕ → User → Option Queue → Receiver → Option (User × Option Queue)
  handle_child stale now u q receiving = handle_message stale u q (receive_now q u.user_id)
  handle_child stale now u q acking =
      some (handle_ack now u q (send_now q (ack_type u.receiver_id) (ack_bytes stale now)))
  handle_child stale now u q confirming =
      handle_confirmed stale u q (receive_now q (ack_type u.user_id))
  handle_child stale now u q interrupted = some (u, q)
  handle_child stale now u q failed = some (u, q)

  -- The child's next call on the queue, when its arrays hold `stale` and the time is `now`.
  unfoldable pub receiver_turn :
      List ℕ → List ℕ → User → Option Queue → Option (User × Option Queue)
  unfolding read_message read_ack ack_bytes ack_type
  receiver_turn stale now u q = handle_child stale now u q u.child
