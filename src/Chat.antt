-- ===== src/Chat.antt =====
-- week13/server.c: the set of connections of the chat server, and what it sends to whom.
pub mod Broadcast
pub mod Client
pub mod Loop
pub mod Server
mod Tests
use systemprogramminglab.Prelude.{
  ℕ, zero, suc, ◌+◌, Bool, true, false, not, ◌&&◌, Option, none, some, List, [], ◌∷◌, ◌++◌, map,
  ◌==◌, ltb, if◌then◌else◌, ◌>>=◌, length, take, codes, ℤ, pos, ◌==ℤ◌, inc, dec,
}

-- `readset`, `fdmax` and `active_users`, with `listenfd`.
pub record Room : Type 0 where
  pub readset : ℕ → Bool
  pub fdmax : ℕ
  pub active_users : ℤ
  pub listenfd : ℕ

-- The texts are those up to the first NUL.
pub record Message : Type 0 where
  pub username : List ℕ
  pub text : List ℕ
  pub kind : ℤ

-- `FD_SET` and `FD_CLR`; `none` is a write outside the set, which has FD_SETSIZE bits.
unfoldable pub fd_put : (ℕ → Bool) → ℕ → Bool → Option (ℕ → Bool)
fd_put readset fd b = if ltb fd 1024 then some (λ j. if j == fd then b else readset j) else none

unfoldable pub handle_new_connection : Room → ℕ → Option Room
unfolding fd_put
handle_new_connection room conn_fd = do
  readset ← fd_put room.readset conn_fd true
  some (record room {
    readset = readset;
    fdmax = if ltb room.fdmax conn_fd then conn_fd else room.fdmax;
    active_users = inc room.active_users;
  })

-- The text of the reply; `stale` is what its array holds where nothing is written. For a chat
-- message `snprintf` is allowed two bytes more than the array has: `none` is a write outside it.
unfoldable pub reply_text : List ℕ → ℤ → List ℕ → Option (List ℕ)
reply_text stale kind text =
    if kind ==ℤ pos 0
    then some (codes " has joined the chat.\n")
    else if kind ==ℤ pos 1
    then (if ltb (length text + 2) 82 then some (b':' ∷ b' ' ∷ text) else none)
    else if kind ==ℤ pos 2
    then some (codes " has left the chat.\n")
    else some stale

-- The sockets `j` that are written to, from `j` on, with `rounds` rounds left.
unfoldable pub recipients : Room → ℕ → ℕ → ℕ → List ℕ
recipients room i j zero = []
recipients room i j (suc rounds) =
    let rest = recipients room i (j + 1) rounds in
    if room.readset j && (not (j == room.listenfd) && not (j == i)) then j ∷ rest else rest

-- The message that is sent on; its type is always 2.
abbrev pub response : Message → List ℕ → Message
response msg text = record { username = take 19 msg.username; text = text; kind = pos 2 }

-- What the server sends, and to whom, and the room behind it. The outer `none` is a write outside
-- an array; for `msg` it is a connection that has ended.
unfoldable pub handle_client_data :
    Room → ℕ → List ℕ → Option Message → Option (List (ℕ × Message) × Room)
unfolding reply_text recipients fd_put
handle_client_data room i stale none = do
  readset ← fd_put room.readset i false
  some ([], record room { readset = readset })
handle_client_data room i stale (some msg) = do
  text ← reply_text stale msg.kind msg.text
  some (
    map (λ j. (j, response msg text)) (recipients room i 0 (room.fdmax + 1)),
    if msg.kind ==ℤ pos 2 then record room { active_users = dec room.active_users } else room,
  )
