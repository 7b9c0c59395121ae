-- ===== src/Chat/Loop.antt =====
-- The loop of `main` of week13/server.c over what `select` finds.
use systemprogramminglab.Prelude.{
  ℕ, zero, suc, ◌+◌, ◌<◌, ◌≡◌, Bool, true, false, Option, none, some, List, [], ◌++◌, ◌==◌, ltb,
  if◌then◌else◌, ◌>>=◌, Ok, Ok-bind, arith, Bool-cases, Option-cases, inl, inr, ◌==ℤ◌, pos,
}
use systemprogramminglab.Chat.{
  Room, Message, fd_put, handle_new_connection, handle_client_data, reply_text,
}
use systemprogramminglab.Chat.Broadcast.{IsBounded}

-- What the sockets have: whether they are ready, the socket that `accept` returns, and what is read
-- from each, where `none` is the end of the connection.
pub record Ready : Type 0 where
  pub copyset : ℕ → Bool
  pub accepted : ℕ
  pub received : ℕ → Option Message
  pub stale : List ℕ

-- The body of the loop for the socket `i`.
unfoldable pub handle_socket : Ready → ℕ → Room → Option (List (ℕ × Message) × Room)
unfolding handle_new_connection
handle_socket r i room =
    if r.copyset i
    then (if i == room.listenfd
        then (do opened ← handle_new_connection room r.accepted; some ([], opened))
        else handle_client_data room i r.stale (r.received i))
    else some ([], room)

-- The sockets from `i` on, with `rounds` rounds left; `fdmax` may grow on the way.
unfoldable pub handle_sockets : Ready → ℕ → ℕ → Room → Option (List (ℕ × Message) × Room)
handle_sockets r zero i room = some ([], room)
handle_sockets r (suc rounds) i room =
    if ltb i (room.fdmax + 1)
    then (do
      (sent, s) ← handle_socket r i room
      (more, t) ← handle_sockets r rounds (suc i) s
      some (sent ++ more, t))
    else some ([], room)

-- What follows a `select`. Only the socket that is accepted can raise `fdmax`.
unfoldable pub serve_ready : Ready → Room → Option (List (ℕ × Message) × Room)
unfolding handle_sockets
serve_ready r room = handle_sockets r (room.fdmax + r.accepted + 1) 0 room

-- All monitored sockets are within the bound, which is below FD_SETSIZE, and the listening socket is
-- one of them.
abbrev pub IsOpen : ℕ → Room → Type 0
IsOpen listenfd room =
    IsBounded room
    × ((room.readset listenfd ≡ true) × ((room.listenfd ≡ listenfd) × (room.fdmax < 1024)))

-- The socket accepted is below FD_SETSIZE, and no reply to what is read is too long.
abbrev pub AllFit : Ready → Type 0
AllFit r =
    (r.accepted < 1024)
    × ((i : ℕ) (msg : Message)
        → r.received i ≡ some msg
        → (text : List ℕ) × (reply_text r.stale msg.kind msg.text ≡ some text))

new_IsOpen :
    (l fd : ℕ) (room : Room)
    → fd < 1024
    → IsOpen l room
    → Ok (IsOpen l) (handle_new_connection room fd)
unfolding handle_new_connection fd_put
new_IsOpen l fd room low h =
    let below : ltb fd 1024 ≡ true = ground arith in
    rw below
      ((λ j e. ground (arith, h.0 j)), (ground (arith, h.1.0), (h.1.1.0, ground (arith, h.1.1.1))))

ended_IsOpen :
    (l i : ℕ) (stale : List ℕ) (room : Room)
    → i < room.fdmax + 1
    → IsOpen l room
    → (i == room.listenfd) ≡ false
    → Ok (λ q. IsOpen l q.1) (handle_client_data room i stale none)
unfolding handle_client_data fd_put
ended_IsOpen l i stale room seen h ne =
    let below : ltb i 1024 ≡ true = ground (arith, h.1.1.1) in
    rw below ((λ j e. ground (arith, h.0 j)), (ground (arith, h.1.0, h.1.1.0), h.1.1))

said_IsOpen :
    (l i : ℕ) (stale text : List ℕ) (msg : Message) (room : Room)
    → IsOpen l room
    → reply_text stale msg.kind msg.text ≡ some text
    → Ok (λ q. IsOpen l q.1) (handle_client_data room i stale (some msg))
unfolding handle_client_data
said_IsOpen l i stale text msg room h e = elim (Bool-cases (msg.kind ==ℤ pos 2)) [
  | inl q ↦ rw (e, q) h
  | inr q ↦ rw (e, q) h
]

handle_socket-IsOpen :
    (l i : ℕ) (r : Ready) (room : Room)
    → AllFit r
    → i < room.fdmax + 1
    → IsOpen l room
    → Ok (λ q. IsOpen l q.1) (handle_socket r i room)
unfolding handle_socket
handle_socket-IsOpen l i r room fit seen h = elim (Bool-cases (r.copyset i)) [
  | inr q ↦ rw (q) h
  | inl q ↦ elim (Bool-cases (i == room.listenfd)) [
    | inl e ↦
        rw (q, e)
          (Ok-bind (IsOpen l) (λ q. IsOpen l q.1) (handle_new_connection room r.accepted) _
            (new_IsOpen l r.accepted room fit.0 h) (λ t k. k))
    | inr e ↦ elim (Option-cases (r.received i)) [
      | inl n ↦ rw (q, e, n) (ended_IsOpen l i r.stale room seen h e)
      | inr (msg, n) ↦
          let (text, k) = fit.1 i msg n in rw (q, e, n) (said_IsOpen l i r.stale text msg room h k)
    ]
  ]
]

handle_sockets-IsOpen :
    (l rounds i : ℕ) (r : Ready) (room : Room)
    → AllFit r
    → IsOpen l room
    → Ok (λ q. IsOpen l q.1) (handle_sockets r rounds i room)
unfolding handle_sockets
handle_sockets-IsOpen l zero i r room fit h = h
handle_sockets-IsOpen l (suc rounds) i r room fit h = elim (Bool-cases (ltb i (room.fdmax + 1))) [
  | inr q ↦ rw (q) h
  | inl q ↦ rw (q) (
      Ok-bind _ _ (handle_socket r i room) _ (handle_socket-IsOpen l i r room fit (ground arith) h)
        λ s k.
          Ok-bind _ _ (handle_sockets r rounds (suc i) s.1) _
            (handle_sockets-IsOpen l rounds (suc i) r s.1 fit k) λ t m. m)
]

-- Whatever is ready, accepted and read, as long as every socket accepted is below FD_SETSIZE and no
-- reply is too long for its array: the server goes on to the next `select` with the listening socket monitored and every monitored socket within
-- the bound.
pub serve_ready-IsOpen :
    (l : ℕ) (r : Ready) (room : Room)
    → AllFit r
    → IsOpen l room
    → Ok (λ q. IsOpen l q.1) (serve_ready r room)
unfolding serve_ready
serve_ready-IsOpen l r room fit h =
    handle_sockets-IsOpen l (room.fdmax + r.accepted + 1) 0 r room fit h
