-- ===== src/Reservation/Query.antt =====
-- pa3/pa3_server.c: `handle_query` and `client_handler`, one connection's side of the protocol.
use systemprogramminglab.Prelude.{
  ℕ, Bool, true, false, ◌&&◌, ◌||◌, Option, none, some, List, [], ◌∷◌, if◌then◌else◌, ◌>>=◌, ℤ, pos,
  negsuc, ◌==ℤ◌,
}
use systemprogramminglab.Libc.Decimal.{format_int}
use systemprogramminglab.Reservation.Tables.{
  Server, login, book, confirm_booking, cancel_booking, logout,
}

-- `query`, as `read` fills it.
pub record Query : Type 0 where
  pub user : ℤ
  pub action : ℤ
  pub payload : ℤ

-- What the `switch` leaves behind: `response` where it sets `success`, and the tables.
abbrev pub Outcome : Type 0
Outcome = Option (List ℕ) × Server

abbrev pub one : List ℕ
one = b'1' ∷ []

-- The text of a call that only reports success.
abbrev pub if_done : List ℕ → Bool × Server → Outcome
if_done text (true, s) = (some text, s)
if_done text (false, s) = (none, s)

abbrev pub if_booked : Option ℤ × Server → Outcome
if_booked (some seat_num, s) = (some (format_int seat_num), s)
if_booked (none, s) = (none, s)

-- The cases of the `switch` from 3 on, and its default.
unfoldable pub answer_late : Server → ℤ → Query → Option Outcome
answer_late s client_socket q =
    if q.action ==ℤ pos 3
    then (do text ← confirm_booking s q.user client_socket; some (text, s))
    else if q.action ==ℤ pos 4
    then (do
      r ← cancel_booking s q.user q.payload client_socket
      some (if_done (format_int q.payload) r))
    else if q.action ==ℤ pos 5
    then (do r ← logout s q.user client_socket; some (if_done one r))
    else some (none, s)

-- The `switch` of `handle_query`.
unfoldable pub answer : Server → ℤ → Query → Option Outcome
answer s client_socket q =
    if q.action ==ℤ pos 0
    then some (
      if (q.payload ==ℤ pos 0) && (q.user ==ℤ pos 0) then some (format_int (pos 256)) else none,
      s,
    )
    else if q.action ==ℤ pos 1
    then (do r ← login s q.user q.payload client_socket; some (if_done one r))
    else if q.action ==ℤ pos 2
    then (do r ← book s q.user q.payload client_socket; some (if_booked r))
    else answer_late s client_socket q

-- The bytes written to the socket, whether the thread ends here, and the tables.
pub record Handled : Type 0 where
  pub sent : List ℕ
  pub ended : Bool
  pub tables : Server

abbrev pub respond : Query → Outcome → Handled
respond q (some text, s) = record { sent = text; ended = q.action ==ℤ pos 0; tables = s }
respond q (none, s) = record { sent = format_int (negsuc 0); ended = false; tables = s }

unfoldable pub handle_query : Server → ℤ → Query → Option Handled
unfolding answer
handle_query s client_socket q = do outcome ← answer s client_socket q; some (respond q outcome)

-- `client_handler` over the queries that its reads deliver; the end of the list is the read that
-- returns 0. The replies sent, and the tables.
unfoldable pub client_handler : Server → ℤ → List Query → Option (List (List ℕ) × Server)
client_handler s client_socket [] = some ([], s)
client_handler s client_socket (q ∷ queries) = do
  h ← handle_query s client_socket q
  let rest = client_handler h.tables client_socket queries
  if h.ended || (q.action ==ℤ pos 0)
      then some (h.sent ∷ [], h.tables)
      else (do (replies, s') ← rest; some (h.sent ∷ replies, s'))
