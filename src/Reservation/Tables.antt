-- ===== src/Reservation/Tables.antt =====
-- pa3/pa3_server.c: the three global arrays and the operations on them. A `none` is an access
-- outside an array, which C leaves undefined.
pub mod Valid
pub mod Total
pub mod Booking
pub mod Confirm
pub mod Login
use systemprogramminglab.Prelude.{
  ℕ, zero, suc, ◌+◌, Bool, true, false, not, ◌&&◌, ◌||◌, Option, none, some, List, [], ◌∷◌, ◌++◌,
  ◌==◌, if◌then◌else◌, ◌>>=◌, replicate, take, drop_last, ℤ, pos, ◌==ℤ◌, is_neg, ltb_pos, index,
  store,
}
use systemprogramminglab.Libc.Decimal.{decimal}

abbrev pub num_seat : ℕ
num_seat = 256

abbrev pub max_client : ℕ
max_client = 1024

-- By client id: a password (0: not registered) and a socket (0: not connected); by seat number: a
-- client id (0: not occupied).
pub record Server : Type 0 where
  pub password : List ℤ
  pub session : List ℤ
  pub seats : List ℤ

-- Global arrays start out as zeros.
abbrev pub boot : Server
boot = record {
  password = replicate max_client (pos 0);
  session = replicate max_client (pos 0);
  seats = replicate num_seat (pos 0);
}

unfoldable pub is_logged_in : Server → ℤ → ℤ → Option Bool
is_logged_in s client_id socket = do
  current ← index s.session client_id
  some (not (current ==ℤ pos 0) && (socket ==ℤ current))

-- `session[client_id] = *socket`
unfoldable pub set_session : Server → ℤ → ℤ → Option Server
set_session s client_id socket = do
  session' ← store s.session client_id socket
  some (record s { session = session' })

-- `password[client_id] = pw`
unfoldable pub set_password : Server → ℤ → ℤ → Option Server
set_password s client_id pw = do
  password' ← store s.password client_id pw
  some (record s { password = password' })

-- The part of `login` behind its first test, where the client id is in range.
unfoldable pub register : Server → ℤ → ℤ → ℤ → Option (Bool × Server)
unfolding set_session set_password
register s client_id pw socket = do
  known ← index s.password client_id
  if known ==ℤ pos 0
      then (do
        s' ← set_password s client_id pw
        s'' ← set_session s' client_id socket
        some (true, s''))
      else if known ==ℤ pw
      then (do s' ← set_session s client_id socket; some (true, s'))
      else some (false, s)

-- The operands of `||` are read from left to right: `is_logged_in` comes before the tests of the
-- range of `client_id`.
unfoldable pub login : Server → ℤ → ℤ → ℤ → Option (Bool × Server)
unfolding is_logged_in register
login s client_id pw socket = if is_neg pw then some (false, s) else do
  already ← is_logged_in s client_id socket
  if already || is_neg client_id || not (ltb_pos client_id max_client) then some (false, s) else do
    current ← index s.session client_id
    if not (current ==ℤ pos 0) && not (current ==ℤ socket)
        then some (false, s)
        else register s client_id pw socket

-- What `book` does between lock and unlock; the option is `*seat_num` on success.
unfoldable pub book_locked : Server → ℤ → ℤ → Option (Option ℤ × Server)
book_locked s client_id seat = do
  owner ← index s.seats seat
  if owner ==ℤ pos 0
      then (do seats' ← store s.seats seat client_id; some (some seat, record s { seats = seats' }))
      else some (none, s)

unfoldable pub book : Server → ℤ → ℤ → ℤ → Option (Option ℤ × Server)
unfolding is_logged_in
book s client_id seat socket = do
  here ← is_logged_in s client_id socket
  if not here || is_neg seat || not (ltb_pos seat num_seat)
      then some (none, s)
      else book_locked s client_id seat

-- The round for seat `i`: `snprintf(booked + strlen(booked), 5, "%d,", i)` writes at most four
-- bytes and the NUL.
unfoldable pub note_seat : ℕ → List ℕ → List ℕ
unfolding decimal
note_seat i booked = booked ++ take 4 (decimal i ++ (b',' ∷ []))

-- The loop, with `rounds` rounds left.
unfoldable pub confirm_loop : ℕ → ℕ → Server → ℤ → List ℕ → ℕ → Option (List ℕ × ℕ)
unfolding note_seat
confirm_loop zero i s client_id booked booked_count = some (booked, booked_count)
confirm_loop (suc rounds) i s client_id booked booked_count = do
  owner ← index s.seats (pos i)
  elim (owner ==ℤ client_id) [
    | true ↦ confirm_loop rounds (i + 1) s client_id (note_seat i booked) (booked_count + 1)
    | false ↦ confirm_loop rounds (i + 1) s client_id booked booked_count
  ]

-- What follows the loop: the text left in `booked` where `confirm_booking` returns true.
unfoldable pub confirmed : List ℕ → ℕ → Option (List ℕ)
confirmed booked booked_count = if booked_count == 0 then none else some (drop_last booked)

-- `booked` holds zeros at the call.
unfoldable pub confirm_booking : Server → ℤ → ℤ → Option (Option (List ℕ))
unfolding is_logged_in
confirm_booking s client_id socket = do
  here ← is_logged_in s client_id socket
  if not here then some none else do
    (booked, booked_count) ← confirm_loop num_seat 0 s client_id [] 0
    some (confirmed booked booked_count)

-- What `cancel_booking` does between lock and unlock.
unfoldable pub cancel_locked : Server → ℤ → ℤ → Option (Bool × Server)
cancel_locked s client_id seat = do
  owner ← index s.seats seat
  if owner ==ℤ client_id
      then (do seats' ← store s.seats seat (pos 0); some (true, record s { seats = seats' }))
      else some (false, s)

unfoldable pub cancel_booking : Server → ℤ → ℤ → ℤ → Option (Bool × Server)
unfolding is_logged_in
cancel_booking s client_id seat socket = do
  here ← is_logged_in s client_id socket
  if not here || is_neg seat || not (ltb_pos seat num_seat) then some (false, s) else do
    owner ← index s.seats seat
    if owner ==ℤ pos 0 then some (false, s) else cancel_locked s client_id seat

unfoldable pub logout : Server → ℤ → ℤ → Option (Bool × Server)
unfolding is_logged_in set_session
logout s client_id socket = do
  here ← is_logged_in s client_id socket
  if not here then some (false, s) else do s' ← set_session s client_id (pos 0); some (true, s')
