-- ===== src/Chat/Server.antt =====
-- `main` of week13/server.c: its arguments, the listening socket, and the loop around `select`.
use systemprogramminglab.Prelude.{
  ℕ, ◌<◌, ◌-◌, ◌==◌, ltb, ◌≡◌, refl, ◌∙◌, sym, ap, Bool, true, false, Option, none, some, List, [],
  ◌∷◌, ◌++◌, if◌then◌else◌, ◌>>=◌, Ok, Ok-bind, All, ◌%◌, append-nil, arith, ℤ, pos, negsuc,
}
use systemprogramminglab.Libc.Decimal.{decimal, strtol, read_digits, strtol-decimal}
use systemprogramminglab.Libc.Decimal.Casts.{strtol_long, strtol_long-fits}
use systemprogramminglab.Libc.Decimal.Ends.{strtol_end, skip_digits, strtol_end-decimal}
use systemprogramminglab.Chat.{Room, Message, fd_put}
use systemprogramminglab.Chat.Loop.{Ready, serve_ready, IsOpen, AllFit, serve_ready-IsOpen}

pub data ExitCode : Type 0 where
  success socket_creation_failure select_failure write_failure read_failure : ExitCode
  invalid_arguments invalid_port_number accept_failure bind_failure listen_failure : ExitCode

pub data Port : Type 0 where
  port : ℤ → Port
  no_port : ExitCode → Port

abbrev pub port_of : List ℕ → List ℕ → Port
port_of text [] = port (strtol_long text)
port_of text (c ∷ rest) = no_port invalid_port_number

-- `get_port`, on `argv`.
unfoldable pub get_port : List (List ℕ) → Port
unfolding strtol_long strtol_end
get_port (program ∷ text ∷ []) = port_of text (strtol_end text)
get_port others = no_port invalid_arguments

-- What the system answers: the listening socket, if there is one, and whether `bind` to a port and
-- `listen` succeed.
pub record Network : Type 0 where
  pub socket : Option ℕ
  pub binds : ℕ → Bool
  pub listens : Bool

pub data Start : Type 0 where
  refused : ExitCode → Start
  serving : Room → Start

-- `main` before its loop: only the listening socket is monitored.
abbrev pub first_room : ℕ → Option Room
unfolding fd_put
first_room listenfd = do
  readset ← fd_put (λ j. false) listenfd true
  some (record { readset = readset; fdmax = listenfd; active_users = pos 0; listenfd = listenfd })

-- `create_listening_socket`, and what `main` does with the socket; `none` is a write outside a set.
abbrev pub bound : Network → ℕ → ℕ → Option Start
bound net number listenfd =
    if net.binds number
    then (if net.listens
        then (do room ← first_room listenfd; some (serving room))
        else some (refused listen_failure))
    else some (refused bind_failure)

abbrev pub create_listening_socket : Network → ℕ → Option ℕ → Option Start
create_listening_socket net number none = some (refused socket_creation_failure)
create_listening_socket net number (some listenfd) = bound net number listenfd

-- `htons` keeps 16 bits.
abbrev pub port_bits : ℤ → ℕ
port_bits (pos n) = n % 65536
port_bits (negsuc n) = 65535 - n % 65536

abbrev pub listen_at : Network → Port → Option Start
listen_at net (no_port code) = some (refused code)
listen_at net (port i) = create_listening_socket net (port_bits i) net.socket

unfoldable pub start_server : Network → List (List ℕ) → Option Start
unfolding get_port fd_put
start_server net argv = listen_at net (get_port argv)

-- The loop of `main`, for what `select` finds in each round: what is sent, and the room behind it.
unfoldable pub server_rounds : List Ready → Room → Option (List (ℕ × Message) × Room)
unfolding serve_ready
server_rounds [] room = some ([], room)
server_rounds (r ∷ rs) room = do
  (sent, next) ← serve_ready r room
  (more, last) ← server_rounds rs next
  some (sent ++ more, last)

first_room-IsOpen :
    (listenfd : ℕ)
    → listenfd < 1024
    → (room : Room) × (first_room listenfd ≡ some room) × IsOpen listenfd room
unfolding fd_put
first_room-IsOpen listenfd low =
    let below : ltb listenfd 1024 ≡ true = ground arith in
    (
      record {
        readset = λ j. if j == listenfd then true else false;
        fdmax = listenfd;
        active_users = pos 0;
        listenfd = listenfd;
      },
      rw below refl,
      ((λ j e. ground arith), (ground arith, (refl, low))),
    )

rounds-IsOpen :
    (l : ℕ) (rs : List Ready) (room : Room)
    → All AllFit rs
    → IsOpen l room
    → Ok (λ q. IsOpen l q.1) (server_rounds rs room)
unfolding server_rounds
rounds-IsOpen l [] room fit h = h
rounds-IsOpen l (r ∷ rs) room fit h =
    Ok-bind (λ q. IsOpen l q.1) (λ q. IsOpen l q.1) (serve_ready r room) _
      (serve_ready-IsOpen l r room fit.0 h)
      (λ q k.
        Ok-bind (λ q. IsOpen l q.1) (λ q. IsOpen l q.1) (server_rounds rs q.1) _
          (rounds-IsOpen l rs q.1 fit.1 k) (λ t m. m))

-- With a number below 65536 as its only argument, a socket below FD_SETSIZE, and `bind` to that port
-- and `listen` that succeed, the server reaches its loop; whatever `select` then finds in any number
-- of rounds, as long as every socket accepted is below FD_SETSIZE and no reply is too long, nothing
-- is written outside an array or a set of sockets, and behind the rounds the listening socket is
-- still monitored and no monitored socket is above `fdmax`, which is below FD_SETSIZE (1024).
pub server_rounds-IsOpen :
    (net : Network) (program : List ℕ) (p listenfd : ℕ) (rs : List Ready)
    → p < 65536
    → listenfd < 1024
    → net.socket ≡ some listenfd
    → net.binds p ≡ true
    → net.listens ≡ true
    → All AllFit rs
    → (room : Room) × (start_server net (program ∷ decimal p ∷ []) ≡ some (serving room))
      × Ok (λ q. IsOpen listenfd q.1) (server_rounds rs room)
unfolding start_server get_port read_digits skip_digits
server_rounds-IsOpen net program p listenfd rs small low s b k fit =
    let at : strtol_long (decimal p) ≡ pos p =
      strtol_long-fits (decimal p) p
        (ap strtol (sym (append-nil (decimal p))) ∙ strtol-decimal p []) (omega arith) in
    let end : strtol_end (decimal p) ≡ [] =
      ap strtol_end (sym (append-nil (decimal p))) ∙ strtol_end-decimal p [] in
    let same : p % 65536 ≡ p = omega arith in
    let (room, first, opened) = first_room-IsOpen listenfd low in
    (room, rw (end, at, same, s, b, k, first) refl, rounds-IsOpen listenfd rs room fit opened)
