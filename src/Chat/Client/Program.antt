-- ===== src/Chat/Client/Program.antt =====
-- `main` of week13/client.c: its arguments, the connection, and the loop around `select`.
use systemprogramminglab.Prelude.{
  ℕ, Option, none, some, List, [], ◌∷◌, ◌++◌, if◌then◌else◌, ◌>>=◌, Bool, take, drop_last, codes, ℤ,
  ◌%◌, pos,
}
use systemprogramminglab.Libc.Decimal.Casts.{strtol_long}
use systemprogramminglab.Libc.Decimal.Ends.{strtol_end}
use systemprogramminglab.Chat.{Message}
use systemprogramminglab.Chat.Client.{
  Input, ended, says, leaves, handle_input, joining, handle_server_response,
}

pub data ExitCode : Type 0 where
  success socket_creation_failure connection_failure select_failure write_failure : ExitCode
  read_failure invalid_arguments invalid_port_number getaddrinfo_failure server_down : ExitCode

pub data Port : Type 0 where
  port : ℤ → Port
  no_port : ExitCode → Port

abbrev pub port_of : List ℕ → List ℕ → Port
port_of text [] = port (strtol_long text)
port_of text (c ∷ rest) = no_port invalid_port_number

-- `get_port`, on `argv`.
unfoldable pub get_port : List (List ℕ) → Port
unfolding strtol_long strtol_end
get_port (program ∷ host ∷ text ∷ []) = port_of text (strtol_end text)
get_port others = no_port invalid_arguments

-- `argv[1]`, which is NULL behind the last argument.
abbrev pub second : List (List ℕ) → Option (List ℕ)
second [] = none
second (a ∷ []) = none
second (a ∷ b ∷ more) = some b

-- `fgets` into `username`, and the NUL in place of the last byte; with nothing to read the array is
-- not set.
unfoldable pub read_username : List ℕ → Option (List ℕ)
read_username [] = none
read_username (c ∷ line) = some (drop_last (take 19 (c ∷ line)))

-- What the system answers: whether there is a socket, the address of a host, and whether the
-- connection to an address and a port is made.
pub record Network : Type 0 where
  pub has_socket : Bool
  pub get_socket_address : Option (List ℕ) → Option ℕ
  pub connects : ℕ → ℕ → Bool

pub data Start : Type 0 where
  refused : ExitCode → Start
  connected : List ℕ → Start

-- `htons`, of a number that is not negative; others are not considered.
abbrev pub htons : ℤ → Option ℕ
htons (pos n) = some (n % 65536)
htons others = none

abbrev pub connect : Network → List ℕ → ℕ → Port → Option Start
connect net username address (no_port code) = some (refused code)
connect net username address (port p) = do
  number ← htons p
  some (if net.connects address number then connected username else refused connection_failure)

abbrev pub look_up : Network → List ℕ → List (List ℕ) → Option ℕ → Option Start
look_up net username argv none = some (refused getaddrinfo_failure)
look_up net username argv (some address) = connect net username address (get_port argv)

-- `main` up to the connection.
unfoldable pub start_client : Network → List (List ℕ) → List ℕ → Option Start
unfolding get_port read_username
start_client net argv line = do
  username ← read_username line
  if net.has_socket
      then look_up net username argv (net.get_socket_address (second argv))
      else some (refused socket_creation_failure)

-- What `select` finds: the bytes that are read from the terminal, if it is ready, and what is read
-- from the server, if it is, where the inner `none` is the end of the connection.
pub record Woken : Type 0 where
  pub typed : Option (List ℕ)
  pub answered : Option (Option Message)

-- What a client has sent and printed, and how it has ended, if it has.
pub record Outcome : Type 0 where
  pub sent : List Message
  pub printed : List ℕ
  pub exit : Option ExitCode

-- `exit_handler`
abbrev pub farewell : List ℕ
farewell = codes "Bye!\n"

abbrev pub handle_answer : Option (Option Message) → Option Outcome
handle_answer none = some (record { sent = []; printed = []; exit = none })
handle_answer (some none) = some (record {
  sent = [];
  printed = codes "Connection with the server has been terminated.\n" ++ farewell;
  exit = some server_down;
})
handle_answer (some (some msg)) = do
  text ← handle_server_response msg
  some (record { sent = []; printed = text; exit = none })

abbrev pub typed_input : List ℕ → Option (List ℕ) → Option Input
typed_input username none = some ended
typed_input username (some bytes) = handle_input username bytes

abbrev pub handle_typed : Input → Option (Option Message) → Option Outcome
handle_typed ended answered = handle_answer answered
handle_typed (leaves msg) answered =
    some (record { sent = msg ∷ []; printed = farewell; exit = some success })
handle_typed (says msg) answered = do
  o ← handle_answer answered
  some (record o { sent = msg ∷ o.sent })

abbrev pub followed_by : Outcome → Option ExitCode → Option Outcome → Option Outcome
followed_by o (some code) later = some o
followed_by o none later = do
  p ← later
  some (record { sent = o.sent ++ p.sent; printed = o.printed ++ p.printed; exit = p.exit })

-- The loop of `main`, for what `select` finds in each round.
unfoldable pub client_rounds : List ℕ → List Woken → Option Outcome
unfolding handle_input handle_server_response
client_rounds username [] = some (record { sent = []; printed = []; exit = none })
client_rounds username (w ∷ ws) =
    let later = client_rounds username ws in
    do
      input ← typed_input username w.typed
      o ← handle_typed input w.answered
      followed_by o o.exit later

-- From the first message on.
unfoldable pub run_client : List ℕ → List Woken → Option Outcome
unfolding client_rounds joining
run_client username ws = do
  o ← client_rounds username ws
  some (record o { sent = joining username ∷ o.sent })
