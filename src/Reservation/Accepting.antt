-- ===== src/Reservation/Accepting.antt =====
-- `main` of pa3/pa3_server.c: the listening socket, and the threads that are made for connections.
use systemprogramminglab.Prelude.{
  ℕ, zero, suc, ◌+◌, ◌≡◌, ◌∙◌, sym, ap, Bool, Option, none, some, List, [], ◌∷◌, ◌++◌, ◌>>=◌, map,
  if◌then◌else◌, replicate, length, append_assoc, append-nil, arith,
}
use systemprogramminglab.Libc.Decimal.Casts.{strtol_long}
use systemprogramminglab.Reservation.Options.{port_bits}

-- `main` before the loop, for `argv[1]` and for whether `bind` to a port and `listen` succeed;
-- `none` is an access through NULL. `returns` has the value of `return`.
pub data Bound : Type 0 where
  returns : ℕ → Bound
  listens_at : ℕ → Bound

unfoldable pub listen_on : (ℕ → Bool) → Bool → Option (List ℕ) → Option Bound
unfolding strtol_long
listen_on binds listens none = none
listen_on binds listens (some text) =
    let port = port_bits (strtol_long text) in
    some (if binds port then (if listens then listens_at port else returns 2) else returns 1)

-- The loop. Every thread is given the address of the one variable `client_socket`, which has the
-- same place in each round, and reads it when it starts to run. `created` counts the threads that
-- have not, and `served` has the sockets that were read. An
-- `accept` that fails ends the program and is no turn.
pub record Acceptor : Type 0 where
  pub client_socket : ℕ
  pub created : ℕ
  pub served : List ℕ

pub data Acceptance : Type 0 where
  accepts : ℕ → Acceptance
  starts : Acceptance

-- `none` where no thread is left to start.
abbrev pub start_thread : Acceptor → ℕ → Option Acceptor
start_thread s zero = none
start_thread s (suc left) =
    some (record s { created = left; served = s.served ++ (s.client_socket ∷ []) })

unfoldable pub accept_turn : Acceptance → Acceptor → Option Acceptor
accept_turn (accepts socket) s = some (record s { client_socket = socket; created = s.created + 1 })
accept_turn starts s = start_thread s s.created

unfoldable pub accept_turns : List Acceptance → Acceptor → Option Acceptor
unfolding accept_turn
accept_turns [] s = some s
accept_turns (e ∷ es) s = do t ← accept_turn e s; accept_turns es t

-- Each thread starts before the next connection is accepted.
abbrev pub one_by_one : List ℕ → List Acceptance
one_by_one [] = []
one_by_one (socket ∷ sockets) = accepts socket ∷ starts ∷ one_by_one sockets

abbrev pub acceptor : ℕ → ℕ → List ℕ → Acceptor
acceptor socket created served = record {
  client_socket = socket;
  created = created;
  served = served;
}

abbrev pub last_socket : ℕ → List ℕ → ℕ
last_socket socket [] = socket
last_socket socket (next ∷ sockets) = last_socket next sockets

-- Then every connection is served once, in order.
pub serves_each :
    (sockets : List ℕ) (x : ℕ) (served : List ℕ)
    → accept_turns (one_by_one sockets) (acceptor x 0 served)
      ≡ some (acceptor (last_socket x sockets) 0 (served ++ sockets))
unfolding accept_turns accept_turn
serves_each [] x served = ap (λ l. some (acceptor x 0 l)) (sym (append-nil served))
serves_each (socket ∷ sockets) x served =
    serves_each sockets socket (served ++ (socket ∷ []))
    ∙ ap (λ l. some (acceptor (last_socket socket sockets) 0 l))
        (append_assoc served (socket ∷ []) sockets)

abbrev pub all_accepted : List ℕ → List Acceptance
all_accepted = map (λ socket. accepts socket)

accept_all :
    (sockets : List ℕ) (x n : ℕ) (served : List ℕ) (es : List Acceptance)
    → accept_turns (all_accepted sockets ++ es) (acceptor x n served)
      ≡ accept_turns es (acceptor (last_socket x sockets) (n + length sockets) served)
unfolding accept_turns accept_turn
accept_all [] x n served es = ap (λ k. accept_turns es (acceptor x k served)) {x = n} (omega arith)
accept_all (socket ∷ sockets) x n served es =
    accept_all sockets socket (n + 1) served es
    ∙ ap (λ k. accept_turns es (acceptor (last_socket socket sockets) k served))
        {x = n + 1 + length sockets} (omega arith)

start_all :
    (n x : ℕ) (served : List ℕ)
    → accept_turns (replicate n starts) (acceptor x n served)
      ≡ some (acceptor x 0 (served ++ replicate n x))
unfolding accept_turns accept_turn
start_all zero x served = ap (λ l. some (acceptor x 0 l)) (sym (append-nil served))
start_all (suc n) x served =
    start_all n x (served ++ (x ∷ []))
    ∙ ap (λ l. some (acceptor x 0 l)) (append_assoc served (x ∷ []) (replicate n x))

-- Where the connections are accepted before any of their threads starts, every thread serves the
-- last of them, and the others are served by none.
pub serves_last :
    (sockets : List ℕ) (x : ℕ) (served : List ℕ)
    → accept_turns (all_accepted sockets ++ replicate (length sockets) starts) (acceptor x 0 served)
      ≡ some (
          acceptor
            (last_socket x sockets)
            0
            (served ++ replicate (length sockets) (last_socket x sockets)))
serves_last sockets x served =
    accept_all sockets x 0 served (replicate (length sockets) starts)
    ∙ ap
        (λ k.
          accept_turns (replicate (length sockets) starts)
            (acceptor (last_socket x sockets) k served))
        {x = 0 + length sockets} (omega arith)
    ∙ start_all (length sockets) (last_socket x sockets) served
