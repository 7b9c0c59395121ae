-- ===== src/Chat/Tests.antt =====
-- The theorems on week13/server.c in a room of two.
use systemprogramminglab.Prelude.{
  ℕ, ◌≡◌, ◌≢◌, refl, Bool, true, false, ◌||◌, ◌==◌, if◌then◌else◌, none, some, List, [], ◌∷◌, ◌++◌,
  arith, replicate, All, All-replicate, Lacks, Ok, codes, pos,
}
use systemprogramminglab.Libc.Texts.{same}
use systemprogramminglab.Libc.Decimal.{decimal}
use systemprogramminglab.Chat.Client.Program.{Woken, success, farewell, run_client}
use systemprogramminglab.Chat.Client.Conversation.{
  IsRound, quits, leaving, all_said, all_heard, run_client_lem,
}
use systemprogramminglab.Chat.Server.{
  Network, serving, start_server, server_rounds, server_rounds-IsOpen,
}
use systemprogramminglab.Chat.Client.{joining, says, handle_input, handle_server_response}
use systemprogramminglab.Chat.Client.Said.{said}
use systemprogramminglab.Chat.Loop.{Ready, IsOpen, AllFit}
use systemprogramminglab.Chat.{Room, Message, reply_text, handle_client_data}
use systemprogramminglab.Chat.Broadcast.{IsBounded, among, hears, sockets}

abbrev room : Room
room = record {
  readset = λ j. (j == 3) || ((j == 4) || (j == 5));
  fdmax = 5;
  active_users = pos 2;
  listenfd = 3;
}

room-IsBounded : IsBounded room
room-IsBounded = λ j e. ground arith

abbrev hello : Message
hello = record { username = b'a' ∷ []; text = b'h' ∷ b'i' ∷ []; kind = pos 1 }

hello_fits : reply_text [] hello.kind hello.text ≡ some (b':' ∷ b' ' ∷ b'h' ∷ b'i' ∷ [])
unfolding reply_text
hello_fits = refl

abbrev long : Message
long = record hello { text = replicate 81 b'a' }

abbrev line : List ℕ
line = b'h' ∷ b'i' ∷ b'\n' ∷ []

line_fits : Lacks 0 line
line_fits = ground arith

not_quit : same line (codes "quit\n") ≡ false
unfolding same
not_quit = refl

said_example :
    (msg : Message) × (sent : List (ℕ × Message)) × (handle_input (b'a' ∷ []) line
      ≡ some (says msg))
    × (handle_client_data room 4 [] (some msg) ≡ some (sent, room))
    × ((j : ℕ) → among j (sockets sent) ≡ hears room 4 j)
    × All (λ r. handle_server_response r.1 ≡ some ((b'a' ∷ []) ++ (b':' ∷ b' ' ∷ line))) sent
said_example =
    said room 4 [] (b'a' ∷ []) line room-IsBounded (omega arith) (cc) line_fits not_quit
      (omega arith)

abbrev name : List ℕ
name = replicate 10 b'n'

abbrev long_line : List ℕ
long_line = b'h' ∷ replicate 75 b'i'

long_line_fits : Lacks 0 long_line
long_line_fits = ((cc), All-replicate (λ c. c ≢ 0) 75 b'i' (cc))

not_quit_either : same long_line (codes "quit\n") ≡ false
unfolding same
not_quit_either = refl

-- A new connection, and a greeting from socket 4.
abbrev busy : Ready
busy = record {
  copyset = λ i. (i == 3) || (i == 4);
  accepted = 6;
  received = λ i. if i == 4 then some hello else none;
  stale = [];
}

says_hello : (b : Bool) (msg : Message) → (if b then some hello else none) ≡ some msg → msg ≡ hello
says_hello true msg e = cc
says_hello false msg e = absurd (cc)

busy-AllFit : AllFit busy
unfolding reply_text
busy-AllFit =
    (omega arith, λ i msg e. rw (says_hello (i == 4) msg e) (b':' ∷ b' ' ∷ b'h' ∷ b'i' ∷ [], refl))

abbrev port_80 : Network
port_80 = record { socket = some 3; binds = λ p. p == 80; listens = true }

server_rounds-IsOpen_example :
    (start : Room) × (start_server port_80 (codes "server" ∷ decimal 80 ∷ [])
      ≡ some (serving start))
    × Ok (λ q. IsOpen 3 q.1) (server_rounds (busy ∷ []) start)
server_rounds-IsOpen_example =
    server_rounds-IsOpen port_80 (codes "server") 80 3 (busy ∷ []) (omega arith) (omega arith) refl
      refl refl (busy-AllFit, tt)

abbrev talk : List Woken
talk =
    record { typed = some line; answered = none }
    ∷ record { typed = none; answered = some (some hello) }
    ∷ []

talk-IsRound : All IsRound talk
talk-IsRound = ((((cc), omega arith, line_fits, not_quit), tt), ((tt, omega arith), tt))

run_client_lem_example :
    run_client (b'a' ∷ []) (talk ++ (quits none ∷ []))
    ≡ some (record {
      sent = joining (b'a' ∷ []) ∷ (all_said (b'a' ∷ []) talk ++ (leaving (b'a' ∷ []) ∷ []));
      printed = all_heard talk ++ farewell;
      exit = some success;
    })
run_client_lem_example = run_client_lem (b'a' ∷ []) talk [] none (omega arith) talk-IsRound
