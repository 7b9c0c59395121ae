-- ===== src/Chat/Client/Said.antt =====
-- From what one client types to what the others print.
use systemprogramminglab.Prelude.{
  ℕ, suc, ◌+◌, ◌≡◌, ◌≢◌, ◌≤◌, ◌<◌, refl, ◌∙◌, ap, false, none, some, List, [], ◌∷◌, ◌++◌, map,
  lt→ltb, length, codes, pos, All, Lacks, arith, take_all,
}
use systemprogramminglab.Libc.Texts.{c_text_whole, same}
use systemprogramminglab.Chat.{Room, Message, reply_text, recipients, handle_client_data}
use systemprogramminglab.Chat.Broadcast.{
  IsBounded, among, hears, sockets, recipients_lem, sockets-map,
}
use systemprogramminglab.Chat.Client.{says, handle_input, handle_server_response}

abbrev pub spoken : List ℕ → List ℕ → Message
spoken username line = record { username = username; text = line; kind = pos 1 }

abbrev relayed : List ℕ → List ℕ → Message
relayed username line = record { username = username; text = b':' ∷ b' ' ∷ line; kind = pos 2 }

pub handle_input_says :
    (username line : List ℕ)
    → length username ≤ 19
    → line ≢ []
    → length line < 80
    → Lacks 0 line
    → same line (codes "quit\n") ≡ false
    → handle_input username line ≡ some (says (spoken username line))
unfolding handle_input
handle_input_says username [] u ne l h q = absurd (ne refl)
handle_input_says username (c ∷ line) u ne l h q =
    rw
      (
        c_text_whole (c ∷ line) h,
        lt→ltb (length (c ∷ line)) 80 l,
        q,
        take_all 19 username u,
        take_all 79 (c ∷ line) (omega arith),
      )
      refl

abbrev Prints : List ℕ → ℕ × Message → Type 0
Prints text (j, msg) = handle_server_response msg ≡ some text

relayed-Prints :
    (username line : List ℕ) (j : ℕ)
    → length username + length line < 80
    → Prints (username ++ (b':' ∷ b' ' ∷ line)) (j, relayed username line)
unfolding handle_server_response
relayed-Prints username line j h =
    rw (lt→ltb (length username + suc (suc (length line))) 82 (omega arith)) refl

All-map :
    (P : ℕ × Message → Type 0) (m : Message)
    → ((j : ℕ) → P (j, m))
    → (js : List ℕ) → All P (map (λ j. (j, m)) js)
All-map P m h [] = tt
All-map P m h (j ∷ js) = (h j, All-map P m h js)

server_relays :
    (room : Room) (i : ℕ) (stale username line : List ℕ)
    → length username ≤ 19
    → length line < 80
    → handle_client_data room i stale (some (spoken username line))
      ≡ some (map (λ j. (j, relayed username line)) (recipients room i 0 (room.fdmax + 1)), room)
unfolding handle_client_data reply_text
server_relays room i stale username line u l =
    rw (lt→ltb (length line + 2) 82 (omega arith), take_all 19 username u) refl

-- What all the others do with a line that is said.
abbrev Relays : (ℕ × Message → Type 0) → Room → ℕ → List ℕ → List ℕ → List ℕ → Type 0
Relays P room i stale username line =
    (msg : Message) × (sent : List (ℕ × Message)) × (handle_input username line ≡ some (says msg))
    × (handle_client_data room i stale (some msg) ≡ some (sent, room))
    × ((j : ℕ) → among j (sockets sent) ≡ hears room i j)
    × All P sent

relays :
    (P : ℕ × Message → Type 0) (room : Room) (i : ℕ) (stale username line : List ℕ)
    → IsBounded room
    → length username ≤ 19
    → line ≢ []
    → length line < 80
    → Lacks 0 line
    → same line (codes "quit\n") ≡ false
    → ((j : ℕ) → P (j, relayed username line))
    → Relays P room i stale username line
relays P room i stale username line h u ne l k q p = (
  spoken username line,
  map (λ j. (j, relayed username line)) (recipients room i 0 (room.fdmax + 1)),
  handle_input_says username line u ne l k q,
  server_relays room i stale username line u l,
  λ j.
      ap (among j) (sockets-map (relayed username line) (recipients room i 0 (room.fdmax + 1)))
      ∙ recipients_lem room i j h,
  All-map P (relayed username line) p (recipients room i 0 (room.fdmax + 1)),
)

-- A line of 1 to 79 bytes without NUL, other than `quit`, that a user with a name of at most 19
-- bytes types, goes through the server to exactly the other connections, and each of them prints
-- the name, a colon, a space and the line, if the name and the line together have at most 79 bytes.
pub said :
    (room : Room) (i : ℕ) (stale username line : List ℕ)
    → IsBounded room
    → length username ≤ 19
    → line ≢ []
    → Lacks 0 line
    → same line (codes "quit\n") ≡ false
    → length username + length line < 80
    → (msg : Message) × (sent : List (ℕ × Message)) × (handle_input username line ≡ some (says msg))
      × (handle_client_data room i stale (some msg) ≡ some (sent, room))
      × ((j : ℕ) → among j (sockets sent) ≡ hears room i j)
      × All (λ r. handle_server_response r.1 ≡ some (username ++ (b':' ∷ b' ' ∷ line))) sent
said room i stale username line h u ne k q b =
    relays (λ r. handle_server_response r.1 ≡ some (username ++ (b':' ∷ b' ' ∷ line))) room i stale
      username line h u ne (omega arith) k q (λ j. relayed-Prints username line j b)

relayed_overflows :
    (username line : List ℕ)
    → 80 ≤ length username + length line
    → handle_server_response (relayed username line) ≡ none
unfolding handle_server_response
relayed_overflows username line h = ground arith

-- For a line of 1 to 79 bytes without NUL, other than `quit`, of a user with a name of at most 19
-- bytes, if the name and the line together have at least 80 bytes, each of the other clients that
-- the server sends it to writes outside its array.
pub said_overflow :
    (room : Room) (i : ℕ) (stale username line : List ℕ)
    → IsBounded room
    → length username ≤ 19
    → line ≢ []
    → length line < 80
    → Lacks 0 line
    → same line (codes "quit\n") ≡ false
    → 80 ≤ length username + length line
    → (msg : Message) × (sent : List (ℕ × Message)) × (handle_input username line ≡ some (says msg))
      × (handle_client_data room i stale (some msg) ≡ some (sent, room))
      × ((j : ℕ) → among j (sockets sent) ≡ hears room i j)
      × All (λ r. handle_server_response r.1 ≡ none) sent
said_overflow room i stale username line h u ne l k q b =
    relays (λ r. handle_server_response r.1 ≡ none) room i stale username line h u ne l k q
      (λ j. relayed_overflows username line b)
