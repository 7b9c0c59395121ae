-- ===== src/Chat/Client.antt =====
-- week13/client.c: what the client of the chat sends for what is typed, and what it prints for a
-- message. `none` is a write outside an array.
pub mod Said
pub mod Program
pub mod Conversation
pub mod Started
use systemprogramminglab.Prelude.{
  ℕ, ◌+◌, Option, none, some, List, [], ◌∷◌, ◌++◌, ltb, if◌then◌else◌, length, take, codes, pos,
}
use systemprogramminglab.Libc.Texts.{c_text, same}
use systemprogramminglab.Chat.{Message}

-- What `handle_input` does for a `read`: it returns at the end of the input, or sends a message, and
-- the client goes on or leaves.
pub data Input : Type 0 where
  ended : Input
  says : Message → Input
  leaves : Message → Input

-- For the bytes of a `read`, at most 80; with 80 of them the NUL is written behind the array.
unfoldable pub handle_input : List ℕ → List ℕ → Option Input
handle_input username [] = some ended
handle_input username (c ∷ bytes) =
    let text = c_text (c ∷ bytes) in
    if ltb (length (c ∷ bytes)) 80
    then some (
        if same text (codes "quit\n")
        then leaves (record { username = take 19 username; text = take 79 text; kind = pos 2 })
        else says (record { username = take 19 username; text = take 79 text; kind = pos 1 }))
    else none

-- The message of `main` before the loop.
unfoldable pub joining : List ℕ → Message
joining username = record { username = take 19 username; text = []; kind = pos 0 }

-- `handle_server_response` for a message: `snprintf` is allowed 103 bytes in an array of 82.
unfoldable pub handle_server_response : Message → Option (List ℕ)
handle_server_response msg =
    if ltb (length msg.username + length msg.text) 82 then some (msg.username ++ msg.text) else none
