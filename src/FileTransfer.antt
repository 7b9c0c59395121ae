-- ===== src/FileTransfer.antt =====
-- week11: the client that sends files to a server, and the server that keeps copies of them
-- (week11/client.c and week11/server.c), once connected.
pub mod Delivery
pub mod Session
mod Tests
use systemprogramminglab.Prelude.{
  ℕ, zero, suc, Bool, true, false, Option, none, some, List, [], ◌∷◌, ◌++◌, ◌==◌, ltb,
  if◌then◌else◌, ◌>>=◌, length, take, drop_last, codes,
}
use systemprogramminglab.Libc.Texts.{c_text, same}

abbrev pub maxfilename : ℕ
maxfilename = 50

abbrev pub maxfiledata : ℕ
maxfiledata = 200000

-- What the client writes: a name, or the bytes of a file and then a NUL.
pub data Message : Type 0 where
  file_name : List ℕ → Message
  contents : List ℕ → Message

abbrev pub file_messages : Option (List ℕ) → List Message → List Message
file_messages none rest = []
file_messages (some bytes) rest = contents (take maxfiledata bytes) ∷ rest

-- The client, for the words typed; `files` is what `open` and `read` find under a name. It leaves
-- at `quit` and at a name that it cannot open. `none` is a write outside its array of 50 bytes.
unfoldable pub client : (List ℕ → Option (List ℕ)) → List (List ℕ) → Option (List Message)
client files [] = some []
client files (name ∷ names) =
    let later = client files names in
    if ltb (length name) maxfilename
    then (if same name (codes "quit")
        then some []
        else (do rest ← later; some (file_name name ∷ file_messages (files name) rest)))
    else none

-- A file that the server has written.
pub record Copy : Type 0 where
  pub name : List ℕ
  pub bytes : List ℕ

pub data Phase : Type 0 where
  naming : Phase
  receiving : List ℕ → List ℕ → Phase

-- `buffer_data[num_bytes - 1] == '\0'`
abbrev pub ends_in_nul : List ℕ → Bool
ends_in_nul [] = false
ends_in_nul (c ∷ []) = c == 0
ends_in_nul (c ∷ d ∷ s) = ends_in_nul (d ∷ s)

abbrev pub copy_name : List ℕ → List ℕ
copy_name buffer = c_text buffer ++ codes "_copy"

-- The loops of the server over what each `read` returns, until it returns nothing; `receiving` has
-- the name of the copy and what is written to it. `none` is a write outside the array.
unfoldable pub serve : Phase → List (List ℕ) → Option (List Copy)
serve naming [] = some []
serve naming ([] ∷ chunks) = some []
serve naming ((c ∷ chunk) ∷ chunks) =
    let later = serve (receiving (copy_name (c ∷ chunk)) []) chunks in
    if ltb (length (c ∷ chunk)) maxfilename then later else none
serve (receiving name bytes) [] = some (record { name = name; bytes = bytes } ∷ [])
serve (receiving name bytes) ([] ∷ chunks) = some (record { name = name; bytes = bytes } ∷ [])
serve (receiving name bytes) ((c ∷ chunk) ∷ chunks) =
    let next = serve naming chunks in
    let later = serve (receiving name (bytes ++ (c ∷ chunk))) chunks in
    if ends_in_nul (c ∷ chunk)
    then (do
      rest ← next
      some (record { name = name; bytes = bytes ++ drop_last (c ∷ chunk) } ∷ rest))
    else later
