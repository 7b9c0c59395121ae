-- ===== src/Chat/Broadcast.antt =====
-- The connections that week13/server.c writes a message to.
use systemprogramminglab.Prelude.{
  ℕ, zero, suc, ◌+◌, ◌≤◌, ◌<◌, ◌≡◌, ◌⊎◌, refl, ◌∙◌, sym, ap, inl, inr, Bool, true, false, not, ◌&&◌,
  none, some, List, [], ◌∷◌, map, length, arith, ◌==◌, ltb, if◌then◌else◌, Bool-cases, pos, ◌==ℤ◌,
  dec, Ok,
}
use systemprogramminglab.Chat.{
  Room, Message, fd_put, handle_new_connection, reply_text, recipients, response,
  handle_client_data,
}

-- No connection lies above `fdmax`.
abbrev pub IsBounded : Room → Type 0
IsBounded room = (j : ℕ) → room.readset j ≡ true → j ≤ room.fdmax

-- A new connection below FD_SETSIZE is monitored besides those that were, and the bound is kept.
pub handle_new_connection_lem :
    (room : Room) (fd : ℕ)
    → fd < 1024
    → IsBounded room
    → Ok
        (λ next.
          IsBounded next × ((j : ℕ) → next.readset j ≡ true → (j ≡ fd) ⊎ (room.readset j ≡ true)))
        (handle_new_connection room fd)
unfolding handle_new_connection fd_put
handle_new_connection_lem room fd low h =
    let below : ltb fd 1024 ≡ true = ground arith in
    rw below (
      λ j e. ground (arith, h j),
      λ j e. elim (Bool-cases (j == fd)) [
        | inl hit ↦ inl (ground arith)
        | inr miss ↦ inr (ground (arith, e))
      ],
    )

-- Whether a number stands in a list.
unfoldable pub among : ℕ → List ℕ → Bool
among j [] = false
among j (k ∷ ks) = if j == k then true else among j ks

abbrev pub hears : Room → ℕ → ℕ → Bool
hears room i j = room.readset j && (not (j == room.listenfd) && not (j == i))

recipients-below :
    (room : Room) (i j k rounds : ℕ) → j < k → among j (recipients room i k rounds) ≡ false
unfolding recipients among
recipients-below room i j k zero less = refl
recipients-below room i j k (suc rounds) less =
    ground (arith, recipients-below room i j (k + 1) rounds (omega arith))

recipients-among :
    (room : Room) (i j k rounds : ℕ)
    → k ≤ j
    → j < k + rounds
    → among j (recipients room i k rounds) ≡ hears room i j
unfolding recipients among
recipients-among room i j k zero le less = absurd (omega arith)
recipients-among room i j k (suc rounds) le less = elim (Bool-cases (j == k)) [
  | inl here ↦
      let below = recipients-below room i j (k + 1) rounds (ground arith) in
      let same : hears room i k ≡ hears room i j = ap (hears room i) (ground arith) in
      elim (Bool-cases (hears room i k)) [
        | inl t ↦ rw (t, here) (sym t ∙ same)
        | inr f ↦ rw f (below ∙ (sym f ∙ same))
      ]
  | inr there ↦
      ground (arith, recipients-among room i j (k + 1) rounds (ground arith) (omega arith))
]

recipients-above :
    (room : Room) (i j k rounds : ℕ) → k + rounds ≤ j → among j (recipients room i k rounds) ≡ false
unfolding recipients among
recipients-above room i j k zero le = refl
recipients-above room i j k (suc rounds) le =
    ground (arith, recipients-above room i j (k + 1) rounds (omega arith))

-- The sockets of what is sent.
abbrev pub sockets : List (ℕ × Message) → List ℕ
sockets [] = []
sockets ((j, _) ∷ sent) = j ∷ sockets sent

pub sockets-map : (m : Message) (js : List ℕ) → sockets (map (λ j. (j, m)) js) ≡ js
sockets-map m [] = refl
sockets-map m (j ∷ js) = ap (λ t. j ∷ t) (sockets-map m js)

pub recipients_lem :
    (room : Room) (i j : ℕ)
    → IsBounded room
    → among j (recipients room i 0 (room.fdmax + 1)) ≡ hears room i j
recipients_lem room i j h = elim (Bool-cases (ltb j (room.fdmax + 1))) [
  | inl low ↦ recipients-among room i j 0 (room.fdmax + 1) (omega arith) (ground arith)
  | inr high ↦ elim (Bool-cases (room.readset j)) [
    | inl watched ↦ absurd (let le = h j watched in ground arith)
    | inr idle ↦
        recipients-above room i j 0 (room.fdmax + 1) (ground arith)
        ∙ sym (ap (λ b. b && (not (j == room.listenfd) && not (j == i))) idle)
  ]
]

-- A message that is a greeting, a farewell, or a text that fits in the reply, is sent on to
-- exactly the monitored connections other than its sender and the listening socket, and the
-- monitored connections stay the same.
pub handle_client_data_lem :
    (room : Room) (i : ℕ) (stale text : List ℕ) (msg : Message)
    → IsBounded room
    → reply_text stale msg.kind msg.text ≡ some text
    → (sent : List (ℕ × Message)) × (t : Room) × (handle_client_data room i stale (some msg)
        ≡ some (sent, t))
      × ((j : ℕ) → among j (sockets sent) ≡ hears room i j)
      × (t.readset ≡ room.readset)
unfolding handle_client_data
handle_client_data_lem room i stale text msg h e = (
  map (λ j. (j, response msg text)) (recipients room i 0 (room.fdmax + 1)),
  (if msg.kind ==ℤ pos 2 then record room { active_users = dec room.active_users } else room),
  rw e refl,
  λ j.
      ap (among j) (sockets-map (response msg text) (recipients room i 0 (room.fdmax + 1)))
      ∙ recipients_lem room i j h,
  ground arith,
)

-- A chat message of 80 bytes or more makes the server write outside the array of the reply.
pub reply_overflow :
    (room : Room) (i : ℕ) (stale : List ℕ) (msg : Message)
    → msg.kind ≡ pos 1
    → 80 ≤ length msg.text
    → handle_client_data room i stale (some msg) ≡ none
unfolding handle_client_data reply_text
reply_overflow room i stale msg k long = ground arith
