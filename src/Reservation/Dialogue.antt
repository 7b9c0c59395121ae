-- ===== src/Reservation/Dialogue.antt =====
-- `main` of pa3/pa3_client.c from its loop on, with the server at the other end of the connection:
-- every `write` of a query is followed by the `read` of the reply to it, which arrives in full.
use systemprogramminglab.Prelude.{
  ℕ, ◌≡◌, refl, ◌∙◌, sym, ap, subst, ◌⊎◌, inl, inr, true, false, ◌||◌, Option, none, some, List, [],
  ◌∷◌, ◌>>=◌, Bool-cases, Option-cases, ℤ, pos, ◌==ℤ◌, codes,
}
use systemprogramminglab.Libc.Decimal.{format_int}
use systemprogramminglab.Libc.Decimal.Casts.{strtol_int}
use systemprogramminglab.Reservation.Wording.{told, report_lem}
use systemprogramminglab.Reservation.Tables.{Server}
use systemprogramminglab.Reservation.Tables.Valid.{IsValid}
use systemprogramminglab.Reservation.Query.{Query, Handled, answer, handle_query, client_handler}
use systemprogramminglab.Reservation.Client.{
  Sent, invalid, terminate, query, validate_query, handle_line, report, disconnect_report,
}
use systemprogramminglab.Reservation.Session.{
  IsSent, quit, handle_query-Ok, handle_query-ended, validate-InRange,
}

abbrev Line : Type 0
Line = Option (ℤ × ℤ × ℤ)

-- `disconnect`, which runs at the end.
unfoldable pub disconnect : Server → ℤ → Option (List (List ℕ) × Server)
disconnect s socket = do
  h ← handle_query s socket quit
  some (disconnect_report h.sent ∷ [], h.tables)

-- What a line leads to, where `next` is the rest of the loop.
unfoldable pub handle_sent :
    Server → ℤ → Sent → (Server → Option (List (List ℕ) × Server)) → Option (List (List ℕ) × Server)
unfolding disconnect
handle_sent s socket invalid next = do
  (printed, t) ← next s
  some (codes "Query is invalid.\n" ∷ printed, t)
handle_sent s socket terminate next = disconnect s socket
handle_sent s socket (query user action seat) next = do
  h ← handle_query s socket (record { user = user; action = action; payload = seat })
  (printed, t) ← next h.tables
  some (report action h.sent ∷ printed, t)

-- The loop over the lines, from what `sscanf` finds in each: what is printed, and the tables.
unfoldable pub client_loop : Server → ℤ → List Line → Option (List (List ℕ) × Server)
unfolding handle_sent
client_loop s socket [] = disconnect s socket
client_loop s socket (line ∷ lines) =
    handle_sent s socket (handle_line line) (λ t. client_loop t socket lines)

-- The queries that the lines stand for, with the last.
unfoldable query_of : Sent → List Query → List Query
query_of invalid rest = rest
query_of terminate rest = quit ∷ []
query_of (query user action seat) rest =
    record { user = user; action = action; payload = seat } ∷ rest

unfoldable pub queries : List Line → List Query
unfolding query_of
queries [] = quit ∷ []
queries (line ∷ lines) = query_of (handle_line line) (queries lines)

abbrev reply_first : List (List ℕ) → List ℕ
reply_first [] = []
reply_first (r ∷ rs) = r

abbrev replies_behind : List (List ℕ) → List (List ℕ)
replies_behind [] = []
replies_behind (r ∷ rs) = rs

-- What is to be printed for the lines and the replies to those queries.
unfoldable print_of : Sent → List (List ℕ) → (List (List ℕ) → List (List ℕ)) → List (List ℕ)
print_of invalid replies next = codes "Query is invalid.\n" ∷ next replies
print_of terminate replies next = codes "Connection terminated.\n" ∷ []
print_of (query user action seat) replies next =
    told action (reply_first replies) ∷ next (replies_behind replies)

unfoldable pub prints : List Line → List (List ℕ) → List (List ℕ)
unfolding print_of
prints [] replies = codes "Connection terminated.\n" ∷ []
prints (line ∷ lines) replies = print_of (handle_line line) replies (prints lines)

quit_handled :
    (s : Server) (socket : ℤ)
    → handle_query s socket quit
      ≡ some (record { sent = format_int (pos 256); ended = true; tables = s })
unfolding handle_query answer
quit_handled s socket = refl

quit_client :
    (s : Server) (socket : ℤ)
    → client_handler s socket (quit ∷ []) ≡ some (format_int (pos 256) ∷ [], s)
unfolding client_handler
quit_client s socket = rw (quit_handled s socket) refl

quit_report : disconnect_report (format_int (pos 256)) ≡ codes "Connection terminated.\n"
unfolding disconnect_report format_int strtol_int
quit_report = refl

disconnect_lem :
    (s : Server) (socket : ℤ)
    → disconnect s socket ≡ some (codes "Connection terminated.\n" ∷ [], s)
unfolding disconnect
disconnect_lem s socket = rw (quit_handled s socket, quit_report) refl

-- The client and the connection of the server agree on the lines.
abbrev Agrees : Server → ℤ → List Line → Type 0
Agrees s socket lines =
    (replies : List (List ℕ)) × (t : Server) × (client_handler s socket (queries lines)
      ≡ some (replies, t))
    × (client_loop s socket lines ≡ some (prints lines replies, t))
    × IsValid t

quit-Agrees :
    (s : Server) (socket : ℤ) (lines : List Line)
    → queries lines ≡ quit ∷ []
    → client_loop s socket lines ≡ disconnect s socket
    → ((replies : List (List ℕ)) → prints lines replies ≡ codes "Connection terminated.\n" ∷ [])
    → IsValid s
    → Agrees s socket lines
quit-Agrees s socket lines q m p v = (
  format_int (pos 256) ∷ [],
  s,
  rw (q) (quit_client s socket),
  m ∙ disconnect_lem s socket ∙ ap (λ t. some (t, s)) (sym (p (format_int (pos 256) ∷ []))),
  v,
)

-- A query that is sent is valid and does not terminate.
abbrev IsFine : Sent → Type 0
IsFine invalid = Unit
IsFine terminate = Unit
IsFine (query user action seat) =
    (validate_query user action seat ≡ true) × ((action ==ℤ pos 0) ≡ false)

handle_line-IsFine : (line : Line) → IsFine (handle_line line)
unfolding handle_line
handle_line-IsFine none = tt
handle_line-IsFine (some (user, action, seat)) =
    elim (Bool-cases (validate_query user action seat)) [
      | inr n ↦ rw (n) tt
      | inl y ↦ elim (Bool-cases (action ==ℤ pos 0)) [
        | inl z ↦ rw (y, z) tt
        | inr z ↦ rw (y, z) (y, z)
      ]
    ]

module _ (s : Server) (socket : ℤ) (line : Line) (lines : List Line) where
  invalid_Agrees :
      handle_line line ≡ invalid → Agrees s socket lines → Agrees s socket (line ∷ lines)
  unfolding queries client_loop prints query_of print_of handle_sent
  invalid_Agrees e (replies, t, c, m, v) = (replies, t, rw (e) c, rw (e, m) refl, v)

  query_Agrees :
      (user action seat : ℤ) (h : Handled)
      → handle_line line ≡ query user action seat
      → handle_query s socket (record { user = user; action = action; payload = seat }) ≡ some h
      → (h.ended || (action ==ℤ pos 0)) ≡ false
      → report action h.sent ≡ told action h.sent
      → Agrees h.tables socket lines
      → Agrees s socket (line ∷ lines)
  unfolding queries client_loop prints client_handler query_of print_of handle_sent
  query_Agrees user action seat h e k ended agreed (replies, t, c, m, v) =
      (h.sent ∷ replies, t, rw (e, k, ended, c) refl, rw (e, k, m, agreed) refl, v)

handled :
    (s : Server) (socket : ℤ) (q : Query)
    → IsValid s
    → IsSent q
    → (h : Handled) × (handle_query s socket q ≡ some h) × IsValid h.tables
handled s socket q v sent =
    let ok = handle_query-Ok s socket q v (validate-InRange q.user q.action q.payload sent) in
    elim (Option-cases (handle_query s socket q)) [
      | inl e ↦ absurd (rw (e) at ok)
      | inr (h, e) ↦ (h, e, rw (e) at ok)
    ]

Sent-cases :
    (e : Sent)
    → (e ≡ invalid)
      ⊎ ((e ≡ terminate) ⊎ ((user : ℤ) × (action : ℤ) × (seat : ℤ) × (e ≡ query user action seat)))
Sent-cases invalid = inl refl
Sent-cases terminate = inr (inl refl)
Sent-cases (query user action seat) = inr (inr (user, action, seat, refl))

-- With valid tables, whatever the lines are, no access is made outside an array and the tables stay
-- valid. The client prints for each line, up to the first that terminates, that it is invalid, or
-- the text for its action and for the reply that the connection of the server sends to its query: a
-- failure where the reply is -1, and otherwise a success, with the reply itself where a seat is
-- booked or cancelled or the seats are listed. Then it prints that the connection is terminated.
pub client_loop-client_handler :
    (s : Server) (socket : ℤ) (lines : List Line)
    → IsValid s
    → (replies : List (List ℕ)) × (t : Server) × (client_handler s socket (queries lines)
        ≡ some (replies, t))
      × (client_loop s socket lines ≡ some (prints lines replies, t))
      × IsValid t
unfolding queries client_loop prints query_of print_of handle_sent
client_loop-client_handler s socket [] v = quit-Agrees s socket [] refl refl (λ replies. refl) v
client_loop-client_handler s socket (line ∷ lines) v = elim (Sent-cases (handle_line line)) [
  | inl e ↦ invalid_Agrees s socket line lines e (client_loop-client_handler s socket lines v)
  | inr (inl e) ↦
      quit-Agrees s socket (line ∷ lines) (rw (e) refl) (rw (e) refl) (λ replies. rw (e) refl) v
  | inr (inr (user, action, seat, e)) ↦
      let fine : IsFine (query user action seat) = subst IsFine e (handle_line-IsFine line) in
      let q : Query = record { user = user; action = action; payload = seat } in
      let (h, k, w) = handled s socket q v fine.0 in
      query_Agrees s socket line lines user action seat h e k
        (handle_query-ended s socket q h k ∙ fine.1) (report_lem s socket q h v fine.0 fine.1 k)
        (client_loop-client_handler h.tables socket lines w)
]
