-- ===== src/Reservation/Session.antt =====
-- A connection of pa3/pa3_server.c from its first query to its end.
use systemprogramminglab.Prelude.{
  ℕ, suc, ◌≡◌, refl, ap, inl, inr, true, false, ◌||◌, Option, none, some, List, [], ◌∷◌, arith, ltb,
  if◌then◌else◌, Bool-cases, Option-cases, Ok, Ok-bind, Ok-and, All, length, ℤ, pos, negsuc, ◌==ℤ◌,
  InRange, index,
}
use systemprogramminglab.Libc.Decimal.{format_int}
use systemprogramminglab.Reservation.Tables.{num_seat, max_client, Server, is_logged_in}
use systemprogramminglab.Reservation.Tables.Valid.{IsValid}
use systemprogramminglab.Reservation.Tables.Booking.{book_free}
use systemprogramminglab.Reservation.Query.{
  Query, Handled, respond, answer, handle_query, client_handler,
}
use systemprogramminglab.Reservation.Client.{validate_query}
use systemprogramminglab.Reservation.Replies.{answer-Good}

-- What the client lets through.
abbrev pub IsSent : Query → Type 0
IsSent q = validate_query q.user q.action q.payload ≡ true

pub validate-InRange :
    (user action seat : ℤ) → validate_query user action seat ≡ true → InRange max_client user
unfolding validate_query
validate-InRange (pos u) action seat h = elim (Bool-cases (ltb 1023 u)) [
  | inl out ↦ absurd (late out h)
  | inr fine ↦ ground arith
]
  where
    late : ltb 1023 u ≡ true → validate_query (pos u) action seat ≡ true → ⊥
    late out k = let e : false ≡ true = rw out at k in cc
validate-InRange (negsuc u) action seat h = absurd (cc)

respond-tables :
    (q : Query) (o : Option (List ℕ) × Server) → IsValid o.1 → IsValid (respond q o).tables
respond-tables q (some text, t) h = h
respond-tables q (none, t) h = h

pub handle_query-Ok :
    (s : Server) (socket : ℤ) (q : Query)
    → IsValid s
    → InRange max_client q.user
    → Ok (λ h. IsValid h.tables) (handle_query s socket q)
unfolding handle_query
handle_query-Ok s socket q valid h =
    Ok-bind _ _ (answer s socket q) _ (answer-Good s socket q valid h)
      λ o good. respond-tables q o good.0

-- The number of queries that are answered: those up to the first that asks to terminate.
unfoldable pub answered : List Query → ℕ
answered [] = 0
answered (q ∷ qs) = let rest = answered qs in if q.action ==ℤ pos 0 then 1 else suc rest

-- The end of a thread that `handle_query` asks for comes only with a terminating query.
respond-ended :
    (q : Query) (o : Option (List ℕ) × Server)
    → ((respond q o).ended || (q.action ==ℤ pos 0)) ≡ (q.action ==ℤ pos 0)
respond-ended q (some text, t) = ground arith
respond-ended q (none, t) = refl

pub handle_query-ended :
    (s : Server) (socket : ℤ) (q : Query) (h : Handled)
    → handle_query s socket q ≡ some h
    → (h.ended || (q.action ==ℤ pos 0)) ≡ (q.action ==ℤ pos 0)
unfolding handle_query
handle_query-ended s socket q h e = elim (Option-cases (answer s socket q)) [
  | inl out ↦ absurd (let k : none ≡ some h = rw out at e in cc)
  | inr (o, ok) ↦
      let k : some (respond q o) ≡ some h = rw ok at e in ground (arith, respond-ended q o)
]

-- As long as the client sends only queries that pass `validate_query`, a connection makes no
-- access outside an array, leaves valid tables, and gets exactly one reply for each query up to
-- the first that asks to terminate.
pub client_handler-Ok :
    (s : Server) (socket : ℤ) (qs : List Query)
    → IsValid s
    → All IsSent qs
    → Ok (λ r. IsValid r.1 × (length r.0 ≡ answered qs)) (client_handler s socket qs)
unfolding client_handler answered
client_handler-Ok s socket [] valid sent = (valid, refl)
client_handler-Ok s socket (q ∷ qs) valid sent =
    let handled =
      handle_query-Ok s socket q valid (validate-InRange q.user q.action q.payload sent.0) in
    Ok-bind _ _ (handle_query s socket q) _
      (Ok-and _ _ (handle_query s socket q) handled (handle_query-ended s socket q))
      λ h good. elim (Bool-cases (q.action ==ℤ pos 0)) [
        | inl last ↦ rw (good.1, last) (good.0, refl)
        | inr more ↦
            rw (good.1, more)
              (Ok-bind _ _ (client_handler h.tables socket qs) _
                (client_handler-Ok h.tables socket qs good.0 sent.1)
                λ r rest. (rest.0, ap suc rest.1))
      ]

abbrev pub quit : Query
quit = record { user = pos 0; action = pos 0; payload = pos 0 }

-- A connection that ends does not log its clients out: the next connection that is given the same
-- socket number books a free seat in the name of such a client, with no login of its own.
pub takeover :
    (s : Server) (client seat socket : ℤ)
    → is_logged_in s client socket ≡ some true
    → InRange num_seat seat
    → index s.seats seat ≡ some (pos 0)
    → (t : Server) × (client_handler s socket (quit ∷ []) ≡ some (format_int (pos 256) ∷ [], s))
      × (client_handler s socket (record { user = client; action = pos 2; payload = seat } ∷ [])
          ≡ some (format_int seat ∷ [], t))
      × (index t.seats seat ≡ some client)
unfolding client_handler handle_query answer
takeover s client seat socket here inside free =
    let (t, booked, holds) = book_free s client seat socket here inside free in
    (t, refl, rw booked refl, holds.there)
