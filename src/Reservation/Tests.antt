-- ===== src/Reservation/Tests.antt =====
-- The theorems on pa3/pa3_server.c at concrete tables.
use systemprogramminglab.Prelude.{
  ℤ, ◌≡◌, refl, ◌∙◌, true, none, some, List, [], ◌∷◌, arith, Ok, All, length, length-set,
  length-replicate, All-replicate, set, replicate, pos, index, InRange, Option, ℕ,
}
use systemprogramminglab.Libc.Decimal.{format_int}
use systemprogramminglab.Libc.Decimal.Casts.{strtol_int}
use systemprogramminglab.Reservation.Tables.{
  num_seat, max_client, cancel_locked, Server, is_logged_in, book_locked, book, confirm_booking,
  cancel_booking,
}
use systemprogramminglab.Reservation.Tables.Valid.{IsValid, All-set}
use systemprogramminglab.Reservation.Tables.Booking.{cancel-book, book_zero}
use systemprogramminglab.Reservation.Tables.Confirm.{owned, listing, confirm_booking_lem}
use systemprogramminglab.Reservation.Query.{Query, respond, answer, client_handler}
use systemprogramminglab.Reservation.Client.{validate_query, failed}
use systemprogramminglab.Reservation.Trace.{Event, books, cancels, run, apply, booked_once}
use systemprogramminglab.Reservation.Replies.{is_none, reply_code}
use systemprogramminglab.Reservation.Dialogue.{
  queries, prints, client_loop, client_loop-client_handler,
}
use systemprogramminglab.Reservation.Session.{IsSent, answered, quit, client_handler-Ok, takeover}

-- Clients 1 and 2 are registered, client 1 is logged in on socket 4 and holds seat 1, and client 0
-- is logged in on socket 5.
abbrev office : Server
office = record {
  password = pos 0 ∷ pos 7 ∷ pos 9 ∷ pos 0 ∷ [];
  session = pos 5 ∷ pos 4 ∷ pos 0 ∷ pos 0 ∷ [];
  seats = pos 0 ∷ pos 1 ∷ pos 0 ∷ [];
}

office_here : is_logged_in office (pos 1) (pos 4) ≡ some true
unfolding is_logged_in
office_here = refl

office_zero : is_logged_in office (pos 0) (pos 5) ≡ some true
unfolding is_logged_in
office_zero = refl

-- Client 1 logged in on socket 4, and seat 3 booked for it, in tables of full size.
abbrev opened : Server
opened = record {
  password = replicate max_client (pos 0);
  session = set (replicate max_client (pos 0)) 1 (pos 4);
  seats = set (replicate num_seat (pos 0)) 3 (pos 1);
}

opened-IsValid : IsValid opened
opened-IsValid = record {
  passwords = length-replicate max_client (pos 0);
  sessions =
      length-set (replicate max_client (pos 0)) 1 (pos 4) ∙ length-replicate max_client (pos 0);
  seat_count =
      length-set (replicate num_seat (pos 0)) 3 (pos 1) ∙ length-replicate num_seat (pos 0);
  owners =
      All-set (InRange max_client) (replicate num_seat (pos 0)) 3 (pos 1) (omega arith)
        (All-replicate (InRange max_client) num_seat (pos 0) (omega arith));
}

opened_here : is_logged_in opened (pos 1) (pos 4) ≡ some true
unfolding is_logged_in
opened_here = refl

abbrev traffic : List Event
traffic = books (pos 3) (pos 2) ∷ cancels (pos 3) (pos 2) ∷ cancels (pos 1) (pos 1) ∷ []

abbrev after_booking : Server
after_booking = record office { seats = pos 0 ∷ pos 1 ∷ pos 2 ∷ [] }

book_office : book_locked office (pos 2) (pos 2) ≡ some (some (pos 2), after_booking)
unfolding book_locked
book_office = refl

abbrev after_traffic : Server
after_traffic = record office { seats = pos 0 ∷ pos 0 ∷ pos 2 ∷ [] }

after_here : is_logged_in after_booking (pos 1) (pos 4) ≡ some true
unfolding is_logged_in
after_here = refl

run-traffic : run traffic after_booking ≡ some after_traffic
unfolding run apply book_locked cancel_locked
run-traffic = refl

booked_once_example : book_locked after_traffic (pos 3) (pos 2) ≡ some (none, after_traffic)
booked_once_example =
    booked_once traffic office (pos 2) (pos 3) (pos 2) (ground arith) book_office
      (tt, (refl, (refl, tt))) run-traffic

abbrev a_login : Query
a_login = record { user = pos 2; action = pos 1; payload = pos 9 }

abbrev a_booking : Query
a_booking = record { user = pos 2; action = pos 2; payload = pos 200 }

reply_code_example :
    Ok
      (λ o. failed (strtol_int (respond a_booking o).sent) ≡ is_none o.0)
      (answer opened (pos 6) a_booking)
reply_code_example = reply_code opened (pos 6) a_booking opened-IsValid (omega arith)

abbrev visit : List Query
visit = a_login ∷ a_booking ∷ quit ∷ []

visit-IsSent : All IsSent visit
unfolding validate_query
visit-IsSent = (refl, (refl, (refl, tt)))

client_handler-Ok_example :
    Ok (λ r. IsValid r.1 × (length r.0 ≡ answered visit)) (client_handler opened (pos 6) visit)
client_handler-Ok_example = client_handler-Ok opened (pos 6) visit opened-IsValid visit-IsSent

takeover_example :
    (t : Server) × (client_handler opened (pos 4) (quit ∷ [])
      ≡ some (format_int (pos 256) ∷ [], opened))
    × (client_handler opened (pos 4) (record { user = pos 1; action = pos 2; payload = pos 9 } ∷ [])
        ≡ some (format_int (pos 9) ∷ [], t))
    × (index t.seats (pos 9) ≡ some (pos 1))
takeover_example = takeover opened (pos 1) (pos 9) (pos 4) opened_here (omega arith) refl

cancel-book_example :
    (t : Server) × (book office (pos 1) (pos 2) (pos 4) ≡ some (some (pos 2), t))
    × (cancel_booking t (pos 1) (pos 2) (pos 4) ≡ some (true, office))
cancel-book_example =
    cancel-book office (pos 1) (pos 2) (pos 4) office_here (omega arith) (ground arith) refl

book_zero_example : book office (pos 0) (pos 2) (pos 5) ≡ some (some (pos 2), office)
book_zero_example = book_zero office (pos 2) (pos 5) office_zero (omega arith) refl

confirm_booking_lem_example :
    confirm_booking opened (pos 1) (pos 4) ≡ some (listing (owned (pos 1) 0 opened.seats))
confirm_booking_lem_example =
    confirm_booking_lem opened (pos 1) (pos 4) (cc) opened-IsValid opened_here

-- Client 1 logs in anew, asks for nothing, books seat 9, and leaves.
abbrev some_lines : List (Option (ℤ × ℤ × ℤ))
some_lines =
    some (pos 1, pos 1, pos 7) ∷ none ∷ some (pos 1, pos 2, pos 9) ∷ some (pos 0, pos 0, pos 0) ∷ []

client_loop-client_handler_example :
    (replies : List (List ℕ)) × (t : Server) × (client_handler opened (pos 4) (queries some_lines)
      ≡ some (replies, t))
    × (client_loop opened (pos 4) some_lines ≡ some (prints some_lines replies, t))
    × IsValid t
client_loop-client_handler_example =
    client_loop-client_handler opened (pos 4) some_lines opened-IsValid
