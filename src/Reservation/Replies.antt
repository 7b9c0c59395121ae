-- ===== src/Reservation/Replies.antt =====
-- What the reply of `handle_query` in pa3/pa3_server.c tells pa3/pa3_client.c.
use systemprogramminglab.Prelude.{
  ℕ, ◌≤◌, ◌<◌, ◌⊎◌, ◌≡◌, ◌∙◌, sym, ap, subst, All, ltb_pos, refl, inl, inr, Bool, true, false,
  Option, none, some, List, [], ◌∷◌, append-nil, arith, if◌then◌else◌, Bool-cases, ◌>>=◌, Ok,
  Ok-mono, ℤ, pos, negsuc, ◌==ℤ◌, is_neg, InRange,
}
use systemprogramminglab.Libc.Decimal.{decimal, format_int, strtol, strtol-decimal, read_digits}
use systemprogramminglab.Libc.Decimal.Casts.{strtol_int, strtol_int-fits}
use systemprogramminglab.Reservation.Tables.{
  max_client, num_seat, Server, is_logged_in, book_locked, book, cancel_locked, cancel_booking,
  confirm_booking,
}
use systemprogramminglab.Reservation.Tables.Valid.{IsValid, is_logged_in_Ok}
use systemprogramminglab.Reservation.Tables.Total.{login-Ok, book-Ok, cancel_booking-Ok, logout-Ok}
use systemprogramminglab.Reservation.Tables.Confirm.{listing, owned-seats, confirm_booking_listed}
use systemprogramminglab.Reservation.Query.{
  Query, Outcome, one, if_done, if_booked, answer_late, answer, respond,
}
use systemprogramminglab.Reservation.Client.{failed}

-- What a reply on success to a query with the action `a` is: it starts with a number of at most 256,
-- and is nothing else where the seats are not listed.
abbrev pub ReadsAs : ℤ → Option (List ℕ) → Type 0
ReadsAs a none = Unit
ReadsAs a (some text) =
    (n : ℕ) × (n ≤ 256) × (strtol text ≡ pos n) × ((a ≡ pos 3) ⊎ (text ≡ decimal n))

decimal_reads : (a : ℤ) (n : ℕ) → n ≤ 256 → ReadsAs a (some (decimal n))
unfolding read_digits
decimal_reads a n h =
    (n, h, ap strtol (sym (append-nil (decimal n))) ∙ strtol-decimal n [], inr refl)

one_reads : (a : ℤ) → ReadsAs a (some one)
unfolding strtol decimal
one_reads a = (1, omega arith, refl, inr refl)

format_reads : (a i : ℤ) → InRange 257 i → ReadsAs a (some (format_int i))
unfolding format_int
format_reads a (pos n) h = decimal_reads a n (omega arith)
format_reads a (negsuc n) h = absurd h

listing_reads : (is : List ℕ) → All (λ k. k < 256) is → ReadsAs (pos 3) (listing is)
unfolding listing read_digits
listing_reads [] h = tt
listing_reads (i ∷ []) h = decimal_reads (pos 3) i (omega (arith, h.0))
listing_reads (i ∷ j ∷ is) h = (i, omega (arith, h.0), strtol-decimal i _, inl refl)

range_of : (i : ℤ) → is_neg i ≡ false → ltb_pos i num_seat ≡ true → InRange 257 i
range_of (pos n) h k = ground arith
range_of (negsuc n) h k = cc

book_range :
    (s : Server) (c seat socket : ℤ) (k : ℤ) (t : Server)
    → book s c seat socket ≡ some (some k, t)
    → (is_neg k ≡ false) × (ltb_pos k num_seat ≡ true)
unfolding book book_locked
book_range s c seat socket k t e = (ground arith, ground arith)

cancel_range :
    (s : Server) (c seat socket : ℤ) (t : Server)
    → cancel_booking s c seat socket ≡ some (true, t)
    → (is_neg seat ≡ false) × (ltb_pos seat num_seat ≡ true)
unfolding cancel_booking cancel_locked
cancel_range s c seat socket t e = (ground arith, ground arith)

terminate_reads : (a : ℤ) (b : Bool) → ReadsAs a (if b then some (format_int (pos 256)) else none)
terminate_reads a true = format_reads a (pos 256) (omega arith)
terminate_reads a false = tt

abbrev pub Good : ℤ → Outcome → Type 0
Good a o = IsValid o.1 × ReadsAs a o.0

done_Good :
    (a : ℤ) (text : List ℕ) (m : Option (Bool × Server))
    → Ok (λ r. IsValid r.1) m
    → ((t : Server) → m ≡ some (true, t) → ReadsAs a (some text))
    → Ok (Good a) (m >>= λ r. some (if_done text r))
done_Good a text none h f = h
done_Good a text (some (true, t)) h f = (h, f t refl)
done_Good a text (some (false, t)) h f = (h, tt)

booked_Good :
    (a : ℤ) (m : Option (Option ℤ × Server))
    → Ok (λ r. IsValid r.1) m
    → ((k : ℤ) (t : Server) → m ≡ some (some k, t) → ReadsAs a (some (format_int k)))
    → Ok (Good a) (m >>= λ r. some (if_booked r))
booked_Good a none h f = h
booked_Good a (some (some k, t)) h f = (h, f k t refl)
booked_Good a (some (none, t)) h f = (h, tt)

confirm_booking_off :
    (s : Server) (c socket : ℤ)
    → is_logged_in s c socket ≡ some false
    → confirm_booking s c socket ≡ some none
unfolding confirm_booking
confirm_booking_off s c socket e = rw e

confirm_Good :
    (s : Server) (c socket : ℤ)
    → IsValid s
    → InRange max_client c
    → Ok (Good (pos 3)) (confirm_booking s c socket >>= λ text. some (text, s))
confirm_Good s c socket valid h = let (here, e) = is_logged_in_Ok valid c socket h in go here e
  where
    go :
        (here : Bool)
        → is_logged_in s c socket ≡ some here
        → Ok (Good (pos 3)) (confirm_booking s c socket >>= λ text. some (text, s))
    go true e =
        rw (confirm_booking_listed s c socket valid e)
          (valid, listing_reads _ (owned-seats c s.seats valid.seat_count))
    go false e = rw (confirm_booking_off s c socket e) (valid, tt)

to_path : (i : ℤ) (n : ℕ) → (i ==ℤ pos n) ≡ true → i ≡ pos n
to_path (pos m) n h = ap (λ k. pos k) {x = m} (ground arith)
to_path (negsuc m) n h = absurd (cc)

-- The cases of the `switch` from 3 on.
late_Good :
    (s : Server) (socket : ℤ) (q : Query)
    → IsValid s
    → InRange max_client q.user
    → Ok (Good q.action) (answer_late s socket q)
unfolding answer_late
late_Good s socket q valid h = elim (Bool-cases (q.action ==ℤ pos 3)) [
  | inl a ↦ rw a (
      subst (λ k. Ok (Good k) (confirm_booking s q.user socket >>= λ text. some (text, s)))
        (sym (to_path q.action 3 a)) (confirm_Good s q.user socket valid h))
  | inr n3 ↦ rw n3 (elim (Bool-cases (q.action ==ℤ pos 4)) [
    | inl a ↦ rw a (
        done_Good q.action _ _ (cancel_booking-Ok valid q.user q.payload socket h) λ t e.
          let r = cancel_range s q.user q.payload socket t e in
          format_reads q.action q.payload (range_of q.payload r.0 r.1))
    | inr n4 ↦ rw n4 (elim (Bool-cases (q.action ==ℤ pos 5)) [
      | inl a ↦
          rw a
            (done_Good q.action one _ (logout-Ok valid q.user socket h) λ t e. one_reads q.action)
      | inr n5 ↦ rw n5 (valid, tt)
    ])
  ])
]

-- On valid tables a query whose user is in range is answered without an access outside an array,
-- the tables stay valid, and the reply on success starts with a number of at most 256.
pub answer-Good :
    (s : Server) (socket : ℤ) (q : Query)
    → IsValid s
    → InRange max_client q.user
    → Ok (Good q.action) (answer s socket q)
unfolding answer
answer-Good s socket q valid h = elim (Bool-cases (q.action ==ℤ pos 0)) [
  | inl a ↦ rw a (valid, terminate_reads q.action _)
  | inr n0 ↦ rw n0 (elim (Bool-cases (q.action ==ℤ pos 1)) [
    | inl a ↦ rw a (
        done_Good q.action one _ (login-Ok valid q.user q.payload socket h)
          λ t e. one_reads q.action)
    | inr n1 ↦ rw n1 (elim (Bool-cases (q.action ==ℤ pos 2)) [
      | inl a ↦ rw a (
          booked_Good q.action _ (book-Ok valid q.user q.payload socket h) λ k t e.
            let r = book_range s q.user q.payload socket k t e in
            format_reads q.action k (range_of k r.0 r.1))
      | inr n2 ↦ rw n2 (late_Good s socket q valid h)
    ])
  ])
]

abbrev pub is_none : {A : Type 0} → Option A → Bool
is_none none = true
is_none (some _) = false

respond-code :
    (q : Query) (o : Outcome)
    → ReadsAs q.action o.0
    → failed (strtol_int (respond q o).sent) ≡ is_none o.0
unfolding strtol_int format_int
respond-code q (some text, t) (n, small, e, shape) =
    rw (strtol_int-fits text n e (omega arith)) refl
respond-code q (none, t) h = refl

-- On valid tables, for a query whose user is in range, the code that the client reads from the
-- reply is -1 exactly when the server did not carry out the query.
pub reply_code :
    (s : Server) (socket : ℤ) (q : Query)
    → IsValid s
    → InRange max_client q.user
    → Ok (λ o. failed (strtol_int (respond q o).sent) ≡ is_none o.0) (answer s socket q)
reply_code s socket q valid h =
    Ok-mono (Good q.action) _ _ (answer-Good s socket q valid h) λ o good. respond-code q o good.1
