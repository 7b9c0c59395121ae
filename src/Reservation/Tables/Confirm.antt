-- ===== src/Reservation/Tables/Confirm.antt =====
-- The text that `confirm_booking` of pa3/pa3_server.c writes.
use systemprogramminglab.Prelude.{
  ℕ, zero, suc, ◌+◌, ◌*◌, ◌≤◌, ◌<◌, ◌≡◌, ◌≢◌, refl, sym, ◌∙◌, ap, subst, inl, inr, true, Option,
  none, some, List, [], ◌∷◌, ◌++◌, append_assoc, append-nil, arith, if◌then◌else◌, Bool-cases, Ok,
  length, length-append, drop_last, drop_last-append, get_elem?, take, All, ℤ, pos, ◌==ℤ◌,
}
use systemprogramminglab.Libc.Decimal.{decimal, length-decimal}
use systemprogramminglab.Reservation.Tables.{
  num_seat, Server, is_logged_in, note_seat, confirm_loop, confirmed, confirm_booking,
}
use systemprogramminglab.Reservation.Tables.Valid.{IsValid}

-- The numbers of the seats that `client` holds, the first of the list being number `i`.
unfoldable pub owned : ℤ → ℕ → List ℤ → List ℕ
owned client i [] = []
owned client i (owner ∷ seats) =
    let rest = owned client (i + 1) seats in if owner ==ℤ client then i ∷ rest else rest

-- Numbers with a comma behind each, and with a comma between two.
terminated : List ℕ → List ℕ
terminated [] = []
terminated (i ∷ is) = (decimal i ++ (b',' ∷ [])) ++ terminated is

unfoldable pub joined : List ℕ → List ℕ
joined [] = []
joined (i ∷ []) = decimal i
joined (i ∷ j ∷ is) = decimal i ++ (b',' ∷ joined (j ∷ is))

take_all : (n : ℕ) (xs : List ℕ) → length xs ≤ n → take n xs ≡ xs
take_all zero [] h = refl
take_all zero (x ∷ xs) h = absurd (omega arith)
take_all (suc n) [] h = refl
take_all (suc n) (x ∷ xs) h = ap (λ t. x ∷ t) (take_all n xs (omega arith))

-- The four bytes that `snprintf` may write are enough for a seat number and its comma.
note_seat_lem :
    (i : ℕ) (booked : List ℕ)
    → i < num_seat
    → note_seat i booked ≡ booked ++ (decimal i ++ (b',' ∷ []))
unfolding note_seat
note_seat_lem i booked h =
    ap (λ t. booked ++ t)
      (take_all 4 (decimal i ++ (b',' ∷ []))
        (omega (arith, length-decimal i (omega arith), length-append (decimal i) (b',' ∷ []))))

get_elem?_middle :
    {A : Type 0} (xs ys : List A) (y : A) → get_elem? (xs ++ (y ∷ ys)) (length xs) ≡ some y
get_elem?_middle [] ys y = refl
get_elem?_middle (x ∷ xs) ys y = get_elem?_middle xs ys y

seat_at :
    (seats front rest : List ℤ) (owner : ℤ) (i : ℕ)
    → seats ≡ front ++ (owner ∷ rest)
    → length front ≡ i
    → get_elem? seats i ≡ some owner
seat_at seats front rest owner i e n = rw (e, ← n) (get_elem?_middle front rest owner)

-- The loop adds the seats that are left, and counts them.
confirm_loop_lem :
    (rest front : List ℤ) (s : Server) (client : ℤ) (i : ℕ) (booked : List ℕ) (booked_count : ℕ)
    → s.seats ≡ front ++ rest
    → length front ≡ i
    → i + length rest ≤ num_seat
    → confirm_loop (length rest) i s client booked booked_count
      ≡ some
          (booked ++ terminated (owned client i rest), booked_count + length (owned client i rest))
unfolding confirm_loop owned terminated
confirm_loop_lem [] front s client i booked count e n h =
    rw append-nil (ap (λ k. some (booked, k)) (omega arith))
confirm_loop_lem (owner ∷ rest) front s client i booked count e n h =
    let next = λ (b : List ℕ) (m : ℕ).
      confirm_loop_lem rest (front ++ (owner ∷ [])) s client (i + 1) b m
        (e ∙ sym (append_assoc front (owner ∷ []) rest))
        (omega (arith, length-append front (owner ∷ []))) (omega arith) in
    ground (
      arith,
      seat_at s.seats front rest owner i e n,
      next booked count,
      next (note_seat i booked) (count + 1),
      note_seat_lem i booked,
      append_assoc booked (decimal i ++ (b',' ∷ [])) (terminated (owned client (i + 1) rest)),
    )

terminated-joined : (i : ℕ) (is : List ℕ) → terminated (i ∷ is) ≡ joined (i ∷ is) ++ (b',' ∷ [])
unfolding terminated joined
terminated-joined i [] = append-nil _
terminated-joined i (j ∷ is) = rw (terminated-joined j is, append_assoc, append_assoc)

-- `none` where the client holds no seat.
unfoldable pub listing : List ℕ → Option (List ℕ)
unfolding joined
listing [] = none
listing (i ∷ is) = some (joined (i ∷ is))

confirmed-suc : (booked : List ℕ) (n : ℕ) → confirmed booked (suc n) ≡ some (drop_last booked)
unfolding confirmed
confirmed-suc booked n = ground arith

confirmed-listing : (is : List ℕ) → confirmed (terminated is) (length is) ≡ listing is
unfolding confirmed listing terminated
confirmed-listing [] = refl
confirmed-listing (i ∷ is) =
    confirmed-suc (terminated (i ∷ is)) (length is)
    ∙ ap some (ap drop_last (terminated-joined i is) ∙ drop_last-append (joined (i ∷ is)) b',')

loop_runs :
    (s : Server) (client : ℤ)
    → length s.seats ≡ num_seat
    → confirm_loop num_seat 0 s client [] 0
      ≡ some (terminated (owned client 0 s.seats), length (owned client 0 s.seats))
loop_runs s client n =
    subst
      (λ k.
        confirm_loop k 0 s client [] 0
        ≡ some (terminated (owned client 0 s.seats), length (owned client 0 s.seats)))
      n
      (confirm_loop_lem s.seats [] s client 0 [] 0 refl refl (omega arith)
        ∙ ap (λ k. some (terminated (owned client 0 s.seats), k)) (omega arith))

-- The seats listed are those whose owner has the number of the client: to client 0, all free seats.
pub confirm_booking_listed :
    (s : Server) (client socket : ℤ)
    → IsValid s
    → is_logged_in s client socket ≡ some true
    → confirm_booking s client socket ≡ some (listing (owned client 0 s.seats))
unfolding confirm_booking
confirm_booking_listed s client socket valid here =
    rw (here, loop_runs s client valid.seat_count)
      (ap some (confirmed-listing (owned client 0 s.seats)))

-- On valid tables, to a client other than 0 that is logged in, `confirm_booking` reports exactly the
-- seats that it holds, in order, in decimal and with commas between them; it fails where there are
-- none. Client 0, whose number stands for a free seat, is left out.
pub confirm_booking_lem :
    (s : Server) (client socket : ℤ)
    → client ≢ pos 0
    → IsValid s
    → is_logged_in s client socket ≡ some true
    → confirm_booking s client socket ≡ some (listing (owned client 0 s.seats))
confirm_booking_lem s client socket ne valid here =
    confirm_booking_listed s client socket valid here

length-owned : (client : ℤ) (i : ℕ) (seats : List ℤ) → length (owned client i seats) ≤ length seats
unfolding owned
length-owned client i [] = omega arith
length-owned client i (owner ∷ seats) = ground (arith, length-owned client (i + 1) seats)

All-le : {n m : ℕ} (is : List ℕ) → n ≤ m → All (λ k. k < n) is → All (λ k. k < m) is
All-le [] h all = tt
All-le (i ∷ is) h all = (omega arith, All-le is h all.1)

owned-lt :
    (client : ℤ) (i : ℕ) (seats : List ℤ) → All (λ k. k < i + length seats) (owned client i seats)
unfolding owned
owned-lt client i [] = tt
owned-lt client i (owner ∷ seats) =
    let later : All (λ k. k < i + suc (length seats)) (owned client (i + 1) seats) =
      All-le _ (omega arith) (owned-lt client (i + 1) seats) in
    elim (Bool-cases (owner ==ℤ client)) [
      | inl mine ↦ rw mine (omega arith, later)
      | inr other ↦ rw other later
    ]

pub owned-seats :
    (client : ℤ) (seats : List ℤ)
    → length seats ≡ num_seat
    → All (λ k. k < 256) (owned client 0 seats)
owned-seats client seats n = All-le _ (omega arith) (owned-lt client 0 seats)

length-terminated :
    (is : List ℕ) → All (λ k. k < num_seat) is → length (terminated is) ≤ 4 * length is
unfolding terminated
length-terminated [] h = omega arith
length-terminated (i ∷ is) h = omega (
  arith,
  length-append (decimal i ++ (b',' ∷ [])) (terminated is),
  length-append (decimal i) (b',' ∷ []),
  length-decimal i (omega arith),
  length-terminated is h.1,
)

-- The text that the loop writes, its last comma and the NUL included, takes at most 1025 of the
-- 4096 bytes of the buffer that `handle_query` passes.
pub confirm_loop_fits :
    (s : Server) (client : ℤ)
    → length s.seats ≡ num_seat
    → Ok (λ r. length r.0 + 1 ≤ 1025) (confirm_loop num_seat 0 s client [] 0)
confirm_loop_fits s client n = rw (loop_runs s client n) (
    omega (
      arith,
      length-owned client 0 s.seats,
      length-terminated (owned client 0 s.seats)
          (All-le _ (omega arith) (owned-lt client 0 s.seats)),
    ))
