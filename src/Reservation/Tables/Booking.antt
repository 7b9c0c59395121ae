-- ===== src/Reservation/Tables/Booking.antt =====
-- What booking and cancelling do to the seats of pa3/pa3_server.c.
use systemprogramminglab.Prelude.{
  ◌≡◌, ◌≢◌, refl, inl, inr, true, false, not, ◌||◌, none, some, List, arith, Bool-cases, ℤ, pos,
  negsuc, ◌==ℤ◌, ==ℤ_iff, ==ℤ_self, is_neg, ltb_pos, index, store, InRange, index-store,
  store-store, store_of_index, store_same,
}
use systemprogramminglab.Reservation.Tables.{
  num_seat, Server, is_logged_in, book_locked, book, cancel_locked, cancel_booking,
}

-- The seats `t` are those of `s` but for `seat`, which holds `owner`.
pub record Holds (s t : Server) (seat owner : ℤ) : Type 0 where
  pub there : index t.seats seat ≡ some owner
  pub elsewhere : (j : ℤ) → (seat ==ℤ j) ≡ false → index t.seats j ≡ index s.seats j
  pub sessions : t.session ≡ s.session
  pub passwords : t.password ≡ s.password

Holds-store :
    (s : Server) (seat owner : ℤ) {seats' : List ℤ}
    → store s.seats seat owner ≡ some seats'
    → Holds s (record s { seats = seats' }) seat owner
Holds-store s seat owner e = record {
  there = rw (index-store s.seats seat seat owner e, ==ℤ_self seat);
  elsewhere = λ j ne. rw (index-store s.seats seat j owner e, ne);
  sessions = refl;
  passwords = refl;
}

-- The test before the lock, for a client that is logged in and a seat number in range.
guard_open :
    (seat : ℤ)
    → InRange num_seat seat
    → (not true || is_neg seat || not (ltb_pos seat num_seat)) ≡ false
guard_open (pos i) h = ground arith
guard_open (negsuc i) h = absurd h

module _ (s : Server) (client seat socket : ℤ) (here : is_logged_in s client socket ≡ some true)
    (inside : InRange num_seat seat) where
  -- A logged-in client that asks for a free seat in range gets it: the reply is the seat number,
  -- the seat holds the client's id, and every other seat, session and password is as before.
  pub book_free :
      index s.seats seat ≡ some (pos 0)
      → (t : Server) × (book s client seat socket ≡ some (some seat, t)) × Holds s t seat client
  unfolding book book_locked
  book_free free =
      let (seats', e) = store_of_index s.seats seat (pos 0) client free in
      (
        record s { seats = seats' },
        rw (here, guard_open seat inside, free, e),
        Holds-store s seat client e,
      )

  -- A seat in range that is occupied is refused to every logged-in client, and nothing changes.
  pub book_taken :
      (owner : ℤ)
      → index s.seats seat ≡ some owner
      → owner ≢ pos 0
      → book s client seat socket ≡ some (none, s)
  unfolding book book_locked
  book_taken owner e ne = elim (Bool-cases (owner ==ℤ pos 0)) [
    | inl zero ↦ absurd (ne ((==ℤ_iff owner (pos 0)).0 zero))
    | inr taken ↦ rw (here, guard_open seat inside, e, taken)
  ]

  -- A logged-in client whose id is not 0 cancels its own booking of a seat in range: that seat is
  -- free, and all other entries are as before.
  pub cancel_own :
      client ≢ pos 0
      → index s.seats seat ≡ some client
      → (t : Server) × (cancel_booking s client seat socket ≡ some (true, t))
        × Holds s t seat (pos 0)
  unfolding cancel_booking cancel_locked
  cancel_own ne e = elim (Bool-cases (client ==ℤ pos 0)) [
    | inl zero ↦ absurd (ne ((==ℤ_iff client (pos 0)).0 zero))
    | inr used ↦
        let (seats', e') = store_of_index s.seats seat client (pos 0) e in
        (
          record s { seats = seats' },
          rw (here, guard_open seat inside, e, used, ==ℤ_self client, e'),
          Holds-store s seat (pos 0) e',
        )
  ]

  -- A seat in range that another client holds, or none does, cannot be cancelled by a logged-in
  -- client, and nothing changes.
  pub cancel_other :
      (owner : ℤ)
      → index s.seats seat ≡ some owner
      → owner ≢ client
      → cancel_booking s client seat socket ≡ some (false, s)
  unfolding cancel_booking cancel_locked
  cancel_other owner e ne = elim (Bool-cases (owner ==ℤ pos 0)) [
    | inl zero ↦ rw (here, guard_open seat inside, e, zero)
    | inr used ↦ elim (Bool-cases (owner ==ℤ client)) [
      | inl same ↦ absurd (ne ((==ℤ_iff owner client).0 same))
      | inr other ↦ rw (here, guard_open seat inside, e, used, other)
    ]
  ]

  -- The booking of a free seat in range and its cancellation by the same client, which is logged
  -- in and whose id is not 0, succeed and leave the tables as they were before.
  pub cancel-book :
      client ≢ pos 0
      → index s.seats seat ≡ some (pos 0)
      → (t : Server) × (book s client seat socket ≡ some (some seat, t))
        × (cancel_booking t client seat socket ≡ some (true, s))
  unfolding book book_locked cancel_booking cancel_locked
  cancel-book ne free = elim (Bool-cases (client ==ℤ pos 0)) [
    | inl zero ↦ absurd (ne ((==ℤ_iff client (pos 0)).0 zero))
    | inr used ↦
        let (seats', e) = store_of_index s.seats seat (pos 0) client free in
        (
          record s { seats = seats' },
          rw (here, guard_open seat inside, free, e),
          rw (
            here,
            guard_open seat inside,
            index-store s.seats seat seat client e,
            ==ℤ_self seat,
            used,
            ==ℤ_self client,
            store-store s.seats seat (pos 0) client free e,
          ),
        )
  ]

-- The client with id 0, when it is logged in, is told that a free seat is booked, but nothing is
-- recorded: the seat stays free for everybody.
pub book_zero :
    (s : Server) (seat socket : ℤ)
    → is_logged_in s (pos 0) socket ≡ some true
    → InRange num_seat seat
    → index s.seats seat ≡ some (pos 0)
    → book s (pos 0) seat socket ≡ some (some seat, s)
unfolding book book_locked
book_zero s seat socket here inside free =
    rw (here, guard_open seat inside, free, store_same s.seats seat (pos 0) free)
