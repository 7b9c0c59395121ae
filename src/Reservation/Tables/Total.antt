-- ===== src/Reservation/Tables/Total.antt =====
-- The operations of pa3/pa3_server.c on valid tables: which calls stay inside the arrays.
use systemprogramminglab.Prelude.{
  ◌≡◌, refl, inl, inr, false, not, ◌&&◌, ◌||◌, none, Bool-cases, Ok, Ok-bind, ℤ, pos, ◌==ℤ◌, is_neg,
  ltb_pos, InRange, index_out,
}
use systemprogramminglab.Reservation.Tables.{
  num_seat, max_client, Server, is_logged_in, register, login, book, cancel_booking, logout,
}
use systemprogramminglab.Reservation.Tables.Valid.{
  IsValid, index-some, is_logged_in_Ok, set_session-Ok, set_password-Ok, book_locked-Ok,
  cancel_locked-Ok, seat_guard,
}

module _ {s : Server} (valid : IsValid s) where
  register-Ok :
      (c pw socket : ℤ) → InRange max_client c → Ok (λ r. IsValid r.1) (register s c pw socket)
  unfolding register
  register-Ok c pw socket h =
      let (known, e) = index-some s.password c (rw valid.passwords h) in
      rw e (elim (Bool-cases (known ==ℤ pos 0)) [
        | inl new ↦ rw new (
            Ok-bind IsValid _ _ _ (set_password-Ok valid c pw h)
              λ s' v. Ok-bind IsValid _ _ _ (set_session-Ok v c socket h) λ s'' v'. v')
        | inr old ↦ rw old (elim (Bool-cases (known ==ℤ pw)) [
          | inl same ↦ rw same (Ok-bind IsValid _ _ _ (set_session-Ok valid c socket h) λ s' v'. v')
          | inr wrong ↦ rw wrong valid
        ])
      ])

  -- On valid tables a `login` whose client id is in range stays inside the arrays and leaves valid
  -- tables, whatever the password and the socket.
  pub login-Ok :
      (c pw socket : ℤ) → InRange max_client c → Ok (λ r. IsValid r.1) (login s c pw socket)
  unfolding login
  login-Ok c pw socket h = elim (Bool-cases (is_neg pw)) [
    | inl neg ↦ rw neg valid
    | inr fine ↦
        let (b, e) = is_logged_in_Ok valid c socket h in
        let (current, e') = index-some s.session c (rw valid.sessions h) in
        rw (fine, e)
          (elim (Bool-cases (b || is_neg c || not (ltb_pos c max_client))) [
            | inl refused ↦ rw refused valid
            | inr on ↦
                rw (on, e')
                  (elim (Bool-cases (not (current ==ℤ pos 0) && not (current ==ℤ socket))) [
                    | inl other ↦ rw other valid
                    | inr free ↦ rw free (register-Ok c pw socket h)
                  ])
          ])
  ]

  -- `login` with a client id out of range and a password that is not negative reads outside the
  -- array `session`.
  pub login_out :
      (c pw socket : ℤ) → is_neg pw ≡ false → ¬ InRange max_client c → login s c pw socket ≡ none
  unfolding login is_logged_in
  login_out c pw socket fine out = rw (fine, index_out s.session c (rw valid.sessions out)) refl

  -- On valid tables a booking by a client id in range stays inside the arrays and leaves valid
  -- tables, whatever the seat number.
  pub book-Ok :
      (c seat socket : ℤ) → InRange max_client c → Ok (λ r. IsValid r.1) (book s c seat socket)
  unfolding book
  book-Ok c seat socket h =
      let (here, e) = is_logged_in_Ok valid c socket h in
      rw e (elim (Bool-cases (not here || is_neg seat || not (ltb_pos seat num_seat))) [
        | inl refused ↦ rw refused valid
        | inr on ↦ rw on (book_locked-Ok valid c seat h (seat_guard seat here on).1)
      ])

  pub cancel_booking-Ok :
      (c seat socket : ℤ)
      → InRange max_client c
      → Ok (λ r. IsValid r.1) (cancel_booking s c seat socket)
  unfolding cancel_booking
  cancel_booking-Ok c seat socket h =
      let (here, e) = is_logged_in_Ok valid c socket h in
      rw e (elim (Bool-cases (not here || is_neg seat || not (ltb_pos seat num_seat))) [
        | inl refused ↦ rw refused valid
        | inr on ↦
            let inside : InRange num_seat seat = (seat_guard seat here on).1 in
            let (owner, e') = index-some s.seats seat (rw valid.seat_count inside) in
            rw (on, e')
              (elim (Bool-cases (owner ==ℤ pos 0)) [
                | inl free ↦ rw free valid
                | inr taken ↦ rw taken (cancel_locked-Ok valid c seat inside)
              ])
      ])

  pub logout-Ok : (c socket : ℤ) → InRange max_client c → Ok (λ r. IsValid r.1) (logout s c socket)
  unfolding logout
  logout-Ok c socket h =
      let (here, e) = is_logged_in_Ok valid c socket h in
      rw e (elim (Bool-cases here) [
        | inl on ↦ rw on (Ok-bind IsValid _ _ _ (set_session-Ok valid c (pos 0) h) λ s' v. v)
        | inr off ↦ rw off valid
      ])
