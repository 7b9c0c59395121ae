-- ===== src/Reservation/Tables/Login.antt =====
-- Passwords and sessions of pa3/pa3_server.c: registration, login and logout.
use systemprogramminglab.Prelude.{
  ◌≡◌, ◌≢◌, refl, inl, inr, true, false, not, ◌||◌, none, some, arith, Bool-cases, Option-cases, ℤ,
  pos, negsuc, ◌==ℤ◌, ==ℤ_iff, ==ℤ_self, is_neg, ltb_pos, index, InRange, index-store,
  store_of_index,
}
use systemprogramminglab.Reservation.Tables.{
  max_client, Server, is_logged_in, set_session, set_password, register, login, logout,
}

-- The range tests of `login`, for a client id in range that is not logged in here.
range_open :
    (c : ℤ) → InRange max_client c → (false || is_neg c || not (ltb_pos c max_client)) ≡ false
range_open (pos i) h = ground arith
range_open (negsuc i) h = absurd h

-- A client without a session may go on to the passwords.
login_open :
    (s : Server) (c pw socket : ℤ)
    → InRange max_client c
    → is_neg pw ≡ false
    → index s.session c ≡ some (pos 0)
    → login s c pw socket ≡ register s c pw socket
unfolding login
login_open s c pw socket h fine off = rw (fine, off, range_open c h)

-- A client id that no password is stored for is registered by its first login: the password and
-- the session are stored, and the seats are as before.
pub login_new :
    (s : Server) (c pw socket : ℤ)
    → InRange max_client c
    → is_neg pw ≡ false
    → index s.session c ≡ some (pos 0)
    → index s.password c ≡ some (pos 0)
    → (t : Server) × (login s c pw socket ≡ some (true, t))
      × (index t.password c ≡ some pw)
      × (index t.session c ≡ some socket)
      × (t.seats ≡ s.seats)
unfolding register set_session set_password
login_new s c pw socket h fine off new =
    let (password', e) = store_of_index s.password c (pos 0) pw new in
    let (session', e') = store_of_index s.session c (pos 0) socket off in
    (
      record s { password = password'; session = session' },
      rw (login_open s c pw socket h fine off, new, e, e'),
      rw (index-store s.password c c pw e, ==ℤ_self c),
      rw (index-store s.session c c socket e', ==ℤ_self c),
      refl,
    )

-- For a registered client in range without a session, and a password that is not negative, a login
-- succeeds exactly with the stored password; it
-- then stores the session and nothing else, and a wrong password changes nothing.
pub login_known :
    (s : Server) (c pw socket known : ℤ)
    → InRange max_client c
    → is_neg pw ≡ false
    → index s.session c ≡ some (pos 0)
    → index s.password c ≡ some known
    → known ≢ pos 0
    → ((known ≡ pw)
        → (t : Server) × (login s c pw socket ≡ some (true, t))
          × (index t.session c ≡ some socket)
          × (t.password ≡ s.password)
          × (t.seats ≡ s.seats))
      × ((known ≢ pw) → login s c pw socket ≡ some (false, s))
unfolding register set_session
login_known s c pw socket known h fine off e ne = elim (Bool-cases (known ==ℤ pos 0)) [
  | inl zero ↦ absurd (ne ((==ℤ_iff known (pos 0)).0 zero))
  | inr used ↦
      let (session', e') = store_of_index s.session c (pos 0) socket off in
      (
        λ same. (
          record s { session = session' },
          rw (login_open s c pw socket h fine off, e, used, (==ℤ_iff known pw).1 same, e'),
          rw (index-store s.session c c socket e', ==ℤ_self c),
          refl,
          refl,
        ),
        λ other. elim (Bool-cases (known ==ℤ pw)) [
          | inl same ↦ absurd (other ((==ℤ_iff known pw).0 same))
          | inr wrong ↦ rw (login_open s c pw socket h fine off, e, used, wrong)
        ],
      )
]

-- A client that has a session on one socket cannot log in on another, whatever the password.
pub login_elsewhere :
    (s : Server) (c pw socket current : ℤ)
    → index s.session c ≡ some current
    → current ≢ pos 0
    → current ≢ socket
    → login s c pw socket ≡ some (false, s)
unfolding login is_logged_in
login_elsewhere s c pw socket current e ne ne' =
    ground (arith, ==ℤ_iff current (pos 0), ==ℤ_iff current socket, ==ℤ_iff socket current)

session_of :
    (s : Server) (c socket : ℤ)
    → is_logged_in s c socket ≡ some true
    → (current : ℤ) × (index s.session c ≡ some current)
unfolding is_logged_in
session_of s c socket here = elim (Option-cases (index s.session c)) [
  | inl out ↦ absurd (let k : none ≡ some true = rw out at here in cc)
  | inr found ↦ found
]

-- A logout ends the session of a client that is logged in, and changes nothing else.
pub logout_lem :
    (s : Server) (c socket : ℤ)
    → is_logged_in s c socket ≡ some true
    → (t : Server) × (logout s c socket ≡ some (true, t))
      × (index t.session c ≡ some (pos 0))
      × (t.password ≡ s.password)
      × (t.seats ≡ s.seats)
unfolding logout
logout_lem s c socket here =
    let (current, e) = session_of s c socket here in
    let (session', e') = store_of_index s.session c current (pos 0) e in
    (
      record s { session = session' },
      rw (here, e'),
      rw (index-store s.session c c (pos 0) e', ==ℤ_self c),
      refl,
      refl,
    )
