-- ===== src/Reservation/Trace.antt =====
-- The threads of pa3/pa3_server.c: one thread per connection, whose writes to `seats` stand
-- between the lock and the unlock of that seat. A run is a sequence of those sections, in any
-- order, from any threads; a `login` or `logout`, which takes no lock, counts as one section too.
use systemprogramminglab.Prelude.{
  ◌≡◌, ◌≢◌, inl, inr, Bool, false, ◌&&◌, Option, none, some, List, [], ◌∷◌, arith, Option-cases,
  ◌>>=◌, All, ℤ, pos, ◌==ℤ◌, ==ℤ_iff, index, index-store,
}
use systemprogramminglab.Reservation.Tables.{
  Server, set_session, set_password, register, login, book_locked, cancel_locked, logout,
}

-- A section of a thread, with the values that it was called with.
pub data Event : Type 0 where
  logs_in : (client_id pw socket : ℤ) → Event
  books : (client_id seat : ℤ) → Event
  cancels : (client_id seat : ℤ) → Event
  logs_out : (client_id socket : ℤ) → Event

abbrev forget : {A : Type 0} → Option (A × Server) → Option Server
forget none = none
forget (some (_, s)) = some s

unfoldable pub apply : Event → Server → Option Server
apply (logs_in client_id pw socket) s = forget (login s client_id pw socket)
apply (books client_id seat) s = forget (book_locked s client_id seat)
apply (cancels client_id seat) s = forget (cancel_locked s client_id seat)
apply (logs_out client_id socket) s = forget (logout s client_id socket)

unfoldable pub run : List Event → Server → Option Server
unfolding apply
run [] s = some s
run (e ∷ es) s = do s' ← apply e s; run es s'

-- `e` is no cancellation of `seat` by `client`.
abbrev pub IsNotCancel : ℤ → ℤ → Event → Type 0
IsNotCancel client seat (cancels c j) = ((c ==ℤ client) && (j ==ℤ seat)) ≡ false
IsNotCancel client seat _ = Unit

forget-some :
    {A : Type 0} {m : Option (A × Server)} {a : A} {s t : Server}
    → m ≡ some (a, s)
    → forget m ≡ some t
    → s ≡ t
forget-some ok h = ground arith

set_session-seats :
    (s : Server) (c v : ℤ) {t : Server} → set_session s c v ≡ some t → t.seats ≡ s.seats
unfolding set_session
set_session-seats s c v e = ground arith

set_password-seats :
    (s : Server) (c v : ℤ) {t : Server} → set_password s c v ≡ some t → t.seats ≡ s.seats
unfolding set_password
set_password-seats s c v e = ground arith

login-seats :
    (s : Server) (c pw socket : ℤ) {b : Bool} {t : Server}
    → login s c pw socket ≡ some (b, t)
    → t.seats ≡ s.seats
unfolding login register
login-seats s c pw socket e = ground arith

logout-seats :
    (s : Server) (c socket : ℤ) {b : Bool} {t : Server}
    → logout s c socket ≡ some (b, t)
    → t.seats ≡ s.seats
unfolding logout
logout-seats s c socket e = ground arith

module _ (s : Server) (i client : ℤ) (e : index s.seats i ≡ some client) where
  book_locked-keeps :
      (c j : ℤ) {r : Option ℤ} {t : Server}
      → client ≢ pos 0
      → book_locked s c j ≡ some (r, t)
      → index t.seats i ≡ some client
  unfolding book_locked
  book_locked-keeps c j {t} ne h =
      ground (arith, ==ℤ_iff j i, index-store s.seats j i c {xs' = t.seats})

  cancel_locked-keeps :
      (c j : ℤ) {r : Bool} {t : Server}
      → ((c ==ℤ client) && (j ==ℤ i)) ≡ false
      → cancel_locked s c j ≡ some (r, t)
      → index t.seats i ≡ some client
  unfolding cancel_locked
  cancel_locked-keeps c j {t} ne h =
      ground (arith, ==ℤ_iff j i, ==ℤ_iff c client, index-store s.seats j i (pos 0) {xs' = t.seats})

apply-keeps :
    (ev : Event) (s : Server) (i client : ℤ) {t : Server}
    → index s.seats i ≡ some client
    → client ≢ pos 0
    → IsNotCancel client i ev
    → apply ev s ≡ some t
    → index t.seats i ≡ some client
unfolding apply
apply-keeps (logs_in c pw socket) s i client {t} e ne spared h =
    elim (Option-cases (login s c pw socket)) [
      | inl out ↦ absurd (cc)
      | inr ((b, s'), ok) ↦ rw (← forget-some ok h) (rw (login-seats s c pw socket ok) e)
    ]
apply-keeps (books c j) s i client e ne spared h = elim (Option-cases (book_locked s c j)) [
  | inl out ↦ absurd (cc)
  | inr ((b, s'), ok) ↦ rw (← forget-some ok h) (book_locked-keeps s i client e c j ne ok)
]
apply-keeps (cancels c j) s i client e ne spared h = elim (Option-cases (cancel_locked s c j)) [
  | inl out ↦ absurd (cc)
  | inr ((b, s'), ok) ↦ rw (← forget-some ok h) (cancel_locked-keeps s i client e c j spared ok)
]
apply-keeps (logs_out c socket) s i client e ne spared h = elim (Option-cases (logout s c socket)) [
  | inl out ↦ absurd (cc)
  | inr ((b, s'), ok) ↦ rw (← forget-some ok h) (rw (logout-seats s c socket ok) e)
]

-- However the sections of the threads are interleaved, a seat that a client other than 0 holds
-- stays with that client, as long as that client does not cancel that seat.
pub run-keeps :
    (es : List Event) (s : Server) (i client : ℤ) {t : Server}
    → index s.seats i ≡ some client
    → client ≢ pos 0
    → All (IsNotCancel client i) es
    → run es s ≡ some t
    → index t.seats i ≡ some client
unfolding run
run-keeps [] s i client e ne spared h = cc
run-keeps (ev ∷ es) s i client e ne spared h = elim (Option-cases (apply ev s)) [
  | inl out ↦ absurd (cc)
  | inr (s', ok) ↦
      run-keeps es s' i client (apply-keeps ev s i client e ne spared.0 ok) ne spared.1 (rw ok at h)
]

-- No double booking: in a run without an access outside an array, after a client other than 0 has
-- been given a seat, and as long as it does not cancel it, a booking of that seat by any client
-- fails and changes nothing, whatever the threads did in between.
pub booked_once :
    (es : List Event) (s : Server) (client other seat : ℤ) {s' t : Server}
    → client ≢ pos 0
    → book_locked s client seat ≡ some (some seat, s')
    → All (IsNotCancel client seat) es
    → run es s' ≡ some t
    → book_locked t other seat ≡ some (none, t)
unfolding book_locked
booked_once es s client other seat {s'} {t} ne got spared h = ground (
  arith,
  ==ℤ_iff client (pos 0),
  run-keeps es s' seat client {t = t}
      (ground (arith, ==ℤ_iff seat seat, index-store s.seats seat seat client {xs' = s'.seats})) ne
      spared h,
)
