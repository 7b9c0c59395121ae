-- ===== src/Reservation/Tables/Valid.antt =====
-- The tables of pa3/pa3_server.c keep their shape under every operation, and an operation whose
-- client id is in range makes no access outside an array.
use systemprogramminglab.Prelude.{
  ℕ, zero, suc, ◌≡◌, refl, ◌∙◌, inl, inr, Bool, true, false, not, ◌&&◌, ◌||◌, some, List, [], ◌∷◌,
  arith, ltb, ltb→lt, lt→ltb, Bool-cases, length, set, get_elem?-some, get_elem?-none, length-set,
  length-replicate, All, All-replicate, ℤ, pos, negsuc, ◌==ℤ◌, is_neg, Ok, ltb_pos, index, store,
  InRange,
}
use systemprogramminglab.Reservation.Tables.{
  num_seat, max_client, Server, boot, is_logged_in, set_session, set_password, book_locked,
  cancel_locked,
}

pub record IsValid (s : Server) : Type 0 where
  pub passwords : length s.password ≡ max_client
  pub sessions : length s.session ≡ max_client
  pub seat_count : length s.seats ≡ num_seat
  pub owners : All (InRange max_client) s.seats

pub All-set : (P : ℤ → Type 0) (xs : List ℤ) (i : ℕ) (v : ℤ) → P v → All P xs → All P (set xs i v)
All-set P [] i v h k = tt
All-set P (x ∷ xs) zero v h k = (h, k.1)
All-set P (x ∷ xs) (suc i) v h k = (k.0, All-set P xs i v h k.1)

pub index-some : (xs : List ℤ) (i : ℤ) → InRange (length xs) i → (v : ℤ) × (index xs i ≡ some v)
index-some xs (pos i) h = get_elem?-some xs i h
index-some xs (negsuc i) h = absurd h

pub InRange-index : (xs : List ℤ) (i : ℤ) {v : ℤ} → index xs i ≡ some v → InRange (length xs) i
InRange-index xs (pos i) e = elim (Bool-cases (ltb i (length xs))) [
  | inl h ↦ ltb→lt _ _ h
  | inr h ↦ ground (arith, get_elem?-none xs i)
]
InRange-index xs (negsuc i) e = cc

-- A write in range replaces the one entry.
pub store-some :
    (xs : List ℤ) (i v : ℤ)
    → InRange (length xs) i
    → (xs' : List ℤ) × (store xs i v ≡ some xs')
      × (length xs' ≡ length xs)
      × ((P : ℤ → Type 0) → P v → All P xs → All P xs')
store-some xs (pos i) v h = (
  set xs i v,
  rw (lt→ltb i (length xs) h),
  length-set xs i v,
  λ P pv all. All-set P xs i v pv all,
)
store-some xs (negsuc i) v h = absurd h

pub boot-IsValid : IsValid boot
boot-IsValid = record {
  passwords = length-replicate max_client (pos 0);
  sessions = length-replicate max_client (pos 0);
  seat_count = length-replicate num_seat (pos 0);
  owners = All-replicate (InRange max_client) num_seat (pos 0) (omega arith);
}

module _ {s : Server} (valid : IsValid s) where
  open valid use {passwords, sessions, seat_count, owners}

  pub is_logged_in_Ok :
      (c socket : ℤ) → InRange max_client c → (b : Bool) × (is_logged_in s c socket ≡ some b)
  unfolding is_logged_in
  is_logged_in_Ok c socket h =
      let (current, e) = index-some s.session c (rw sessions h) in
      (not (current ==ℤ pos 0) && (socket ==ℤ current), rw e)

  pub set_session-Ok : (c v : ℤ) → InRange max_client c → Ok IsValid (set_session s c v)
  unfolding set_session
  set_session-Ok c v h =
      let (session', e, n, _) = store-some s.session c v (rw sessions h) in
      rw e (record {
        passwords = passwords;
        sessions = n ∙ sessions;
        seat_count = seat_count;
        owners = owners;
      })

  pub set_password-Ok : (c v : ℤ) → InRange max_client c → Ok IsValid (set_password s c v)
  unfolding set_password
  set_password-Ok c v h =
      let (password', e, n, _) = store-some s.password c v (rw passwords h) in
      rw e (record {
        passwords = n ∙ passwords;
        sessions = sessions;
        seat_count = seat_count;
        owners = owners;
      })

  pub book_locked-Ok :
      (c seat : ℤ)
      → InRange max_client c
      → InRange num_seat seat
      → Ok (λ r. IsValid r.1) (book_locked s c seat)
  unfolding book_locked
  book_locked-Ok c seat h k =
      let (owner, e) = index-some s.seats seat (rw seat_count k) in
      let (seats', e', n, keep) = store-some s.seats seat c (rw seat_count k) in
      rw (e, e')
        (elim (Bool-cases (owner ==ℤ pos 0)) [
          | inl free ↦ rw free (record {
            passwords = passwords;
            sessions = sessions;
            seat_count = n ∙ seat_count;
            owners = keep (InRange max_client) h owners;
          })
          | inr taken ↦ rw taken valid
        ])

  pub cancel_locked-Ok :
      (c seat : ℤ) → InRange num_seat seat → Ok (λ r. IsValid r.1) (cancel_locked s c seat)
  unfolding cancel_locked
  cancel_locked-Ok c seat k =
      let (owner, e) = index-some s.seats seat (rw seat_count k) in
      let (seats', e', n, keep) = store-some s.seats seat (pos 0) (rw seat_count k) in
      rw (e, e')
        (elim (Bool-cases (owner ==ℤ c)) [
          | inl mine ↦ rw mine (record {
            passwords = passwords;
            sessions = sessions;
            seat_count = n ∙ seat_count;
            owners = keep (InRange max_client) (omega arith) owners;
          })
          | inr other ↦ rw other valid
        ])

-- The guard of `book` and `cancel_booking` lets only seat numbers through.
pub seat_guard :
    (seat : ℤ) (here : Bool)
    → (not here || is_neg seat || not (ltb_pos seat num_seat)) ≡ false
    → (here ≡ true) × InRange num_seat seat
seat_guard (pos i) true h = (refl, ground arith)
seat_guard (pos i) false h = cc
seat_guard (negsuc i) true h = cc
seat_guard (negsuc i) false h = cc
