-- ===== src/Messages/Exchanges.antt =====
-- week10/main.c: what a message sent or read does to the channels.
use systemprogramminglab.Prelude.{
  ℕ, suc, ◌+◌, ◌≡◌, ◌≢◌, sym, subst, List, [], ◌∷◌, ◌++◌, length, arith, All, ℤ, pos,
}
use systemprogramminglab.Messages.{User, Sender, Receiver, receiving, acking, confirming}
use systemprogramminglab.Messages.Bytes.{Carries, CarriesTime}
use systemprogramminglab.Messages.Flow.{Flow, Flow-sends, Flow-receives}
use systemprogramminglab.Messages.Invariant.{
  Owes, Distinct, Fits, from, from-append, added, left_with, Both, length_snoc,
}

module _ {A : Type 0} (R : List ℕ → A → Type 0) (w : ℕ → List (List ℕ)) where
  added_here :
      (t : ℕ) (m : List ℕ) {sent : List A} (received : List A) (x : A)
      → Flow R sent received (w t)
      → R m x
      → Flow R (sent ++ (x ∷ [])) received (added w t m t)
  added_here t m received x f k =
      subst (Flow R _ received) (ground arith) (Flow-sends R received (w t) m x f k)

  added_elsewhere :
      (t u : ℕ) (m : List ℕ) (sent received : List A)
      → u ≢ t
      → Flow R sent received (w u)
      → Flow R sent received (added w t m u)
  added_elsewhere t u m sent received ne f = subst (Flow R sent received) (ground arith) f

  read_here :
      (t : ℕ) (m : List ℕ) (ms : List (List ℕ)) {sent : List A} (received : List A)
      → w t ≡ m ∷ ms
      → Flow R sent received (w t)
      → (x : A) × R m x × Flow R sent (received ++ (x ∷ [])) (left_with w t ms t)
  read_here t m ms received e f =
      let (x, k, g) = Flow-receives R received m ms (subst (Flow R _ received) e f) in
      (x, k, subst (Flow R _ (received ++ (x ∷ []))) (ground arith) g)

  read_elsewhere :
      (t u : ℕ) (ms : List (List ℕ)) (sent received : List A)
      → u ≢ t
      → Flow R sent received (w u)
      → Flow R sent received (left_with w t ms u)
  read_elsewhere t u ms sent received ne f = subst (Flow R sent received) (ground arith) f

module _ (a b : ℕ) (d : Distinct a b) (u v : User) (w : ℕ → List (List ℕ)) where
  -- The parent of `u` sends a line.
  pub text_sent :
      (m line : List ℕ) (lines : List (List ℕ))
      → All Fits lines
      → Carries m (pos a, line)
      → Both a b u v w
      → Both a b (record u { lines = lines; sent = u.sent ++ (line ∷ []) }) v (added w b m)
  text_sent m line lines fits k ((i, r, l, (f, g, o)), (i', r', l', (f', g', o'))) = (
    (
      i,
      r,
      fits,
      (
        subst (λ s. Flow Carries s v.received (added w b m b)) (sym (from-append a u.sent line))
            (added_here Carries w b m v.received (pos a, line) f k),
        added_elsewhere CarriesTime w b (20 + a) m v.acked u.confirmed (λ e. d.4 (sym e)) g,
        o,
      ),
    ),
    (
      i',
      r',
      l',
      (
        added_elsewhere Carries w b a m (from b v.sent) u.received d.2 f',
        added_elsewhere CarriesTime w b (20 + b) m u.acked v.confirmed (omega arith) g',
        o',
      ),
    ),
  )

  -- The child of `u` prints a message.
  pub text_read :
      (m : List ℕ) (ms : List (List ℕ))
      → u.child ≡ receiving
      → w a ≡ m ∷ ms
      → Both a b u v w
      → (x : ℤ × List ℕ) × Carries m x
        × Both a b
            (record u { child = acking; received = u.received ++ (x ∷ []) })
            v
            (left_with w a ms)
  text_read m ms c e ((i, r, l, (f, g, o)), (i', r', l', (f', g', o'))) =
      let (x, k, read) = read_here Carries w a m ms u.received e f' in
      let owed : length u.received ≡ length u.acked =
        subst (λ t. Owes t (length u.received) (length u.acked)) c o' in
      (
        x,
        k,
        (
          (
            i,
            r,
            l,
            (
              read_elsewhere Carries w a b ms (from a u.sent) v.received (λ e. d.2 (sym e)) f,
              read_elsewhere CarriesTime w a (20 + a) ms v.acked u.confirmed (omega arith) g,
              o,
            ),
          ),
          (
            i',
            r',
            l',
            (
              read,
              read_elsewhere CarriesTime w a (20 + b) ms u.acked v.confirmed (λ e. d.3 (sym e)) g',
              omega (arith, length_snoc u.received x),
            ),
          ),
        ),
      )

  -- It acknowledges the message.
  pub ack_sent :
      (m now : List ℕ)
      → u.child ≡ acking
      → CarriesTime m now
      → Both a b u v w
      → Both a b
          (record u { child = confirming; acked = u.acked ++ (now ∷ []) })
          v
          (added w (20 + b) m)
  ack_sent m now c k ((i, r, l, (f, g, o)), (i', r', l', (f', g', o'))) =
      let owed : length u.received ≡ suc (length u.acked) =
        subst (λ t. Owes t (length u.received) (length u.acked)) c o' in
      (
        (
          i,
          r,
          l,
          (
            added_elsewhere Carries w (20 + b) b m (from a u.sent) v.received (omega arith) f,
            added_elsewhere CarriesTime w (20 + b) (20 + a) m v.acked u.confirmed
                (λ e. d.2 (omega arith)) g,
            o,
          ),
        ),
        (
          i',
          r',
          l',
          (
            added_elsewhere Carries w (20 + b) a m (from b v.sent) u.received d.3 f',
            added_here CarriesTime w (20 + b) m v.confirmed now g' k,
            omega (arith, length_snoc u.acked now),
          ),
        ),
      )

  -- It prints an acknowledgement.
  pub ack_read :
      (m : List ℕ) (ms : List (List ℕ))
      → u.child ≡ confirming
      → w (20 + a) ≡ m ∷ ms
      → Both a b u v w
      → (x : List ℕ) × CarriesTime m x
        × Both a b
            (record u { child = receiving; confirmed = u.confirmed ++ (x ∷ []) })
            v
            (left_with w (20 + a) ms)
  ack_read m ms c e ((i, r, l, (f, g, o)), (i', r', l', (f', g', o'))) =
      let (x, k, read) = read_here CarriesTime w (20 + a) m ms u.confirmed e g in
      (
        x,
        k,
        (
          (
            i,
            r,
            l,
            (read_elsewhere Carries w (20 + a) b ms (from a u.sent) v.received d.4 f, read, o),
          ),
          (
            i',
            r',
            l',
            (
              read_elsewhere Carries w (20 + a) a ms (from b v.sent) u.received (omega arith) f',
              read_elsewhere CarriesTime w (20 + a) (20 + b) ms u.acked v.confirmed
                  (λ e. d.2 (omega arith)) g',
              subst (λ t. Owes t (length u.received) (length u.acked)) c o',
            ),
          ),
        ),
      )

  -- A process goes on or ends, and no message is sent or read.
  pub user_set :
      (p : Sender) (c : Receiver) (lines : List (List ℕ))
      → All Fits lines
      → (Owes u.child (length u.received) (length u.acked)
          → Owes c (length u.received) (length u.acked))
      → Both a b u v w
      → Both a b (record u { parent = p; child = c; lines = lines }) v w
  user_set p c lines fits h ((i, r, l, flow), (i', r', l', (f', g', o'))) =
      ((i, r, fits, flow), (i', r', l', (f', g', h o')))
