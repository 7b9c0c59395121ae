-- ===== src/Messages/Turns.antt =====
-- week10/main.c: what a turn of a user keeps.
use systemprogramminglab.Prelude.{
  ℕ, ◌+◌, ◌<◌, ◌≡◌, ◌≢◌, ◌⊎◌, refl, ◌∙◌, sym, ap, subst, fun_ext, inl, inr, Option, none, some,
  List, [], ◌∷◌, ◌++◌, length, arith, Lacks, Ok, Ok-mono, ℤ, pos,
}
use systemprogramminglab.Messages.{
  MessageQueue, User, Receiver, receiving, acking, confirming, interrupted, failed, ack_bytes,
  ack_type, handle_message, handle_ack, handle_confirmed, receive_now, send_now, handle_child,
  sender_turn, receiver_turn,
}
use systemprogramminglab.Messages.Run.{Action, sends, receives, act, IsAction}
use systemprogramminglab.Messages.Bytes.{ack_bytes-CarriesTime, ack_type_small}
use systemprogramminglab.Messages.Invariant.{Both, Distinct, added, left_with, Owes}
use systemprogramminglab.Messages.Exchanges.{text_read, ack_sent, ack_read, user_set}
use systemprogramminglab.Messages.Sending.{waits, Ready, Holds, parent_lem}

List-cases : {A : Type 0} (xs : List A) → (xs ≡ []) ⊎ ((y : A) × (ys : List A) × (xs ≡ y ∷ ys))
List-cases [] = inl refl
List-cases (x ∷ xs) = inr (x, xs, refl)

module _ {Queue : Type 0} (mq : MessageQueue Queue) where
  module _ (a b : ℕ) (d : Distinct a b) (small : a < 2147483628) (small' : b < 2147483628)
      (v : User) where
    Ready_set :
        (u : User) (q : Option Queue) (c : Receiver)
        → c ≢ acking
        → Ready mq u v q
        → Ready mq (record u { child = c }) v q
    Ready_set u none c ne ready = (ne, ready.1)
    Ready_set u (some q) c ne ready = tt

    -- Nothing is read: the child goes on to its next call.
    idle_lem :
        (u : User) (q : Option Queue) (c c' : Receiver)
        → u.child ≡ c
        → c' ≢ acking
        → (Owes c (length u.received) (length u.acked)
            → Owes c' (length u.received) (length u.acked))
        → Holds mq a b v (u, q)
        → Holds mq a b v (record u { child = c' }, q)
    idle_lem u q c c' e ne h (both, ready) = (
      user_set a b d u v (waits mq q) u.parent c' u.lines both.0.2
          (λ o. h (subst (λ t. Owes t (length u.received) (length u.acked)) e o)) both,
      Ready_set u q c' ne ready,
    )

    receive_nothing :
        (q : Option Queue) (t : ℕ) → 0 < t → waits mq q t ≡ [] → receive_now mq q (pos t) ≡ none
    receive_nothing none t h e = refl
    receive_nothing (some q) t h e = mq.receives_none q t h e

    receive_first :
        (q : Option Queue) (t : ℕ) (m : List ℕ) (ms : List (List ℕ))
        → 0 < t
        → waits mq q t ≡ m ∷ ms
        → (q' : Queue) × (receive_now mq q (pos t) ≡ some (m, q'))
          × (mq.waiting q' ≡ left_with (waits mq q) t ms)
    receive_first none t m ms h e = absurd cc
    receive_first (some q) t m ms h e =
        let (q', e', k) = mq.receives q t m ms h e in (q', e', fun_ext (λ u. k u))

    -- The first message of those that wait is printed.
    pub message_read :
        (stale m : List ℕ) (ms : List (List ℕ)) (u : User) (q : Option Queue)
        → u.child ≡ receiving
        → waits mq q a ≡ m ∷ ms
        → Holds mq a b v (u, q)
        → (x : ℤ × List ℕ) × (q' : Queue) × (handle_message mq stale u q
              (receive_now mq q u.user_id)
            ≡ some (record u { child = acking; received = u.received ++ (x ∷ []) }, some q'))
          × (mq.waiting q' ≡ left_with (waits mq q) a ms)
          × Holds mq a b v (record u { child = acking; received = u.received ++ (x ∷ []) }, some q')
    message_read stale m ms u q c waiting (both, ready) =
        let (q', e, left) = receive_first q a m ms d.0 waiting in
        let (x, k, read) = text_read a b d u v (waits mq q) m ms c waiting both in
        let u' : User = record u { child = acking; received = u.received ++ (x ∷ []) } in
        (
          x,
          q',
          ap (λ i. handle_message mq stale u q (receive_now mq q i)) both.0.0
              ∙ rw (e, k stale) refl,
          left,
          (subst (Both a b u' v) (sym left) read, tt),
        )

    message_lem :
        (stale : List ℕ) (u : User) (q : Option Queue)
        → u.child ≡ receiving
        → Holds mq a b v (u, q)
        → Ok (Holds mq a b v) (handle_message mq stale u q (receive_now mq q u.user_id))
    message_lem stale u q c holds = elim (List-cases (waits mq q a)) [
      | inl none_waits ↦
          let at : handle_message mq stale u q (receive_now mq q u.user_id)
              ≡ some (record u { child = confirming }, q) =
            ap (λ i. handle_message mq stale u q (receive_now mq q i)) holds.0.0.0
            ∙ rw (receive_nothing q a d.0 none_waits) refl in
          subst (Ok (Holds mq a b v)) (sym at)
            (idle_lem u q receiving confirming c (λ e. cc) (λ o. o) holds)
      | inr (m, ms, waiting) ↦
          let (x, q', at, left, kept) = message_read stale m ms u q c waiting holds in
          subst (Ok (Holds mq a b v)) (sym at) kept
    ]

    -- Where `t` is the type of no acknowledgement to `u`, the same messages wait.
    abbrev pub Confirms : Option Queue → User × Option Queue → Type 0
    Confirms q (u', q') =
        Holds mq a b v (u', q')
        × (u'.child ≡ receiving)
        × ((t : ℕ) → t ≢ 20 + a → waits mq q' t ≡ waits mq q t)

    pub confirmed_lem :
        (stale : List ℕ) (u : User) (q : Option Queue)
        → u.child ≡ confirming
        → Holds mq a b v (u, q)
        → Ok (Confirms q) (handle_confirmed mq stale u q (receive_now mq q (ack_type u.user_id)))
    confirmed_lem stale u q c holds = elim (List-cases (waits mq q (20 + a))) [
      | inl none_waits ↦
          let at : handle_confirmed mq stale u q (receive_now mq q (ack_type u.user_id))
              ≡ some (record u { child = receiving }, q) =
            ap (λ i. handle_confirmed mq stale u q (receive_now mq q (ack_type i))) holds.0.0.0
            ∙ rw (ack_type_small a small, receive_nothing q (20 + a) (omega arith) none_waits)
                refl in
          subst (Ok (Confirms q)) (sym at)
            (idle_lem u q confirming receiving c (λ e. cc) (λ o. o) holds, refl, (λ t ne. refl))
      | inr (m, ms, waiting) ↦
          let (q', e, left) = receive_first q (20 + a) m ms (omega arith) waiting in
          let (x, k, read) = ack_read a b d u v (waits mq q) m ms c waiting holds.0 in
          let u' : User = record u { child = receiving; confirmed = u.confirmed ++ (x ∷ []) } in
          let at : handle_confirmed mq stale u q (receive_now mq q (ack_type u.user_id))
              ≡ some (u', some q') =
            ap (λ i. handle_confirmed mq stale u q (receive_now mq q (ack_type i))) holds.0.0.0
            ∙ rw (ack_type_small a small, e, k stale) refl in
          subst (Ok (Confirms q)) (sym at) (
            (subst (Both a b u' v) (sym left) read, tt),
            refl,
            (λ t ne. ap (λ w. w t) left ∙ ground arith),
          )
    ]

    pub ack_lem :
        (stale now : List ℕ) (u : User) (q : Option Queue)
        → u.child ≡ acking
        → Lacks 0 now
        → Holds mq a b v (u, q)
        → (q' : Queue) × (handle_ack mq now u q
              (send_now mq q (ack_type u.receiver_id) (ack_bytes stale now))
            ≡ (record u { child = confirming; acked = u.acked ++ (now ∷ []) }, some q'))
          × (mq.waiting q' ≡ added (waits mq q) (20 + b) (ack_bytes stale now))
          × Holds mq a b v (record u { child = confirming; acked = u.acked ++ (now ∷ []) }, some q')
    ack_lem stale now u none c clear (both, ready) = absurd (ready.0 c)
    ack_lem stale now u (some q) c clear (both, ready) =
        let m = ack_bytes stale now in
        let (q', e) = mq.sends q (20 + b) m (omega arith) in
        let u' : User = record u { child = confirming; acked = u.acked ++ (now ∷ []) } in
        let waiting : mq.waiting q' ≡ added (mq.waiting q) (20 + b) m =
          fun_ext (λ t. mq.waiting-sent q q' (20 + b) t m (omega arith) e) in
        let kept : Both a b u' v (mq.waiting q') = subst (Both a b u' v) (sym waiting) (
          ack_sent a b d u v (mq.waiting q) m now c (ack_bytes-CarriesTime stale now clear) both) in
        (
          q',
          ap (λ i. handle_ack mq now u (some q) (mq.msgsnd q (ack_type i) m)) both.0.1
              ∙ rw (ack_type_small b small', e) refl,
          waiting,
          (kept, tt),
        )

    child_lem :
        (stale now : List ℕ) (u : User) (q : Option Queue) (c : Receiver)
        → u.child ≡ c
        → Lacks 0 now
        → Holds mq a b v (u, q)
        → Ok (Holds mq a b v) (handle_child mq stale now u q c)
    child_lem stale now u q receiving e clear holds = message_lem stale u q e holds
    child_lem stale now u q acking e clear holds =
        let (q', at, waiting, kept) = ack_lem stale now u q e clear holds in
        subst (Holds mq a b v) (sym at) kept
    child_lem stale now u q confirming e clear holds =
        Ok-mono (Confirms q) (Holds mq a b v) _ (confirmed_lem stale u q e holds) (λ p h. h.0)
    child_lem stale now u q interrupted e clear holds = holds
    child_lem stale now u q failed e clear holds = holds

    pub act_lem :
        (turn : Action) (u : User) (q : Option Queue)
        → IsAction turn
        → Holds mq a b v (u, q)
        → Ok (Holds mq a b v) (act mq turn u q)
    unfolding act sender_turn receiver_turn
    act_lem (sends stale) u q full holds = parent_lem mq a b d small v stale u q u.parent full holds
    act_lem (receives stale now) u q clear holds = child_lem stale now u q u.child refl clear holds
