-- ===== src/Messages/Ids.antt =====
-- week10/main.c: a user whose identity is 20 more than the receiver's.
use systemprogramminglab.Prelude.{
  ℕ, zero, suc, ◌+◌, ◌≤◌, ◌<◌, ◌≡◌, refl, ◌∙◌, sym, ap, subst, Option, some, List, [], ◌∷◌, ◌++◌,
  ◌>>=◌, length, drop, append_assoc, arith, Lacks, Ok, Ok-mono, ℤ, pos,
}
use systemprogramminglab.Messages.{
  MessageQueue, User, receiving, acking, confirming, handle_child, handle_message, handle_ack,
  handle_confirmed, ack_bytes, ack_type, read_message, bytes_int, string_in, receiver_turn,
}
use systemprogramminglab.Messages.Bytes.{string_in_lem, ack_type_small}
use systemprogramminglab.Messages.Invariant.{length_snoc}

-- A time reads as a message.
time_message :
    (stale old now : List ℕ)
    → 4 ≤ length now
    → Lacks 0 now
    → (x : ℤ × List ℕ) × (read_message old (ack_bytes stale now) ≡ some x)
unfolding read_message ack_bytes
time_message stale old [] h clear = absurd (omega arith)
time_message stale old (a ∷ []) h clear = absurd (omega arith)
time_message stale old (a ∷ b ∷ []) h clear = absurd (omega arith)
time_message stale old (a ∷ b ∷ c ∷ []) h clear = absurd (omega arith)
time_message stale old (a ∷ b ∷ c ∷ d ∷ s) h (p, (q, (r, (t, clear)))) =
    let m = ack_bytes stale (a ∷ b ∷ c ∷ d ∷ s) in
    let sender = bytes_int (m ++ drop (length m) old) in
    (
      (sender, s),
      ap (λ o. o >>= (λ text. some (sender, text)))
          (ap string_in (append_assoc s _ _) ∙ string_in_lem s _ clear),
    )

module _ {Queue : Type 0} (mq : MessageQueue Queue) (stale now : List ℕ) where
  -- The loop of the child, so many times.
  abbrev pub loops : ℕ → User → Option Queue → Option (User × Option Queue)
  loops zero u q = some (u, q)
  loops (suc n) u q = do
    (u₁, q₁) ← receiver_turn mq stale now u q
    (u₂, q₂) ← receiver_turn mq stale now u₁ q₁
    (u₃, q₃) ← receiver_turn mq stale now u₂ q₂
    loops n u₃ q₃

  module _ (b : ℕ) (small : b < 2147483608) (long : 4 ≤ length now) (clear : Lacks 0 now) where
    -- The user owes an acknowledgement, and nothing waits for it.
    abbrev pub Owing : User → Queue → Type 0
    Owing u q =
        (u.user_id ≡ pos (20 + b))
        × (u.receiver_id ≡ pos b)
        × (u.child ≡ acking)
        × (mq.waiting q (20 + b) ≡ [])
        × (mq.waiting q (20 + (20 + b)) ≡ [])

    own_ack :
        (u : User) (q : Queue)
        → Owing u q
        → (p₁ : User × Option Queue) × (p₂ : User × Option Queue) × (u₃ : User) × (q₃ : Queue)
          × (receiver_turn mq stale now u (some q) ≡ some p₁)
          × (receiver_turn mq stale now p₁.0 p₁.1 ≡ some p₂)
          × (receiver_turn mq stale now p₂.0 p₂.1 ≡ some (u₃, some q₃))
          × (length u₃.received ≡ suc (length u.received))
          × Owing u₃ q₃
    unfolding receiver_turn
    own_ack u q (i, r, c, none_here, none_there) =
        let m = ack_bytes stale now in
        let (q₁, e₁) = mq.sends q (20 + b) m (omega arith) in
        let here : mq.waiting q₁ (20 + b) ≡ m ∷ [] =
          mq.waiting-sent q q₁ (20 + b) (20 + b) m (omega arith) e₁ ∙ ground (arith, none_here) in
        let there : mq.waiting q₁ (20 + (20 + b)) ≡ [] =
          mq.waiting-sent q q₁ (20 + b) (20 + (20 + b)) m (omega arith) e₁
          ∙ ground (arith, none_there) in
        let (q₃, e₃, k) = mq.receives q₁ (20 + b) m [] (omega arith) here in
        let (x, e) = time_message stale stale now long clear in
        let u₁ : User = record u { child = confirming; acked = u.acked ++ (now ∷ []) } in
        let u₂ : User = record u₁ { child = receiving } in
        let u₃ : User = record u₂ { child = acking; received = u.received ++ (x ∷ []) } in
        (
          (u₁, some q₁),
          (u₂, some q₁),
          u₃,
          q₃,
          ap (handle_child mq stale now u (some q)) c
              ∙ ap (λ j. some (handle_ack mq now u (some q) (mq.msgsnd q (ack_type j) m))) r
              ∙ rw (ack_type_small b (omega arith), e₁) refl,
          ap (λ j. handle_confirmed mq stale u₁ (some q₁) (mq.msgrcv q₁ (ack_type j))) i
              ∙ rw
                  (
                    ack_type_small (20 + b) (omega arith),
                    mq.receives_none q₁ (20 + (20 + b)) (omega arith) there,
                  )
                  refl,
          ap (λ j. handle_message mq stale u₂ (some q₁) (mq.msgrcv q₁ j)) i ∙ rw (e₃, e) refl,
          length_snoc u.received x,
          (i, r, refl, k (20 + b) ∙ ground arith, k (20 + (20 + b)) ∙ ground (arith, there)),
        )

    -- A user whose identity is 20 more than the receiver's, where the receiver's is below
    -- 2 ^ 31 - 40, whose child is about to acknowledge a message and for whom nothing waits: if only
    -- this child goes on, and the time has at least four bytes and no NUL, then each round of its
    -- loop prints one message more, and leaves it about to acknowledge again.
    pub own_acks :
        (n : ℕ) (u : User) (q : Queue)
        → Owing u q
        → Ok
            (λ p. (p.0.child ≡ acking) × (length p.0.received ≡ n + length u.received))
            (loops n u (some q))
    own_acks zero u q owing = (owing.2, omega arith)
    own_acks (suc n) u q owing =
        let (p₁, p₂, u₃, q₃, e₁, e₂, e₃, more, owing') = own_ack u q owing in
        let at : loops (suc n) u (some q) ≡ loops n u₃ (some q₃) = rw (e₁, e₂, e₃) refl in
        subst (Ok (λ p. (p.0.child ≡ acking) × (length p.0.received ≡ suc n + length u.received)))
          (sym at)
          (Ok-mono (λ p. (p.0.child ≡ acking) × (length p.0.received ≡ n + length u₃.received)) _
            (loops n u₃ (some q₃)) (own_acks n u₃ q₃ owing')
            (λ p h. (h.0, omega (arith, h.1, more))))
