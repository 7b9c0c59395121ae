-- ===== src/Messages/Drain.antt =====
-- week10/main.c: a child that runs for long enough prints every message that waits for it.
use systemprogramminglab.Prelude.{
  ℕ, zero, suc, ◌<◌, ◌≡◌, refl, ◌∙◌, sym, ap, subst, Option, none, some, List, [], ◌∷◌, ◌++◌,
  length, arith, All, Lacks, Ok, Ok-mono,
}
use systemprogramminglab.Messages.{
  MessageQueue, User, receiving, acking, confirming, handle_child, receiver_turn,
}
use systemprogramminglab.Messages.Run.{
  Chat, IsMove, Move, of_right, receives, act, next_state, run_events,
}
use systemprogramminglab.Messages.Bytes.{Carries}
use systemprogramminglab.Messages.Flow.{Flow, Flow-drained}
use systemprogramminglab.Messages.Invariant.{Distinct, Fits, from}
use systemprogramminglab.Messages.Sending.{waits, Holds}
use systemprogramminglab.Messages.Turns.{message_read, ack_lem, confirmed_lem, Confirms}
use systemprogramminglab.Messages.Delivery.{
  Kept, Holds-swap, Distinct-swap, meeting, meeting-Kept, run_events-Kept,
}

Ok-some : {A : Type 0} (P : A → Type 0) (o : Option A) → Ok P o → (a : A) × (o ≡ some a) × P a
Ok-some P none h = absurd h
Ok-some P (some a) h = (a, refl, h)

module _ {Queue : Type 0} (mq : MessageQueue Queue) where
  module _ (a b : ℕ) (d : Distinct a b) (small : a < 2147483628) (small' : b < 2147483628)
      (v : User) (stale now : List ℕ) (clear : Lacks 0 now) where
    -- The three calls of the child's loop print one message.
    round_lem :
        (u : User) (q : Option Queue) (m : List ℕ) (ms : List (List ℕ))
        → u.child ≡ receiving
        → waits mq q a ≡ m ∷ ms
        → Holds mq a b v (u, q)
        → (p₁ : User × Option Queue) × (p₂ : User × Option Queue) × (p₃ : User × Option Queue)
          × (receiver_turn mq stale now u q ≡ some p₁)
          × (receiver_turn mq stale now p₁.0 p₁.1 ≡ some p₂)
          × (receiver_turn mq stale now p₂.0 p₂.1 ≡ some p₃)
          × (p₃.0.child ≡ receiving)
          × (waits mq p₃.1 a ≡ ms)
          × Holds mq a b v p₃
    unfolding receiver_turn
    round_lem u q m ms c waiting holds =
        let (x, q₁, e₁, left, holds₁) =
          message_read mq a b d small small' v stale m ms u q c waiting holds in
        let u₁ : User = record u { child = acking; received = u.received ++ (x ∷ []) } in
        let (q₂, e₂, more, holds₂) =
          ack_lem mq a b d small small' v stale now u₁ (some q₁) refl clear holds₁ in
        let u₂ : User = record u₁ { child = confirming; acked = u.acked ++ (now ∷ []) } in
        let ((u₃, q₃), e₃, (holds₃, c₃, same)) =
          Ok-some (Confirms mq a b d small small' v (some q₂)) _
            (confirmed_lem mq a b d small small' v stale u₂ (some q₂) refl holds₂) in
        (
          (u₁, some q₁),
          (u₂, some q₂),
          (u₃, q₃),
          ap (handle_child mq stale now u q) c ∙ e₁,
          ap some e₂,
          e₃,
          c₃,
          same a (omega arith) ∙ ap (λ w. w a) more ∙ ground (arith, ap (λ w. w a) left),
          holds₃,
        )

  -- The loop of a child, so many times.
  abbrev pub rounds : Move → ℕ → List Move
  rounds event zero = []
  rounds event (suc n) = event ∷ event ∷ event ∷ rounds event n

  -- The loop of the child of the second user prints what waits for it.
  drain_lem :
      (a b : ℕ)
      → Distinct a b
      → a < 2147483628
      → b < 2147483628
      → (stale now : List ℕ) → Lacks 0 now
      → (ms : List (List ℕ)) (s : Chat Queue) → waits mq s.queue b ≡ ms
      → s.right.child ≡ receiving
      → Kept mq a b s
      → Ok
          (λ t. Kept mq a b t × (waits mq t.queue b ≡ []) × (t.left ≡ s.left))
          (run_events mq (rounds (of_right (receives stale now)) (length ms)) s)
  unfolding run_events next_state act
  drain_lem a b d small small' stale now clear [] s e c kept = (kept, e, refl)
  drain_lem a b d small small' stale now clear (m ∷ ms) s e c kept =
      let (p₁, p₂, p₃, e₁, e₂, e₃, c', e', kept') =
        round_lem b a (Distinct-swap a b d) small' small s.left stale now clear s.right s.queue m ms
          c e (Holds-swap mq a b s.left s.right s.queue kept) in
      let t : Chat Queue = record s { queue = p₃.1; right = p₃.0 } in
      let event = of_right (receives stale now) in
      let at : run_events mq (rounds event (suc (length ms))) s
          ≡ run_events mq (rounds event (length ms)) t =
        rw (e₁, e₂, e₃) refl in
      subst (Ok (λ t. Kept mq a b t × (waits mq t.queue b ≡ []) × (t.left ≡ s.left))) (sym at) (
        drain_lem a b d small small' stale now clear ms t e' c'
          (Holds-swap mq b a p₃.0 s.left p₃.1 kept'))

  -- Two users with identities below 2 ^ 31 - 20, whose messages and acknowledgements have four different
  -- positive types, each the other's receiver, have started with no message in the queue, and type
  -- lines that have at most 507 bytes up to a NUL; an array `text` has 512 bytes, and a time no NUL.
  -- At any time at which the second one's child is about to receive a message, as many rounds of
  -- its loop as messages wait for it lead, without a fault, to a state in which it has printed all
  -- that the first one had sent.
  pub prints_rest :
      (q : Option Queue) (a b : ℕ) (lines lines' : List (List ℕ)) (events : List Move)
      → Distinct a b
      → a < 2147483628
      → b < 2147483628
      → ((t : ℕ) → waits mq q t ≡ [])
      → All Fits lines
      → All Fits lines'
      → All IsMove events
      → (s : Chat Queue) → run_events mq events (meeting q a b lines lines') ≡ some s
      → s.right.child ≡ receiving
      → (stale now : List ℕ) → Lacks 0 now
      → Ok
          (λ t. t.right.received ≡ from a s.left.sent)
          (run_events mq (rounds (of_right (receives stale now)) (length (waits mq s.queue b))) s)
  prints_rest q a b lines lines' events d small small' quiet fits fits' is s e c stale now clear =
      let kept : Kept mq a b s = subst (Ok (Kept mq a b)) e (
        run_events-Kept mq a b d small small' events (meeting q a b lines lines') is
          (meeting-Kept mq q a b lines lines' small small' quiet fits fits')) in
      Ok-mono (λ t. Kept mq a b t × (waits mq t.queue b ≡ []) × (t.left ≡ s.left))
        (λ t. t.right.received ≡ from a s.left.sent) _
        (drain_lem a b d small small' stale now clear (waits mq s.queue b) s refl c kept)
        (λ t (kept', empty, same).
          sym (
            Flow-drained Carries
              (subst (Flow Carries (from a t.left.sent) t.right.received) empty kept'.0.0.3.0))
          ∙ ap (λ u. from a u.sent) same)
