-- ===== src/Messages/Delivery.antt =====
-- week10/main.c: in every order of the steps, messages and acknowledgements arrive in order.
use systemprogramminglab.Prelude.{
  ℕ, suc, ◌+◌, ◌≤◌, ◌<◌, ◌≡◌, refl, ◌∙◌, sym, Option, none, some, List, [], ◌∷◌, ◌++◌, length,
  arith, All, Ok, Ok-bind, Ok-mono, subst, ℤ, pos,
}
use systemprogramminglab.Libc.Decimal.{decimal, read_digits, strtol-decimal}
use systemprogramminglab.Libc.Decimal.Casts.{strtol_int-fits}
use systemprogramminglab.Messages.{
  MessageQueue, User, get_id, start_user, Receiver, receiving, acking, confirming, interrupted,
  failed,
}
use systemprogramminglab.Messages.Run.{
  Chat, IsMove, Move, of_left, of_right, act, next_state, run_events, started,
}
use systemprogramminglab.Messages.Bytes.{Carries, CarriesTime}
use systemprogramminglab.Messages.Flow.{Flow, Flow-empty}
use systemprogramminglab.Messages.Invariant.{Half, Owes, Distinct, Fits, from}
use systemprogramminglab.Messages.Sending.{waits, Ready, Holds}
use systemprogramminglab.Messages.Turns.{act_lem}

-- An identity as it is typed.
abbrev pub typed_id : ℕ → List ℕ
typed_id n = decimal n ++ (b'\n' ∷ [])

-- What `v` has printed is a beginning of what `u` has sent, and the times that `u` has printed of
-- those that `v` has acknowledged; at most one message printed is not acknowledged.
abbrev pub Delivers : ℕ → User → User → Type 0
Delivers a u v =
    ((rest : List (ℤ × List ℕ)) × (from a u.sent ≡ v.received ++ rest))
    × ((rest : List (List ℕ)) × (v.acked ≡ u.confirmed ++ rest))
    × (length v.acked ≤ length v.received)
    × (length v.received ≤ suc (length v.acked))

pub Distinct-swap : (a b : ℕ) → Distinct a b → Distinct b a
Distinct-swap a b (p, q, r, s, t) = (q, p, (λ e. r (sym e)), t, s)

Owes-bounds : (c : Receiver) (n k : ℕ) → Owes c n k → (k ≤ n) × (n ≤ suc k)
Owes-bounds receiving n k e = (omega arith, omega arith)
Owes-bounds acking n k e = (omega arith, omega arith)
Owes-bounds confirming n k e = (omega arith, omega arith)
Owes-bounds interrupted n k e = e
Owes-bounds failed n k e = absurd e

Half-Delivers : (a b : ℕ) (u v : User) (w : ℕ → List (List ℕ)) → Half a b u v w → Delivers a u v
Half-Delivers a b u v w (i, r, l, (f, g, o)) =
    let (low, high) = Owes-bounds v.child _ _ o in ((f.0, f.1), (g.0, g.1), low, high)

quiet_lem : {A : Type 0} (R : List ℕ → A → Type 0) (ms : List (List ℕ)) → ms ≡ [] → Flow R [] [] ms
quiet_lem R ms e = subst (Flow R [] []) (sym e) (Flow-empty R)

module _ {Queue : Type 0} (mq : MessageQueue Queue) where
  abbrev pub Kept : ℕ → ℕ → Chat Queue → Type 0
  Kept a b s = Holds mq a b s.right (s.left, s.queue)

  pub Holds-swap :
      (a b : ℕ) (u v : User) (q : Option Queue) → Holds mq a b v (u, q) → Holds mq b a u (v, q)
  Holds-swap a b u v none ((h, k), ready) = ((k, h), (ready.1, ready.0))
  Holds-swap a b u v (some q) ((h, k), ready) = ((k, h), tt)

  module _ (a b : ℕ) (d : Distinct a b) (small : a < 2147483628) (small' : b < 2147483628) where
    next_state-Kept :
        (event : Move) (s : Chat Queue)
        → IsMove event
        → Kept a b s
        → Ok (Kept a b) (next_state mq event s)
    unfolding next_state
    next_state-Kept (of_left turn) s is kept =
        Ok-bind (Holds mq a b s.right) (Kept a b) (act mq turn s.left s.queue) _
          (act_lem mq a b d small small' s.right turn s.left s.queue is kept) (λ p h. h)
    next_state-Kept (of_right turn) s is kept =
        Ok-bind (Holds mq b a s.left) (Kept a b) (act mq turn s.right s.queue) _
          (act_lem mq b a (Distinct-swap a b d) small' small s.left turn s.right s.queue is
            (Holds-swap a b s.left s.right s.queue kept))
          (λ p h. Holds-swap b a p.0 s.left p.1 h)

    pub run_events-Kept :
        (events : List Move) (s : Chat Queue)
        → All IsMove events
        → Kept a b s
        → Ok (Kept a b) (run_events mq events s)
    unfolding run_events
    run_events-Kept [] s is kept = kept
    run_events-Kept (event ∷ events) s is kept =
        Ok-bind (Kept a b) (Kept a b) (next_state mq event s) (run_events mq events)
          (next_state-Kept event s is.0 kept) (λ t h. run_events-Kept events t is.1 h)

-- The identities typed are the ones that the users have.
get_id-typed_id : (n : ℕ) → n < 2147483628 → get_id (typed_id n) ≡ pos n
unfolding get_id read_digits
get_id-typed_id n h =
    strtol_int-fits (typed_id n) n (strtol-decimal n (b'\n' ∷ []) ∙ refl) (omega arith)

-- Two users, each the other's receiver.
abbrev pub meeting :
    {Queue : Type 0} → Option Queue → ℕ → ℕ → List (List ℕ) → List (List ℕ) → Chat Queue
meeting q a b = started q (typed_id a, typed_id b) (typed_id b, typed_id a)

module _ {Queue : Type 0} (mq : MessageQueue Queue) where
  ready_start :
      (q : Option Queue) (u v : User) → u.child ≡ receiving → v.child ≡ receiving → Ready mq u v q
  ready_start none u v e e' = (λ k. cc, λ k. cc)
  ready_start (some q) u v e e' = tt

  pub meeting-Kept :
      (q : Option Queue) (a b : ℕ) (lines lines' : List (List ℕ))
      → a < 2147483628
      → b < 2147483628
      → ((t : ℕ) → waits mq q t ≡ [])
      → All Fits lines
      → All Fits lines'
      → Kept mq a b (meeting q a b lines lines')
  unfolding started start_user
  meeting-Kept q a b lines lines' small small' quiet fits fits' = (
    (
      (
        get_id-typed_id a small,
        get_id-typed_id b small',
        fits,
        (quiet_lem Carries _ (quiet b), quiet_lem CarriesTime _ (quiet (20 + a)), refl),
      ),
      (
        get_id-typed_id b small',
        get_id-typed_id a small,
        fits',
        (quiet_lem Carries _ (quiet a), quiet_lem CarriesTime _ (quiet (20 + b)), refl),
      ),
    ),
    ready_start q (start_user (typed_id a) (typed_id b) lines)
        (start_user (typed_id b) (typed_id a) lines') refl refl,
  )

  -- Two users with identities below 2 ^ 31 - 20, whose messages and acknowledgements have four different
  -- positive types, each the other's receiver, start with no message in the queue, and type lines
  -- that have at most 507 bytes up to a NUL; an array `text` has 512 bytes, and a time no NUL. Then
  -- their four processes, in any order of their steps, do not fault, and for each user, what has
  -- been printed of messages is a beginning of what the other has sent, in order and with its
  -- sender, what has been printed of acknowledgements is a beginning of the times acknowledged, and
  -- all messages printed are acknowledged, but for one at most.
  pub in_order :
      (q : Option Queue) (a b : ℕ) (lines lines' : List (List ℕ)) (events : List Move)
      → Distinct a b
      → a < 2147483628
      → b < 2147483628
      → ((t : ℕ) → waits mq q t ≡ [])
      → All Fits lines
      → All Fits lines'
      → All IsMove events
      → Ok
          (λ s. Delivers a s.left s.right × Delivers b s.right s.left)
          (run_events mq events (meeting q a b lines lines'))
  in_order q a b lines lines' events d small small' quiet fits fits' is =
      Ok-mono (Kept mq a b) (λ s. Delivers a s.left s.right × Delivers b s.right s.left) _
        (run_events-Kept mq a b d small small' events (meeting q a b lines lines') is
          (meeting-Kept q a b lines lines' small small' quiet fits fits'))
        (λ s kept. (
          Half-Delivers a b s.left s.right (waits mq s.queue) kept.0.0,
          Half-Delivers b a s.right s.left (waits mq s.queue) kept.0.1,
        ))
