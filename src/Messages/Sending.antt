-- ===== src/Messages/Sending.antt =====
-- week10/main.c: what a round of a parent keeps.
use systemprogramminglab.Prelude.{
  ℕ, ◌<◌, ◌≡◌, ◌≢◌, refl, sym, subst, fun_ext, inl, inr, Option, none, some, List, [], ◌∷◌, ◌++◌,
  length, codes, All, Ok, Bool-cases, arith,
}
use systemprogramminglab.Libc.Texts.{c_text, same}
use systemprogramminglab.Messages.{
  MessageQueue, User, Sender, running, exited, acking, stop, created, send_line, handle_parent,
}
use systemprogramminglab.Messages.Bytes.{c_text-Lacks, message_bytes-Carries}
use systemprogramminglab.Messages.Invariant.{Both, Distinct, Fits, Owes-stop}
use systemprogramminglab.Messages.Exchanges.{text_sent, user_set}

module _ {Queue : Type 0} (mq : MessageQueue Queue) where
  abbrev pub waits : Option Queue → ℕ → List (List ℕ)
  waits none t = []
  waits (some q) t = mq.waiting q t

  -- Nothing is to be acknowledged before there is a queue.
  abbrev pub Ready : User → User → Option Queue → Type 0
  Ready u v none = (u.child ≢ acking) × (v.child ≢ acking)
  Ready u v (some q) = Unit

  -- What a turn of `u` leaves: `v` is the other user.
  abbrev pub Holds : ℕ → ℕ → User → User × Option Queue → Type 0
  Holds a b v (u, q) = Both a b u v (waits q) × Ready u v q

  waits-created : (q : Option Queue) → waits (some (created mq q)) ≡ waits q
  waits-created none = fun_ext (λ t. mq.waiting-empty t)
  waits-created (some q) = refl

  module _ (a b : ℕ) (d : Distinct a b) (small : a < 2147483628) (v : User) where
    send_line_lem :
        (stale : List ℕ) (u : User) (q : Queue) (lines : List (List ℕ))
        → length stale ≡ 512
        → All Fits lines
        → Both a b u v (mq.waiting q)
        → Ok (Holds a b v) (send_line mq stale u q lines)
    send_line_lem stale u q [] full fits both = (both, tt)
    send_line_lem stale u q (typed ∷ lines) full fits both =
        elim (Bool-cases (same (c_text typed) (codes "quit\n"))) [
          | inl e ↦
              let kept : Both a b
                  (record u { lines = lines; parent = exited 0; child = stop u.child }) v
                  (mq.waiting q) =
                user_set a b d u v (mq.waiting q) (exited 0) (stop u.child) lines fits.1
                  (Owes-stop u.child _ _) both in
              let at : send_line mq stale u q (typed ∷ lines)
                  ≡ some (
                    record u { lines = lines; parent = exited 0; child = stop u.child },
                    some q,
                  ) =
                rw e refl in
              subst (Ok (Holds a b v)) (sym at) (kept, tt)
          | inr e ↦
              let (m, e', k) =
                message_bytes-Carries stale a (c_text typed) full (omega arith) fits.0
                  (c_text-Lacks typed) in
              let (q', e'') = mq.sends q b m d.1 in
              let u' : User = record u { lines = lines; sent = u.sent ++ (c_text typed ∷ []) } in
              let kept : Both a b u' v (mq.waiting q') =
                subst (Both a b u' v) (fun_ext (λ t. sym (mq.waiting-sent q q' b t m d.1 e'')))
                  (text_sent a b d u v (mq.waiting q) m (c_text typed) lines fits.1 k both) in
              let at : send_line mq stale u q (typed ∷ lines) ≡ some (u', some q') =
                rw (e, both.0.0, e', both.0.1, e'') refl in
              subst (Ok (Holds a b v)) (sym at) (kept, tt)
        ]

    pub parent_lem :
        (stale : List ℕ) (u : User) (q : Option Queue) (p : Sender)
        → length stale ≡ 512
        → Holds a b v (u, q)
        → Ok (Holds a b v) (handle_parent mq stale u q p)
    parent_lem stale u q running full (both, ready) =
        send_line_lem stale u (created mq q) u.lines full both.0.2
          (subst (Both a b u v) (sym (waits-created q)) both)
    parent_lem stale u q (exited code) full holds = holds
