-- ===== src/Signals/Counts.antt =====
-- The counters of week8/main.c, whatever the order in which the signals arrive.
use systemprogramminglab.Prelude.{
  ℕ, zero, suc, ◌+◌, ◌≤◌, ◌<◌, ◌≡◌, refl, ◌∙◌, ap, Bool, true, false, some, arith, if◌then◌else◌,
  pos, dec, ◌==◌,
}
use systemprogramminglab.Signals.{
  Protocol, main, recv_ack_handler, terminate_handler, sending_handler, sending_ack, Step, alarm,
  signalled, acknowledged, interrupted, Reach, here, follow,
}

abbrev flag : Bool → ℕ
flag b = if b then 1 else 0

pub record Invariant (n : ℕ) (s : Protocol) : Type 0 where
  pub left : ℕ
  pub left_is : s.num_signal_to_send ≡ pos left
  pub sum : s.num_ack_received + left ≡ n
  pub heard : s.num_ack_received + flag s.for_sender ≤ s.num_signal_received
  pub runs : s.sender_runs ≡ true → 0 < left
  pub ended : s.sender_runs ≡ false → left ≡ 0
  pub quiet : s.interrupt ≡ true → s.sender_runs ≡ false
  pub told : (m : ℕ) → s.printed ≡ some m → n ≤ m

main-Invariant : (n : ℕ) → 0 < n → Invariant n (main (pos n))
main-Invariant n h = record {
  left = n;
  left_is = refl;
  sum = omega arith;
  heard = omega arith;
  runs = λ e. h;
  ended = λ e. ground arith;
  quiet = λ e. ground arith;
  told = λ m e. ground arith;
}

suc_ne_zero : (k : ℕ) → (suc k == 0) ≡ false
suc_ne_zero k = ground arith

-- `left` is as the invariant says; it is not 0.
acknowledge :
    (n : ℕ) (s : Protocol) (v : Invariant n s)
    → s.sender_runs ≡ true
    → s.for_sender ≡ true
    → (left : ℕ) → v.left ≡ left
    → Invariant n (recv_ack_handler (record s { for_sender = false }))
unfolding recv_ack_handler
acknowledge n s v a b zero e = absurd (omega (arith, v.runs a))
acknowledge n s v a b (suc zero) e = rw (ap dec (v.left_is ∙ ap pos e)) (record {
  left = 0;
  left_is = refl;
  sum = omega (arith, v.sum);
  heard = ground (arith, v.heard);
  runs = λ r. ground arith;
  ended = λ r. refl;
  quiet = λ r. refl;
  told = v.told;
})
acknowledge n s v a b (suc (suc k)) e =
    rw (ap dec (v.left_is ∙ ap pos e), suc_ne_zero k)
      (record {
        left = suc k;
        left_is = refl;
        sum = omega (arith, v.sum);
        heard = ground (arith, v.heard);
        runs = λ r. omega arith;
        ended = λ r. ground arith;
        quiet = v.quiet;
        told = v.told;
      })

Step-Invariant : (n : ℕ) (s t : Protocol) → Invariant n s → Step s t → Invariant n t
unfolding recv_ack_handler terminate_handler sending_handler sending_ack
Step-Invariant n s _ v (alarm a) = record {
  left = v.left;
  left_is = v.left_is;
  sum = v.sum;
  heard = v.heard;
  runs = v.runs;
  ended = v.ended;
  quiet = v.quiet;
  told = v.told;
}
Step-Invariant n s _ v (signalled a b) = record {
  left = v.left;
  left_is = v.left_is;
  sum = v.sum;
  heard = ground (arith, v.heard);
  runs = v.runs;
  ended = v.ended;
  quiet = v.quiet;
  told = v.told;
}
Step-Invariant n s _ v (acknowledged a b) = acknowledge n s v a b v.left refl
Step-Invariant n s _ v (interrupted a b) = record {
  left = v.left;
  left_is = v.left_is;
  sum = v.sum;
  heard = v.heard;
  runs = v.runs;
  ended = v.ended;
  quiet = λ e. ground arith;
  told = λ m e. ground (arith, v.sum, v.heard, v.ended, v.quiet b, e);
}

Reach-Invariant : (n : ℕ) (s t : Protocol) → Invariant n s → Reach s t → Invariant n t
Reach-Invariant n s t v here = v
Reach-Invariant n s t v (follow {t = u} r x) = Step-Invariant n u t (Reach-Invariant n s u v r) x

-- Whatever the order of the signals and however many of them are lost: if at least one signal is
-- to be sent, then the number that the receiver prints is at least the number of signals to be
-- sent.
pub printed_lem :
    (n m : ℕ) (s : Protocol) → 0 < n → Reach (main (pos n)) s → s.printed ≡ some m → n ≤ m
printed_lem n m s h r e = (Reach-Invariant n (main (pos n)) s (main-Invariant n h) r).told m e

-- And when the sender has ended it has had as many acknowledgments as signals were to be sent, and
-- the receiver has counted at least as many signals.
pub ended_lem :
    (n : ℕ) (s : Protocol)
    → 0 < n
    → Reach (main (pos n)) s
    → s.sender_runs ≡ false
    → (s.num_ack_received ≡ n) × (n ≤ s.num_signal_received)
ended_lem n s h r e =
    let v = Reach-Invariant n (main (pos n)) s (main-Invariant n h) r in
    (omega (arith, v.sum, v.ended e), ground (arith, v.sum, v.ended e, v.heard))
