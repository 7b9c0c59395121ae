-- ===== src/Messages/Tests.antt =====
-- The chat of week10 run on examples, over a queue that is a list.
use systemprogramminglab.Prelude.{
  ℕ, zero, suc, ◌+◌, ◌<◌, ◌≡◌, refl, Option, none, some, List, [], ◌∷◌, ◌++◌, length, codes,
  replicate, length-replicate, arith, All, Lacks, Ok, Bool-cases, inl, inr, ◌==◌, if◌then◌else◌, ℤ,
  pos, negsuc, take, drop, ◌>>=◌,
}
use systemprogramminglab.Libc.Texts.{c_text}
use systemprogramminglab.Libc.Decimal.{decimal, read_digits}
use systemprogramminglab.Libc.Decimal.Casts.{strtol_int}
use systemprogramminglab.Messages.{
  MessageQueue, User, receiving, acking, running, int_bytes, message_bytes, read_message, string_in,
  start_user, get_id,
}
use systemprogramminglab.Messages.Run.{
  Chat, Move, of_left, of_right, sends, receives, run_events, started,
}
use systemprogramminglab.Messages.Bytes.{text_cut}
use systemprogramminglab.Messages.Invariant.{Fits, from}
use systemprogramminglab.Messages.Delivery.{typed_id, Delivers, meeting, in_order}
use systemprogramminglab.Messages.Drain.{rounds, prints_rest}
use systemprogramminglab.Messages.Ids.{loops, own_acks}

abbrev Messages : Type 0
Messages = List (ℕ × List ℕ)

abbrev of_type : Messages → ℕ → List (List ℕ)
of_type [] t = []
of_type ((u, m) ∷ q) t = if t == u then m ∷ of_type q t else of_type q t

abbrev with_first : ℕ × List ℕ → Option (List ℕ × Messages) → Option (List ℕ × Messages)
with_first x none = none
with_first x (some (m, q)) = some (m, x ∷ q)

abbrev first_of : Messages → ℕ → Option (List ℕ × Messages)
first_of [] t = none
first_of ((u, m) ∷ q) t = if t == u then some (m, q) else with_first (u, m) (first_of q t)

abbrev send_to : Messages → ℤ → List ℕ → Option Messages
send_to q (pos zero) m = none
send_to q (pos (suc t)) m = some (q ++ ((suc t, m) ∷ []))
send_to q (negsuc t) m = none

abbrev receive_from : Messages → ℤ → Option (List ℕ × Messages)
receive_from q (pos t) = first_of q t
receive_from q (negsuc t) = none

sends_lem :
    (q : Messages) (t : ℕ) (m : List ℕ) → 0 < t → (q' : Messages) × (send_to q (pos t) m ≡ some q')
sends_lem q zero m h = elim h [ ]
sends_lem q (suc t) m h = (q ++ ((suc t, m) ∷ []), refl)

of_type-append :
    (q : Messages) (t u : ℕ) (m : List ℕ)
    → of_type (q ++ ((t, m) ∷ [])) u ≡ (if u == t then of_type q u ++ (m ∷ []) else of_type q u)
of_type-append [] t u m = ground arith
of_type-append ((v, l) ∷ q) t u m = ground (arith, of_type-append q t u m)

waiting-sent_lem :
    (q q' : Messages) (t u : ℕ) (m : List ℕ)
    → 0 < t
    → send_to q (pos t) m ≡ some q'
    → of_type q' u ≡ (if u == t then of_type q u ++ (m ∷ []) else of_type q u)
waiting-sent_lem q q' zero u m h e = elim h [ ]
waiting-sent_lem q q' (suc t) u m h e = ground (arith, of_type-append q (suc t) u m)

first_of-none : (q : Messages) (t : ℕ) → of_type q t ≡ [] → first_of q t ≡ none
first_of-none [] t e = refl
first_of-none ((u, m) ∷ q) t e = ground (arith, first_of-none q t)

first_of-some :
    (q : Messages) (t : ℕ) (m : List ℕ) (ms : List (List ℕ))
    → of_type q t ≡ m ∷ ms
    → (q' : Messages) × (first_of q t ≡ some (m, q'))
      × ((u : ℕ) → of_type q' u ≡ (if u == t then ms else of_type q u))
first_of-some [] t m ms e = absurd cc
first_of-some ((u, l) ∷ q) t m ms e = elim (Bool-cases (t == u)) [
  | inl h ↦ (q, ground (arith, h, e), λ v. ground (arith, h, e))
  | inr h ↦
      let at : of_type q t ≡ m ∷ ms = ground (arith, h, e) in
      let (q', e', k) = first_of-some q t m ms at in
      ((u, l) ∷ q', ground (arith, h, e'), λ v. ground (arith, h, k v))
]

abbrev queue_of_lists : MessageQueue Messages
queue_of_lists = record {
  empty = [];
  msgsnd = send_to;
  msgrcv = receive_from;
  waiting = of_type;
  waiting-empty = λ t. refl;
  sends = sends_lem;
  waiting-sent = waiting-sent_lem;
  receives_none = λ q t h e. first_of-none q t e;
  receives = λ q t m ms h e. first_of-some q t m ms e;
}

abbrev blank : List ℕ
blank = replicate 512 0

length-blank : length blank ≡ 512
length-blank = length-replicate {A = ℕ} 512 0

abbrev noon : List ℕ
noon = codes "12:00:00"

noon-Lacks : Lacks 0 noon
noon-Lacks = ground arith

abbrev hello : List (List ℕ)
hello = codes "hi\n" ∷ []

hello-Fits : All Fits hello
unfolding c_text
hello-Fits = (omega arith, tt)

abbrev first_line : List Move
first_line = of_left (sends blank) ∷ []

abbrev exchange : List Move
exchange =
    of_left (sends blank)
    ∷ of_right (receives blank noon)
    ∷ of_left (receives blank noon)
    ∷ of_right (receives blank noon)
    ∷ of_left (receives blank noon)
    ∷ []

in_order_example :
    Ok
      (λ s. Delivers 1 s.left s.right × Delivers 2 s.right s.left)
      (run_events queue_of_lists exchange (meeting none 1 2 hello []))
in_order_example =
    in_order queue_of_lists none 1 2 hello [] exchange (ground arith) (omega arith) (omega arith)
      (λ t. refl) hello-Fits tt
      (length-blank, (noon-Lacks, (noon-Lacks, (noon-Lacks, (noon-Lacks, tt)))))

abbrev after_hello : Chat Messages
after_hello = record (meeting none 1 2 hello []) {
  left = record (start_user (typed_id 1) (typed_id 2) []) { sent = hello };
  queue = some ((2, take 512 (1 ∷ 0 ∷ 0 ∷ 0 ∷ (codes "hi\n" ++ (0 ∷ drop 4 blank)))) ∷ []);
}

hello_sent : run_events queue_of_lists first_line (meeting none 1 2 hello []) ≡ some after_hello
unfolding run_events started start_user get_id strtol_int decimal read_digits int_bytes
hello_sent = refl

after_hello-receiving : after_hello.right.child ≡ receiving
unfolding started start_user
after_hello-receiving = refl

prints_rest_example :
    Ok
      (λ t. t.right.received ≡ from 1 hello)
      (run_events queue_of_lists
        (rounds queue_of_lists (of_right (receives blank noon)) 1)
        after_hello)
prints_rest_example =
    prints_rest queue_of_lists none 1 2 hello [] first_line (ground arith) (omega arith)
      (omega arith) (λ t. refl) hello-Fits tt (length-blank, tt) after_hello hello_sent
      after_hello-receiving blank noon noon-Lacks

abbrev user_21 : User
user_21 = record {
  user_id = pos 21;
  receiver_id = pos 1;
  parent = running;
  child = acking;
  lines = [];
  sent = [];
  received = (pos 1, codes "hi\n") ∷ [];
  acked = [];
  confirmed = [];
}

own_acks_example :
    Ok
      (λ p. (p.0.child ≡ acking) × (length p.0.received ≡ 100 + 1))
      (loops queue_of_lists blank noon 100 user_21 (some []))
own_acks_example =
    own_acks queue_of_lists blank noon 1 (omega arith) (omega arith) noon-Lacks 100 user_21 []
      (refl, refl, refl, refl, refl)

abbrev long_line : List ℕ
long_line = replicate 510 b'a'

length-long_line : length long_line ≡ 510
length-long_line = length-replicate {A = ℕ} 510 b'a'

text_cut_example :
    (m : List ℕ) × (message_bytes blank (pos 1) long_line ≡ some m)
    × (read_message (replicate 516 b'?') m ≡ (do
      shown ← string_in (take 508 long_line ++ drop 512 (replicate 516 b'?'))
      some (pos 1, shown)))
text_cut_example =
    text_cut blank (replicate 516 b'?') 1 long_line length-blank (omega arith)
      (omega (arith, length-long_line)) (omega (arith, length-long_line))
