-- ===== src/Signals.antt =====
-- week8/main.c: a sender that repeats a signal until it has enough acknowledgments, and a
-- receiver. A signal that is already pending is not queued a second time. Signals come after both
-- processes have set their handlers.
pub mod Counts
mod Tests
use systemprogramminglab.Prelude.{
  ℕ, ◌+◌, ◌≡◌, Bool, true, false, Option, none, some, if◌then◌else◌, ℤ, pos, dec, ◌==ℤ◌,
}

-- The variables of both processes, the signals pending for them, whether the sender runs, and the
-- number that the receiver has printed, where it has ended.
pub record Protocol : Type 0 where
  pub num_signal_to_send : ℤ
  pub num_ack_received : ℕ
  pub num_signal_received : ℕ
  pub for_receiver : Bool
  pub for_sender : Bool
  pub interrupt : Bool
  pub sender_runs : Bool
  pub printed : Option ℕ

abbrev pub main : ℤ → Protocol
main n = record {
  num_signal_to_send = n;
  num_ack_received = 0;
  num_signal_received = 0;
  for_receiver = false;
  for_sender = false;
  interrupt = false;
  sender_runs = true;
  printed = none;
}

unfoldable pub recv_ack_handler : Protocol → Protocol
recv_ack_handler s =
    let t = record s {
      num_ack_received = s.num_ack_received + 1;
      num_signal_to_send = dec s.num_signal_to_send;
    } in
    if t.num_signal_to_send ==ℤ pos 0 then record t { interrupt = true; sender_runs = false } else t

unfoldable pub terminate_handler : Protocol → Protocol
terminate_handler s = record s { printed = some s.num_signal_received }

-- `kill`; the alarm that it sets again may go off at any time.
unfoldable pub sending_handler : Protocol → Protocol
sending_handler s = record s { for_receiver = true }

unfoldable pub sending_ack : Protocol → Protocol
sending_ack s = record s { num_signal_received = s.num_signal_received + 1; for_sender = true }

-- A process that runs takes a signal: the alarm, or one that is pending.
pub data Step : Protocol → Protocol → Type 0 where
  alarm : {s : Protocol} → s.sender_runs ≡ true → Step s (sending_handler s)
  signalled :
      {s : Protocol}
      → s.printed ≡ none
      → s.for_receiver ≡ true
      → Step s (sending_ack (record s { for_receiver = false }))
  acknowledged :
      {s : Protocol}
      → s.sender_runs ≡ true
      → s.for_sender ≡ true
      → Step s (recv_ack_handler (record s { for_sender = false }))
  interrupted :
      {s : Protocol}
      → s.printed ≡ none
      → s.interrupt ≡ true
      → Step s (terminate_handler (record s { interrupt = false }))

pub data Reach (s : Protocol) : Protocol → Type 0 where
  here : Reach s s
  follow : {t u : Protocol} → Reach s t → Step t u → Reach s u
