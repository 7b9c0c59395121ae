-- ===== src/Signals/Tests.antt =====
-- The theorems on week8/main.c with one signal to be sent.
use systemprogramminglab.Prelude.{◌≡◌, ◌≤◌, refl, false, some, arith, pos}
use systemprogramminglab.Signals.{
  Protocol, main, recv_ack_handler, terminate_handler, sending_handler, sending_ack, alarm,
  signalled, acknowledged, interrupted, Reach, here, follow,
}
use systemprogramminglab.Signals.Counts.{printed_lem}

abbrev sent : Protocol
sent = sending_handler (main (pos 1))

abbrev counted : Protocol
counted = sending_ack (record sent { for_receiver = false })

abbrev ended : Protocol
ended = recv_ack_handler (record counted { for_sender = false })

abbrev stopped : Protocol
stopped = terminate_handler (record ended { interrupt = false })

main-ended : Reach (main (pos 1)) ended
unfolding sending_handler sending_ack
main-ended =
    follow (follow (follow here (alarm refl)) (signalled refl refl)) (acknowledged refl refl)

main-stopped : Reach (main (pos 1)) stopped
unfolding sending_handler sending_ack recv_ack_handler
main-stopped = follow main-ended (interrupted refl refl)

stopped_prints : stopped.printed ≡ some 1
unfolding sending_handler sending_ack recv_ack_handler terminate_handler
stopped_prints = refl

printed_lem_example : 1 ≤ 1
printed_lem_example = printed_lem 1 1 stopped (omega arith) main-stopped stopped_prints
