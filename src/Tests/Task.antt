-- ===== src/Tests/Task.antt =====
-- The task of the trackpad: a lost byte, a resynchronisation, and two moves; and a scan.
use esk.Common.{ℕ, ◌≡◌, ◌↔◌, refl, arith, true, false, List, [], ◌∷◌, Option, none, some, map}
use esk.Common.Int.{pos, negsuc}
use esk.Err.{ok}
use esk.Ps2.Types.{Mvmt, Frame, Hndl}
use esk.Ps2.Init.{fresh}
use esk.Ps2.Command.{Wait, mvmt_sync, send_cmd, response, acknowledge, sync_enable, send_byte}
use esk.Remote.{stopped_remote, Sdk, remote_start, start_pwm, start_ps2, connect}
use esk.Remote.Scan.{Event, scan_result, other, all_events, stops, connect-all_events}
use esk.Remote.Task.{Task, syncing, awaiting, Reply, step, run}
use esk.Remote.Task.Laws.{Holds, run-Holds}
use esk.Remote.Task.Pauses.{paced, syncs, run-paced, pauses}
use esk.Remote.Task.Packets.{
  KeepsSequence, IsReady, Follows, receiving, moves_of, AllMoves, run-follow, run-recovers,
}

abbrev device : Hndl
device =
    fresh (record { rx_queue = 11; mv_queue = 12; tx_lock = 13 })
      (record { rx_queue_len = 3; rx_timeout_ms = 20; clock_pin = 21; data_pin = 22 })

-- The interrupts of a wait bring the acknowledgement.
abbrev acknowledged : Wait
acknowledged h = (h, some (record { err = ok; byte = 0xFA; idx = 11 }))

acknowledged-KeepsSequence : KeepsSequence acknowledged
acknowledged-KeepsSequence h = refl

abbrev answered : Reply
answered = record {
  locked = true;
  wait = acknowledged;
  locked_again = true;
  wait_again = acknowledged;
  receives = [];
}

abbrev silent : Reply
silent = record answered { locked = false }

-- A task that is stopped within a packet.
abbrev begun : Task
begun = record {
  remote = record stopped_remote { speed = pos 250 };
  hndl = record device { sqnc_frame = record device.sqnc_frame { idx = 2 } };
  ps2_available = false;
  phase = syncing;
}

abbrev packets : List (Mvmt × List (Option Frame))
packets =
    (record { x = pos 9; y = pos 0; lft_btn = 0 }, none ∷ [])
    ∷ (record { x = negsuc 3; y = pos 1; lft_btn = 1 }, [])
    ∷ []

packets-AllMoves : AllMoves packets
packets-AllMoves = (ground arith, (ground arith, tt))

abbrev replies : List Reply
replies = silent ∷ silent ∷ answered ∷ answered ∷ silent ∷ []

synced : (mvmt_sync begun.hndl true acknowledged true acknowledged).2 ≡ ok
unfolding mvmt_sync send_cmd response acknowledge sync_enable
synced = refl

pauses-run : pauses (run begun replies).1 ≡ 1000 ∷ 1000 ∷ 10 ∷ []
unfolding run send_cmd response acknowledge sync_enable send_byte
pauses-run = refl

run-paced_example : pauses (run begun replies).1 ≡ paced false (syncs begun replies)
run-paced_example = run-paced begun replies

run-Holds_example : Holds 250 (run begun (answered ∷ map (receiving answered) packets))
run-Holds_example =
    run-Holds 250 begun (answered ∷ map (receiving answered) packets) refl (omega arith)

abbrev again : Task
again = record begun { hndl = device; phase = awaiting }

run-follow_example :
    Follows begun.remote (moves_of packets) (run again (map (receiving answered) packets))
run-follow_example =
    run-follow again answered packets (record { phase = refl; start = refl; room = refl })
      packets-AllMoves

run-recovers_example :
    let t' = (step begun answered).0 in
    IsReady t'
    × ((t'.ps2_available ≡ true)
        × Follows begun.remote (moves_of packets) (run t' (map (receiving answered) packets)))
run-recovers_example =
    run-recovers begun answered packets refl refl acknowledged-KeepsSequence
      acknowledged-KeepsSequence synced packets-AllMoves

abbrev sdk : Sdk
sdk = record {
  nvs_full = false;
  nvs_err = 0;
  pwm = record { err = ok; hndl = 1 };
  ps2 = record { err = ok; hndl = 2 };
  ps2_tsk = 3;
  btn = record { err = ok; hndl = 4 };
  btn_tsk = 5;
}

abbrev results : List Event
results = other 3 ∷ scan_result true (1 ∷ 2 ∷ 3 ∷ 4 ∷ 5 ∷ 6 ∷ []) (negsuc 40) ∷ []

sdk_starts : (remote_start stopped_remote sdk).1 ≡ ok
unfolding remote_start start_pwm start_ps2
sdk_starts = refl

connect-all_events_example :
    let r = connect (remote_start stopped_remote sdk).0 0 in
    ((r.1 ≡ ok) ↔ (◌≡◌ {A = ℕ} 0 0)) × (all_events r.0 results ≡ stops results)
connect-all_events_example = connect-all_events stopped_remote sdk 0 results refl sdk_starts
