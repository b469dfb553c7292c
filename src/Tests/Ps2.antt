-- ===== src/Tests/Ps2.antt =====
-- lib/ps2 at concrete packets and commands.
use esk.Common.{
  ℕ, ◌≡◌, ◌≢◌, refl, true, List, [], ◌∷◌, ◌++◌, map, none, some, take, get_or, ◌+◌, ◌%◌, ◌==◌,
  if◌then◌else◌, arith,
}
use esk.Common.Int.{pos, negsuc}
use esk.Err.{ok, failed}
use esk.Ps2.Types.{
  cmd_data_disable, Mvmt, state_send, state_recv, state_mvmt, SqncFrame, Hndl, Call, queue_send,
  reset_frame, semaphore_give, gpio_setup, isr_handler_add,
}
use esk.Ps2.Isr.{edges}
use esk.Ps2.Isr.Receive.{at_frame, ready, packet, movement, response}
use esk.Ps2.Isr.Send.{edges-send, edges-send-edges, send_calls, driven}
use esk.Ps2.Isr.Words.{ones}
use esk.Ps2.Isr.Errors.{edges-verdict, verdict, first_frame}
use esk.Ps2.Isr.Invariant.{edges-IsValid, IsValid}
use esk.Ps2.Command.{Wait, send_cmd, mvmt_sync}
use esk.Ps2.Command.Laws.{gives-mvmt_sync, gives}
use esk.Ps2.Mvmt.{await_mvmt}
use esk.Ps2.Mvmt.Packet.{await_mvmt-packet, IsMove, packet_bytes, good}
use esk.Ps2.Init.{Created, fresh, config_h}

abbrev created : Created
created = record { rx_queue = 11; mv_queue = 12; tx_lock = 13 }

abbrev device : Hndl
device = fresh created config_h

-- A line that is high for every level but 0.
abbrev tied : ℕ → ℕ
tied level = if level == 0 then 0 else 1

tied-high : (level : ℕ) → level ≢ 0 → tied level ≡ 1
tied-high level h = ground arith

edges-send-edges_example :
    let sent =
      edges
        (at_frame device state_send (record { err = ok; byte = 0xFA; idx = 0 }))
        (1 ∷ ((0 ∷ 0 ∷ 0 ∷ 0 ∷ 1 ∷ 1 ∷ 1 ∷ 1 ∷ []) ++ (1 ∷ 0 ∷ 1 ∷ []))) in
    let levels = map tied (take 11 (driven device.ps2_cnfg.data_pin sent.1)) in
    ((ones 0xFA + get_or levels 9 0) % 2 ≡ 1)
    × (edges (at_frame device state_mvmt reset_frame) levels
        ≡ (ready device, queue_send 12 (record { err = ok; byte = 0xFA; idx = 11 }) ∷ []))
edges-send-edges_example =
    edges-send-edges tied refl tied-high movement device device 0xFA 1 1 0 1
      (0 ∷ 0 ∷ 0 ∷ 0 ∷ 1 ∷ 1 ∷ 1 ∷ 1 ∷ []) (omega arith) refl

edges-verdict_example :
    first_frame (edges (at_frame device state_recv reset_frame) (packet 0 0xFA 1 0)).1
    ≡ some (verdict 0 0xFA 1 0)
edges-verdict_example = edges-verdict response device 0 0xFA 1 0 (omega arith) (omega arith)

edges-send_example :
    edges
      (at_frame device state_send (record { err = ok; byte = 0xF4; idx = 0 }))
      (1 ∷ ((0 ∷ 0 ∷ 0 ∷ 0 ∷ 1 ∷ 1 ∷ 1 ∷ 1 ∷ []) ++ (1 ∷ 0 ∷ 1 ∷ [])))
    ≡ (at_frame device state_recv reset_frame, send_calls 22 0xF4)
edges-send_example =
    edges-send device 0xF4 1 1 0 1 (0 ∷ 0 ∷ 0 ∷ 0 ∷ 1 ∷ 1 ∷ 1 ∷ 1 ∷ []) (omega arith) refl

edges-IsValid_example : IsValid (edges device (0 ∷ 1 ∷ 1 ∷ [])).0
edges-IsValid_example = edges-IsValid device (0 ∷ 1 ∷ 1 ∷ []) device-IsValid
  where
    device-IsValid : IsValid device
    device-IsValid = ground arith

-- The interrupts of a wait bring the acknowledgement.
abbrev acknowledged : Wait
acknowledged h = (h, some (record { err = ok; byte = 0xFA; idx = 11 }))

gives-mvmt_sync_example :
    gives (mvmt_sync device true acknowledged true acknowledged).1
    ≡ 1
      + (if failed (send_cmd device true acknowledged cmd_data_disable).2 then 0 else 1)
      + (if failed (mvmt_sync device true acknowledged true acknowledged).2 then 0 else 1)
gives-mvmt_sync_example = gives-mvmt_sync device true acknowledged true acknowledged

abbrev move : Mvmt
move = record { x = negsuc 2; y = pos 7; lft_btn = 1 }

move-IsMove : IsMove move
move-IsMove = ground arith

abbrev sequence : SqncFrame
sequence = record { err = ok; idx = 0; mvmt = 9 ∷ 9 ∷ 9 ∷ [] }

await_mvmt-packet_example :
    await_mvmt sequence (map good (packet_bytes move) ++ (none ∷ []))
    ≡ (record sequence { idx = 0; mvmt = packet_bytes move }, ok, some move)
await_mvmt-packet_example = await_mvmt-packet move sequence (none ∷ []) move-IsMove refl refl

abbrev stored : SqncFrame
stored = record { err = ok; idx = 3; mvmt = 0x19 ∷ 0xFD ∷ 7 ∷ [] }

abbrev no_lock : Created
no_lock = record created { tx_lock = 0 }

abbrev setup_calls : List Call
setup_calls = gpio_setup 23 ∷ gpio_setup 22 ∷ isr_handler_add 23 ∷ semaphore_give 13 ∷ []
