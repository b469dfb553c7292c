-- ===== src/Remote/Task/Packets.antt =====
-- lib/remote/esk8_remote_ps2_task.c: the bytes of packets, and the moves that they carry.
use esk.Common.{
  ◌≡◌, refl, sym, ap, ◌∙◌, Bool, true, false, List, [], ◌∷◌, ◌++◌, Option, none, some, map, length,
  if◌then◌else◌, Bool-cases, inl, inr,
}
use esk.Err.{Err, failed, ok}
use esk.Ps2.Types.{
  Cmd, Hndl, SqncFrame, Frame, Mvmt, Call, queue_reset, task_delay_ms, semaphore_give,
  cmd_data_disable, cmd_data_enable,
}
use esk.Ps2.Command.{Wait, mvmt_sync, send_cmd, sync_enable, restart_sequence, send_byte, await_rsp}
use esk.Ps2.Mvmt.Packet.{packet_bytes, good, IsMove, await_mvmt-packet}
use esk.Remote.Lifecycle.{failed-ne}
use esk.Remote.{Remote, incr_speed, follow}
use esk.Remote.Task.{
  syncing, awaiting, Task, Reply, Act, duty, sync_step, await_step, round, step, run,
}

-- What a wait receives when the packet of a move comes, and whatever is behind it.
abbrev pub receiving : Reply → Mvmt × List (Option Frame) → Reply
receiving reply (m, rest) = record reply { receives = map good (packet_bytes m) ++ rest }

abbrev pub AllMoves : List (Mvmt × List (Option Frame)) → Type 0
AllMoves [] = Unit {0}
AllMoves (packet ∷ packets) = IsMove packet.0 × AllMoves packets

abbrev pub moves_of : List (Mvmt × List (Option Frame)) → List Mvmt
moves_of [] = []
moves_of (packet ∷ packets) = packet.0 ∷ moves_of packets

-- The task waits for the first byte of a packet.
pub record IsReady (t : Task) : Type 0 where
  pub phase : t.phase ≡ awaiting
  pub start : t.hndl.sqnc_frame.idx ≡ 0
  pub room : length t.hndl.sqnc_frame.mvmt ≡ 3

-- The task behind a move.
abbrev moved : Task → Mvmt → Task
moved t m = record t {
  remote = (incr_speed t.remote m.x).0;
  hndl = record t.hndl { sqnc_frame = record t.hndl.sqnc_frame { idx = 0; mvmt = packet_bytes m } };
}

-- What the task makes of a wait's outcome.
abbrev settled : Task → SqncFrame × Err × Option Mvmt → Task × List Act
settled t (sqnc, err, out_mvmt) =
    let awaited = record t { hndl = record t.hndl { sqnc_frame = sqnc } } in
    if failed err then (record awaited { phase = syncing }, []) else elim out_mvmt [
      | none ↦ (awaited, [])
      | some mvmt ↦ (
        record awaited { remote = (incr_speed t.remote mvmt.x).0 },
        duty (incr_speed t.remote mvmt.x).1 ∷ [],
      )
    ]

await_step-packet :
    (t : Task) (reply : Reply) (packet : Mvmt × List (Option Frame))
    → IsReady t
    → IsMove packet.0
    → await_step t (receiving reply packet)
      ≡ (moved t packet.0, duty (incr_speed t.remote packet.0.x).1 ∷ [])
unfolding await_step
await_step-packet t reply (m, rest) ready move =
    ap (settled t) (await_mvmt-packet m t.hndl.sqnc_frame rest move ready.start ready.room)

step-packet :
    (t : Task) (reply : Reply) (packet : Mvmt × List (Option Frame))
    → IsReady t
    → IsMove packet.0
    → step t (receiving reply packet)
      ≡ (moved t packet.0, duty (incr_speed t.remote packet.0.x).1 ∷ [])
unfolding round
step-packet t reply packet ready move =
    ap (λ p. round p t (receiving reply packet)) ready.phase
    ∙ await_step-packet t reply packet ready move

-- What a run comes to that follows some moves.
pub record Follows (r : Remote) (moves : List Mvmt) (outcome : Task × List Act) : Type 0 where
  pub remote : outcome.0.remote ≡ (follow r moves).0
  pub duties : outcome.1 ≡ map duty (follow r moves).1
  pub ready : IsReady outcome.0

-- From a task that waits for the first byte of a packet, the packets of any moves, each received without error in its
-- own wait, make the remote follow these moves: it sets just their duties, and waits for the next packet.
pub run-follow :
    (t : Task) (reply : Reply) (packets : List (Mvmt × List (Option Frame)))
    → IsReady t
    → AllMoves packets
    → Follows t.remote (moves_of packets) (run t (map (receiving reply) packets))
unfolding run follow
run-follow t reply [] ready all = record { remote = refl; duties = refl; ready = ready }
run-follow t reply (packet ∷ packets) ready all =
    let rest =
      run-follow (moved t packet.0) reply packets
        (record { phase = ready.phase; start = refl; room = refl }) all.1 in
    rw (step-packet t reply packet ready all.0) (record {
      remote = rest.remote;
      duties = ap (λ l. duty (incr_speed t.remote packet.0.x).1 ∷ l) rest.duties;
      ready = rest.ready;
    })

-- The interrupts leave the sequence of bytes alone.
abbrev pub KeepsSequence : Wait → Type 0
KeepsSequence wait = (h : Hndl) → (wait h).0.sqnc_frame ≡ h.sqnc_frame

send_cmd-sqnc_frame :
    (h : Hndl) (locked : Bool) (wait : Wait) (cmd : Cmd)
    → KeepsSequence wait
    → (send_cmd h locked wait cmd).0.sqnc_frame ≡ h.sqnc_frame
unfolding send_cmd await_rsp send_byte
send_cmd-sqnc_frame h false wait cmd keeps = refl
send_cmd-sqnc_frame h true wait cmd keeps = keeps _

passed :
    (err : Err) (x y : Hndl × List Call × Err)
    → x.2 ≡ err
    → (if failed err then x else y).2 ≡ ok
    → (if failed err then x else y) ≡ y
passed err x y same e = elim (Bool-cases (failed err)) [
  | inl bad ↦ absurd (failed-ne err bad (sym same ∙ (rw bad at e)))
  | inr fine ↦ rw fine refl
]

mvmt_sync-sqnc_frame :
    (h : Hndl) (reply : Reply)
    → KeepsSequence reply.wait
    → KeepsSequence reply.wait_again
    → (mvmt_sync h reply.locked reply.wait reply.locked_again reply.wait_again).2 ≡ ok
    → (mvmt_sync h reply.locked reply.wait reply.locked_again reply.wait_again).0.sqnc_frame
      ≡ record h.sqnc_frame { idx = 0 }
unfolding mvmt_sync sync_enable
mvmt_sync-sqnc_frame h reply keeps keeps_again e =
    let first = send_cmd h reply.locked reply.wait cmd_data_disable in
    let restarted = restart_sequence first.0 in
    let calls = first.1 ++ (queue_reset first.0.mv_queue ∷ task_delay_ms 20 ∷ []) in
    let half = sync_enable restarted calls reply.locked_again reply.wait_again in
    let whole = passed first.2 first half refl e in
    let second = send_cmd restarted reply.locked_again reply.wait_again cmd_data_enable in
    let rest =
      passed second.2 (second.0, calls ++ second.1, second.2)
        (second.0, calls ++ (second.1 ++ (semaphore_give second.0.tx_lock ∷ [])), ok) refl
        (sym (ap (λ r. r.2) whole) ∙ e) in
    ap (λ r. r.0.sqnc_frame) (whole ∙ rest)
    ∙ send_cmd-sqnc_frame restarted reply.locked_again reply.wait_again cmd_data_enable keeps_again
    ∙ ap {A = SqncFrame} {B = SqncFrame} (λ q. record q { idx = 0 })
        (send_cmd-sqnc_frame h reply.locked reply.wait cmd_data_disable keeps)

-- The task behind a resynchronisation that succeeds.
abbrev synced : Task → Reply → Task
synced t reply = record t {
  hndl = (mvmt_sync t.hndl reply.locked reply.wait reply.locked_again reply.wait_again).0;
  ps2_available = true;
  phase = awaiting;
}

sync_step-synced :
    (t : Task) (reply : Reply)
    → (mvmt_sync t.hndl reply.locked reply.wait reply.locked_again reply.wait_again).2 ≡ ok
    → (sync_step t reply).0 ≡ synced t reply
unfolding sync_step
sync_step-synced t reply e = rw e refl

step-synced :
    (t : Task) (reply : Reply)
    → t.phase ≡ syncing
    → (mvmt_sync t.hndl reply.locked reply.wait reply.locked_again reply.wait_again).2 ≡ ok
    → (step t reply).0 ≡ synced t reply
unfolding round
step-synced t reply at_sync e = ap (λ p. (round p t reply).0) at_sync ∙ sync_step-synced t reply e

-- A task that resynchronises, with the three bytes that the sequence has room for: once a resynchronisation returns
-- `ESK8_OK` over interrupts that leave the sequence alone, and whatever an earlier failure left of the
-- sequence, the packets of any moves, each received without error in its own wait, make the remote follow these moves.
pub run-recovers :
    (t : Task) (reply : Reply) (packets : List (Mvmt × List (Option Frame)))
    → t.phase ≡ syncing
    → length t.hndl.sqnc_frame.mvmt ≡ 3
    → KeepsSequence reply.wait
    → KeepsSequence reply.wait_again
    → (mvmt_sync t.hndl reply.locked reply.wait reply.locked_again reply.wait_again).2 ≡ ok
    → AllMoves packets
    → let t' = (step t reply).0 in
      IsReady t'
      × ((t'.ps2_available ≡ true)
          × Follows t.remote (moves_of packets) (run t' (map (receiving reply) packets)))
run-recovers t reply packets at_sync three keeps keeps_again e all =
    let quiet = mvmt_sync-sqnc_frame t.hndl reply keeps keeps_again e in
    let ready : IsReady (synced t reply) = record {
      phase = refl;
      start = ap (λ q. q.idx) quiet;
      room = ap (λ q. length q.mvmt) quiet ∙ three;
    } in
    rw (step-synced t reply at_sync e)
      (ready, (refl, run-follow (synced t reply) reply packets ready all))
