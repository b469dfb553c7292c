-- ===== src/Remote/Task.antt =====
-- lib/remote/esk8_remote_ps2_task.c: the task that follows the trackpad, one call of its driver after another.
pub mod Laws
pub mod Pauses
pub mod Packets
use esk.Common.{ℕ, Bool, true, List, [], ◌∷◌, ◌++◌, Option, none, some, if◌then◌else◌}
use esk.Err.{failed}
use esk.Ps2.Types.{Frame, Hndl}
use esk.Ps2.Types
use esk.Ps2.Command.{Wait, mvmt_sync}
use esk.Ps2.Mvmt.{await_mvmt}
use esk.Remote.{Remote, incr_speed}

-- The loop that the task is in: the outer one at `esk8_ps2_mvmt_sync`, or the inner one at `esk8_ps2_await_mvmt`.
pub data Phase : Type 0 where
  syncing awaiting : Phase

-- The task with the remote and the driver of the trackpad.
pub record Task : Type 0 where
  pub remote : Remote
  pub hndl : Hndl
  pub ps2_available : Bool
  pub phase : Phase

-- What becomes of the call that the task is at: the lock and the wait of each command of a resynchronisation, and
-- what is received in a wait for a movement.
pub record Reply : Type 0 where
  pub locked : Bool
  pub wait : Wait
  pub locked_again : Bool
  pub wait_again : Wait
  pub receives : List (Option Frame)

-- What the task does; a pause is in milliseconds.
pub data Act : Type 0 where
  ps2 : Types.Call → Act
  pause duty : ℕ → Act

abbrev pub all_ps2 : List Types.Call → List Act
all_ps2 [] = []
all_ps2 (c ∷ cs) = ps2 c ∷ all_ps2 cs

-- A round of the outer loop, up to the inner one.
unfoldable pub sync_step : Task → Reply → Task × List Act
unfolding mvmt_sync
sync_step t reply =
    let (hndl, calls, err) =
      mvmt_sync t.hndl reply.locked reply.wait reply.locked_again reply.wait_again in
    let synced = record t { hndl = hndl } in
    if failed err
    then (synced, all_ps2 calls ++ (pause (if t.ps2_available then 10 else 1000) ∷ []))
    else (record synced { ps2_available = true; phase = awaiting }, all_ps2 calls)

-- A round of the inner loop. A wait that succeeds has stored its movement.
unfoldable pub await_step : Task → Reply → Task × List Act
unfolding await_mvmt incr_speed
await_step t reply =
    let (sqnc, err, out_mvmt) = await_mvmt t.hndl.sqnc_frame reply.receives in
    let awaited = record t { hndl = record t.hndl { sqnc_frame = sqnc } } in
    if failed err then (record awaited { phase = syncing }, []) else elim out_mvmt [
      | none ↦ (awaited, [])
      | some mvmt ↦
          let (remote, now) = incr_speed t.remote mvmt.x in
          (record awaited { remote = remote }, duty now ∷ [])
    ]

unfoldable pub round : Phase → Task → Reply → Task × List Act
unfolding sync_step await_step
round syncing t reply = sync_step t reply
round awaiting t reply = await_step t reply

abbrev pub step : Task → Reply → Task × List Act
step t reply = round t.phase t reply

-- `esk8_remote_task_ps2`, as far as its calls have returned.
unfoldable pub run : Task → List Reply → Task × List Act
unfolding round
run t [] = (t, [])
run t (reply ∷ replies) =
    let (t', acts) = step t reply in let (t'', more) = run t' replies in (t'', acts ++ more)
