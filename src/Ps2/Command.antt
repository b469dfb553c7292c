-- ===== src/Ps2/Command.antt =====
-- lib/ps2/esk8_ps2_utils.c: commands and their acknowledgement.
-- While the driver waits on a queue the interrupts go on: a `Wait` is what they make of the handle,
-- with what `xQueueReceive` gives at the end (`none` for a timeout).
pub mod Laws
use esk.Common.{
  ℕ, Bool, true, false, List, [], ◌∷◌, ◌++◌, Option, none, some, ◌==◌, if◌then◌else◌, u8,
}
use esk.Err.{
  Err, ok, failed, ps2_err_timeout, ps2_err_resp_timeout, ps2_err_resend, ps2_err_error,
  ps2_err_no_ack,
}
use esk.Ps2.Types.{
  Cmd, cmd_byte, res_resend, res_error, res_ack, cmd_data_disable, cmd_data_enable, state_send,
  Frame, Hndl, Call, gpio_set_direction, gpio_set_level, task_delay_ms, queue_reset, semaphore_give,
  mode_input, mode_output, reset_frame,
}

abbrev pub Wait : Type 0
Wait = Hndl → Hndl × Option Frame

-- `esk8_ps2_send_byte`. The clock line is held low until the last call, so no edge falls in between.
unfoldable pub send_byte : Hndl → ℕ → Hndl × List Call
send_byte h byte =
    let c_pin = h.ps2_cnfg.clock_pin in
    let d_pin = h.ps2_cnfg.data_pin in
    (
      record h { inflight = record reset_frame { byte = byte }; ps2_state = state_send },
      gpio_set_direction c_pin mode_output
          ∷ gpio_set_direction d_pin mode_output
          ∷ gpio_set_level c_pin 0
          ∷ task_delay_ms 1
          ∷ gpio_set_direction c_pin mode_input
          ∷ [],
    )

-- What `esk8_ps2_await_rsp` returns for what it receives, with the byte that it stores.
unfoldable pub response : Option Frame → Err × Option ℕ
response none = (ps2_err_resp_timeout, none)
response (some frame) = if failed frame.err then (frame.err, none) else (ok, some frame.byte)

unfoldable pub await_rsp : Hndl → Wait → Hndl × Err × Option ℕ
await_rsp h wait =
    let (h', received) = wait h in let (err, byte) = response received in (h', err, byte)

-- The tests on `resp`, which is 0 before a byte is stored.
unfoldable pub acknowledge : ℕ → Err
unfolding cmd_byte
acknowledge resp =
    if resp == cmd_byte res_resend
    then ps2_err_resend
    else (if resp == cmd_byte res_error
        then ps2_err_error
        else (if resp == cmd_byte res_ack then ok else ps2_err_no_ack))

abbrev pub verdict_of : Err → Option ℕ → Err
verdict_of ok (some resp) = acknowledge resp
verdict_of ok none = acknowledge 0
verdict_of err _ = err

-- `esk8_ps2_send_cmd`. `locked` is whether `xSemaphoreTake` gives the lock in time.
unfoldable pub send_cmd : Hndl → Bool → Wait → Cmd → Hndl × List Call × Err
unfolding await_rsp
send_cmd h false wait cmd = (h, [], ps2_err_timeout)
send_cmd h true wait cmd =
    let (h1, calls) = send_byte h (u8 (cmd_byte cmd)) in
    let (h2, err, resp) = await_rsp h1 wait in
    (
      record h2 { inflight = reset_frame },
      calls ++ (semaphore_give h2.tx_lock ∷ []),
      verdict_of err resp,
    )

-- What `esk8_ps2_mvmt_sync` does between the two commands.
abbrev pub restart_sequence : Hndl → Hndl
restart_sequence h = record h { sqnc_frame = record h.sqnc_frame { idx = 0 } }

-- The second half of `esk8_ps2_mvmt_sync`.
unfoldable pub sync_enable : Hndl → List Call → Bool → Wait → Hndl × List Call × Err
sync_enable h calls locked wait =
    let (h', more, err) = send_cmd h locked wait cmd_data_enable in
    if failed err
    then (h', calls ++ more, err)
    else (h', calls ++ (more ++ (semaphore_give h'.tx_lock ∷ [])), ok)

-- `esk8_ps2_mvmt_sync`
unfoldable pub mvmt_sync : Hndl → Bool → Wait → Bool → Wait → Hndl × List Call × Err
mvmt_sync h locked wait locked' wait' =
    let (h', calls, err) = send_cmd h locked wait cmd_data_disable in
    if failed err
    then (h', calls, err)
    else sync_enable (restart_sequence h')
        (calls ++ (queue_reset h'.mv_queue ∷ task_delay_ms 20 ∷ [])) locked' wait'
