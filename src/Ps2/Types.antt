-- ===== src/Ps2/Types.antt =====
-- lib/ps2/esk8_ps2.h and esk8_ps2_priv.h: the driver's data, and the calls that it makes.
use esk.Common.{ℕ, List}
use esk.Common.Int.{ℤ}
use esk.Err.{Err, ok}

-- `esk8_ps2_cmd_t`
pub data Cmd : Type 0 where
  cmd_reset cmd_resend cmd_data_disable cmd_data_enable : Cmd
  cmd_get_dev_id cmd_get_status cmd_set_default cmd_set_smpl_rate : Cmd
  cmd_set_mode_stream cmd_set_mode_remote cmd_set_mode_wrap cmd_set_mode_nowrap : Cmd
  cmd_set_scale_2_1 cmd_set_scale_1_1 cmd_set_resolution cmd_mode_remote_data_read : Cmd
  res_ack res_error res_resend : Cmd

unfoldable pub cmd_byte : Cmd → ℕ
cmd_byte cmd_reset = 0xFF
cmd_byte cmd_resend = 0xFE
cmd_byte cmd_data_disable = 0xF5
cmd_byte cmd_data_enable = 0xF4
cmd_byte cmd_get_dev_id = 0xF2
cmd_byte cmd_get_status = 0xE9
cmd_byte cmd_set_default = 0xF6
cmd_byte cmd_set_smpl_rate = 0xF3
cmd_byte cmd_set_mode_stream = 0xEA
cmd_byte cmd_set_mode_remote = 0xF0
cmd_byte cmd_set_mode_wrap = 0xEE
cmd_byte cmd_set_mode_nowrap = 0xEC
cmd_byte cmd_set_scale_2_1 = 0xE7
cmd_byte cmd_set_scale_1_1 = 0xE6
cmd_byte cmd_set_resolution = 0xE8
cmd_byte cmd_mode_remote_data_read = 0xEB
cmd_byte res_ack = 0xFA
cmd_byte res_error = 0xFC
cmd_byte res_resend = 0xFE

-- `esk8_ps2_mvmt_t`, but for its `err`, which nothing reads or writes.
pub record Mvmt : Type 0 where
  pub x : ℤ
  pub y : ℤ
  pub lft_btn : ℕ

-- `esk8_ps2_cnfg_t`
pub record Cnfg : Type 0 where
  pub rx_queue_len : ℕ
  pub rx_timeout_ms : ℕ
  pub clock_pin : ℕ
  pub data_pin : ℕ

-- `esk8_ps2_state_t`
pub data State : Type 0 where
  state_none state_send state_recv state_mvmt : State

-- `esk8_ps2_frame_t`. `idx` is an `int` that starts at 0 and only counts up.
pub record Frame : Type 0 where
  pub err : Err
  pub byte : ℕ  -- uint8_t
  pub idx : ℕ

-- `esk8_ps2_sqnc_frame_t`; `mvmt` holds three bytes.
pub record SqncFrame : Type 0 where
  pub err : Err
  pub idx : ℕ  -- uint8_t
  pub mvmt : List ℕ

-- `esk8_ps2_hndl_def_t`. A queue or a lock is its handle; 0 is `NULL`.
pub record Hndl : Type 0 where
  pub inflight : Frame
  pub sqnc_frame : SqncFrame
  pub ps2_state : State
  pub ps2_cnfg : Cnfg
  pub rx_queue : ℕ
  pub mv_queue : ℕ
  pub tx_lock : ℕ

-- The directions of `gpio_set_direction`.
pub data Direction : Type 0 where
  mode_input mode_output : Direction

-- What the driver asks of the SDK.
pub data Call : Type 0 where
  gpio_set_direction : ℕ → Direction → Call
  gpio_set_level : ℕ → ℕ → Call
  gpio_setup : ℕ → Call
  isr_handler_add : ℕ → Call
  queue_send : ℕ → Frame → Call
  queue_reset : ℕ → Call
  queue_delete : ℕ → Call
  semaphore_give : ℕ → Call
  semaphore_delete : ℕ → Call
  task_delay_ms : ℕ → Call
  free_hndl : Call

-- `esk8_ps2_reset_frame`: `memset` to zero, and `ESK8_OK` is 0.
abbrev pub reset_frame : Frame
reset_frame = record { err = ok; byte = 0; idx = 0 }
