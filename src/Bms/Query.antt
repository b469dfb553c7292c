-- ===== src/Bms/Query.antt =====
-- lib/bms/esk8_bms_utils.c `get_data_with_response`: a register read with retries.
pub mod Reply
pub mod Retry
pub mod Returns
use esk.Common.{
  ℕ, zero, suc, ◌+◌, Bool, true, false, List, [], ◌∷◌, Option, none, some, ltb, ◌==◌, not,
  if◌then◌else◌, length, take,
}
use esk.Common.Int.{ℤ, pos, negsuc}
use esk.Err.{
  Err, ok, code, bms_err_no_response, bms_err_invalid_len, bms_err_wrong_address,
  bms_err_wrong_response,
}
use esk.Uart.{Msg, Parsed, parsed, failed, msg_min_size, msg_parse, msg_serialize, regread_msg_new}
use esk.Bms.Driver.{UartDriver}

-- ESK8_ADDR_BMS
abbrev pub addr_bms : ℕ
addr_bms = 0x22

-- ESK8_UART_BMS_MSG_UPDATE_RETRIES
abbrev pub msg_update_retries : ℕ
msg_update_retries = 3

-- What a query comes to: the bytes that it copies to `out_val` when it returns `ESK8_OK`, its error code, or
-- a copy that leaves the payload's memory.
pub data Outcome : Type 0 where
  replied : List ℕ → Outcome
  gave_up : Err → Outcome
  fault : Outcome

-- `memcpy(out_val, rspMsg.payload, reg_size)`: the payload holds `pld_length` bytes.
unfoldable pub copy_payload : Msg → ℕ → Outcome
copy_payload rsp_msg reg_size =
    if ltb rsp_msg.pld_length reg_size then fault else replied (take reg_size rsp_msg.payload)

-- The tests on a message that was parsed. `err` is `ESK8_OK` here, and the argument of the response is
-- compared with it.
unfoldable pub check_response : Msg → ℕ → Outcome
unfolding copy_payload code
check_response rsp_msg reg_size =
    if not (rsp_msg.src_address == addr_bms)
    then gave_up bms_err_wrong_address
    else (if not (rsp_msg.cmd_argment == code ok)
        then gave_up bms_err_wrong_response
        else copy_payload rsp_msg reg_size)

unfoldable pub check_parsed : Parsed → ℕ → Outcome
check_parsed (parsed rsp_msg) reg_size = check_response rsp_msg reg_size
check_parsed (failed err) reg_size = gave_up err
check_parsed Parsed.fault reg_size = fault

-- `res_len_r <= 0`
abbrev pub no_bytes : ℤ → Bool
no_bytes (pos n) = n == 0
no_bytes (negsuc n) = true

-- `res_len_r == res_len`, where a negative result is a large `size_t`
abbrev pub has_length : ℤ → ℕ → Bool
has_length (pos n) res_len = n == res_len
has_length (negsuc n) res_len = false

-- What one round of the loop makes of a read.
unfoldable pub judge : ℕ → ℤ → List ℕ → Outcome
unfolding check_parsed
judge reg_size res_len_r res_buf =
    let res_len = msg_min_size + reg_size in
    if has_length res_len_r res_len
    then check_parsed (msg_parse res_buf res_len) reg_size
    else gave_up (if no_bytes res_len_r then bms_err_no_response else bms_err_invalid_len)

module _ (d : UartDriver) where
  open d use {Port, flush_input, write_bytes, wait_tx_done, read_bytes}

  -- One request and the read of its response.
  unfoldable pub exchange : ℕ → List ℕ → ℕ → Port → Port × ℤ × List ℕ
  exchange uart_port msg_buf res_len p =
      read_bytes uart_port res_len
        (wait_tx_done uart_port (write_bytes uart_port msg_buf (flush_input uart_port p)))

  -- The loop, with the rounds left and the error of the round before.
  unfoldable pub attempts : ℕ → Err → ℕ → Msg → ℕ → Port → Port × Outcome
  unfolding exchange judge
  attempts zero err uart_port msg reg_size p = (p, gave_up err)
  attempts (suc left) err uart_port msg reg_size p =
      let (p', res_len_r, res_buf) =
        exchange uart_port (msg_serialize msg) (msg_min_size + reg_size) p in
      elim (judge reg_size res_len_r res_buf) [
        | replied bytes ↦ (p', replied bytes)
        | gave_up err' ↦ attempts left err' uart_port msg reg_size p'
        | fault ↦ (p', fault)
      ]

  unfoldable pub get_data_with_response : ℕ → ℕ → ℕ → ℕ → Port → Port × Outcome
  unfolding attempts
  get_data_with_response uart_port dst_addr reg reg_size p =
      attempts msg_update_retries ok uart_port (regread_msg_new dst_addr reg reg_size) reg_size p
