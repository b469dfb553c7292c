-- ===== src/Err.antt =====
-- lib/err: the error codes that every component returns, and their names.
pub mod Laws
use Prim.Native.String.{String}
use esk.Common.{ℕ, Bool, true, false}

-- `esk8_err_t`, in the order of its values.
pub data Err : Type 0 where
  ok : Err
  err_invalid_param : Err
  err_oom : Err
  bms_err_invalid_data : Err
  bms_err_invalid_len : Err
  bms_err_wrong_address : Err
  bms_err_wrong_response : Err
  bms_err_no_response : Err
  uart_msg_err_no_header : Err
  uart_msg_err_invalid_pldlen : Err
  uart_msg_err_invalid_chksum : Err
  uart_msg_err_invalid_buffer : Err
  ps2_err_value_ready : Err
  ps2_err_invalid_state : Err
  ps2_err_timeout : Err
  ps2_err_resp_timeout : Err
  ps2_err_mvmt_timeout : Err
  ps2_err_bad_mvmt : Err
  ps2_err_bad_pck_strt : Err
  ps2_err_bad_pck_stop : Err
  ps2_err_bad_pck_prty : Err
  ps2_err_bad_pck_ackn : Err
  ps2_err_no_ack : Err
  ps2_err_resend : Err
  ps2_err_error : Err
  ble_init_noinit : Err
  ble_init_reinit : Err
  ble_init_failed : Err
  ble_init_maxreg : Err
  ble_notf_timeout : Err
  ble_app_noreg : Err
  nvs_not_init : Err
  nvs_not_available : Err
  nvs_full : Err
  nvs_no_settings : Err
  nvs_no_idx : Err
  nvs_no_val : Err
  nvs_wrong_size : Err
  nvs_err_write : Err
  btn_err_noinit : Err
  btn_err_timeout : Err
  auth_err_hash : Err
  auth_err_auth : Err
  auth_err_conn : Err
  err_obrd_noinit : Err
  err_remt_noinit : Err
  err_remt_reinit : Err
  err_remt_bad_state : Err

-- The value that the compiler gives each enumerator.
unfoldable pub code : Err → ℕ
code ok = 0
code err_invalid_param = 1
code err_oom = 2
code bms_err_invalid_data = 3
code bms_err_invalid_len = 4
code bms_err_wrong_address = 5
code bms_err_wrong_response = 6
code bms_err_no_response = 7
code uart_msg_err_no_header = 8
code uart_msg_err_invalid_pldlen = 9
code uart_msg_err_invalid_chksum = 10
code uart_msg_err_invalid_buffer = 11
code ps2_err_value_ready = 12
code ps2_err_invalid_state = 13
code ps2_err_timeout = 14
code ps2_err_resp_timeout = 15
code ps2_err_mvmt_timeout = 16
code ps2_err_bad_mvmt = 17
code ps2_err_bad_pck_strt = 18
code ps2_err_bad_pck_stop = 19
code ps2_err_bad_pck_prty = 20
code ps2_err_bad_pck_ackn = 21
code ps2_err_no_ack = 22
code ps2_err_resend = 23
code ps2_err_error = 24
code ble_init_noinit = 25
code ble_init_reinit = 26
code ble_init_failed = 27
code ble_init_maxreg = 28
code ble_notf_timeout = 29
code ble_app_noreg = 30
code nvs_not_init = 31
code nvs_not_available = 32
code nvs_full = 33
code nvs_no_settings = 34
code nvs_no_idx = 35
code nvs_no_val = 36
code nvs_wrong_size = 37
code nvs_err_write = 38
code btn_err_noinit = 39
code btn_err_timeout = 40
code auth_err_hash = 41
code auth_err_auth = 42
code auth_err_conn = 43
code err_obrd_noinit = 44
code err_remt_noinit = 45
code err_remt_reinit = 46
code err_remt_bad_state = 47

-- The test of `if (err)`: any code but `ESK8_OK`.
abbrev pub failed : Err → Bool
failed ok = false
failed _ = true

-- `esk8_err_to_str`. The last clause is its `default`.
unfoldable pub to_str : Err → String
to_str ok = "ESK8_OK"
to_str err_invalid_param = "ESK8_ERR_INVALID_PARAM"
to_str err_oom = "ESK8_ERR_OOM"
to_str bms_err_invalid_data = "ESK8_BMS_ERR_INVALID_DATA"
to_str bms_err_invalid_len = "ESK8_BMS_ERR_INVALID_LEN"
to_str bms_err_wrong_address = "ESK8_BMS_ERR_WRONG_ADDRESS"
to_str bms_err_wrong_response = "ESK8_BMS_ERR_WRONG_RESPONSE"
to_str bms_err_no_response = "ESK8_BMS_ERR_NO_RESPONSE"
to_str uart_msg_err_no_header = "ESK8_UART_MSG_ERR_NO_HEADER"
to_str uart_msg_err_invalid_pldlen = "ESK8_UART_MSG_ERR_INVALID_PLDLEN"
to_str uart_msg_err_invalid_chksum = "ESK8_UART_MSG_ERR_INVALID_CHKSUM"
to_str uart_msg_err_invalid_buffer = "ESK8_UART_MSG_ERR_INVALID_BUFFER"
to_str ps2_err_value_ready = "ESK8_PS2_ERR_VALUE_READY"
to_str ps2_err_invalid_state = "ESK8_PS2_ERR_INVALID_STATE"
to_str ps2_err_timeout = "ESK8_PS2_ERR_TIMEOUT"
to_str ps2_err_resp_timeout = "ESK8_PS2_ERR_RESP_TIMEOUT"
to_str ps2_err_mvmt_timeout = "ESK8_PS2_ERR_MVMT_TIMEOUT"
to_str ps2_err_bad_mvmt = "ESK8_PS2_ERR_BAD_MVMT"
to_str ps2_err_bad_pck_strt = "ESK8_PS2_ERR_BAD_PCK_STRT"
to_str ps2_err_bad_pck_stop = "ESK8_PS2_ERR_BAD_PCK_STOP"
to_str ps2_err_bad_pck_prty = "ESK8_PS2_ERR_BAD_PCK_PRTY"
to_str ps2_err_no_ack = "ESK8_PS2_ERR_NO_ACK"
to_str ps2_err_resend = "ESK8_PS2_ERR_RESEND"
to_str ble_init_noinit = "ESK8_BLE_INIT_NOINIT"
to_str ble_init_reinit = "ESK8_BLE_INIT_REINIT"
to_str ble_init_failed = "ESK8_BLE_INIT_FAILED"
to_str ble_init_maxreg = "ESK8_BLE_INIT_MAXREG"
to_str ble_notf_timeout = "ESK8_BLE_NOTF_TIMEOUT"
to_str ble_app_noreg = "ESK8_BLE_APP_NOREG"
to_str nvs_not_init = "ESK8_NVS_NOT_INIT"
to_str nvs_not_available = "ESK8_NVS_NOT_AVAILABLE"
to_str nvs_full = "ESK8_NVS_FULL"
to_str nvs_no_settings = "ESK8_NVS_NO_SETTINGS"
to_str nvs_no_idx = "ESK8_NVS_NO_IDX"
to_str nvs_no_val = "ESK8_NVS_NO_VAL"
to_str nvs_wrong_size = "ESK8_NVS_WRONG_SIZE"
to_str nvs_err_write = "ESK8_NVS_ERR_WRITE"
to_str btn_err_noinit = "ESK8_BTN_ERR_NOINIT"
to_str btn_err_timeout = "ESK8_BTN_ERR_TIMEOUT"
to_str auth_err_hash = "ESK8_AUTH_ERR_HASH"
to_str auth_err_auth = "ESK8_AUTH_ERR_AUTH"
to_str auth_err_conn = "ESK8_AUTH_ERR_CONN"
to_str err_obrd_noinit = "ESK8_ERR_OBRD_NOINIT"
to_str err_remt_noinit = "ESK8_ERR_REMT_NOINIT"
to_str err_remt_reinit = "ESK8_ERR_REMT_REINIT"
to_str err_remt_bad_state = "ESK8_ERR_REMT_BAD_STATE"
to_str _ = "unknown_error"
