-- ===== src/Ble/Status.antt =====
-- lib/ble/ble_apps/app_ble_srvc_status.c: the speed and the batteries, as values that are read and notified.
use esk.Common.{
  ℕ, Bool, List, [], ◌∷◌, ◌++◌, none, some, leb, if◌then◌else◌, set, replicate, bytes32,
}
use esk.Err.{Err, ok, err_oom, code, failed}
use esk.Ble.Types.{App, Apps}
use esk.Ble.Util.{Update, returned, fault, set_attr_value, element, is_null, update, notify_all}

-- SRVC_IDX_STATUS_SPEED_CHAR_VAL, SRVC_IDX_STATUS_BMS_SHALLOW_CHAR_VAL and
-- SRVC_IDX_STATUS_BMS_DEEP_CHAR_VAL
abbrev pub speed_char_val : ℕ
speed_char_val = 2

abbrev pub bms_shallow_char_val : ℕ
bms_shallow_char_val = 5

abbrev pub bms_deep_char_val : ℕ
bms_deep_char_val = 8

-- ESK8_UART_BMS_CONF_NUM
abbrev pub conf_num : ℕ
conf_num = 4

-- The two static arrays, with the bytes of each battery's structure.
pub record Values : Type 0 where
  pub shallow : List (List ℕ)
  pub deep : List (List ℕ)

-- `app_init`
abbrev pub zeroed : Values
zeroed = record {
  shallow = replicate conf_num (replicate 8 0);
  deep = replicate conf_num (replicate 55 0);
}

abbrev pub bytes_of : List (List ℕ) → List ℕ
bytes_of [] = []
bytes_of (x ∷ xs) = x ++ bytes_of xs

-- What is sent before, and then the outcome of a later call, which the first call's error leaves out.
unfoldable pub then_update : Update → Update → Update
then_update fault next = fault
then_update (returned err sent) fault = if failed err then returned err sent else fault
then_update (returned err sent) (returned err' more) =
    if failed err then returned err sent else returned err' (sent ++ more)

-- `esk8_ble_app_status_speed`, of the application `srvc_status`.
unfoldable pub status_speed : Apps → App → ℕ → Update
unfolding then_update update notify_all
status_speed apps srvc_status speed_val =
    then_update (update srvc_status speed_char_val (speed_val ∷ []))
      (notify_all apps srvc_status speed_char_val (speed_val ∷ []))

-- The message of a battery's error code and its index, of eight bytes.
abbrev pub message : Err → ℕ → List ℕ
message bms_err_code bms_idx = bytes32 (code bms_err_code) ++ bytes32 bms_idx

-- The notification behind a change of a value; `allocated` is whether `malloc` gives the message.
unfoldable pub notify_bms : Apps → App → ℕ → Bool → Err → ℕ → Update
unfolding notify_all
notify_bms apps srvc_status attr_idx allocated bms_err_code bms_idx =
    if allocated
    then notify_all apps srvc_status attr_idx (message bms_err_code bms_idx)
    else returned err_oom []

-- A call whose result is dropped, and what follows it.
unfoldable pub drop_result : Update → Update → Update
drop_result fault next = fault
drop_result (returned err sent) fault = fault
drop_result (returned err sent) (returned err' more) = returned err' (sent ++ more)

-- The value set in the stack's table, if the service has its handles.
unfoldable pub set_shallow : App → List ℕ → Update
set_shallow srvc_status bytes =
    if is_null srvc_status.attr_hndl_list
    then returned ok []
    else elim (element srvc_status.attr_hndl_list bms_shallow_char_val) [
      | none ↦ fault
      | some handle ↦ returned ok (set_attr_value handle bytes ∷ [])
    ]

-- `esk8_ble_app_status_bms_shallow`. An index out of the array is a write outside it.
unfoldable pub status_bms_shallow : Apps → App → Bool → List ℕ → Err → ℕ → Values → Values × Update
unfolding notify_bms set_shallow drop_result
status_bms_shallow apps srvc_status allocated stat bms_err_code bms_idx values =
    let shallow = set values.shallow bms_idx stat in
    if leb conf_num bms_idx then (values, fault) else (
      record values { shallow = shallow },
      drop_result (set_shallow srvc_status (bytes_of shallow))
          (notify_bms apps srvc_status bms_shallow_char_val allocated bms_err_code bms_idx),
    )

-- `esk8_ble_app_status_bms_deep`
unfoldable pub status_bms_deep : Apps → App → Bool → List ℕ → Err → ℕ → Values → Values × Update
unfolding notify_bms drop_result update
status_bms_deep apps srvc_status allocated stat bms_err_code bms_idx values =
    let deep = set values.deep bms_idx stat in
    if leb conf_num bms_idx then (values, fault) else (
      record values { deep = deep },
      drop_result (update srvc_status bms_deep_char_val (bytes_of deep))
          (notify_bms apps srvc_status bms_deep_char_val allocated bms_err_code bms_idx),
    )
