-- ===== src/Bms/Setup.antt =====
-- lib/bms/esk8_bms_init.c, esk8_bms_init_from_config_h.c and esk8_bms_set_pin.c. What the SDK's calls
-- return is an argument; 0 is `ESP_OK`.
pub mod Pins
use esk.Common.{
  ℕ, ◌<◌, ◌≡◌, refl, ◌↔◌, Bool, true, false, not, List, [], ◌∷◌, ◌++◌, Option, none, some, ltb,
  ◌==◌, if◌then◌else◌, length, get_elem?, arith,
}
use esk.Err.{Err, ok, err_oom, err_invalid_param}

-- `esk8_bms_config_t`
pub record Config : Type 0 where
  pub uart_port : ℕ
  pub bat_num : ℕ
  pub rx_pins : List ℕ
  pub tx_pins : List ℕ
  pub tx_pin : ℕ
  pub bms_update_ms : ℕ

-- What the driver asks of the SDK. The two pins that `uart_set_pin` leaves alone are not listed.
pub data Call : Type 0 where
  uart_param_config : ℕ → Call
  uart_set_pin : ℕ → ℕ → ℕ → Call
  uart_driver_install : ℕ → ℕ → Call

-- ESK8_UART_BMS_BUFF_SIZE
abbrev pub buff_size : ℕ
buff_size = 1000

-- What a setup returns, the handle's memory if it is still allocated, and the calls; `fault` is a read
-- behind the end of a list of pins.
pub data Setup : Type 0 where
  finished : Err → Option Config → List Call → Setup
  fault : Setup

unfoldable pub set_pins : ℕ → Option ℕ → Option ℕ → Option Call
set_pins uart_port (some tx) (some rx) = some (uart_set_pin uart_port tx rx)
set_pins uart_port (some tx) none = none
set_pins uart_port none rx = none

-- The call that routes the port to the pins of one battery.
unfoldable pub route : Config → ℕ → Option Call
unfolding set_pins
route cnfg pin = set_pins cnfg.uart_port (get_elem? cnfg.tx_pins pin) (get_elem? cnfg.rx_pins pin)

-- From `uart_set_pin` on; `set_err` and `install_err` are what the two calls return.
unfoldable pub routed : Config → Option Call → ℕ → ℕ → Setup
routed cnfg none set_err install_err = fault
routed cnfg (some call) set_err install_err =
    let begun = uart_param_config cnfg.uart_port ∷ call ∷ [] in
    if not (set_err == 0)
    then finished err_invalid_param none begun
    else (let all = begun ++ (uart_driver_install cnfg.uart_port buff_size ∷ []) in
        if not (install_err == 0)
        then finished err_invalid_param none all
        else finished ok (some cnfg) all)

-- `esk8_bms_init`; `allocated` is whether `calloc` gave memory. A port that cannot be configured returns
-- before the `goto fail` behind it, with the memory still allocated.
unfoldable pub bms_init : Bool → ℕ → ℕ → ℕ → Config → Setup
unfolding routed
bms_init false param_err set_err install_err cnfg = finished err_oom none []
bms_init true param_err set_err install_err cnfg =
    if not (param_err == 0)
    then finished err_invalid_param (some cnfg) (uart_param_config cnfg.uart_port ∷ [])
    else routed cnfg (route cnfg 0) set_err install_err

-- The configuration of esk8_config.h.
abbrev pub config_h : Config
config_h = record {
  uart_port = 1;
  bat_num = 4;
  rx_pins = 27 ∷ 26 ∷ 25 ∷ 33 ∷ [];
  tx_pins = 14 ∷ 14 ∷ 14 ∷ 14 ∷ [];
  tx_pin = 0;
  bms_update_ms = 50;
}

-- `esk8_bms_init_from_config_h`
unfoldable pub init_from_config_h : Bool → ℕ → ℕ → ℕ → Setup
unfolding bms_init
init_from_config_h allocated param_err set_err install_err =
    if not (length config_h.rx_pins == length config_h.tx_pins)
    then finished err_invalid_param none []
    else bms_init allocated param_err set_err install_err config_h

-- What `esk8_bms_set_pin` comes to.
pub data PinSet : Type 0 where
  returned : Err → List Call → PinSet
  fault : PinSet

unfoldable pub set_routed : Option Call → ℕ → PinSet
set_routed none set_err = PinSet.fault
set_routed (some call) set_err =
    returned (if set_err == 0 then ok else err_invalid_param) (call ∷ [])

-- `esk8_bms_set_pin`
unfoldable pub set_pin : Config → ℕ → ℕ → PinSet
unfolding set_routed
set_pin cnfg pin set_err =
    if ltb cnfg.bat_num pin
    then returned err_invalid_param []
    else set_routed (route cnfg pin) set_err

-- As many pins of either kind as batteries.
pub record IsValid (cnfg : Config) : Type 0 where
  pub rx_num : length cnfg.rx_pins ≡ cnfg.bat_num
  pub tx_num : length cnfg.tx_pins ≡ cnfg.bat_num
