-- ===== src/Onboard/Batteries.antt =====
-- lib/onboard/esk8_onboard_bms.c: the task that reads the batteries and passes on what it read.
pub mod Publish
pub mod Returns
pub mod Round
use esk.Common.{ℕ, zero, suc, ◌-◌, Bool, List, [], ◌∷◌, ◌++◌, Option, none, some, get_elem?, set}
use esk.Err.{Err, ok}
use esk.Bms.Driver.{UartDriver}
use esk.Bms.Status.{Reading, complete, stopped, get_status, get_deep_status}
use esk.Ble.Types.{App, Apps}
use esk.Ble.Util.{Sent, Update, returned, fault}
use esk.Ble.Status.{Values, conf_num, status_bms_shallow, status_bms_deep}

-- The error and the structure that a reading leaves, unless it leaves its memory.
unfoldable pub left_by : Reading → Option (Err × List ℕ)
left_by (complete mem) = some (ok, mem)
left_by (stopped err mem) = some (err, mem)
left_by Reading.fault = none

-- What a call that returns sends.
unfoldable pub sent_by : Update → Option (List Sent)
sent_by (returned err sent) = some sent
sent_by fault = none

module _ (d : UartDriver) where
  open d use {Port}

  -- The port, the arrays `bms_stat` and `bms_deep_stat`, the values of the status service and what is sent.
  pub record Batteries : Type 0 where
    pub port : Port
    pub bms_stat : List (List ℕ)
    pub bms_deep_stat : List (List ℕ)
    pub values : Values
    pub sent : List Sent

  -- The rest of the board, which the task only reads: the UART, the applications with the status service, what
  -- the array on the stack holds, whether `malloc` gives a message, and what `esk8_bms_set_pin` makes of the
  -- port.
  pub record Context : Type 0 where
    pub uart_port : ℕ
    pub apps : Apps
    pub srvc_status : App
    pub out_values : List ℕ
    pub allocated : Bool
    pub set_pin : ℕ → Port → Port

  -- `esk8_bms_get_status` and `esk8_ble_app_status_bms_shallow`, for battery `i`. `none` is a use of memory that
  -- is not there.
  unfoldable pub read_shallow : Context → ℕ → Batteries → Option Batteries
  unfolding left_by sent_by
  read_shallow x i b = elim (get_elem? b.bms_stat i) [
    | none ↦ none
    | some out ↦
        let (p, reading) = get_status d x.uart_port x.out_values out b.port in
        elim (left_by reading) [
          | none ↦ none
          | some (err, mem) ↦
              let (values, update) =
                status_bms_shallow x.apps x.srvc_status x.allocated mem err i b.values in
              elim (sent_by update) [
                | none ↦ none
                | some sent ↦ some (record b {
                  port = p;
                  bms_stat = set b.bms_stat i mem;
                  values = values;
                  sent = b.sent ++ sent;
                })
              ]
        ]
  ]

  -- `esk8_bms_get_deep_status` and `esk8_ble_app_status_bms_deep`
  unfoldable pub read_deep : Context → ℕ → Batteries → Option Batteries
  unfolding left_by sent_by
  read_deep x i b = elim (get_elem? b.bms_deep_stat i) [
    | none ↦ none
    | some out ↦
        let (p, reading) = get_deep_status d x.uart_port out b.port in
        elim (left_by reading) [
          | none ↦ none
          | some (err, mem) ↦
              let (values, update) =
                status_bms_deep x.apps x.srvc_status x.allocated mem err i b.values in
              elim (sent_by update) [
                | none ↦ none
                | some sent ↦ some (record b {
                  port = p;
                  bms_deep_stat = set b.bms_deep_stat i mem;
                  values = values;
                  sent = b.sent ++ sent;
                })
              ]
        ]
  ]

  -- The body of the inner loop.
  unfoldable pub read_battery : Context → ℕ → Batteries → Option Batteries
  unfolding read_shallow read_deep
  read_battery x i b = elim (read_shallow x i (record b { port = x.set_pin i b.port })) [
    | none ↦ none
    | some b' ↦ read_deep x i b'
  ]

  -- The inner loop from battery `i` on, over `n` batteries.
  unfoldable pub read_from : Context → ℕ → ℕ → Batteries → Option Batteries
  unfolding read_battery
  read_from x zero i b = some b
  read_from x (suc n) i b = elim (read_battery x i b) [
    | none ↦ none
    | some b' ↦ read_from x n (suc i) b'
  ]

  -- The inner loop.
  unfoldable pub read_all : Context → Batteries → Option Batteries
  unfolding read_from
  read_all x b = read_from x conf_num 0 b
