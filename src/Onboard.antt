-- ===== src/Onboard.antt =====
-- lib/onboard/esk8_onboard.c: the controller of the board. A handle or a task is its address; 0 is `NULL`.
pub mod Start
pub mod Started
pub mod Batteries
use esk.Common.{
  ℕ, Bool, true, false, not, List, [], ◌∷◌, ◌++◌, Option, none, some, ◌==◌, if◌then◌else◌,
}
use esk.Err.{Err, ok, failed, err_oom, err_obrd_noinit, ble_init_reinit}
use esk.Pwm
use esk.Pwm.{sgnl_set}
use esk.Bms.Setup.{Config}
use esk.Ble.Types.{App, Apps}
use esk.Ble.Util.{Sent, Update, returned, fault}
use esk.Ble.Status.{status_speed}

-- `esk8_onboard_state_t`
pub data State : Type 0 where
  state_stopped state_init state_running state_err_fatal : State

-- `esk8_onboard_cnfg_t`
pub record Cnfg : Type 0 where
  pub bms_update_ms : ℕ
  pub btn_timeout_ms : ℕ
  pub ps2_timeout_ms : ℕ

-- `esk8_onboard_t`; of the two arrays, whether they are allocated.
pub record Onboard : Type 0 where
  pub err : Err
  pub cnfg : Cnfg
  pub state : State
  pub now_speed : ℕ
  pub bms_stat : Bool
  pub bms_deep_stat : Bool
  pub hndl_bms : Option Config
  pub hndl_pwm : Option Pwm.Hndl
  pub hndl_btn : ℕ
  pub task_bms : ℕ
  pub task_btn : ℕ

-- `(esk8_onboard_t){ 0 }`
abbrev pub zero_onboard : Onboard
zero_onboard = record {
  err = ok;
  cnfg = record { bms_update_ms = 0; btn_timeout_ms = 0; ps2_timeout_ms = 0 };
  state = state_stopped;
  now_speed = 0;
  bms_stat = false;
  bms_deep_stat = false;
  hndl_bms = none;
  hndl_pwm = none;
  hndl_btn = 0;
  task_bms = 0;
  task_btn = 0;
}

-- What the board does, in order. After a `crash`, a use of memory that is not there, nothing follows.
pub data Act : Type 0 where
  pwm : Pwm.Call → Act
  ble : Sent → Act
  start_advertising : Act
  gap_disconnect app_register start_service : ℕ → Act
  create_attr_tab : ℕ → ℕ → Act
  calloc_stat calloc_deep_stat bms_init pwm_init bms_task btn_init btn_task : Act
  task_delete : ℕ → Act
  free_stat free_deep_stat : Act
  crash : Act

abbrev pub all_pwm : List Pwm.Call → List Act
all_pwm [] = []
all_pwm (c ∷ cs) = pwm c ∷ all_pwm cs

abbrev pub all_ble : List Sent → List Act
all_ble [] = []
all_ble (c ∷ cs) = ble c ∷ all_ble cs

abbrev pub acts_of : Update → List Act
acts_of (returned err sent) = all_ble sent
acts_of fault = crash ∷ []

abbrev pub is_stopped : State → Bool
is_stopped state_stopped = true
is_stopped _ = false

-- `esk8_onboard_set_speed`. `set_err` and `update_err` are what the two calls of the PWM timer return, and
-- the application is that of the status service.
unfoldable pub set_speed : ℕ → ℕ → Apps → App → ℕ → Onboard → Onboard × Err × List Act
unfolding sgnl_set status_speed
set_speed set_err update_err apps srvc_status speed o =
    if is_stopped o.state then (o, err_obrd_noinit, []) else elim o.hndl_pwm [
      | none ↦ (record o { now_speed = speed }, ok, crash ∷ [])
      | some h ↦
          let (err, calls) = sgnl_set set_err update_err h speed in
          (
            record o { now_speed = speed; err = err },
            err,
            all_pwm calls ++ acts_of (status_speed apps srvc_status speed),
          )
    ]

unfoldable pub when : Bool → Act → List Act
when true act = act ∷ []
when false act = []

abbrev pub is_task : ℕ → Bool
is_task task = not (task == 0)

-- `esk8_onboard_stop`
unfoldable pub onboard_stop : Onboard → Onboard × List Act
unfolding when
onboard_stop o = (
  zero_onboard,
  when (is_task o.task_btn) (task_delete o.task_btn)
      ++ (when (is_task o.task_btn) (task_delete o.task_btn)
          ++ (when o.bms_stat free_stat ++ when o.bms_deep_stat free_deep_stat)),
)

-- What the calls of a start come to; a task of 0 could not be created.
pub record Sdk : Type 0 where
  pub stat : Bool
  pub deep_stat : Bool
  pub bms_err : Err
  pub bms : Option Config
  pub pwm_err : Err
  pub pwm : Option Pwm.Hndl
  pub bms_tsk : ℕ
  pub btn_err : Err
  pub btn : ℕ
  pub btn_tsk : ℕ

-- A return behind `esk8_onboard_stop`.
unfoldable pub give_up : Onboard → Err → Onboard × Err × List Act
unfolding onboard_stop
give_up o err = let (o', acts) = onboard_stop o in (o', err, acts)

-- `esk8_onboard_start` from the button's driver on.
unfoldable pub start_btn : Onboard → Sdk → Onboard × Err × List Act
unfolding give_up
start_btn o sdk =
    let with_btn = record o { hndl_btn = sdk.btn } in
    let (o1, e1, acts1) = give_up with_btn sdk.btn_err in
    let (o2, e2, acts2) = give_up with_btn err_oom in
    if failed sdk.btn_err
    then (o1, e1, btn_init ∷ acts1)
    else (if sdk.btn_tsk == 0 then (o2, e2, btn_init ∷ btn_task ∷ acts2) else (
      record with_btn { task_btn = sdk.btn_tsk; state = state_running },
      ok,
      btn_init ∷ btn_task ∷ [],
    ))

-- From the PWM signal on.
unfoldable pub start_pwm : Onboard → Sdk → Onboard × Err × List Act
unfolding start_btn
start_pwm o sdk =
    let with_pwm = record o { hndl_pwm = sdk.pwm } in
    let (o1, e1, acts1) = give_up with_pwm sdk.pwm_err in
    let (o2, e2, acts2) = give_up with_pwm err_oom in
    let (o3, e3, acts3) = start_btn (record with_pwm { task_bms = sdk.bms_tsk }) sdk in
    if failed sdk.pwm_err
    then (o1, e1, pwm_init ∷ acts1)
    else (if sdk.bms_tsk == 0
        then (o2, e2, pwm_init ∷ bms_task ∷ acts2)
        else (o3, e3, pwm_init ∷ bms_task ∷ acts3))

-- From the second array on.
unfoldable pub start_bms : Onboard → Sdk → Onboard × Err × List Act
unfolding start_pwm
start_bms o sdk =
    let with_deep = record o { bms_deep_stat = sdk.deep_stat } in
    let with_bms = record with_deep { hndl_bms = sdk.bms } in
    let (o1, e1, acts1) = give_up with_deep err_oom in
    let (o2, e2, acts2) = give_up with_bms sdk.bms_err in
    let (o3, e3, acts3) = start_pwm with_bms sdk in
    if not sdk.deep_stat
    then (o1, e1, calloc_deep_stat ∷ acts1)
    else (if failed sdk.bms_err
        then (o2, e2, calloc_deep_stat ∷ bms_init ∷ acts2)
        else (o3, e3, calloc_deep_stat ∷ bms_init ∷ acts3))

-- `esk8_onboard_start`
unfoldable pub onboard_start : Cnfg → Onboard → Sdk → Onboard × Err × List Act
unfolding start_bms
onboard_start cnfg o sdk =
    let begun = record o { state = state_init; cnfg = cnfg; bms_stat = sdk.stat } in
    let (o', err, acts) = start_bms begun sdk in
    if not (is_stopped o.state)
    then (o, ble_init_reinit, [])
    else (if not sdk.stat
        then (begun, err_oom, calloc_stat ∷ [])
        else (o', err, calloc_stat ∷ acts))
