-- ===== src/Onboard/Start.antt =====
-- lib/onboard/esk8_onboard.c: what `esk8_onboard_start` leaves, and what is left behind.
use esk.Common.{
  ℕ, ◌≡◌, refl, true, false, List, [], ◌∷◌, Bool-cases, ◌⊎◌, inl, inr, ◌==◌, if◌then◌else◌, arith,
}
use esk.Err.{Err, ok, failed, ble_init_reinit}
use esk.Onboard.{
  state_init, state_running, Cnfg, Onboard, zero_onboard, Act, task_delete, is_stopped, when,
  onboard_stop, Sdk, give_up, start_btn, start_pwm, start_bms, onboard_start,
}

-- A start that runs, or one that has failed and left the controller as before any start.
abbrev pub IsOutcome : Onboard × Err × List Act → Type 0
IsOutcome (o, err, acts) =
    ((err ≡ ok) × (o.state ≡ state_running)) ⊎ ((failed err ≡ true) × (o ≡ zero_onboard))

start_btn-IsOutcome : (o : Onboard) (sdk : Sdk) → IsOutcome (start_btn o sdk)
unfolding start_btn give_up onboard_stop
start_btn-IsOutcome o sdk = elim (Bool-cases (failed sdk.btn_err)) [
  | inl e ↦ rw e (inr (e, refl))
  | inr e ↦ elim (Bool-cases (sdk.btn_tsk == 0)) [
    | inl t ↦ rw (e, t) (inr (refl, refl))
    | inr t ↦ rw (e, t) (inl (refl, refl))
  ]
]

start_pwm-IsOutcome : (o : Onboard) (sdk : Sdk) → IsOutcome (start_pwm o sdk)
unfolding start_pwm give_up onboard_stop
start_pwm-IsOutcome o sdk = elim (Bool-cases (failed sdk.pwm_err)) [
  | inl e ↦ rw e (inr (e, refl))
  | inr e ↦ elim (Bool-cases (sdk.bms_tsk == 0)) [
    | inl t ↦ rw (e, t) (inr (refl, refl))
    | inr t ↦
        rw (e, t)
          (start_btn-IsOutcome (record o { hndl_pwm = sdk.pwm; task_bms = sdk.bms_tsk }) sdk)
  ]
]

start_bms-IsOutcome : (o : Onboard) (sdk : Sdk) → IsOutcome (start_bms o sdk)
unfolding start_bms give_up onboard_stop
start_bms-IsOutcome o sdk = elim (Bool-cases sdk.deep_stat) [
  | inr e ↦ rw e (inr (refl, refl))
  | inl e ↦ elim (Bool-cases (failed sdk.bms_err)) [
    | inl t ↦ rw (e, t) (inr (t, refl))
    | inr t ↦
        rw (e, t) (start_pwm-IsOutcome (record o { bms_deep_stat = true; hndl_bms = sdk.bms }) sdk)
  ]
]

-- A start of a stopped controller whose first array is allocated ends with `ESK8_OK` and a controller that
-- runs, or with an error and the controller cleared.
pub onboard_start-IsOutcome :
    (cnfg : Cnfg) (o : Onboard) (sdk : Sdk)
    → is_stopped o.state ≡ true
    → sdk.stat ≡ true
    → IsOutcome (onboard_start cnfg o sdk)
unfolding onboard_start
onboard_start-IsOutcome cnfg o sdk stopped stat =
    rw (stopped, stat)
      (start_bms-IsOutcome (record o { state = state_init; cnfg = cnfg; bms_stat = true }) sdk)

-- A start of a stopped controller whose first array is not allocated leaves a controller that no start, with
-- any allocation, gets out of: each is refused as one that runs.
pub onboard_start_stuck :
    (cnfg cnfg' : Cnfg) (o : Onboard) (sdk sdk' : Sdk)
    → is_stopped o.state ≡ true
    → sdk.stat ≡ false
    → let o' = (onboard_start cnfg o sdk).0 in
      onboard_start cnfg' o' sdk' ≡ (o', ble_init_reinit, [])
unfolding onboard_start
onboard_start_stuck cnfg cnfg' o sdk sdk' stopped stat = rw (stopped, stat) refl

-- The tasks that are deleted, in order.
unfoldable pub deleted : List Act → List ℕ
deleted [] = []
deleted (task_delete task ∷ acts) = task ∷ deleted acts
deleted (_ ∷ acts) = deleted acts

-- Stopping deletes the task of the button twice, and that of the batteries never.
pub deleted-onboard_stop :
    (o : Onboard)
    → deleted (onboard_stop o).1 ≡ (if o.task_btn == 0 then [] else o.task_btn ∷ o.task_btn ∷ [])
unfolding deleted onboard_stop when
deleted-onboard_stop o = ground arith

deleted-start_btn : (o : Onboard) (sdk : Sdk) → o.task_btn ≡ 0 → deleted (start_btn o sdk).2 ≡ []
unfolding deleted start_btn give_up onboard_stop when
deleted-start_btn o sdk e = ground arith

deleted-start_pwm : (o : Onboard) (sdk : Sdk) → o.task_btn ≡ 0 → deleted (start_pwm o sdk).2 ≡ []
unfolding deleted start_pwm give_up onboard_stop when
deleted-start_pwm o sdk e =
    ground
      (arith, deleted-start_btn (record o { hndl_pwm = sdk.pwm; task_bms = sdk.bms_tsk }) sdk e)

deleted-start_bms : (o : Onboard) (sdk : Sdk) → o.task_btn ≡ 0 → deleted (start_bms o sdk).2 ≡ []
unfolding deleted start_bms give_up onboard_stop when
deleted-start_bms o sdk e = ground (
  arith,
  deleted-start_pwm (record o { bms_deep_stat = sdk.deep_stat; hndl_bms = sdk.bms }) sdk e,
)

-- A start of a controller that has no task of the button deletes no task, also none that it has created before
-- a failure.
pub deleted-onboard_start :
    (cnfg : Cnfg) (o : Onboard) (sdk : Sdk)
    → o.task_btn ≡ 0
    → deleted (onboard_start cnfg o sdk).2 ≡ []
unfolding deleted onboard_start
deleted-onboard_start cnfg o sdk e = ground (
  arith,
  deleted-start_bms (record o { state = state_init; cnfg = cnfg; bms_stat = sdk.stat }) sdk e,
)
