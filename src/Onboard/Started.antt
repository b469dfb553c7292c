-- ===== src/Onboard/Started.antt =====
-- lib/onboard/esk8_onboard.c: the acts of a start that succeeds, and the controller behind it.
use esk.Common.{◌≡◌, ap, ◌∙◌, false, List, [], ◌∷◌, arith}
use esk.Err.{ok}
use esk.Onboard.{
  Onboard, Sdk, Act, is_stopped, btn_init, btn_task, pwm_init, bms_task, bms_init, calloc_deep_stat,
  start_bms, start_pwm, start_btn, give_up, onboard_stop,
}

-- How a start that succeeds ends: the controller, the signal and the acts.
start_btn_ok :
    (o o' : Onboard) (sdk : Sdk) (acts : List Act)
    → start_btn o sdk ≡ (o', ok, acts)
    → (is_stopped o'.state ≡ false)
      × (o'.hndl_pwm ≡ o.hndl_pwm)
      × (o'.now_speed ≡ o.now_speed)
      × (acts ≡ btn_init ∷ btn_task ∷ [])
unfolding start_btn give_up onboard_stop
start_btn_ok o o' sdk acts e =
    (ground (arith, e), ground (arith, e), ground (arith, e), ground (arith, e))

start_pwm_step :
    (o o' : Onboard) (sdk : Sdk) (acts : List Act)
    → start_pwm o sdk ≡ (o', ok, acts)
    → let r = start_btn (record o { hndl_pwm = sdk.pwm; task_bms = sdk.bms_tsk }) sdk in
      (r ≡ (o', ok, r.2)) × (acts ≡ pwm_init ∷ bms_task ∷ r.2)
unfolding start_pwm give_up onboard_stop
start_pwm_step o o' sdk acts e = (ground (arith, e), ground (arith, e))

start_pwm_ok :
    (o o' : Onboard) (sdk : Sdk) (acts : List Act)
    → start_pwm o sdk ≡ (o', ok, acts)
    → (is_stopped o'.state ≡ false)
      × (o'.hndl_pwm ≡ sdk.pwm)
      × (o'.now_speed ≡ o.now_speed)
      × (acts ≡ pwm_init ∷ bms_task ∷ btn_init ∷ btn_task ∷ [])
start_pwm_ok o o' sdk acts e =
    let r = start_btn (record o { hndl_pwm = sdk.pwm; task_bms = sdk.bms_tsk }) sdk in
    let (ended, all) = start_pwm_step o o' sdk acts e in
    let (run, signal, speed, list) =
      start_btn_ok (record o { hndl_pwm = sdk.pwm; task_bms = sdk.bms_tsk }) o' sdk r.2 ended in
    (run, signal, speed, all ∙ ap (λ l. pwm_init ∷ bms_task ∷ l) list)

start_bms_step :
    (o o' : Onboard) (sdk : Sdk) (acts : List Act)
    → start_bms o sdk ≡ (o', ok, acts)
    → let r = start_pwm (record o { bms_deep_stat = sdk.deep_stat; hndl_bms = sdk.bms }) sdk in
      (r ≡ (o', ok, r.2)) × (acts ≡ calloc_deep_stat ∷ bms_init ∷ r.2)
unfolding start_bms give_up onboard_stop
start_bms_step o o' sdk acts e = (ground (arith, e), ground (arith, e))

pub start_bms_ok :
    (o o' : Onboard) (sdk : Sdk) (acts : List Act)
    → start_bms o sdk ≡ (o', ok, acts)
    → (is_stopped o'.state ≡ false)
      × (o'.hndl_pwm ≡ sdk.pwm)
      × (o'.now_speed ≡ o.now_speed)
      × (acts ≡ calloc_deep_stat ∷ bms_init ∷ pwm_init ∷ bms_task ∷ btn_init ∷ btn_task ∷ [])
start_bms_ok o o' sdk acts e =
    let with_bms = record o { bms_deep_stat = sdk.deep_stat; hndl_bms = sdk.bms } in
    let r = start_pwm with_bms sdk in
    let (ended, all) = start_bms_step o o' sdk acts e in
    let (run, signal, speed, list) = start_pwm_ok with_bms o' sdk r.2 ended in
    (run, signal, speed, all ∙ ap (λ l. calloc_deep_stat ∷ bms_init ∷ l) list)
