-- ===== src/Remote.antt =====
-- lib/remote: the remote control. A handle or a task is its address; 0 is `NULL`.
pub mod Task
pub mod Scan
pub mod Speed
pub mod Lifecycle
use esk.Common.{ℕ, ◌*◌, Bool, true, false, not, List, [], ◌∷◌, ◌++◌, ◌==◌, if◌then◌else◌, u8}
use esk.Common.Int.{ℤ, pos, ltb_ℤ, ◌+ℤ◌, int_of_word, pos_part, wrap_int}
use esk.Err.{Err, ok, failed, err_oom, nvs_not_available, err_remt_reinit, err_remt_bad_state}
use esk.Ps2.Types.{Mvmt}

-- `esk8_remote_state_t`
pub data State : Type 0 where
  state_stopped state_init state_not_connected : State
  state_searching state_connected state_running : State

-- `esk8_remote_t`
pub record Remote : Type 0 where
  pub state : State
  pub speed : ℤ
  pub hndl_btn : ℕ
  pub hndl_ps2 : ℕ
  pub hndl_pwm : ℕ
  pub task_btn : ℕ
  pub task_ble : ℕ
  pub task_ps2 : ℕ

abbrev pub stopped_remote : Remote
stopped_remote = record {
  state = state_stopped;
  speed = pos 0;
  hndl_btn = 0;
  hndl_ps2 = 0;
  hndl_pwm = 0;
  task_btn = 0;
  task_ble = 0;
  task_ps2 = 0;
}

-- What the remote asks of the SDK and of the drivers.
pub data Call : Type 0 where
  nvs_flash_init nvs_flash_erase bluetooth_setup : Call
  pwm_init ps2_init btn_init ps2_task btn_task : Call
  task_delete btn_deinit ps2_deinit pwm_stop : ℕ → Call

-- The two conditional assignments that bound the speed.
unfoldable pub clamp : ℤ → ℤ
clamp speed =
    let below = if ltb_ℤ (pos 255) speed then pos 255 else speed in
    if ltb_ℤ below (pos 0) then pos 0 else below

-- The `uint8_t` that `esk8_pwm_sgnl_set` takes.
abbrev pub duty : ℤ → ℕ
duty speed = u8 (pos_part speed)

-- `esk8_remote_incr_speed`, with the duty that it sets. The sum is of two values of `int`. C leaves one that overflows
-- undefined, and it is taken to wrap around; the moves of a trackpad, from -256 to 255, do not overflow.
unfoldable pub incr_speed : Remote → ℤ → Remote × ℕ
unfolding clamp ◌+ℤ◌ wrap_int
incr_speed r incr =
    let speed = clamp (wrap_int (r.speed +ℤ incr)) in (record r { speed = speed }, duty speed)

-- The inner loop of `esk8_remote_task_ps2` over the moves that it receives, with the duties in order.
unfoldable pub follow : Remote → List Mvmt → Remote × List ℕ
unfolding incr_speed
follow r [] = (r, [])
follow r (mvmt ∷ moves) =
    let (r', now) = incr_speed r mvmt.x in let (r'', later) = follow r' moves in (r'', now ∷ later)

-- What a driver's initialisation returns, and what it stores as its handle.
pub record Made : Type 0 where
  pub err : Err
  pub hndl : ℕ

-- What the calls of a start come to. `nvs_full` is whether the first call of `nvs_flash_init` asks for an
-- erase; a task of 0 could not be created.
pub record Sdk : Type 0 where
  pub nvs_full : Bool
  pub nvs_err : ℕ
  pub pwm : Made
  pub ps2 : Made
  pub ps2_tsk : ℕ
  pub btn : Made
  pub btn_tsk : ℕ

unfoldable pub when : ℕ → (ℕ → Call) → List Call
when hndl call = if hndl == 0 then [] else call hndl ∷ []

-- `esk8_remote_stop`, which leaves the remote as it is.
unfoldable pub remote_stop : Remote → List Call
unfolding when
remote_stop r =
    when r.task_ble task_delete
    ++ (when r.task_btn task_delete
        ++ (when r.task_ps2 task_delete
            ++ (when r.hndl_btn btn_deinit
                ++ (when r.hndl_ps2 ps2_deinit ++ when r.hndl_pwm pwm_stop))))

-- `esk8_remote_start` from the creation of the button's driver on.
unfoldable pub start_btn : Remote → Sdk → Remote × Err × List Call
unfolding remote_stop
start_btn r sdk =
    let with_btn = record r { hndl_btn = sdk.btn.hndl } in
    let with_task = record with_btn { task_btn = sdk.btn_tsk } in
    if failed sdk.btn.err
    then (with_btn, sdk.btn.err, btn_init ∷ remote_stop with_btn)
    else (if sdk.btn_tsk == 0
        then (with_btn, err_oom, btn_init ∷ btn_task ∷ remote_stop with_btn)
        else (record with_task { state = state_not_connected }, ok, btn_init ∷ btn_task ∷ []))

-- From the creation of the trackpad's driver on.
unfoldable pub start_ps2 : Remote → Sdk → Remote × Err × List Call
unfolding start_btn
start_ps2 r sdk =
    let with_ps2 = record r { hndl_ps2 = sdk.ps2.hndl } in
    let (r', err, calls) = start_btn (record with_ps2 { task_ps2 = sdk.ps2_tsk }) sdk in
    if failed sdk.ps2.err
    then (with_ps2, sdk.ps2.err, ps2_init ∷ remote_stop with_ps2)
    else (if sdk.ps2_tsk == 0
        then (with_ps2, err_oom, ps2_init ∷ ps2_task ∷ remote_stop with_ps2)
        else (r', err, ps2_init ∷ ps2_task ∷ calls))

-- From the setup of Bluetooth on.
unfoldable pub start_pwm : Remote → Sdk → Remote × Err × List Call
unfolding start_ps2
start_pwm r sdk =
    let with_pwm = record r { hndl_pwm = sdk.pwm.hndl } in
    let (r', err, calls) = start_ps2 with_pwm sdk in
    if failed sdk.pwm.err
    then (with_pwm, sdk.pwm.err, bluetooth_setup ∷ pwm_init ∷ [])
    else (r', err, bluetooth_setup ∷ pwm_init ∷ calls)

abbrev pub is_stopped : State → Bool
is_stopped state_stopped = true
is_stopped _ = false

-- `esk8_remote_start`
unfoldable pub remote_start : Remote → Sdk → Remote × Err × List Call
unfolding start_pwm
remote_start r sdk =
    let fresh = record stopped_remote { state = state_init } in
    let nvs =
      nvs_flash_init ∷ (if sdk.nvs_full then nvs_flash_erase ∷ nvs_flash_init ∷ [] else []) in
    let (r', err, calls) = start_pwm fresh sdk in
    if not (is_stopped r.state)
    then (r, err_remt_reinit, [])
    else (if not (sdk.nvs_err == 0)
        then (fresh, nvs_not_available, nvs)
        else (r', err, nvs ++ calls))

-- `esk8_remote_connect`; `scan_err` is what `esp_ble_gap_start_scanning` returns.
abbrev pub is_not_connected : State → Bool
is_not_connected state_not_connected = true
is_not_connected _ = false

unfoldable pub connect : Remote → ℕ → Remote × Err
connect r scan_err =
    if not (is_not_connected r.state)
    then (r, err_remt_bad_state)
    else (if scan_err == 0 then (r, ok) else (r, err_remt_bad_state))
