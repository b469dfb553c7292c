-- ===== src/Pwm.antt =====
-- lib/pwm: the PWM signal that carries the speed. What the SDK's calls return is an argument; 0 is `ESP_OK`.
-- `high_speed` stands for the SDK's LEDC_HIGH_SPEED_MODE.
use esk.Common.{ℕ, Bool, true, false, not, List, [], ◌∷◌, Option, none, some, ◌==◌, if◌then◌else◌}
use esk.Err.{Err, ok, err_oom, err_invalid_param}

-- `esk8_pwm_cnfg_t`
pub record Cnfg : Type 0 where
  pub timer_num : ℕ
  pub pwm_freq_hz : ℕ
  pub pwm_chnl : ℕ
  pub pwm_gpio : ℕ

-- `esk8_pwm_hndl_def_t`
pub record Hndl : Type 0 where
  pub speed_mode : ℕ
  pub channel : ℕ

-- The calls of the SDK, with the fields that depend on the configuration.
pub data Call : Type 0 where
  timer_config : ℕ → ℕ → ℕ → Call
  channel_config : ℕ → ℕ → ℕ → ℕ → Call
  set_duty : ℕ → ℕ → ℕ → Call
  update_duty : ℕ → ℕ → Call
  timer_pause : ℕ → ℕ → Call
  stop : ℕ → ℕ → ℕ → Call
  free_hndl : Call

-- `esk8_pwm_sgnl_set`
unfoldable pub sgnl_set : ℕ → ℕ → Hndl → ℕ → Err × List Call
sgnl_set set_err update_err h pwm_val =
    if not (set_err == 0)
    then (err_invalid_param, set_duty h.speed_mode h.channel pwm_val ∷ [])
    else (
      if update_err == 0 then ok else err_invalid_param,
      set_duty h.speed_mode h.channel pwm_val ∷ update_duty h.speed_mode h.channel ∷ [],
    )

-- `esk8_pwm_sgnl_init`, with the handle if it is still allocated.
unfoldable pub sgnl_init : ℕ → Bool → ℕ → ℕ → Cnfg → Err × Option Hndl × List Call
sgnl_init high_speed false timer_err channel_err cnfg = (err_oom, none, [])
sgnl_init high_speed true timer_err channel_err cnfg =
    let timer = timer_config cnfg.pwm_freq_hz cnfg.timer_num high_speed in
    let channel = channel_config cnfg.pwm_chnl cnfg.pwm_gpio high_speed cnfg.timer_num in
    if not (timer_err == 0)
    then (err_invalid_param, none, timer ∷ free_hndl ∷ [])
    else (if not (channel_err == 0)
        then (err_invalid_param, none, timer ∷ channel ∷ free_hndl ∷ [])
        else (
          ok,
          some (record { speed_mode = high_speed; channel = cnfg.pwm_chnl }),
          timer ∷ channel ∷ [],
        ))

-- `esk8_pwm_sgnl_init_from_config_h`; `channel_1` stands for the SDK's LEDC_CHANNEL_1.
unfoldable pub init_from_config_h : ℕ → ℕ → Bool → ℕ → ℕ → Err × Option Hndl × List Call
unfolding sgnl_init
init_from_config_h channel_1 high_speed allocated timer_err channel_err =
    sgnl_init high_speed allocated timer_err channel_err
      (record { timer_num = 1; pwm_freq_hz = 500; pwm_chnl = channel_1; pwm_gpio = 2 })

-- `esk8_pwm_sgnl_stop`, whose pause passes the speed mode where the SDK takes the timer's number.
unfoldable pub sgnl_stop : Hndl → List Call
sgnl_stop h = timer_pause h.speed_mode h.speed_mode ∷ stop h.speed_mode h.channel 0 ∷ free_hndl ∷ []
