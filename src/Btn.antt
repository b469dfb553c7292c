-- ===== src/Btn.antt =====
-- lib/btn: the button, its debouncing and its long press.
-- Times are microseconds of `esp_timer_get_time`, below 2 ^ 63.
pub mod Presses
use esk.Common.{
  ℕ, ◌*◌, Bool, true, false, List, [], ◌∷◌, ◌++◌, ◌||◌, Option, none, some, ◌==◌, if◌then◌else◌,
  u32,
}
use esk.Common.Int.{pos, ltb_ℤ, sub_ℕ}
use esk.Err.{Err, ok, err_oom, btn_err_noinit, btn_err_timeout}

-- `esk8_btn_press_t`
pub data Press : Type 0 where
  press longpress : Press

-- `esk8_btn_cnfg_t`
pub record Cnfg : Type 0 where
  pub btn_gpio : ℕ
  pub timeout_ms : ℕ
  pub debounce_ms : ℕ
  pub longpress_ms : ℕ

-- `esk8_btn_state_t`
pub data State : Type 0 where
  state_released state_pressed : State

-- `esk8_btn_hndl_def_t`; 0 is `NULL`.
pub record Hndl : Type 0 where
  pub btn_cnfg : Cnfg
  pub hndl_state : State
  pub que_hndl : ℕ
  pub tmr_hndl : ℕ
  pub delay_us : ℕ

-- What the driver asks of the SDK; the GPIO calls of setting up and of tearing down are one each.
pub data Call : Type 0 where
  timer_start_once : ℕ → Call
  timer_stop : Call
  timer_delete : Call
  queue_send : Press → Call
  queue_delete : Call
  gpio_setup : ℕ → Call
  gpio_release : ℕ → Call
  isr_handler_add : ℕ → Call

-- `delay_us < (btn_cnfg->debounce_ms * 1000)`, whose right side is a `uint32_t`.
unfoldable pub is_bounce : Hndl → ℕ → Bool
is_bounce h timer_us = ltb_ℤ (sub_ℕ timer_us h.delay_us) (pos (u32 (h.btn_cnfg.debounce_ms * 1000)))

-- The two `switch (btn_hndl->hndl_state)`, of an edge up and of an edge down, with the send behind them.
unfoldable pub btn_up : Hndl → State → Hndl × List Call
btn_up h state_pressed =
    (record h { hndl_state = state_released }, timer_stop ∷ queue_send press ∷ [])
btn_up h state_released = (h, [])

unfoldable pub btn_down : Hndl → State → Hndl × List Call
btn_down h state_released = (
  record h { hndl_state = state_pressed },
  timer_start_once (u32 (h.btn_cnfg.longpress_ms * 1000)) ∷ [],
)
btn_down h state_pressed = (h, [])

-- `esk8_btn_isr`, at an edge with the given level and time.
unfoldable pub btn_isr : Hndl → ℕ → ℕ → Hndl × List Call
unfolding btn_up btn_down is_bounce
btn_isr h level timer_us =
    if is_bounce h timer_us
    then (h, [])
    else (let h' = record h { delay_us = timer_us } in
        if level == 0 then btn_down h' h'.hndl_state else btn_up h' h'.hndl_state)

-- `esk8_tmr_isr`
unfoldable pub tmr_isr : Hndl → Hndl × List Call
tmr_isr h = (record h { hndl_state = state_released }, queue_send longpress ∷ [])

-- `esk8_btn_await_press`; `received` is what the queue gives before the timeout. The second component is
-- what is stored through `out_press`.
unfoldable pub await_press : Hndl → Option Press → Err × Option Press
await_press h received =
    if h.que_hndl == 0
    then (btn_err_noinit, none)
    else (elim received [ none ↦ (btn_err_timeout, none) | some p ↦ (ok, some p) ])

-- `esk8_btn_deinit`. The memory of the handle is not freed.
unfoldable pub deinit : Hndl → List Call
deinit h =
    (if h.que_hndl == 0 then [] else queue_delete ∷ [])
    ++ ((if h.tmr_hndl == 0 then [] else timer_stop ∷ timer_delete ∷ [])
        ++ (gpio_release h.btn_cnfg.btn_gpio ∷ []))

pub data Started : Type 0 where
  started : Hndl → List Call → Started
  refused : Err → List Call → Started

-- A handle fresh from `calloc`.
abbrev pub fresh : Cnfg → ℕ → ℕ → Hndl
fresh cnfg que_hndl tmr_hndl = record {
  btn_cnfg = cnfg;
  hndl_state = state_released;
  que_hndl = que_hndl;
  tmr_hndl = tmr_hndl;
  delay_us = 0;
}

-- `esk8_btn_init`; `allocated` is whether `calloc` gave memory, and the queue and the timer are what the SDK
-- creates, 0 for none.
unfoldable pub init : Bool → ℕ → ℕ → Cnfg → Started
unfolding deinit
init false que_hndl tmr_hndl cnfg = refused err_oom []
init true que_hndl tmr_hndl cnfg =
    if (que_hndl == 0) || (tmr_hndl == 0)
    then refused err_oom (gpio_setup cnfg.btn_gpio ∷ deinit (fresh cnfg que_hndl tmr_hndl))
    else started (fresh cnfg que_hndl tmr_hndl)
        (gpio_setup cnfg.btn_gpio ∷ isr_handler_add cnfg.btn_gpio ∷ [])

-- `esk8_btn_init_from_config_h`
abbrev pub config_h : Cnfg
config_h = record { btn_gpio = 0; timeout_ms = 10000; debounce_ms = 5; longpress_ms = 3000 }

unfoldable pub init_from_config_h : Bool → ℕ → ℕ → Started
unfolding init
init_from_config_h allocated que_hndl tmr_hndl = init allocated que_hndl tmr_hndl config_h
