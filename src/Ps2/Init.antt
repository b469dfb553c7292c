-- ===== src/Ps2/Init.antt =====
-- lib/ps2/esk8_ps2_init.c and esk8_ps2_init_from_config_h.c: setting the driver up and tearing it down.
-- What `calloc`, `xQueueCreate` and `xSemaphoreCreateBinary` return is an argument; 0 is `NULL`.
pub mod Laws
use esk.Common.{ℕ, Bool, true, false, List, [], ◌∷◌, ◌++◌, ◌||◌, ◌==◌, if◌then◌else◌}
use esk.Err.{Err, ok, err_oom}
use esk.Ps2.Types.{
  Cnfg, state_none, SqncFrame, Hndl, Call, gpio_setup, isr_handler_add, queue_delete,
  semaphore_give, semaphore_delete, free_hndl, reset_frame,
}

-- What the SDK creates for a driver.
pub record Created : Type 0 where
  pub rx_queue : ℕ
  pub mv_queue : ℕ
  pub tx_lock : ℕ

-- A handle fresh from `calloc`, with what has been created for it.
abbrev pub fresh : Created → Cnfg → Hndl
fresh c cnfg = record {
  inflight = reset_frame;
  sqnc_frame = record { err = ok; idx = 0; mvmt = 0 ∷ 0 ∷ 0 ∷ [] };
  ps2_state = state_none;
  ps2_cnfg = cnfg;
  rx_queue = c.rx_queue;
  mv_queue = c.mv_queue;
  tx_lock = c.tx_lock;
}

abbrev when : ℕ → Call → List Call
when hndl call = if hndl == 0 then [] else call ∷ []

-- `esk8_ps2_deinit`
unfoldable pub deinit : Hndl → List Call
deinit h =
    when h.rx_queue (queue_delete h.rx_queue)
    ++ (when h.mv_queue (queue_delete h.mv_queue)
        ++ (when h.tx_lock (semaphore_delete h.tx_lock) ++ (free_hndl ∷ [])))

-- What `esk8_ps2_init` comes to; `fault` is a write through the null pointer that `calloc` returned.
pub data Started : Type 0 where
  started : Hndl → List Call → Started
  refused : Err → List Call → Started
  fault : Started

-- `esk8_ps2_init`. Its test is of the address of the handle, not of what `calloc` returned, so it never
-- fires: `allocated` is whether `calloc` gave memory. The GPIO calls on a pin are one `gpio_setup`.
unfoldable pub init : Bool → Created → Cnfg → Started
unfolding deinit
init false c cnfg = fault
init true c cnfg =
    let h = fresh c cnfg in
    if (c.rx_queue == 0) || ((c.mv_queue == 0) || (c.tx_lock == 0))
    then refused err_oom (deinit h)
    else started h (
        gpio_setup cnfg.clock_pin
        ∷ gpio_setup cnfg.data_pin
        ∷ isr_handler_add cnfg.clock_pin
        ∷ semaphore_give c.tx_lock
        ∷ [])

-- `esk8_ps2_init_from_config_h`, with the values of esk8_config.h.
abbrev pub config_h : Cnfg
config_h = record { rx_queue_len = 1024; rx_timeout_ms = 5000; clock_pin = 23; data_pin = 22 }

unfoldable pub init_from_config_h : Bool → Created → Started
unfolding init
init_from_config_h allocated c = init allocated c config_h
