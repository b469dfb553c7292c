-- ===== src/Ps2/Init/Laws.antt =====
-- Setting the driver up either gives a driver that is ready, or leaves nothing behind.
use esk.Common.{◌≡◌, ◌≢◌, ◌⊎◌, true, List, [], ◌∷◌, arith}
use esk.Err.{Err, err_oom}
use esk.Ps2.Types.{
  Cnfg, Hndl, Call, queue_delete, semaphore_delete, semaphore_give, isr_handler_add, free_hndl,
}
use esk.Ps2.Init.{Created, fresh, started, refused, init}
use esk.Ps2.Isr.Invariant.{IsValid}

abbrev pub Within : Call → List Call → Type 0
Within call [] = ⊥
Within call (c ∷ calls) = (call ≡ c) ⊎ Within call calls

-- Every handle that was created is deleted, and the driver's memory is freed.
pub record Releases (c : Created) (calls : List Call) : Type 0 where
  pub rx_queue : c.rx_queue ≢ 0 → Within (queue_delete c.rx_queue) calls
  pub mv_queue : c.mv_queue ≢ 0 → Within (queue_delete c.mv_queue) calls
  pub tx_lock : c.tx_lock ≢ 0 → Within (semaphore_delete c.tx_lock) calls
  pub memory : Within free_hndl calls

-- When the SDK gives memory but not all three handles, the initialisation fails with `OOM`, and deletes
-- whichever handles it got and the driver's memory.
pub init_refused :
    (c : Created) (cnfg : Cnfg) (err : Err) (calls : List Call)
    → init true c cnfg ≡ refused err calls
    → (err ≡ err_oom) × Releases c calls
unfolding init
init_refused c cnfg err calls e = (
  ground arith,
  record {
    rx_queue = λ created. ground arith;
    mv_queue = λ created. ground arith;
    tx_lock = λ created. ground arith;
    memory = ground arith;
  },
)

-- When it succeeds it has all three handles, the interrupt's invariant holds of the new driver, and the
-- interrupt handler and the free lock are set up on them.
pub init_started :
    (c : Created) (cnfg : Cnfg) (h : Hndl) (calls : List Call)
    → init true c cnfg ≡ started h calls
    → (h ≡ fresh c cnfg)
      × (c.rx_queue ≢ 0)
      × (c.mv_queue ≢ 0)
      × (c.tx_lock ≢ 0)
      × IsValid h
      × Within (isr_handler_add cnfg.clock_pin) calls
      × Within (semaphore_give c.tx_lock) calls
unfolding init
init_started c cnfg h calls e = ground arith
