-- ===== src/Tests/Btn.antt =====
-- lib/btn at a short press with a bounce, and at a long one.
use esk.Common.{◌≡◌, refl, ◌+◌, false, [], ◌∷◌, ◌++◌, arith}
use esk.Btn.{
  press, Hndl, timer_start_once, timer_stop, queue_send, longpress, btn_isr, btn_down, is_bounce,
  tmr_isr, config_h, fresh,
}
use esk.Btn.Presses.{
  Run, done, edge_step, expiry_step, Run-balance, InStep, begun, reported, held, edges, edges-press,
}

abbrev button : Hndl
button = fresh config_h 1 2

abbrev long_pressed : Hndl
long_pressed = record button { delay_us = 9000 }

long-Run :
    Run button false (timer_start_once 3000000 ∷ queue_send longpress ∷ []) long_pressed false
unfolding btn_isr btn_down is_bounce tmr_isr
long-Run = edge_step 0 9000 (expiry_step done)

Run-balance_example :
    (begun (timer_start_once 3000000 ∷ queue_send longpress ∷ []) + held button.hndl_state
      ≡ reported (timer_start_once 3000000 ∷ queue_send longpress ∷ [])
        + held long_pressed.hndl_state)
    × InStep long_pressed false
Run-balance_example = Run-balance long-Run refl

edges-press_example :
    edges button ((0, 9000) ∷ (((1, 9100) ∷ (0, 9200) ∷ []) ++ ((1, 80000) ∷ []))) ≡ (
      record button { delay_us = 80000 },
      timer_start_once 3000000 ∷ timer_stop ∷ queue_send press ∷ [],
    )
edges-press_example =
    edges-press button 9000 80000 1 ((1, 9100) ∷ (0, 9200) ∷ []) refl (omega arith) (omega arith)
      (omega arith) (omega arith)
