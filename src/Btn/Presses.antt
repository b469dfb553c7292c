-- ===== src/Btn/Presses.antt =====
-- What a sequence of edges and of expiries of the timer makes of the button.
use esk.Common.{
  ℕ, suc, ◌+◌, ◌*◌, ◌≤◌, ◌<◌, ◌≡◌, ◌≢◌, refl, ◌∙◌, ap, Bool, true, false, List, [], ◌∷◌, ◌++◌, ◌==◌,
  arith, u32,
}
use esk.Btn.{
  press, State, state_released, state_pressed, Hndl, Call, timer_start_once, timer_stop,
  timer_delete, queue_send, queue_delete, gpio_setup, gpio_release, isr_handler_add, is_bounce,
  btn_up, btn_down, btn_isr, tmr_isr,
}

-- The timer after the calls: whether it runs.
abbrev pub runs : Bool → List Call → Bool
runs armed [] = armed
runs armed (timer_start_once us ∷ calls) = runs true calls
runs armed (timer_stop ∷ calls) = runs false calls
runs armed (_ ∷ calls) = runs armed calls

-- How often a press begins, and how often one is reported.
abbrev pub begun : List Call → ℕ
begun [] = 0
begun (timer_start_once us ∷ calls) = suc (begun calls)
begun (_ ∷ calls) = begun calls

abbrev pub reported : List Call → ℕ
reported [] = 0
reported (queue_send p ∷ calls) = suc (reported calls)
reported (_ ∷ calls) = reported calls

abbrev pub held : State → ℕ
held state_released = 0
held state_pressed = 1

-- The executions: the timer expires only while it runs, and does not run afterwards.
pub data Run : Hndl → Bool → List Call → Hndl → Bool → Type 0 where
  done : {h : Hndl} {armed : Bool} → Run h armed [] h armed
  edge_step :
      {h h' : Hndl} {armed armed' : Bool} {calls : List Call} (level timer_us : ℕ)
      → Run (btn_isr h level timer_us).0 (runs armed (btn_isr h level timer_us).1) calls h' armed'
      → Run h armed ((btn_isr h level timer_us).1 ++ calls) h' armed'
  expiry_step :
      {h h' : Hndl} {armed' : Bool} {calls : List Call}
      → Run (tmr_isr h).0 false calls h' armed'
      → Run h true ((tmr_isr h).1 ++ calls) h' armed'

abbrev pub is_pressed : State → Bool
is_pressed state_released = false
is_pressed state_pressed = true

-- The timer runs exactly while the button counts as pressed.
abbrev pub InStep : Hndl → Bool → Type 0
InStep h armed = armed ≡ is_pressed h.hndl_state

begun-append : (xs ys : List Call) → begun (xs ++ ys) ≡ begun xs + begun ys
begun-append [] ys = omega arith
begun-append (timer_start_once us ∷ xs) ys = omega (arith, begun-append xs ys)
begun-append (timer_stop ∷ xs) ys = begun-append xs ys
begun-append (timer_delete ∷ xs) ys = begun-append xs ys
begun-append (queue_send p ∷ xs) ys = begun-append xs ys
begun-append (queue_delete ∷ xs) ys = begun-append xs ys
begun-append (gpio_setup n ∷ xs) ys = begun-append xs ys
begun-append (gpio_release n ∷ xs) ys = begun-append xs ys
begun-append (isr_handler_add n ∷ xs) ys = begun-append xs ys

reported-append : (xs ys : List Call) → reported (xs ++ ys) ≡ reported xs + reported ys
reported-append [] ys = omega arith
reported-append (queue_send p ∷ xs) ys = omega (arith, reported-append xs ys)
reported-append (timer_start_once us ∷ xs) ys = reported-append xs ys
reported-append (timer_stop ∷ xs) ys = reported-append xs ys
reported-append (timer_delete ∷ xs) ys = reported-append xs ys
reported-append (queue_delete ∷ xs) ys = reported-append xs ys
reported-append (gpio_setup n ∷ xs) ys = reported-append xs ys
reported-append (gpio_release n ∷ xs) ys = reported-append xs ys
reported-append (isr_handler_add n ∷ xs) ys = reported-append xs ys

btn_isr-balance :
    (h : Hndl) (armed : Bool) (level timer_us : ℕ)
    → InStep h armed
    → let (h', calls) = btn_isr h level timer_us in
      (begun calls + held h.hndl_state ≡ reported calls + held h'.hndl_state)
      × InStep h' (runs armed calls)
unfolding btn_isr btn_up btn_down
btn_isr-balance h armed level timer_us s = ground arith

held_pressed : (state : State) → true ≡ is_pressed state → held state ≡ 1
held_pressed state h = ground arith

-- From a state in step with its timer, every execution leaves one, and reports each press that began just
-- once, as short or as long, but for one that still lasts.
pub Run-balance :
    {h h' : Hndl} {armed armed' : Bool} {calls : List Call}
    → Run h armed calls h' armed'
    → InStep h armed
    → (begun calls + held h.hndl_state ≡ reported calls + held h'.hndl_state) × InStep h' armed'
unfolding tmr_isr
Run-balance done s = (omega arith, s)
Run-balance {h} {armed = armed} (edge_step {calls = calls} level timer_us r) s =
    let (now, s') = btn_isr-balance h armed level timer_us s in
    let (later, s'') = Run-balance r s' in
    (
      omega (
        arith,
        begun-append (btn_isr h level timer_us).1 calls,
        reported-append (btn_isr h level timer_us).1 calls,
      ),
      s'',
    )
Run-balance {h} (expiry_step r) s =
    let (later, s') = Run-balance r refl in (omega (arith, held_pressed h.hndl_state s), s')

-- The edges of the line alone, at the given levels and times.
unfoldable pub edges : Hndl → List (ℕ × ℕ) → Hndl × List Call
edges h [] = (h, [])
edges h ((level, timer_us) ∷ rest) =
    let (h', calls) = btn_isr h level timer_us in
    let (h'', more) = edges h' rest in (h'', calls ++ more)

-- The debounce time, in microseconds.
abbrev pub debounce_us : Hndl → ℕ
debounce_us h = u32 (h.btn_cnfg.debounce_ms * 1000)

-- All within a time after another.
abbrev pub AllWithin : ℕ → ℕ → List (ℕ × ℕ) → Type 0
AllWithin from width [] = Unit
AllWithin from width ((level, timer_us) ∷ rest) =
    (from ≤ timer_us) × (timer_us < from + width) × AllWithin from width rest

is_bounce-within :
    (h : Hndl) (timer_us : ℕ)
    → h.delay_us ≤ timer_us
    → timer_us < h.delay_us + debounce_us h
    → is_bounce h timer_us ≡ true
unfolding is_bounce
is_bounce-within h timer_us le lt = ground arith

is_bounce-after :
    (h : Hndl) (timer_us : ℕ) → h.delay_us + debounce_us h ≤ timer_us → is_bounce h timer_us ≡ false
unfolding is_bounce
is_bounce-after h timer_us le = ground arith

edges-bounces :
    (h : Hndl) (bounces rest : List (ℕ × ℕ))
    → AllWithin h.delay_us (debounce_us h) bounces
    → edges h (bounces ++ rest) ≡ edges h rest
unfolding edges btn_isr
edges-bounces h [] rest w = refl
edges-bounces h ((level, timer_us) ∷ bounces) rest w =
    rw (is_bounce-within h timer_us w.0 w.1) (edges-bounces h bounces rest w.2)

accepted_down :
    (h : Hndl) (down : ℕ)
    → h.hndl_state ≡ state_released
    → h.delay_us + debounce_us h ≤ down
    → btn_isr h 0 down ≡ (
      record h { delay_us = down; hndl_state = state_pressed },
      timer_start_once (u32 (h.btn_cnfg.longpress_ms * 1000)) ∷ [],
    )
unfolding btn_isr btn_down
accepted_down h down released late = rw (is_bounce-after h down late, released) refl

accepted_up :
    (h : Hndl) (up level : ℕ)
    → h.hndl_state ≡ state_pressed
    → h.delay_us + debounce_us h ≤ up
    → level ≢ 0
    → btn_isr h level up ≡ (
      record h { delay_us = up; hndl_state = state_released },
      timer_stop ∷ queue_send press ∷ [],
    )
unfolding btn_isr btn_up
accepted_up h up level pressed late high =
    let e : (level == 0) ≡ false = ground arith in rw (is_bounce-after h up late, e, pressed) refl

-- A released button that goes down, bounces for less than the debounce time, and comes up later than that,
-- before the timer expires, starts the timer, stops it and reports one short press.
pub edges-press :
    (h : Hndl) (down up level : ℕ) (bounces : List (ℕ × ℕ))
    → h.hndl_state ≡ state_released
    → h.delay_us + debounce_us h ≤ down
    → AllWithin down (debounce_us h) bounces
    → down + debounce_us h ≤ up
    → level ≢ 0
    → edges h ((0, down) ∷ (bounces ++ ((level, up) ∷ []))) ≡ (
      record h { delay_us = up },
      timer_start_once (u32 (h.btn_cnfg.longpress_ms * 1000)) ∷ timer_stop ∷ queue_send press ∷ [],
    )
unfolding edges
edges-press h down up level bounces released late within later high =
    ap (then_edges (bounces ++ ((level, up) ∷ []))) (accepted_down h down released late)
    ∙ ap (after start) (
        edges-bounces pressed bounces ((level, up) ∷ []) within
        ∙ ap (then_edges []) (accepted_up pressed up level refl later high))
    ∙ (rw released refl)
  where
    pressed : Hndl
    pressed = record h { delay_us = down; hndl_state = state_pressed }

    start : List Call
    start = timer_start_once (u32 (h.btn_cnfg.longpress_ms * 1000)) ∷ []

    after : List Call → Hndl × List Call → Hndl × List Call
    after calls r = (r.0, calls ++ r.1)

    then_edges : List (ℕ × ℕ) → Hndl × List Call → Hndl × List Call
    then_edges rest r = let (h'', more) = edges r.0 rest in (h'', r.1 ++ more)
