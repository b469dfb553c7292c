-- ===== src/Board/Ride.antt =====
-- The speed of the board under any sequence of Bluetooth events.
pub mod Connections
pub mod Writes
pub mod Events
pub mod Boot
pub mod Deinit
pub mod Output
pub mod Down
pub mod Forgotten
pub mod Takeover
use esk.Common.{
  ℕ, zero, suc, ◌≡◌, ◌≢◌, refl, sym, ap, ◌∙◌, ◌⊎◌, inl, inr, Bool, true, false, List, [], ◌∷◌, ◌++◌,
  Option, none, some, Option-cases, Bool-cases, ◌==◌, if◌then◌else◌, get_or, set, arith, not,
}
use esk.Common.Int.{ℤ, pos, negsuc, ltb_ℤ}
use esk.Pwm
use esk.Pwm.{sgnl_set, set_duty}
use esk.Ble.Types.{
  Ctx, blank, Memory, live, App, Apps, set_app, Event, reg, creat_attr_tab, connect, disconnect,
  write, other,
}
use esk.Ble.Status.{status_speed}
use esk.Ble.Util.{Sent, Update, returned, fault}
use esk.Ble.Table.{find_free, find_conn, find_index, set_conn}
use esk.Ble.Table.Laws.{
  view, view-set_keeps, view-set_new, view-set_other, view-find_conn, conn_id-find_conn, set-set,
  get_or-set_free,
}
use esk.Ble.Handler.{
  contexts, handles, missing, set_contexts, app_of_if, on_reg, on_connect, on_disconnect, on_write,
  after_event, app_event, dispatch, gatts_evt_hndl,
}
use esk.Ble.Handler.Keeps.{missing_keeps}
use esk.Onboard.{
  Onboard, Act, pwm, ble, crash, all_pwm, all_ble, acts_of, is_stopped, set_speed,
  start_advertising, gap_disconnect,
}
use esk.Board.{
  Board, board_stack, done, eq_ℤ, Drivers, ride_at, ctrl_conn_add, ctrl_conn_del, ctrl_conn_write,
  auth_conn_add, services, events,
}

-- The duty that was set last, from a first one.
abbrev pub last_duty : ℕ → List Act → ℕ
last_duty v [] = v
last_duty v (pwm (set_duty mode channel duty) ∷ acts) = last_duty duty acts
last_duty v (_ ∷ acts) = last_duty v acts

pub last_duty-append :
    (v : ℕ) (xs ys : List Act) → last_duty v (xs ++ ys) ≡ last_duty (last_duty v xs) ys
last_duty-append v [] ys = refl
last_duty-append v (pwm (set_duty m c d) ∷ xs) ys = last_duty-append d xs ys
last_duty-append v (x ∷ xs) ys = ground (arith, last_duty-append v xs ys)

last_duty-acts_of : (v : ℕ) (u : Update) → last_duty v (acts_of u) ≡ v
last_duty-acts_of v fault = refl
last_duty-acts_of v (returned err sent) = sends sent
  where
    sends : (sent : List Sent) → last_duty v (all_ble sent) ≡ v
    sends [] = refl
    sends (x ∷ xs) = sends xs

-- A connection that has a context.
abbrev pub IsTaken : ℤ → List Ctx → Type 0
IsTaken (pos id) list = view list id ≢ none
IsTaken (negsuc n) list = ⊥

-- The controller's connection is one of those of the control service.
abbrev pub HasController : Apps → Board → Type 0
HasController apps b = IsTaken b.conn_id (contexts (apps.app 1))

-- The controller of the board runs, with a PWM signal; the duty asked for last is the speed; and the speed is
-- 0 unless there is a controller that is connected.
pub record IsSafe (apps : Apps) (b : Board) : Type 0 where
  pub running : is_stopped b.onboard.state ≡ false
  pub hndl : Pwm.Hndl
  pub signal : b.onboard.hndl_pwm ≡ some hndl
  pub duty : last_duty 0 b.acts ≡ b.onboard.now_speed
  pub controlled : (b.onboard.now_speed ≡ 0) ⊎ HasController apps b

-- What leaves the speed alone.
pub record Same (b b' : Board) : Type 0 where
  pub onboard : b'.onboard ≡ b.onboard
  pub duty : last_duty 0 b'.acts ≡ last_duty 0 b.acts

pub Same-IsSafe :
    (apps apps' : Apps) (b b' : Board)
    → Same b b'
    → (HasController apps b → HasController apps' b')
    → IsSafe apps b
    → IsSafe apps' b'
Same-IsSafe apps apps' b b' same keeps safe = record {
  running = ap (λ o. is_stopped o.state) same.onboard ∙ safe.running;
  hndl = safe.hndl;
  signal = ap (λ o. o.hndl_pwm) same.onboard ∙ safe.signal;
  duty = same.duty ∙ safe.duty ∙ ap (λ o. o.now_speed) (sym same.onboard);
  controlled = elim safe.controlled [
    | inl e ↦ inl (ap (λ o. o.now_speed) same.onboard ∙ e)
    | inr held ↦ inr (keeps held)
  ];
}

-- An act that is none of the PWM's.
pub Same-done :
    (b : Board) (act : Act)
    → last_duty (last_duty 0 b.acts) (act ∷ []) ≡ last_duty 0 b.acts
    → Same b (done b (act ∷ []))
Same-done b act h = record { onboard = refl; duty = last_duty-append 0 b.acts (act ∷ []) ∙ h }

pub advertising-IsSafe :
    (apps : Apps) (b : Board) → IsSafe apps b → IsSafe apps (done b (start_advertising ∷ []))
advertising-IsSafe apps b =
    Same-IsSafe apps apps b _ (Same-done b start_advertising refl) (λ held. held)

pub disconnecting-IsSafe :
    (apps : Apps) (id : ℕ) (b : Board)
    → IsSafe apps b
    → IsSafe apps (done b (gap_disconnect id ∷ []))
disconnecting-IsSafe apps id b =
    Same-IsSafe apps apps b _ (Same-done b (gap_disconnect id) refl) (λ held. held)

pub missing-IsSafe :
    (apps : Apps) (b : Board) → IsSafe apps b → IsSafe apps (missing board_stack apps b)
missing-IsSafe apps b safe =
    missing_keeps (IsSafe apps) board_stack apps b
      (Same-IsSafe apps apps b _ (Same-done b crash refl) (λ held. held)) safe

last_duty-sgnl_set :
    (s u : ℕ) (h : Pwm.Hndl) (speed v : ℕ) → last_duty v (all_pwm (sgnl_set s u h speed).1) ≡ speed
unfolding sgnl_set
last_duty-sgnl_set s u h speed v = ground arith

-- What setting the speed changes.
pub set_speed-sets :
    (s u : ℕ) (apps : Apps) (app : App) (speed v : ℕ) (o : Onboard) (h : Pwm.Hndl)
    → is_stopped o.state ≡ false
    → o.hndl_pwm ≡ some h
    → let r = set_speed s u apps app speed o in
      (r.0.state ≡ o.state)
      × (r.0.hndl_pwm ≡ some h)
      × (r.0.now_speed ≡ speed)
      × (last_duty v r.2 ≡ speed)
unfolding set_speed
set_speed-sets s u apps app speed v o h running signal =
    rw (running, signal)
      (
        refl,
        signal,
        refl,
        last_duty-append v (all_pwm (sgnl_set s u h speed).1)
              (acts_of (status_speed apps app speed))
            ∙ last_duty-acts_of (last_duty v (all_pwm (sgnl_set s u h speed).1))
                (status_speed apps app speed)
            ∙ last_duty-sgnl_set s u h speed v,
      )

-- Contexts of the controller's service that hide no connection.
pub IsTaken-set_free :
    (cid : ℤ) (list : List Ctx) (i : ℕ) (c : Ctx)
    → find_free list ≡ some i
    → IsTaken cid list
    → IsTaken cid (set list i c)
IsTaken-set_free (pos id) list i c found = view-set_keeps list i id c found
IsTaken-set_free (negsuc n) list i c found = λ held. held

contexts-set_other :
    (apps : Apps) (n : ℕ) (list : List Ctx)
    → contexts ((set_contexts apps (suc (suc n)) list).app 1) ≡ contexts (apps.app 1)
unfolding set_contexts set_app
contexts-set_other apps n list = ground arith

pub HasController-other :
    (apps : Apps) (n : ℕ) (list : List Ctx) (b : Board)
    → HasController apps b
    → HasController (set_contexts apps (suc (suc n)) list) b
HasController-other apps n list b held = rw (contexts-set_other apps n list) held

-- What a change of speed leads to, with a controller if the speed is not 0.
pub ride_at-IsSafe :
    (drivers : Drivers) (apps apps' : Apps) (speed : ℕ) (b : Board) (h : Pwm.Hndl)
    → is_stopped b.onboard.state ≡ false
    → b.onboard.hndl_pwm ≡ some h
    → (speed ≡ 0) ⊎ HasController apps' b
    → IsSafe apps' (ride_at drivers apps speed b)
unfolding ride_at
ride_at-IsSafe drivers apps apps' speed b h running signal held =
    let ledc = drivers.ledc b.acts in
    let set = set_speed ledc.0 ledc.1 apps (apps.app 2) speed b.onboard in
    let sets =
      set_speed-sets ledc.0 ledc.1 apps (apps.app 2) speed (last_duty 0 b.acts) b.onboard h running
        signal in
    record {
      running = ap is_stopped sets.0 ∙ running;
      hndl = h;
      signal = sets.1;
      duty = last_duty-append 0 b.acts set.2 ∙ sets.3 ∙ sym sets.2;
      controlled = elim held [ inl e ↦ inl (sets.2 ∙ e) | inr t ↦ inr t ];
    }
