-- ===== src/Board/Ride/Output.antt =====
-- lib/pwm and lib/onboard/esk8_onboard.c: what the PWM timer puts out under any sequence of Bluetooth events.
use esk.Common.{
  ℕ, zero, suc, ◌≡◌, refl, sym, ap, ◌∙◌, Bool, true, false, not, inl, inr, Bool-cases, List, [],
  ◌∷◌, ◌++◌, some, ◌==◌, ◌&&◌, if◌then◌else◌, get_or, arith,
}
use esk.Common.Int.{ℤ, pos, negsuc, ltb_ℤ}
use esk.Err.{ok}
use esk.Pwm
use esk.Pwm.{sgnl_set, set_duty, update_duty}
use esk.Ble.Types.{Ctx, App, Apps, Event, write, reg, creat_attr_tab, connect, disconnect, other}
use esk.Ble.Util.{Sent, Update, returned, fault}
use esk.Ble.Status.{status_speed}
use esk.Ble.Table.{is_free}
use esk.Ble.Apps.{delete_contexts}
use esk.Ble.Handler.Keeps.{
  StackKeeps, CallbacksKeep, gatts_evt_hndl_keeps, gatts_evt_hndl-write_keeps,
}
use esk.Onboard.{
  crash, Onboard, Act, pwm, all_pwm, all_ble, acts_of, is_stopped, set_speed, start_advertising,
  gap_disconnect, start_service, create_attr_tab, Cnfg, Sdk, onboard_start, state_init, calloc_stat,
  start_bms,
}
use esk.Onboard.Started.{start_bms_ok}
use esk.Board.{
  Board, board_stack, done, eq_ℤ, Drivers, ride_at, ctrl_conn_add, ctrl_conn_del, ctrl_conn_write,
  ctrl_speed_char_val, auth_conn_add, services, events,
}
use esk.Board.Ride.Boot.{behind_start}
use esk.Board.Ride.{last_duty, last_duty-append, last_duty-acts_of}

-- The calls name the channel of a signal.
abbrev pub is_signal : Pwm.Hndl → ℕ → ℕ → Bool
is_signal h speed_mode channel = (speed_mode == h.speed_mode) && (channel == h.channel)

-- The duty that is set for a signal and the one that its output has. A duty that is set takes effect with the update
-- of the same channel.
abbrev pub output : Pwm.Hndl → ℕ × ℕ → List Act → ℕ × ℕ
output h d [] = d
output h d (pwm (set_duty m c v) ∷ acts) = output h (if is_signal h m c then (v, d.1) else d) acts
output h d (pwm (update_duty m c) ∷ acts) =
    output h (if is_signal h m c then (d.0, d.0) else d) acts
output h d (_ ∷ acts) = output h d acts

output-append :
    (h : Pwm.Hndl) (d : ℕ × ℕ) (xs ys : List Act)
    → output h d (xs ++ ys) ≡ output h (output h d xs) ys
output-append h d [] ys = refl
output-append h d (pwm (set_duty m c v) ∷ xs) ys =
    output-append h (if is_signal h m c then (v, d.1) else d) xs ys
output-append h d (pwm (update_duty m c) ∷ xs) ys =
    output-append h (if is_signal h m c then (d.0, d.0) else d) xs ys
output-append h d (x ∷ xs) ys = ground (arith, output-append h d xs ys)

-- The two calls of the PWM timer succeed.
abbrev pub LedcWorks : Drivers → Type 0
LedcWorks drivers = (acts : List Act) → drivers.ledc acts ≡ (0, 0)

-- A signal whose output has the duty that was asked for last.
pub record IsDriven (h : Pwm.Hndl) (b : Board) : Type 0 where
  pub signal : b.onboard.hndl_pwm ≡ some h
  pub driven : output h (0, 0) b.acts ≡ (last_duty 0 b.acts, last_duty 0 b.acts)

output-acts_of : (h : Pwm.Hndl) (d : ℕ × ℕ) (u : Update) → output h d (acts_of u) ≡ d
output-acts_of h d fault = refl
output-acts_of h d (returned err sent) = sends sent
  where
    sends : (sent : List Sent) → output h d (all_ble sent) ≡ d
    sends [] = refl
    sends (x ∷ xs) = sends xs

==-refl : (n : ℕ) → (n == n) ≡ true
==-refl n = ground arith

-- Acts that leave the output at the duty that they ask for, from an output that has the duty asked for before.
abbrev Drives : Pwm.Hndl → List Act → Type 0
Drives h acts = (v : ℕ) → output h (v, v) acts ≡ (last_duty v acts, last_duty v acts)

-- The two calls of a speed that is set, for a channel that the test tells.
set_update-Drives :
    (h : Pwm.Hndl) (d : ℕ × ℕ) (speed : ℕ) (rest : List Act)
    → output h d (
        pwm (set_duty h.speed_mode h.channel speed)
        ∷ pwm (update_duty h.speed_mode h.channel)
        ∷ rest)
      ≡ output h (speed, speed) rest
set_update-Drives h d speed rest =
    let same : is_signal h h.speed_mode h.channel ≡ true =
      ap (λ t. t && (h.channel == h.channel)) (==-refl h.speed_mode) ∙ ==-refl h.channel in
    ap
      (λ (t : Bool).
        output h
          (if t
            then ((if t then (speed, d.1) else d).0, (if t then (speed, d.1) else d).0)
            else (if t then (speed, d.1) else d))
          rest)
      same

sgnl_set-Drives :
    (h : Pwm.Hndl) (speed : ℕ) (u : Update)
    → Drives h (all_pwm (sgnl_set 0 0 h speed).1 ++ acts_of u)
unfolding sgnl_set
sgnl_set-Drives h speed u v =
    set_update-Drives h (v, v) speed (acts_of u)
    ∙ output-acts_of h (speed, speed) u
    ∙ ap (λ n. (n, n)) (sym (last_duty-acts_of speed u))

append-IsDriven :
    (h : Pwm.Hndl) (b : Board) (o : Onboard) (cid : ℤ) (acts : List Act)
    → o.hndl_pwm ≡ some h
    → Drives h acts
    → IsDriven h b
    → IsDriven h (record b { onboard = o; conn_id = cid; acts = b.acts ++ acts })
append-IsDriven h b o cid acts signal drives held = record {
  signal = signal;
  driven =
      output-append h (0, 0) b.acts acts
      ∙ ap (λ d. output h d acts) held.driven
      ∙ drives (last_duty 0 b.acts)
      ∙ ap (λ v. (v, v)) (sym (last_duty-append 0 b.acts acts));
}

-- An act that is none of the PWM's.
done-IsDriven :
    (h : Pwm.Hndl) (b : Board) (act : Act)
    → Drives h (act ∷ [])
    → IsDriven h b
    → IsDriven h (done b (act ∷ []))
done-IsDriven h b act drives held =
    append-IsDriven h b b.onboard b.conn_id (act ∷ []) held.signal drives held

board_stack-IsDriven : (h : Pwm.Hndl) → StackKeeps (IsDriven h) board_stack
board_stack-IsDriven h = record {
  create_attr_tab = λ gatts_if num b. done-IsDriven h b (create_attr_tab gatts_if num) (λ v. refl);
  start_service = λ handle b. done-IsDriven h b (start_service handle) (λ v. refl);
  start_advertising = λ b. done-IsDriven h b start_advertising (λ v. refl);
  gap_disconnect = λ id b. done-IsDriven h b (gap_disconnect id) (λ v. refl);
  crash = λ b. done-IsDriven h b crash (λ v. refl);
}

set_conn_id-IsDriven :
    (h : Pwm.Hndl) (b : Board) (cid : ℤ) → IsDriven h b → IsDriven h (record b { conn_id = cid })
set_conn_id-IsDriven h b cid held = record { signal = held.signal; driven = held.driven }

if-IsDriven :
    (h : Pwm.Hndl) (t : Bool) (x y : Board)
    → IsDriven h x
    → IsDriven h y
    → IsDriven h (if t then x else y)
if-IsDriven h true x y hx hy = hx
if-IsDriven h false x y hx hy = hy

-- A speed that is set, with the signal of the controller, whether it runs or not.
set_speed-Drives :
    (h : Pwm.Hndl) (apps : Apps) (app : App) (speed : ℕ) (o : Onboard)
    → o.hndl_pwm ≡ some h
    → let r = set_speed 0 0 apps app speed o in (r.0.hndl_pwm ≡ some h) × Drives h r.2
unfolding set_speed
set_speed-Drives h apps app speed o signal = elim (Bool-cases (is_stopped o.state)) [
  | inl stopped ↦ rw stopped (signal, λ v. refl)
  | inr running ↦
      rw (running, signal) (signal, λ v. sgnl_set-Drives h speed (status_speed apps app speed) v)
]

ridden-IsDriven :
    (h : Pwm.Hndl) (ledc : ℕ × ℕ) (apps : Apps) (speed : ℕ) (b : Board)
    → ledc ≡ (0, 0)
    → IsDriven h b
    → let set = set_speed ledc.0 ledc.1 apps (apps.app 2) speed b.onboard in
      IsDriven h (record b { onboard = set.0; acts = b.acts ++ set.2 })
ridden-IsDriven h ledc apps speed b e held =
    let sets = set_speed-Drives h apps (apps.app 2) speed b.onboard held.signal in
    rw e (append-IsDriven h b _ b.conn_id _ sets.0 sets.1 held)

module _ (drivers : Drivers) (works : LedcWorks drivers) where
  ride_at-IsDriven :
      (h : Pwm.Hndl) (apps : Apps) (speed : ℕ) (b : Board)
      → IsDriven h b
      → IsDriven h (ride_at drivers apps speed b)
  unfolding ride_at
  ride_at-IsDriven h apps speed b held =
      ridden-IsDriven h (drivers.ledc b.acts) apps speed b (works b.acts) held

  services-IsDriven : (h : Pwm.Hndl) (a : ℕ) → CallbacksKeep (IsDriven h) (services drivers a)
  unfolding ctrl_conn_add ctrl_conn_del auth_conn_add
  services-IsDriven h zero = record {
    app_init = λ apps b held. held;
    app_conn_add = λ apps c b held. held;
    app_conn_del = λ apps c b held. held;
    app_evt_cb = λ apps event b held. held;
  }
  services-IsDriven h (suc zero) = record {
    app_init = λ apps b held. set_conn_id-IsDriven h b (negsuc 0) held;
    app_conn_add = λ apps c b held.
        if-IsDriven h (ltb_ℤ (pos 0) b.conn_id) b _ held (set_conn_id-IsDriven h b c.conn_id held);
    app_conn_del = λ apps c b held.
        if-IsDriven h (not (eq_ℤ c.conn_id b.conn_id)) b _ held
          (ride_at-IsDriven h apps 0 _ (set_conn_id-IsDriven h b (negsuc 0) held));
    app_evt_cb = λ apps event b held. held;
  }
  services-IsDriven h (suc (suc n)) = record {
    app_init = λ apps b held. record { signal = held.signal; driven = held.driven };
    app_conn_add = λ apps c b held. held;
    app_conn_del = λ apps c b held. held;
    app_evt_cb = λ apps event b held. held;
  }

  writes-IsDriven :
      (h : Pwm.Hndl) (a : ℕ) (apps : Apps) (c : Ctx) (attr_idx len : ℕ) (value : List ℕ) (b : Board)
      → IsDriven h b
      → IsDriven h ((services drivers a).app_conn_write apps c attr_idx len value b)
  unfolding ctrl_conn_write
  writes-IsDriven h zero apps c attr_idx len value b held = held
  writes-IsDriven h (suc zero) apps c attr_idx len value b held =
      if-IsDriven h (not (attr_idx == ctrl_speed_char_val)) b _ held (
        if-IsDriven h (not (len == 1)) b _ held (
          if-IsDriven h (not (eq_ℤ b.conn_id c.conn_id)) b _ held
            (ride_at-IsDriven h apps (get_or value 0 0) b held)))
  writes-IsDriven h (suc (suc n)) apps c attr_idx len value b held = held

  event-IsDriven :
      (h : Pwm.Hndl) (apps : Apps) (gatts_if : ℕ) (event : Event) (b : Board)
      → IsDriven h b
      → IsDriven h (events drivers ((gatts_if, event) ∷ []) apps b).1
  unfolding events
  event-IsDriven h apps gatts_if (write handle id len value) b held =
      gatts_evt_hndl-write_keeps (IsDriven h) board_stack (services drivers)
        (board_stack-IsDriven h) (services-IsDriven h) (writes-IsDriven h) apps gatts_if handle id
        len value b held
  event-IsDriven h apps gatts_if (reg app_id) b held =
      gatts_evt_hndl_keeps (IsDriven h) board_stack (services drivers) (board_stack-IsDriven h)
        (services-IsDriven h) apps gatts_if (reg app_id) b tt held
  event-IsDriven h apps gatts_if (creat_attr_tab status n new) b held =
      gatts_evt_hndl_keeps (IsDriven h) board_stack (services drivers) (board_stack-IsDriven h)
        (services-IsDriven h) apps gatts_if (creat_attr_tab status n new) b tt held
  event-IsDriven h apps gatts_if (connect id) b held =
      gatts_evt_hndl_keeps (IsDriven h) board_stack (services drivers) (board_stack-IsDriven h)
        (services-IsDriven h) apps gatts_if (connect id) b tt held
  event-IsDriven h apps gatts_if (disconnect id) b held =
      gatts_evt_hndl_keeps (IsDriven h) board_stack (services drivers) (board_stack-IsDriven h)
        (services-IsDriven h) apps gatts_if (disconnect id) b tt held
  event-IsDriven h apps gatts_if (other event) b held =
      gatts_evt_hndl_keeps (IsDriven h) board_stack (services drivers) (board_stack-IsDriven h)
        (services-IsDriven h) apps gatts_if (other event) b tt held

  pub events-IsDriven :
      (h : Pwm.Hndl) (list : List (ℕ × Event)) (apps : Apps) (b : Board)
      → IsDriven h b
      → IsDriven h (events drivers list apps b).1
  unfolding events
  events-IsDriven h [] apps b held = held
  events-IsDriven h ((gatts_if, event) ∷ rest) apps b held =
      events-IsDriven h rest _ _ (event-IsDriven h apps gatts_if event b held)

  -- The contexts of a service deleted.
  pub deleted-IsDriven :
      (h : Pwm.Hndl) (apps : Apps) (a : ℕ) (list : List Ctx) (b : Board)
      → IsDriven h b
      → IsDriven h (delete_contexts (services drivers) apps a list b)
  unfolding delete_contexts
  deleted-IsDriven h apps a [] b held = held
  deleted-IsDriven h apps a (c ∷ cs) b held =
      if-IsDriven h (is_free c) _ _ (deleted-IsDriven h apps a cs b held)
        (deleted-IsDriven h apps a cs _ ((services-IsDriven h a).app_conn_del apps c b held))

-- A start of the controller that returns `ESK8_OK`, on a board whose PWM has not been asked for a duty.
pub behind_start-IsDriven :
    (h : Pwm.Hndl) (cnfg : Cnfg) (sdk : Sdk) (b : Board) (o : Onboard) (acts : List Act)
    → onboard_start cnfg b.onboard sdk ≡ (o, ok, acts)
    → sdk.pwm ≡ some h
    → output h (0, 0) b.acts ≡ (last_duty 0 b.acts, last_duty 0 b.acts)
    → IsDriven h (behind_start b o acts)
unfolding onboard_start
behind_start-IsDriven h cnfg sdk b o acts e signal driven =
    let begun = record b.onboard { state = state_init; cnfg = cnfg; bms_stat = sdk.stat } in
    let r = start_bms begun sdk in
    let ended : r ≡ (o, ok, r.2) = ground (arith, e) in
    let rest = start_bms_ok begun o sdk r.2 ended in
    let all : acts ≡ calloc_stat ∷ r.2 = ground (arith, e) in
    let drives : Drives h acts = rw (all, rest.3) (λ v. refl) in
    record {
      signal = rest.1 ∙ signal;
      driven =
          output-append h (0, 0) b.acts acts
          ∙ ap (λ d. output h d acts) driven
          ∙ drives (last_duty 0 b.acts)
          ∙ ap (λ v. (v, v)) (sym (last_duty-append 0 b.acts acts));
    }
