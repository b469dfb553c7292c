-- ===== src/Board/Ride/Boot.antt =====
-- lib/onboard/esk8_onboard.c and lib/ble: from the start of the controller to the ride.
use esk.Common.{
  ℕ, zero, suc, ◌≡◌, refl, sym, ap, ◌∙◌, inl, Bool, true, false, not, List, [], ◌∷◌, ◌++◌, none,
  some, if◌then◌else◌, arith,
}
use esk.Common.Int.{ℤ, pos, negsuc, ltb_ℤ}
use esk.Err.{ok}
use esk.Pwm
use esk.Ble.Types.{Apps, Event}
use esk.Ble.Table.Laws.{view}
use esk.Ble.Handler.{contexts}
use esk.Ble.Handler.Keeps.{IsSetup, StackKeeps, CallbacksKeep, gatts_evt_hndl_keeps}
use esk.Onboard.{
  Onboard, Cnfg, Sdk, Act, is_stopped, set_speed, start_advertising, gap_disconnect, crash,
  start_service, create_attr_tab, onboard_start, state_init, calloc_stat, start_bms,
}
use esk.Onboard.Started.{start_bms_ok}
use esk.Board.{
  Board, board_stack, done, eq_ℤ, Drivers, ride_at, ctrl_conn_add, ctrl_conn_del, auth_conn_add,
  services, events,
}
use esk.Board.Ride.{last_duty, last_duty-append, IsSafe, set_speed-sets}
use esk.Board.Ride.Events.{AreRunning, events_stop}

-- A controller that runs, with a PWM signal, a speed of 0 and a duty of 0.
pub record IsStill (b : Board) : Type 0 where
  pub running : is_stopped b.onboard.state ≡ false
  pub hndl : Pwm.Hndl
  pub signal : b.onboard.hndl_pwm ≡ some hndl
  pub speed : b.onboard.now_speed ≡ 0
  pub duty : last_duty 0 b.acts ≡ 0

IsStill-IsSafe : (apps : Apps) (b : Board) → IsStill b → IsSafe apps b
IsStill-IsSafe apps b still = record {
  running = still.running;
  hndl = still.hndl;
  signal = still.signal;
  duty = still.duty ∙ sym still.speed;
  controlled = inl still.speed;
}

done-IsStill :
    (b : Board) (act : Act)
    → ((v : ℕ) → last_duty v (act ∷ []) ≡ v)
    → IsStill b
    → IsStill (done b (act ∷ []))
done-IsStill b act quiet still = record {
  running = still.running;
  hndl = still.hndl;
  signal = still.signal;
  speed = still.speed;
  duty = last_duty-append 0 b.acts (act ∷ []) ∙ quiet (last_duty 0 b.acts) ∙ still.duty;
}

board_stack-keeps : StackKeeps IsStill board_stack
board_stack-keeps = record {
  create_attr_tab = λ gatts_if num b. done-IsStill b (create_attr_tab gatts_if num) (λ v. refl);
  start_service = λ handle b. done-IsStill b (start_service handle) (λ v. refl);
  start_advertising = λ b. done-IsStill b start_advertising (λ v. refl);
  gap_disconnect = λ id b. done-IsStill b (gap_disconnect id) (λ v. refl);
  crash = λ b. done-IsStill b crash (λ v. refl);
}

set_conn_id : (b : Board) (cid : ℤ) → IsStill b → IsStill (record b { conn_id = cid })
set_conn_id b cid still = record {
  running = still.running;
  hndl = still.hndl;
  signal = still.signal;
  speed = still.speed;
  duty = still.duty;
}

add-IsStill :
    (stays : Bool) (b : Board) (cid : ℤ)
    → IsStill b
    → IsStill (if stays then b else record b { conn_id = cid })
add-IsStill true b cid still = still
add-IsStill false b cid still = set_conn_id b cid still

abbrev pub AllSetup : List (ℕ × Event) → Type 0
AllSetup [] = Unit {0}
AllSetup ((gatts_if, event) ∷ rest) = IsSetup event × AllSetup rest

module _ (drivers : Drivers) where
  -- A speed of 0 stops a board that runs.
  pub ride_at_stops :
      (apps : Apps) (b : Board) (h : Pwm.Hndl)
      → is_stopped b.onboard.state ≡ false
      → b.onboard.hndl_pwm ≡ some h
      → IsStill (ride_at drivers apps 0 b)
  unfolding ride_at
  ride_at_stops apps b h running signal =
      let ledc = drivers.ledc b.acts in
      let set = set_speed ledc.0 ledc.1 apps (apps.app 2) 0 b.onboard in
      let sets =
        set_speed-sets ledc.0 ledc.1 apps (apps.app 2) 0 (last_duty 0 b.acts) b.onboard h running
          signal in
      record {
        running = ap is_stopped sets.0 ∙ running;
        hndl = h;
        signal = sets.1;
        speed = sets.2;
        duty = last_duty-append 0 b.acts set.2 ∙ sets.3;
      }

  del-IsStill :
      (apps : Apps) (is_controller : Bool) (b : Board)
      → IsStill b
      → IsStill (
          if not is_controller then b else ride_at drivers apps 0 (record b { conn_id = negsuc 0 }))
  del-IsStill apps true b still =
      ride_at_stops apps (record b { conn_id = negsuc 0 }) still.hndl still.running still.signal
  del-IsStill apps false b still = still

  pub services_keep : (a : ℕ) → CallbacksKeep IsStill (services drivers a)
  unfolding ctrl_conn_add ctrl_conn_del auth_conn_add
  services_keep zero = record {
    app_init = λ apps b still. still;
    app_conn_add = λ apps c b still. still;
    app_conn_del = λ apps c b still. still;
    app_evt_cb = λ apps event b still. still;
  }
  services_keep (suc zero) = record {
    app_init = λ apps b still. set_conn_id b (negsuc 0) still;
    app_conn_add = λ apps c b still. add-IsStill (ltb_ℤ (pos 0) b.conn_id) b c.conn_id still;
    app_conn_del = λ apps c b still. del-IsStill apps (eq_ℤ c.conn_id b.conn_id) b still;
    app_evt_cb = λ apps event b still. still;
  }
  services_keep (suc (suc n)) = record {
    app_init = λ apps b still. record {
      running = still.running;
      hndl = still.hndl;
      signal = still.signal;
      speed = still.speed;
      duty = still.duty;
    };
    app_conn_add = λ apps c b still. still;
    app_conn_del = λ apps c b still. still;
    app_evt_cb = λ apps event b still. still;
  }

  setup-IsStill :
      (list : List (ℕ × Event)) (apps : Apps) (b : Board)
      → AllSetup list
      → IsStill b
      → IsStill (events drivers list apps b).1
  unfolding events
  setup-IsStill [] apps b setup still = still
  setup-IsStill ((gatts_if, event) ∷ rest) apps b setup still = setup-IsStill rest _ _ setup.1 (
      gatts_evt_hndl_keeps IsStill board_stack (services drivers) board_stack-keeps services_keep
        apps gatts_if event b setup.0 still)

-- The board behind a start.
abbrev pub behind_start : Board → Onboard → List Act → Board
behind_start b o acts = record b { onboard = o; acts = b.acts ++ acts }

onboard_start-IsStill :
    (cnfg : Cnfg) (sdk : Sdk) (b : Board) (o : Onboard) (acts : List Act) (h : Pwm.Hndl)
    → onboard_start cnfg b.onboard sdk ≡ (o, ok, acts)
    → sdk.pwm ≡ some h
    → b.onboard.now_speed ≡ 0
    → last_duty 0 b.acts ≡ 0
    → IsStill (behind_start b o acts)
unfolding onboard_start
onboard_start-IsStill cnfg sdk b o acts h e signal speed duty =
    let begun = record b.onboard { state = state_init; cnfg = cnfg; bms_stat = sdk.stat } in
    let r = start_bms begun sdk in
    let ended : r ≡ (o, ok, r.2) = ground (arith, e) in
    let rest = start_bms_ok begun o sdk r.2 ended in
    let all : acts ≡ calloc_stat ∷ r.2 = ground (arith, e) in
    record {
      running = rest.0;
      hndl = h;
      signal = rest.1 ∙ signal;
      speed = rest.2 ∙ speed;
      duty =
          last_duty-append 0 b.acts acts
          ∙ ap (λ v. last_duty v acts) duty
          ∙ ap (last_duty 0) (all ∙ ap (λ l. calloc_stat ∷ l) rest.3);
    }

-- Behind a start of the controller that returns `ESK8_OK` with a PWM signal, on a board with a speed and a duty of
-- 0, any Bluetooth events without a write, and then any without the creation of a table of attributes, that
-- leave the control service without a connection, leave 0 as the duty asked for last.
pub onboard_start-events :
    (drivers : Drivers) (cnfg : Cnfg) (sdk : Sdk) (apps : Apps) (b : Board) (o : Onboard)
    (acts : List Act) (h : Pwm.Hndl)
    → (setup ride : List (ℕ × Event)) → onboard_start cnfg b.onboard sdk ≡ (o, ok, acts)
    → sdk.pwm ≡ some h
    → b.onboard.now_speed ≡ 0
    → last_duty 0 b.acts ≡ 0
    → AllSetup setup
    → AreRunning ride
    → (let r = events drivers setup apps (behind_start b o acts) in
        (id : ℕ) → view (contexts ((events drivers ride r.0 r.1).0.app 1)) id ≡ none)
    → let r = events drivers setup apps (behind_start b o acts) in
      last_duty 0 (events drivers ride r.0 r.1).1.acts ≡ 0
onboard_start-events drivers cnfg sdk apps b o acts h setup ride e signal speed duty all_setup
      running alone =
    let still = onboard_start-IsStill cnfg sdk b o acts h e signal speed duty in
    let r = events drivers setup apps (behind_start b o acts) in
    events_stop drivers ride r.0 r.1 running
      (IsStill-IsSafe r.0 r.1
        (setup-IsStill drivers setup apps (behind_start b o acts) all_setup still))
      alone
