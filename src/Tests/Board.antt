-- ===== src/Tests/Board.antt =====
-- The board with three services, two connections, and a ride; and starts of its controller.
use esk.Common.{ℕ, suc, ◌≡◌, refl, true, List, [], ◌∷◌, some, none, inl, replicate, map}
use esk.Common.Int.{pos, negsuc}
use esk.Pwm
use esk.Err.{ok, err_oom}
use esk.Ble.Types.{blank, live, App, Apps, Event, reg, creat_attr_tab, connect, disconnect, write}
use esk.Ble.Status.{zeroed}
use esk.Ble.Table.{find_free}
use esk.Ble.Handler.{on_connect, contexts, app_of_if}
use esk.Ble.Table.Laws.{view}
use esk.Onboard.{
  Onboard, Act, calloc_stat, calloc_deep_stat, bms_init, pwm_init, bms_task, btn_init, btn_task,
  zero_onboard, state_running, Cnfg, Sdk, onboard_start,
}
use esk.Onboard.Start.{IsOutcome, onboard_start-IsOutcome}
use esk.Board.{Board, board_stack, Drivers, services, events, ctrl_conn_add, ctrl_conn_write}
use esk.Board.Ride.{last_duty, IsSafe}
use esk.Board.Ride.Boot.{behind_start}
use esk.Board.Ride.Events.{events-IsSafe}
use esk.Board.Ride.Takeover.{takes_over, on_connect-takes_over}
use esk.Board.Ride.Forgotten.{IsForgotten, gone, creat_attr_tab_forgets}

abbrev drivers : Drivers
drivers = record { ledc = λ acts. (0, 0); auth_init = λ acts. (ok, 5) }

-- An application whose number is one less than its interface.
abbrev service : ℕ → App
service a = record {
  attr_num = 4;
  conn_ctx_list = live (replicate 2 blank);
  attr_hndl_list = live (10 ∷ 11 ∷ 12 ∷ 13 ∷ []);
  ble_if = suc a;
}

abbrev three_apps : Apps
three_apps = record {
  apps_list = some (some 0 ∷ some 1 ∷ some 2 ∷ []);
  apps_num_max = 3;
  conn_num_max = 2;
  curr_app_id = 3;
  app = service;
}

abbrev still : Board
still = record {
  onboard = record zero_onboard {
    state = state_running;
    hndl_pwm = some (record { speed_mode = 0; channel = 0 });
  };
  conn_id = negsuc 0;
  values = zeroed;
  acts = [];
}

still-IsSafe : IsSafe three_apps still
still-IsSafe = record {
  running = refl;
  hndl = record { speed_mode = 0; channel = 0 };
  signal = refl;
  duty = refl;
  controlled = inl refl;
}

-- A connection to the status and the control services, a speed, and the end of the connection.
abbrev ride : List (ℕ × Event)
ride = (3, connect 6) ∷ (2, connect 6) ∷ (2, write 12 6 1 (50 ∷ [])) ∷ (2, disconnect 6) ∷ []

ride_faster :
    last_duty 0
      (events drivers
        ((3, connect 6) ∷ (2, connect 6) ∷ (2, write 12 6 1 (50 ∷ [])) ∷ [])
        three_apps
        still).1.acts
    ≡ 50
unfolding events ctrl_conn_add ctrl_conn_write
ride_faster = refl

ride_alone : (id : ℕ) → view (contexts ((events drivers ride three_apps still).0.app 1)) id ≡ none
unfolding events view ctrl_conn_add
ride_alone id = refl

events-IsSafe_example : let r = events drivers ride three_apps still in IsSafe r.0 r.1
events-IsSafe_example =
    events-IsSafe drivers ride three_apps still (tt, (tt, (tt, (tt, tt)))) still-IsSafe

abbrev cnfg : Cnfg
cnfg = record { bms_update_ms = 5000; btn_timeout_ms = 5000; ps2_timeout_ms = 60000 }

-- All is made but the driver of the button.
abbrev no_btn : Sdk
no_btn = record {
  stat = true;
  deep_stat = true;
  bms_err = ok;
  bms = none;
  pwm_err = ok;
  pwm = some (record { speed_mode = 0; channel = 0 });
  bms_tsk = 70;
  btn_err = err_oom;
  btn = 0;
  btn_tsk = 71;
}

onboard_start-IsOutcome_example : IsOutcome (onboard_start cnfg zero_onboard no_btn)
onboard_start-IsOutcome_example = onboard_start-IsOutcome cnfg zero_onboard no_btn refl refl

abbrev all_made : Sdk
all_made = record no_btn { btn_err = ok }

abbrev running : Onboard
running = record zero_onboard {
  state = state_running;
  cnfg = cnfg;
  bms_stat = true;
  bms_deep_stat = true;
  hndl_pwm = some (record { speed_mode = 0; channel = 0 });
  task_bms = 70;
  task_btn = 71;
}

abbrev start_acts : List Act
start_acts =
    calloc_stat ∷ calloc_deep_stat ∷ bms_init ∷ pwm_init ∷ bms_task ∷ btn_init ∷ btn_task ∷ []

abbrev off : Board
off = record { onboard = zero_onboard; conn_id = negsuc 0; values = zeroed; acts = [] }

starts : onboard_start cnfg zero_onboard all_made ≡ (running, ok, start_acts)
unfolding onboard_start
starts = refl

-- The three applications before the stack knows them, and its events about them.
abbrev unknown : Apps
unknown = record three_apps {
  app = λ a. record (service a) { attr_hndl_list = live (replicate 4 0); ble_if = 0 };
}

abbrev given : ℕ → ℕ × Event
given gatts_if = (gatts_if, creat_attr_tab 0 4 (10 ∷ 11 ∷ 12 ∷ 13 ∷ []))

abbrev introduced : List (ℕ × Event)
introduced = (1, reg 0) ∷ (2, reg 1) ∷ (3, reg 2) ∷ given 1 ∷ given 2 ∷ given 3 ∷ []

boot_alone :
    (id : ℕ)
    → (let r = events drivers introduced unknown (behind_start off running start_acts) in
        view (contexts ((events drivers ride r.0 r.1).0.app 1)) id)
      ≡ none
unfolding events view ctrl_conn_add
boot_alone id = refl

boot_faster :
    (let r = events drivers introduced unknown (behind_start off running start_acts) in
      last_duty 0
        (events drivers ((2, connect 6) ∷ (2, write 12 6 1 (50 ∷ [])) ∷ []) r.0 r.1).1.acts)
    ≡ 50
unfolding events ctrl_conn_add ctrl_conn_write
boot_faster = refl

-- A ride that goes on.
abbrev faster : List (ℕ × Event)
faster = (3, connect 6) ∷ (2, connect 6) ∷ (2, write 12 6 1 (50 ∷ [])) ∷ []

abbrev riding : Apps × Board
riding = events drivers faster three_apps still

abbrev signal : Pwm.Hndl
signal = record { speed_mode = 0; channel = 0 }

riding_owner : app_of_if riding.0 2 ≡ some 1
unfolding app_of_if events ctrl_conn_add ctrl_conn_write
riding_owner = refl

creat_attr_tab_forgets_example :
    let again : ℕ × Event =
      (2, creat_attr_tab 0 (riding.0.app 1).attr_num (10 ∷ 11 ∷ 12 ∷ 13 ∷ [])) in
    IsForgotten riding.1.onboard
      (last_duty 0 riding.1.acts)
      (events drivers (again ∷ map gone ((2, 6) ∷ (3, 6) ∷ [])) riding.0 riding.1).1
creat_attr_tab_forgets_example =
    creat_attr_tab_forgets drivers riding.0 riding.1 2 (10 ∷ 11 ∷ 12 ∷ 13 ∷ [])
      ((2, 6) ∷ (3, 6) ∷ []) riding_owner

-- The board behind connection 0, which controls it.
abbrev by_zero : Apps × Board
by_zero = events drivers ((2, connect 0) ∷ []) three_apps still

by_zero_free : find_free (contexts (by_zero.0.app 1)) ≡ some 1
unfolding events ctrl_conn_add find_free
by_zero_free = refl

on_connect-takes_over_example :
    (on_connect board_stack (services drivers) by_zero.0 1 6 by_zero.1).1.conn_id
    ≡ takes_over by_zero.1.conn_id 6
on_connect-takes_over_example = on_connect-takes_over drivers by_zero.0 by_zero.1 6 1 by_zero_free

by_zero_ends : takes_over by_zero.1.conn_id 6 ≡ pos 6
unfolding events ctrl_conn_add
by_zero_ends = refl
