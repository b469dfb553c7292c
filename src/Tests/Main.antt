-- ===== src/Tests/Main.antt =====
-- The board from the power to a ride.
use esk.Common.{ℕ, ◌≡◌, refl, true, false, List, [], ◌∷◌, some, none, replicate, length}
use esk.Common.Int.{pos}
use esk.Err.{ok}
use esk.Ble.Types.{App, Apps, live, blank, Event, reg, creat_attr_tab, connect, disconnect, write}
use esk.Ble.Attr.{srvc_status_attr_list}
use esk.Ble.Attr.Updates.{UpdateFits}
use esk.Ble.Attr.Fits.{IsSized, IsFitting, zeroed-IsSized, status-fits}
use esk.Ble.Status.{zeroed, status_speed, status_bms_shallow, status_bms_deep}
use esk.Ble.Handler.{contexts}
use esk.Ble.Table.Laws.{view}
use esk.Ble.Apps.{find_slot}
use esk.Onboard.{
  acts_of, Onboard, Act, Sdk, zero_onboard, state_running, onboard_start, calloc_stat,
  calloc_deep_stat, bms_init, pwm_init, bms_task, btn_init, btn_task,
}
use esk.Board.{Board, Drivers, events, ctrl_conn_add, ctrl_conn_write}
use esk.Board.Ride.Boot.{behind_start}
use esk.Board.Ride.Output.{output}
use esk.Main.{World, no_apps, powered, main_cnfg, app_main}
use esk.Main.Starts.{three_apps, ready, StopsAlone, IsGiven, app_main-events}
use esk.Main.Ended.{Starts, app_main-Starts}

abbrev drivers : Drivers
drivers = record { ledc = λ acts. (0, 0); auth_init = λ acts. (ok, 5) }

abbrev made : Sdk
made = record {
  stat = true;
  deep_stat = true;
  bms_err = ok;
  bms = none;
  pwm_err = ok;
  pwm = some (record { speed_mode = 0; channel = 0 });
  bms_tsk = 7;
  btn_err = ok;
  btn = 8;
  btn_tsk = 9;
}

abbrev good : World
good = record {
  checks = record { erased = true; set_up = true };
  nvs_err = 0;
  nvs = ok;
  allocated = true;
  given = λ a. record { handles = true; contexts = true; registered = true };
  sdk = made;
}

good-IsGiven : IsGiven good
good-IsGiven = record {
  checks = refl;
  nvs_err = refl;
  nvs = refl;
  allocated = refl;
  given = λ a. refl;
}

abbrev running : Onboard
running = record zero_onboard {
  cnfg = main_cnfg;
  state = state_running;
  bms_stat = true;
  bms_deep_stat = true;
  hndl_pwm = some (record { speed_mode = 0; channel = 0 });
  hndl_btn = 8;
  task_bms = 7;
  task_btn = 9;
}

abbrev start_acts : List Act
start_acts =
    calloc_stat ∷ calloc_deep_stat ∷ bms_init ∷ pwm_init ∷ bms_task ∷ btn_init ∷ btn_task ∷ []

starts : onboard_start main_cnfg powered.onboard made ≡ (running, ok, start_acts)
unfolding onboard_start
starts = refl

-- The stack registers the three services and gives each a handle for each attribute.
abbrev introduced : List (ℕ × Event)
introduced =
    (1, reg 0)
    ∷ (2, reg 1)
    ∷ (3, reg 2)
    ∷ (1, creat_attr_tab 0 7 (10 ∷ 11 ∷ 12 ∷ 13 ∷ 14 ∷ 15 ∷ 16 ∷ []))
    ∷ (2, creat_attr_tab 0 7 (20 ∷ 21 ∷ 22 ∷ 23 ∷ 24 ∷ 25 ∷ 26 ∷ []))
    ∷ (3, creat_attr_tab 0 10 (30 ∷ 31 ∷ 32 ∷ 33 ∷ 34 ∷ 35 ∷ 36 ∷ 37 ∷ 38 ∷ 39 ∷ []))
    ∷ []

abbrev ride : List (ℕ × Event)
ride = (3, connect 6) ∷ (2, connect 6) ∷ (2, write 22 6 1 (50 ∷ [])) ∷ (2, disconnect 6) ∷ []

-- Behind app_main.
abbrev main : Apps × Board
main = (three_apps, behind_start ready running start_acts)

main_is : app_main good no_apps powered ≡ some main
unfolding app_main find_slot
main_is = refl

main_alone :
    (id : ℕ)
    → (let r = events drivers introduced main.0 main.1 in
        view (contexts ((events drivers ride r.0 r.1).0.app 1)) id)
      ≡ none
unfolding events view ctrl_conn_add
main_alone id = refl

main_faster :
    (let r = events drivers introduced main.0 main.1 in
      (output
        (record { speed_mode = 0; channel = 0 })
        (0, 0)
        (events drivers ((2, connect 6) ∷ (2, write 22 6 1 (50 ∷ [])) ∷ []) r.0 r.1).1.acts).1)
    ≡ 50
unfolding events ctrl_conn_add ctrl_conn_write
main_faster = refl

app_main-events_example :
    (m : Apps × Board) × ((app_main good no_apps powered ≡ some m)
      × StopsAlone drivers (record { speed_mode = 0; channel = 0 }) introduced ride m)
app_main-events_example =
    app_main-events drivers good running start_acts (record { speed_mode = 0; channel = 0 })
      introduced ride (λ acts. refl) good-IsGiven starts refl (tt, (tt, (tt, (tt, (tt, (tt, tt))))))
      (tt, (tt, (tt, (tt, tt))))

-- No memory for the second service, and none for the list of the third's contexts.
abbrev poor : World
poor = record good { given = λ a. record { handles = false; contexts = false; registered = true } }

app_main-Starts_example : Starts poor powered (app_main poor no_apps powered)
app_main-Starts_example =
    app_main-Starts poor no_apps powered (record { checks = refl; given = λ a. refl })

-- The status service, with one connection.
abbrev status_app : App
status_app = record {
  attr_num = 10;
  conn_ctx_list = live (blank ∷ record { conn_id = pos 6; ctx = 0 } ∷ []);
  attr_hndl_list = live (30 ∷ 31 ∷ 32 ∷ 33 ∷ 34 ∷ 35 ∷ 36 ∷ 37 ∷ 38 ∷ 39 ∷ []);
  ble_if = 3;
}

status_deep :
    length (acts_of (status_bms_deep no_apps status_app true (replicate 55 1) ok 3 zeroed).1) ≡ 2
unfolding status_bms_deep
status_deep = refl

status-fits_example :
    IsSized zeroed
    × (UpdateFits srvc_status_attr_list status_app (status_speed no_apps status_app 50)
        × (IsFitting status_app
              (status_bms_shallow no_apps status_app true (replicate 8 1) ok 3 zeroed)
            × IsFitting status_app
                (status_bms_deep no_apps status_app true (replicate 55 1) ok 3 zeroed)))
status-fits_example =
    status-fits no_apps status_app true (replicate 8 1) (replicate 55 1) ok 3 50 zeroed
      zeroed-IsSized refl refl
