-- ===== src/Main.antt =====
-- src/main/app_main.c: what runs when the board is powered on, in the build of the board.
pub mod Ended
pub mod Starts
use esk.Common.{ℕ, zero, suc, Bool, List, [], ◌∷◌, ◌++◌, Option, none, some, length}
use esk.Common.Int.{negsuc}
use esk.Err.{Err}
use esk.Ble.Types.{App, Apps, null}
use esk.Ble.Attr.{attr_db}
use esk.Ble.Status.{zeroed}
use esk.Ble.Apps.{Checks, Given, apps_init, app_register}
use esk.Onboard.{Cnfg, Sdk, zero_onboard, onboard_start}
use esk.Board.{Board, board_stack}

-- The number of attributes of each service, which its table has, and nothing else yet.
abbrev pub static_app : ℕ → App
static_app a = record {
  attr_num = length (attr_db a);
  conn_ctx_list = null;
  attr_hndl_list = null;
  ble_if = 0;
}

abbrev pub no_apps : Apps
no_apps = record {
  apps_list = none;
  apps_num_max = 0;
  conn_num_max = 0;
  curr_app_id = 0;
  app = static_app;
}

-- The static data when the power comes on.
abbrev pub powered : Board
powered = record { onboard = zero_onboard; conn_id = negsuc 0; values = zeroed; acts = [] }

-- What the calls below come to: those of `esk8_ble_apps_init`, the memory of each registration, and those of
-- `esk8_onboard_start`.
pub record World : Type 0 where
  pub checks : Checks
  pub nvs_err : ℕ
  pub nvs : Err
  pub allocated : Bool
  pub given : ℕ → Given
  pub sdk : Sdk

-- `apps`
abbrev pub registered : List ℕ
registered = 0 ∷ 1 ∷ 2 ∷ []

-- `cnfg`
abbrev pub main_cnfg : Cnfg
main_cnfg = record { bms_update_ms = 5000; btn_timeout_ms = 5000; ps2_timeout_ms = 60000 }

-- The loop over the applications, whose errors are only logged. `none` is a check that restarts the board.
unfoldable pub register_each : (ℕ → Given) → List ℕ → Apps → Board → Option (Apps × Board)
unfolding app_register
register_each given [] apps b = some (apps, b)
register_each given (a ∷ rest) apps b = elim (app_register board_stack (given a) a apps b) [
  | none ↦ none
  | some (apps', err, b') ↦ register_each given rest apps' b'
]

-- The start of the controller behind the registrations, whose error nothing reads.
abbrev pub ended : World → Apps × Board → Apps × Board
ended world (apps, b) =
    let (o, err, acts) = onboard_start main_cnfg b.onboard world.sdk in
    (apps, record b { onboard = o; acts = b.acts ++ acts })

-- `app_main`, whose errors are only logged too.
unfoldable pub app_main : World → Apps → Board → Option (Apps × Board)
unfolding apps_init register_each onboard_start
app_main world apps b =
    elim (apps_init world.checks world.nvs_err world.nvs world.allocated 3 10 apps) [
      | none ↦ none
      | some (apps1, err) ↦ elim (register_each world.given registered apps1 b) [
        | none ↦ none
        | some r ↦ some (ended world r)
      ]
    ]
