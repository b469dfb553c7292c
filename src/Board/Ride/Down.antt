-- ===== src/Board/Ride/Down.antt =====
-- lib/ble/esk8_ble_apps.c: the board behind `esk8_ble_apps_deinit`.
use esk.Common.{◌≡◌, true, none}
use esk.Pwm
use esk.Ble.Types.{Apps}
use esk.Ble.Apps.{Checks}
use esk.Board.{Board}

-- Applications that have been taken down.
pub record IsDown (apps : Apps) : Type 0 where
  pub apps_list : apps.apps_list ≡ none
  pub apps_num_max : apps.apps_num_max ≡ 0

-- The checks of a set up that all pass.
abbrev pub all_pass : Checks
all_pass = record { erased = true; set_up = true }
