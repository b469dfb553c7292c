-- ===== src/Lib.antt =====
-- The firmware of an electric skateboard and of its remote control (mcu/main/lib): the PS/2 trackpad driver,
-- the framed UART protocol of the battery management systems (BMS), the client that reads a battery's
-- registers over it, the button, the PWM signal, the remote control that follows the trackpad, and the board
-- that the rider controls over Bluetooth, with its stored settings and its authentication.
--
-- Common holds the names that all modules share: the libraries', Boolean tests, lists as C arrays, words of
-- fixed width, the integers of `int`. Then, by component:
--
-- Err: lib/err. `Err` is esk8_err_t, `code` its numbers, `to_str` is esk8_err_to_str.
-- Uart: lib/uart/esk8_uart.c. A buffer is a list of bytes; `msg_serialize`, `msg_chk_calc`, `msg_find_header`
--   and `msg_parse` are the functions esk8_uart_msg_*. A copy out of its buffer is the result `fault`.
-- Ps2: lib/ps2. Ps2.Types has the handle and the frames; Ps2.Isr is esk8_ps2_isr, one call for one clock edge,
--   and `edges` runs it over the levels of the data line; Ps2.Command is esk8_ps2_send_cmd, await_rsp and
--   mvmt_sync; Ps2.Mvmt is esk8_ps2_await_mvmt; Ps2.Init sets the driver up and tears it down.
-- Bms: lib/bms. Bms.Query is get_data_with_response, over the SDK's UART driver as the parameter
--   `UartDriver`; it uses Uart for its frames. Bms.Status is the two readings of registers into structures;
--   Bms.Setup is the initialisation and the choice of a battery's pins.
-- Btn: lib/btn. `btn_isr` and `tmr_isr` are the two interrupts; Btn.Presses has the executions made of them.
-- Pwm: lib/pwm, with the calls of the SDK recorded.
-- Remote: lib/remote. `remote_start` is esk8_remote_start, in the steps that its early returns separate, over
--   what the SDK and the drivers return; `incr_speed` and `follow` are the bounded speed and the moves that the
--   trackpad's task follows; a sum that overflows `int`, which C leaves undefined, wraps around. Remote.Task is that task, esk8_remote_ps2_task.c, one call of the driver (Ps2.Command,
--   Ps2.Mvmt) after another with what becomes of it; Remote.Scan is the callback of GAP.
-- Ble: lib/ble. Ble.Types has the applications and their connection contexts; Ble.Table is the search of the
--   contexts, Ble.Apps the registration and the release of the applications, Ble.Handler is
--   esk8_ble_apps_gatts_evt_hndl over the callbacks of the applications, Ble.Util is esk8_ble_apps_util.c,
--   Ble.Status holds the values of ble_apps/app_ble_srvc_status.c, and Ble.Attr the tables of attributes of the three
--   services, whose numbers are those of app_main.
-- Onboard: lib/onboard/esk8_onboard.c: `onboard_start`, `onboard_stop` and `set_speed`, over what the drivers
--   return, with the acts of the board in a list. Onboard.Batteries is a round of the task of esk8_onboard_bms.c,
--   over the client of Bms and the values of Ble.Status.
-- Board: the callbacks of lib/ble/ble_apps over the state of the controller, and `events`, which runs the handler
--   of Ble over a sequence of events. Board.Ride has the predicate `IsSafe` on the board, its children the
--   single events; Board.Ride.Output has what the PWM timer puts out, where a duty takes effect with its update;
--   Board.Ride.Boot joins a start of the controller to the events behind it, Board.Ride.Down the end
--   of the applications, Board.Ride.Forgotten a table that is created during a ride, and Board.Ride.Takeover a
--   second connection.
-- Main: app_main (mcu/main/src/main/app_main.c) in the build of the board, from the static data at power-on. The events
--   of the stack come behind it.
-- Nvs: lib/nvs. `nvs_init`, `settings_get`, `settings_set`, `nvs_commit` and `settings_deinit` are the functions
--   of e_ride_nvs_settings.c, over the flash library as the parameter `Flash`. What the library promises is the record
--   `IsFlash`: what is set is read with its handle, and a commit that succeeds stores it over a restart.
-- Auth: lib/auth. `auth_init`, `auth_register`, `auth_auth`, `auth_chunk_auth` and `auth_deinit` over the settings of
--   Nvs and the digest library as the parameter `Md`.
-- Log: lib/log, `log` with the text that vprintf makes. The other modules leave their calls of it out.
-- Tests: the theorems at concrete inputs.
--
-- Calls of the SDK (GPIO, queues, locks, timers, the UART driver) have no definition here. Where only their
-- order matters they are recorded in a list; where their result matters it is an argument of the definition,
-- or an operation of a parameter. A concurrent wait, during which interrupts run, is a function from the handle
-- to the handle (Ps2.Command). Loops are structural: the retries of a query count down from 3
-- (ESK8_UART_BMS_MSG_UPDATE_RETRIES), the wait for a movement packet goes through the list of what it
-- receives, the endless task of the trackpad through the
-- replies to its calls, and the others through their buffers. `size_t` is 32 bits, as on the target.
-- An ESP_ERROR_CHECK that fails restarts the board. In the set up of Bluetooth and in a registration it is the result
-- `none` (Ble.Apps.Checks, Ble.Apps.Given), as is a use of memory that is not there; those of the event handlers, on the
-- calls that advertise and create a table of attributes, are taken to pass, since nothing of this run comes behind one that
-- fails. What the calls of the digest library return is given
-- for each call of a function of lib/auth (Md).
--
-- Not modelled: the callbacks and tasks that only print; app_main in the build of the remote, which only
-- calls esk8_remote_start; the Android application and the circuit boards are no part of the firmware.
pub mod Auth
pub mod Ble
pub mod Bms
pub mod Board
pub mod Btn
pub mod Common
pub mod Err
pub mod Log
pub mod Main
pub mod Nvs
pub mod Onboard
pub mod Ps2
pub mod Pwm
pub mod Remote
pub mod Tests
pub mod Uart
