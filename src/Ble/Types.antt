-- ===== src/Ble/Types.antt =====
-- lib/ble/esk8_ble_apps.h: applications and connection contexts.
use esk.Common.{ℕ, List, Option, ◌==◌, if◌then◌else◌}
use esk.Common.Int.{ℤ, negsuc}

-- `esk8_ble_conn_ctx_t`. `ctx` is an address, 0 for `NULL`.
pub record Ctx : Type 0 where
  pub conn_id : ℤ
  pub ctx : ℕ

-- A context that `calloc` and the loop behind it have prepared.
abbrev pub blank : Ctx
blank = record { conn_id = negsuc 0; ctx = 0 }

-- A pointer to an array: `NULL`, to memory that was freed, or to what it holds.
pub data Memory (A : Type 0) : Type 0 where
  null : Memory A
  freed : Memory A
  live : List A → Memory A

-- `esk8_ble_app_t`, but for its name and its table of attributes, which do not change, and its callbacks,
-- which are `Callbacks`.
pub record App : Type 0 where
  pub attr_num : ℕ
  pub conn_ctx_list : Memory Ctx
  pub attr_hndl_list : Memory ℕ
  pub ble_if : ℕ

-- `esk8_ble_apps_t`, with the applications themselves, which `apps_list` points to by their numbers. `none`
-- is a `NULL`.
pub record Apps : Type 0 where
  pub apps_list : Option (List (Option ℕ))
  pub apps_num_max : ℕ
  pub conn_num_max : ℕ
  pub curr_app_id : ℕ
  pub app : ℕ → App

-- A write to one application.
unfoldable pub set_app : Apps → ℕ → App → Apps
set_app apps a x = record apps { app = λ b. if b == a then x else apps.app b }

-- The events of `esp_gatts_cb_event_t` that the program tells apart, with their parameters.
pub data Event : Type 0 where
  reg : ℕ → Event
  creat_attr_tab : ℕ → ℕ → List ℕ → Event
  connect : ℕ → Event
  disconnect : ℕ → Event
  write : ℕ → ℕ → ℕ → List ℕ → Event
  other : ℕ → Event

-- The callbacks of an application over a state `S` of all that they change. They read the applications, and
-- may change the context that they are handed.
pub record Callbacks (S : Type 0) : Type 0 where
  pub app_init : Apps → S → S
  pub app_deinit : Apps → S → S
  pub app_conn_add : Apps → Ctx → S → Ctx × S
  pub app_conn_del : Apps → Ctx → S → Ctx × S
  pub app_conn_write : Apps → Ctx → ℕ → ℕ → List ℕ → S → S
  pub app_evt_cb : Apps → Event → S → S

-- What lib/ble asks of the Bluetooth stack.
pub record Stack (S : Type 0) : Type 0 where
  pub app_register : ℕ → S → S
  pub create_attr_tab : ℕ → ℕ → S → S
  pub start_service : ℕ → S → S
  pub start_advertising : S → S
  pub gap_disconnect : ℕ → S → S
  pub crash : S → S  -- a use of memory that is not there
