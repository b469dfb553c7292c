-- ===== src/Ble/Util.antt =====
-- lib/ble/esk8_ble_apps_util.c: contexts, attributes, values and notifications.
pub mod Notify
use esk.Common.{
  ℕ, Bool, true, false, List, [], ◌∷◌, Option, none, some, ltb, ◌==◌, if◌then◌else◌, get_elem?,
  get_or,
}
use esk.Common.Int.{ℤ, pos, negsuc}
use esk.Err.{Err, ok, err_invalid_param, ble_app_noreg}
use esk.Ble.Types.{Ctx, blank, Memory, null, freed, live, App, Apps}
use esk.Ble.Table.{find_index, find_conn}

-- `esk8_ble_apps_get_ctx`: the context, or its error with `NULL`.
unfoldable pub get_ctx : List Ctx → ℕ → Err × Option Ctx
unfolding find_conn
get_ctx list conn_id = elim (find_conn conn_id list) [
  | none ↦ (err_invalid_param, none)
  | some i ↦ (ok, some (get_or list i blank))
]

-- `esk8_ble_apps_get_attr_idx`
unfoldable pub get_attr_idx : List ℕ → ℕ → Err × Option ℕ
unfolding find_index
get_attr_idx attr_hndl_list handle = elim (find_index (λ h. h == handle) attr_hndl_list) [
  | none ↦ (err_invalid_param, none)
  | some i ↦ (ok, some i)
]

-- What the services send through the stack.
pub data Sent : Type 0 where
  set_attr_value : ℕ → List ℕ → Sent
  send_indicate : ℕ → ℕ → ℕ → List ℕ → Sent

-- What a call comes to; `fault` is a use of memory that is `NULL`, freed or out of its array.
pub data Update : Type 0 where
  returned : Err → List Sent → Update
  fault : Update

-- An element of an array in memory.
abbrev pub element : {A : Type 0} → Memory A → ℕ → Option A
element null i = none
element freed i = none
element (live list) i = get_elem? list i

abbrev pub is_null : {A : Type 0} → Memory A → Bool
is_null null = true
is_null freed = false
is_null (live list) = false

-- `esk8_ble_apps_update`, at an index of 0 or more.
unfoldable pub update : App → ℕ → List ℕ → Update
update app attr_idx val =
    if ltb app.attr_num attr_idx
    then returned err_invalid_param []
    else (if is_null app.conn_ctx_list
        then returned ble_app_noreg []
        else elim (element app.attr_hndl_list attr_idx) [
          | none ↦ fault
          | some handle ↦ returned ok (set_attr_value handle val ∷ [])
        ])

-- The loop of `esk8_ble_apps_notify_all`, with the handle that it reads in each round.
unfoldable pub notify_each : ℕ → Option ℕ → List ℕ → List Ctx → Update
notify_each ble_if handle val [] = returned ok []
notify_each ble_if handle val (c ∷ cs) =
    let rest = notify_each ble_if handle val cs in
    elim c.conn_id [
      | negsuc n ↦ rest
      | pos conn_id ↦ elim handle [
        | none ↦ Update.fault
        | some h ↦ elim rest [
          | fault ↦ Update.fault
          | returned err sent ↦ returned err (send_indicate ble_if conn_id h val ∷ sent)
        ]
      ]
    ]

-- `esk8_ble_apps_notify_all`
unfoldable pub notify_all : Apps → App → ℕ → List ℕ → Update
unfolding notify_each
notify_all apps app attr_idx val = elim app.conn_ctx_list [
  | live list ↦ notify_each app.ble_if (element app.attr_hndl_list attr_idx) val list
  | _ ↦ if apps.conn_num_max == 0 then returned ok [] else Update.fault
]
