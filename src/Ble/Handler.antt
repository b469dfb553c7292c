-- ===== src/Ble/Handler.antt =====
-- lib/ble/esk8_ble_apps.c `esk8_ble_apps_gatts_evt_hndl`.
-- `esk8_ble_apps_deinit` takes an application off the list when it frees its contexts, so the contexts of
-- an application of the list are `NULL` or live.
pub mod Connections
pub mod Keeps
use esk.Common.{
  ℕ, zero, suc, Bool, true, false, not, List, [], ◌∷◌, Option, none, some, ltb, leb, ◌==◌,
  if◌then◌else◌, get_elem?, get_or, set, take,
}
use esk.Common.Int.{ℤ, pos, negsuc}
use esk.Ble.Types.{
  Ctx, blank, Memory, null, freed, live, App, Apps, set_app, Event, reg, creat_attr_tab, connect,
  disconnect, write, other, Callbacks, Stack,
}
use esk.Ble.Table.{find_index, find_free, find_conn, set_conn}

-- What `apps_list[i]` points to: `none` out of the list, and for `NULL`.
unfoldable pub app_at : Apps → ℕ → Option ℕ
app_at apps i = elim apps.apps_list [
  | none ↦ none
  | some list ↦ elim (get_elem? list i) [ none ↦ none | some slot ↦ slot ]
]

-- The test of the loop that looks for the application of an interface.
abbrev pub has_if : Apps → ℕ → Option ℕ → Bool
has_if apps gatts_if none = false
has_if apps gatts_if (some a) = elim ((apps.app a).conn_ctx_list) [
  | live list ↦ (apps.app a).ble_if == gatts_if
  | _ ↦ false
]

unfoldable pub find_app : Apps → ℕ → List (Option ℕ) → Option ℕ
find_app apps gatts_if [] = none
find_app apps gatts_if (slot ∷ slots) =
    let rest = find_app apps gatts_if slots in if has_if apps gatts_if slot then slot else rest

unfoldable pub app_of_if : Apps → ℕ → Option ℕ
unfolding find_app
app_of_if apps gatts_if = elim apps.apps_list [
  | none ↦ none
  | some list ↦ find_app apps gatts_if list
]

-- The contexts of an application that `app_of_if` finds.
abbrev pub contexts : App → List Ctx
contexts x = elim x.conn_ctx_list [ live list ↦ list | _ ↦ [] ]

abbrev pub handles : App → List ℕ
handles x = elim x.attr_hndl_list [ live list ↦ list | _ ↦ [] ]

unfoldable pub set_contexts : Apps → ℕ → List Ctx → Apps
unfolding set_app
set_contexts apps a list = set_app apps a (record (apps.app a) { conn_ctx_list = live list })

-- What a search that finds nothing comes to: the list of a set up that has had no memory for it is read all the same.
abbrev pub missing : {S : Type 0} → Stack S → Apps → S → S
missing stack apps s = elim apps.apps_list [
  | some list ↦ s
  | none ↦ if apps.apps_num_max == 0 then s else stack.crash s
]

module _ {S : Type 0} (stack : Stack S) (callbacks : ℕ → Callbacks S) where
  -- `ESP_GATTS_REG_EVT`
  unfoldable pub on_reg : Apps → ℕ → ℕ → S → Apps × S
  unfolding app_at set_app
  on_reg apps gatts_if app_id s =
      if leb apps.apps_num_max app_id then (apps, s) else elim (app_at apps app_id) [
        | none ↦ (apps, missing stack apps s)
        | some a ↦ (
          set_app apps a (record (apps.app a) { ble_if = gatts_if }),
          stack.create_attr_tab gatts_if (apps.app a).attr_num s,
        )
      ]

  -- `ESP_GATTS_CREAT_ATTR_TAB_EVT`. `handles` is an array of `num_handle` handles.
  unfoldable pub on_creat_attr_tab : Apps → ℕ → ℕ → ℕ → List ℕ → S → Apps × S
  unfolding set_app
  on_creat_attr_tab apps a status num_handle new_handles s =
      let x = apps.app a in
      let apps' =
        set_app apps a (record x { attr_hndl_list = live (take x.attr_num new_handles) }) in
      if not (status == 0)
      then (apps, s)
      else (if not (num_handle == x.attr_num) then (apps, s) else (
        apps',
        stack.start_service (get_or new_handles 0 0) ((callbacks a).app_init apps' s),
      ))

  -- `ESP_GATTS_CONNECT_EVT`
  unfoldable pub on_connect : Apps → ℕ → ℕ → S → Apps × S
  unfolding find_free set_conn set_contexts
  on_connect apps a id s =
      let list = contexts (apps.app a) in
      let s1 = stack.start_advertising s in
      elim (find_free list) [
        | none ↦ (apps, stack.gap_disconnect id s1)
        | some i ↦
            let list1 = set_conn list i (pos id) in
            let apps1 = set_contexts apps a list1 in
            let (c, s2) = (callbacks a).app_conn_add apps1 (get_or list1 i blank) s1 in
            (set_contexts apps a (set list1 i c), s2)
      ]

  -- `ESP_GATTS_DISCONNECT_EVT`
  unfoldable pub on_disconnect : Apps → ℕ → ℕ → S → Apps × S
  unfolding find_conn set_conn set_contexts
  on_disconnect apps a id s =
      let list = contexts (apps.app a) in
      let s1 = stack.start_advertising s in
      elim (find_conn id list) [
        | none ↦ (apps, s1)
        | some i ↦
            let (c, s2) = (callbacks a).app_conn_del apps (get_or list i blank) s1 in
            (set_contexts apps a (set_conn (set list i c) i (negsuc 0)), s2)
      ]

  -- `ESP_GATTS_WRITE_EVT`
  unfoldable pub on_write : Apps → ℕ → ℕ → ℕ → ℕ → List ℕ → S → Apps × S
  unfolding find_index find_conn
  on_write apps a handle id len value s =
      let list = contexts (apps.app a) in
      elim (find_index (λ h. h == handle) (handles (apps.app a))) [
        | none ↦ (apps, s)
        | some attr_idx ↦ elim (find_conn id list) [
          | none ↦ (apps, s)
          | some i ↦
              (apps, (callbacks a).app_conn_write apps (get_or list i blank) attr_idx len value s)
        ]
      ]

  -- `app->app_evt_cb(event, param)`
  unfoldable pub after_event : ℕ → Event → Apps × S → Apps × S
  after_event a event (apps, s) = (apps, (callbacks a).app_evt_cb apps event s)

  -- The second `switch`.
  unfoldable pub app_event : Apps → ℕ → Event → S → Apps × S
  unfolding on_creat_attr_tab on_connect on_disconnect on_write after_event
  app_event apps a (reg app_id) s = after_event a (reg app_id) (apps, s)
  app_event apps a (creat_attr_tab status num_handle new_handles) s =
      on_creat_attr_tab apps a status num_handle new_handles s
  app_event apps a (connect id) s = after_event a (connect id) (on_connect apps a id s)
  app_event apps a (disconnect id) s = after_event a (disconnect id) (on_disconnect apps a id s)
  app_event apps a (write handle id len value) s =
      after_event a (write handle id len value) (on_write apps a handle id len value s)
  app_event apps a (other event) s = after_event a (other event) (apps, s)

  -- The search for the application, and the second `switch`.
  unfoldable pub dispatch : Apps → ℕ → Event → S → Apps × S
  unfolding app_of_if app_event
  dispatch apps gatts_if event s = elim (app_of_if apps gatts_if) [
    | none ↦ (apps, missing stack apps s)
    | some a ↦ app_event apps a event s
  ]

  -- `esk8_ble_apps_gatts_evt_hndl`
  unfoldable pub gatts_evt_hndl : Apps → ℕ → Event → S → Apps × S
  unfolding on_reg dispatch
  gatts_evt_hndl apps gatts_if (reg app_id) s = on_reg apps gatts_if app_id s
  gatts_evt_hndl apps gatts_if event s = dispatch apps gatts_if event s

-- `ESP_GAP_BLE_ADV_DATA_SET_COMPLETE_EVT`, or another event of GAP.
pub data GapEvent : Type 0 where
  adv_data_set_complete : GapEvent
  other_gap : ℕ → GapEvent

-- `esk8_ble_apps_gap_evt_hndl`
unfoldable pub gap_evt_hndl : {S : Type 0} → Stack S → GapEvent → S → S
gap_evt_hndl stack adv_data_set_complete s = stack.start_advertising s
gap_evt_hndl stack (other_gap event) s = s
