-- ===== src/Ble/Handler/Keeps.antt =====
-- lib/ble/esk8_ble_apps.c: the handler and a predicate on what the stack and the callbacks change.
use esk.Common.{ℕ, List, Option-cases, Bool-cases, inl, inr, leb, ◌==◌}
use esk.Ble.Types.{
  Ctx, Apps, Event, reg, creat_attr_tab, connect, disconnect, write, other, Callbacks, Stack,
}
use esk.Ble.Table.{find_free, find_conn, find_index}
use esk.Ble.Handler.{
  contexts, handles, missing, app_at, app_of_if, on_reg, on_creat_attr_tab, on_connect,
  on_disconnect, on_write, after_event, app_event, dispatch, gatts_evt_hndl,
}

-- An event that is no write.
abbrev pub IsSetup : Event → Type 0
IsSetup (write handle id len value) = ⊥
IsSetup _ = Unit {0}

pub record StackKeeps {S : Type 0} (P : S → Type 0) (stack : Stack S) : Type 0 where
  pub create_attr_tab : (gatts_if num : ℕ) (s : S) → P s → P (stack.create_attr_tab gatts_if num s)
  pub start_service : (handle : ℕ) (s : S) → P s → P (stack.start_service handle s)
  pub start_advertising : (s : S) → P s → P (stack.start_advertising s)
  pub gap_disconnect : (id : ℕ) (s : S) → P s → P (stack.gap_disconnect id s)
  pub crash : (s : S) → P s → P (stack.crash s)

pub missing_keeps :
    {S : Type 0} (P : S → Type 0) (stack : Stack S) (apps : Apps) (s : S)
    → (P s → P (stack.crash s))
    → P s
    → P (missing stack apps s)
missing_keeps P stack apps s crashes held = elim (Option-cases apps.apps_list) [
  | inr (list, e) ↦ rw e held
  | inl null ↦ elim (Bool-cases (apps.apps_num_max == 0)) [
    | inl down ↦ rw (null, down) held
    | inr lost ↦ rw (null, lost) (crashes held)
  ]
]

pub record CallbacksKeep {S : Type 0} (P : S → Type 0) (callbacks : Callbacks S) : Type 0 where
  pub app_init : (apps : Apps) (s : S) → P s → P (callbacks.app_init apps s)
  pub app_conn_add : (apps : Apps) (c : Ctx) (s : S) → P s → P (callbacks.app_conn_add apps c s).1
  pub app_conn_del : (apps : Apps) (c : Ctx) (s : S) → P s → P (callbacks.app_conn_del apps c s).1
  pub app_evt_cb :
      (apps : Apps) (event : Event) (s : S) → P s → P (callbacks.app_evt_cb apps event s)

module _ {S : Type 0} (P : S → Type 0) (stack : Stack S) (callbacks : ℕ → Callbacks S)
    (stack_keeps : StackKeeps P stack) (keeps : (a : ℕ) → CallbacksKeep P (callbacks a)) where
  on_reg_keeps :
      (apps : Apps) (gatts_if app_id : ℕ) (s : S)
      → P s
      → P (on_reg stack callbacks apps gatts_if app_id s).1
  unfolding on_reg
  on_reg_keeps apps gatts_if app_id s held = elim (Bool-cases (leb apps.apps_num_max app_id)) [
    | inl ignored ↦ rw (ignored, on_reg) held
    | inr tried ↦ elim (Option-cases (app_at apps app_id)) [
      | inl free ↦
          rw (tried, free, on_reg) (missing_keeps P stack apps s (stack_keeps.crash s) held)
      | inr (a, given) ↦
          rw (tried, given, on_reg)
            (stack_keeps.create_attr_tab gatts_if (apps.app a).attr_num s held)
    ]
  ]

  on_creat_attr_tab_keeps :
      (apps : Apps) (a status num : ℕ) (new : List ℕ) (s : S)
      → P s
      → P (on_creat_attr_tab stack callbacks apps a status num new s).1
  unfolding on_creat_attr_tab
  on_creat_attr_tab_keeps apps a status num new s held = elim (Bool-cases (status == 0)) [
    | inr bad ↦ rw (bad, on_creat_attr_tab) held
    | inl good ↦ elim (Bool-cases (num == (apps.app a).attr_num)) [
      | inr wrong ↦ rw (good, wrong, on_creat_attr_tab) held
      | inl right ↦
          rw (good, right, on_creat_attr_tab)
            (stack_keeps.start_service _ _ ((keeps a).app_init _ s held))
    ]
  ]

  on_connect_keeps :
      (apps : Apps) (a id : ℕ) (s : S) → P s → P (on_connect stack callbacks apps a id s).1
  unfolding on_connect
  on_connect_keeps apps a id s held =
      let held1 = stack_keeps.start_advertising s held in
      elim (Option-cases (find_free (contexts (apps.app a)))) [
        | inl full ↦ rw (full, on_connect) (stack_keeps.gap_disconnect id _ held1)
        | inr (i, found) ↦ rw (found, on_connect) ((keeps a).app_conn_add _ _ _ held1)
      ]

  on_disconnect_keeps :
      (apps : Apps) (a id : ℕ) (s : S) → P s → P (on_disconnect stack callbacks apps a id s).1
  unfolding on_disconnect
  on_disconnect_keeps apps a id s held =
      let held1 = stack_keeps.start_advertising s held in
      elim (Option-cases (find_conn id (contexts (apps.app a)))) [
        | inl gone ↦ rw (gone, on_disconnect) held1
        | inr (i, found) ↦ rw (found, on_disconnect) ((keeps a).app_conn_del _ _ _ held1)
      ]

  app_event_keeps :
      (apps : Apps) (a : ℕ) (event : Event) (s : S)
      → IsSetup event
      → P s
      → P (app_event stack callbacks apps a event s).1
  unfolding app_event after_event
  app_event_keeps apps a (reg app_id) s setup held = (keeps a).app_evt_cb _ _ s held
  app_event_keeps apps a (creat_attr_tab status num new) s setup held =
      on_creat_attr_tab_keeps apps a status num new s held
  app_event_keeps apps a (connect id) s setup held =
      (keeps a).app_evt_cb _ _ _ (on_connect_keeps apps a id s held)
  app_event_keeps apps a (disconnect id) s setup held =
      (keeps a).app_evt_cb _ _ _ (on_disconnect_keeps apps a id s held)
  app_event_keeps apps a (write handle id len value) s setup held = absurd setup
  app_event_keeps apps a (other event) s setup held = (keeps a).app_evt_cb _ _ s held

  dispatch_keeps :
      (apps : Apps) (gatts_if : ℕ) (event : Event) (s : S)
      → IsSetup event
      → P s
      → P (dispatch stack callbacks apps gatts_if event s).1
  unfolding dispatch
  dispatch_keeps apps gatts_if event s setup held = elim (Option-cases (app_of_if apps gatts_if)) [
    | inl nobody ↦ rw (nobody, dispatch) (missing_keeps P stack apps s (stack_keeps.crash s) held)
    | inr (a, owner) ↦ rw (owner, dispatch) (app_event_keeps apps a event s setup held)
  ]

  pub gatts_evt_hndl_keeps :
      (apps : Apps) (gatts_if : ℕ) (event : Event) (s : S)
      → IsSetup event
      → P s
      → P (gatts_evt_hndl stack callbacks apps gatts_if event s).1
  unfolding gatts_evt_hndl
  gatts_evt_hndl_keeps apps gatts_if (reg app_id) s setup held =
      on_reg_keeps apps gatts_if app_id s held
  gatts_evt_hndl_keeps apps gatts_if (creat_attr_tab status num new) s setup held =
      dispatch_keeps apps gatts_if (creat_attr_tab status num new) s setup held
  gatts_evt_hndl_keeps apps gatts_if (connect id) s setup held =
      dispatch_keeps apps gatts_if (connect id) s setup held
  gatts_evt_hndl_keeps apps gatts_if (disconnect id) s setup held =
      dispatch_keeps apps gatts_if (disconnect id) s setup held
  gatts_evt_hndl_keeps apps gatts_if (write handle id len value) s setup held = absurd setup
  gatts_evt_hndl_keeps apps gatts_if (other event) s setup held =
      dispatch_keeps apps gatts_if (other event) s setup held

  -- A write, behind which the callbacks of writes keep the predicate too.
  module _
      (writes : (a : ℕ) (apps : Apps) (c : Ctx) (attr_idx len : ℕ) (value : List ℕ) (s : S)
        → P s
        → P ((callbacks a).app_conn_write apps c attr_idx len value s)) where
    on_write_keeps :
        (apps : Apps) (a handle id len : ℕ) (value : List ℕ) (s : S)
        → P s
        → P (on_write stack callbacks apps a handle id len value s).1
    unfolding on_write
    on_write_keeps apps a handle id len value s held =
        elim (Option-cases (find_index (λ h. h == handle) (handles (apps.app a)))) [
          | inl none_of ↦ rw (none_of, on_write) held
          | inr (attr_idx, attr) ↦ elim (Option-cases (find_conn id (contexts (apps.app a)))) [
            | inl unknown ↦ rw (attr, unknown, on_write) held
            | inr (i, found) ↦ rw (attr, found, on_write) (writes a _ _ attr_idx len value s held)
          ]
        ]

    pub gatts_evt_hndl-write_keeps :
        (apps : Apps) (gatts_if handle id len : ℕ) (value : List ℕ) (s : S)
        → P s
        → P (gatts_evt_hndl stack callbacks apps gatts_if (write handle id len value) s).1
    unfolding gatts_evt_hndl dispatch app_event after_event
    gatts_evt_hndl-write_keeps apps gatts_if handle id len value s held =
        elim (Option-cases (app_of_if apps gatts_if)) [
          | inl nobody ↦
              rw (nobody, dispatch) (missing_keeps P stack apps s (stack_keeps.crash s) held)
          | inr (a, owner) ↦
              rw (owner, dispatch)
                ((keeps a).app_evt_cb _ _ _ (on_write_keeps apps a handle id len value s held))
        ]
