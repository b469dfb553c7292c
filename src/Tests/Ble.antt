-- ===== src/Tests/Ble.antt =====
-- lib/ble with two applications and three contexts each.
use esk.Common.{
  ℕ, suc, ◌≡◌, refl, false, true, List, [], ◌∷◌, none, some, ◌==◌, if◌then◌else◌, arith,
}
use esk.Common.Int.{pos}
use esk.Err.{ok, err_oom}
use esk.Ble.Types.{Ctx, blank, live, App, Apps, Callbacks, Stack}
use esk.Ble.Table.{find_free}
use esk.Ble.Table.Laws.{view, IsDistinct}
use esk.Ble.Handler.{contexts, on_connect, on_disconnect}
use esk.Ble.Handler.Connections.{IsConnect, on_connect-view, on_disconnect-view}
use esk.Ble.Util.{returned, send_indicate, notify_all}
use esk.Ble.Util.Notify.{connected, times, notify_all-connected}
use esk.Ble.Apps.{app_register}
use esk.Ble.Apps.Slots.{
  all_given, IsMisaligned, IsRegistered, app_register-IsAligned, app_register_misaligns,
}

abbrev taken : ℕ → Ctx
taken id = record { conn_id = pos id; ctx = 7 }

abbrev table : List Ctx
table = taken 4 ∷ blank ∷ taken 9 ∷ []

abbrev handle_list : List ℕ
handle_list = 40 ∷ 41 ∷ 42 ∷ []

abbrev service : App
service = record {
  attr_num = 3;
  conn_ctx_list = live table;
  attr_hndl_list = live handle_list;
  ble_if = 5;
}

abbrev two_apps : Apps
two_apps = record {
  apps_list = some (some 0 ∷ some 1 ∷ none ∷ []);
  apps_num_max = 3;
  conn_num_max = 3;
  curr_app_id = 2;
  app = λ a. service;
}

abbrev counted : Stack ℕ
counted = record {
  app_register = λ app_id n. n;
  create_attr_tab = λ gatts_if num n. n;
  start_service = λ handle n. n;
  start_advertising = λ n. suc n;
  gap_disconnect = λ id n. n;
  crash = λ n. n;
}

abbrev marking : Callbacks ℕ
marking = record {
  app_init = λ apps n. n;
  app_deinit = λ apps n. n;
  app_conn_add = λ apps c n. (record c { ctx = 8 }, n);
  app_conn_del = λ apps c n. (record c { ctx = 0 }, n);
  app_conn_write = λ apps c attr_idx len val n. n;
  app_evt_cb = λ apps event n. n;
}

table-IsDistinct : IsDistinct table
unfolding view
table-IsDistinct = ((λ id e. ground (arith, e)), ((λ id e. absurd (cc e)), ((λ id e. refl), tt)))

on_connect-view_example :
    IsConnect counted 0 3 two_apps 0 (some 1) (on_connect counted (λ a. marking) two_apps 0 3 0)
unfolding find_free view
on_connect-view_example =
    on_connect-view counted (λ a. marking) two_apps 0 3 0 (λ apps c n. refl) table-IsDistinct refl

on_disconnect-view_example :
    let list' = contexts ((on_disconnect counted (λ a. marking) two_apps 0 9 0).0.app 0) in
    ((j : ℕ) → view list' j ≡ (if 9 == j then none else view table j)) × IsDistinct list'
on_disconnect-view_example =
    on_disconnect-view counted (λ a. marking) two_apps 0 9 0 table-IsDistinct

notify_all-connected_example :
    (notify_all two_apps service 2 (6 ∷ [])
      ≡ returned ok (send_indicate 5 4 42 (6 ∷ []) ∷ send_indicate 5 9 42 (6 ∷ []) ∷ []))
    × ((id : ℕ) → times id (4 ∷ 9 ∷ []) ≡ elim (view table id) [ none ↦ 0 | some c ↦ 1 ])
unfolding connected
notify_all-connected_example =
    notify_all-connected two_apps service 2 42 (6 ∷ []) table refl refl table-IsDistinct

app_register-IsAligned_example :
    IsRegistered counted two_apps 2 0 1 (app_register counted all_given 2 two_apps 0)
app_register-IsAligned_example =
    app_register-IsAligned counted two_apps 2 0 (0 ∷ 1 ∷ []) 1 refl refl

abbrev one_app : Apps
one_app = record two_apps { apps_list = some (some 0 ∷ none ∷ none ∷ []); curr_app_id = 1 }

-- No memory for the contexts.
app_register_misaligns_example :
    (apps1 : Apps) × ((app_register counted
          (record { handles = true; contexts = false; registered = true })
          1
          one_app
          0
        ≡ some (apps1, err_oom, 0))
      × IsMisaligned counted one_app 1 0 (app_register counted all_given 2 apps1 0))
app_register_misaligns_example =
    app_register_misaligns counted one_app 1 2 0 (0 ∷ []) 0 true false true refl refl refl
