-- ===== src/Board/Ride/Forgotten.antt =====
-- lib/ble/ble_apps/app_ble_srvc_ctrl.c: a table of attributes that is created again during a ride.
use esk.Common.{
  ℕ, zero, suc, ◌≡◌, refl, ◌∙◌, inl, inr, List, [], ◌∷◌, Option-cases, map, ◌==◌, true, false, some,
  get_or, arith,
}
use esk.Common.Int.{pos, negsuc}
use esk.Onboard.{Onboard, start_advertising, crash, start_service}
use esk.Ble.Types.{Ctx, blank, Apps, Event, disconnect, creat_attr_tab}
use esk.Ble.Table.{find_conn}
use esk.Ble.Table.Laws.{conn_id-find_conn}
use esk.Ble.Handler.{
  contexts, app_of_if, on_creat_attr_tab, on_disconnect, after_event, app_event, dispatch,
  gatts_evt_hndl,
}
use esk.Ble.Handler.Keeps.{missing_keeps}
use esk.Board.{Board, board_stack, done, Drivers, eq_ℤ, ctrl_conn_del, services, events}
use esk.Board.Ride.{last_duty, last_duty-append}

-- A board without a controller that still has the speed of a ride.
pub record IsForgotten (o : Onboard) (v : ℕ) (b : Board) : Type 0 where
  pub conn_id : b.conn_id ≡ negsuc 0
  pub onboard : b.onboard ≡ o
  pub duty : last_duty 0 b.acts ≡ v

-- Connections that go, each at an interface.
abbrev pub gone : ℕ × ℕ → ℕ × Event
gone (gatts_if, id) = (gatts_if, disconnect id)

module _ (drivers : Drivers) (o : Onboard) (v : ℕ) where
  advertised : (b : Board) → IsForgotten o v b → IsForgotten o v (done b (start_advertising ∷ []))
  advertised b forgot = record {
    conn_id = forgot.conn_id;
    onboard = forgot.onboard;
    duty = last_duty-append 0 b.acts (start_advertising ∷ []) ∙ forgot.duty;
  }

  crashed : (b : Board) → IsForgotten o v b → IsForgotten o v (done b (crash ∷ []))
  crashed b forgot = record {
    conn_id = forgot.conn_id;
    onboard = forgot.onboard;
    duty = last_duty-append 0 b.acts (crash ∷ []) ∙ forgot.duty;
  }

  app_conn_del-IsForgotten :
      (apps : Apps) (a id : ℕ) (c : Ctx) (b : Board)
      → c.conn_id ≡ pos id
      → IsForgotten o v b
      → IsForgotten o v ((services drivers a).app_conn_del apps c b).1
  unfolding ctrl_conn_del
  app_conn_del-IsForgotten apps zero id c b e forgot = forgot
  app_conn_del-IsForgotten apps (suc zero) id c b e forgot =
      let differs : eq_ℤ c.conn_id b.conn_id ≡ false = rw (e, forgot.conn_id) refl in
      rw differs forgot
  app_conn_del-IsForgotten apps (suc (suc n)) id c b e forgot = forgot

  on_disconnect-IsForgotten :
      (apps : Apps) (a id : ℕ) (b : Board)
      → IsForgotten o v b
      → IsForgotten o v (on_disconnect board_stack (services drivers) apps a id b).1
  unfolding on_disconnect
  on_disconnect-IsForgotten apps a id b forgot =
      elim (Option-cases (find_conn id (contexts (apps.app a)))) [
        | inl unknown ↦ rw (unknown, on_disconnect) (advertised b forgot)
        | inr (i, found) ↦
            rw (found, on_disconnect)
              (app_conn_del-IsForgotten apps a id (get_or (contexts (apps.app a)) i blank)
                (done b (start_advertising ∷ []))
                (conn_id-find_conn (contexts (apps.app a)) i id found) (advertised b forgot))
      ]

  app_evt_cb-inert :
      (apps : Apps) (a : ℕ) (event : Event) (b : Board)
      → (services drivers a).app_evt_cb apps event b ≡ b
  app_evt_cb-inert apps zero event b = refl
  app_evt_cb-inert apps (suc zero) event b = refl
  app_evt_cb-inert apps (suc (suc n)) event b = refl

  gone-IsForgotten :
      (apps : Apps) (gatts_if id : ℕ) (b : Board)
      → IsForgotten o v b
      → IsForgotten o v
          (gatts_evt_hndl board_stack (services drivers) apps gatts_if (disconnect id) b).1
  unfolding gatts_evt_hndl dispatch app_event after_event
  gone-IsForgotten apps gatts_if id b forgot = elim (Option-cases (app_of_if apps gatts_if)) [
    | inl nobody ↦
        rw (nobody, dispatch)
          (missing_keeps (IsForgotten o v) board_stack apps b (crashed b) forgot)
    | inr (a, owner) ↦
        let r = on_disconnect board_stack (services drivers) apps a id b in
        rw (owner, dispatch, app_evt_cb-inert r.0 a (disconnect id) r.1)
          (on_disconnect-IsForgotten apps a id b forgot)
  ]

  all_gone-IsForgotten :
      (list : List (ℕ × ℕ)) (apps : Apps) (b : Board)
      → IsForgotten o v b
      → IsForgotten o v (events drivers (map gone list) apps b).1
  unfolding events
  all_gone-IsForgotten [] apps b forgot = forgot
  all_gone-IsForgotten ((gatts_if, id) ∷ rest) apps b forgot =
      all_gone-IsForgotten rest _ _ (gone-IsForgotten apps gatts_if id b forgot)

module _ (drivers : Drivers) where
  on_creat_attr_tab-IsForgotten :
      (apps : Apps) (b : Board) (new_handles : List ℕ)
      → IsForgotten b.onboard
          (last_duty 0 b.acts)
          (on_creat_attr_tab board_stack
            (services drivers)
            apps
            1
            0
            (apps.app 1).attr_num
            new_handles
            b).1
  unfolding on_creat_attr_tab
  on_creat_attr_tab-IsForgotten apps b new_handles =
      let same : ((apps.app 1).attr_num == (apps.app 1).attr_num) ≡ true = ground arith in
      rw same (record {
        conn_id = refl;
        onboard = refl;
        duty = last_duty-append 0 b.acts (start_service (get_or new_handles 0 0) ∷ []);
      })

  again-IsForgotten :
      (apps : Apps) (b : Board) (gatts_if : ℕ) (new_handles : List ℕ)
      → app_of_if apps gatts_if ≡ some 1
      → IsForgotten b.onboard
          (last_duty 0 b.acts)
          (gatts_evt_hndl board_stack
            (services drivers)
            apps
            gatts_if
            (creat_attr_tab 0 (apps.app 1).attr_num new_handles)
            b).1
  unfolding gatts_evt_hndl dispatch app_event
  again-IsForgotten apps b gatts_if new_handles e =
      rw (e, dispatch) (on_creat_attr_tab-IsForgotten apps b new_handles)

  -- A table of attributes that is created again for the control service, with its number of attributes, forgets the
  -- controller and keeps the speed and the duty; and no sequence of connections that go, the controller's
  -- included, changes them from then on.
  pub creat_attr_tab_forgets :
      (apps : Apps) (b : Board) (gatts_if : ℕ) (new_handles : List ℕ) (list : List (ℕ × ℕ))
      → app_of_if apps gatts_if ≡ some 1
      → let again : ℕ × Event = (gatts_if, creat_attr_tab 0 (apps.app 1).attr_num new_handles) in
        IsForgotten b.onboard (last_duty 0 b.acts) (events drivers (again ∷ map gone list) apps b).1
  unfolding events
  creat_attr_tab_forgets apps b gatts_if new_handles list e =
      all_gone-IsForgotten drivers b.onboard (last_duty 0 b.acts) list _ _
        (again-IsForgotten apps b gatts_if new_handles e)
