-- ===== src/Board.antt =====
-- The services of lib/ble/ble_apps as callbacks over the board's state, and the events that reach them.
-- The applications are numbered as app_main registers them: 0 is app_ble_srvc_auth.c, 1 is
-- app_ble_srvc_ctrl.c and 2 is app_ble_srvc_status.c.
pub mod Ride
use esk.Common.{
  ℕ, zero, suc, Bool, true, false, not, List, [], ◌∷◌, ◌++◌, ◌==◌, if◌then◌else◌, get_or,
}
use esk.Common.Int.{ℤ, pos, negsuc, ltb_ℤ}
use esk.Err.{Err, failed}
use esk.Ble.Types.{Ctx, App, Apps, Event, Callbacks, Stack}
use esk.Ble.Status.{Values, zeroed}
use esk.Ble.Handler.{gatts_evt_hndl}
use esk.Onboard.{
  Onboard, Act, start_advertising, gap_disconnect, app_register, start_service, create_attr_tab,
  set_speed, crash,
}

-- The static data of the board's files, and what the board has done.
pub record Board : Type 0 where
  pub onboard : Onboard
  pub conn_id : ℤ  -- of app_ble_srvc_ctrl.c
  pub values : Values
  pub acts : List Act

abbrev pub done : Board → List Act → Board
done b acts = record b { acts = b.acts ++ acts }

abbrev pub board_stack : Stack Board
board_stack = record {
  app_register = λ app_id b. done b (app_register app_id ∷ []);
  create_attr_tab = λ gatts_if attr_num b. done b (create_attr_tab gatts_if attr_num ∷ []);
  start_service = λ handle b. done b (start_service handle ∷ []);
  start_advertising = λ b. done b (start_advertising ∷ []);
  gap_disconnect = λ id b. done b (gap_disconnect id ∷ []);
  crash = λ b. done b (crash ∷ []);
}

-- Equality of two values of `int`.
abbrev pub eq_ℤ : ℤ → ℤ → Bool
eq_ℤ (pos a) (pos b) = a == b
eq_ℤ (negsuc a) (negsuc b) = a == b
eq_ℤ _ _ = false

-- SRVC_IDX_CTRL_SPEED_CHAR_VAL
abbrev pub ctrl_speed_char_val : ℕ
ctrl_speed_char_val = 2

-- What the calls of the two drivers below return, after what the board has done: the two of the PWM timer, and
-- `esk8_auth_init` with the handle that it stores.
pub record Drivers : Type 0 where
  pub ledc : List Act → ℕ × ℕ
  pub auth_init : List Act → Err × ℕ

module _ (drivers : Drivers) where
  -- `esk8_onboard_set_speed`, with the application of the status service.
  unfoldable pub ride_at : Apps → ℕ → Board → Board
  unfolding set_speed
  ride_at apps speed b =
      let (set_err, update_err) = drivers.ledc b.acts in
      let (o, err, acts) = set_speed set_err update_err apps (apps.app 2) speed b.onboard in
      record b { onboard = o; acts = b.acts ++ acts }

  -- app_ble_srvc_ctrl.c `app_conn_add`
  unfoldable pub ctrl_conn_add : Apps → Ctx → Board → Ctx × Board
  ctrl_conn_add apps conn_ctx b =
      (conn_ctx, if ltb_ℤ (pos 0) b.conn_id then b else record b { conn_id = conn_ctx.conn_id })

  -- app_ble_srvc_ctrl.c `app_conn_del`
  unfoldable pub ctrl_conn_del : Apps → Ctx → Board → Ctx × Board
  unfolding ride_at
  ctrl_conn_del apps conn_ctx b = (
    conn_ctx,
    if not (eq_ℤ conn_ctx.conn_id b.conn_id)
        then b
        else ride_at apps 0 (record b { conn_id = negsuc 0 }),
  )

  -- app_ble_srvc_ctrl.c `app_conn_write`
  unfoldable pub ctrl_conn_write : Apps → Ctx → ℕ → ℕ → List ℕ → Board → Board
  unfolding ride_at
  ctrl_conn_write apps conn_ctx attr_idx len val b =
      if not (attr_idx == ctrl_speed_char_val)
      then b
      else (if not (len == 1)
          then b
          else (if not (eq_ℤ b.conn_id conn_ctx.conn_id)
              then b
              else ride_at apps (get_or val 0 0) b))

  abbrev pub ctrl : Callbacks Board
  ctrl = record {
    app_init = λ apps b. record b { conn_id = negsuc 0 };
    app_deinit = λ apps b. b;
    app_conn_add = ctrl_conn_add;
    app_conn_del = ctrl_conn_del;
    app_conn_write = ctrl_conn_write;
    app_evt_cb = λ apps event b. b;
  }

  -- app_ble_srvc_auth.c `app_conn_add`
  unfoldable pub auth_conn_add : Apps → Ctx → Board → Ctx × Board
  auth_conn_add apps conn_ctx b =
      let (err, hndl) = drivers.auth_init b.acts in
      (record conn_ctx { ctx = if failed err then 0 else hndl }, b)

  -- The callbacks that only log.
  abbrev pub inert : Callbacks Board
  inert = record {
    app_init = λ apps b. b;
    app_deinit = λ apps b. b;
    app_conn_add = λ apps conn_ctx b. (conn_ctx, b);
    app_conn_del = λ apps conn_ctx b. (conn_ctx, b);
    app_conn_write = λ apps conn_ctx attr_idx len val b. b;
    app_evt_cb = λ apps event b. b;
  }

  abbrev pub auth : Callbacks Board
  auth = record inert { app_conn_add = auth_conn_add }

  abbrev pub status : Callbacks Board
  status = record inert { app_init = λ apps b. record b { values = zeroed } }

  abbrev pub services : ℕ → Callbacks Board
  services zero = auth
  services (suc zero) = ctrl
  services (suc (suc n)) = status

  -- A sequence of events, each with its interface.
  unfoldable pub events : List (ℕ × Event) → Apps → Board → Apps × Board
  unfolding gatts_evt_hndl
  events [] apps b = (apps, b)
  events ((gatts_if, event) ∷ rest) apps b =
      let (apps', b') = gatts_evt_hndl board_stack services apps gatts_if event b in
      events rest apps' b'
