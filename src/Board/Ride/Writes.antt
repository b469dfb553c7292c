-- ===== src/Board/Ride/Writes.antt =====
-- lib/ble/esk8_ble_apps.c and ble_apps: the speed of the board over a write and a registration.
use esk.Common.{
  ℕ, zero, suc, ◌≡◌, ◌≢◌, refl, inl, inr, Bool, true, false, List, none, some, Option-cases,
  Bool-cases, ◌==◌, if◌then◌else◌, get_or, arith, not, leb,
}
use esk.Common.Int.{ℤ, pos, negsuc}
use esk.Ble.Types.{Ctx, blank, Apps, set_app}
use esk.Ble.Table.{find_conn, find_index}
use esk.Ble.Table.Laws.{view, view-find_conn, conn_id-find_conn}
use esk.Ble.Handler.{contexts, handles, app_at, on_reg, on_write}
use esk.Onboard.{create_attr_tab}
use esk.Board.{
  Board, board_stack, eq_ℤ, Drivers, ride_at, ctrl_conn_write, services, ctrl_speed_char_val,
}
use esk.Board.Ride.{
  IsTaken, HasController, IsSafe, Same-IsSafe, Same-done, missing-IsSafe, ride_at-IsSafe,
}

module _ (drivers : Drivers) where
  IsTaken-eq :
      (cid : ℤ) (list : List Ctx) (id : ℕ)
      → eq_ℤ cid (pos id) ≡ true
      → view list id ≢ none
      → IsTaken cid list
  IsTaken-eq (pos j) list id e held = ground (arith, held)
  IsTaken-eq (negsuc n) list id e held = absurd (cc e)

  -- A write of the speed, behind its three tests.
  commanded-IsSafe :
      (apps : Apps) (is_speed is_byte is_controller : Bool) (speed : ℕ) (b : Board)
      → (is_controller ≡ true → HasController apps b)
      → IsSafe apps b
      → IsSafe apps (
          if not is_speed
          then b
          else (if not is_byte
              then b
              else (if not is_controller then b else ride_at drivers apps speed b)))
  commanded-IsSafe apps false is_byte is_controller speed b held safe = safe
  commanded-IsSafe apps true false is_controller speed b held safe = safe
  commanded-IsSafe apps true true false speed b held safe = safe
  commanded-IsSafe apps true true true speed b held safe =
      ride_at-IsSafe drivers apps apps speed b safe.hndl safe.running safe.signal (inr (held refl))

  written-IsSafe :
      (apps : Apps) (a i id attr_idx len : ℕ) (value : List ℕ) (b : Board)
      → find_conn id (contexts (apps.app a)) ≡ some i
      → IsSafe apps b
      → IsSafe apps (
          (services drivers a).app_conn_write apps
            (get_or (contexts (apps.app a)) i blank)
            attr_idx
            len
            value
            b)
  unfolding ctrl_conn_write
  written-IsSafe apps zero i id attr_idx len value b found safe = safe
  written-IsSafe apps (suc zero) i id attr_idx len value b found safe =
      let list = contexts (apps.app 1) in
      rw (conn_id-find_conn list i id found) (
        commanded-IsSafe apps (attr_idx == ctrl_speed_char_val) (len == 1) (eq_ℤ b.conn_id (pos id))
          (get_or value 0 0) b
          (λ e. IsTaken-eq b.conn_id list id e (λ free. cc (free, view-find_conn list i id found)))
          safe)
  written-IsSafe apps (suc (suc n)) i id attr_idx len value b found safe = safe

  pub on_write-IsSafe :
      (apps : Apps) (a handle id len : ℕ) (value : List ℕ) (b : Board)
      → IsSafe apps b
      → let r = on_write board_stack (services drivers) apps a handle id len value b in
        IsSafe r.0 r.1
  unfolding on_write
  on_write-IsSafe apps a handle id len value b safe =
      elim (Option-cases (find_index (λ h. h == handle) (handles (apps.app a)))) [
        | inl none_of ↦ rw (none_of, on_write) safe
        | inr (attr_idx, attr) ↦ elim (Option-cases (find_conn id (contexts (apps.app a)))) [
          | inl found ↦ rw (attr, found, on_write) safe
          | inr (i, found) ↦
              rw (attr, found, on_write)
                (written-IsSafe apps a i id attr_idx len value b found safe)
        ]
      ]

  contexts-set_if :
      (apps : Apps) (a gatts_if : ℕ)
      → contexts ((set_app apps a (record (apps.app a) { ble_if = gatts_if })).app 1)
        ≡ contexts (apps.app 1)
  unfolding set_app
  contexts-set_if apps a gatts_if = ground arith

  pub on_reg-IsSafe :
      (apps : Apps) (gatts_if app_id : ℕ) (b : Board)
      → IsSafe apps b
      → let r = on_reg board_stack (services drivers) apps gatts_if app_id b in IsSafe r.0 r.1
  unfolding on_reg
  on_reg-IsSafe apps gatts_if app_id b safe = elim (Bool-cases (leb apps.apps_num_max app_id)) [
    | inl ignored ↦ rw (ignored, on_reg) safe
    | inr tried ↦ elim (Option-cases (app_at apps app_id)) [
      | inl free ↦ rw (tried, free, on_reg) (missing-IsSafe apps b safe)
      | inr (a, given) ↦
          rw (tried, given, on_reg)
            (Same-IsSafe apps (set_app apps a (record (apps.app a) { ble_if = gatts_if })) b _
              (Same-done b (create_attr_tab gatts_if (apps.app a).attr_num) refl)
              (λ held. rw (contexts-set_if apps a gatts_if) held) safe)
    ]
  ]
