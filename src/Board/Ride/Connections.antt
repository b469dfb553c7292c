-- ===== src/Board/Ride/Connections.antt =====
-- lib/ble/esk8_ble_apps.c and ble_apps: the speed of the board over a connection that comes and one that goes.
use esk.Common.{
  ℕ, zero, suc, ◌≡◌, refl, inl, inr, Bool, true, false, List, [], ◌∷◌, some, Option-cases,
  if◌then◌else◌, get_or, set, arith, not,
}
use esk.Common.Int.{ℤ, pos, negsuc, ltb_ℤ}
use esk.Ble.Types.{Ctx, blank, Apps, set_app}
use esk.Ble.Table.{find_free, find_conn, set_conn}
use esk.Ble.Table.Laws.{view-set_new, view-set_other, conn_id-find_conn, set-set, get_or-set_free}
use esk.Ble.Handler.{contexts, set_contexts, on_connect, on_disconnect}
use esk.Onboard.{start_advertising}
use esk.Board.{
  Board, board_stack, done, eq_ℤ, Drivers, ride_at, ctrl_conn_add, ctrl_conn_del, auth_conn_add,
  services,
}
use esk.Board.Ride.{
  IsTaken, HasController, IsSafe, Same-IsSafe, advertising-IsSafe, disconnecting-IsSafe,
  IsTaken-set_free, HasController-other, ride_at-IsSafe,
}

module _ (drivers : Drivers) where
  -- A controller that stays or changes, each for one that is connected.
  controller-IsSafe :
      (apps apps' : Apps) (stays : Bool) (cid : ℤ) (b : Board)
      → (HasController apps b → HasController apps' b)
      → IsTaken cid (contexts (apps'.app 1))
      → IsSafe apps b
      → IsSafe apps' (if stays then b else record b { conn_id = cid })
  controller-IsSafe apps apps' true cid b keeps new safe =
      Same-IsSafe apps apps' b b (record { onboard = refl; duty = refl }) keeps safe
  controller-IsSafe apps apps' false cid b keeps new safe =
      Same-IsSafe apps apps' b (record b { conn_id = cid }) (record { onboard = refl; duty = refl })
        (λ held. new) safe

  -- A context that was free, set for a connection and handed to the callback.
  added-IsSafe :
      (apps : Apps) (a i id : ℕ) (b : Board) (c : Ctx)
      → find_free (contexts (apps.app a)) ≡ some i
      → c.conn_id ≡ pos id
      → IsSafe apps b
      → let list1 = set (contexts (apps.app a)) i c in
        let apps1 = set_contexts apps a list1 in
        let r = (services drivers a).app_conn_add apps1 (get_or list1 i blank) b in
        IsSafe (set_contexts apps a (set list1 i r.0)) r.1
  unfolding set_contexts set_app auth_conn_add ctrl_conn_add
  added-IsSafe apps zero i id b c found e safe =
      Same-IsSafe apps _ b b (record { onboard = refl; duty = refl }) (λ held. held) safe
  added-IsSafe apps (suc zero) i id b c found e safe =
      rw (get_or-set_free (contexts (apps.app 1)) i c found, set-set (contexts (apps.app 1)) i c c)
        (controller-IsSafe apps (set_contexts apps 1 (set (contexts (apps.app 1)) i c))
          (ltb_ℤ (pos 0) b.conn_id) c.conn_id b
          (IsTaken-set_free b.conn_id (contexts (apps.app 1)) i c found)
          (simp e (view-set_new (contexts (apps.app 1)) i id c found e)) safe)
  added-IsSafe apps (suc (suc n)) i id b c found e safe =
      Same-IsSafe apps _ b b (record { onboard = refl; duty = refl })
        (HasController-other apps n _ b) safe

  pub on_connect-IsSafe :
      (apps : Apps) (a id : ℕ) (b : Board)
      → IsSafe apps b
      → let r = on_connect board_stack (services drivers) apps a id b in IsSafe r.0 r.1
  unfolding on_connect set_conn
  on_connect-IsSafe apps a id b safe =
      let b1 = done b (start_advertising ∷ []) in
      let safe1 = advertising-IsSafe apps b safe in
      elim (Option-cases (find_free (contexts (apps.app a)))) [
        | inl found ↦ rw (found, on_connect) (disconnecting-IsSafe apps id b1 safe1)
        | inr (i, found) ↦
            rw (found, on_connect)
              (added-IsSafe apps a i id b1
                (record (get_or (contexts (apps.app a)) i blank) { conn_id = pos id }) found refl
                safe1)
      ]

  IsTaken-set_conn :
      (cid : ℤ) (list : List Ctx) (i id : ℕ) (c : Ctx)
      → find_conn id list ≡ some i
      → eq_ℤ (pos id) cid ≡ false
      → IsTaken cid list
      → IsTaken cid (set list i c)
  IsTaken-set_conn (pos j) list i id c found ne = view-set_other list i id j c found (ground arith)
  IsTaken-set_conn (negsuc n) list i id c found ne = λ held. held

  -- The end of the controller's connection, or of another one.
  removed-IsSafe :
      (apps apps' : Apps) (is_controller : Bool) (b : Board)
      → (is_controller ≡ false → HasController apps b → HasController apps' b)
      → IsSafe apps b
      → IsSafe apps' (
          if not is_controller then b else ride_at drivers apps 0 (record b { conn_id = negsuc 0 }))
  removed-IsSafe apps apps' true b keeps safe =
      ride_at-IsSafe drivers apps apps' 0 (record b { conn_id = negsuc 0 }) safe.hndl safe.running
        safe.signal (inl refl)
  removed-IsSafe apps apps' false b keeps safe =
      Same-IsSafe apps apps' b b (record { onboard = refl; duty = refl }) (keeps refl) safe

  -- A context that is freed behind the callback.
  deleted-IsSafe :
      (apps : Apps) (a i id : ℕ) (b : Board)
      → find_conn id (contexts (apps.app a)) ≡ some i
      → IsSafe apps b
      → let list = contexts (apps.app a) in
        let r = (services drivers a).app_conn_del apps (get_or list i blank) b in
        IsSafe (set_contexts apps a (set_conn (set list i r.0) i (negsuc 0))) r.1
  unfolding set_contexts set_app ctrl_conn_del set_conn
  deleted-IsSafe apps zero i id b found safe =
      Same-IsSafe apps _ b b (record { onboard = refl; duty = refl }) (λ held. held) safe
  deleted-IsSafe apps (suc zero) i id b found safe =
      let list = contexts (apps.app 1) in
      let x = get_or list i blank in
      let freed_ctx = record (get_or (set list i x) i blank) { conn_id = negsuc 0 } in
      rw (set-set list i x freed_ctx, conn_id-find_conn list i id found)
        (removed-IsSafe apps (set_contexts apps 1 (set list i freed_ctx)) (eq_ℤ (pos id) b.conn_id)
          b (λ ne. IsTaken-set_conn b.conn_id list i id freed_ctx found ne) safe)
  deleted-IsSafe apps (suc (suc n)) i id b found safe =
      Same-IsSafe apps _ b b (record { onboard = refl; duty = refl })
        (HasController-other apps n _ b) safe

  pub on_disconnect-IsSafe :
      (apps : Apps) (a id : ℕ) (b : Board)
      → IsSafe apps b
      → let r = on_disconnect board_stack (services drivers) apps a id b in IsSafe r.0 r.1
  unfolding on_disconnect
  on_disconnect-IsSafe apps a id b safe =
      let b1 = done b (start_advertising ∷ []) in
      let safe1 = advertising-IsSafe apps b safe in
      elim (Option-cases (find_conn id (contexts (apps.app a)))) [
        | inl found ↦ rw (found, on_disconnect) safe1
        | inr (i, found) ↦ rw (found, on_disconnect) (deleted-IsSafe apps a i id b1 found safe1)
      ]
