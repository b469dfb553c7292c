-- ===== src/Board/Ride/Takeover.antt =====
-- lib/ble/ble_apps/app_ble_srvc_ctrl.c: the connection that controls the board, when another one comes.
use esk.Common.{ℕ, zero, suc, ◌≡◌, refl, ap, ◌∙◌, [], ◌∷◌, some, get_or, true, false, arith}
use esk.Common.Int.{ℤ, pos, negsuc, ltb_ℤ}
use esk.Onboard.{start_advertising}
use esk.Ble.Types.{Ctx, blank, Apps}
use esk.Ble.Table.{find_free, set_conn}
use esk.Ble.Table.Laws.{get_or-set_free}
use esk.Ble.Handler.{contexts, on_connect}
use esk.Board.{Board, board_stack, done, Drivers, ctrl_conn_add, services}

-- The controller behind a connection: only one with a number above 0 stays.
abbrev pub takes_over : ℤ → ℕ → ℤ
takes_over (pos (suc n)) id = pos (suc n)
takes_over (pos zero) id = pos id
takes_over (negsuc n) id = pos id

module _ (drivers : Drivers) where
  ctrl_conn_add-takes_over :
      (apps : Apps) (c : Ctx) (cid : ℤ) (id : ℕ) (b : Board)
      → c.conn_id ≡ pos id
      → b.conn_id ≡ cid
      → (ctrl_conn_add drivers apps c b).1.conn_id ≡ takes_over cid id
  unfolding ctrl_conn_add
  ctrl_conn_add-takes_over apps c (pos (suc n)) id b e at =
      let above : ltb_ℤ (pos 0) (pos (suc n)) ≡ true = ground arith in
      let stays : ltb_ℤ (pos 0) b.conn_id ≡ true = ap (ltb_ℤ (pos 0)) at ∙ above in rw stays at
  ctrl_conn_add-takes_over apps c (pos zero) id b e at =
      let goes : ltb_ℤ (pos 0) b.conn_id ≡ false = ap (ltb_ℤ (pos 0)) at ∙ refl in rw goes e
  ctrl_conn_add-takes_over apps c (negsuc n) id b e at =
      let below : ltb_ℤ (pos 0) (negsuc n) ≡ false = ground arith in
      let goes : ltb_ℤ (pos 0) b.conn_id ≡ false = ap (ltb_ℤ (pos 0)) at ∙ below in rw goes e

  -- A connection that comes to the control service, with a context free for it, takes the board over from a
  -- controller whose number is 0 as it does when there is none; a controller with another number stays.
  pub on_connect-takes_over :
      (apps : Apps) (b : Board) (id i : ℕ)
      → find_free (contexts (apps.app 1)) ≡ some i
      → (on_connect board_stack (services drivers) apps 1 id b).1.conn_id ≡ takes_over b.conn_id id
  unfolding on_connect set_conn
  on_connect-takes_over apps b id i found =
      let list = contexts (apps.app 1) in
      let taken : Ctx = record (get_or list i blank) { conn_id = pos id } in
      rw (found, on_connect)
        (ctrl_conn_add-takes_over _ _ b.conn_id id (done b (start_advertising ∷ []))
          (ap (λ c. c.conn_id) (get_or-set_free list i taken found)) refl)
