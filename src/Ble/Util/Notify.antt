-- ===== src/Ble/Util/Notify.antt =====
-- lib/ble/esk8_ble_apps_util.c: who is notified.
use esk.Common.{
  ℕ, zero, suc, ◌≡◌, refl, List, [], ◌∷◌, none, some, map, arith, ◌==◌, ltb, if◌then◌else◌, length,
  get_or, get_elem?,
}
use esk.Common.Int.{ℤ, pos, negsuc}
use esk.Err.{ok, err_invalid_param}
use esk.Ble.Types.{Ctx, live, App, Apps}
use esk.Ble.Table.Laws.{view, IsDistinct}
use esk.Ble.Util.{
  returned, fault, send_indicate, set_attr_value, element, update, notify_each, notify_all,
}

-- The connections of a table, in its order.
abbrev pub with_id : ℤ → List ℕ → List ℕ
with_id (pos id) ids = id ∷ ids
with_id (negsuc n) ids = ids

unfoldable pub connected : List Ctx → List ℕ
connected [] = []
connected (c ∷ cs) = with_id c.conn_id (connected cs)

notify_each-map :
    (ble_if h : ℕ) (val : List ℕ) (list : List Ctx)
    → notify_each ble_if (some h) val list
      ≡ returned ok (map (λ id. send_indicate ble_if id h val) (connected list))
unfolding notify_each connected
notify_each-map ble_if h val [] = refl
notify_each-map ble_if h val (c ∷ cs) = ground (arith, notify_each-map ble_if h val cs)

-- How often a connection stands in a list.
unfoldable pub times : ℕ → List ℕ → ℕ
times id [] = 0
times id (x ∷ xs) = let rest = times id xs in if x == id then suc rest else rest

times-connected-none :
    (list : List Ctx) (id : ℕ) → view list id ≡ none → times id (connected list) ≡ 0
unfolding times connected view
times-connected-none [] id free = refl
times-connected-none (c ∷ cs) id free = ground (arith, times-connected-none cs id)

times-connected :
    (list : List Ctx) (id : ℕ)
    → IsDistinct list
    → times id (connected list) ≡ elim (view list id) [ none ↦ 0 | some c ↦ 1 ]
unfolding times connected view
times-connected [] id d = refl
times-connected (c ∷ cs) id d =
    ground (arith, times-connected cs id d.1, times-connected-none cs id, d.0 id)

-- A service that is registered, with a context for each connection and a handle for the attribute, sends one
-- notification of the value to each connection that has a context, and none to any other.
pub notify_all-connected :
    (apps : Apps) (app : App) (attr_idx h : ℕ) (val : List ℕ) (list : List Ctx)
    → app.conn_ctx_list ≡ live list
    → element app.attr_hndl_list attr_idx ≡ some h
    → IsDistinct list
    → (notify_all apps app attr_idx val
        ≡ returned ok (map (λ id. send_indicate app.ble_if id h val) (connected list)))
      × ((id : ℕ) → times id (connected list) ≡ elim (view list id) [ none ↦ 0 | some c ↦ 1 ])
unfolding notify_all
notify_all-connected apps app attr_idx h val list live_list handle d = (
  (rw (live_list, handle) (notify_each-map app.ble_if h val list)),
  λ id. times-connected list id d,
)

get_elem?-within :
    (xs : List ℕ) (i : ℕ)
    → get_elem? xs i ≡ (if ltb i (length xs) then some (get_or xs i 0) else none)
get_elem?-within [] i = ground arith
get_elem?-within (x ∷ xs) zero = ground arith
get_elem?-within (x ∷ xs) (suc i) = ground (arith, get_elem?-within xs i)

-- A service that is registered sets the value of its attribute in the stack's table, under its handle, and
-- refuses an index behind its attributes, but for the first such index: there it reads past its handles.
pub update-bounds :
    (app : App) (attr_idx : ℕ) (val ids : List ℕ) (list : List Ctx)
    → app.conn_ctx_list ≡ live list
    → app.attr_hndl_list ≡ live ids
    → length ids ≡ app.attr_num
    → update app attr_idx val ≡ (
        if ltb attr_idx app.attr_num
        then returned ok (set_attr_value (get_or ids attr_idx 0) val ∷ [])
        else (if attr_idx == app.attr_num then fault else returned err_invalid_param []))
unfolding update
update-bounds app attr_idx val ids list live_list live_ids len =
    rw (live_list, live_ids, get_elem?-within ids attr_idx, len) ground arith
