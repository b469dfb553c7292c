-- ===== src/Ble/Attr/Updates.antt =====
-- lib/ble/ble_apps/app_ble_srvc_status.c: the updates that are made, beside the table of attributes.
use esk.Common.{
  ℕ, ◌≡◌, refl, Bool, true, false, List, [], ◌∷◌, ◌++◌, Option, none, some, inl, inr, length,
  get_elem?, Option-cases, ltb, ◌==◌, if◌then◌else◌,
}
use esk.Err.{ok, failed}
use esk.Common.Int.{ℤ, pos, negsuc}
use esk.Ble.Types.{Memory, null, freed, live, App, Apps, Ctx}
use esk.Ble.Util.{
  Sent, set_attr_value, send_indicate, Update, returned, fault, element, update, notify_each,
  notify_all, is_null,
}
use esk.Ble.Status.{then_update, drop_result}
use esk.Ble.Attr.{Attr}

-- A value that is set is as long as the memory of its attribute, whose handle it names.
abbrev pub Fits : List Attr → App → Sent → Type 0
Fits table app (set_attr_value handle bytes) =
    (i : ℕ) × ((attr : Attr) × ((element app.attr_hndl_list i ≡ some handle)
        × ((get_elem? table i ≡ some attr) × (length bytes ≡ attr.length))))
Fits table app (send_indicate ble_if conn_id handle bytes) = Unit {0}

abbrev pub AllFit : List Attr → App → List Sent → Type 0
AllFit table app [] = Unit {0}
AllFit table app (x ∷ xs) = Fits table app x × AllFit table app xs

abbrev pub UpdateFits : List Attr → App → Update → Type 0
UpdateFits table app (returned err sent) = AllFit table app sent
UpdateFits table app fault = Unit {0}

pub AllFit-append :
    (table : List Attr) (app : App) (xs ys : List Sent)
    → AllFit table app xs
    → AllFit table app ys
    → AllFit table app (xs ++ ys)
AllFit-append table app [] ys hx hy = hy
AllFit-append table app (x ∷ xs) ys hx hy = (hx.0, AllFit-append table app xs ys hx.1 hy)

module _ (table : List Attr) (app : App) where
  pub if-UpdateFits :
      (t : Bool) (a b : Update)
      → UpdateFits table app a
      → UpdateFits table app b
      → UpdateFits table app (if t then a else b)
  if-UpdateFits true a b ha hb = ha
  if-UpdateFits false a b ha hb = hb

  pub then_update-UpdateFits :
      (a b : Update)
      → UpdateFits table app a
      → UpdateFits table app b
      → UpdateFits table app (then_update a b)
  unfolding then_update
  then_update-UpdateFits fault b ha hb = tt
  then_update-UpdateFits (returned err sent) fault ha hb =
      if-UpdateFits (failed err) (returned err sent) fault ha tt
  then_update-UpdateFits (returned err sent) (returned err' more) ha hb =
      if-UpdateFits (failed err) (returned err sent) (returned err' (sent ++ more)) ha
        (AllFit-append table app sent more ha hb)

  pub drop_result-UpdateFits :
      (a b : Update)
      → UpdateFits table app a
      → UpdateFits table app b
      → UpdateFits table app (drop_result a b)
  unfolding drop_result
  drop_result-UpdateFits fault b ha hb = tt
  drop_result-UpdateFits (returned err sent) fault ha hb = tt
  drop_result-UpdateFits (returned err sent) (returned err' more) ha hb =
      AllFit-append table app sent more ha hb

  -- A round of the loop in front of the others.
  abbrev round : ℕ → Option ℕ → List ℕ → ℤ → Update → Update
  round ble_if handle val (negsuc n) rest = rest
  round ble_if none val (pos c) rest = fault
  round ble_if (some h) val (pos c) fault = fault
  round ble_if (some h) val (pos c) (returned err sent) =
      returned err (send_indicate ble_if c h val ∷ sent)

  pub round-UpdateFits :
      (ble_if : ℕ) (handle : Option ℕ) (val : List ℕ) (conn_id : ℤ) (rest : Update)
      → UpdateFits table app rest
      → UpdateFits table app (round ble_if handle val conn_id rest)
  round-UpdateFits ble_if handle val (negsuc n) rest h = h
  round-UpdateFits ble_if none val (pos c) rest h = tt
  round-UpdateFits ble_if (some hndl) val (pos c) fault h = tt
  round-UpdateFits ble_if (some hndl) val (pos c) (returned err sent) h = (tt, h)

  notify_each-round :
      (ble_if : ℕ) (handle : Option ℕ) (val : List ℕ) (ctx : ℕ) (conn_id : ℤ) (cs : List Ctx)
      → notify_each ble_if handle val (record { conn_id = conn_id; ctx = ctx } ∷ cs)
        ≡ round ble_if handle val conn_id (notify_each ble_if handle val cs)
  unfolding notify_each
  notify_each-round ble_if handle val ctx (negsuc n) cs = refl
  notify_each-round ble_if none val ctx (pos c) cs = refl
  notify_each-round ble_if (some h) val ctx (pos c) cs =
      elim (notify_each ble_if (some h) val cs)
        as (λ rest.
          elim rest [
            | returned err sent ↦ returned err (send_indicate ble_if c h val ∷ sent)
            | fault ↦ Update.fault
          ]
          ≡ round ble_if (some h) val (pos c) rest) [ fault ↦ refl | returned err sent ↦ refl ]

  pub notify_each-UpdateFits :
      (ble_if : ℕ) (handle : Option ℕ) (val : List ℕ) (list : List Ctx)
      → UpdateFits table app (notify_each ble_if handle val list)
  unfolding notify_each
  notify_each-UpdateFits ble_if handle val [] = tt
  notify_each-UpdateFits ble_if handle val (c ∷ cs) =
      rw (notify_each-round ble_if handle val c.ctx c.conn_id cs) (
        round-UpdateFits ble_if handle val c.conn_id (notify_each ble_if handle val cs)
          (notify_each-UpdateFits ble_if handle val cs))

  notify_all_at :
      (apps : Apps) (attr_idx : ℕ) (val : List ℕ) (contexts : Memory Ctx)
      → app.conn_ctx_list ≡ contexts
      → UpdateFits table app (notify_all apps app attr_idx val)
  unfolding notify_all
  notify_all_at apps attr_idx val (live list) e =
      rw e (notify_each-UpdateFits app.ble_if (element app.attr_hndl_list attr_idx) val list)
  notify_all_at apps attr_idx val null e =
      rw e (if-UpdateFits (apps.conn_num_max == 0) (returned ok []) fault tt tt)
  notify_all_at apps attr_idx val freed e =
      rw e (if-UpdateFits (apps.conn_num_max == 0) (returned ok []) fault tt tt)

  pub notify_all-UpdateFits :
      (apps : Apps) (attr_idx : ℕ) (val : List ℕ)
      → UpdateFits table app (notify_all apps app attr_idx val)
  notify_all-UpdateFits apps attr_idx val = notify_all_at apps attr_idx val app.conn_ctx_list refl

  pub update-UpdateFits :
      (attr_idx : ℕ) (val : List ℕ) (attr : Attr)
      → get_elem? table attr_idx ≡ some attr
      → length val ≡ attr.length
      → UpdateFits table app (update app attr_idx val)
  unfolding update
  update-UpdateFits attr_idx val attr at fits = if-UpdateFits (ltb app.attr_num attr_idx) _ _ tt (
      if-UpdateFits (is_null app.conn_ctx_list) _ _ tt
        (elim (Option-cases (element app.attr_hndl_list attr_idx)) [
          | inl none_eq ↦ rw none_eq tt
          | inr (hndl, eq) ↦ rw eq ((attr_idx, (attr, (eq, (at, fits)))), tt)
        ]))
