-- ===== src/Onboard/Batteries/Returns.antt =====
-- lib/onboard/esk8_onboard_bms.c: a round of the task over batteries that answer in full.
use esk.Common.{
  ℕ, ◌<◌, ◌≡◌, ◌≢◌, refl, Bool, true, false, List, [], ◌∷◌, Option, some, arith, leb, ltb,
  if◌then◌else◌,
}
use esk.Common.Int.{ℤ, pos, negsuc}
use esk.Err.{Err}
use esk.Bms.Driver.{UartDriver}
use esk.Bms.Query.{Outcome, replied, gave_up, addr_bms, get_data_with_response}
use esk.Bms.Query.Returns.{Answers, get_data-ne-fault}
use esk.Bms.Status.{Field, Reading, complete, stopped, read_fields, publish, store_at}
use esk.Ble.Types.{Ctx, live, App, Apps}
use esk.Ble.Util.{Sent, Update, returned, fault, element, update, notify_each, notify_all, is_null}
use esk.Ble.Status.{
  Values, conf_num, bms_shallow_char_val, bms_deep_char_val, message, drop_result, set_shallow,
  notify_bms, status_bms_shallow, status_bms_deep,
}
use esk.Onboard.Batteries.{left_by, sent_by}

-- A reading that leaves its structure.
abbrev pub Returns : {A : Type 0} → Option A → Type 0
Returns {A} o = (x : A) × (o ≡ some x)

module _ (d : UartDriver) (answers : Answers d) where
  open d use {Port}

  pub read_fields-left_by :
      (size : ℕ → ℕ) (uart_port : ℕ) (fs : List Field) (mem : List ℕ) (p : Port)
      → Returns (left_by (read_fields d size uart_port fs mem p).1)
  unfolding read_fields left_by
  read_fields-left_by size uart_port [] mem p = (_, refl)
  read_fields-left_by size uart_port (f ∷ fs) mem p =
      let r = get_data_with_response d uart_port addr_bms f.reg (size f.reg) p in
      answered r.1 (get_data-ne-fault d uart_port addr_bms f.reg (size f.reg) p answers)
        (λ bytes. read_fields-left_by size uart_port fs (store_at mem f.offset bytes) r.0)
    where
      answered :
          (o : Outcome)
          → o ≢ Outcome.fault
          → ((bytes : List ℕ)
              → Returns (
                  left_by
                    (read_fields d size uart_port fs
                      (store_at mem f.offset bytes)
                      (get_data_with_response d uart_port addr_bms f.reg (size f.reg) p).0).1))
          → Returns (
              left_by
                (elim o as (λ o. Port × Reading) [
                  | replied bytes ↦
                      read_fields d size uart_port fs
                        (store_at mem f.offset bytes)
                        (get_data_with_response d uart_port addr_bms f.reg (size f.reg) p).0
                  | gave_up err ↦ (
                    (get_data_with_response d uart_port addr_bms f.reg (size f.reg) p).0,
                    stopped err mem,
                  )
                  | Outcome.fault ↦ (
                    (get_data_with_response d uart_port addr_bms f.reg (size f.reg) p).0,
                    Reading.fault,
                  )
                ]).1)
      answered (replied bytes) ne rest = rest bytes
      answered (gave_up err) ne rest = (_, refl)
      answered Outcome.fault ne rest = absurd (ne refl)

  pub publish-left_by :
      (out_status : List ℕ) (r : Port × Reading)
      → Returns (left_by r.1)
      → Returns (left_by (publish d out_status r).1)
  unfolding publish left_by
  publish-left_by out_status (p, complete out) left = (_, refl)
  publish-left_by out_status (p, stopped err out) left = (_, refl)
  publish-left_by out_status (p, Reading.fault) left = absurd (cc left.1)

-- A service that is registered, with a handle for the attribute.
pub record IsServed (app : App) : Type 0 where
  pub list : List Ctx
  pub contexts : app.conn_ctx_list ≡ live list
  pub shallow : ℕ
  pub shallow_handle : element app.attr_hndl_list bms_shallow_char_val ≡ some shallow
  pub deep : ℕ
  pub deep_handle : element app.attr_hndl_list bms_deep_char_val ≡ some deep

-- A call that comes back.
abbrev pub IsReturned : Update → Type 0
IsReturned (returned err sent) = Unit {0}
IsReturned fault = ⊥

if-IsReturned :
    (t : Bool) (a b : Update) → IsReturned a → IsReturned b → IsReturned (if t then a else b)
if-IsReturned true a b ha hb = ha
if-IsReturned false a b ha hb = hb

drop_result-IsReturned : (a b : Update) → IsReturned a → IsReturned b → IsReturned (drop_result a b)
unfolding drop_result
drop_result-IsReturned (returned err sent) (returned err' more) ha hb = tt
drop_result-IsReturned (returned err sent) fault ha hb = hb
drop_result-IsReturned fault b ha hb = ha

notify_each-IsReturned :
    (ble_if handle : ℕ) (val : List ℕ) (list : List Ctx)
    → IsReturned (notify_each ble_if (some handle) val list)
unfolding notify_each
notify_each-IsReturned ble_if handle val [] = tt
notify_each-IsReturned ble_if handle val (c ∷ cs) =
    each c.conn_id (notify_each ble_if (some handle) val cs)
      (notify_each-IsReturned ble_if handle val cs)
  where
    each :
        (cid : ℤ) (rest : Update)
        → IsReturned rest
        → IsReturned (elim cid [
          | negsuc n ↦ rest
          | pos conn_id ↦ elim rest [
            | fault ↦ Update.fault
            | returned err sent ↦ returned err (Sent.send_indicate ble_if conn_id handle val ∷ sent)
          ]
        ])
    each (negsuc n) rest h = h
    each (pos n) (returned err sent) h = tt
    each (pos n) fault h = h

pub IsReturned-sent_by : (u : Update) → IsReturned u → Returns (sent_by u)
unfolding sent_by
IsReturned-sent_by (returned err sent) h = (sent, refl)
IsReturned-sent_by fault h = absurd h

module _ (apps : Apps) (app : App) (served : IsServed app) where
  notify_all-IsReturned :
      (attr_idx handle : ℕ) (val : List ℕ)
      → element app.attr_hndl_list attr_idx ≡ some handle
      → IsReturned (notify_all apps app attr_idx val)
  unfolding notify_all
  notify_all-IsReturned attr_idx handle val e =
      rw (served.contexts, e) (notify_each-IsReturned app.ble_if handle val served.list)

  notify_bms-IsReturned :
      (attr_idx handle : ℕ) (allocated : Bool) (err : Err) (i : ℕ)
      → element app.attr_hndl_list attr_idx ≡ some handle
      → IsReturned (notify_bms apps app attr_idx allocated err i)
  unfolding notify_bms
  notify_bms-IsReturned attr_idx handle allocated err i e =
      if-IsReturned allocated _ _ (notify_all-IsReturned attr_idx handle (message err i) e) tt

  set_shallow-IsReturned : (bytes : List ℕ) → IsReturned (set_shallow app bytes)
  unfolding set_shallow
  set_shallow-IsReturned bytes =
      if-IsReturned (is_null app.attr_hndl_list) _ _ tt (rw served.shallow_handle tt)

  update-IsReturned : (val : List ℕ) → IsReturned (update app bms_deep_char_val val)
  unfolding update
  update-IsReturned val =
      if-IsReturned (ltb app.attr_num bms_deep_char_val) _ _ tt
        (if-IsReturned (is_null app.conn_ctx_list) _ _ tt (rw served.deep_handle tt))

  pub status_bms_shallow-IsReturned :
      (allocated : Bool) (stat : List ℕ) (err : Err) (i : ℕ) (values : Values)
      → i < conf_num
      → IsReturned (status_bms_shallow apps app allocated stat err i values).1
  unfolding status_bms_shallow
  status_bms_shallow-IsReturned allocated stat err i values lt =
      let within : leb conf_num i ≡ false = ground arith in
      rw within (
        drop_result-IsReturned _ _ (set_shallow-IsReturned _) (
          notify_bms-IsReturned bms_shallow_char_val served.shallow allocated err i
            served.shallow_handle))

  pub status_bms_deep-IsReturned :
      (allocated : Bool) (stat : List ℕ) (err : Err) (i : ℕ) (values : Values)
      → i < conf_num
      → IsReturned (status_bms_deep apps app allocated stat err i values).1
  unfolding status_bms_deep
  status_bms_deep-IsReturned allocated stat err i values lt =
      let within : leb conf_num i ≡ false = ground arith in
      rw within (
        drop_result-IsReturned _ _ (update-IsReturned _)
          (notify_bms-IsReturned bms_deep_char_val served.deep allocated err i served.deep_handle))
