-- ===== src/Ble/Apps.antt =====
-- lib/ble/esk8_ble_apps.c: `esk8_ble_apps_init`, `esk8_ble_app_register` and `esk8_ble_apps_deinit`.
-- `none` is a call that does not return: an `ESP_ERROR_CHECK` that restarts the board, or a use of memory that is not
-- there.
pub mod Slots
use esk.Common.{
  ℕ, zero, suc, ◌+◌, Bool, true, false, not, List, [], ◌∷◌, Option, none, some, ◌==◌, if◌then◌else◌,
  set, replicate,
}
use esk.Common.Int.{ℤ, pos, negsuc}
use esk.Err.{
  Err, ok, err_oom, failed, ble_init_reinit, ble_init_noinit, ble_init_maxreg, nvs_not_available,
}
use esk.Ble.Types.{Ctx, blank, Memory, null, freed, live, App, Apps, set_app, Callbacks, Stack}
use esk.Ble.Table.{find_index, is_free}

-- Whether the checks of `esk8_ble_apps_init` pass: that of `nvs_flash_erase`, if it is called, and those of the calls
-- that set Bluetooth up.
pub record Checks : Type 0 where
  pub erased : Bool
  pub set_up : Bool

-- `esk8_ble_apps_init`: `nvs_err` is what the last call of `nvs_flash_init` returns, `nvs` what
-- `esk8_nvs_init` does, and `allocated` whether `calloc` gives the list.
unfoldable pub apps_init : Checks → ℕ → Err → Bool → ℕ → ℕ → Apps → Option (Apps × Err)
apps_init checks nvs_err nvs allocated n_apps_max n_conn_max apps =
    let sized = record apps { apps_num_max = n_apps_max; conn_num_max = n_conn_max } in
    elim apps.apps_list [
      | some list ↦ some (apps, ble_init_reinit)
      | none ↦
          if not checks.erased
          then none
          else (if not (nvs_err == 0)
              then some (apps, nvs_not_available)
              else (if not checks.set_up
                  then none
                  else (if failed nvs
                      then some (apps, nvs)
                      else (if allocated
                          then some
                              (record sized { apps_list = some (replicate n_apps_max none) }, ok)
                          else some (sized, err_oom)))))
    ]

abbrev pub is_empty : Option ℕ → Bool
is_empty none = true
is_empty (some a) = false

-- The first slot that is `NULL`.
unfoldable pub find_slot : List (Option ℕ) → Option ℕ
unfolding find_index
find_slot = find_index is_empty

-- What `calloc` gives for the handles and for the contexts, and whether the check of `esp_ble_gatts_app_register`
-- passes.
pub record Given : Type 0 where
  pub handles : Bool
  pub contexts : Bool
  pub registered : Bool

-- The slot of the list taken, the two lists of the application allocated.
abbrev pub fill : Apps → List (Option ℕ) → ℕ → ℕ → App → Apps
fill apps list i a x = set_app (record apps { apps_list = some (set list i (some a)) }) a x

module _ {S : Type 0} (stack : Stack S) where
  -- The body of the loop at the slot that is found.
  unfoldable pub take_slot : Given → Apps → List (Option ℕ) → ℕ → ℕ → S → Option (Apps × Err × S)
  unfolding set_app
  take_slot given apps list i a s =
      let x = apps.app a in
      let full = record x {
        attr_hndl_list = live (replicate x.attr_num 0);
        conn_ctx_list = live (replicate apps.conn_num_max blank);
      } in
      if not given.handles
      then some (fill apps list i a (record x { attr_hndl_list = null }), err_oom, s)
      else (if not given.contexts
          then some (
            fill apps list i a (record x { attr_hndl_list = freed; conn_ctx_list = null }),
            err_oom,
            s,
          )
          else (if not given.registered
              then none
              else some (
                record (fill apps list i a full) { curr_app_id = suc apps.curr_app_id },
                ok,
                stack.app_register apps.curr_app_id s,
              )))

  -- `esk8_ble_app_register`
  unfoldable pub app_register : Given → ℕ → Apps → S → Option (Apps × Err × S)
  unfolding take_slot
  app_register given a apps s = elim apps.apps_list [
    | none ↦ some (apps, ble_init_noinit, s)
    | some list ↦ elim (find_slot list) [
      | none ↦ some (apps, ble_init_maxreg, s)
      | some i ↦ take_slot given apps list i a s
    ]
  ]

module _ {S : Type 0} (callbacks : ℕ → Callbacks S) where
  -- `app_conn_del` for each context that is taken, which it may change.
  unfoldable pub delete_contexts : Apps → ℕ → List Ctx → S → S
  delete_contexts apps a [] s = s
  delete_contexts apps a (c ∷ cs) s =
      if is_free c
      then delete_contexts apps a cs s
      else delete_contexts apps a cs ((callbacks a).app_conn_del apps c s).1

  -- The inner loop, which reads the list of contexts if there is a context to read.
  abbrev pub delete_list : Apps → ℕ → Memory Ctx → S → Option S
  delete_list apps a (live list) s = some (delete_contexts apps a list s)
  delete_list apps a null s = if apps.conn_num_max == 0 then some s else none
  delete_list apps a freed s = if apps.conn_num_max == 0 then some s else none

  -- The loop over the applications of the list. It frees their lists, and leaves the pointers to them.
  unfoldable pub deinit_slots : Apps → List (Option ℕ) → S → Option (Apps × S)
  unfolding delete_contexts set_app
  deinit_slots apps [] s = some (apps, s)
  deinit_slots apps (none ∷ slots) s = deinit_slots apps slots s
  deinit_slots apps (some a ∷ slots) s =
      let x = apps.app a in
      elim (delete_list apps a x.conn_ctx_list s) [
        | none ↦ none
        | some s1 ↦
            deinit_slots
              (set_app apps a (record x { attr_hndl_list = freed; conn_ctx_list = freed })) slots
              ((callbacks a).app_deinit apps s1)
      ]

  -- `esk8_ble_apps_deinit`
  unfoldable pub apps_deinit : Apps → S → Option (Apps × Err × S)
  unfolding deinit_slots
  apps_deinit apps s = elim apps.apps_list [
    | none ↦ some (apps, ble_init_noinit, s)
    | some list ↦ elim (deinit_slots apps list s) [
      | none ↦ none
      | some r ↦ some (
        record r.0 { apps_list = none; apps_num_max = 0; conn_num_max = 0; curr_app_id = 0 },
        ok,
        r.1,
      )
    ]
  ]
