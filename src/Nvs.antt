-- ===== src/Nvs.antt =====
-- lib/nvs/e_ride_nvs_settings.c: the settings, in memory and in the flash.
-- A setting's value is `NULL` or its memory: the code sets it to nothing else.
pub mod Settings
pub mod Restart
pub mod Start
use esk.Common.{
  ℕ, zero, suc, Bool, true, false, not, List, [], ◌∷◌, Option, none, some, map, ltb, leb, ◌==◌,
  ◌||◌, if◌then◌else◌, get_elem?, set, take,
}
use esk.Err.{
  Err, ok, err_oom, nvs_not_init, nvs_not_available, nvs_no_idx, nvs_no_val, nvs_err_write,
}

-- `esk8_nvs_val_idx_t`; a key is the number of its setting.
abbrev pub auth_hash : ℕ
auth_hash = 0

abbrev pub idx_max : ℕ
idx_max = 3

abbrev pub nvs_len : ℕ → ℕ
nvs_len zero = 32
nvs_len (suc zero) = 4
nvs_len (suc (suc n)) = 6

-- What changes of `esk8_nvs_setting_t`: `__nvs_mem`, where `none` is `NULL`, and whether `nvs_val` is not `NULL`.
pub record Setting : Type 0 where
  pub nvs_mem : Option (List ℕ)
  pub has_val : Bool

abbrev pub no_setting : Setting
no_setting = record { nvs_mem = none; has_val = false }

-- `esk8_nvs_handle` and `esk8_nvs_setting_list`
pub record Nvs : Type 0 where
  pub handle : ℕ
  pub settings : List Setting

abbrev pub at_boot : Nvs
at_boot = record { handle = 0; settings = no_setting ∷ no_setting ∷ no_setting ∷ [] }

-- The flash library. A result is an `esp_err_t`, 0 for success; `get_len` is `nvs_get_blob` without memory,
-- `get_blob` gives what it leaves in the memory, and the value of `set_blob` may be `NULL`.
pub record Flash (F : Type 0) : Type 0 where
  pub no_free_pages : ℕ
  pub new_version_found : ℕ
  pub flash_init : F → ℕ × F
  pub flash_erase : F → ℕ × F
  pub open_storage : F → ℕ × ℕ × F
  pub get_len : ℕ → ℕ → F → ℕ × ℕ
  pub get_blob : ℕ → ℕ → List ℕ → F → ℕ × List ℕ
  pub set_blob : ℕ → ℕ → Option (List ℕ) → ℕ → F → ℕ × F
  pub commit : ℕ → F → ℕ × F

-- `esk8_nvs_settings_deinit`
abbrev pub free_setting : Setting → Setting
free_setting s = no_setting

unfoldable pub settings_deinit : Nvs → Nvs
settings_deinit n = record n { settings = map free_setting n.settings }

unfoldable pub settings_get : Nvs → ℕ → Err × Option (List ℕ)
settings_get n idx =
    if n.handle == 0 then (nvs_not_init, none) else elim (get_elem? n.settings idx) [
      | none ↦ (nvs_no_idx, none)
      | some s ↦ elim s.nvs_mem [
        | none ↦ (nvs_no_val, none)
        | some bytes ↦
            if s.has_val then (ok, some (take (nvs_len idx) bytes)) else (nvs_no_val, none)
      ]
    ]

-- The memory behind `memcpy`.
abbrev pub copied : ℕ → List ℕ → Setting
copied idx val = record { nvs_mem = some (take (nvs_len idx) val); has_val = true }

-- `esk8_nvs_settings_set`, of a value of at least as many bytes as the setting's. `none` is a write to `NULL`.
unfoldable pub settings_set : Nvs → ℕ → List ℕ → Option (Nvs × Err)
settings_set n idx val =
    if n.handle == 0 then some (n, nvs_not_init) else elim (get_elem? n.settings idx) [
      | none ↦ some (n, nvs_no_idx)
      | some s ↦ elim s.nvs_mem [
        | none ↦ none
        | some bytes ↦ some (record n { settings = set n.settings idx (copied idx val) }, ok)
      ]
    ]

-- `nvs_val`
abbrev pub val_of : Setting → Option (List ℕ)
val_of s = if s.has_val then s.nvs_mem else none

module _ {F : Type 0} (flash : Flash F) where
  -- The writes of all settings, up to the first that fails.
  unfoldable pub write_all : ℕ → ℕ → List Setting → F → Bool × F
  write_all handle i [] f = (true, f)
  write_all handle i (s ∷ rest) f =
      let (err, f1) = flash.set_blob handle i (val_of s) (nvs_len i) f in
      let (done, f2) = write_all handle (suc i) rest f1 in
      if err == 0 then (done, f2) else (false, f1)

  -- `__nvs_commit`
  unfoldable pub finish_commit : ℕ → Bool × F → Err × F
  finish_commit handle (false, f) = (nvs_err_write, f)
  finish_commit handle (true, f) =
      let (err, f') = flash.commit handle f in (if err == 0 then ok else nvs_err_write, f')

  -- `esk8_nvs_commit`
  unfoldable pub nvs_commit : Nvs → ℕ → F → Err × F
  unfolding write_all finish_commit
  nvs_commit n idx f =
      if n.handle == 0
      then (nvs_not_init, f)
      else (if idx == idx_max
          then finish_commit n.handle (write_all n.handle 0 n.settings f)
          else elim (get_elem? n.settings idx) [
            | none ↦ (nvs_no_idx, f)
            | some s ↦
                let (err, f') = flash.set_blob n.handle idx (val_of s) (nvs_len idx) f in
                finish_commit n.handle (err == 0, f')
          ])

  -- The body of the loop of `esk8_nvs_init`, behind `malloc`.
  unfoldable pub load_setting : ℕ → ℕ → F → List ℕ → Setting → Setting
  load_setting handle i f mem s =
      let (len_err, data_len) = flash.get_len handle i f in
      let (err, bytes) = flash.get_blob handle i mem f in
      if not (len_err == 0)
      then record s { nvs_mem = some mem }
      else (if not (data_len == nvs_len i)
          then record s { nvs_mem = some mem }
          else record { nvs_mem = some bytes; has_val = err == 0 })

  -- The loop, with what each `malloc` gives, and `none` when one gives no memory.
  unfoldable pub load_all : ℕ → ℕ → F → (ℕ → Option (List ℕ)) → List Setting → Option (List Setting)
  unfolding load_setting
  load_all handle i f malloc [] = some []
  load_all handle i f malloc (s ∷ rest) =
      let later = load_all handle (suc i) f malloc rest in
      elim (malloc i) [
        | none ↦ none
        | some mem ↦ elim later [
          | none ↦ none
          | some list ↦ some (load_setting handle i f mem s ∷ list)
        ]
      ]

  -- `nvs_flash_init`, tried again behind an erasure: whether the code goes on.
  unfoldable pub prepare : F → Bool × F
  prepare f =
      let (err, f1) = flash.flash_init f in
      let (erase_err, f2) = flash.flash_erase f1 in
      let (again_err, f3) = flash.flash_init f2 in
      if (err == flash.no_free_pages) || (err == flash.new_version_found)
      then (if not (erase_err == 0) then (false, f2) else (again_err == 0, f3))
      else (true, f1)

  -- `esk8_nvs_init` from `nvs_open` on.
  unfoldable pub open_settings : Nvs → (ℕ → Option (List ℕ)) → F → Nvs × Err × F
  unfolding load_all settings_deinit
  open_settings n malloc f =
      let (err, handle, f') = flash.open_storage f in
      let opened = record n { handle = handle } in
      if not (err == 0)
      then (opened, nvs_not_available, f')
      else elim (load_all handle 0 f' malloc n.settings) [
        | none ↦ (settings_deinit opened, err_oom, f')
        | some list ↦ (record opened { settings = list }, ok, f')
      ]

  -- `esk8_nvs_init`
  unfoldable pub nvs_init : Nvs → (ℕ → Option (List ℕ)) → F → Nvs × Err × F
  unfolding prepare open_settings
  nvs_init n malloc f =
      let (ready, f') = prepare f in
      let r = open_settings n malloc f' in
      if ltb 0 n.handle then (n, ok, f) else (if ready then r else (n, nvs_not_available, f'))
