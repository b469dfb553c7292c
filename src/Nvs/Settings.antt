-- ===== src/Nvs/Settings.antt =====
-- lib/nvs/e_ride_nvs_settings.c: what a setting that is set gives, and the memory behind a failed start.
use esk.Common.{
  ℕ, zero, suc, ◌≡◌, ◌≢◌, refl, ◌∙◌, ap, ◌<◌, List, [], ◌∷◌, Option, none, some, map, Option-cases,
  inl, inr, ◌==◌, if◌then◌else◌, get_elem?, set, take, length, length-set, arith,
  get_elem?-set_self, get_elem?-set_ne,
}
use esk.Err.{ok, err_oom}
use esk.Nvs.{
  nvs_len, idx_max, copied, Setting, no_setting, Nvs, Flash, free_setting, settings_deinit,
  settings_get, settings_set, open_settings, nvs_init,
}

abbrev pub AllMemory : List Setting → Type 0
AllMemory [] = Unit {0}
AllMemory (s ∷ rest) = (s.nvs_mem ≢ none) × AllMemory rest

-- Settings in use: an open handle, and memory for each setting.
pub record IsReady (n : Nvs) : Type 0 where
  pub opened : 0 < n.handle
  pub number : length n.settings ≡ idx_max
  pub memory : AllMemory n.settings

pub memory_at :
    (xs : List Setting) (i : ℕ)
    → AllMemory xs
    → i < length xs
    → (s : Setting) × ((bytes : List ℕ) × ((get_elem? xs i ≡ some s) × (s.nvs_mem ≡ some bytes)))
memory_at [] i all h = absurd (omega arith)
memory_at (x ∷ xs) zero all h = elim (Option-cases x.nvs_mem) [
  | inl e ↦ absurd (all.0 e)
  | inr (bytes, e) ↦ (x, (bytes, (refl, e)))
]
memory_at (x ∷ xs) (suc i) all h = memory_at xs i all.1 (omega arith)

AllMemory-set :
    (xs : List Setting) (i j : ℕ) (val : List ℕ)
    → AllMemory xs
    → AllMemory (set xs i (copied j val))
AllMemory-set [] i j val all = all
AllMemory-set (x ∷ xs) zero j val all = ((λ e. cc e), all.1)
AllMemory-set (x ∷ xs) (suc i) j val all = (all.0, AllMemory-set xs i j val all.1)

pub take-take : (k : ℕ) (xs : List ℕ) → take k (take k xs) ≡ take k xs
take-take zero xs = refl
take-take (suc k) [] = refl
take-take (suc k) (x ∷ xs) = ap (λ t. x ∷ t) (take-take k xs)

pub settings_set_self :
    (n : Nvs) (i : ℕ) (val bytes : List ℕ) (s : Setting)
    → 0 < n.handle
    → get_elem? n.settings i ≡ some s
    → s.nvs_mem ≡ some bytes
    → settings_set n i val ≡ some (record n { settings = set n.settings i (copied i val) }, ok)
unfolding settings_set
settings_set_self n i val bytes s opened at_i mem = ground (arith, at_i, mem)

get-set_self :
    (n : Nvs) (i : ℕ) (val : List ℕ)
    → 0 < n.handle
    → i < length n.settings
    → settings_get (record n { settings = set n.settings i (copied i val) }) i
      ≡ (ok, some (take (nvs_len i) val))
unfolding settings_get
get-set_self n i val opened h =
    let e = get_elem?-set_self n.settings i (copied i val) h in
    let t = take-take (nvs_len i) val in ground (arith, e, t)

get-set_ne :
    (n : Nvs) (i j : ℕ) (s : Setting)
    → i ≢ j
    → settings_get (record n { settings = set n.settings i s }) j ≡ settings_get n j
unfolding settings_get
get-set_ne n i j s ne = rw (get_elem?-set_ne n.settings i j s ne) refl

get-set :
    (n : Nvs) (i j : ℕ) (val : List ℕ)
    → 0 < n.handle
    → i < length n.settings
    → settings_get (record n { settings = set n.settings i (copied i val) }) j
      ≡ (if i == j then (ok, some (take (nvs_len i) val)) else settings_get n j)
get-set n i j val opened h =
    ground (arith, get-set_self n i val opened h, get-set_ne n i j (copied i val))

IsReady-set :
    (n : Nvs) (i : ℕ) (val : List ℕ)
    → IsReady n
    → IsReady (record n { settings = set n.settings i (copied i val) })
IsReady-set n i val ready = record {
  opened = ready.opened;
  number = length-set n.settings i (copied i val) ∙ ready.number;
  memory = AllMemory-set n.settings i i val ready.memory;
}

-- From settings in use, the bytes of a value that is set are what the setting gives, each other setting gives
-- what it gave, and the settings stay open with memory for each.
pub settings_set-get :
    (n : Nvs) (i j : ℕ) (val : List ℕ)
    → IsReady n
    → i < idx_max
    → (n' : Nvs) × (settings_set n i val ≡ some (n', ok))
      × (settings_get n' j
          ≡ (if i == j then (ok, some (take (nvs_len i) val)) else settings_get n j))
      × IsReady n'
settings_set-get n i j val ready h =
    let within : i < length n.settings = rw ready.number h in
    let (s, (bytes, (at_i, mem))) = memory_at n.settings i ready.memory within in
    (
      record n { settings = set n.settings i (copied i val) },
      settings_set_self n i val bytes s ready.opened at_i mem,
      get-set n i j val ready.opened within,
      IsReady-set n i val ready,
    )

free_at :
    (xs : List Setting) (i : ℕ)
    → i < length xs
    → get_elem? (map free_setting xs) i ≡ some no_setting
free_at [] i h = absurd (omega arith)
free_at (x ∷ xs) zero h = refl
free_at (x ∷ xs) (suc i) h = free_at xs i (omega arith)

open_settings_oom :
    {F : Type 0} (flash : Flash F) (n : Nvs) (malloc : ℕ → Option (List ℕ)) (f : F)
    → (open_settings flash n malloc f).1 ≡ err_oom
    → (open_settings flash n malloc f).0.settings ≡ map free_setting n.settings
unfolding open_settings settings_deinit
open_settings_oom flash n malloc f oom = ground arith

nvs_init-settings :
    {F : Type 0} (flash : Flash F) (n : Nvs) (malloc : ℕ → Option (List ℕ)) (f : F)
    → (nvs_init flash n malloc f).1 ≡ err_oom
    → (nvs_init flash n malloc f).0.settings ≡ map free_setting n.settings
unfolding nvs_init
nvs_init-settings flash n malloc f oom = ground (arith, open_settings_oom flash n malloc)

pub reopened :
    {F : Type 0} (flash : Flash F) (n : Nvs) (malloc : ℕ → Option (List ℕ)) (f : F)
    → 0 < n.handle
    → nvs_init flash n malloc f ≡ (n, ok, f)
unfolding nvs_init
reopened flash n malloc f opened = ground arith

set-freed :
    (n : Nvs) (xs : List Setting) (i : ℕ) (val : List ℕ)
    → 0 < n.handle
    → n.settings ≡ map free_setting xs
    → i < length xs
    → settings_set n i val ≡ none
unfolding settings_set
set-freed n xs i val opened e h = let at_i = free_at xs i h in ground (arith, at_i)

-- A start whose `malloc` fails leaves the storage open: the next start is taken for done, and setting a value
-- writes to `NULL`.
pub nvs_init_oom :
    {F : Type 0} (flash : Flash F) (n : Nvs) (malloc malloc' : ℕ → Option (List ℕ)) (f f' : F)
    (i : ℕ) (val : List ℕ)
    → (nvs_init flash n malloc f).1 ≡ err_oom
    → 0 < (nvs_init flash n malloc f).0.handle
    → i < length n.settings
    → let n' = (nvs_init flash n malloc f).0 in
      (nvs_init flash n' malloc' f' ≡ (n', ok, f')) × (settings_set n' i val ≡ none)
nvs_init_oom flash n malloc malloc' f f' i val oom opened h =
    let n' = (nvs_init flash n malloc f).0 in
    (
      reopened flash n' malloc' f' opened,
      set-freed n' n.settings i val opened (nvs_init-settings flash n malloc f oom) h,
    )
