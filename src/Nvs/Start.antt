-- ===== src/Nvs/Start.antt =====
-- lib/nvs/e_ride_nvs_settings.c: the settings behind a start, the first one, that succeeds.
use esk.Common.{
  ℕ, suc, ◌≡◌, ◌≢◌, ap, ◌∙◌, ◌<◌, List, [], ◌∷◌, Option, none, some, ◌==◌, if◌then◌else◌, take,
  length, arith,
}
use esk.Err.{ok}
use esk.Nvs.{
  nvs_len, idx_max, Setting, Nvs, at_boot, Flash, settings_get, settings_set, load_setting,
  load_all, prepare, open_settings, nvs_init,
}
use esk.Nvs.Settings.{AllMemory, IsReady, settings_set-get}
use esk.Nvs.Restart.{load_all_cons, open_settings_ok}

module _ {F : Type 0} (flash : Flash F) where
  load_setting_memory :
      (handle i : ℕ) (f : F) (mem : List ℕ) (s : Setting)
      → (load_setting flash handle i f mem s).nvs_mem ≢ none
  unfolding load_setting
  load_setting_memory handle i f mem s e = ground (arith, e)

  load_all-length :
      (handle k : ℕ) (f : F) (malloc : ℕ → Option (List ℕ)) (xs list : List Setting)
      → load_all flash handle k f malloc xs ≡ some list
      → length list ≡ length xs
  unfolding load_all
  load_all-length handle k f malloc [] list e = ground (arith, e)
  load_all-length handle k f malloc (x ∷ xs) list e =
      let (mem, (rest, (shape, later))) = load_all_cons flash handle k f malloc x xs list e in
      ap length shape ∙ ap suc (load_all-length handle (suc k) f malloc xs rest later)

  load_all-AllMemory :
      (handle k : ℕ) (f : F) (malloc : ℕ → Option (List ℕ)) (xs list : List Setting)
      → load_all flash handle k f malloc xs ≡ some list
      → AllMemory list
  unfolding load_all
  load_all-AllMemory handle k f malloc [] list e =
      let nil : list ≡ [] = ground (arith, e) in rw nil tt
  load_all-AllMemory handle k f malloc (x ∷ xs) list e =
      let (mem, (rest, (shape, later))) = load_all_cons flash handle k f malloc x xs list e in
      rw shape (
        load_setting_memory handle k f mem x,
        load_all-AllMemory handle (suc k) f malloc xs rest later,
      )

  first_start :
      (n : Nvs) (malloc : ℕ → Option (List ℕ)) (f f' : F)
      → nvs_init flash at_boot malloc f ≡ (n, ok, f')
      → open_settings flash at_boot malloc (prepare flash f).1 ≡ (n, ok, f')
  unfolding nvs_init
  first_start n malloc f f' e = ground (arith, e)

  nvs_init-IsReady :
      (n : Nvs) (malloc : ℕ → Option (List ℕ)) (f f' : F)
      → ((f : F) → (flash.open_storage f).0 ≡ 0 → 0 < (flash.open_storage f).1)
      → nvs_init flash at_boot malloc f ≡ (n, ok, f')
      → IsReady n
  nvs_init-IsReady n malloc f f' opens e =
      let f1 = (prepare flash f).1 in
      let (err, handle, loaded) =
        open_settings_ok flash at_boot n malloc f1 f' (first_start n malloc f f' e) in
      record {
        opened = rw handle (opens f1 err);
        number = load_all-length _ 0 _ malloc at_boot.settings n.settings loaded;
        memory = load_all-AllMemory _ 0 _ malloc at_boot.settings n.settings loaded;
      }

  -- Behind a first `esk8_nvs_init` that returns `ESK8_OK`, over a flash that opens with handles other than 0, the
  -- bytes of a value that is set are what the setting gives, each other setting gives what it gave, and the
  -- settings stay open with memory for each.
  pub nvs_init-settings_set :
      (n : Nvs) (malloc : ℕ → Option (List ℕ)) (f f' : F) (i j : ℕ) (val : List ℕ)
      → ((f : F) → (flash.open_storage f).0 ≡ 0 → 0 < (flash.open_storage f).1)
      → nvs_init flash at_boot malloc f ≡ (n, ok, f')
      → i < idx_max
      → (n' : Nvs) × (settings_set n i val ≡ some (n', ok))
        × (settings_get n' j
            ≡ (if i == j then (ok, some (take (nvs_len i) val)) else settings_get n j))
        × IsReady n'
  nvs_init-settings_set n malloc f f' i j val opens e h =
      settings_set-get n i j val (nvs_init-IsReady n malloc f f' opens e) h
