-- ===== src/Nvs/Restart.antt =====
-- lib/nvs/e_ride_nvs_settings.c: a setting that was committed, behind a restart.
use esk.Common.{
  ℕ, zero, suc, ◌+◌, ◌≡◌, ◌≢◌, refl, ◌∙◌, ap, ◌<◌, true, List, [], ◌∷◌, Option, some, Option-cases,
  inl, inr, get_elem?, set, take, take-length, length, arith, get_elem?-set_self,
}
use esk.Err.{ok}
use esk.Nvs.{
  nvs_len, idx_max, copied, Setting, no_setting, Nvs, at_boot, Flash, val_of, settings_get,
  settings_set, nvs_commit, finish_commit, load_setting, load_all, prepare, open_settings, nvs_init,
}
use esk.Nvs.Settings.{IsReady, memory_at, settings_set_self}

-- A flash in which a handle reads a value.
abbrev pub Reads : {F : Type 0} → Flash F → ℕ → ℕ → List ℕ → F → Type 0
Reads flash handle i bytes f =
    (flash.get_len handle i f ≡ (0, length bytes))
    × ((mem : List ℕ) → flash.get_blob handle i mem f ≡ (0, bytes))

-- What the code relies on. A value that was set with a handle is read with it; a commit of the handle that succeeds
-- stores what it reads; and what is stored, and nothing else for sure, is read behind a start of the flash that
-- succeeds, with the handle of the storage that is opened, which is not 0.
pub record IsFlash {F : Type 0} (flash : Flash F) : Type 1 where
  pub stored : ℕ → List ℕ → F → Type 0
  pub errors : (flash.no_free_pages ≢ 0) × (flash.new_version_found ≢ 0)
  pub set_read :
      (handle i : ℕ) (bytes : List ℕ) (f : F)
      → (flash.set_blob handle i (some bytes) (length bytes) f).0 ≡ 0
      → Reads flash handle i bytes (flash.set_blob handle i (some bytes) (length bytes) f).1
  pub commit_stored :
      (handle i : ℕ) (bytes : List ℕ) (f : F)
      → Reads flash handle i bytes f
      → (flash.commit handle f).0 ≡ 0
      → stored i bytes (flash.commit handle f).1
  pub start_read :
      (i : ℕ) (bytes : List ℕ) (f : F)
      → stored i bytes f
      → (flash.flash_init f).0 ≡ 0
      → let r = flash.open_storage (flash.flash_init f).1 in r.0 ≡ 0 → Reads flash r.1 i bytes r.2
  pub opened : (f : F) → (flash.open_storage f).0 ≡ 0 → 0 < (flash.open_storage f).1

module _ {F : Type 0} (flash : Flash F) where
  pub load_all_cons :
      (handle k : ℕ) (f : F) (malloc : ℕ → Option (List ℕ)) (x : Setting) (xs list : List Setting)
      → load_all flash handle k f malloc (x ∷ xs) ≡ some list
      → (mem : List ℕ) × ((rest : List Setting) × ((list
              ≡ load_setting flash handle k f mem x ∷ rest)
            × (load_all flash handle (suc k) f malloc xs ≡ some rest)))
  unfolding load_all
  load_all_cons handle k f malloc x xs list e = elim (Option-cases (malloc k)) [
    | inl no_mem ↦ absurd (ground (arith, e, no_mem))
    | inr (mem, given) ↦ elim (Option-cases (load_all flash handle (suc k) f malloc xs)) [
      | inl failed_later ↦ absurd (ground (arith, e, given, failed_later))
      | inr (rest, later) ↦ (mem, (rest, (ground (arith, e, given, later), later)))
    ]
  ]

  load_all_at :
      (handle k j : ℕ) (f : F) (malloc : ℕ → Option (List ℕ)) (xs list : List Setting) (s : Setting)
      → load_all flash handle k f malloc xs ≡ some list
      → get_elem? xs j ≡ some s
      → (mem : List ℕ) × (get_elem? list j ≡ some (load_setting flash handle (k + j) f mem s))
  load_all_at handle k j f malloc [] list s e at_j = absurd (cc at_j)
  load_all_at handle k zero f malloc (x ∷ xs) list s e at_j =
      let (mem, (rest, (shape, later))) = load_all_cons handle k f malloc x xs list e in
      let z : k + 0 ≡ k = omega arith in (mem, rw (shape, z) (cc at_j))
  load_all_at handle k (suc j) f malloc (x ∷ xs) list s e at_j =
      let (mem, (rest, (shape, later))) = load_all_cons handle k f malloc x xs list e in
      let (mem', found) = load_all_at handle (suc k) j f malloc xs rest s later at_j in
      let z : k + suc j ≡ suc k + j = omega arith in (mem', rw (shape, z) found)

  load_setting_read :
      (handle i : ℕ) (f : F) (mem bytes : List ℕ) (s : Setting)
      → Reads flash handle i bytes f
      → length bytes ≡ nvs_len i
      → load_setting flash handle i f mem s ≡ record { nvs_mem = some bytes; has_val = true }
  unfolding load_setting
  load_setting_read handle i f mem bytes s reads len =
      let l = reads.0 in let b = reads.1 mem in ground (arith, l, b, len)

  commit-stored :
      (n : Nvs) (i : ℕ) (bytes : List ℕ) (s : Setting) (f f' : F) (laws : IsFlash flash)
      → 0 < n.handle
      → i < idx_max
      → get_elem? n.settings i ≡ some s
      → val_of s ≡ some bytes
      → length bytes ≡ nvs_len i
      → nvs_commit flash n i f ≡ (ok, f')
      → laws.stored i bytes f'
  unfolding nvs_commit finish_commit
  commit-stored n i bytes s f f' laws opened h at_i val len e =
      let r = flash.set_blob n.handle i (some bytes) (length bytes) f in
      let written : r.0 ≡ 0 = ground (arith, e, at_i, val, len) in
      let committed : (flash.commit n.handle r.1).0 ≡ 0 = ground (arith, e, at_i, val, len) in
      let last : f' ≡ (flash.commit n.handle r.1).1 = ground (arith, e, at_i, val, len) in
      rw last (
        laws.commit_stored n.handle i bytes r.1 (laws.set_read n.handle i bytes f written)
          committed)

  prepare-init :
      (f : F)
      → IsFlash flash
      → (flash.flash_init f).0 ≡ 0
      → prepare flash f ≡ (true, (flash.flash_init f).1)
  unfolding prepare
  prepare-init f laws init =
      let (pages, version) = laws.errors in ground (arith, init, pages, version)

  -- What a start that succeeds has loaded.
  pub open_settings_ok :
      (n0 n : Nvs) (malloc : ℕ → Option (List ℕ)) (f f' : F)
      → open_settings flash n0 malloc f ≡ (n, ok, f')
      → let r = flash.open_storage f in
        (r.0 ≡ 0)
        × (n.handle ≡ r.1)
        × (load_all flash r.1 0 r.2 malloc n0.settings ≡ some n.settings)
  unfolding open_settings
  open_settings_ok n0 n malloc f f' e = (ground (arith, e), ground (arith, e), ground (arith, e))

  nvs_init-open_settings :
      (n : Nvs) (malloc : ℕ → Option (List ℕ)) (f f' : F)
      → prepare flash f ≡ (true, (flash.flash_init f).1)
      → nvs_init flash at_boot malloc f ≡ (n, ok, f')
      → open_settings flash at_boot malloc (flash.flash_init f).1 ≡ (n, ok, f')
  unfolding nvs_init
  nvs_init-open_settings n malloc f f' ready e = ground (arith, ready, e)

  settings_get-loaded :
      (n : Nvs) (i : ℕ) (bytes : List ℕ)
      → 0 < n.handle
      → get_elem? n.settings i ≡ some (record { nvs_mem = some bytes; has_val = true })
      → length bytes ≡ nvs_len i
      → settings_get n i ≡ (ok, some bytes)
  unfolding settings_get
  settings_get-loaded n i bytes opened at_i len =
      let t = take-length (nvs_len i) bytes len in ground (arith, at_i, t)

  at_boot_at : (i : ℕ) → i < idx_max → get_elem? at_boot.settings i ≡ some no_setting
  at_boot_at zero h = refl
  at_boot_at (suc zero) h = refl
  at_boot_at (suc (suc zero)) h = refl
  at_boot_at (suc (suc (suc i))) h = absurd (omega arith)

  -- A start that succeeds, of a flash that does.
  nvs_init-get :
      (i : ℕ) (bytes : List ℕ) (n : Nvs) (malloc : ℕ → Option (List ℕ)) (f f' : F)
      (laws : IsFlash flash)
      → i < idx_max
      → length bytes ≡ nvs_len i
      → (flash.flash_init f).0 ≡ 0
      → laws.stored i bytes f
      → nvs_init flash at_boot malloc f ≡ (n, ok, f')
      → settings_get n i ≡ (ok, some bytes)
  nvs_init-get i bytes n malloc f f' laws h len init stored e =
      let f1 = (flash.flash_init f).1 in
      let r = flash.open_storage f1 in
      let opened = nvs_init-open_settings n malloc f f' (prepare-init f laws init) e in
      let (err, handle, loaded) = open_settings_ok at_boot n malloc f1 f' opened in
      let stored' = laws.start_read i bytes f stored init err in
      let z : 0 + i ≡ i = omega arith in
      let (mem, at_i) =
        load_all_at r.1 0 i r.2 malloc at_boot.settings n.settings no_setting loaded
          (at_boot_at i h) in
      settings_get-loaded n i bytes (rw handle (laws.opened f1 err))
        ((rw z at at_i) ∙ ap some (load_setting_read r.1 i r.2 mem bytes no_setting stored' len))
        len

  -- Over a flash library as `IsFlash` has it, from settings in use with memory for each: the bytes of a value that
  -- was set, with all bytes of its setting, and committed with `ESK8_OK`, are what the setting gives behind a restart
  -- whose two starts succeed.
  pub nvs_commit-restart :
      (i : ℕ) (val : List ℕ) (n n' n2 : Nvs) (malloc : ℕ → Option (List ℕ)) (f f' f2 : F)
      → IsFlash flash
      → IsReady n
      → i < idx_max
      → length (take (nvs_len i) val) ≡ nvs_len i
      → settings_set n i val ≡ some (n', ok)
      → nvs_commit flash n' i f ≡ (ok, f')
      → (flash.flash_init f').0 ≡ 0
      → nvs_init flash at_boot malloc f' ≡ (n2, ok, f2)
      → settings_get n2 i ≡ (ok, some (take (nvs_len i) val))
  nvs_commit-restart i val n n' n2 malloc f f' f2 laws ready h len set_ok committed init started =
      let bytes = take (nvs_len i) val in
      let within : i < length n.settings = rw ready.number h in
      let (s, (old, (at_i, mem))) = memory_at n.settings i ready.memory within in
      let set_n : n' ≡ record n { settings = set n.settings i (copied i val) } =
        let e = settings_set_self n i val old s ready.opened at_i mem in cc (e, set_ok) in
      let stored =
        commit-stored n' i bytes (copied i val) f f' laws (rw set_n ready.opened) h
          (rw set_n (get_elem?-set_self n.settings i (copied i val) within)) refl len committed in
      nvs_init-get i bytes n2 malloc f' f2 laws h len init stored started
