-- ===== src/Tests/Nvs.antt =====
-- lib/nvs and lib/auth over a flash that keeps three values.
use esk.Common.{
  if◌then◌else◌, ◌==◌, ℕ, suc, ◌≡◌, ◌↔◌, refl, ap, true, false, List, [], ◌∷◌, Option, some, none,
  length, get_or, set, replicate, arith, take,
}
use esk.Err.{ok}
use esk.Nvs.{Setting, Nvs, at_boot, Flash, settings_get, settings_set, nvs_commit, nvs_init}
use esk.Nvs.Settings.{IsReady}
use esk.Nvs.Start.{nvs_init-settings_set}
use esk.Nvs.Restart.{IsFlash, nvs_commit-restart}
use esk.Auth.{zero_cntx, Hndl, wild, cntx, Md, auth_auth, auth_init, auth_register}
use esk.Auth.Register.{auth_register-auth, auth_init-auth}

abbrev values : Flash (List (List ℕ))
values = record {
  no_free_pages = 4365;
  new_version_found = 4368;
  flash_init = λ f. (0, f);
  flash_erase = λ f. (0, [] ∷ [] ∷ [] ∷ []);
  open_storage = λ f. (0, 1, f);
  get_len = λ handle i f. (0, length (get_or f i []));
  get_blob = λ handle i mem f. (0, get_or f i []);
  set_blob = λ handle i val len f. elim val [ none ↦ (1, f) | some bytes ↦ (0, set f i bytes) ];
  commit = λ handle f. (0, f);
}

abbrev empty : List (List ℕ)
empty = [] ∷ [] ∷ [] ∷ []

abbrev kept : ℕ → Setting
kept n = record { nvs_mem = some (replicate n 1); has_val = false }

abbrev open_nvs : Nvs
open_nvs = record { handle = 1; settings = kept 32 ∷ kept 4 ∷ kept 6 ∷ [] }

open_nvs-IsReady : IsReady open_nvs
open_nvs-IsReady = record {
  opened = omega arith;
  number = refl;
  memory = ((λ e. cc e), ((λ e. cc e), ((λ e. cc e), tt)));
}

abbrev no_memory : ℕ → Option (List ℕ)
no_memory i = none

-- A digest of 32 bytes.
abbrev md : Md
md = record {
  setup = 0;
  starts = 0;
  update = 0;
  finish = λ key. (0, replicate 32 (suc (get_or key 0 0)));
}

abbrev digest_of : ℕ → List ℕ
digest_of n = replicate 32 n

abbrev registered : Hndl
registered = cntx (record zero_cntx { hash = digest_of 8 })

abbrev after : Nvs
after = record open_nvs {
  settings =
      record { nvs_mem = some (0 ∷ 0 ∷ 0 ∷ 0 ∷ replicate 28 8); has_val = true }
      ∷ kept 4
      ∷ kept 6
      ∷ [];
}

abbrev written : List (List ℕ)
written = (0 ∷ 0 ∷ 0 ∷ 0 ∷ replicate 28 8) ∷ [] ∷ [] ∷ []

registers :
    auth_register values md (cntx zero_cntx) (7 ∷ []) open_nvs empty
    ≡ some (registered, ok, after, written)
unfolding auth_register settings_set nvs_commit
registers = refl

auth_register-auth_example :
    (auth_auth md registered (9 ∷ []) ≡ some ok) ↔ (digest_of 8 ≡ digest_of 10)
auth_register-auth_example =
    auth_register-auth values md zero_cntx (7 ∷ []) (9 ∷ []) open_nvs after empty written registered
      open_nvs-IsReady registers refl

auth_init-auth_example :
    (hndl' : Hndl) × (auth_init values md true no_memory wild after written
      ≡ some (hndl', ok, after, written))
    × ((auth_auth md hndl' (7 ∷ []) ≡ some ok) ↔ (take 4 (digest_of 8) ≡ 0 ∷ 0 ∷ 0 ∷ 0 ∷ []))
auth_init-auth_example =
    auth_init-auth values md zero_cntx (7 ∷ []) open_nvs after empty written written registered wild
      no_memory open_nvs-IsReady registers refl refl

-- A flash of any number of values: what its handles read, and what is stored.
abbrev by_key : Flash ((ℕ → List ℕ) × (ℕ → List ℕ))
by_key = record {
  no_free_pages = 4365;
  new_version_found = 4368;
  flash_init = λ f. (0, (f.1, f.1));
  flash_erase = λ f. (0, ((λ i. []), λ i. []));
  open_storage = λ f. (0, 1, f);
  get_len = λ handle i f. (0, length (f.0 i));
  get_blob = λ handle i mem f. (0, f.0 i);
  set_blob = λ handle i val len f. elim val [
    | none ↦ (1, f)
    | some bytes ↦ (0, ((λ j. if i == j then bytes else f.0 j), f.1))
  ];
  commit = λ handle f. (0, (f.0, f.0));
}

by_key-set_self : (i : ℕ) (bytes old : List ℕ) → (if i == i then bytes else old) ≡ bytes
by_key-set_self i bytes old = ground arith

abbrev InStore : ℕ → List ℕ → (ℕ → List ℕ) × (ℕ → List ℕ) → Type 0
InStore i bytes f = f.1 i ≡ bytes

by_key-IsFlash : IsFlash by_key
by_key-IsFlash = record {
  stored = InStore;
  errors = (ground arith, ground arith);
  set_read = λ handle i bytes f success. (
    ap (λ x. (0, length x)) (by_key-set_self i bytes (f.0 i)),
    (λ mem. ap (λ x. (0, x)) (by_key-set_self i bytes (f.0 i))),
  );
  commit_stored = λ handle i bytes f reads success. ap (λ x. x.1) (reads.1 []);
  start_read = λ i bytes f stored success opened.
      (ap (λ x. (0, length x)) stored, (λ mem. ap (λ x. (0, x)) stored));
  opened = λ f success. omega arith;
}

abbrev four : List ℕ
four = 1 ∷ 2 ∷ 3 ∷ 4 ∷ []

abbrev set_nvs : Nvs
set_nvs = record {
  handle = 1;
  settings = kept 32 ∷ record { nvs_mem = some four; has_val = true } ∷ kept 6 ∷ [];
}

abbrev set_flash : (ℕ → List ℕ) × (ℕ → List ℕ)
set_flash = ((λ j. if 1 == j then four else []), λ j. if 1 == j then four else [])

abbrev no_flash : (ℕ → List ℕ) × (ℕ → List ℕ)
no_flash = ((λ j. []), λ j. [])

abbrev ones : ℕ → Option (List ℕ)
ones i = some (1 ∷ [])

nvs_commit-restart_example :
    settings_get (nvs_init by_key at_boot ones set_flash).0 1 ≡ (ok, some four)
unfolding settings_set nvs_commit nvs_init
nvs_commit-restart_example =
    nvs_commit-restart by_key 1 four open_nvs set_nvs (nvs_init by_key at_boot ones set_flash).0
      ones no_flash set_flash set_flash by_key-IsFlash open_nvs-IsReady (omega arith) refl refl refl
      refl refl

abbrev first : Nvs
first = (nvs_init by_key at_boot ones no_flash).0

first_is : nvs_init by_key at_boot ones no_flash ≡ (first, ok, no_flash)
unfolding nvs_init
first_is = refl

nvs_init-settings_set_example :
    (n' : Nvs) × (settings_set first 1 (1 ∷ 2 ∷ 3 ∷ 4 ∷ 5 ∷ []) ≡ some (n', ok))
    × (settings_get n' 1 ≡ (ok, some (1 ∷ 2 ∷ 3 ∷ 4 ∷ [])))
    × IsReady n'
nvs_init-settings_set_example =
    nvs_init-settings_set by_key first ones no_flash no_flash 1 1 (1 ∷ 2 ∷ 3 ∷ 4 ∷ 5 ∷ [])
      (λ f success. omega arith) first_is (omega arith)
