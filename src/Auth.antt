-- ===== src/Auth.antt =====
-- lib/auth/esk8_auth.c: the key of the board, as a digest that is kept in the settings.
pub mod Register
use esk.Common.{
  ℕ, ◌+◌, Bool, true, false, not, List, [], ◌∷◌, Option, none, some, ltb, ◌==◌, ◌&&◌, if◌then◌else◌,
  drop, take, replicate, u32,
}
use esk.Err.{Err, ok, err_oom, failed, nvs_no_val, auth_err_hash, auth_err_auth}
use esk.Nvs.{Nvs, Flash, auth_hash, settings_get, settings_set, nvs_commit, nvs_init}

-- `esk8_auth_cntx_t`, but for the context of the digest. `chunk_idx` is its value as a `size_t`.
pub record Cntx : Type 0 where
  pub hash : List ℕ
  pub chunk_hash : List ℕ
  pub chunk_idx : ℕ
  pub conn : ℕ

-- `calloc(1, sizeof(esk8_auth_cntx_t))`
abbrev pub zero_cntx : Cntx
zero_cntx = record { hash = replicate 32 0; chunk_hash = replicate 32 0; chunk_idx = 0; conn = 0 }

-- `esk8_auth_hndl_t`: `NULL`, a pointer that nothing has set, or a context.
pub data Hndl : Type 0 where
  null : Hndl
  wild : Hndl
  cntx : Cntx → Hndl

-- The digest library during a call of a function below: what its calls return then, 0 for success, and what the last
-- one leaves in the output for a key. Another call may have another `Md`.
pub record Md : Type 0 where
  pub setup : ℕ
  pub starts : ℕ
  pub update : ℕ
  pub finish : List ℕ → ℕ × List ℕ

-- `esk8_auth_deinit`, or `none` for a use of a wild pointer.
unfoldable pub auth_deinit : Hndl → Option (Hndl × Err)
auth_deinit null = some (null, ok)
auth_deinit wild = none
auth_deinit (cntx c) = some (null, ok)

abbrev is_no_val : Err → Bool
is_no_val nvs_no_val = true
is_no_val _ = false

abbrev hash_or : Option (List ℕ) → List ℕ → List ℕ
hash_or none hash = hash
hash_or (some bytes) hash = bytes

-- `esk8_auth_init` from `calloc` on; `val` is the stored digest, if there is one.
unfoldable pub make_cntx : Md → Bool → Option (List ℕ) → Hndl → Option (Hndl × Err)
unfolding auth_deinit
make_cntx md allocated val hndl =
    if not allocated
    then some (hndl, err_oom)
    else (if md.setup == 0
        then some (cntx (record zero_cntx { hash = hash_or val zero_cntx.hash }), ok)
        else elim (auth_deinit hndl) [ none ↦ none | some (hndl', err) ↦ some (hndl', err_oom) ])

-- The loop of `memcmp` over two keys.
unfoldable pub eq_bytes : List ℕ → List ℕ → Bool
eq_bytes [] [] = true
eq_bytes (x ∷ xs) (y ∷ ys) = (x == y) && eq_bytes xs ys
eq_bytes _ _ = false

-- The three calls of the digest library, with what they leave in the output, that holds `out`.
unfoldable pub digest : Md → List ℕ → List ℕ → Err × List ℕ
digest md key out =
    let (err, out') = md.finish key in
    if not (md.starts == 0)
    then (auth_err_hash, out)
    else (if not (md.update == 0)
        then (auth_err_hash, out)
        else (if err == 0 then ok else auth_err_hash, out'))

-- `esk8_auth_auth`
unfoldable pub auth_auth : Md → Hndl → List ℕ → Option Err
unfolding digest eq_bytes
auth_auth md (cntx c) key =
    let (err, hash) = digest md key [] in
    some (if failed err then err else (if eq_bytes c.hash hash then ok else auth_err_auth))
auth_auth md _ key = none

-- `esk8_auth_chunk_auth`
unfoldable pub auth_chunk_auth : Hndl → ℕ → Option Err
auth_chunk_auth (cntx c) chk_len =
    some (if ltb 32 (u32 (c.chunk_idx + chk_len)) then auth_err_auth else ok)
auth_chunk_auth _ chk_len = none

module _ {F : Type 0} (flash : Flash F) where
  -- `esk8_auth_init`
  unfoldable pub auth_init :
      Md → Bool → (ℕ → Option (List ℕ)) → Hndl → Nvs → F → Option (Hndl × Err × Nvs × F)
  unfolding make_cntx
  auth_init md allocated malloc hndl n f =
      let (n', nvs_err, f') = nvs_init flash n malloc f in
      let (err, val) = settings_get n' auth_hash in
      let made = make_cntx md allocated val hndl in
      if failed nvs_err
      then some (hndl, nvs_err, n', f')
      else (if failed err && not (is_no_val err)
          then some (hndl, err, n', f')
          else elim made [ none ↦ none | some (hndl', err') ↦ some (hndl', err', n', f') ])

  -- A setting that is set and committed, up to the first error.
  unfoldable pub store : ℕ → List ℕ → Nvs → F → Option (Err × Nvs × F)
  store idx val n f = elim (settings_set n idx val) [
    | none ↦ none
    | some (n', err) ↦
        let (err', f') = nvs_commit flash n' idx f in
        some (if failed err then (err, n', f) else (err', n', f'))
  ]

  -- The two values that `esk8_auth_register` stores: the digest, and the union behind its first number is set
  -- to 0.
  unfoldable pub store_both : List ℕ → Nvs → F → Option (Err × Nvs × F)
  unfolding store
  store_both hash n f = elim (store auth_hash hash n f) [
    | none ↦ none
    | some (err, n', f') ↦
        let again = store auth_hash (0 ∷ 0 ∷ 0 ∷ 0 ∷ drop 4 hash) n' f' in
        if failed err then some (err, n', f') else again
  ]

  -- `esk8_auth_register`
  unfoldable pub auth_register : Md → Hndl → List ℕ → Nvs → F → Option (Hndl × Err × Nvs × F)
  unfolding digest store_both
  auth_register md (cntx c) key n f =
      let (err, hash) = digest md key c.hash in
      let hndl' = cntx (record c { hash = hash }) in
      let stored = store_both hash n f in
      if failed err
      then some (hndl', err, n, f)
      else elim stored [ none ↦ none | some (err', n', f') ↦ some (hndl', err', n', f') ]
  auth_register md _ key n f = none
