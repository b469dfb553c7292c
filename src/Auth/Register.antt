-- ===== src/Auth/Register.antt =====
-- lib/auth/esk8_auth.c: what a registered key is worth, to its own connection and to the next one.
use esk.Common.{
  ℕ, ◌≡◌, ◌↔◌, refl, ◌<◌, true, List, [], ◌∷◌, Option, some, take, drop, length, take-length, arith,
}
use esk.Err.{ok}
use esk.Nvs.{Nvs, Flash, auth_hash, settings_get, settings_set, nvs_commit}
use esk.Nvs.Settings.{IsReady, settings_set-get, reopened}
use esk.Auth.{
  Cntx, zero_cntx, Hndl, cntx, Md, make_cntx, eq_bytes, digest, auth_auth, auth_init, store,
  store_both, auth_register,
}

-- The digest whose first number is 0.
abbrev pub zero_n : List ℕ → List ℕ
zero_n hash = 0 ∷ 0 ∷ 0 ∷ 0 ∷ drop 4 hash

eq_bytes_sound : (xs ys : List ℕ) → eq_bytes xs ys ≡ true → xs ≡ ys
unfolding eq_bytes
eq_bytes_sound [] [] e = refl
eq_bytes_sound [] (y ∷ ys) e = absurd (cc e)
eq_bytes_sound (x ∷ xs) [] e = absurd (cc e)
eq_bytes_sound (x ∷ xs) (y ∷ ys) e = ground (arith, eq_bytes_sound xs ys)

eq_bytes_self : (xs : List ℕ) → eq_bytes xs xs ≡ true
unfolding eq_bytes
eq_bytes_self [] = refl
eq_bytes_self (x ∷ xs) = ground (arith, eq_bytes_self xs)

-- A check against a digest.
auth_auth_lem :
    (md : Md) (c : Cntx) (key : List ℕ)
    → digest md key [] ≡ (ok, (md.finish key).1)
    → (auth_auth md (cntx c) key ≡ some ok) ↔ (c.hash ≡ (md.finish key).1)
unfolding auth_auth
auth_auth_lem md c key e = (
  (λ accepted. eq_bytes_sound c.hash (md.finish key).1 (ground (arith, e, accepted))),
  (λ same. let self = eq_bytes_self (md.finish key).1 in ground (arith, e, same, self)),
)

digest-ok :
    (md : Md) (key : List ℕ)
    → md.starts ≡ 0
    → md.update ≡ 0
    → (md.finish key).0 ≡ 0
    → digest md key [] ≡ (ok, (md.finish key).1)
unfolding digest
digest-ok md key starts update finish = rw (starts, update, finish) refl

-- Four bytes of zero before the rest of 32.
zero_n-eq :
    (xs : List ℕ) → length xs ≡ 32 → (take 32 (zero_n xs) ≡ xs) ↔ (take 4 xs ≡ 0 ∷ 0 ∷ 0 ∷ 0 ∷ [])
zero_n-eq [] len = absurd (omega arith)
zero_n-eq (a ∷ b ∷ c ∷ d ∷ xs) len =
    let t = take-length 28 xs (omega arith) in ((λ e. cc e), (λ e. cc (e, t)))
zero_n-eq xs len = absurd (omega arith)

module _ {F : Type 0} (flash : Flash F) where
  store-commit :
      (val : List ℕ) (n n' : Nvs) (f : F)
      → settings_set n auth_hash val ≡ some (n', ok)
      → store flash auth_hash val n f
        ≡ some ((nvs_commit flash n' auth_hash f).0, n', (nvs_commit flash n' auth_hash f).1)
  unfolding store
  store-commit val n n' f e = rw (e, store) refl

  store_both-get :
      (hash : List ℕ) (n n' : Nvs) (f f' : F)
      → IsReady n
      → store_both flash hash n f ≡ some (ok, n', f')
      → (settings_get n' auth_hash ≡ (ok, some (take 32 (zero_n hash)))) × IsReady n'
  unfolding store_both
  store_both-get hash n n' f f' ready e =
      let (n1, set1, get1, ready1) =
        settings_set-get n auth_hash auth_hash hash ready (omega arith) in
      let (n2, set2, get2, ready2) =
        settings_set-get n1 auth_hash auth_hash (zero_n hash) ready1 (omega arith) in
      let f1 = (nvs_commit flash n1 auth_hash f).1 in
      let last : n' ≡ n2 =
        let first = store-commit hash n n1 f set1 in
        let second = store-commit (zero_n hash) n1 n2 f1 set2 in ground (arith, e, first, second) in
      rw last (get2, ready2)

  -- A key that is registered: what the context and the settings hold.
  auth_register_lem :
      (md : Md) (c : Cntx) (key : List ℕ) (n n' : Nvs) (f f' : F) (hndl : Hndl)
      → IsReady n
      → auth_register flash md (cntx c) key n f ≡ some (hndl, ok, n', f')
      → (md.starts ≡ 0)
        × (md.update ≡ 0)
        × ((md.finish key).0 ≡ 0)
        × (hndl ≡ cntx (record c { hash = (md.finish key).1 }))
        × (settings_get n' auth_hash ≡ (ok, some (take 32 (zero_n (md.finish key).1))))
        × IsReady n'
  unfolding auth_register digest
  auth_register_lem md c key n n' f f' hndl ready e =
      let stored : store_both flash (md.finish key).1 n f ≡ some (ok, n', f') = ground (arith, e) in
      let kept = store_both-get (md.finish key).1 n n' f f' ready stored in
      (ground (arith, e), ground (arith, e), ground (arith, e), ground (arith, e), kept.0, kept.1)

  made :
      (md : Md) (malloc : ℕ → Option (List ℕ)) (hndl : Hndl) (n : Nvs) (f : F) (bytes : List ℕ)
      → 0 < n.handle
      → settings_get n auth_hash ≡ (ok, some bytes)
      → md.setup ≡ 0
      → auth_init flash md true malloc hndl n f
        ≡ some (cntx (record zero_cntx { hash = bytes }), ok, n, f)
  unfolding auth_init make_cntx
  made md malloc hndl n f bytes opened get setup =
      let again = reopened flash n malloc f opened in ground (arith, again, get, setup)

  -- Behind a register that returns `ESK8_OK`, and while the digest library does the same, its own connection is let in
  -- by just the keys that have the digest of the registered one.
  pub auth_register-auth :
      (md : Md) (c : Cntx) (key key' : List ℕ) (n n' : Nvs) (f f' : F) (hndl : Hndl)
      → IsReady n
      → auth_register flash md (cntx c) key n f ≡ some (hndl, ok, n', f')
      → (md.finish key').0 ≡ 0
      → (auth_auth md hndl key' ≡ some ok) ↔ ((md.finish key).1 ≡ (md.finish key').1)
  auth_register-auth md c key key' n n' f f' hndl ready e finished =
      let r = auth_register_lem md c key n n' f f' hndl ready e in
      rw r.3 (
        auth_auth_lem md (record c { hash = (md.finish key).1 }) key'
          (digest-ok md key' r.0 r.1 finished))

  -- Behind a register that returns `ESK8_OK`, and while the digest library does the same, a connection that comes later,
  -- for which `esk8_auth_init` has its memory and the digest library is set up, is let in by the registered key if and
  -- only if the digest, of 32 bytes, starts with four zeros: this is what the settings keep of it.
  pub auth_init-auth :
      (md : Md) (c : Cntx) (key : List ℕ) (n n' : Nvs) (f f' f2 : F) (hndl hndl2 : Hndl)
      → (malloc : ℕ → Option (List ℕ)) → IsReady n
      → auth_register flash md (cntx c) key n f ≡ some (hndl, ok, n', f')
      → length (md.finish key).1 ≡ 32
      → md.setup ≡ 0
      → (hndl' : Hndl) × (auth_init flash md true malloc hndl2 n' f2 ≡ some (hndl', ok, n', f2))
        × ((auth_auth md hndl' key ≡ some ok) ↔ (take 4 (md.finish key).1 ≡ 0 ∷ 0 ∷ 0 ∷ 0 ∷ []))
  auth_init-auth md c key n n' f f' f2 hndl hndl2 malloc ready e len setup =
      let r = auth_register_lem md c key n n' f f' hndl ready e in
      let stored = take 32 (zero_n (md.finish key).1) in
      let a =
        auth_auth_lem md (record zero_cntx { hash = stored }) key (digest-ok md key r.0 r.1 r.2) in
      let z = zero_n-eq (md.finish key).1 len in
      (
        cntx (record zero_cntx { hash = stored }),
        made md malloc hndl2 n' f2 stored (r.5).opened r.4 setup,
        ((λ h. z.0 (a.0 h)), (λ h. a.1 (z.1 h))),
      )
