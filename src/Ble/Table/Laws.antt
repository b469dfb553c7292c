-- ===== src/Ble/Table/Laws.antt =====
-- The contexts as a map from connections, which a connect and a disconnect update.
use esk.Common.{
  ℕ, zero, suc, ◌≡◌, ◌≢◌, refl, ap, true, List, [], ◌∷◌, Option, none, some, ◌==◌, if◌then◌else◌,
  get_or, set, arith,
}
use esk.Common.Int.{pos}
use esk.Ble.Types.{Ctx, blank}
use esk.Ble.Table.{is_free, is_conn, find_free, find_conn}

-- The context of a connection: what `esk8_ble_apps_get_ctx` finds.
unfoldable pub view : List Ctx → ℕ → Option Ctx
view [] id = none
view (c ∷ cs) id = if is_conn id c then some c else view cs id

-- No connection has two contexts.
abbrev pub IsDistinct : List Ctx → Type 0
IsDistinct [] = Unit {0}
IsDistinct (c ∷ cs) = ((id : ℕ) → is_conn id c ≡ true → view cs id ≡ none) × IsDistinct cs

-- A free context taken for a new connection.
pub view-set_free :
    (list : List Ctx) (i id j : ℕ) (c : Ctx)
    → find_free list ≡ some i
    → c.conn_id ≡ pos id
    → view list id ≡ none
    → view (set list i c) j ≡ (if id == j then some c else view list j)
unfolding view find_free
view-set_free [] i id j c found e new = absurd (cc found)
view-set_free (x ∷ xs) zero id j c found e new = ground arith
view-set_free (x ∷ xs) (suc i) id j c found e new = ground (arith, view-set_free xs i id j c)

-- A connection's context freed.
pub view-set_conn :
    (list : List Ctx) (i id j : ℕ) (c : Ctx)
    → find_conn id list ≡ some i
    → is_free c ≡ true
    → IsDistinct list
    → view (set list i c) j ≡ (if id == j then none else view list j)
unfolding view find_conn
view-set_conn [] i id j c found e d = absurd (cc found)
view-set_conn (x ∷ xs) zero id j c found e d = ground (arith, d.0 id)
view-set_conn (x ∷ xs) (suc i) id j c found e d = ground (arith, view-set_conn xs i id j c)

pub find_conn-none : (list : List Ctx) (id : ℕ) → find_conn id list ≡ none → view list id ≡ none
unfolding view find_conn
find_conn-none [] id h = refl
find_conn-none (x ∷ xs) id h = ground (arith, find_conn-none xs id)

-- A free context set to another connection hides none.
pub view-set_keeps :
    (list : List Ctx) (i j : ℕ) (c : Ctx)
    → find_free list ≡ some i
    → view list j ≢ none
    → view (set list i c) j ≢ none
unfolding view find_free
view-set_keeps [] i j c found held = absurd (cc found)
view-set_keeps (x ∷ xs) zero j c found held = ground arith
view-set_keeps (x ∷ xs) (suc i) j c found held = ground (arith, view-set_keeps xs i j c)

pub view-set_new :
    (list : List Ctx) (i j : ℕ) (c : Ctx)
    → find_free list ≡ some i
    → c.conn_id ≡ pos j
    → view (set list i c) j ≢ none
unfolding view find_free
view-set_new [] i j c found e = absurd (cc found)
view-set_new (x ∷ xs) zero j c found e = ground arith
view-set_new (x ∷ xs) (suc i) j c found e = ground (arith, view-set_new xs i j c)

-- Freeing a context hides no other connection.
pub view-set_other :
    (list : List Ctx) (i id j : ℕ) (c : Ctx)
    → find_conn id list ≡ some i
    → id ≢ j
    → view list j ≢ none
    → view (set list i c) j ≢ none
unfolding view find_conn
view-set_other [] i id j c found ne held = absurd (cc found)
view-set_other (x ∷ xs) zero id j c found ne held = ground arith
view-set_other (x ∷ xs) (suc i) id j c found ne held = ground (arith, view-set_other xs i id j c)

-- What the search finds.
pub view-find_conn :
    (list : List Ctx) (i id : ℕ)
    → find_conn id list ≡ some i
    → view list id ≡ some (get_or list i blank)
unfolding view find_conn
view-find_conn [] i id found = absurd (cc found)
view-find_conn (x ∷ xs) zero id found = ground arith
view-find_conn (x ∷ xs) (suc i) id found = ground (arith, view-find_conn xs i id)

pub conn_id-find_conn :
    (list : List Ctx) (i id : ℕ)
    → find_conn id list ≡ some i
    → (get_or list i blank).conn_id ≡ pos id
unfolding find_conn
conn_id-find_conn [] i id found = absurd (cc found)
conn_id-find_conn (x ∷ xs) zero id found = ground arith
conn_id-find_conn (x ∷ xs) (suc i) id found = ground (arith, conn_id-find_conn xs i id)

pub set-set : (list : List Ctx) (i : ℕ) (c d : Ctx) → set (set list i c) i d ≡ set list i d
set-set [] i c d = refl
set-set (x ∷ xs) zero c d = refl
set-set (x ∷ xs) (suc i) c d = ap (λ t. x ∷ t) (set-set xs i c d)

pub get_or-set_free :
    (list : List Ctx) (i : ℕ) (c : Ctx)
    → find_free list ≡ some i
    → get_or (set list i c) i blank ≡ c
unfolding find_free
get_or-set_free [] i c found = absurd (cc found)
get_or-set_free (x ∷ xs) zero c found = refl
get_or-set_free (x ∷ xs) (suc i) c found = ground (arith, get_or-set_free xs i c)

-- A context that is freed wherever it stands.
view-set-none :
    (list : List Ctx) (i j : ℕ) (c : Ctx)
    → is_free c ≡ true
    → view list j ≡ none
    → view (set list i c) j ≡ none
unfolding view
view-set-none [] i j c e free = free
view-set-none (x ∷ xs) zero j c e free = ground arith
view-set-none (x ∷ xs) (suc i) j c e free = ground (arith, view-set-none xs i j c e)

pub set-IsDistinct :
    (list : List Ctx) (i : ℕ) (c : Ctx)
    → is_free c ≡ true
    → IsDistinct list
    → IsDistinct (set list i c)
set-IsDistinct [] i c e d = d
set-IsDistinct (x ∷ xs) zero c e d = ((λ j taken. ground arith), d.1)
set-IsDistinct (x ∷ xs) (suc i) c e d =
    ((λ j taken. view-set-none xs i j c e (d.0 j taken)), set-IsDistinct xs i c e d.1)

pub set_free-IsDistinct :
    (list : List Ctx) (i id : ℕ) (c : Ctx)
    → find_free list ≡ some i
    → c.conn_id ≡ pos id
    → view list id ≡ none
    → IsDistinct list
    → IsDistinct (set list i c)
unfolding view find_free
set_free-IsDistinct [] i id c found e new d = d
set_free-IsDistinct (x ∷ xs) zero id c found e new d = ((λ j taken. ground arith), d.1)
set_free-IsDistinct (x ∷ xs) (suc i) id c found e new d = (
  (λ j taken. ground (arith, view-set_free xs i id j c, d.0 j)),
  set_free-IsDistinct xs i id c (ground arith) e (ground arith) d.1,
)
