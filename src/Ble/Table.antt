-- ===== src/Ble/Table.antt =====
-- The loops over the connection contexts of an application, which number `conn_num_max`.
pub mod Laws
use esk.Common.{
  ℕ, zero, suc, Bool, true, false, List, [], ◌∷◌, Option, none, some, ◌==◌, if◌then◌else◌, get_or,
  set,
}
use esk.Common.Int.{ℤ, pos, negsuc}
use esk.Ble.Types.{Ctx, blank}

-- The first index at which a test holds: a `for` loop with a `break`.
abbrev pub later : Option ℕ → Option ℕ
later none = none
later (some i) = some (suc i)

unfoldable pub find_index {ℓ} : {A : Type ℓ} → (A → Bool) → List A → Option ℕ
find_index test [] = none
find_index test (x ∷ xs) = if test x then some 0 else later (find_index test xs)

-- `conn_id < 0`
abbrev pub is_free : Ctx → Bool
is_free c = elim c.conn_id [ pos n ↦ false | negsuc n ↦ true ]

-- `conn_id == id`, of an `int` and a `uint16_t`
abbrev pub is_conn : ℕ → Ctx → Bool
is_conn id c = elim c.conn_id [ pos n ↦ n == id | negsuc n ↦ false ]

unfoldable pub find_free : List Ctx → Option ℕ
unfolding find_index
find_free = find_index is_free

unfoldable pub find_conn : ℕ → List Ctx → Option ℕ
unfolding find_index
find_conn id = find_index (is_conn id)

-- `list[i].conn_id = id`
unfoldable pub set_conn : List Ctx → ℕ → ℤ → List Ctx
set_conn list i id = set list i (record (get_or list i blank) { conn_id = id })
