-- ===== src/Ble/Handler/Connections.antt =====
-- lib/ble/esk8_ble_apps.c: the contexts of an application as a map from connections, and its updates.
use esk.Common.{
  ℕ, ◌≡◌, refl, ◌∙◌, ap, List, Option, none, some, Option-cases, inl, inr, ◌==◌, if◌then◌else◌,
  get_or, set, arith,
}
use esk.Common.Int.{pos, negsuc}
use esk.Ble.Types.{Ctx, blank, Apps, set_app, Callbacks, Stack}
use esk.Ble.Table.{find_free, find_conn, set_conn}
use esk.Ble.Table.Laws.{
  view, IsDistinct, view-set_free, view-set_conn, find_conn-none, set-set, get_or-set_free,
  set-IsDistinct, set_free-IsDistinct,
}
use esk.Ble.Handler.{contexts, set_contexts, on_connect, on_disconnect}

contexts-set_contexts :
    (apps : Apps) (a : ℕ) (list : List Ctx) → contexts ((set_contexts apps a list).app a) ≡ list
unfolding set_contexts set_app
contexts-set_contexts apps a list = ground arith

-- A table in which one connection has a new context, and no other one changes.
abbrev pub IsAdded : ℕ → List Ctx → List Ctx → Type 0
IsAdded id list list' =
    (c : Ctx) × ((c.conn_id ≡ pos id)
      × ((j : ℕ) → view list' j ≡ (if id == j then some c else view list j)))

module _ {S : Type 0} (stack : Stack S) where
  -- What becomes of the applications and the rest, with a free context and without one.
  abbrev pub IsConnect : ℕ → ℕ → Apps → S → Option ℕ → Apps × S → Type 0
  IsConnect a id apps s none (apps', s') =
      (apps' ≡ apps) × (s' ≡ stack.gap_disconnect id (stack.start_advertising s))
  IsConnect a id apps s (some i) (apps', s') =
      IsAdded id (contexts (apps.app a)) (contexts (apps'.app a))
      × IsDistinct (contexts (apps'.app a))

  module _ (callbacks : ℕ → Callbacks S) where
    -- A connection that comes, of which the application has no context: if a context is free, and the callback
    -- leaves the connection's number in it, this connection and no other one has a new context, and none has
    -- two; if no context is free, the applications stay and the stack is asked to disconnect it.
    pub on_connect-view :
        (apps : Apps) (a id : ℕ) (s : S)
        → ((apps' : Apps) (c : Ctx) (s' : S)
            → ((callbacks a).app_conn_add apps' c s').0.conn_id ≡ c.conn_id)
        → IsDistinct (contexts (apps.app a))
        → view (contexts (apps.app a)) id ≡ none
        → IsConnect a id apps s
            (find_free (contexts (apps.app a)))
            (on_connect stack callbacks apps a id s)
    unfolding on_connect set_conn
    on_connect-view apps a id s keeps distinct new =
        let list = contexts (apps.app a) in
        elim (Option-cases (find_free list)) [
          | inl full ↦ rw (full, on_connect) (refl, refl)
          | inr (i, found) ↦
              let d = record (get_or list i blank) { conn_id = pos id } in
              let list1 = set list i d in
              let c =
                ((callbacks a).app_conn_add (set_contexts apps a list1) (get_or list1 i blank)
                  (stack.start_advertising s)).0 in
              let is_id : c.conn_id ≡ pos id =
                keeps (set_contexts apps a list1) (get_or list1 i blank) (stack.start_advertising s)
                ∙ ap (λ x. x.conn_id) (get_or-set_free list i d found) in
              rw
                (found, on_connect, set-set list i d c, contexts-set_contexts apps a (set list i c))
                (
                  (c, (is_id, λ j. view-set_free list i id j c found is_id new)),
                  set_free-IsDistinct list i id c found is_id new distinct,
                )
        ]

    -- A connection that goes, in a table where none has two contexts: it has none, every other one keeps its
    -- own, and none has two.
    pub on_disconnect-view :
        (apps : Apps) (a id : ℕ) (s : S)
        → IsDistinct (contexts (apps.app a))
        → let list' = contexts ((on_disconnect stack callbacks apps a id s).0.app a) in
          ((j : ℕ) → view list' j ≡ (if id == j then none else view (contexts (apps.app a)) j))
          × IsDistinct list'
    unfolding on_disconnect set_conn
    on_disconnect-view apps a id s distinct =
        let list = contexts (apps.app a) in
        elim (Option-cases (find_conn id list)) [
          | inl gone ↦
              rw (gone, on_disconnect)
                ((λ j. ground (arith, find_conn-none list id gone)), distinct)
          | inr (i, found) ↦
              let c =
                ((callbacks a).app_conn_del apps (get_or list i blank)
                  (stack.start_advertising s)).0 in
              let d = record (get_or (set list i c) i blank) { conn_id = negsuc 0 } in
              rw
                (
                  found,
                  on_disconnect,
                  set-set list i c d,
                  contexts-set_contexts apps a (set list i d),
                )
                (
                  (λ j. view-set_conn list i id j d found refl distinct),
                  set-IsDistinct list i d refl distinct,
                )
        ]
