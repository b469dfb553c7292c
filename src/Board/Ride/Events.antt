-- ===== src/Board/Ride/Events.antt =====
-- The speed of the board under any sequence of the events of lib/ble/esk8_ble_apps.c.
use esk.Common.{ℕ, zero, suc, ◌≡◌, refl, ◌∙◌, inl, inr, List, [], ◌∷◌, none, Option-cases}
use esk.Common.Int.{ℤ, pos, negsuc}
use esk.Ble.Types.{Apps, Event, reg, creat_attr_tab, connect, disconnect, write, other}
use esk.Ble.Table.Laws.{view}
use esk.Ble.Handler.{contexts, app_of_if, after_event, app_event, dispatch, gatts_evt_hndl}
use esk.Board.{Board, board_stack, Drivers, services, events}
use esk.Board.Ride.{missing-IsSafe, last_duty, IsTaken, IsSafe}
use esk.Board.Ride.Connections.{on_connect-IsSafe, on_disconnect-IsSafe}
use esk.Board.Ride.Writes.{on_write-IsSafe, on_reg-IsSafe}

-- A safe board whose control service has no connection.
IsSafe-alone :
    (apps : Apps) (b : Board)
    → IsSafe apps b
    → ((id : ℕ) → view (contexts (apps.app 1)) id ≡ none)
    → last_duty 0 b.acts ≡ 0
IsSafe-alone apps b safe alone =
    safe.duty ∙ elim safe.controlled [ inl e ↦ e | inr held ↦ absurd (free b.conn_id held) ]
  where
    free : (cid : ℤ) → IsTaken cid (contexts (apps.app 1)) → ⊥
    free (pos id) held = held (alone id)
    free (negsuc n) held = held

-- No event but that of a table.
abbrev pub IsRunning : Event → Type 0
IsRunning (creat_attr_tab status num_handle new_handles) = ⊥
IsRunning _ = Unit {0}

abbrev pub AreRunning : List (ℕ × Event) → Type 0
AreRunning [] = Unit {0}
AreRunning ((gatts_if, event) ∷ rest) = IsRunning event × AreRunning rest

module _ (drivers : Drivers) where
  app_evt_cb-inert :
      (apps : Apps) (a : ℕ) (event : Event) (b : Board)
      → (services drivers a).app_evt_cb apps event b ≡ b
  app_evt_cb-inert apps zero event b = refl
  app_evt_cb-inert apps (suc zero) event b = refl
  app_evt_cb-inert apps (suc (suc n)) event b = refl

  after_event-IsSafe :
      (apps : Apps) (a : ℕ) (event : Event) (b : Board)
      → IsSafe apps b
      → let r = after_event board_stack (services drivers) a event (apps, b) in IsSafe r.0 r.1
  unfolding after_event
  after_event-IsSafe apps a event b safe = rw (app_evt_cb-inert apps a event b) safe

  app_event-IsSafe :
      (apps : Apps) (a : ℕ) (event : Event) (b : Board)
      → IsRunning event
      → IsSafe apps b
      → let r = app_event board_stack (services drivers) apps a event b in IsSafe r.0 r.1
  unfolding app_event
  app_event-IsSafe apps a (reg app_id) b run safe = after_event-IsSafe apps a (reg app_id) b safe
  app_event-IsSafe apps a (creat_attr_tab status n new) b run safe = absurd run
  app_event-IsSafe apps a (connect id) b run safe =
      after_event-IsSafe _ a (connect id) _ (on_connect-IsSafe drivers apps a id b safe)
  app_event-IsSafe apps a (disconnect id) b run safe =
      after_event-IsSafe _ a (disconnect id) _ (on_disconnect-IsSafe drivers apps a id b safe)
  app_event-IsSafe apps a (write handle id len value) b run safe =
      after_event-IsSafe _ a (write handle id len value) _
        (on_write-IsSafe drivers apps a handle id len value b safe)
  app_event-IsSafe apps a (other event) b run safe = after_event-IsSafe apps a (other event) b safe

  dispatch-IsSafe :
      (apps : Apps) (gatts_if : ℕ) (event : Event) (b : Board)
      → IsRunning event
      → IsSafe apps b
      → let r = dispatch board_stack (services drivers) apps gatts_if event b in IsSafe r.0 r.1
  unfolding dispatch
  dispatch-IsSafe apps gatts_if event b run safe = elim (Option-cases (app_of_if apps gatts_if)) [
    | inl nobody ↦ rw (nobody, dispatch) (missing-IsSafe apps b safe)
    | inr (a, owner) ↦ rw (owner, dispatch) (app_event-IsSafe apps a event b run safe)
  ]

  gatts_evt_hndl-IsSafe :
      (apps : Apps) (gatts_if : ℕ) (event : Event) (b : Board)
      → IsRunning event
      → IsSafe apps b
      → let r = gatts_evt_hndl board_stack (services drivers) apps gatts_if event b in
        IsSafe r.0 r.1
  unfolding gatts_evt_hndl
  gatts_evt_hndl-IsSafe apps gatts_if (reg app_id) b run safe =
      on_reg-IsSafe drivers apps gatts_if app_id b safe
  gatts_evt_hndl-IsSafe apps gatts_if (creat_attr_tab status n new) b run safe = absurd run
  gatts_evt_hndl-IsSafe apps gatts_if (connect id) b run safe =
      dispatch-IsSafe apps gatts_if (connect id) b run safe
  gatts_evt_hndl-IsSafe apps gatts_if (disconnect id) b run safe =
      dispatch-IsSafe apps gatts_if (disconnect id) b run safe
  gatts_evt_hndl-IsSafe apps gatts_if (write handle id len value) b run safe =
      dispatch-IsSafe apps gatts_if (write handle id len value) b run safe
  gatts_evt_hndl-IsSafe apps gatts_if (other event) b run safe =
      dispatch-IsSafe apps gatts_if (other event) b run safe

  -- From a running controller that is safe, any sequence of events but those that create a table of attributes
  -- leads to one: the duty asked for last is the speed, and is 0 unless the connection that controls the board
  -- is one of those of the control service.
  pub events-IsSafe :
      (list : List (ℕ × Event)) (apps : Apps) (b : Board)
      → AreRunning list
      → IsSafe apps b
      → let r = events drivers list apps b in IsSafe r.0 r.1
  unfolding events
  events-IsSafe [] apps b run safe = safe
  events-IsSafe ((gatts_if, event) ∷ rest) apps b run safe =
      events-IsSafe rest _ _ run.1 (gatts_evt_hndl-IsSafe apps gatts_if event b run.0 safe)

  -- From a running controller that is safe, any sequence of events but those that create a table of attributes,
  -- behind which the control service has no connection, leaves 0 as the duty asked for last.
  pub events_stop :
      (list : List (ℕ × Event)) (apps : Apps) (b : Board)
      → AreRunning list
      → IsSafe apps b
      → ((id : ℕ) → view (contexts ((events drivers list apps b).0.app 1)) id ≡ none)
      → last_duty 0 (events drivers list apps b).1.acts ≡ 0
  events_stop list apps b run safe alone =
      IsSafe-alone _ _ (events-IsSafe list apps b run safe) alone
