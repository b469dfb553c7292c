-- ===== src/Board/Ride/Deinit.antt =====
-- lib/ble/esk8_ble_apps.c `esk8_ble_apps_deinit` on the board.
use esk.Common.{
  ℕ, zero, suc, ◌≡◌, refl, ap, ◌∙◌, inl, inr, true, false, List, [], ◌∷◌, Option, none, some,
  get_elem?, Bool-cases, ◌==◌, arith,
}
use esk.Common.Int.{ℤ, pos, negsuc}
use esk.Ble.Types.{Ctx, Memory, freed, live, Apps, set_app}
use esk.Ble.Table.{is_free}
use esk.Ble.Table.Laws.{view}
use esk.Ble.Apps.{delete_contexts, delete_list, deinit_slots}
use esk.Pwm
use esk.Onboard.{is_stopped}
use esk.Board.{Board, eq_ℤ, Drivers, ctrl_conn_del, services}
use esk.Board.Ride.{IsTaken, IsSafe, Same-IsSafe}
use esk.Board.Ride.Boot.{IsStill, services_keep, ride_at_stops}

IsTaken-other :
    (cid bid : ℤ) (ctx : ℕ) (cs : List Ctx)
    → eq_ℤ cid bid ≡ false
    → IsTaken bid (record { conn_id = cid; ctx = ctx } ∷ cs)
    → IsTaken bid cs
unfolding view
IsTaken-other cid (negsuc m) ctx cs e taken = taken
IsTaken-other (negsuc n) (pos id) ctx cs e taken = taken
IsTaken-other (pos n) (pos id) ctx cs e taken = λ gone. taken (ground (arith, e, gone))

IsTaken-free :
    (cid bid : ℤ) (ctx : ℕ) (cs : List Ctx)
    → is_free (record { conn_id = cid; ctx = ctx }) ≡ true
    → IsTaken bid (record { conn_id = cid; ctx = ctx } ∷ cs)
    → IsTaken bid cs
unfolding view
IsTaken-free cid (negsuc m) ctx cs e taken = taken
IsTaken-free (negsuc n) (pos id) ctx cs e taken = taken
IsTaken-free (pos n) (pos id) ctx cs e taken = absurd (cc e)

IsTaken-none : (cid : ℤ) → IsTaken cid [] → ⊥
unfolding view
IsTaken-none (pos id) taken = taken refl
IsTaken-none (negsuc n) taken = taken

-- The applications behind the end of one, and the board before its `app_deinit`.
abbrev pub ended : Apps → ℕ → Apps
ended apps a =
    set_app apps a (record (apps.app a) { attr_hndl_list = freed; conn_ctx_list = freed })

-- The applications of the slots have live contexts, each when its turn comes.
abbrev pub AllLive : Apps → List (Option ℕ) → Type 0
AllLive apps [] = Unit {0}
AllLive apps (none ∷ slots) = AllLive apps slots
AllLive apps (some a ∷ slots) =
    ((list : List Ctx) × ((apps.app a).conn_ctx_list ≡ live list)) × AllLive (ended apps a) slots

module _ (drivers : Drivers) where
  -- Contexts that are deleted leave a still board still.
  delete_contexts-IsStill :
      (apps : Apps) (a : ℕ) (list : List Ctx) (b : Board)
      → IsStill b
      → IsStill (delete_contexts (services drivers) apps a list b)
  unfolding delete_contexts
  delete_contexts-IsStill apps a [] b still = still
  delete_contexts-IsStill apps a (c ∷ cs) b still = elim (Bool-cases (is_free c)) [
    | inl free ↦ rw free (delete_contexts-IsStill apps a cs b still)
    | inr taken ↦ rw taken (
        delete_contexts-IsStill apps a cs _ ((services_keep drivers a).app_conn_del apps c b still))
  ]

  -- The connection that controls the board is one of those that are deleted.
  delete_contexts-stops :
      (apps : Apps) (list : List Ctx) (b : Board) (h : Pwm.Hndl)
      → is_stopped b.onboard.state ≡ false
      → b.onboard.hndl_pwm ≡ some h
      → IsTaken b.conn_id list
      → IsStill (delete_contexts (services drivers) apps 1 list b)
  unfolding delete_contexts ctrl_conn_del
  delete_contexts-stops apps [] b h running signal taken = absurd (IsTaken-none b.conn_id taken)
  delete_contexts-stops apps (c ∷ cs) b h running signal taken = elim (Bool-cases (is_free c)) [
    | inl free ↦ rw free (
        delete_contexts-stops apps cs b h running signal
          (IsTaken-free c.conn_id b.conn_id c.ctx cs free taken))
    | inr used ↦ elim (Bool-cases (eq_ℤ c.conn_id b.conn_id)) [
      | inl same ↦
          rw (used, same)
            (delete_contexts-IsStill apps 1 cs _
              (ride_at_stops drivers apps (record b { conn_id = negsuc 0 }) h running signal))
      | inr differs ↦
          rw (used, differs)
            (delete_contexts-stops apps cs b h running signal
              (IsTaken-other c.conn_id b.conn_id c.ctx cs differs taken))
    ]
  ]

  delete_contexts-inert :
      (apps : Apps) (a : ℕ) (list : List Ctx) (b : Board)
      → ((c : Ctx) → ((services drivers a).app_conn_del apps c b).1 ≡ b)
      → delete_contexts (services drivers) apps a list b ≡ b
  unfolding delete_contexts
  delete_contexts-inert apps a [] b inert = refl
  delete_contexts-inert apps a (c ∷ cs) b inert = elim (Bool-cases (is_free c)) [
    | inl free ↦ rw free (delete_contexts-inert apps a cs b inert)
    | inr used ↦ rw (used, inert c) (delete_contexts-inert apps a cs b inert)
  ]

  app_deinit-inert : (apps : Apps) (a : ℕ) (b : Board) → (services drivers a).app_deinit apps b ≡ b
  app_deinit-inert apps zero b = refl
  app_deinit-inert apps (suc zero) b = refl
  app_deinit-inert apps (suc (suc n)) b = refl

  -- The inner loop over live contexts.
  abbrev deleted : Apps → ℕ → List Ctx → Board → Board
  deleted apps a list b = delete_contexts (services drivers) apps a list b

  deinit_slots-slot :
      (apps : Apps) (a : ℕ) (slots : List (Option ℕ)) (b : Board) (list : List Ctx)
      → (apps.app a).conn_ctx_list ≡ live list
      → deinit_slots (services drivers) apps (some a ∷ slots) b
        ≡ deinit_slots (services drivers) (ended apps a) slots (deleted apps a list b)
  unfolding deinit_slots
  deinit_slots-slot apps a slots b list e =
      ap {A = Memory Ctx} {B = Option (Apps × Board)}
        (λ m. elim (delete_list (services drivers) apps a m b) [
          | none ↦ none
          | some b1 ↦
              deinit_slots (services drivers) (ended apps a) slots
                ((services drivers a).app_deinit apps b1)
        ])
        e
      ∙ ap (deinit_slots (services drivers) (ended apps a) slots)
          (app_deinit-inert apps a (deleted apps a list b))

  -- The loop comes to its end, with a predicate on the board.
  abbrev pub EndsIn : (Board → Type 0) → Option (Apps × Board) → Type 0
  EndsIn P r = (r' : Apps × Board) × ((r ≡ some r') × P r'.1)

  -- The slots that are left, of a board that has a property that the deletion of contexts keeps.
  pub deinit_slots-EndsIn :
      (P : Board → Type 0)
      → ((apps : Apps) (a : ℕ) (list : List Ctx) (b : Board) → P b → P (deleted apps a list b))
      → (apps : Apps) (slots : List (Option ℕ)) (b : Board) → AllLive apps slots
      → P b
      → EndsIn P (deinit_slots (services drivers) apps slots b)
  unfolding deinit_slots
  deinit_slots-EndsIn P keeps apps [] b all held = ((apps, b), (refl, held))
  deinit_slots-EndsIn P keeps apps (none ∷ slots) b all held =
      deinit_slots-EndsIn P keeps apps slots b all held
  deinit_slots-EndsIn P keeps apps (some a ∷ slots) b ((list, e), all) held =
      rw (deinit_slots-slot apps a slots b list e)
        (deinit_slots-EndsIn P keeps (ended apps a) slots _ all (keeps apps a list b held))

  -- A service that is not the control service leaves a safe board safe.
  ended-other : (apps : Apps) (a : ℕ) → (1 == a) ≡ false → (ended apps a).app 1 ≡ apps.app 1
  unfolding set_app
  ended-other apps a e = rw e refl

  ended-IsSafe :
      (apps : Apps) (a : ℕ) (b : Board) → (1 == a) ≡ false → IsSafe apps b → IsSafe (ended apps a) b
  ended-IsSafe apps a b e safe =
      Same-IsSafe apps (ended apps a) b b (record { onboard = refl; duty = refl })
        (λ held. rw (ended-other apps a e) held) safe

  -- The slot of the control service, in a board that is safe.
  control_stops :
      (apps : Apps) (b : Board) (list : List Ctx)
      → (apps.app 1).conn_ctx_list ≡ live list
      → IsSafe apps b
      → IsStill (deleted apps 1 list b)
  control_stops apps b list e safe = elim safe.controlled [
    | inl zero_speed ↦ delete_contexts-IsStill apps 1 list b (record {
      running = safe.running;
      hndl = safe.hndl;
      signal = safe.signal;
      speed = zero_speed;
      duty = safe.duty ∙ zero_speed;
    })
    | inr held ↦ delete_contexts-stops apps list b safe.hndl safe.running safe.signal (rw e at held)
  ]

  pub deinit_slots-stops :
      (apps : Apps) (slots : List (Option ℕ)) (i : ℕ) (b : Board)
      → AllLive apps slots
      → get_elem? slots i ≡ some (some 1)
      → IsSafe apps b
      → EndsIn IsStill (deinit_slots (services drivers) apps slots b)
  unfolding deinit_slots
  deinit_slots-stops apps [] i b all e safe = absurd (cc e)
  deinit_slots-stops apps (none ∷ slots) zero b all e safe = absurd (cc e)
  deinit_slots-stops apps (none ∷ slots) (suc i) b all e safe =
      deinit_slots-stops apps slots i b all e safe
  deinit_slots-stops apps (some zero ∷ slots) zero b all e safe = absurd (ground (arith, e))
  deinit_slots-stops apps (some zero ∷ slots) (suc i) b ((list, found), all) e safe =
      rw
        (
          deinit_slots-slot apps 0 slots b list found,
          delete_contexts-inert apps 0 list b (λ c. refl),
        )
        (deinit_slots-stops (ended apps 0) slots i b all e (ended-IsSafe apps 0 b refl safe))
  deinit_slots-stops apps (some (suc zero) ∷ slots) i b ((list, found), all) e safe =
      rw (deinit_slots-slot apps 1 slots b list found) (
        deinit_slots-EndsIn IsStill delete_contexts-IsStill (ended apps 1) slots _ all
          (control_stops apps b list found safe))
  deinit_slots-stops apps (some (suc (suc n)) ∷ slots) zero b all e safe =
      absurd (ground (arith, e))
  deinit_slots-stops apps (some (suc (suc n)) ∷ slots) (suc i) b ((list, found), all) e safe =
      rw
        (
          deinit_slots-slot apps (suc (suc n)) slots b list found,
          delete_contexts-inert apps (suc (suc n)) list b (λ c. refl),
        )
        (deinit_slots-stops (ended apps (suc (suc n))) slots i b all e
          (ended-IsSafe apps (suc (suc n)) b (ground arith) safe))
