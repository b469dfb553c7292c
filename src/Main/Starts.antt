-- ===== src/Main/Starts.antt =====
-- src/main/app_main.c: the start with all memory, up to the ride.
use esk.Common.{
  ℕ, zero, suc, ◌≡◌, ◌<◌, refl, ap, sym, ◌∙◌, true, List, [], ◌∷◌, none, some, replicate, length,
  Option, arith,
}
use esk.Err.{Err, ok}
use esk.Pwm
use esk.Ble.Types.{Apps, Event, live, blank, set_app}
use esk.Ble.Attr.{attr_db}
use esk.Ble.Table.Laws.{view}
use esk.Ble.Handler.{contexts, app_at}
use esk.Ble.Apps.{Given, apps_init, app_register, fill, take_slot, find_slot}
use esk.Ble.Apps.Slots.{all_given, app_register-room}
use esk.Ble.Table.{find_index}
use esk.Onboard.{Onboard, Act, app_register as ask, onboard_start}
use esk.Board.{Board, done, Drivers, board_stack, events}
use esk.Board.Ride.Output.{LedcWorks, output, events-IsDriven, behind_start-IsDriven}
use esk.Board.Ride.Boot.{AllSetup, behind_start, onboard_start-events}
use esk.Board.Ride.Events.{AreRunning}
use esk.Main.{World, ended, no_apps, powered, main_cnfg, registered, register_each, app_main}

-- Memory and flash that fail no call of the Bluetooth applications.
pub record IsGiven (world : World) : Type 0 where
  pub checks : world.checks ≡ record { erased = true; set_up = true }
  pub nvs_err : world.nvs_err ≡ 0
  pub nvs : world.nvs ≡ ok
  pub allocated : world.allocated ≡ true
  pub given : (a : ℕ) → world.given a ≡ all_given

-- The applications behind a registration.
abbrev added : Apps → List (Option ℕ) → ℕ → ℕ → Apps
added apps list i a =
    record (fill apps list i a (record (apps.app a) {
      attr_hndl_list = live (replicate (apps.app a).attr_num 0);
      conn_ctx_list = live (replicate apps.conn_num_max blank);
    })) { curr_app_id = suc apps.curr_app_id }

register_each-step :
    (given : ℕ → Given) (a : ℕ) (rest : List ℕ) (apps : Apps) (b : Board) (list : List (Option ℕ))
    (i : ℕ)
    → given a ≡ all_given
    → apps.apps_list ≡ some list
    → find_slot list ≡ some i
    → register_each given (a ∷ rest) apps b
      ≡ register_each given rest (added apps list i a) (done b (ask apps.curr_app_id ∷ []))
unfolding register_each take_slot set_app
register_each-step given a rest apps b list i g e room =
    ap {A = Option (Apps × Err × Board)} {B = Option (Apps × Board)}
      (λ r. elim r [ none ↦ none | some (apps', err, b') ↦ register_each given rest apps' b' ])
      (ap (λ x. app_register board_stack x a apps b) g
        ∙ app_register-room board_stack all_given a apps b list i e room)

register_each-nil :
    (given : ℕ → Given) (apps : Apps) (b : Board) → register_each given [] apps b ≡ some (apps, b)
unfolding register_each
register_each-nil given apps b = refl

-- Three empty slots, and ten connections for each application.
abbrev pub empty_apps : Apps
empty_apps = record no_apps {
  apps_list = some (replicate 3 none);
  apps_num_max = 3;
  conn_num_max = 10;
}

abbrev pub one_app : Apps
one_app = added empty_apps (none ∷ none ∷ none ∷ []) 0 0

abbrev pub two_apps : Apps
two_apps = added one_app (some 0 ∷ none ∷ none ∷ []) 1 1

-- The three applications registered, each with the number that it has in app_main.
abbrev pub three_apps : Apps
three_apps = added two_apps (some 0 ∷ some 1 ∷ none ∷ []) 2 2

-- What the registrations ask of the stack.
abbrev pub asked : List Act → Board
asked list = record powered { acts = list }

abbrev pub ready : Board
ready = asked (ask 0 ∷ ask 1 ∷ ask 2 ∷ [])

register_each-three :
    (given : ℕ → Given)
    → ((a : ℕ) → given a ≡ all_given)
    → register_each given registered empty_apps powered ≡ some (three_apps, ready)
unfolding find_slot find_index set_app
register_each-three given g =
    register_each-step given 0 (1 ∷ 2 ∷ []) empty_apps powered (none ∷ none ∷ none ∷ []) 0 (g 0)
      refl refl
    ∙ (register_each-step given 1 (2 ∷ []) one_app (asked (ask 0 ∷ [])) (some 0 ∷ none ∷ none ∷ [])
          1 (g 1) refl refl
        ∙ (register_each-step given 2 [] two_apps (asked (ask 0 ∷ ask 1 ∷ []))
              (some 0 ∷ some 1 ∷ none ∷ []) 2 (g 2) refl refl
            ∙ register_each-nil given three_apps ready))

begun-IsGiven :
    (world : World)
    → IsGiven world
    → apps_init world.checks world.nvs_err world.nvs world.allocated 3 10 no_apps
      ≡ some (empty_apps, ok)
unfolding apps_init
begun-IsGiven world g = rw (g.checks, g.nvs_err, g.nvs, g.allocated) refl

main-IsGiven :
    (world : World)
    → IsGiven world
    → app_main world no_apps powered ≡ some (ended world (three_apps, ready))
unfolding app_main
main-IsGiven world g =
    ap {A = Option (Apps × Err)} {B = Option (Apps × Board)}
      (λ r. elim r [
        | none ↦ none
        | some (apps1, err) ↦ elim (register_each world.given registered apps1 powered) [
          | none ↦ none
          | some r ↦ some (ended world r)
        ]
      ])
      (begun-IsGiven world g)
    ∙ ap {A = Option (Apps × Board)} {B = Option (Apps × Board)}
        (λ r. elim r [ none ↦ none | some r ↦ some (ended world r) ])
        (register_each-three world.given g.given)

is_main :
    (world : World) (m : Apps × Board)
    → IsGiven world
    → app_main world no_apps powered ≡ some m
    → m ≡ ended world (three_apps, ready)
is_main world m g e =
    sym (ap (λ r. elim r [ none ↦ m | some x ↦ x ]) (sym (main-IsGiven world g) ∙ e))

-- With memory and flash that fail no call of the Bluetooth applications, and checks that pass, app_main registers its
-- three applications, each at its own number, with ten free contexts and a handle for each attribute of its table.
pub app_main-registers :
    (world : World) (a : ℕ) (m : Apps × Board)
    → IsGiven world
    → app_main world no_apps powered ≡ some m
    → a < 3
    → (app_at m.0 a ≡ some a)
      × ((m.0.app a).conn_ctx_list ≡ live (replicate 10 blank))
      × ((m.0.app a).attr_hndl_list ≡ live (replicate (length (attr_db a)) 0))
unfolding app_at set_app
app_main-registers world zero m g e lt = rw (is_main world m g e) (refl, refl, refl)
app_main-registers world (suc zero) m g e lt = rw (is_main world m g e) (refl, refl, refl)
app_main-registers world (suc (suc zero)) m g e lt = rw (is_main world m g e) (refl, refl, refl)
app_main-registers world (suc (suc (suc n))) m g e lt = absurd (omega (arith, lt))

-- Behind the events of a setup and of a ride that leave the control service without a connection, the output of the
-- signal has a duty of 0.
abbrev pub StopsAlone :
    Drivers → Pwm.Hndl → List (ℕ × Event) → List (ℕ × Event) → Apps × Board → Type 0
StopsAlone drivers h setup ride m =
    let r = events drivers setup m.0 m.1 in
    let r' = events drivers ride r.0 r.1 in
    ((id : ℕ) → view (contexts (r'.0.app 1)) id ≡ none) → (output h (0, 0) r'.1.acts).1 ≡ 0

-- With memory and flash that fail no call of the Bluetooth applications, checks that pass, and a start of the
-- controller that returns `ESK8_OK` with a PWM signal, app_main returns; and behind it, when the calls of the PWM timer
-- succeed, any Bluetooth events without a write, and then any without the creation of a table of attributes, that
-- leave the control service without a connection, leave the output of the signal at a duty of 0.
pub app_main-events :
    (drivers : Drivers) (world : World) (o : Onboard) (acts : List Act) (h : Pwm.Hndl)
    (setup ride : List (ℕ × Event))
    → LedcWorks drivers
    → IsGiven world
    → onboard_start main_cnfg powered.onboard world.sdk ≡ (o, ok, acts)
    → world.sdk.pwm ≡ some h
    → AllSetup setup
    → AreRunning ride
    → (m : Apps × Board) × ((app_main world no_apps powered ≡ some m)
        × StopsAlone drivers h setup ride m)
app_main-events drivers world o acts h setup ride works g started signal all_setup running = (
  (three_apps, behind_start ready o acts),
  (
    main-IsGiven world g ∙ ap (λ r. some (three_apps, behind_start ready r.0 r.2)) started,
    λ alone.
        let begun = behind_start-IsDriven h main_cnfg world.sdk ready o acts started signal refl in
        let r = events drivers setup three_apps (behind_start ready o acts) in
        let driven =
          events-IsDriven drivers works h ride r.0 r.1
            (events-IsDriven drivers works h setup three_apps _ begun) in
        ap (λ d. d.1) driven.driven
        ∙ onboard_start-events drivers main_cnfg world.sdk three_apps ready o acts h setup ride
            started signal refl refl all_setup running alone,
  ),
)
