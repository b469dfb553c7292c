-- ===== src/Main/Ended.antt =====
-- src/main/app_main.c: the start with memory and flash that fail for Bluetooth.
use esk.Common.{
  ℕ, ◌≡◌, refl, ap, sym, ◌∙◌, Bool, true, false, List, [], ◌∷◌, ◌++◌, Option-cases, inl, inr, none,
  some, Option, append_assoc, if◌then◌else◌, not, append-nil, map, ◌==◌,
}
use esk.Err.{Err, failed}
use esk.Ble.Types.{Apps}
use esk.Ble.Apps.{Checks, Given, apps_init, app_register, take_slot, find_slot}
use esk.Ble.Apps.Slots.{app_register-full, app_register-room}
use esk.Onboard.{Act, app_register as ask, onboard_start}
use esk.Board.{Board, board_stack}
use esk.Main.{World, main_cnfg, registered, register_each, ended, app_main}

-- The calls of Bluetooth whose failure restarts the board do not fail.
pub record IsChecked (world : World) : Type 0 where
  pub checks : world.checks ≡ record { erased = true; set_up = true }
  pub given : (a : ℕ) → (world.given a).registered ≡ true

-- A call that returns, and changes nothing of the board but for what it asks of the stack.
abbrev pub Asks : Board → Board → Type 0
Asks b b' = (ids : List ℕ) × (b' ≡ record b { acts = b.acts ++ map ask ids })

abbrev pub AsksOf : Board → Option (Apps × Err × Board) → Type 0
AsksOf b none = ⊥
AsksOf b (some (apps, err, b')) = Asks b b'

abbrev pub AskEach : Board → Option (Apps × Board) → Type 0
AskEach b none = ⊥
AskEach b (some (apps, b')) = Asks b b'

none_asked : (b : Board) → Asks b b
none_asked b =
    ([], ap {A = List Act} {B = Board} (λ l. record b { acts = l }) (sym (append-nil b.acts)))

if-AsksOf :
    (t : Bool) (b : Board) (x y : Option (Apps × Err × Board))
    → AsksOf b x
    → AsksOf b y
    → AsksOf b (if t then x else y)
if-AsksOf true b x y hx hy = hx
if-AsksOf false b x y hx hy = hy

take_slot-AsksOf :
    (given : Given) (apps : Apps) (list : List (Option ℕ)) (i a : ℕ) (b : Board)
    → given.registered ≡ true
    → AsksOf b (take_slot board_stack given apps list i a b)
unfolding take_slot
take_slot-AsksOf given apps list i a b checked =
    if-AsksOf (not given.handles) b _ _ (none_asked b) (
      if-AsksOf (not given.contexts) b _ _ (none_asked b)
        (rw checked (apps.curr_app_id ∷ [], refl)))

app_register-AsksOf :
    (given : Given) (apps : Apps) (a : ℕ) (b : Board)
    → given.registered ≡ true
    → AsksOf b (app_register board_stack given a apps b)
unfolding app_register
app_register-AsksOf given apps a b checked = elim (Option-cases apps.apps_list) [
  | inl none_eq ↦ rw none_eq (none_asked b)
  | inr (list, eq) ↦ elim (Option-cases (find_slot list)) [
    | inl full ↦ rw (app_register-full board_stack given a apps b list eq full) (none_asked b)
    | inr (i, room) ↦
        rw (app_register-room board_stack given a apps b list i eq room)
          (take_slot-AsksOf given apps list i a b checked)
  ]
]

map-append : (xs ys : List ℕ) → map ask (xs ++ ys) ≡ map ask xs ++ map ask ys
map-append [] ys = refl
map-append (x ∷ xs) ys = ap (λ l. ask x ∷ l) (map-append xs ys)

Asks-Asks : (a b c : Board) → Asks a b → Asks b c → Asks a c
Asks-Asks a b c (xs, e) (ys, e') = (
  xs ++ ys,
  e'
      ∙ ap {A = Board} {B = Board} (λ x. record x { acts = x.acts ++ map ask ys }) e
      ∙ ap {A = List Act} {B = Board} (λ l. record a { acts = l })
          (append_assoc a.acts (map ask xs) (map ask ys)
            ∙ ap (λ l. a.acts ++ l) (sym (map-append xs ys))),
)

AskEach-Asks : (a b : Board) (r : Option (Apps × Board)) → Asks a b → AskEach b r → AskEach a r
AskEach-Asks a b none asks each = each
AskEach-Asks a b (some (apps, c)) asks each = Asks-Asks a b c asks each

-- The rest of the registrations behind one that returns.
each_rest :
    (b : Board) (x : Option (Apps × Err × Board)) (rest : Apps → Board → Option (Apps × Board))
    → AsksOf b x
    → ((apps : Apps) (b' : Board) → AskEach b' (rest apps b'))
    → AskEach b (elim x [ none ↦ none | some (apps', err, b') ↦ rest apps' b' ])
each_rest b none rest asks each = asks
each_rest b (some (apps, err, b')) rest asks each =
    AskEach-Asks b b' (rest apps b') asks (each apps b')

register_each-AskEach :
    (given : ℕ → Given) (list : List ℕ) (apps : Apps) (b : Board)
    → ((a : ℕ) → (given a).registered ≡ true)
    → AskEach b (register_each given list apps b)
unfolding register_each
register_each-AskEach given [] apps b checked = none_asked b
register_each-AskEach given (a ∷ rest) apps b checked =
    each_rest b (app_register board_stack (given a) a apps b)
      (λ (apps' : Apps) (b' : Board). register_each given rest apps' b')
      (app_register-AsksOf (given a) apps a b (checked a))
      (λ apps' b'. register_each-AskEach given rest apps' b' checked)

if-some :
    {A : Type 0} (t : Bool) (x y : Option A)
    → ((a : A) × (x ≡ some a))
    → ((a : A) × (y ≡ some a))
    → (a : A) × ((if t then x else y) ≡ some a)
if-some true x y hx hy = hx
if-some false x y hx hy = hy

-- A set up whose checks pass returns.
apps_init-some :
    (checks : Checks) (nvs_err : ℕ) (nvs : Err) (allocated : Bool) (n_apps n_conns : ℕ)
    (apps : Apps)
    → checks ≡ record { erased = true; set_up = true }
    → (r : Apps × Err) × (apps_init checks nvs_err nvs allocated n_apps n_conns apps ≡ some r)
unfolding apps_init
apps_init-some checks nvs_err nvs allocated n_apps n_conns apps checked =
    elim (Option-cases apps.apps_list) [
      | inl none_eq ↦
          rw (none_eq, checked)
            (if-some (not (nvs_err == 0)) _ _ (_, refl)
              (if-some (failed nvs) _ _ (_, refl) (if-some allocated _ _ (_, refl) (_, refl))))
      | inr (list, eq) ↦ rw eq (_, refl)
    ]

-- What the start of the controller adds to a board behind its registrations.
abbrev pub Starts : World → Board → Option (Apps × Board) → Type 0
Starts world b none = ⊥
Starts world b (some (apps, after)) =
    let (o, err, acts) = onboard_start main_cnfg b.onboard world.sdk in
    (after.onboard ≡ o) × ((ids : List ℕ) × (after.acts ≡ (b.acts ++ map ask ids) ++ acts))

ended-Starts :
    (world : World) (b : Board) (r : Option (Apps × Board))
    → AskEach b r
    → Starts world b (elim r [ none ↦ none | some x ↦ some (ended world x) ])
ended-Starts world b none asks = asks
ended-Starts world b (some (apps, b')) (ids, e) = rw e (refl, (ids, refl))

-- The registrations and the start behind a set up that returns.
init_Starts :
    (world : World) (b : Board) (x : Option (Apps × Err)) (r : Apps × Err)
    → x ≡ some r
    → Starts world b (elim (register_each world.given registered r.0 b) [
      | none ↦ none
      | some m ↦ some (ended world m)
    ])
    → Starts world b (elim x [
      | none ↦ none
      | some (apps1, err) ↦ elim (register_each world.given registered apps1 b) [
        | none ↦ none
        | some m ↦ some (ended world m)
      ]
    ])
init_Starts world b x r e starts = rw (e, Starts) starts

-- When the calls of Bluetooth that are checked by `ESP_ERROR_CHECK` do not fail, app_main returns and has started the
-- controller with its settings, whatever memory and flash fail for Bluetooth and in whatever state: the controller
-- is the one that the start leaves, and the acts are, behind those before, registrations and then those of the
-- start.
pub app_main-Starts :
    (world : World) (apps : Apps) (b : Board)
    → IsChecked world
    → Starts world b (app_main world apps b)
unfolding app_main
app_main-Starts world apps b checked =
    let (r, e) =
      apps_init-some world.checks world.nvs_err world.nvs world.allocated 3 10 apps
        checked.checks in
    init_Starts world b _ r e (
      ended-Starts world b (register_each world.given registered r.0 b)
        (register_each-AskEach world.given registered r.0 b checked.given))
