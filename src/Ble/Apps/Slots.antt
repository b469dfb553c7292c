-- ===== src/Ble/Apps/Slots.antt =====
-- The number under which the stack knows an application, and its slot of the list.
use esk.Common.{
  ℕ, zero, suc, ◌≡◌, refl, ap, ◌∙◌, Bool, true, false, List, [], ◌∷◌, ◌++◌, append_assoc, Option,
  none, some, length, get_elem?, set, replicate, arith, ◌&&◌,
}
use esk.Err.{Err, ok, err_oom, ble_init_maxreg}
use esk.Ble.Types.{App, Apps, Stack, set_app, live, null, freed, blank}
use esk.Ble.Handler.{app_at}
use esk.Ble.Apps.{find_slot, Given, app_register, take_slot, fill}

-- The applications registered, then free slots.
abbrev pub slots : List ℕ → ℕ → List (Option ℕ)
slots [] spare = replicate spare none
slots (a ∷ ids) spare = some a ∷ slots ids spare

-- As many slots are taken as numbers have been given out, the first ones of the list.
pub record IsAligned (apps : Apps) : Type 0 where
  pub ids : List ℕ
  pub spare : ℕ
  pub in_order : apps.apps_list ≡ some (slots ids spare)
  pub counted : length ids ≡ apps.curr_app_id

find_slot-slots : (ids : List ℕ) (spare : ℕ) → find_slot (slots ids (suc spare)) ≡ some (length ids)
unfolding find_slot
find_slot-slots [] spare = refl
find_slot-slots (a ∷ ids) spare = rw (find_slot-slots ids spare)

find_slot-full : (ids : List ℕ) → find_slot (slots ids 0) ≡ none
unfolding find_slot
find_slot-full [] = refl
find_slot-full (a ∷ ids) = rw (find_slot-full ids)

set-slots :
    (ids : List ℕ) (spare a : ℕ)
    → set (slots ids (suc spare)) (length ids) (some a) ≡ slots (ids ++ (a ∷ [])) spare
set-slots [] spare a = refl
set-slots (b ∷ ids) spare a = ap (λ t. some b ∷ t) (set-slots ids spare a)

get_elem?-slots :
    (ids more : List ℕ) (spare a : ℕ)
    → get_elem? (slots (ids ++ (a ∷ more)) spare) (length ids) ≡ some (some a)
get_elem?-slots [] more spare a = refl
get_elem?-slots (b ∷ ids) more spare a = get_elem?-slots ids more spare a

app_at-slots :
    (apps : Apps) (ids more : List ℕ) (spare a i : ℕ)
    → apps.apps_list ≡ some (slots (ids ++ (a ∷ more)) spare)
    → length ids ≡ i
    → app_at apps i ≡ some a
unfolding app_at
app_at-slots apps ids more spare a i e h = ground (arith, get_elem?-slots ids more spare a)

length-snoc : (ids : List ℕ) (a : ℕ) → length (ids ++ (a ∷ [])) ≡ suc (length ids)
length-snoc [] a = refl
length-snoc (b ∷ ids) a = ap suc (length-snoc ids a)

-- Memory for both lists, and a registration whose check passes.
abbrev pub all_given : Given
all_given = record { handles = true; contexts = true; registered = true }

module _ {S : Type 0} (stack : Stack S) where
  pub app_register-full :
      (given : Given) (a : ℕ) (apps : Apps) (s : S) (list : List (Option ℕ))
      → apps.apps_list ≡ some list
      → find_slot list ≡ none
      → app_register stack given a apps s ≡ some (apps, ble_init_maxreg, s)
  unfolding app_register
  app_register-full given a apps s list e full = ground arith

  pub app_register-room :
      (given : Given) (a : ℕ) (apps : Apps) (s : S) (list : List (Option ℕ)) (i : ℕ)
      → apps.apps_list ≡ some list
      → find_slot list ≡ some i
      → app_register stack given a apps s ≡ take_slot stack given apps list i a s
  unfolding app_register
  app_register-room given a apps s list i e room = ground arith

  -- What a registration comes to, with no slot left and with some.
  abbrev pub IsRegistered : Apps → ℕ → S → ℕ → Option (Apps × Err × S) → Type 0
  IsRegistered apps a s spare none = ⊥
  IsRegistered apps a s zero (some (apps', err, s')) =
      (apps' ≡ apps) × (err ≡ ble_init_maxreg) × (s' ≡ s)
  IsRegistered apps a s (suc spare) (some (apps', err, s')) =
      (err ≡ ok)
      × (s' ≡ stack.app_register apps.curr_app_id s)
      × (app_at apps' apps.curr_app_id ≡ some a)
      × IsAligned apps'

  -- A registration with memory whose check passes, from an aligned list: with no slot left it is refused and changes nothing;
  -- otherwise it succeeds, the stack is asked for the next number, that number's slot is the application, and the
  -- list is aligned.
  pub app_register-IsAligned :
      (apps : Apps) (a : ℕ) (s : S) (ids : List ℕ) (spare : ℕ)
      → apps.apps_list ≡ some (slots ids spare)
      → length ids ≡ apps.curr_app_id
      → IsRegistered apps a s spare (app_register stack (all_given) a apps s)
  unfolding take_slot
  app_register-IsAligned apps a s ids zero order counted =
      let e = app_register-full (all_given) a apps s (slots ids 0) order (find_slot-full ids) in
      rw e (refl, refl, refl)
  app_register-IsAligned apps a s ids (suc spare) order counted =
      let e =
        app_register-room (all_given) a apps s (slots ids (suc spare)) (length ids) order
          (find_slot-slots ids spare) in
      rw e (refl, refl, app_at-slots _ ids [] spare a apps.curr_app_id listed counted, aligned)
    where
      after : Apps
      after =
          record (fill apps (slots ids (suc spare)) (length ids) a (record (apps.app a) {
            attr_hndl_list = live (replicate (apps.app a).attr_num 0);
            conn_ctx_list = live (replicate apps.conn_num_max blank);
          })) { curr_app_id = suc apps.curr_app_id }

      listed : after.apps_list ≡ some (slots (ids ++ (a ∷ [])) spare)
      listed = ap some (set-slots ids spare a)

      aligned : IsAligned after
      aligned = record {
        ids = ids ++ (a ∷ []);
        spare = spare;
        in_order = listed;
        counted = length-snoc ids a ∙ ap suc counted;
      }

  -- What is left of an application for which the first, or else the second, `calloc` gives no memory.
  abbrev left_of : Bool → App → App
  left_of false x = record x { attr_hndl_list = null }
  left_of true x = record x { attr_hndl_list = freed; conn_ctx_list = null }

  take_slot-oom :
      (handles contexts registered : Bool) (apps : Apps) (list : List (Option ℕ)) (i a : ℕ) (s : S)
      → (handles && contexts) ≡ false
      → take_slot stack
          (record { handles = handles; contexts = contexts; registered = registered })
          apps
          list
          i
          a
          s
        ≡ some (fill apps list i a (left_of handles (apps.app a)), err_oom, s)
  unfolding take_slot
  take_slot-oom false contexts registered apps list i a s oom = refl
  take_slot-oom true false registered apps list i a s oom = refl
  take_slot-oom true true registered apps list i a s oom = absurd (cc oom)

  -- What becomes of the application that is registered behind one that failed.
  abbrev pub IsMisaligned : Apps → ℕ → S → Option (Apps × Err × S) → Type 0
  IsMisaligned apps a s none = ⊥
  IsMisaligned apps a s (some (apps2, err2, s2)) =
      (err2 ≡ ok)
      × (s2 ≡ stack.app_register apps.curr_app_id s)
      × (app_at apps2 apps.curr_app_id ≡ some a)

  -- A registration that fails for want of memory, for the handles or for the contexts, in an aligned list, takes
  -- a slot and gives out no number; so the application registered next is given the number of that slot, at which
  -- the stack's events reach the one that failed.
  pub app_register_misaligns :
      (apps : Apps) (a b : ℕ) (s : S) (ids : List ℕ) (spare : ℕ)
      (handles contexts registered : Bool)
      → apps.apps_list ≡ some (slots ids (suc (suc spare)))
      → length ids ≡ apps.curr_app_id
      → (handles && contexts) ≡ false
      → (apps1 : Apps) × ((app_register stack
              (record { handles = handles; contexts = contexts; registered = registered })
              a
              apps
              s
            ≡ some (apps1, err_oom, s))
          × IsMisaligned apps a s (app_register stack all_given b apps1 s))
  unfolding take_slot
  app_register_misaligns apps a b s ids spare handles contexts registered order counted oom =
      let e1 =
        app_register-room
          (record { handles = handles; contexts = contexts; registered = registered }) a apps s
          (slots ids (suc (suc spare))) (length ids) order (find_slot-slots ids (suc spare)) in
      let e2 =
        app_register-room all_given b after s (slots (ids ++ (a ∷ [])) (suc spare))
          (length (ids ++ (a ∷ []))) listed (find_slot-slots (ids ++ (a ∷ [])) spare) in
      (
        after,
        (
          e1 ∙ take_slot-oom handles contexts registered apps _ _ a s oom,
          rw e2 (refl, refl, app_at-slots _ ids (b ∷ []) spare a apps.curr_app_id listed2 counted),
        ),
      )
    where
      after : Apps
      after = fill apps (slots ids (suc (suc spare))) (length ids) a (left_of handles (apps.app a))

      listed : after.apps_list ≡ some (slots (ids ++ (a ∷ [])) (suc spare))
      listed = unfold set_app in ap some (set-slots ids (suc spare) a)

      listed2 :
          some (set (slots (ids ++ (a ∷ [])) (suc spare)) (length (ids ++ (a ∷ []))) (some b))
          ≡ some (slots (ids ++ (a ∷ b ∷ [])) spare)
      listed2 = ap some (
          set-slots (ids ++ (a ∷ [])) spare b
          ∙ ap (λ t. slots t spare) (append_assoc ids (a ∷ []) (b ∷ [])))
