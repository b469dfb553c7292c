-- ===== src/Ble/Attr/Fits.antt =====
-- lib/ble/ble_apps/app_ble_srvc_status.c: the values that are set, beside the table of attributes.
use esk.Common.{
  ℕ, zero, suc, ◌*◌, ◌≡◌, refl, ap, ◌∙◌, Bool, true, false, List, [], ◌∷◌, inl, inr, length, set,
  length-append, length-set, arith, Option-cases, leb, if◌then◌else◌,
}
use esk.Err.{Err}
use esk.Ble.Types.{App, Apps}
use esk.Ble.Util.{Update, fault, element, is_null}
use esk.Ble.Status.{
  Values, conf_num, zeroed, bytes_of, speed_char_val, bms_shallow_char_val, bms_deep_char_val,
  notify_bms, set_shallow, status_speed, status_bms_shallow, status_bms_deep, message,
}
use esk.Ble.Attr.{srvc_status_attr_list}
use esk.Ble.Attr.Updates.{
  UpdateFits, if-UpdateFits, then_update-UpdateFits, drop_result-UpdateFits, notify_all-UpdateFits,
  update-UpdateFits,
}

-- A list of lists of `n` elements each.
abbrev pub AllOf : ℕ → List (List ℕ) → Type 0
AllOf n [] = Unit {0}
AllOf n (x ∷ xs) = (length x ≡ n) × AllOf n xs

-- Four structures of 8 bytes, and four of 55.
pub record IsSized (values : Values) : Type 0 where
  pub shallow_num : length values.shallow ≡ conf_num
  pub shallow : AllOf 8 values.shallow
  pub deep_num : length values.deep ≡ conf_num
  pub deep : AllOf 55 values.deep

length-bytes_of :
    (n : ℕ) (list : List (List ℕ)) → AllOf n list → length (bytes_of list) ≡ length list * n
length-bytes_of n [] h = omega arith
length-bytes_of n (x ∷ xs) h =
    let rest = length-bytes_of n xs h.1 in length-append x (bytes_of xs) ∙ omega (arith, h.0, rest)

AllOf-set :
    (n : ℕ) (list : List (List ℕ)) (i : ℕ) (x : List ℕ)
    → AllOf n list
    → length x ≡ n
    → AllOf n (set list i x)
AllOf-set n [] i x h e = tt
AllOf-set n (y ∷ ys) zero x h e = (e, h.1)
AllOf-set n (y ∷ ys) (suc i) x h e = (h.0, AllOf-set n ys i x h.1 e)

pub zeroed-IsSized : IsSized zeroed
zeroed-IsSized = record {
  shallow_num = refl;
  shallow = (refl, (refl, (refl, (refl, tt))));
  deep_num = refl;
  deep = (refl, (refl, (refl, (refl, tt))));
}

module _ (apps : Apps) (app : App) where
  -- Every value that the three calls set in the stack's table.
  set_shallow-UpdateFits :
      (bytes : List ℕ)
      → length bytes ≡ 32
      → UpdateFits srvc_status_attr_list app (set_shallow app bytes)
  unfolding set_shallow
  set_shallow-UpdateFits bytes e =
      if-UpdateFits srvc_status_attr_list app (is_null app.attr_hndl_list) _ _ tt
        (elim (Option-cases (element app.attr_hndl_list bms_shallow_char_val)) [
          | inl none_eq ↦ rw none_eq tt
          | inr (hndl, eq) ↦ rw eq ((bms_shallow_char_val, (_, (eq, (refl, e)))), tt)
        ])

  notify_bms-UpdateFits :
      (attr_idx : ℕ) (allocated : Bool) (err : Err) (i : ℕ)
      → UpdateFits srvc_status_attr_list app (notify_bms apps app attr_idx allocated err i)
  unfolding notify_bms
  notify_bms-UpdateFits attr_idx allocated err i =
      if-UpdateFits srvc_status_attr_list app allocated _ _
        (notify_all-UpdateFits srvc_status_attr_list app apps attr_idx (message err i)) tt

  -- A speed is set in an attribute of as many bytes, one.
  pub status_speed-UpdateFits :
      (speed : ℕ) → UpdateFits srvc_status_attr_list app (status_speed apps app speed)
  unfolding status_speed
  status_speed-UpdateFits speed =
      then_update-UpdateFits srvc_status_attr_list app _ _
        (update-UpdateFits srvc_status_attr_list app speed_char_val (speed ∷ []) _ refl refl)
        (notify_all-UpdateFits srvc_status_attr_list app apps speed_char_val (speed ∷ []))

-- The values and the outcome of a call: the values keep their sizes, and what is set fits the service's attributes.
abbrev pub IsFitting : App → Values × Update → Type 0
IsFitting app (values, outcome) = IsSized values × UpdateFits srvc_status_attr_list app outcome

if-IsFitting :
    (app : App) (t : Bool) (a b : Values × Update)
    → IsFitting app a
    → IsFitting app b
    → IsFitting app (if t then a else b)
if-IsFitting app true a b ha hb = ha
if-IsFitting app false a b ha hb = hb

pub shallow_fits :
    (apps : Apps) (app : App) (allocated : Bool) (stat : List ℕ) (err : Err) (i : ℕ)
    (values : Values)
    → IsSized values
    → length stat ≡ 8
    → IsFitting app (status_bms_shallow apps app allocated stat err i values)
unfolding status_bms_shallow
shallow_fits apps app allocated stat err i values sized e =
    let list = set values.shallow i stat in
    let all = AllOf-set 8 values.shallow i stat sized.shallow e in
    let num = length-set values.shallow i stat ∙ sized.shallow_num in
    if-IsFitting app (leb conf_num i) (values, fault) _ (sized, tt)
      (
        record { shallow_num = num; shallow = all; deep_num = sized.deep_num; deep = sized.deep },
        drop_result-UpdateFits srvc_status_attr_list app _ _
            (set_shallow-UpdateFits apps app (bytes_of list)
              (length-bytes_of 8 list all ∙ ap (λ k. k * 8) num))
            (notify_bms-UpdateFits apps app bms_shallow_char_val allocated err i),
      )

pub deep_fits :
    (apps : Apps) (app : App) (allocated : Bool) (stat : List ℕ) (err : Err) (i : ℕ)
    (values : Values)
    → IsSized values
    → length stat ≡ 55
    → IsFitting app (status_bms_deep apps app allocated stat err i values)
unfolding status_bms_deep
deep_fits apps app allocated stat err i values sized e =
    let list = set values.deep i stat in
    let all = AllOf-set 55 values.deep i stat sized.deep e in
    let num = length-set values.deep i stat ∙ sized.deep_num in
    let fits = length-bytes_of 55 list all ∙ ap (λ k. k * 55) num in
    if-IsFitting app (leb conf_num i) (values, fault) _ (sized, tt)
      (
        record {
          shallow_num = sized.shallow_num;
          shallow = sized.shallow;
          deep_num = num;
          deep = all;
        },
        drop_result-UpdateFits srvc_status_attr_list app _ _
            (update-UpdateFits srvc_status_attr_list app bms_deep_char_val (bytes_of list) _ refl
              fits)
            (notify_bms-UpdateFits apps app bms_deep_char_val allocated err i),
      )

-- From values of four structures of 8 bytes and four of 55, a status of 8 bytes or one of 55: the values keep
-- those sizes, as they have them when the service starts, and each value that the calls for the speed, the status and
-- the deep status set in the stack's table has the length of the attribute whose handle it names.
pub status-fits :
    (apps : Apps) (app : App) (allocated : Bool) (stat deep : List ℕ) (err : Err) (i speed : ℕ)
    (values : Values)
    → IsSized values
    → length stat ≡ 8
    → length deep ≡ 55
    → IsSized zeroed
      × (UpdateFits srvc_status_attr_list app (status_speed apps app speed)
          × (IsFitting app (status_bms_shallow apps app allocated stat err i values)
              × IsFitting app (status_bms_deep apps app allocated deep err i values)))
status-fits apps app allocated stat deep err i speed values sized e8 e55 = (
  zeroed-IsSized,
  (
    status_speed-UpdateFits apps app speed,
    (
      shallow_fits apps app allocated stat err i values sized e8,
      deep_fits apps app allocated deep err i values sized e55,
    ),
  ),
)
