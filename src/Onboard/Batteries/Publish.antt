-- ===== src/Onboard/Batteries/Publish.antt =====
-- lib/onboard/esk8_onboard_bms.c: the values of the status service behind a round of the task.
use esk.Common.{
  ℕ, zero, suc, ◌+◌, ◌≡◌, refl, sym, ◌∙◌, ap, ◌<◌, ◌≤◌, List, [], ◌∷◌, some, Option-cases,
  Bool-cases, inl, inr, set, length, length-set, get_elem?, get_elem?-set_self, arith, ◌==◌, Bool,
}
use esk.Err.{Err}
use esk.Bms.Driver.{UartDriver}
use esk.Bms.Status.{get_status, get_deep_status}
use esk.Ble.Types.{App, Apps}
use esk.Ble.Util.{Sent}
use esk.Ble.Status.{Values, conf_num, status_bms_shallow, status_bms_deep}
use esk.Onboard.Batteries.{
  left_by, sent_by, Batteries, Context, read_shallow, read_deep, read_battery, read_from, read_all,
}

-- Two arrays that have the same element at an index.
abbrev pub SameAt : ℕ → List (List ℕ) → List (List ℕ) → Type 0
SameAt j xs ys = get_elem? xs j ≡ get_elem? ys j

SameAt-set_self :
    (xs ys : List (List ℕ)) (i : ℕ) (mem : List ℕ)
    → i < length xs
    → i < length ys
    → SameAt i (set xs i mem) (set ys i mem)
SameAt-set_self xs ys i mem hx hy =
    get_elem?-set_self xs i mem hx ∙ sym (get_elem?-set_self ys i mem hy)

SameAt-set :
    (xs ys : List (List ℕ)) (i j : ℕ) (mem : List ℕ)
    → length xs ≡ length ys
    → SameAt j xs ys
    → SameAt j (set xs i mem) (set ys i mem)
SameAt-set [] [] i j mem len same = refl
SameAt-set [] (y ∷ ys) i j mem len same = absurd (omega arith)
SameAt-set (x ∷ xs) [] i j mem len same = absurd (omega arith)
SameAt-set (x ∷ xs) (y ∷ ys) zero zero mem len same = refl
SameAt-set (x ∷ xs) (y ∷ ys) zero (suc j) mem len same = same
SameAt-set (x ∷ xs) (y ∷ ys) (suc i) zero mem len same = same
SameAt-set (x ∷ xs) (y ∷ ys) (suc i) (suc j) mem len same =
    SameAt-set xs ys i j mem (omega arith) same

-- What a call for a battery does to the values.
shallow_lem :
    (apps : Apps) (app : App) (allocated : Bool) (mem : List ℕ) (err : Err) (i : ℕ)
    (values : Values) (sent : List Sent)
    → let r = status_bms_shallow apps app allocated mem err i values in
      sent_by r.1 ≡ some sent → (r.0 ≡ record values { shallow = set values.shallow i mem })
unfolding status_bms_shallow sent_by
shallow_lem apps app allocated mem err i values sent e = ground arith

deep_lem :
    (apps : Apps) (app : App) (allocated : Bool) (mem : List ℕ) (err : Err) (i : ℕ)
    (values : Values) (sent : List Sent)
    → let r = status_bms_deep apps app allocated mem err i values in
      sent_by r.1 ≡ some sent → (r.0 ≡ record values { deep = set values.deep i mem })
unfolding status_bms_deep sent_by
deep_lem apps app allocated mem err i values sent e = ground arith

module _ (d : UartDriver) where
  pub read_shallow_lem :
      (x : Context d) (i : ℕ) (b b' : Batteries d)
      → read_shallow d x i b ≡ some b'
      → (mem : List ℕ) × ((b'.bms_stat ≡ set b.bms_stat i mem)
          × (b'.values.shallow ≡ set b.values.shallow i mem)
          × (b'.bms_deep_stat ≡ b.bms_deep_stat)
          × (b'.values.deep ≡ b.values.deep))
  unfolding read_shallow
  read_shallow_lem x i b b' e = elim (Option-cases (get_elem? b.bms_stat i)) [
    | inl missing ↦ absurd (ground (arith, e, missing))
    | inr (out, at_i) ↦
        let r = get_status d x.uart_port x.out_values out b.port in
        elim (Option-cases (left_by r.1)) [
          | inl lost ↦ absurd (ground (arith, e, at_i, lost))
          | inr (left, found) ↦
              let u =
                status_bms_shallow x.apps x.srvc_status x.allocated left.1 left.0 i b.values in
              elim (Option-cases (sent_by u.1)) [
                | inl gone ↦ absurd (ground (arith, e, at_i, found, gone))
                | inr (sent, gives) ↦
                    let s =
                      shallow_lem x.apps x.srvc_status x.allocated left.1 left.0 i b.values sent
                        gives in
                    (
                      left.1,
                      (
                        ground (arith, e, at_i, found, gives),
                        ground (arith, e, at_i, found, gives, s),
                        ground (arith, e, at_i, found, gives),
                        ground (arith, e, at_i, found, gives, s),
                      ),
                    )
              ]
        ]
  ]

  read_deep_lem :
      (x : Context d) (i : ℕ) (b b' : Batteries d)
      → read_deep d x i b ≡ some b'
      → (mem : List ℕ) × ((b'.bms_deep_stat ≡ set b.bms_deep_stat i mem)
          × (b'.values.deep ≡ set b.values.deep i mem)
          × (b'.bms_stat ≡ b.bms_stat)
          × (b'.values.shallow ≡ b.values.shallow))
  unfolding read_deep
  read_deep_lem x i b b' e = elim (Option-cases (get_elem? b.bms_deep_stat i)) [
    | inl missing ↦ absurd (ground (arith, e, missing))
    | inr (out, at_i) ↦
        let r = get_deep_status d x.uart_port out b.port in
        elim (Option-cases (left_by r.1)) [
          | inl lost ↦ absurd (ground (arith, e, at_i, lost))
          | inr (left, found) ↦
              let u = status_bms_deep x.apps x.srvc_status x.allocated left.1 left.0 i b.values in
              elim (Option-cases (sent_by u.1)) [
                | inl gone ↦ absurd (ground (arith, e, at_i, found, gone))
                | inr (sent, gives) ↦
                    let s =
                      deep_lem x.apps x.srvc_status x.allocated left.1 left.0 i b.values sent
                        gives in
                    (
                      left.1,
                      (
                        ground (arith, e, at_i, found, gives),
                        ground (arith, e, at_i, found, gives, s),
                        ground (arith, e, at_i, found, gives),
                        ground (arith, e, at_i, found, gives, s),
                      ),
                    )
              ]
        ]
  ]

  -- Arrays and values of one length each.
  pub record IsSized (n : ℕ) (b : Batteries d) : Type 0 where
    pub stat : length b.bms_stat ≡ n
    pub shallow : length b.values.shallow ≡ n
    pub deep_stat : length b.bms_deep_stat ≡ n
    pub deep : length b.values.deep ≡ n

  -- The values of a battery are what was read of it.
  abbrev pub IsPublished : ℕ → Batteries d → Type 0
  IsPublished j b = SameAt j b.values.shallow b.bms_stat × SameAt j b.values.deep b.bms_deep_stat

  read_battery_lem :
      (x : Context d) (i : ℕ) (b b' : Batteries d)
      → read_battery d x i b ≡ some b'
      → (mem : List ℕ) × ((deep_mem : List ℕ) × ((b'.bms_stat ≡ set b.bms_stat i mem)
            × (b'.values.shallow ≡ set b.values.shallow i mem)
            × (b'.bms_deep_stat ≡ set b.bms_deep_stat i deep_mem)
            × (b'.values.deep ≡ set b.values.deep i deep_mem)))
  unfolding read_battery
  read_battery_lem x i b b' e =
      let b0 = record b { port = x.set_pin i b.port } in
      elim (Option-cases (read_shallow d x i b0)) [
        | inl lost ↦ absurd (ground (arith, e, lost))
        | inr (b1, first) ↦
            let (mem, s) = read_shallow_lem x i b0 b1 first in
            let second : read_deep d x i b1 ≡ some b' = ground (arith, e, first) in
            let (deep_mem, t) = read_deep_lem x i b1 b' second in
            (
              mem,
              (
                deep_mem,
                (
                  t.2 ∙ s.0,
                  t.3 ∙ s.1,
                  t.0 ∙ ap (λ l. set l i deep_mem) s.2,
                  t.1 ∙ ap (λ l. set l i deep_mem) s.3,
                ),
              ),
            )
      ]

  pub read_battery-IsSized :
      (x : Context d) (i n : ℕ) (b b' : Batteries d)
      → read_battery d x i b ≡ some b'
      → IsSized n b
      → IsSized n b'
  read_battery-IsSized x i n b b' e sized =
      let (mem, (deep_mem, r)) = read_battery_lem x i b b' e in
      record {
        stat = ap length r.0 ∙ length-set b.bms_stat i mem ∙ sized.stat;
        shallow = ap length r.1 ∙ length-set b.values.shallow i mem ∙ sized.shallow;
        deep_stat = ap length r.2 ∙ length-set b.bms_deep_stat i deep_mem ∙ sized.deep_stat;
        deep = ap length r.3 ∙ length-set b.values.deep i deep_mem ∙ sized.deep;
      }

  read_battery-IsPublished :
      (x : Context d) (i n : ℕ) (b b' : Batteries d)
      → read_battery d x i b ≡ some b'
      → IsSized n b
      → i < n
      → IsPublished i b'
  read_battery-IsPublished x i n b b' e sized h =
      let (mem, (deep_mem, r)) = read_battery_lem x i b b' e in
      rw (r.0, r.1, r.2, r.3)
        (
          SameAt-set_self b.values.shallow b.bms_stat i mem (rw sized.shallow h) (rw sized.stat h),
          SameAt-set_self b.values.deep b.bms_deep_stat i deep_mem (rw sized.deep h)
              (rw sized.deep_stat h),
        )

  read_battery_keeps :
      (x : Context d) (i j n : ℕ) (b b' : Batteries d)
      → read_battery d x i b ≡ some b'
      → IsSized n b
      → IsPublished j b
      → IsPublished j b'
  read_battery_keeps x i j n b b' e sized same =
      let (mem, (deep_mem, r)) = read_battery_lem x i b b' e in
      rw (r.0, r.1, r.2, r.3)
        (
          SameAt-set b.values.shallow b.bms_stat i j mem (sized.shallow ∙ sym sized.stat) same.0,
          SameAt-set b.values.deep b.bms_deep_stat i j deep_mem (sized.deep ∙ sym sized.deep_stat)
              same.1,
        )

  -- A battery below the next one, behind a step.
  below_next :
      (x : Context d) (i j m : ℕ) (b b' : Batteries d)
      → read_battery d x i b ≡ some b'
      → IsSized m b
      → i < m
      → (j < i → IsPublished j b)
      → j < suc i
      → IsPublished j b'
  below_next x i j m b b' e sized h before below = elim (Bool-cases (j == i)) [
    | inl same ↦
        let at_i : j ≡ i = ground arith in rw at_i (read_battery-IsPublished x i m b b' e sized h)
    | inr ne ↦ read_battery_keeps x i j m b b' e sized (before (ground arith))
  ]

  read_from_lem :
      (x : Context d) (n i j m : ℕ) (b b' : Batteries d)
      → read_from d x n i b ≡ some b'
      → IsSized m b
      → i + n ≤ m
      → (j < i → IsPublished j b)
      → j < i + n
      → IsPublished j b'
  unfolding read_from
  read_from_lem x zero i j m b b' e sized h before below =
      let same : b' ≡ b = cc e in rw same (before (omega arith))
  read_from_lem x (suc n) i j m b b' e sized h before below =
      elim (Option-cases (read_battery d x i b)) [
        | inl lost ↦ absurd (ground (arith, e, lost))
        | inr (b1, step) ↦
            let rest : read_from d x n (suc i) b1 ≡ some b' = ground (arith, e, step) in
            read_from_lem x n (suc i) j m b1 b' rest (read_battery-IsSized x i m b b1 step sized)
              (omega arith) (below_next x i j m b b1 step sized (omega arith) before) (omega arith)
      ]

  -- A round of the task that uses no memory that is not there, over arrays of the number of batteries, leaves
  -- in the values of the status service, for each battery, what it has last read of it.
  pub read_all-IsPublished :
      (x : Context d) (j : ℕ) (b b' : Batteries d)
      → read_all d x b ≡ some b'
      → IsSized conf_num b
      → j < conf_num
      → IsPublished j b'
  unfolding read_all
  read_all-IsPublished x j b b' e sized h =
      read_from_lem x conf_num 0 j conf_num b b' e sized (omega arith)
        (λ none_below. absurd (omega arith)) (omega arith)
