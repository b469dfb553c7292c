-- ===== src/Onboard/Batteries/Round.antt =====
-- lib/onboard/esk8_onboard_bms.c: a whole round of the task over batteries that answer in full.
use esk.Common.{
  ℕ, zero, suc, ◌+◌, ◌≤◌, ◌<◌, refl, ◌≡◌, List, [], ◌∷◌, some, Option-cases, inl, inr, length,
  get_elem?, arith,
}
use esk.Bms.Driver.{UartDriver}
use esk.Bms.Query.Returns.{Answers}
use esk.Bms.Status.{read_fields, read_size, get_status, get_deep_status, status_fields, deep_fields}
use esk.Ble.Status.{conf_num, status_bms_shallow, status_bms_deep}
use esk.Onboard.Batteries.{
  Batteries, Context, read_shallow, read_deep, read_battery, read_from, read_all,
}
use esk.Onboard.Batteries.Publish.{
  IsSized, IsPublished, read_shallow_lem, read_battery-IsSized, read_all-IsPublished,
}
use esk.Onboard.Batteries.Returns.{
  Returns, IsServed, read_fields-left_by, publish-left_by, status_bms_shallow-IsReturned,
  status_bms_deep-IsReturned, IsReturned-sent_by,
}

element_at : (xs : List (List ℕ)) (i : ℕ) → i < length xs → (x : List ℕ) × (get_elem? xs i ≡ some x)
element_at [] i h = absurd (omega arith)
element_at (x ∷ xs) zero h = (x, refl)
element_at (x ∷ xs) (suc i) h = element_at xs i (omega arith)

module _ (d : UartDriver) (answers : Answers d) (x : Context d)
    (served : IsServed x.srvc_status) where
  read_shallow-Returns :
      (i : ℕ) (b : Batteries d)
      → i < conf_num
      → i < length b.bms_stat
      → Returns (read_shallow d x i b)
  unfolding read_shallow get_status
  read_shallow-Returns i b lt room =
      let (mem, at_i) = element_at b.bms_stat i room in
      let (left, found) =
        publish-left_by d answers mem
          (read_fields d (λ reg. 2) x.uart_port status_fields x.out_values b.port)
          (read_fields-left_by d answers (λ reg. 2) x.uart_port status_fields x.out_values
            b.port) in
      let (sent, gives) =
        IsReturned-sent_by
          (status_bms_shallow x.apps x.srvc_status x.allocated left.1 left.0 i b.values).1
          (status_bms_shallow-IsReturned x.apps x.srvc_status served x.allocated left.1 left.0 i
            b.values lt) in
      rw (at_i, read_shallow, found, gives) (_, refl)

  read_deep-Returns :
      (i : ℕ) (b : Batteries d)
      → i < conf_num
      → i < length b.bms_deep_stat
      → Returns (read_deep d x i b)
  unfolding read_deep get_deep_status
  read_deep-Returns i b lt room =
      let (mem, at_i) = element_at b.bms_deep_stat i room in
      let (left, found) =
        read_fields-left_by d answers read_size x.uart_port deep_fields mem b.port in
      let (sent, gives) =
        IsReturned-sent_by
          (status_bms_deep x.apps x.srvc_status x.allocated left.1 left.0 i b.values).1
          (status_bms_deep-IsReturned x.apps x.srvc_status served x.allocated left.1 left.0 i
            b.values lt) in
      rw (at_i, read_deep, found, gives) (_, refl)

  read_battery-Returns :
      (i n : ℕ) (b : Batteries d)
      → i < conf_num
      → IsSized d n b
      → i < n
      → Returns (read_battery d x i b)
  unfolding read_battery
  read_battery-Returns i n b lt sized room =
      let b0 = record b { port = x.set_pin i b.port } in
      let (b1, first) = read_shallow-Returns i b0 lt (rw sized.stat room) in
      let (mem, kept) = read_shallow_lem d x i b0 b1 first in
      let (b2, second) = read_deep-Returns i b1 lt (rw (kept.2, sized.deep_stat) room) in
      rw (first, read_battery) (b2, second)

  read_from-Returns :
      (n i m : ℕ) (b : Batteries d)
      → n + i ≤ conf_num
      → IsSized d m b
      → n + i ≤ m
      → Returns (read_from d x n i b)
  unfolding read_from
  read_from-Returns zero i m b le sized room = (b, refl)
  read_from-Returns (suc n) i m b le sized room =
      let (b1, step) = read_battery-Returns i m b (omega arith) sized (omega arith) in
      let sized1 = read_battery-IsSized d x i m b b1 step sized in
      let (b2, rest) = read_from-Returns n (suc i) m b1 (omega arith) sized1 (omega arith) in
      rw (step, read_from) (b2, rest)

read_from-IsSized :
    (d : UartDriver) (x : Context d) (n i m : ℕ) (b b' : Batteries d)
    → read_from d x n i b ≡ some b'
    → IsSized d m b
    → IsSized d m b'
unfolding read_from
read_from-IsSized d x zero i m b b' e sized = let same : b' ≡ b = cc e in rw same sized
read_from-IsSized d x (suc n) i m b b' e sized = elim (Option-cases (read_battery d x i b)) [
  | inl lost ↦ absurd (ground (arith, e, lost))
  | inr (b1, step) ↦
      let rest : read_from d x n (suc i) b1 ≡ some b' = ground (arith, e, step) in
      read_from-IsSized d x n (suc i) m b1 b' rest (read_battery-IsSized d x i m b b1 step sized)
]

-- Over arrays of the number of batteries, a round of the task comes to its end without a use of memory that is not
-- there, when each battery answers in full or not at all and the status service is registered with a handle for
-- each of its values; it leaves arrays of that number, and in the values of the service, for each battery, what it
-- has read of it.
pub read_all-Returns :
    (d : UartDriver) (x : Context d) (b : Batteries d)
    → Answers d
    → IsServed x.srvc_status
    → IsSized d conf_num b
    → (b' : Batteries d) × ((read_all d x b ≡ some b')
        × (IsSized d conf_num b' × ((j : ℕ) → j < conf_num → IsPublished d j b')))
unfolding read_all
read_all-Returns d x b answers served sized =
    let (b', e) =
      read_from-Returns d answers x served conf_num 0 conf_num b (omega arith) sized
        (omega arith) in
    (
      b',
      (
        e,
        (
          read_from-IsSized d x conf_num 0 conf_num b b' e sized,
          λ j h. read_all-IsPublished d x j b b' e sized h,
        ),
      ),
    )
