-- ===== src/Bms/Status/Fields.antt =====
-- What the two readings leave in their structures.
use esk.Common.{
  ℕ, ◌+◌, ◌≤◌, ◌≡◌, refl, sym, ◌∙◌, ap, List, [], ◌∷◌, ◌++◌, append-nil, append_assoc, take-append,
  drop-append, length, take, drop, length-append, length-take, length-drop, arith,
}
use esk.Common.Slices.{drop-drop}
use esk.Err.{Err}
use esk.Bms.Driver.{UartDriver}
use esk.Bms.Query.{Outcome, replied, gave_up, addr_bms, get_data_with_response}
use esk.Bms.Query.Reply.{length-judge}
use esk.Bms.Query.Retry.{query_replied, round}
use esk.Bms.Status.{
  Field, Reading, complete, stopped, store_at, read_size, read_fields, publish, get_status,
  get_deep_status, status_fields, deep_fields,
}

-- The bytes that a query copies are as many as it was asked for.
pub length-get_data :
    (d : UartDriver) (uart_port dst_addr reg reg_size : ℕ) (p p' : d.Port) (bytes : List ℕ)
    → get_data_with_response d uart_port dst_addr reg reg_size p ≡ (p', replied bytes)
    → length bytes ≡ reg_size
unfolding round
length-get_data d uart_port dst_addr reg reg_size p p' bytes h =
    let r = query_replied d uart_port dst_addr reg reg_size p p' bytes h in
    length-judge reg_size _ _ bytes r.accepted

length-store_at :
    (mem : List ℕ) (offset : ℕ) (bytes : List ℕ)
    → offset + length bytes ≤ length mem
    → length (store_at mem offset bytes) ≡ length mem
unfolding store_at
length-store_at mem offset bytes fits = omega (
  arith,
  length-append (take offset mem) (bytes ++ drop (offset + length bytes) mem),
  length-append bytes (drop (offset + length bytes) mem),
  length-take offset mem,
  length-drop (offset + length bytes) mem,
)

nil_of_length : (xs : List ℕ) → length xs ≡ 0 → xs ≡ []
nil_of_length [] h = refl
nil_of_length (x ∷ xs) h = absurd (omega arith)

-- The copy behind a prefix.
store_at-append :
    (pre rest bytes : List ℕ) (offset : ℕ)
    → length pre ≡ offset
    → store_at (pre ++ rest) offset bytes ≡ (pre ++ bytes) ++ drop (length bytes) rest
unfolding store_at
store_at-append pre rest bytes offset h =
    rw
      (
        take-append offset pre rest h,
        sym (drop-drop offset (length bytes) (pre ++ rest)),
        drop-append offset pre rest h,
        append_assoc pre bytes (drop (length bytes) rest),
      )
      refl

-- Every field lies in a structure of so many bytes.
unfoldable pub AllWithin : (ℕ → ℕ) → ℕ → List Field → Type 0
AllWithin size bound [] = Unit {0}
AllWithin size bound (f ∷ fs) = (f.offset + size f.reg ≤ bound) × AllWithin size bound fs

-- The size of the structure that a reading leaves.
unfoldable pub HasSize : ℕ → Reading → Type 0
HasSize bound (complete mem) = length mem ≡ bound
HasSize bound (stopped err mem) = length mem ≡ bound
HasSize bound Reading.fault = Unit {0}

module _ (d : UartDriver) (size : ℕ → ℕ) (uart_port : ℕ) where
  open d use {Port}

  read_fields-step :
      (f : Field) (fs : List Field) (mem : List ℕ) (p p' : Port) (outcome : Outcome)
      → get_data_with_response d uart_port addr_bms f.reg (size f.reg) p ≡ (p', outcome)
      → read_fields d size uart_port (f ∷ fs) mem p ≡ elim outcome [
        | replied bytes ↦ read_fields d size uart_port fs (store_at mem f.offset bytes) p'
        | gave_up err ↦ (p', stopped err mem)
        | Outcome.fault ↦ (p', Reading.fault)
      ]
  unfolding read_fields
  read_fields-step f fs mem p p' outcome h =
      ap
        (λ (r : Port × Outcome). elim r.1 as (λ o. Port × Reading) [
          | replied bytes ↦ read_fields d size uart_port fs (store_at mem f.offset bytes) r.0
          | gave_up err ↦ (r.0, stopped err mem)
          | Outcome.fault ↦ (r.0, Reading.fault)
        ])
        h

  -- A field that starts where what has been read ends.
  read_fields-next :
      (reg offset : ℕ) (fs : List Field) (pre rest bytes : List ℕ) (p p' : Port)
      → get_data_with_response d uart_port addr_bms reg (size reg) p ≡ (p', replied bytes)
      → length pre ≡ offset
      → read_fields d size uart_port (record { reg = reg; offset = offset } ∷ fs) (pre ++ rest) p
        ≡ read_fields d size uart_port fs ((pre ++ bytes) ++ drop (length bytes) rest) p'
  read_fields-next reg offset fs pre rest bytes p p' e at_end =
      rw (store_at-append pre rest bytes offset at_end) at (
        read_fields-step (record { reg = reg; offset = offset }) fs (pre ++ rest) p p'
          (replied bytes) e)

  read_fields-HasSize :
      (fs : List Field) (mem : List ℕ) (p : Port)
      → AllWithin size (length mem) fs
      → HasSize (length mem) (read_fields d size uart_port fs mem p).1
  unfolding AllWithin
  read_fields-HasSize [] mem p within = unfold read_fields HasSize in refl
  read_fields-HasSize (f ∷ fs) mem p within =
      next (λ mem' p' same. read_fields-HasSize fs mem' p' (rw same within.1))
        (get_data_with_response d uart_port addr_bms f.reg (size f.reg) p) refl
    where
      next :
          ((mem' : List ℕ) (p' : Port)
            → length mem' ≡ length mem
            → HasSize (length mem') (read_fields d size uart_port fs mem' p').1)
          → (r : Port × Outcome)
          → get_data_with_response d uart_port addr_bms f.reg (size f.reg) p ≡ r
          → HasSize (length mem) (read_fields d size uart_port (f ∷ fs) mem p).1
      next rest (p', replied bytes) e =
          let same = length-store_at mem f.offset bytes (
            omega (
              arith,
              length-get_data d uart_port addr_bms f.reg (size f.reg) p p' bytes e,
              within.0,
            )) in
          rw (read_fields-step f fs mem p p' (replied bytes) e)
            (rw same at (rest (store_at mem f.offset bytes) p' same))
      next rest (p', gave_up err) e =
          rw (read_fields-step f fs mem p p' (gave_up err) e) (unfold HasSize in refl)
      next rest (p', Outcome.fault) e =
          rw (read_fields-step f fs mem p p' Outcome.fault e) (unfold HasSize in tt)

-- A full status: when its four registers are answered, the structure is the four answers in order, whatever
-- the array and the structure held before.
pub get_status-replies :
    (d : UartDriver) (uart_port : ℕ) (out_values out_status b0 b1 b2 b3 : List ℕ)
    (p0 p1 p2 p3 p4 : d.Port)
    → length out_values ≡ 8
    → get_data_with_response d uart_port addr_bms 0x32 2 p0 ≡ (p1, replied b0)
    → get_data_with_response d uart_port addr_bms 0x34 2 p1 ≡ (p2, replied b1)
    → get_data_with_response d uart_port addr_bms 0x33 2 p2 ≡ (p3, replied b2)
    → get_data_with_response d uart_port addr_bms 0x35 2 p3 ≡ (p4, replied b3)
    → get_status d uart_port out_values out_status p0 ≡ (p4, complete (b0 ++ (b1 ++ (b2 ++ b3))))
unfolding get_status
get_status-replies d uart_port out_values out_status b0 b1 b2 b3 p0 p1 p2 p3 p4 eight e0 e1 e2 e3 =
    ap (publish d out_status) (
      read_fields-next d (λ reg. 2) uart_port 0x32 0 (status_from 1) [] out_values b0 p0 p1 e0 refl
      ∙ read_fields-next d (λ reg. 2) uart_port 0x34 2 (status_from 2) b0 rest1 b1 p1 p2 e1 l0
      ∙ read_fields-next d (λ reg. 2) uart_port 0x33 4 (status_from 3) (b0 ++ b1) rest2 b2 p2 p3 e2
          (omega (arith, l0, l1, length-append b0 b1))
      ∙ read_fields-next d (λ reg. 2) uart_port 0x35 6 [] ((b0 ++ b1) ++ b2) rest3 b3 p3 p4 e3 l012)
    ∙ copied
    ∙ ap (λ bytes. (p4, complete bytes)) whole
  where
    status_from : ℕ → List Field
    status_from k = drop k status_fields

    rest1 : List ℕ
    rest1 = drop (length b0) out_values

    rest2 : List ℕ
    rest2 = drop (length b1) rest1

    rest3 : List ℕ
    rest3 = drop (length b2) rest2

    l0 : length b0 ≡ 2
    l0 = length-get_data d uart_port addr_bms 0x32 2 p0 p1 b0 e0

    l1 : length b1 ≡ 2
    l1 = length-get_data d uart_port addr_bms 0x34 2 p1 p2 b1 e1

    l2 : length b2 ≡ 2
    l2 = length-get_data d uart_port addr_bms 0x33 2 p2 p3 b2 e2

    l3 : length b3 ≡ 2
    l3 = length-get_data d uart_port addr_bms 0x35 2 p3 p4 b3 e3

    l012 : length ((b0 ++ b1) ++ b2) ≡ 6
    l012 = omega (arith, l0, l1, l2, length-append b0 b1, length-append (b0 ++ b1) b2)

    none_left : drop (length b3) rest3 ≡ []
    none_left = nil_of_length (drop (length b3) rest3) (
        omega (
          arith,
          eight,
          l0,
          l1,
          l2,
          l3,
          length-drop (length b0) out_values,
          length-drop (length b1) rest1,
          length-drop (length b2) rest2,
          length-drop (length b3) rest3,
        ))

    copied :
        publish d out_status (
          read_fields d
            (λ reg. 2)
            uart_port
            []
            ((((b0 ++ b1) ++ b2) ++ b3) ++ drop (length b3) rest3)
            p4)
        ≡ (p4, complete ((((b0 ++ b1) ++ b2) ++ b3) ++ drop (length b3) rest3))
    copied = unfold publish read_fields in refl

    whole : (((b0 ++ b1) ++ b2) ++ b3) ++ drop (length b3) rest3 ≡ b0 ++ (b1 ++ (b2 ++ b3))
    whole =
        rw (none_left, append-nil) (append_assoc (b0 ++ b1) b2 b3 ∙ append_assoc b0 b1 (b2 ++ b3))

-- An error of any of the queries leaves the caller's status as it was.
pub get_status-unchanged :
    (d : UartDriver) (uart_port : ℕ) (out_values out_status left : List ℕ) (p p' : d.Port)
    (err : Err)
    → get_status d uart_port out_values out_status p ≡ (p', stopped err left)
    → left ≡ out_status
unfolding get_status publish
get_status-unchanged d uart_port out_values out_status left p p' err h =
    from (read_fields d (λ reg. 2) uart_port status_fields out_values p) h
  where
    from :
        (r : d.Port × Reading) → publish d out_status r ≡ (p', stopped err left) → left ≡ out_status
    from (q, complete v) e = absurd (cc e)
    from (q, stopped err' v) e = cc e
    from (q, Reading.fault) e = absurd (cc e)

deep_fields-AllWithin : AllWithin read_size 55 deep_fields
unfolding AllWithin read_size
deep_fields-AllWithin = ground arith

-- No query of a deep status writes outside the 55 bytes of the structure, the ones of 14 bytes included.
pub get_deep_status-HasSize :
    (d : UartDriver) (uart_port : ℕ) (out_status : List ℕ) (p : d.Port)
    → length out_status ≡ 55
    → HasSize 55 (get_deep_status d uart_port out_status p).1
unfolding get_deep_status
get_deep_status-HasSize d uart_port out_status p size = rw size at (
    read_fields-HasSize d read_size uart_port deep_fields out_status p
      (rw size deep_fields-AllWithin))
