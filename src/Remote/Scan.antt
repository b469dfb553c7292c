-- ===== src/Remote/Scan.antt =====
-- lib/remote/esk8_remote.c: the scan for boards and the events of GAP.
use esk.Common.{
  ℕ, ◌≡◌, ◌↔◌, refl, Bool, true, false, not, List, [], ◌∷◌, ◌++◌, ap, arith, if◌then◌else◌,
}
use esk.Common.Int.{ℤ}
use esk.Err.{ok}
use esk.Remote.{
  Remote, State, state_searching, state_stopped, state_not_connected, Sdk, remote_start, connect,
}
use esk.Remote.Lifecycle.{remote_start-Ended}

-- `ESP_GAP_BLE_SCAN_RESULT_EVT` with the search event of its parameter, which is `ESP_GAP_SEARCH_INQ_RES_EVT`
-- or another, the address and the signal; or another event.
pub data Event : Type 0 where
  scan_result : Bool → List ℕ → ℤ → Event
  other : ℕ → Event

-- What a callback asks of the stack, and a device that it prints.
pub data Act : Type 0 where
  stop_scanning : Act
  dev : List ℕ → ℤ → Act

abbrev pub is_searching : State → Bool
is_searching state_searching = true
is_searching _ = false

-- `esk8_remote_gap_cb`, but for the number of the event that it prints.
unfoldable pub gap_cb : Remote → Event → List Act
gap_cb r (scan_result is_inq_res bda rssi) =
    if not (is_searching r.state)
    then stop_scanning ∷ []
    else (if not is_inq_res then [] else dev bda rssi ∷ [])
gap_cb r (other event) = []

unfoldable pub all_events : Remote → List Event → List Act
unfolding gap_cb
all_events r [] = []
all_events r (event ∷ rest) = gap_cb r event ++ all_events r rest

-- The scan is stopped once for each result.
abbrev pub stops : List Event → List Act
stops [] = []
stops (scan_result is_inq_res bda rssi ∷ rest) = stop_scanning ∷ stops rest
stops (other event ∷ rest) = stops rest

gap_cb_unsearched :
    (r : Remote) (is_inq_res : Bool) (bda : List ℕ) (rssi : ℤ)
    → is_searching r.state ≡ false
    → gap_cb r (scan_result is_inq_res bda rssi) ≡ stop_scanning ∷ []
unfolding gap_cb
gap_cb_unsearched r is_inq_res bda rssi e = rw e refl

-- What a call of `esk8_remote_connect` comes to, for a remote that is not connected.
connect-state :
    (r : Remote) (scan_err : ℕ)
    → r.state ≡ state_not_connected
    → is_searching (connect r scan_err).0.state ≡ false
unfolding connect
connect-state r scan_err e = ground (arith, e)

connect_ok_iff :
    (r : Remote) (scan_err : ℕ)
    → r.state ≡ state_not_connected
    → ((connect r scan_err).1 ≡ ok) ↔ (scan_err ≡ 0)
unfolding connect
connect_ok_iff r scan_err e = ((λ good. ground (arith, e, good)), (λ z. ground (arith, e, z)))

all_events-unsearched :
    (r : Remote) (list : List Event) → is_searching r.state ≡ false → all_events r list ≡ stops list
unfolding all_events
all_events-unsearched r [] e = refl
all_events-unsearched r (scan_result is_inq_res bda rssi ∷ rest) e =
    rw (gap_cb_unsearched r is_inq_res bda rssi e)
      (ap (λ l. stop_scanning ∷ l) (all_events-unsearched r rest e))
all_events-unsearched r (other event ∷ rest) e = unfold gap_cb in all_events-unsearched r rest e

-- Behind a start of the stopped remote that returns `ESK8_OK`, `esk8_remote_connect` returns `ESK8_OK` exactly when
-- the stack begins the scan; and whichever it returns, each result of a scan stops the scan, and no device is
-- printed.
pub connect-all_events :
    (r0 : Remote) (sdk : Sdk) (scan_err : ℕ) (list : List Event)
    → r0.state ≡ state_stopped
    → (remote_start r0 sdk).1 ≡ ok
    → let r = connect (remote_start r0 sdk).0 scan_err in
      ((r.1 ≡ ok) ↔ (scan_err ≡ 0)) × (all_events r.0 list ≡ stops list)
connect-all_events r0 sdk scan_err list stopped good =
    let state = ((remote_start-Ended r0 sdk stopped).0 good).1 in
    let r = (remote_start r0 sdk).0 in
    (connect_ok_iff r scan_err state, all_events-unsearched _ list (connect-state r scan_err state))
