-- ===== src/Bms/Setup/Pins.antt =====
-- Which pins the driver routes the port to, and when it reads behind the end of its lists.
use esk.Common.{
  ℕ, ◌<◌, ◌≤◌, ◌≡◌, ◌≢◌, refl, sym, ◌∙◌, ap, ◌↔◌, ◌⊎◌, Bool, true, false, List, [], ◌∷◌, none, some,
  Option-cases, inl, inr, length, get_elem?, get_elem?-of_lt, arith,
}
use esk.Common.Slices.{lt_of_get_elem?}
use esk.Err.{Err, ok, err_invalid_param}
use esk.Bms.Setup.{
  Config, IsValid, Call, uart_set_pin, uart_param_config, uart_driver_install, finished, PinSet,
  returned, set_pins, route, set_routed, set_pin, config_h, init_from_config_h,
}

none_at_end : {A : Type 0} (xs : List A) (n : ℕ) → length xs ≡ n → get_elem? xs n ≡ none
none_at_end xs n h = elim (Option-cases (get_elem? xs n)) [
  | inl e ↦ e
  | inr (a, e) ↦ absurd (omega (arith, lt_of_get_elem? xs n e))
]

-- A battery of the configuration is routed to its two pins, and the result is what `uart_set_pin` says.
pub set_pin_below :
    (cnfg : Config) (pin set_err : ℕ)
    → IsValid cnfg
    → pin < cnfg.bat_num
    → (tx : ℕ) × (rx : ℕ) × (get_elem? cnfg.tx_pins pin ≡ some tx)
      × (get_elem? cnfg.rx_pins pin ≡ some rx)
      × ((set_err ≡ 0
            → set_pin cnfg pin set_err ≡ returned ok (uart_set_pin cnfg.uart_port tx rx ∷ []))
          × (set_err ≢ 0
              → set_pin cnfg pin set_err
                ≡ returned err_invalid_param (uart_set_pin cnfg.uart_port tx rx ∷ [])))
set_pin_below cnfg pin set_err v lt =
    let (tx, at_tx) = get_elem?-of_lt cnfg.tx_pins pin (omega (arith, v.tx_num)) in
    let (rx, at_rx) = get_elem?-of_lt cnfg.rx_pins pin (omega (arith, v.rx_num)) in
    (
      tx,
      rx,
      at_tx,
      at_rx,
      (
        (λ z. chosen tx rx at_tx at_rx ∙ (unfold set_routed in ground arith)),
        (λ nz. chosen tx rx at_tx at_rx ∙ (unfold set_routed in ground arith)),
      ),
    )
  where
    entered : set_pin cnfg pin set_err ≡ set_routed (route cnfg pin) set_err
    entered = unfold set_pin in ground arith

    chosen :
        (tx rx : ℕ)
        → get_elem? cnfg.tx_pins pin ≡ some tx
        → get_elem? cnfg.rx_pins pin ≡ some rx
        → set_pin cnfg pin set_err ≡ set_routed (some (uart_set_pin cnfg.uart_port tx rx)) set_err
    chosen tx rx at_tx at_rx =
        entered ∙ ap (λ t. set_routed t set_err) (unfold route set_pins in cc (at_tx, at_rx))

-- The number of batteries itself passes the test `pin > bat_num`, and the driver then reads behind the end
-- of both lists; a larger number is refused.
pub set_pin_from :
    (cnfg : Config) (pin set_err : ℕ)
    → IsValid cnfg
    → cnfg.bat_num ≤ pin
    → (pin ≡ cnfg.bat_num → set_pin cnfg pin set_err ≡ PinSet.fault)
      × (pin ≢ cnfg.bat_num → set_pin cnfg pin set_err ≡ returned err_invalid_param [])
set_pin_from cnfg pin set_err v le = (behind, (λ ne. unfold set_pin in ground arith))
  where
    behind : pin ≡ cnfg.bat_num → set_pin cnfg pin set_err ≡ PinSet.fault
    behind e = entered ∙ ap (λ t. set_routed t set_err) missing ∙ (unfold set_routed in refl)
      where
        entered : set_pin cnfg pin set_err ≡ set_routed (route cnfg pin) set_err
        entered = unfold set_pin in ground arith

        missing : route cnfg pin ≡ none
        missing = unfold route set_pins in cc (none_at_end cnfg.tx_pins pin (v.tx_num ∙ sym e))

-- The setup from the configuration file returns `ESK8_OK` exactly when the memory is there and no call of
-- the SDK fails, and it then owns the handle, after three calls with the pins of the first battery. Every
-- failure of it but that of `uart_param_config` leaves no memory allocated.
pub init_from_config_h-branches :
    (allocated : Bool) (param_err set_err install_err : ℕ)
    → ((init_from_config_h allocated param_err set_err install_err
          ≡ finished ok
              (some config_h)
              (uart_param_config 1 ∷ uart_set_pin 1 14 27 ∷ uart_driver_install 1 1000 ∷ []))
        ↔ ((allocated ≡ true) × (param_err ≡ 0) × (set_err ≡ 0) × (install_err ≡ 0)))
      × ((e : Err) (cnfg : Config) (calls : List Call)
          → init_from_config_h allocated param_err set_err install_err
            ≡ finished e (some cnfg) calls
          → (e ≡ ok) ⊎ ((e ≡ err_invalid_param) × (param_err ≢ 0)))
unfolding init_from_config_h route set_pins
init_from_config_h-branches false param_err set_err install_err =
    (ground arith, λ e cnfg calls h. absurd (cc h))
init_from_config_h-branches true param_err set_err install_err =
    (ground arith, λ e cnfg calls h. ground arith)
