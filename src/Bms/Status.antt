-- ===== src/Bms/Status.antt =====
-- lib/bms/esk8_bms_get_status.c and esk8_bms_get_deep_status.c: lists of registers that are read into a
-- structure, whose memory is a list of bytes.
pub mod Fields
use esk.Common.{ℕ, ◌+◌, Bool, List, [], ◌∷◌, ◌++◌, ◌==◌, if◌then◌else◌, length, take, drop, map}
use esk.Err.{Err, ok}
use esk.Bms.Driver.{UartDriver}
use esk.Bms.Query.{Outcome, replied, gave_up, addr_bms, get_data_with_response}

-- A register, and the offset of the field that it is read into.
pub record Field : Type 0 where
  pub reg : ℕ
  pub offset : ℕ

-- How a reading ends: with the structure as it is left, and its error if a query gave up.
pub data Reading : Type 0 where
  complete : List ℕ → Reading
  stopped : Err → List ℕ → Reading
  fault : Reading

-- A copy into a structure.
unfoldable pub store_at : List ℕ → ℕ → List ℕ → List ℕ
store_at mem offset bytes = take offset mem ++ (bytes ++ drop (offset + length bytes) mem)

-- `ESK8_REG_BMS_SERIAL_NUMBER`, which is also `ESK8_REG_BMS_MANUFACTURE_DATE`.
abbrev pub serial_number : ℕ
serial_number = 0x10

-- `readSize`
unfoldable pub read_size : ℕ → ℕ
read_size reg = if reg == serial_number then 0x0E else 0x02

-- The four fields of `esk8_bms_status_t`, each of two bytes, in the order of `reg_list`.
abbrev pub status_fields : List Field
status_fields =
    record { reg = 0x32; offset = 0 }
    ∷ record { reg = 0x34; offset = 2 }
    ∷ record { reg = 0x33; offset = 4 }
    ∷ record { reg = 0x35; offset = 6 }
    ∷ []

-- `read_regs` with the fields of `outRegP`: their offsets in `esk8_bms_deep_status_t`.
abbrev pub deep_fields : List Field
deep_fields =
    record { reg = 0x10; offset = 0 }
    ∷ record { reg = 0x17; offset = 14 }
    ∷ record { reg = 0x10; offset = 16 }
    ∷ record { reg = 0x18; offset = 18 }
    ∷ record { reg = 0x19; offset = 20 }
    ∷ record { reg = 0x32; offset = 22 }
    ∷ record { reg = 0x31; offset = 24 }
    ∷ record { reg = 0x1B; offset = 26 }
    ∷ record { reg = 0x1C; offset = 28 }
    ∷ record { reg = 0x3B; offset = 30 }
    ∷ record { reg = 0x40; offset = 32 }
    ∷ record { reg = 0x41; offset = 34 }
    ∷ record { reg = 0x42; offset = 36 }
    ∷ record { reg = 0x43; offset = 38 }
    ∷ record { reg = 0x44; offset = 40 }
    ∷ record { reg = 0x45; offset = 42 }
    ∷ record { reg = 0x46; offset = 44 }
    ∷ record { reg = 0x47; offset = 46 }
    ∷ record { reg = 0x48; offset = 48 }
    ∷ record { reg = 0x49; offset = 50 }
    ∷ []

module _ (d : UartDriver) where
  open d use {Port}

  -- The loop over the registers, with the size that each is read with.
  unfoldable pub read_fields : (ℕ → ℕ) → ℕ → List Field → List ℕ → Port → Port × Reading
  unfolding store_at
  read_fields size uart_port [] mem p = (p, complete mem)
  read_fields size uart_port (f ∷ fs) mem p =
      let (p', outcome) = get_data_with_response d uart_port addr_bms f.reg (size f.reg) p in
      elim outcome [
        | replied bytes ↦ read_fields size uart_port fs (store_at mem f.offset bytes) p'
        | gave_up err ↦ (p', stopped err mem)
        | Outcome.fault ↦ (p', Reading.fault)
      ]

  -- The `memcpy` behind the loop of `esk8_bms_get_status`.
  unfoldable pub publish : List ℕ → Port × Reading → Port × Reading
  publish out_status (p, complete out_values) = (p, complete out_values)
  publish out_status (p, stopped err out_values) = (p, stopped err out_status)
  publish out_status (p, Reading.fault) = (p, Reading.fault)

  -- `esk8_bms_get_status`; `out_values` is what the array on the stack holds at first.
  unfoldable pub get_status : ℕ → List ℕ → List ℕ → Port → Port × Reading
  unfolding read_fields publish
  get_status uart_port out_values out_status p =
      publish out_status (read_fields (λ reg. 2) uart_port status_fields out_values p)

  -- `esk8_bms_get_deep_status`
  unfoldable pub get_deep_status : ℕ → List ℕ → Port → Port × Reading
  unfolding read_fields
  get_deep_status uart_port out_status p = read_fields read_size uart_port deep_fields out_status p
