-- ===== src/Bms/Driver.antt =====
-- What lib/bms uses of the SDK's UART driver, over a state of the ports.
use esk.Common.{ℕ, List}
use esk.Common.Int.{ℤ}

pub record UartDriver : Type 1 where
  -- the state of the ports and of what is attached to them
  pub Port : Type 0
  pub flush_input : ℕ → Port → Port
  pub write_bytes : ℕ → List ℕ → Port → Port
  pub wait_tx_done : ℕ → Port → Port
  -- the number that `uart_read_bytes` returns, and what its buffer holds afterwards
  pub read_bytes : ℕ → ℕ → Port → Port × ℤ × List ℕ
