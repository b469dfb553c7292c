-- ===== src/Bms/Query/Returns.antt =====
-- lib/bms/esk8_bms_utils.c: queries of a battery whose responses are as long as what was asked for.
use esk.Common.{
  ℕ, zero, suc, ◌+◌, ◌≤◌, ◌≡◌, ◌≢◌, refl, ap, inl, inr, List, length, arith, Bool-cases, ◌==◌,
}
use esk.Common.Int.{ℤ, pos, negsuc}
use esk.Err.{Err, ok}
use esk.Uart.{Msg, Parsed, parsed, failed, msg_parse, msg_serialize, regread_msg_new}
use esk.Uart.Bounds.{msg_parse-ne-fault}
use esk.Bms.Driver.{UartDriver}
use esk.Bms.Query.{
  Outcome, judge, check_parsed, check_response, copy_payload, exchange, attempts,
  get_data_with_response,
}
use esk.Bms.Query.Retry.{attempts-step, after, round, Outcome-cases}

-- A read that returns the number of bytes that it was asked for has stored as many, and a message among them that
-- answers a register carries at least the register's bytes.
pub record Answers (d : UartDriver) : Type 0 where
  pub held :
      (uart_port len : ℕ) (p : d.Port)
      → (d.read_bytes uart_port len p).1 ≡ pos len
      → len ≤ length (d.read_bytes uart_port len p).2
  pub whole :
      (uart_port reg_size : ℕ) (p : d.Port) (msg : Msg)
      → (d.read_bytes uart_port (9 + reg_size) p).1 ≡ pos (9 + reg_size)
      → msg_parse (d.read_bytes uart_port (9 + reg_size) p).2 (9 + reg_size) ≡ parsed msg
      → reg_size ≤ msg.pld_length

check_parsed-ne-fault :
    (q : Parsed) (reg_size : ℕ)
    → q ≢ Parsed.fault
    → ((msg : Msg) → q ≡ parsed msg → reg_size ≤ msg.pld_length)
    → check_parsed q reg_size ≢ Outcome.fault
unfolding check_parsed check_response copy_payload
check_parsed-ne-fault (parsed msg) reg_size sound whole e =
    let long = whole msg refl in ground (arith, e, long)
check_parsed-ne-fault (failed err) reg_size sound whole e = cc e
check_parsed-ne-fault Parsed.fault reg_size sound whole e = sound refl

judge-ne-fault :
    (reg_size : ℕ) (n : ℤ) (buf : List ℕ)
    → (n ≡ pos (9 + reg_size) → 9 + reg_size ≤ length buf)
    → ((msg : Msg)
        → n ≡ pos (9 + reg_size)
        → msg_parse buf (9 + reg_size) ≡ parsed msg
        → reg_size ≤ msg.pld_length)
    → judge reg_size n buf ≢ Outcome.fault
unfolding judge
judge-ne-fault reg_size (negsuc m) buf held whole = λ e. cc e
judge-ne-fault reg_size (pos m) buf held whole = elim (Bool-cases (m == 9 + reg_size)) [
  | inl full ↦
      let filled : pos m ≡ pos (9 + reg_size) = ap pos (ground (arith, full)) in
      rw full (
        check_parsed-ne-fault (msg_parse buf (9 + reg_size)) reg_size
          (msg_parse-ne-fault buf (9 + reg_size) (held filled)) (λ msg. whole msg filled))
  | inr short ↦ rw short (λ e. cc e)
]

module _ (d : UartDriver) (answers : Answers d) (uart_port : ℕ) (msg : Msg) (reg_size : ℕ) where
  open d use {Port}

  round-ne-fault : (p : Port) → round d uart_port msg reg_size p ≢ Outcome.fault
  unfolding round exchange
  round-ne-fault p =
      let asked =
        d.wait_tx_done uart_port
          (d.write_bytes uart_port (msg_serialize msg) (d.flush_input uart_port p)) in
      judge-ne-fault reg_size _ _ (answers.held uart_port (9 + reg_size) asked)
        (answers.whole uart_port reg_size asked)

  attempts-ne-fault :
      (left : ℕ) (err : Err) (p : Port)
      → (attempts d left err uart_port msg reg_size p).1 ≢ Outcome.fault
  attempts-ne-fault zero err p = unfold attempts in (λ e. cc e)
  attempts-ne-fault (suc left) err p =
      elim (Outcome-cases d uart_port msg reg_size (round d uart_port msg reg_size p)) [
        | inl bad ↦ absurd (round-ne-fault p bad)
        | inr (inl (last, gave)) ↦
            rw (rw gave at (attempts-step d uart_port msg reg_size left err p))
              (attempts-ne-fault left last (after d uart_port msg reg_size 1 p))
        | inr (inr (bytes, now)) ↦
            rw (rw now at (attempts-step d uart_port msg reg_size left err p)) (λ e. cc e)
      ]

-- A query of a battery that answers in full uses no memory that is not there.
pub get_data-ne-fault :
    (d : UartDriver) (uart_port dst_addr reg reg_size : ℕ) (p : d.Port)
    → Answers d
    → (get_data_with_response d uart_port dst_addr reg reg_size p).1 ≢ Outcome.fault
unfolding get_data_with_response
get_data-ne-fault d uart_port dst_addr reg reg_size p answers =
    attempts-ne-fault d answers uart_port (regread_msg_new dst_addr reg reg_size) reg_size 3 ok p
