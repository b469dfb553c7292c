-- ===== src/Uart/Corruption.antt =====
-- What the checksum detects.
use esk.Common.{
  ℕ, zero, suc, ◌+◌, ◌<◌, ◌^◌, ◌%◌, ◌≡◌, ◌≢◌, ◌∙◌, ap, List, [], ◌∷◌, ◌++◌, arith, length, get_or,
  set, length-set, true, AllBytes, append-nil,
}
use esk.Err.{ok, uart_msg_err_invalid_chksum}
use esk.Uart.{
  Msg, IsWellFormed, failed, msg_serialize, msg_get_serialized_length, msg_parse, msg_chk,
  check_parsed, memcmp_two, header_bytes, msg_chk_calc,
}
use esk.Uart.Checksum.{sum, sum-append, word_of, buff_chk_calc-complement}
use esk.Uart.RoundTrip.{msg_chk_calc_lem, msg_parse-frame}

sum-set : (xs : List ℕ) (i v : ℕ) → i < length xs → sum (set xs i v) + get_or xs i 0 ≡ sum xs + v
unfolding sum
sum-set [] i v h = absurd (omega arith)
sum-set (x ∷ xs) zero v h = omega arith
sum-set (x ∷ xs) (suc i) v h = omega (arith, sum-set xs i v (omega arith))

get_or-AllBytes : (xs : List ℕ) (i : ℕ) → AllBytes xs → get_or xs i 0 < 256
get_or-AllBytes [] i h = omega arith
get_or-AllBytes (x ∷ xs) zero h = h.0
get_or-AllBytes (x ∷ xs) (suc i) h = get_or-AllBytes xs i h.1

AllBytes-set : (xs : List ℕ) (i v : ℕ) → AllBytes xs → v < 256 → AllBytes (set xs i v)
AllBytes-set [] i v h hv = tt
AllBytes-set (x ∷ xs) zero v h hv = (hv, h.1)
AllBytes-set (x ∷ xs) (suc i) v h hv = (h.0, AllBytes-set xs i v h.1 hv)

memcmp_two-word : (a b : List ℕ) → memcmp_two a b ≡ true → word_of a ≡ word_of b
unfolding memcmp_two
memcmp_two-word a b h = ground arith

-- What a checked message's checksum says of the sum of its bytes.
pub msg_chk-sum :
    (msg : Msg)
    → length msg.payload ≡ msg.pld_length
    → msg_chk msg ≡ ok
    → word_of msg.chk_sum + sum (header_bytes msg ++ msg.payload) % 2 ^ 16 ≡ 0xFFFF
unfolding msg_chk
msg_chk-sum msg len h = ground (
  arith,
  ap word_of (msg_chk_calc_lem msg len),
  memcmp_two-word (msg_chk_calc msg) msg.chk_sum,
  buff_chk_calc-complement (header_bytes msg ++ msg.payload),
)

-- A message that passes the check, with the payload byte at index `i` replaced by another.
abbrev pub corrupt : Msg → ℕ → ℕ → Msg
corrupt msg i v = record msg { payload = set msg.payload i v }

IsWellFormed-corrupt :
    (msg : Msg) (i v : ℕ) → IsWellFormed msg → v < 256 → IsWellFormed (corrupt msg i v)
IsWellFormed-corrupt msg i v w hv = record {
  payload_length = length-set msg.payload i v ∙ w.payload_length;
  chk_sum_length = w.chk_sum_length;
  header_fits = w.header_fits;
  payload_fits = AllBytes-set msg.payload i v w.payload_fits hv;
}

msg_chk-corrupt :
    (msg : Msg) (i v : ℕ)
    → IsWellFormed msg
    → msg_chk msg ≡ ok
    → i < msg.pld_length
    → v < 256
    → get_or msg.payload i 0 ≢ v
    → msg_chk (corrupt msg i v) ≢ ok
msg_chk-corrupt msg i v w good hi hv ne bad = ne (
    omega (
      arith,
      msg_chk-sum msg w.payload_length good,
      msg_chk-sum (corrupt msg i v) (length-set msg.payload i v ∙ w.payload_length) bad,
      sum-append (header_bytes msg) msg.payload,
      sum-append (header_bytes msg) (set msg.payload i v),
      sum-set msg.payload i v (omega (arith, w)),
      get_or-AllBytes msg.payload i w.payload_fits,
    ))

check_parsed-bad :
    (msg : Msg) → msg_chk msg ≢ ok → check_parsed msg ≡ failed uart_msg_err_invalid_chksum
unfolding check_parsed msg_chk
check_parsed-bad msg h = ground arith

-- A frame that passes the check, alone in its buffer and with at most 246 bytes of payload, is refused
-- with `INVALID_CHKSUM` once any one byte of its payload is replaced by another byte.
pub msg_parse-corrupt :
    (msg : Msg) (i v : ℕ)
    → IsWellFormed msg
    → msg_chk msg ≡ ok
    → i < msg.pld_length
    → v < 256
    → get_or msg.payload i 0 ≢ v
    → msg_get_serialized_length msg < 256
    → let frame = msg_serialize (corrupt msg i v) in
      msg_parse frame (length frame) ≡ failed uart_msg_err_invalid_chksum
msg_parse-corrupt msg i v w good hi hv ne fits =
    rw append-nil at (
      msg_parse-frame (corrupt msg i v) [] [] (IsWellFormed-corrupt msg i v w hv) tt
        (unfold msg_get_serialized_length in omega arith) (omega arith))
    ∙ check_parsed-bad (corrupt msg i v) (msg_chk-corrupt msg i v w good hi hv ne)
