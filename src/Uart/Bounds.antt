-- ===== src/Uart/Bounds.antt =====
-- The parser stays inside its buffer, and where its one-byte length stops it.
use esk.Common.{
  ℕ, ◌+◌, ◌≤◌, ◌≡◌, ◌≢◌, ◌∙◌, sym, some, List, arith, length, take, drop, inl, inr, Option-cases,
  append-nil, [],
}
use esk.Common.Int.{int_of_word, int_of_word_of_lt}
use esk.Err.{uart_msg_err_invalid_buffer}
use esk.Uart.{
  Msg, IsWellFormed, failed, msg_serialize, msg_set_chk, msg_get_serialized_length, fault,
  header_of, check_parsed, parse_at, msg_parse, msg_find_header,
}
use esk.Uart.Header.{msg_find_header-within, msg_parse_at, msg_parse_no_header}
use esk.Uart.RoundTrip.{IsWellFormed-msg_set_chk, length-msg_serialize, msg_find_header-frame}
use esk.Uart.Slices.{slice?_of_le}

check_parsed-ne-fault : (msg : Msg) → check_parsed msg ≢ fault
unfolding check_parsed
check_parsed-ne-fault msg = ground arith

parse_at-ne-fault :
    (buffer : List ℕ) (n i : ℕ) → i ≤ n → n ≤ length buffer → parse_at buffer n i ≢ fault
unfolding parse_at
parse_at-ne-fault buffer n i h k =
    let head = take 5 (drop (i + 2) buffer) in
    let pld = (header_of head).pld_length in
    ground (
      arith,
      slice?_of_le buffer (i + 2) 5,
      slice?_of_le buffer (i + 2 + 5) pld,
      slice?_of_le buffer (i + 2 + 5 + pld) 2,
      check_parsed-ne-fault (record (header_of head) {
        payload = take pld (drop (i + 2 + 5) buffer);
        chk_sum = take 2 (drop (i + 2 + 5 + pld) buffer);
      }),
    )

-- Given a buffer of at least `buf_length` bytes, the parser never reads outside it, whatever the bytes
-- and although it keeps the remaining length in a `uint8_t`.
pub msg_parse-ne-fault :
    (buffer : List ℕ) (buf_length : ℕ)
    → buf_length ≤ length buffer
    → msg_parse buffer buf_length ≢ fault
msg_parse-ne-fault buffer n h e = elim (Option-cases (msg_find_header buffer (int_of_word n))) [
  | inl missed ↦ cc (msg_parse_no_header buffer n missed)
  | inr (i, found) ↦
      let (fits, _) = msg_find_header-within buffer n found in
      parse_at-ne-fault buffer n i (omega arith) h (sym (msg_parse_at buffer n i found) ∙ e)
]

-- A frame alone in its buffer with 247 bytes of payload or more is refused, though it is well formed and
-- its checksum is right: its length does not fit the parser's `uint8_t`.
pub msg_parse_long :
    (msg : Msg)
    → IsWellFormed msg
    → 247 ≤ msg.pld_length
    → let frame = msg_serialize (msg_set_chk msg) in
      msg_parse frame (msg_get_serialized_length msg) ≡ failed uart_msg_err_invalid_buffer
unfolding msg_get_serialized_length
msg_parse_long msg w long = msg_parse_at frame n 0 found ∙ too_long
  where
    framed : Msg
    framed = msg_set_chk msg

    good : IsWellFormed framed
    good = IsWellFormed-msg_set_chk w

    frame : List ℕ
    frame = msg_serialize framed

    n : ℕ
    n = msg.pld_length + 9

    size : n ≡ length frame
    size = unfold msg_get_serialized_length msg_set_chk in sym (length-msg_serialize framed good)

    found : msg_find_header frame (int_of_word n) ≡ some 0
    found =
        rw (int_of_word_of_lt n (omega (arith, w)))
          (rw append-nil at (msg_find_header-frame framed [] [] n tt (rw append-nil size)))

    too_long : parse_at frame n 0 ≡ failed uart_msg_err_invalid_buffer
    too_long = unfold parse_at in ground (arith, w.header_fits)
