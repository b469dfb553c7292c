-- ===== src/Uart.antt =====
-- lib/uart/esk8_uart.c: the frames that the board and a battery management system exchange.
-- A buffer is the list of its bytes. `memcpy` from a buffer of known size is `slice?`, which is
-- `none` where the copy would leave the buffer. The functions that build a frame read `pld_length`
-- bytes of the payload, which `IsWellFormed` says are there. `malloc` is taken to succeed.
mod Slices
pub mod Checksum
pub mod Header
pub mod RoundTrip
pub mod Corruption
pub mod Sound
pub mod Bounds
use esk.Common.{
  ℕ, zero, suc, ◌+◌, ◌-◌, ◌%◌, ◌≤◌, ◌≡◌, Bool, true, false, ◌&&◌, ◌<◌, Option, none, some, List, [],
  ◌∷◌, ◌++◌, bit_xor, ltb, leb, ◌==◌, if◌then◌else◌, length, take, drop, u8, u16, u32, bytes16,
  AllBytes,
}
use esk.Common.Int.{ℤ, pos, negsuc, int_of_word}
use esk.Err.{
  Err, ok, uart_msg_err_no_header, uart_msg_err_invalid_buffer, uart_msg_err_invalid_pldlen,
  uart_msg_err_invalid_chksum,
}

-- `esk8_uart_msg_t`. The five header bytes stand first in the struct, in this order.
pub record Msg : Type 0 where
  pub pld_length : ℕ  -- uint8_t
  pub src_address : ℕ  -- uint8_t
  pub dst_address : ℕ  -- uint8_t
  pub cmd_command : ℕ  -- uint8_t
  pub cmd_argment : ℕ  -- uint8_t
  pub payload : List ℕ
  pub chk_sum : List ℕ

abbrev pub msg_pkt_header : List ℕ
msg_pkt_header = 0x5A ∷ 0xA5 ∷ []

abbrev pub msg_header_size : ℕ
msg_header_size = 5

abbrev pub msg_min_size : ℕ
msg_min_size = 9

abbrev pub header_bytes : Msg → List ℕ
header_bytes msg =
    msg.pld_length ∷ msg.src_address ∷ msg.dst_address ∷ msg.cmd_command ∷ msg.cmd_argment ∷ []

unfoldable pub msg_serialize : Msg → List ℕ
msg_serialize msg =
    msg_pkt_header ++ (header_bytes msg ++ (take msg.pld_length msg.payload ++ take 2 msg.chk_sum))

unfoldable pub msg_get_serialized_length : Msg → ℕ
msg_get_serialized_length msg = msg.pld_length + msg_min_size

-- The loop of `esk8_uart_buff_chk_calc` over its `uint16_t` sum.
unfoldable pub chk_loop : ℕ → List ℕ → ℕ
chk_loop chksum [] = chksum
chk_loop chksum (x ∷ xs) = chk_loop (u16 (chksum + x)) xs

unfoldable pub buff_chk_calc : List ℕ → List ℕ
unfolding chk_loop
buff_chk_calc buffer = bytes16 (bit_xor (chk_loop 0 buffer) 0xFFFF)

unfoldable pub msg_chk_calc : Msg → List ℕ
unfolding msg_serialize msg_get_serialized_length buff_chk_calc
msg_chk_calc msg =
    let buff_size = msg_get_serialized_length msg in
    let buffer = msg_serialize msg in buff_chk_calc (take (buff_size - 4) (drop 2 buffer))

unfoldable pub msg_set_chk : Msg → Msg
msg_set_chk msg = record msg { chk_sum = msg_chk_calc msg }

-- `memcmp(a, b, 2) == 0`
unfoldable pub memcmp_two : List ℕ → List ℕ → Bool
memcmp_two (a ∷ b ∷ _) (c ∷ d ∷ _) = (a == c) && (b == d)
memcmp_two _ _ = false

unfoldable pub msg_chk : Msg → Err
msg_chk msg = if memcmp_two (msg_chk_calc msg) msg.chk_sum then ok else uart_msg_err_invalid_chksum

-- A message that asks for `read_len` bytes of a register. The `chk_sum` of the initialiser is zero.
unfoldable pub regread_msg_new : ℕ → ℕ → ℕ → Msg
regread_msg_new dst_addr reg read_len = msg_set_chk (record {
  pld_length = 1;
  src_address = 0x3e;
  dst_address = u8 dst_addr;
  cmd_command = 0x01;
  cmd_argment = u8 reg;
  payload = u8 read_len ∷ [];
  chk_sum = 0 ∷ 0 ∷ [];
})

-- The loop of `esk8_uart_msg_find_header` at index `i`, with the buffer from `i` on.
unfoldable pub find_loop : ℕ → List ℕ → Option ℕ
find_loop i [] = none
find_loop i (a ∷ []) = none
find_loop i (a ∷ b ∷ rest) =
    if (a == 0x5A) && (b == 0xA5) then some i else find_loop (suc i) (b ∷ rest)

-- `esk8_uart_msg_find_header`; `none` is its -1. `buf_length` is an `int`.
unfoldable pub msg_find_header : List ℕ → ℤ → Option ℕ
unfolding find_loop
msg_find_header buffer (negsuc _) = none
msg_find_header buffer (pos buf_length) =
    if ltb buf_length 2 then none else find_loop 0 (take buf_length buffer)

-- `memcpy` of `n` bytes from `buffer + offset`.
unfoldable pub slice? : List ℕ → ℕ → ℕ → Option (List ℕ)
slice? buffer offset n =
    if leb (offset + n) (length buffer) then some (take n (drop offset buffer)) else none

-- What a call that may copy out of its buffer comes to: `fault` is an access out of bounds.
pub data Parsed : Type 0 where
  parsed : Msg → Parsed
  failed : Err → Parsed
  fault : Parsed

infixl 5 ◌>>=◌
abbrev pub ◌>>=◌ : Option (List ℕ) → (List ℕ → Parsed) → Parsed
none >>= k = fault
some bytes >>= k = k bytes

-- The fields that `memcpy((void*)&msgNew, msgBuffer, ESK8_MSG_HEADER_SIZE)` fills.
unfoldable pub header_of : List ℕ → Msg
header_of (a ∷ b ∷ c ∷ d ∷ e ∷ _) = record {
  pld_length = a;
  src_address = b;
  dst_address = c;
  cmd_command = d;
  cmd_argment = e;
  payload = [];
  chk_sum = [];
}
header_of _ = record {
  pld_length = 0;
  src_address = 0;
  dst_address = 0;
  cmd_command = 0;
  cmd_argment = 0;
  payload = [];
  chk_sum = [];
}

-- The payload is freed when the checksum does not match.
unfoldable pub check_parsed : Msg → Parsed
check_parsed msg_new = elim (msg_chk msg_new) [ ok ↦ parsed msg_new | err_code ↦ failed err_code ]

-- From the header's index on. `rem_buffer_len` is a `uint8_t`; its two decrements are made only at
-- 9 or more.
unfoldable pub parse_at : List ℕ → ℕ → ℕ → Parsed
unfolding header_of
parse_at buffer buf_length header_index =
    let rem_buffer_len = u8 (buf_length - header_index) in
    if ltb rem_buffer_len msg_min_size
    then failed uart_msg_err_invalid_buffer
    else (slice? buffer (header_index + 2) msg_header_size >>= λ head.
        let msg_new = header_of head in
        if ltb (rem_buffer_len - 2 - msg_header_size) (msg_new.pld_length + 2)
        then failed uart_msg_err_invalid_pldlen
        else (slice? buffer (header_index + 2 + msg_header_size) msg_new.pld_length >>= λ payload.
            slice? buffer (header_index + 2 + msg_header_size + msg_new.pld_length) 2 >>= λ chk_sum.
            check_parsed (record msg_new { payload = payload; chk_sum = chk_sum })))

-- `buf_length` is a `size_t` of 32 bits, passed on to an `int`.
unfoldable pub msg_parse : List ℕ → ℕ → Parsed
msg_parse buffer buf_length = elim (msg_find_header buffer (int_of_word buf_length)) [
  | none ↦ failed uart_msg_err_no_header
  | some header_index ↦ parse_at buffer buf_length header_index
]

-- A message whose payload and checksum arrays hold what its length field says, of bytes.
pub record IsWellFormed (msg : Msg) : Type 0 where
  pub payload_length : length msg.payload ≡ msg.pld_length
  pub chk_sum_length : length msg.chk_sum ≡ 2
  pub header_fits : AllBytes (header_bytes msg)
  pub payload_fits : AllBytes msg.payload
