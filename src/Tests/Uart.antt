-- ===== src/Tests/Uart.antt =====
-- lib/uart/esk8_uart.c and lib/err at concrete messages.
use esk.Common.{
  ℕ, ◌≡◌, ◌≢◌, refl, List, [], ◌∷◌, ◌++◌, length, take, drop, replicate, ◌+◌, ◌≤◌, arith,
}
use esk.Err.{ok, uart_msg_err_invalid_chksum}
use esk.Uart.{
  Msg, IsWellFormed, parsed, failed, fault, msg_serialize, msg_set_chk, msg_get_serialized_length,
  msg_chk, msg_parse, msg_find_header, parse_at, slice?, check_parsed, memcmp_two, msg_chk_calc,
}
use esk.Uart.Header.{IsFirstWithin}
use esk.Uart.RoundTrip.{msg_parse-msg_serialize}
use esk.Uart.Sound.{msg_parse_sound}
use esk.Uart.Bounds.{msg_parse-ne-fault}
use esk.Uart.Corruption.{msg_parse-corrupt, corrupt}

-- A voltage reply of a battery.
abbrev voltage : Msg
voltage = record {
  pld_length = 2;
  src_address = 0x22;
  dst_address = 0x3e;
  cmd_command = 4;
  cmd_argment = 0x34;
  payload = 0xD2 ∷ 0x0F ∷ [];
  chk_sum = 0 ∷ 0 ∷ [];
}

abbrev voltage_set : Msg
voltage_set = record voltage { chk_sum = 0xC4 ∷ 0xFE ∷ [] }

voltage-IsWellFormed : IsWellFormed voltage
voltage-IsWellFormed = omega arith

msg_parse-msg_serialize_example :
    msg_parse (7 ∷ (msg_serialize (msg_set_chk voltage) ++ (1 ∷ 2 ∷ []))) 14
    ≡ parsed (msg_set_chk voltage)
unfolding msg_serialize msg_parse parse_at msg_set_chk msg_chk_calc
msg_parse-msg_serialize_example =
    msg_parse-msg_serialize voltage (7 ∷ []) (1 ∷ 2 ∷ []) voltage-IsWellFormed (omega arith)
      (unfold msg_get_serialized_length in omega arith) (omega arith)

abbrev frame : List ℕ
frame = 0x5A ∷ 0xA5 ∷ 2 ∷ 0x22 ∷ 0x3e ∷ 4 ∷ 0x34 ∷ 0xD2 ∷ 0x0F ∷ 0x84 ∷ 0xFE ∷ []

abbrev received : Msg
received = record voltage { chk_sum = 0x84 ∷ 0xFE ∷ [] }

frame-parses : msg_parse (0x5A ∷ frame) 12 ≡ parsed received
unfolding msg_parse msg_chk msg_find_header parse_at slice? check_parsed memcmp_two msg_chk_calc
frame-parses = refl

msg_parse_sound_example :
    (i : ℕ) × IsFirstWithin (0x5A ∷ frame) 12 i
    × (i + msg_get_serialized_length received ≤ 12)
    × (take (msg_get_serialized_length received) (drop i (0x5A ∷ frame)) ≡ msg_serialize received)
    × (msg_chk received ≡ ok)
msg_parse_sound_example = msg_parse_sound (0x5A ∷ frame) 12 received frame-parses

msg_parse-ne-fault_example : msg_parse (0x5A ∷ 0xA5 ∷ 255 ∷ []) 3 ≢ fault
msg_parse-ne-fault_example = msg_parse-ne-fault (0x5A ∷ 0xA5 ∷ 255 ∷ []) 3 (omega arith)

msg_parse-corrupt_example :
    msg_parse
      (msg_serialize (corrupt received 1 0x0E))
      (length (msg_serialize (corrupt received 1 0x0E)))
    ≡ failed uart_msg_err_invalid_chksum
unfolding memcmp_two msg_chk_calc
msg_parse-corrupt_example =
    msg_parse-corrupt received 1 0x0E received-IsWellFormed received-checked (omega arith)
      (omega arith) (omega arith) (unfold msg_get_serialized_length in omega arith)
  where
    received-IsWellFormed : IsWellFormed received
    received-IsWellFormed = omega arith

    received-checked : msg_chk received ≡ ok
    received-checked = unfold msg_chk in refl

abbrev large : Msg
large = record voltage { pld_length = 250; payload = replicate 250 0 }

large-IsWellFormed : IsWellFormed large
large-IsWellFormed = ground arith
