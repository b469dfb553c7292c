-- ===== src/Tests/Bms.antt =====
-- lib/bms at a line whose answers are listed.
use esk.Common.{ℕ, zero, suc, ◌≡◌, refl, List, [], ◌∷◌, ◌++◌, length, replicate, ◌-◌, arith}
use esk.Common.Int.{ℤ, pos}
use esk.Err.{bms_err_no_response}
use esk.Uart.{
  Msg, msg_set_chk, msg_parse, msg_chk, msg_find_header, slice?, parse_at, memcmp_two, msg_chk_calc,
  regread_msg_new,
}
use esk.Uart.{check_parsed as check_sum}
use esk.Bms.Driver.{UartDriver}
use esk.Bms.Query.{
  replied, gave_up, check_response, judge, exchange, get_data_with_response, addr_bms,
}
use esk.Bms.Query.Reply.{IsResponse, judge_sound, Accepted}
use esk.Bms.Query.Retry.{after, round, GaveUp, Replied, query_replied}
use esk.Bms.Status.{complete, get_status, get_deep_status}
use esk.Bms.Status.Fields.{get_status-replies, get_deep_status-HasSize, HasSize}
use esk.Bms.Setup.{IsValid, config_h}

-- The answers that are left; an empty list of bytes is silence.
abbrev answer : List (List ℕ) → List (List ℕ) × ℤ × List ℕ
answer [] = ([], pos 0, [])
answer (bytes ∷ left) = (left, pos (length bytes), bytes)

abbrev line : UartDriver
line = record {
  Port = List (List ℕ);
  flush_input = λ uart_port p. p;
  write_bytes = λ uart_port bytes p. p;
  wait_tx_done = λ uart_port p. p;
  read_bytes = λ uart_port n p. answer p;
}

-- A frame of the battery with a two-byte value, and an argument.
abbrev value : ℕ → ℕ → ℕ → Msg
value arg a b = record {
  pld_length = 2;
  src_address = 0x22;
  dst_address = 0x3e;
  cmd_command = 4;
  cmd_argment = arg;
  payload = a ∷ b ∷ [];
  chk_sum = 0 ∷ 0 ∷ [];
}

abbrev reply : ℕ → List ℕ
reply a = 0x5A ∷ 0xA5 ∷ 2 ∷ 0x22 ∷ 0x3e ∷ 4 ∷ 0 ∷ a ∷ 1 ∷ (0x98 - a) ∷ 0xFF ∷ []

abbrev answers : List (List ℕ)
answers = reply 8 ∷ reply 9 ∷ reply 10 ∷ []

-- The four registers of a status, one after the other.
answered :
    (get_data_with_response line 1 addr_bms 0x32 2 (reply 7 ∷ answers)
      ≡ (answers, replied (7 ∷ 1 ∷ [])))
    × (get_data_with_response line 1 addr_bms 0x34 2 answers
        ≡ (reply 9 ∷ reply 10 ∷ [], replied (8 ∷ 1 ∷ [])))
    × (get_data_with_response line 1 addr_bms 0x33 2 (reply 9 ∷ reply 10 ∷ [])
        ≡ (reply 10 ∷ [], replied (9 ∷ 1 ∷ [])))
    × (get_data_with_response line 1 addr_bms 0x35 2 (reply 10 ∷ []) ≡ ([], replied (10 ∷ 1 ∷ [])))
unfolding get_data_with_response msg_parse msg_find_header parse_at slice? check_sum msg_chk
    memcmp_two msg_chk_calc check_response
answered = (refl, refl, refl, refl)

get_status-replies_example :
    get_status line 1 (replicate 8 0) (replicate 8 5) (reply 7 ∷ answers)
    ≡ ([], complete ((7 ∷ 1 ∷ []) ++ ((8 ∷ 1 ∷ []) ++ ((9 ∷ 1 ∷ []) ++ (10 ∷ 1 ∷ [])))))
get_status-replies_example =
    get_status-replies line 1 (replicate 8 0) (replicate 8 5) (7 ∷ 1 ∷ []) (8 ∷ 1 ∷ []) (9 ∷ 1 ∷ [])
      (10 ∷ 1 ∷ []) (reply 7 ∷ answers) answers (reply 9 ∷ reply 10 ∷ []) (reply 10 ∷ []) [] refl
      answered.0 answered.1 answered.2 answered.3

get_deep_status-HasSize_example :
    HasSize 55 (get_deep_status line 1 (replicate 55 0) (reply 7 ∷ answers)).1
get_deep_status-HasSize_example =
    get_deep_status-HasSize line 1 (replicate 55 0) (reply 7 ∷ answers) refl

-- A silence before the answer.
late :
    get_data_with_response line 1 addr_bms 0x32 2 ([] ∷ reply 7 ∷ []) ≡ ([], replied (7 ∷ 1 ∷ []))
unfolding get_data_with_response msg_parse msg_find_header parse_at slice? check_sum msg_chk
    memcmp_two msg_chk_calc check_response
late = refl

query_replied_example :
    Replied line 1 (regread_msg_new addr_bms 0x32 2) 2 3 ([] ∷ reply 7 ∷ []) [] (7 ∷ 1 ∷ [])
query_replied_example =
    query_replied line 1 addr_bms 0x32 2 ([] ∷ reply 7 ∷ []) [] (7 ∷ 1 ∷ []) late

silent_round :
    (j : ℕ)
    → round line 1
        (regread_msg_new addr_bms 0x32 2)
        2
        (after line 1 (regread_msg_new addr_bms 0x32 2) 2 j [])
      ≡ gave_up bms_err_no_response
unfolding round after judge exchange
silent_round zero = refl
silent_round (suc j) = silent_round j

silent :
    (j : ℕ)
    → GaveUp line 1 (regread_msg_new addr_bms 0x32 2) 2 (
        round line 1
          (regread_msg_new addr_bms 0x32 2)
          2
          (after line 1 (regread_msg_new addr_bms 0x32 2) 2 j []))
silent j = (bms_err_no_response, silent_round j)

accepted_reply : judge 2 (pos 11) (reply 7) ≡ replied (7 ∷ 1 ∷ [])
unfolding judge msg_parse msg_find_header parse_at slice? check_sum msg_chk memcmp_two msg_chk_calc
    check_response
accepted_reply = refl

judge_sound_example : (pos 11 ≡ pos 11) × Accepted 2 (reply 7) (7 ∷ 1 ∷ [])
judge_sound_example = judge_sound 2 (pos 11) (reply 7) (7 ∷ 1 ∷ []) accepted_reply

-- The battery's answer for register 0x34, which it names in the frame.
echoing-IsResponse : IsResponse (msg_set_chk (value 0x34 7 1)) 2
unfolding msg_set_chk msg_chk msg_chk_calc memcmp_two
echoing-IsResponse = ground arith

config_h-IsValid : IsValid config_h
config_h-IsValid = omega arith
