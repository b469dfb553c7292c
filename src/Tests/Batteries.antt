-- ===== src/Tests/Batteries.antt =====
-- A round of lib/onboard/esk8_onboard_bms.c over batteries that answer their registers of two bytes.
use esk.Common.{
  ℕ, suc, ◌+◌, ◌≤◌, ◌<◌, ◌≡◌, refl, sym, ap, ◌∙◌, true, List, [], ◌∷◌, some, replicate, arith, ◌==◌,
  if◌then◌else◌, Bool-cases, inl, inr,
}
use esk.Common.Int.{pos}
use esk.Uart.{
  Msg, Parsed, parsed, failed, fault, msg_parse, msg_find_header, parse_at, slice?, msg_chk,
  memcmp_two, msg_chk_calc, check_parsed,
}
use esk.Bms.Driver.{UartDriver}
use esk.Bms.Query.Returns.{Answers}
use esk.Ble.Types.{live, App}
use esk.Ble.Status.{zeroed}
use esk.Onboard.Batteries.{Batteries, Context, read_all}
use esk.Onboard.Batteries.Publish.{IsSized, IsPublished}
use esk.Onboard.Batteries.Round.{read_all-Returns}

abbrev reply : List ℕ
reply = 0x5A ∷ 0xA5 ∷ 2 ∷ 0x22 ∷ 0x3e ∷ 4 ∷ 0 ∷ 7 ∷ 1 ∷ 0x91 ∷ 0xFF ∷ []

abbrev frame : Msg
frame = record {
  pld_length = 2;
  src_address = 0x22;
  dst_address = 0x3e;
  cmd_command = 4;
  cmd_argment = 0;
  payload = 7 ∷ 1 ∷ [];
  chk_sum = 0x91 ∷ 0xFF ∷ [];
}

parsed_reply : msg_parse reply 11 ≡ parsed frame
unfolding msg_parse msg_find_header parse_at slice? msg_chk memcmp_two msg_chk_calc check_parsed
parsed_reply = refl

-- The port counts the reads.
abbrev answering : UartDriver
answering = record {
  Port = ℕ;
  flush_input = λ uart_port p. p;
  write_bytes = λ uart_port bytes p. p;
  wait_tx_done = λ uart_port p. p;
  read_bytes = λ uart_port size p. (suc p, (if size == 11 then pos 11 else pos 0), reply);
}

abbrev length_of : Parsed → ℕ
length_of (parsed msg) = msg.pld_length
length_of (failed err) = 0
length_of fault = 0

reply_held : (len : ℕ) → (if len == 11 then pos 11 else pos 0) ≡ pos len → len ≤ 11
reply_held len e = ground (arith, e)

reply_whole :
    (len : ℕ) (msg : Msg)
    → (if len == 11 then pos 11 else pos 0) ≡ pos len
    → msg_parse reply len ≡ parsed msg
    → len ≤ 9 + msg.pld_length
reply_whole len msg e found = elim (Bool-cases (len == 11)) [
  | inl same ↦
      let eleven : len ≡ 11 = ground arith in
      let two : 2 ≡ msg.pld_length =
        ap length_of (sym parsed_reply ∙ ap (msg_parse reply) (sym eleven) ∙ found) in
      omega (arith, eleven, two)
  | inr other ↦ let none : len ≡ 0 = ground (arith, e, other) in omega (arith, none)
]

answering-Answers : Answers answering
answering-Answers = record {
  held = λ uart_port len p e. reply_held len e;
  whole = λ uart_port reg_size p msg e found.
      let fits = reply_whole (9 + reg_size) msg e found in omega (arith, fits);
}

abbrev status : App
status = record {
  attr_num = 10;
  conn_ctx_list = live (record { conn_id = pos 3; ctx = 0 } ∷ []);
  attr_hndl_list = live (replicate 10 77);
  ble_if = 5;
}

abbrev context : Context answering
context = record {
  uart_port = 1;
  apps = record {
    apps_list = some (some 0 ∷ []);
    apps_num_max = 1;
    conn_num_max = 1;
    curr_app_id = 1;
    app = λ a. status;
  };
  srvc_status = status;
  out_values = replicate 8 0;
  allocated = true;
  set_pin = λ i p. p;
}

abbrev unread : Batteries answering
unread = record {
  port = 0;
  bms_stat = replicate 4 (replicate 8 0);
  bms_deep_stat = replicate 4 (replicate 55 0);
  values = zeroed;
  sent = [];
}

unread-IsSized : IsSized answering 4 unread
unread-IsSized = record { stat = refl; shallow = refl; deep_stat = refl; deep = refl }

read_all-Returns_example :
    (b' : Batteries answering) × ((read_all answering context unread ≡ some b')
      × (IsSized answering 4 b' × ((j : ℕ) → j < 4 → IsPublished answering j b')))
read_all-Returns_example =
    read_all-Returns answering context unread answering-Answers
      (record {
        list = record { conn_id = pos 3; ctx = 0 } ∷ [];
        contexts = refl;
        shallow = 77;
        shallow_handle = refl;
        deep = 77;
        deep_handle = refl;
      })
      unread-IsSized
