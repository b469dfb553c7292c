-- ===== src/Tests/Onboard.antt =====
-- A round of lib/onboard/esk8_onboard_bms.c over a line on which no battery answers.
use esk.Common.{ℕ, suc, ◌≡◌, refl, true, [], ◌∷◌, some, none, replicate, arith}
use esk.Common.Int.{pos}
use esk.Bms.Driver.{UartDriver}
use esk.Ble.Types.{live, App}
use esk.Bms.Query.{get_data_with_response}
use esk.Bms.Status.{get_status, get_deep_status, read_size}
use esk.Ble.Status.{zeroed, status_bms_shallow, status_bms_deep}
use esk.Onboard.Batteries.{Batteries, Context, read_all}
use esk.Onboard.Batteries.Publish.{IsSized, IsPublished, read_all-IsPublished}

-- The port counts the reads.
abbrev silent : UartDriver
silent = record {
  Port = ℕ;
  flush_input = λ uart_port p. p;
  write_bytes = λ uart_port bytes p. p;
  wait_tx_done = λ uart_port p. p;
  read_bytes = λ uart_port size p. (suc p, pos 0, []);
}

abbrev status : App
status = record {
  attr_num = 10;
  conn_ctx_list = live (record { conn_id = pos 3; ctx = 0 } ∷ []);
  attr_hndl_list = live (replicate 10 77);
  ble_if = 5;
}

abbrev context : Context silent
context = record {
  uart_port = 1;
  apps = record {
    apps_list = some (some 0 ∷ []);
    apps_num_max = 1;
    conn_num_max = 1;
    curr_app_id = 1;
    app = λ a. status;
  };
  srvc_status = status;
  out_values = replicate 8 0;
  allocated = true;
  set_pin = λ i p. p;
}

-- What an earlier round read, behind a start of the service, which forgets it.
abbrev read_before : Batteries silent
read_before = record {
  port = 0;
  bms_stat = replicate 8 1 ∷ replicate 8 2 ∷ replicate 8 3 ∷ replicate 8 4 ∷ [];
  bms_deep_stat = replicate 55 1 ∷ replicate 55 2 ∷ replicate 55 3 ∷ replicate 55 4 ∷ [];
  values = zeroed;
  sent = [];
}

read_before-IsSized : IsSized silent 4 read_before
read_before-IsSized = record { stat = refl; shallow = refl; deep_stat = refl; deep = refl }

abbrev round_over : Batteries silent
unfolding read_all
round_over = elim (read_all silent context read_before) [ none ↦ read_before | some b ↦ b ]

ends : read_all silent context read_before ≡ some round_over
unfolding read_all get_status get_data_with_response status_bms_shallow get_deep_status read_size
    status_bms_deep
ends = refl

read_all-IsPublished_example : IsPublished silent 2 round_over
read_all-IsPublished_example =
    read_all-IsPublished silent context 2 read_before round_over ends read_before-IsSized
      (omega arith)
