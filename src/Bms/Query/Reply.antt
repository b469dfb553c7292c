-- ===== src/Bms/Query/Reply.antt =====
-- Which responses a round of the query accepts.
use esk.Common.{
  ℕ, ◌+◌, ◌<◌, ◌≡◌, ◌≢◌, refl, ◌∙◌, ap, List, [], ◌++◌, append-nil, arith, length, take, drop,
  take-length, length-take, length-append,
}
use esk.Common.Int.{ℤ, pos, negsuc}
use esk.Err.{ok, bms_err_wrong_response}
use esk.Uart.{
  Msg, IsWellFormed, Parsed, parsed, failed, msg_chk, msg_parse, msg_serialize,
  msg_get_serialized_length,
}
use esk.Uart.Header.{IsFirstWithin}
use esk.Uart.RoundTrip.{msg_parse-frame, length-msg_serialize, check_parsed-ok}
use esk.Uart.Sound.{msg_parse_sound, msg_parse-lengths}
use esk.Bms.Query.{
  replied, gave_up, fault, copy_payload, check_response, check_parsed, judge, addr_bms,
}

-- A frame with its checksum right and a payload of the requested size.
pub record IsResponse (msg : Msg) (reg_size : ℕ) : Type 0 where
  pub well_formed : IsWellFormed msg
  pub checked : msg_chk msg ≡ ok
  pub sized : msg.pld_length ≡ reg_size
  pub short : reg_size < 247

judge-frame :
    (msg : Msg) (reg_size : ℕ)
    → IsResponse msg reg_size
    → judge reg_size (pos (9 + reg_size)) (msg_serialize msg) ≡ check_response msg reg_size
judge-frame msg reg_size r =
    entered
    ∙ ap (λ t. check_parsed t reg_size)
        (ap (msg_parse (msg_serialize msg)) size
          ∙ (rw append-nil at (msg_parse-frame msg [] [] r.well_formed tt fits (omega arith)))
          ∙ check_parsed-ok msg r.checked)
    ∙ accepted
  where
    entered :
        judge reg_size (pos (9 + reg_size)) (msg_serialize msg)
        ≡ check_parsed (msg_parse (msg_serialize msg) (9 + reg_size)) reg_size
    entered = unfold judge in ground arith

    accepted : check_parsed (parsed msg) reg_size ≡ check_response msg reg_size
    accepted = unfold check_parsed in refl

    size : 9 + reg_size ≡ length (msg_serialize msg)
    size =
        unfold msg_get_serialized_length in
        omega (arith, length-msg_serialize msg r.well_formed, r.sized)

    fits : msg_get_serialized_length msg + 0 < 256
    fits = unfold msg_get_serialized_length in omega (arith, r)

-- A frame that passes the check, with a payload of the requested size, of less than 247 bytes, from the
-- BMS's address and with an argument that is not 0 is refused with `WRONG_RESPONSE`.
pub judge-echo :
    (msg : Msg) (reg_size : ℕ)
    → IsResponse msg reg_size
    → msg.src_address ≡ addr_bms
    → msg.cmd_argment ≢ 0
    → judge reg_size (pos (9 + reg_size)) (msg_serialize msg) ≡ gave_up bms_err_wrong_response
judge-echo msg reg_size r src echo =
    judge-frame msg reg_size r ∙ (unfold check_response in ground arith)

-- With argument 0 its payload is what the query copies.
pub judge-zero :
    (msg : Msg) (reg_size : ℕ)
    → IsResponse msg reg_size
    → msg.src_address ≡ addr_bms
    → msg.cmd_argment ≡ 0
    → judge reg_size (pos (9 + reg_size)) (msg_serialize msg) ≡ replied msg.payload
judge-zero msg reg_size r src zero_arg =
    judge-frame msg reg_size r
    ∙ (unfold check_response in
        ground (arith, r.sized, take-length reg_size msg.payload, r.well_formed.payload_length))

-- What stands behind a reply that is accepted.
pub record Accepted (reg_size : ℕ) (res_buf : List ℕ) (out : List ℕ) : Type 0 where
  pub msg : Msg
  pub index : ℕ
  pub first : IsFirstWithin res_buf (9 + reg_size) index
  pub frame : take (msg_get_serialized_length msg) (drop index res_buf) ≡ msg_serialize msg
  pub checked : msg_chk msg ≡ ok
  pub from_bms : msg.src_address ≡ addr_bms
  pub argument : msg.cmd_argment ≡ 0
  pub copied : out ≡ take reg_size msg.payload

check_response-replied :
    (m : Msg) (reg_size : ℕ) (out : List ℕ)
    → check_response m reg_size ≡ replied out
    → (m.src_address ≡ addr_bms) × (m.cmd_argment ≡ 0) × (out ≡ take reg_size m.payload)
unfolding check_response
check_response-replied m reg_size out h = ground arith

-- Bytes are copied to the caller only if the read filled the response's length, and they are the payload
-- of a frame that stands behind the first header of the buffer, with its checksum right, the BMS's
-- address as source and 0 as argument.
pub judge_sound :
    (reg_size : ℕ) (res_len_r : ℤ) (res_buf out : List ℕ)
    → judge reg_size res_len_r res_buf ≡ replied out
    → (res_len_r ≡ pos (9 + reg_size)) × Accepted reg_size res_buf out
judge_sound reg_size (negsuc n) res_buf out h = absurd (unfold judge in cc h)
judge_sound reg_size (pos n) res_buf out h =
    (filled, accepted (msg_parse res_buf (9 + reg_size)) refl parsed_reply)
  where
    filled : pos n ≡ pos (9 + reg_size)
    filled = unfold judge in ground arith

    parsed_reply : check_parsed (msg_parse res_buf (9 + reg_size)) reg_size ≡ replied out
    parsed_reply = unfold judge in ground arith

    accepted :
        (p : Parsed)
        → msg_parse res_buf (9 + reg_size) ≡ p
        → check_parsed p reg_size ≡ replied out
        → Accepted reg_size res_buf out
    accepted (parsed m) e reply =
        unfold check_parsed in
        let (i, first, _, frame, checked) = msg_parse_sound res_buf (9 + reg_size) m e in
        let (src, argument, copied) = check_response-replied m reg_size out reply in
        record {
          msg = m;
          index = i;
          first = first;
          frame = frame;
          checked = checked;
          from_bms = src;
          argument = argument;
          copied = copied;
        }
    accepted (failed err) e reply = absurd (unfold check_parsed in cc reply)
    accepted Parsed.fault e reply = absurd (unfold check_parsed in cc reply)

-- What is copied to the caller has the size that was asked for.
pub length-judge :
    (reg_size : ℕ) (res_len_r : ℤ) (res_buf out : List ℕ)
    → judge reg_size res_len_r res_buf ≡ replied out
    → length out ≡ reg_size
length-judge reg_size (negsuc n) res_buf out h = absurd (unfold judge in cc h)
length-judge reg_size (pos n) res_buf out h =
    from (msg_parse res_buf (9 + reg_size)) refl parsed_reply
  where
    parsed_reply : check_parsed (msg_parse res_buf (9 + reg_size)) reg_size ≡ replied out
    parsed_reply = unfold judge in ground arith

    sized :
        (m : Msg)
        → length m.payload ≡ m.pld_length
        → check_response m reg_size ≡ replied out
        → length out ≡ reg_size
    sized m same reply =
        unfold check_response copy_payload in ground (arith, length-take reg_size m.payload)

    from :
        (p : Parsed)
        → msg_parse res_buf (9 + reg_size) ≡ p
        → check_parsed p reg_size ≡ replied out
        → length out ≡ reg_size
    from (parsed m) e reply =
        sized m (msg_parse-lengths res_buf (9 + reg_size) m e).0 (unfold check_parsed in cc reply)
    from (failed err) e reply = absurd (unfold check_parsed in cc reply)
    from Parsed.fault e reply = absurd (unfold check_parsed in cc reply)

-- A frame that passes the check, from the BMS and with argument 0, whose payload is shorter than what was
-- asked for (less than 247 bytes), followed by bytes that fill the read: the copy to the caller leaves the
-- payload's memory.
pub judge-short :
    (msg : Msg) (post : List ℕ) (reg_size : ℕ)
    → IsWellFormed msg
    → msg_chk msg ≡ ok
    → msg.src_address ≡ addr_bms
    → msg.cmd_argment ≡ 0
    → msg.pld_length < reg_size
    → reg_size < 247
    → length post + msg.pld_length ≡ reg_size
    → judge reg_size (pos (9 + reg_size)) (msg_serialize msg ++ post) ≡ fault
judge-short msg post reg_size w checked src zero_arg less short fill =
    entered
    ∙ ap (λ t. check_parsed t reg_size)
        (ap (msg_parse (msg_serialize msg ++ post)) size
          ∙ msg_parse-frame msg [] post w tt fits (omega arith)
          ∙ check_parsed-ok msg checked)
    ∙ over
  where
    entered :
        judge reg_size (pos (9 + reg_size)) (msg_serialize msg ++ post)
        ≡ check_parsed (msg_parse (msg_serialize msg ++ post) (9 + reg_size)) reg_size
    entered = unfold judge in ground arith

    over : check_parsed (parsed msg) reg_size ≡ fault
    over = unfold check_parsed check_response copy_payload in ground arith

    size : 9 + reg_size ≡ length (msg_serialize msg ++ post)
    size =
        unfold msg_get_serialized_length in
        omega (arith, length-msg_serialize msg w, length-append (msg_serialize msg) post)

    fits : msg_get_serialized_length msg + length post < 256
    fits = unfold msg_get_serialized_length in omega arith
