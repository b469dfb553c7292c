-- ===== src/Uart/RoundTrip.antt =====
-- A frame that the board serializes is parsed back, also behind noise and before trailing bytes.
use esk.Common.{
  ℕ, suc, ◌+◌, ◌-◌, ◌<◌, ◌^◌, ◌≡◌, ◌≢◌, refl, ◌∙◌, ap, some, List, [], ◌∷◌, ◌++◌, append_assoc,
  arith, length, take, drop, length-append, take-length, ltb, true, false, take-append,
}
use esk.Common.Int.{pos, int_of_word_of_lt}
use esk.Common.Slices.{take_all}
use esk.Err.{ok}
use esk.Uart.{
  Msg, IsWellFormed, msg_pkt_header, header_bytes, msg_serialize, msg_get_serialized_length,
  msg_set_chk, msg_chk_calc, msg_chk, memcmp_two, check_parsed, slice?, parse_at, msg_parse, parsed,
  msg_find_header, find_loop, buff_chk_calc,
}
use esk.Uart.Header.{msg_parse_at}
use esk.Uart.Slices.{slice?-append_two}

-- What a well-formed message serializes to.
pub msg_serialize_lem :
    (msg : Msg)
    → length msg.payload ≡ msg.pld_length
    → length msg.chk_sum ≡ 2
    → msg_serialize msg ≡ msg_pkt_header ++ (header_bytes msg ++ (msg.payload ++ msg.chk_sum))
unfolding msg_serialize
msg_serialize_lem msg len two =
    rw (take-length msg.pld_length msg.payload len, take-length 2 msg.chk_sum two)

-- The checksum is taken over the header bytes and the payload.
pub msg_chk_calc_lem :
    (msg : Msg)
    → length msg.payload ≡ msg.pld_length
    → msg_chk_calc msg ≡ buff_chk_calc (header_bytes msg ++ msg.payload)
unfolding msg_chk_calc
msg_chk_calc_lem msg len = ap buff_chk_calc covered
  where
    shift : msg.pld_length + 9 - 4 ≡ suc (suc (suc (suc (suc msg.pld_length))))
    shift = omega arith

    covered :
        take (msg_get_serialized_length msg - 4) (drop 2 (msg_serialize msg))
        ≡ header_bytes msg ++ msg.payload
    covered =
        rw (shift, take-length msg.pld_length msg.payload len)
          (ap (λ t. header_bytes msg ++ t) (take-append msg.pld_length msg.payload _ len))

memcmp_two_refl : (xs : List ℕ) → memcmp_two (buff_chk_calc xs) (buff_chk_calc xs) ≡ true
unfolding memcmp_two buff_chk_calc
memcmp_two_refl xs = ground arith

-- Setting the checksum gives a message that passes the check.
pub msg_chk-msg_set_chk :
    (msg : Msg) → length msg.payload ≡ msg.pld_length → msg_chk (msg_set_chk msg) ≡ ok
unfolding msg_chk msg_set_chk
msg_chk-msg_set_chk msg len = rw (
  msg_chk_calc_lem (record msg { chk_sum = msg_chk_calc msg }) len,
  msg_chk_calc_lem msg len,
  memcmp_two_refl,
)

pub IsWellFormed-msg_set_chk : {msg : Msg} → IsWellFormed msg → IsWellFormed (msg_set_chk msg)
unfolding msg_set_chk
IsWellFormed-msg_set_chk {msg} w = record {
  payload_length = w.payload_length;
  chk_sum_length = rw (msg_chk_calc_lem msg w.payload_length) (unfold buff_chk_calc in refl);
  header_fits = w.header_fits;
  payload_fits = w.payload_fits;
}

pub check_parsed-ok : (msg : Msg) → msg_chk msg ≡ ok → check_parsed msg ≡ parsed msg
unfolding check_parsed
check_parsed-ok msg h = ground arith

-- The three copies that the parser makes of a frame behind `pre`.
module _ (msg : Msg) (pre post : List ℕ) (w : IsWellFormed msg) where
  abbrev buffer : List ℕ
  buffer = pre ++ (msg_serialize msg ++ post)

  regroup :
      buffer
      ≡ pre ++ (msg_pkt_header ++ (header_bytes msg ++ (msg.payload ++ (msg.chk_sum ++ post))))
  regroup = rw (msg_serialize_lem msg w.payload_length w.chk_sum_length) (simp append_assoc)

  head_part : slice? buffer (length pre + 2) 5 ≡ some (header_bytes msg)
  head_part = rw regroup (
      slice?-append_two pre msg_pkt_header (header_bytes msg) (msg.payload ++ (msg.chk_sum ++ post))
        (length pre + 2) 5 refl refl)

  payload_part : slice? buffer (length pre + 2 + 5) msg.pld_length ≡ some msg.payload
  payload_part = rw regroup (
      slice?-append_two pre (msg_pkt_header ++ header_bytes msg) msg.payload (msg.chk_sum ++ post)
        (length pre + 2 + 5) msg.pld_length (omega arith) w.payload_length)

  chk_part : slice? buffer (length pre + 2 + 5 + msg.pld_length) 2 ≡ some msg.chk_sum
  chk_part = rw regroup (
      slice?-append_two pre (msg_pkt_header ++ (header_bytes msg ++ msg.payload)) msg.chk_sum post
        (length pre + 2 + 5 + msg.pld_length) 2 (omega (arith, w)) w.chk_sum_length)

-- Parsing from the index where the frame stands.
pub parse_at-serialize :
    (msg : Msg) (pre post : List ℕ) (n : ℕ)
    → IsWellFormed msg
    → n ≡ length pre + (msg.pld_length + 9) + length post
    → msg.pld_length + 9 + length post < 256
    → parse_at (pre ++ (msg_serialize msg ++ post)) n (length pre) ≡ check_parsed msg
unfolding parse_at
parse_at-serialize msg pre post n w e fits =
    rw (head_part msg pre post w, payload_part msg pre post w, chk_part msg pre post w)
      (ground arith)

-- No byte of the list starts a header.
abbrev pub NoStart : List ℕ → Type 0
NoStart [] = Unit
NoStart (x ∷ xs) = (x ≢ 0x5A) × NoStart xs

find_loop-append :
    (i : ℕ) (pre rest : List ℕ)
    → NoStart pre
    → find_loop i (pre ++ (0x5A ∷ 0xA5 ∷ rest)) ≡ some (i + length pre)
unfolding find_loop
find_loop-append i [] rest h = ap some (omega arith)
find_loop-append i (x ∷ []) rest h = ground (arith, find_loop-append (suc i) [] rest tt)
find_loop-append i (x ∷ y ∷ xs) rest h = ground (arith, find_loop-append (suc i) (y ∷ xs) rest h.1)

pub msg_find_header-frame :
    (msg : Msg) (pre post : List ℕ) (n : ℕ)
    → NoStart pre
    → n ≡ length (pre ++ (msg_serialize msg ++ post))
    → msg_find_header (pre ++ (msg_serialize msg ++ post)) (pos n) ≡ some (length pre)
unfolding msg_find_header msg_serialize
msg_find_header-frame msg pre post n quiet e =
    rw (long, take_all n (pre ++ (msg_serialize msg ++ post)) (omega arith))
      (find_loop-append 0 pre _ quiet ∙ ap some (omega arith))
  where
    long : ltb n 2 ≡ false
    long = ground (arith, length-append pre (msg_serialize msg ++ post))

pub length-msg_serialize :
    (msg : Msg) → IsWellFormed msg → length (msg_serialize msg) ≡ msg_get_serialized_length msg
unfolding msg_get_serialized_length
length-msg_serialize msg w =
    rw (msg_serialize_lem msg w.payload_length w.chk_sum_length)
      (omega (arith, length-append msg.payload msg.chk_sum, w))

-- What the parser makes of a frame behind noise that has no 0x5A byte: the checksum decides.
pub msg_parse-frame :
    (msg : Msg) (pre post : List ℕ)
    → IsWellFormed msg
    → NoStart pre
    → msg_get_serialized_length msg + length post < 256
    → length pre < 2 ^ 30
    → let buffer = pre ++ (msg_serialize msg ++ post) in
      msg_parse buffer (length buffer) ≡ check_parsed msg
unfolding msg_get_serialized_length
msg_parse-frame msg pre post w quiet fits short =
    msg_parse_at buffer (length buffer) (length pre) (
      rw (int_of_word_of_lt (length buffer) small)
        (msg_find_header-frame msg pre post _ quiet refl))
    ∙ parse_at-serialize msg pre post (length buffer) w size (omega arith)
  where
    buffer : List ℕ
    buffer = pre ++ (msg_serialize msg ++ post)

    size : length buffer ≡ length pre + (msg.pld_length + 9) + length post
    size = omega (
      arith,
      length-append pre (msg_serialize msg ++ post),
      length-append (msg_serialize msg) post,
      length-msg_serialize msg w,
    )

    small : length buffer < 2 ^ 31
    small = omega (arith, size)

-- Parsing a buffer that holds noise without a 0x5A byte, the serialized frame of a well-formed
-- message with its checksum set, and trailing bytes, gives back that message, if the frame and what
-- trails it are fewer than 256 bytes and the noise fewer than 2 ^ 30.
pub msg_parse-msg_serialize :
    (msg : Msg) (pre post : List ℕ)
    → IsWellFormed msg
    → NoStart pre
    → msg_get_serialized_length msg + length post < 256
    → length pre < 2 ^ 30
    → let frame = msg_serialize (msg_set_chk msg) in
      let buffer = pre ++ (frame ++ post) in
      msg_parse buffer (length buffer) ≡ parsed (msg_set_chk msg)
unfolding msg_get_serialized_length
msg_parse-msg_serialize msg pre post w quiet fits short =
    msg_parse-frame (msg_set_chk msg) pre post (IsWellFormed-msg_set_chk w) quiet
      (unfold msg_set_chk in fits) short
    ∙ check_parsed-ok (msg_set_chk msg) (msg_chk-msg_set_chk msg w.payload_length)
