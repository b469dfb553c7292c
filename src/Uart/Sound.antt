-- ===== src/Uart/Sound.antt =====
-- What a message that the parser returns says of the buffer.
use esk.Common.{
  ℕ, zero, suc, ◌+◌, ◌≤◌, ◌≡◌, refl, ◌∙◌, ap, sym, some, List, [], ◌∷◌, ◌++◌, arith, length, take,
  drop, inl, inr, Option-cases,
}
use esk.Common.Int.{int_of_word}
use esk.Err.{ok}
use esk.Uart.{
  Msg, parsed, slice?, header_of, check_parsed, parse_at, msg_parse, msg_find_header, msg_serialize,
  msg_get_serialized_length, msg_chk, msg_pkt_header, header_bytes,
}
use esk.Common.Slices.{take-add, drop-drop}
use mathlib.Core.Path.{subst}
use esk.Uart.RoundTrip.{msg_serialize_lem}
use esk.Uart.Slices.{slice?-eq-some}
use esk.Uart.Header.{
  HeaderAt, IsFirstWithin, msg_find_header-within, msg_parse_at, msg_parse_no_header,
}

check_parsed-inv : (m msg : Msg) → check_parsed m ≡ parsed msg → (m ≡ msg) × (msg_chk m ≡ ok)
unfolding check_parsed
check_parsed-inv m msg h = ground arith

-- The copies behind a message that `parse_at` returns.
record Copies (buffer : List ℕ) (n i : ℕ) (msg : Msg) : Type 0 where
  head : List ℕ
  payload : List ℕ
  chk_sum : List ℕ
  head_copy : slice? buffer (i + 2) 5 ≡ some head
  payload_copy : slice? buffer (i + 2 + 5) (header_of head).pld_length ≡ some payload
  chk_copy : slice? buffer (i + 2 + 5 + (header_of head).pld_length) 2 ≡ some chk_sum
  fits : i + (header_of head).pld_length + 9 ≤ n
  message : record (header_of head) { payload = payload; chk_sum = chk_sum } ≡ msg
  checked : msg_chk (record (header_of head) { payload = payload; chk_sum = chk_sum }) ≡ ok

parse_at-Copies :
    (buffer : List ℕ) (n i : ℕ) (msg : Msg)
    → i ≤ n
    → parse_at buffer n i ≡ parsed msg
    → Copies buffer n i msg
parse_at-Copies buffer n i msg le h = elim (Option-cases (slice? buffer (i + 2) 5)) [
  | inl e ↦ absurd (unfold parse_at in ground arith)
  | inr (head, e) ↦
      let pld = (header_of head).pld_length in
      elim (Option-cases (slice? buffer (i + 2 + 5) pld)) [
        | inl e2 ↦ absurd (unfold parse_at in ground arith)
        | inr (payload, e2) ↦ elim (Option-cases (slice? buffer (i + 2 + 5 + pld) 2)) [
          | inl e3 ↦ absurd (unfold parse_at in ground arith)
          | inr (chk_sum, e3) ↦
              let m : Msg = record (header_of head) { payload = payload; chk_sum = chk_sum } in
              let found : check_parsed m ≡ parsed msg = unfold parse_at in ground arith in
              let room : i + pld + 9 ≤ n = unfold parse_at in ground arith in
              record {
                head = head;
                payload = payload;
                chk_sum = chk_sum;
                head_copy = e;
                payload_copy = e2;
                chk_copy = e3;
                fits = room;
                message = (check_parsed-inv m msg found).0;
                checked = (check_parsed-inv m msg found).1;
              }
        ]
      ]
]

take-HeaderAt : (xs : List ℕ) (i : ℕ) → HeaderAt xs i → take 2 (drop i xs) ≡ msg_pkt_header
take-HeaderAt [] i h = absurd (cc (h.first))
take-HeaderAt (x ∷ []) zero h = absurd (cc (h.second))
take-HeaderAt (x ∷ y ∷ xs) zero h = ground (arith, h.first, h.second)
take-HeaderAt (x ∷ xs) (suc i) h =
    take-HeaderAt xs i (record { first = h.first; second = h.second })

header_bytes-header_of : (head : List ℕ) → length head ≡ 5 → header_bytes (header_of head) ≡ head
unfolding header_of
header_bytes-header_of [] h = absurd (omega arith)
header_bytes-header_of (a ∷ []) h = absurd (omega arith)
header_bytes-header_of (a ∷ b ∷ []) h = absurd (omega arith)
header_bytes-header_of (a ∷ b ∷ c ∷ []) h = absurd (omega arith)
header_bytes-header_of (a ∷ b ∷ c ∷ d ∷ []) h = absurd (omega arith)
header_bytes-header_of (a ∷ b ∷ c ∷ d ∷ e ∷ []) h = refl
header_bytes-header_of (a ∷ b ∷ c ∷ d ∷ e ∷ f ∷ xs) h = absurd (omega arith)

-- The bytes of a frame, put together from its parts.
parts :
    (buffer : List ℕ) (i p : ℕ)
    → take (p + 9) (drop i buffer)
      ≡ take 2 (drop i buffer)
        ++ (take 5 (drop (i + 2) buffer)
            ++ (take p (drop (i + 2 + 5) buffer) ++ take 2 (drop (i + 2 + 5 + p) buffer)))
parts buffer i p = rw (
  split,
  take-add 2 (5 + (p + 2)),
  take-add 5 (p + 2),
  take-add p 2,
  drop-drop i 2,
  drop-drop (i + 2) 5,
  drop-drop (i + 2 + 5) p,
)
  where
    split : p + 9 ≡ 2 + (5 + (p + 2))
    split = omega arith

-- What the parser's copies are copies of.
abbrev Stands : List ℕ → ℕ → ℕ → Msg → Type 0
Stands buffer n i msg =
    (i + (msg.pld_length + 9) ≤ n)
    × (take (msg.pld_length + 9) (drop i buffer) ≡ msg_serialize msg)
    × (msg_chk msg ≡ ok)

Copies-Stands :
    (buffer : List ℕ) (n i : ℕ) (msg : Msg)
    → HeaderAt buffer i
    → Copies buffer n i msg
    → Stands buffer n i msg
Copies-Stands buffer n i msg here c = subst (Stands buffer n i) c.message (room, frame, c.checked)
  where
    open c use {head, payload, chk_sum}

    m : Msg
    m = record (header_of head) { payload = payload; chk_sum = chk_sum }

    room : i + (m.pld_length + 9) ≤ n
    room = omega (arith, c.fits)

    head_lem : length head ≡ 5
    head_lem = (slice?-eq-some buffer (i + 2) 5 c.head_copy).2

    serialized : msg_serialize m ≡ msg_pkt_header ++ (head ++ (payload ++ chk_sum))
    serialized =
        msg_serialize_lem m (slice?-eq-some buffer _ _ c.payload_copy).2
          (slice?-eq-some buffer _ _ c.chk_copy).2
        ∙ ap (λ t. msg_pkt_header ++ (t ++ (payload ++ chk_sum)))
            (header_bytes-header_of head head_lem)

    frame : take (m.pld_length + 9) (drop i buffer) ≡ msg_serialize m
    frame = rw (
      serialized,
      parts buffer i m.pld_length,
      take-HeaderAt buffer i here,
      ← (slice?-eq-some buffer _ _ c.head_copy).1,
      ← (slice?-eq-some buffer _ _ c.payload_copy).1,
      ← (slice?-eq-some buffer _ _ c.chk_copy).1,
    )

-- A message that the parser returns stands in the buffer: behind the first header, within
-- `buf_length`, byte for byte what serializing the message writes; and its checksum is right.
pub msg_parse_sound :
    (buffer : List ℕ) (buf_length : ℕ) (msg : Msg)
    → msg_parse buffer buf_length ≡ parsed msg
    → (i : ℕ) × IsFirstWithin buffer buf_length i
      × (i + msg_get_serialized_length msg ≤ buf_length)
      × (take (msg_get_serialized_length msg) (drop i buffer) ≡ msg_serialize msg)
      × (msg_chk msg ≡ ok)
unfolding msg_get_serialized_length
msg_parse_sound buffer n msg h = elim (Option-cases (msg_find_header buffer (int_of_word n))) [
  | inl missed ↦ absurd (cc (msg_parse_no_header buffer n missed))
  | inr (i, found) ↦
      let first = msg_find_header-within buffer n found in
      let copies =
        parse_at-Copies buffer n i msg (omega (arith, first))
          (sym (msg_parse_at buffer n i found) ∙ h) in
      let (room, frame, checked) = Copies-Stands buffer n i msg first.1.here copies in
      (i, first, room, frame, checked)
]

-- The arrays of a parsed message hold what its length says.
pub msg_parse-lengths :
    (buffer : List ℕ) (buf_length : ℕ) (msg : Msg)
    → msg_parse buffer buf_length ≡ parsed msg
    → (length msg.payload ≡ msg.pld_length) × (length msg.chk_sum ≡ 2)
msg_parse-lengths buffer n msg h = elim (Option-cases (msg_find_header buffer (int_of_word n))) [
  | inl missed ↦ absurd (cc (msg_parse_no_header buffer n missed))
  | inr (i, found) ↦
      let first = msg_find_header-within buffer n found in
      let c =
        parse_at-Copies buffer n i msg (omega (arith, first))
          (sym (msg_parse_at buffer n i found) ∙ h) in
      subst (λ m. (length m.payload ≡ m.pld_length) × (length m.chk_sum ≡ 2)) c.message
        (
          (slice?-eq-some buffer (i + 2 + 5) (header_of c.head).pld_length c.payload_copy).2,
          (slice?-eq-some buffer (i + 2 + 5 + (header_of c.head).pld_length) 2 c.chk_copy).2,
        )
]
