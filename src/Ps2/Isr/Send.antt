-- ===== src/Ps2/Isr/Send.antt =====
-- A byte that the driver sends, bit by bit.
use esk.Common.{
  ℕ, zero, suc, ◌+◌, ◌*◌, ◌/◌, ◌%◌, ◌^◌, ◌<◌, ◌≡◌, ◌≢◌, refl, ◌∙◌, ap, List, [], ◌∷◌, ◌++◌, map,
  arith, length, Bool-cases, inl, inr, ◌==◌, true, if◌then◌else◌, take, get_or,
}
use Prim.Native.Nat.mul
use native.Mathlib.Nat.{one-le-pow}
use esk.Err.{ok}
use esk.Ps2.Types.{
  state_send, state_recv, Frame, Hndl, Call, gpio_set_level, gpio_set_direction, mode_input,
  queue_send, reset_frame,
}
use esk.Ps2.Isr.{isr, edges, written_bit, get_parity}
use esk.Ps2.Isr.Words.{and_bit, and_high, ones, get_parity-odd}
use esk.Ps2.Isr.Errors.{get_parity-lt}
use esk.Ps2.Isr.Receive.{
  Reading, at_frame, state_of, queue_of, ready, bits_from, packet, edges-packet,
}

-- The frame with `k` bits of `b` written.
abbrev sending : ℕ → ℕ → Frame
sending b k = record { err = ok; byte = b; idx = k }

-- Writing bit `k`, as the driver hands it to `gpio_set_level`.
abbrev pub raw_bits : ℕ → ℕ → ℕ → List ℕ
raw_bits b k zero = []
raw_bits b k (suc n) = b / 2 ^ k % 2 * 2 ^ k ∷ raw_bits b (k + 1) n

abbrev pub set_levels : ℕ → List ℕ → List Call
set_levels pin [] = []
set_levels pin (l ∷ ls) = gpio_set_level pin l ∷ set_levels pin ls

isr-write :
    (h : Hndl) (b k level : ℕ)
    → k < 8
    → b < 256
    → isr (at_frame h state_send (sending b (suc k))) level ≡ (
      at_frame h state_send (sending b (suc (k + 1))),
      gpio_set_level h.ps2_cnfg.data_pin (b / 2 ^ k % 2 * 2 ^ k) ∷ [],
    )
unfolding isr written_bit
isr-write h b k level hk hb = ground (arith, and_bit k b hk hb)

edges-cons :
    (h h' : Hndl) (level : ℕ) (levels : List ℕ) (calls : List Call)
    → isr h level ≡ (h', calls)
    → edges h (level ∷ levels) ≡ ((edges h' levels).0, calls ++ (edges h' levels).1)
unfolding edges
edges-cons h h' level levels calls e = rw e

abbrev after : List Call → Hndl × List Call → Hndl × List Call
after calls r = (r.0, calls ++ r.1)

edges-write :
    (n k : ℕ) (h : Hndl) (b : ℕ) (ls rest : List ℕ)
    → length ls ≡ n
    → k + n ≡ 8
    → b < 256
    → edges (at_frame h state_send (sending b (suc k))) (ls ++ rest)
      ≡ after
          (set_levels h.ps2_cnfg.data_pin (raw_bits b k n))
          (edges (at_frame h state_send (sending b 9)) rest)
edges-write zero k h b [] rest len e hb = let k8 : k ≡ 8 = omega arith in rw k8
edges-write zero k h b (l ∷ ls) rest len e hb = absurd (omega arith)
edges-write (suc n) k h b [] rest len e hb = absurd (omega arith)
edges-write (suc n) k h b (l ∷ ls) rest len e hb =
    edges-cons _ _ l (ls ++ rest) _ (isr-write h b k l (omega arith) hb)
    ∙ ap (after (gpio_set_level h.ps2_cnfg.data_pin (b / 2 ^ k % 2 * 2 ^ k) ∷ []))
        (edges-write n (k + 1) h b ls rest (omega arith) (omega arith) hb)

-- The levels that the driver writes for `b`: start bit, data bits as masks, parity, stop bit.
abbrev pub raw_packet : ℕ → List ℕ
raw_packet b = 0 ∷ (raw_bits b 0 8 ++ (get_parity b ∷ 1 ∷ []))

-- The calls of the twelve edges of a byte that is sent: a level on each of the first eleven, the data
-- line released at the stop bit, and once more at the device's acknowledgement.
abbrev pub send_calls : ℕ → ℕ → List Call
send_calls pin b =
    set_levels pin (raw_packet b)
    ++ (gpio_set_direction pin mode_input
        ∷ gpio_set_level pin 0
        ∷ gpio_set_direction pin mode_input
        ∷ [])

-- Over twelve edges after `esk8_ps2_send_byte`, whatever the line reads, the driver writes the packet of
-- the byte, releases the data line, and then waits for the response with a reset frame.
pub edges-send :
    (h : Hndl) (b l0 l9 l10 l11 : ℕ) (ls : List ℕ)
    → b < 256
    → length ls ≡ 8
    → edges
        (at_frame h state_send (record { err = ok; byte = b; idx = 0 }))
        (l0 ∷ (ls ++ (l9 ∷ l10 ∷ l11 ∷ [])))
      ≡ (at_frame h state_recv reset_frame, send_calls h.ps2_cnfg.data_pin b)
edges-send h b l0 l9 l10 l11 ls hb len =
    edges-cons _ (at_frame h state_send (sending b 1)) l0 _ (gpio_set_level pin 0 ∷ []) first
    ∙ ap (after (gpio_set_level pin 0 ∷ [])) (
        edges-write 8 0 h b ls (l9 ∷ l10 ∷ l11 ∷ []) len refl hb
        ∙ ap (after (set_levels pin (raw_bits b 0 8))) last)
  where
    pin : ℕ
    pin = h.ps2_cnfg.data_pin

    first :
        isr (at_frame h state_send (sending b 0)) l0
        ≡ (at_frame h state_send (sending b 1), gpio_set_level pin 0 ∷ [])
    first = unfold isr written_bit in refl

    last : edges (at_frame h state_send (sending b 9)) (l9 ∷ l10 ∷ l11 ∷ []) ≡ (
      at_frame h state_recv reset_frame,
      gpio_set_level pin (get_parity b)
          ∷ gpio_set_level pin 1
          ∷ gpio_set_direction pin mode_input
          ∷ gpio_set_level pin 0
          ∷ gpio_set_direction pin mode_input
          ∷ [],
    )
    last = unfold edges isr written_bit in rw (and_high b hb)

-- `gpio_set_level` as the SDK documents it: 0 drives the line low, anything else high.
module _ (drive : ℕ → ℕ) (low : drive 0 ≡ 0) (high : (n : ℕ) → n ≢ 0 → drive n ≡ 1) where
  drive-bit : (x k : ℕ) → x < 2 → drive (x * 2 ^ k) ≡ x
  drive-bit zero k h = rw mul.zero low
  drive-bit (suc zero) k h = high (1 * 2 ^ k) (λ e. omega (arith, one-le-pow k 2 (omega arith)))
  drive-bit (suc (suc x)) k h = absurd (omega arith)

  drive-parity : (b : ℕ) → drive (get_parity b) ≡ get_parity b
  drive-parity b = elim (Bool-cases (get_parity b == 0)) [
    | inl e ↦ let z : get_parity b ≡ 0 = ground arith in rw z low
    | inr e ↦
        let z : get_parity b ≡ 1 = ground (arith, get_parity-lt b) in
        rw z (high 1 (λ e. omega arith))
  ]

  drive-raw_bits : (b k n : ℕ) → map drive (raw_bits b k n) ≡ bits_from b k n
  drive-raw_bits b k zero = refl
  drive-raw_bits b k (suc n) =
      rw (drive-bit (b / 2 ^ k % 2) k (omega arith))
        (ap (λ t. b / 2 ^ k % 2 ∷ t) (drive-raw_bits b (k + 1) n))

  -- The levels that the driver puts on the line for a byte are the packet that a reading driver takes
  -- for that byte.
  pub edges-drive-raw_packet :
      (r : Reading) (h : Hndl) (b : ℕ)
      → b < 256
      → edges (at_frame h (state_of r) reset_frame) (map drive (raw_packet b))
        ≡ (ready h, queue_send (queue_of r h) (record { err = ok; byte = b; idx = 11 }) ∷ [])
  edges-drive-raw_packet r h b hb =
      ap (edges (at_frame h (state_of r) reset_frame)) driven ∙ edges-packet r h b hb
    where
      driven : map drive (raw_packet b) ≡ packet 0 b (get_parity b) 1
      driven =
          rw (low, drive-parity b, high 1 (λ e. omega arith))
            (ap (λ t. 0 ∷ (t ++ (get_parity b ∷ 1 ∷ []))) (drive-raw_bits b 0 8))

-- The levels that calls put on a pin, in order.
abbrev pub driven : ℕ → List Call → List ℕ
driven pin [] = []
driven pin (gpio_set_level p level ∷ calls) =
    if p == pin then level ∷ driven pin calls else driven pin calls
driven pin (_ ∷ calls) = driven pin calls

driven-set_levels :
    (pin : ℕ) (levels : List ℕ) (calls : List Call)
    → driven pin (set_levels pin levels ++ calls) ≡ levels ++ driven pin calls
driven-set_levels pin [] calls = refl
driven-set_levels pin (l ∷ ls) calls =
    let same : (pin == pin) ≡ true = ground arith in
    rw same (ap (λ t. l ∷ t) (driven-set_levels pin ls calls))

take-raw_packet : (pin b : ℕ) → take 11 (driven pin (send_calls pin b)) ≡ raw_packet b
take-raw_packet pin b =
    ap (take 11) (
      driven-set_levels pin (raw_packet b) (
        gpio_set_direction pin mode_input
        ∷ gpio_set_level pin 0
        ∷ gpio_set_direction pin mode_input
        ∷ []))
    ∙ refl

module _ (drive : ℕ → ℕ) (low : drive 0 ≡ 0) (high : (n : ℕ) → n ≢ 0 → drive n ≡ 1) where
  -- Of a byte that a driver sends, over twelve edges behind `esk8_ps2_send_byte` whatever its line reads, the first
  -- eleven levels that it puts on its data pin (low for 0, high for any other level) are a packet with an odd number
  -- of ones in data and parity, from which a reading driver, at a reset frame, hands over exactly that byte
  -- without error.
  pub edges-send-edges :
      (r : Reading) (sender h : Hndl) (b l0 l9 l10 l11 : ℕ) (ls : List ℕ)
      → b < 256
      → length ls ≡ 8
      → let sent =
          edges
            (at_frame sender state_send (record { err = ok; byte = b; idx = 0 }))
            (l0 ∷ (ls ++ (l9 ∷ l10 ∷ l11 ∷ []))) in
        let levels = map drive (take 11 (driven sender.ps2_cnfg.data_pin sent.1)) in
        ((ones b + get_or levels 9 0) % 2 ≡ 1)
        × (edges (at_frame h (state_of r) reset_frame) levels
            ≡ (ready h, queue_send (queue_of r h) (record { err = ok; byte = b; idx = 11 }) ∷ []))
  edges-send-edges r sender h b l0 l9 l10 l11 ls hb len =
      rw (edges-send sender b l0 l9 l10 l11 ls hb len, take-raw_packet sender.ps2_cnfg.data_pin b)
        (
          rw (drive-parity drive low high b) (get_parity-odd b hb),
          edges-drive-raw_packet drive low high r h b hb,
        )
