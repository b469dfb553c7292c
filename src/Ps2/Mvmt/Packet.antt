-- ===== src/Ps2/Mvmt/Packet.antt =====
-- A movement packet carries two 9-bit signed moves and the button.
use esk.Common.{
  ℕ, ◌+◌, ◌-◌, ◌*◌, ◌/◌, ◌%◌, ◌<◌, ◌≡◌, refl, ◌∙◌, ap, List, [], ◌∷◌, true, false, Option, none,
  some, map, ◌++◌, arith, length, ◌==◌, if◌then◌else◌, bit_and,
}
use esk.Common.Int.{ℤ, pos, negsuc, ◌≤ℤ◌}
use esk.Err.{Err, ok}
use esk.Ps2.Types.{Mvmt, Frame, SqncFrame}
use esk.Ps2.Isr.Words.{and_bit}
use esk.Ps2.Mvmt.{extended, test_bit, decode, await_mvmt, store}

-- The values of a 9-bit two's complement number.
abbrev pub NineBits : ℤ → Type 0
NineBits v = (negsuc 255 ≤ℤ v) × (v ≤ℤ pos 255)

-- Its 9 bits, as a number below 512.
abbrev pub word9 : ℤ → ℕ
word9 (pos n) = n
word9 (negsuc n) = 511 - n

-- The three bytes that a device sends for a move: flags (bit 3 is always set), x, y.
abbrev pub packet_bytes : Mvmt → List ℕ
packet_bytes m =
    (m.lft_btn + 8 + 16 * (word9 m.x / 256) + 32 * (word9 m.y / 256))
    ∷ word9 m.x % 256
    ∷ word9 m.y % 256
    ∷ []

pub record IsMove (m : Mvmt) : Type 0 where
  pub x_fits : NineBits m.x
  pub y_fits : NineBits m.y
  pub btn_fits : m.lft_btn < 2

extended-word9 :
    (v : ℤ) → NineBits v → extended (if word9 v / 256 == 0 then false else true) (word9 v % 256) ≡ v
unfolding extended
extended-word9 (pos n) h = ground arith
extended-word9 (negsuc n) h = ground arith

word9-lt : (v : ℤ) → NineBits v → word9 v < 512
word9-lt (pos n) h = omega arith
word9-lt (negsuc n) h = omega arith

-- The flags byte of a move, from its parts: button, and the two sign bits.
module _ (btn s t : ℕ) (hb : btn < 2) (hs : s < 2) (ht : t < 2) where
  abbrev flags : ℕ
  flags = btn + 8 + 16 * s + 32 * t

  flags-always : test_bit flags 8 ≡ true
  flags-always = unfold test_bit in ground (arith, and_bit 3 flags)

  flags-x : test_bit flags 16 ≡ (if s == 0 then false else true)
  flags-x = unfold test_bit in ground (arith, and_bit 4 flags)

  flags-y : test_bit flags 32 ≡ (if t == 0 then false else true)
  flags-y = unfold test_bit in ground (arith, and_bit 5 flags)

  flags-button : bit_and flags 1 ≡ btn
  flags-button = omega (arith, and_bit 0 flags (omega arith) (omega arith))

decode-packet :
    (m : Mvmt) (sqnc : SqncFrame)
    → IsMove m
    → sqnc.mvmt ≡ packet_bytes m
    → decode sqnc ≡ (record sqnc { idx = 0 }, ok, some m)
unfolding decode
decode-packet m sqnc v e = rw (
  e,
  flags-always btn s t hb hs ht,
  flags-x btn s t hb hs ht,
  flags-y btn s t hb hs ht,
  flags-button btn s t hb hs ht,
  extended-word9 m.x v.x_fits,
  extended-word9 m.y v.y_fits,
)
  where
    btn : ℕ
    btn = m.lft_btn

    s : ℕ
    s = word9 m.x / 256

    t : ℕ
    t = word9 m.y / 256

    hb : btn < 2
    hb = v.btn_fits

    hs : s < 2
    hs = omega (arith, word9-lt m.x v.x_fits)

    ht : t < 2
    ht = omega (arith, word9-lt m.y v.y_fits)

abbrev pub good : ℕ → Option Frame
good b = some (record { err = ok; byte = b; idx = 11 })

pub await_mvmt-step :
    (sqnc : SqncFrame) (b : ℕ) (rest : List (Option Frame))
    → sqnc.idx < 3
    → await_mvmt sqnc (good b ∷ rest) ≡ await_mvmt (store sqnc b) rest
unfolding await_mvmt
await_mvmt-step sqnc b rest h = ground arith

-- A full sequence is decoded, and nothing is received.
pub await_mvmt-full :
    (sqnc : SqncFrame) (receives : List (Option Frame))
    → sqnc.idx ≡ 3
    → await_mvmt sqnc receives ≡ decode sqnc
unfolding await_mvmt
await_mvmt-full sqnc [] e = rw e
await_mvmt-full sqnc (none ∷ rest) e = rw e
await_mvmt-full sqnc (some f ∷ rest) e = rw e

pub await_mvmt-three :
    (err : Err) (old : List ℕ) (a b c : ℕ) (rest : List (Option Frame))
    → length old ≡ 3
    → await_mvmt (record { err = err; idx = 0; mvmt = old }) (good a ∷ good b ∷ good c ∷ rest)
      ≡ decode (record { err = err; idx = 3; mvmt = a ∷ b ∷ c ∷ [] })
await_mvmt-three err [] a b c rest h = absurd (omega arith)
await_mvmt-three err (x ∷ []) a b c rest h = absurd (omega arith)
await_mvmt-three err (x ∷ y ∷ []) a b c rest h = absurd (omega arith)
await_mvmt-three err (x ∷ y ∷ z ∷ []) a b c rest h =
    await_mvmt-step _ a (good b ∷ good c ∷ rest) (omega arith)
    ∙ await_mvmt-step _ b (good c ∷ rest) (omega arith)
    ∙ await_mvmt-step _ c rest (omega arith)
    ∙ await_mvmt-full _ rest refl
await_mvmt-three err (x ∷ y ∷ z ∷ w ∷ old) a b c rest h = absurd (omega arith)

-- A move that the device sends as its three-byte packet, received without error at the start of a
-- sequence, comes out as that move, with the sequence at its start again; what follows is not read.
pub await_mvmt-packet :
    (m : Mvmt) (sqnc : SqncFrame) (rest : List (Option Frame))
    → IsMove m
    → sqnc.idx ≡ 0
    → length sqnc.mvmt ≡ 3
    → await_mvmt sqnc (map good (packet_bytes m) ++ rest)
      ≡ (record sqnc { idx = 0; mvmt = packet_bytes m }, ok, some m)
await_mvmt-packet m sqnc rest v start three =
    ap (λ k. await_mvmt (record sqnc { idx = k }) (map good (packet_bytes m) ++ rest)) start
    ∙ await_mvmt-three sqnc.err sqnc.mvmt _ _ _ rest three
    ∙ decode-packet m (record sqnc { idx = 3; mvmt = packet_bytes m }) v refl
