-- ===== src/Ps2/Isr/Words.antt =====
-- The bit operations of the driver, over every byte.
use esk.Common.{
  ℕ, ◌+◌, ◌*◌, ◌/◌, ◌%◌, ◌^◌, ◌<◌, ◌≡◌, refl, true, ◌==◌, ==_iff, bit_and, bit_or, u8, arith,
}
use esk.Common.Table.{each_below, each_below_at}
use esk.Ps2.Isr.{get_parity}

-- The number of ones of a byte.
abbrev pub ones : ℕ → ℕ
ones b =
    b % 2 + b / 2 % 2 + b / 4 % 2 + b / 8 % 2 + b / 16 % 2 + b / 32 % 2 + b / 64 % 2 + b / 128 % 2

parity_table : each_below 256 (λ b. get_parity b == (1 + ones b) % 2) ≡ true
unfolding each_below get_parity
parity_table = refl

-- The parity bit makes the number of ones of byte and parity together odd.
pub get_parity-odd : (b : ℕ) → b < 256 → (ones b + get_parity b) % 2 ≡ 1
get_parity-odd b h = omega (
  arith,
  (==_iff _ _).0 (each_below_at 256 (λ b. get_parity b == (1 + ones b) % 2) b parity_table h),
)

or_table :
    each_below 256
      (λ b. each_below 8 (λ k. u8 (bit_or (b % 2 ^ k) (b / 2 ^ k % 2 * 2 ^ k)) == b % 2 ^ (k + 1)))
    ≡ true
unfolding each_below
or_table = refl

-- Bit `k` put into a byte that holds the lower ones.
pub or_bit :
    (k b : ℕ) → k < 8 → b < 256 → u8 (bit_or (b % 2 ^ k) (b / 2 ^ k % 2 * 2 ^ k)) ≡ b % 2 ^ (k + 1)
or_bit k b hk hb = (==_iff _ _).0 (
    each_below_at 8 (λ k. u8 (bit_or (b % 2 ^ k) (b / 2 ^ k % 2 * 2 ^ k)) == b % 2 ^ (k + 1)) k
      (each_below_at 256
        (λ b.
          each_below 8 (λ k. u8 (bit_or (b % 2 ^ k) (b / 2 ^ k % 2 * 2 ^ k)) == b % 2 ^ (k + 1)))
        b or_table hb)
      hk)

and_table :
    each_below 256 (λ b. each_below 8 (λ k. bit_and b (2 ^ k) == b / 2 ^ k % 2 * 2 ^ k)) ≡ true
unfolding each_below
and_table = refl

-- `byte & (1 << k)`
pub and_bit : (k b : ℕ) → k < 8 → b < 256 → bit_and b (2 ^ k) ≡ b / 2 ^ k % 2 * 2 ^ k
and_bit k b hk hb = (==_iff _ _).0 (
    each_below_at 8 (λ k. bit_and b (2 ^ k) == b / 2 ^ k % 2 * 2 ^ k) k
      (each_below_at 256 (λ b. each_below 8 (λ k. bit_and b (2 ^ k) == b / 2 ^ k % 2 * 2 ^ k)) b
        and_table hb)
      hk)

high_table : each_below 256 (λ b. bit_and b 1024 == 0) ≡ true
unfolding each_below
high_table = refl

-- A mask above the byte.
pub and_high : (b : ℕ) → b < 256 → bit_and b 1024 ≡ 0
and_high b hb = (==_iff _ _).0 (each_below_at 256 (λ b. bit_and b 1024 == 0) b high_table hb)
