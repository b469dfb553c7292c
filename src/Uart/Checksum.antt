-- ===== src/Uart/Checksum.antt =====
-- The checksum: the complement of the 16-bit sum of the bytes.
use esk.Common.{ℕ, ◌+◌, ◌-◌, ◌*◌, ◌%◌, ◌^◌, ◌<◌, ◌≡◌, ap, List, [], ◌∷◌, ◌++◌, arith, get_or, u16}
use esk.Common.Bits.{bit_xor_ones}
use esk.Uart.{chk_loop, buff_chk_calc}

unfoldable pub sum : List ℕ → ℕ
sum [] = 0
sum (byte ∷ rest) = sum rest + byte

pub sum-append : (front back : List ℕ) → sum (front ++ back) ≡ sum front + sum back
unfolding sum
sum-append [] back = omega arith
sum-append (byte ∷ front) back = omega (arith, sum-append front back)

pub sum-cons : (x : ℕ) (xs : List ℕ) → sum (x ∷ xs) ≡ x + sum xs
unfolding sum
sum-cons x xs = omega arith

chk_loop-sum : (acc : ℕ) (xs : List ℕ) → acc < 2 ^ 16 → chk_loop acc xs ≡ (acc + sum xs) % 2 ^ 16
unfolding chk_loop sum
chk_loop-sum acc [] h = omega arith
chk_loop-sum acc (x ∷ xs) h = omega (arith, chk_loop-sum (u16 (acc + x)) xs (omega arith))

-- The `uint16_t` that the two bytes hold.
abbrev pub word_of : List ℕ → ℕ
word_of chk = get_or chk 0 0 + 256 * get_or chk 1 0

pub word_of-buff_chk_calc :
    (buffer : List ℕ) → word_of (buff_chk_calc buffer) ≡ 2 ^ 16 - 1 - sum buffer % 2 ^ 16
unfolding buff_chk_calc
word_of-buff_chk_calc buffer =
    omega (arith, bit_xor_ones 16 (chk_loop 0 buffer), chk_loop-sum 0 buffer (omega arith))

-- The checksum of a buffer, read as a 16-bit word, makes up 0xFFFF with the sum of its bytes
-- modulo 2 ^ 16; so equal checksums are equal sums.
pub buff_chk_calc-complement :
    (buffer : List ℕ) → word_of (buff_chk_calc buffer) + sum buffer % 2 ^ 16 ≡ 0xFFFF
buff_chk_calc-complement buffer = omega (arith, word_of-buff_chk_calc buffer)

pub buff_chk_calc-injective :
    (xs ys : List ℕ) → buff_chk_calc xs ≡ buff_chk_calc ys → sum xs % 2 ^ 16 ≡ sum ys % 2 ^ 16
buff_chk_calc-injective xs ys e =
    omega (arith, ap word_of e, buff_chk_calc-complement xs, buff_chk_calc-complement ys)
