-- ===== src/Common/Bits.antt =====
-- `^` with a mask of all ones, as arithmetic: the complement within the width.
use Prim.Native.Nat.{
  ℕ, zero, suc, ◌-◌, ◌*◌, ◌/◌, ◌%◌, ◌^◌, ◌≤◌, ◌<◌, digits, bit_xor, bit_xor-bitwise, differ,
}
use mathlib.Core.Path.{◌≡◌, refl}
use native.Mathlib.Nat.{le_refl, pow-suc, one-le-pow}
use native.Mathlib.Omega.{arith}

differ_one : (x : ℕ) → x < 2 → differ x 1 ≡ 1 - x
differ_one zero h = refl
differ_one (suc zero) h = refl
differ_one (suc (suc x)) h = absurd (omega arith)

-- On fuel `n` that covers `a`, the recursion on binary digits complements every digit.
digits_complement :
    (n k a : ℕ) → a ≤ n → a < 2 ^ k → digits (λ b. b) differ n a (2 ^ k - 1) ≡ 2 ^ k - 1 - a
digits_complement zero k zero h lt = omega arith
digits_complement zero k (suc a) h lt = absurd (omega arith)
digits_complement (suc n) k zero h lt = omega arith
digits_complement (suc n) zero (suc a) h lt = absurd (omega arith)
digits_complement (suc n) (suc k) (suc a) h lt =
    let dbl : 2 ^ suc k ≡ 2 * 2 ^ k = omega (arith, pow-suc 2 k) in
    let pos : 1 ≤ 2 ^ k = one-le-pow k 2 (omega arith) in
    let half : (2 ^ suc k - 1) / 2 ≡ 2 ^ k - 1 = omega arith in
    let odd : (2 ^ suc k - 1) % 2 ≡ 1 = omega arith in
    rw (half, odd)
      (omega (
        arith,
        digits_complement n k (suc a / 2) (omega arith) (omega arith),
        differ_one (suc a % 2) (omega arith),
      ))

pub bit_xor_ones : (k a : ℕ) → a < 2 ^ k → bit_xor a (2 ^ k - 1) ≡ 2 ^ k - 1 - a
bit_xor_ones k a h = simp bit_xor-bitwise (digits_complement a k a (le_refl a) h)
