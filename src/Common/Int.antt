-- ===== src/Common/Int.antt =====
-- The values of C's `int`, over the native numbers.
use Prim.Native.Nat.{ℕ, suc, ◌+◌, ◌-◌, ◌^◌, ◌≤◌, ◌<◌, ◌%◌}
use mathlib.Core.Path.{◌≡◌}
use mathlib.Core.Bool.{Bool}
use native.Mathlib.Omega.{arith}
use esk.Common.Tests.{ltb, leb, if◌then◌else◌}

-- `negsuc n` is -(n + 1).
pub data ℤ : Type 0 where
  pos : ℕ → ℤ
  negsuc : ℕ → ℤ

abbrev pub pos_part : ℤ → ℕ
pos_part (pos n) = n
pos_part (negsuc n) = 0

abbrev pub neg_part : ℤ → ℕ
neg_part (pos n) = 0
neg_part (negsuc n) = suc n

abbrev pub sub_ℕ : ℕ → ℕ → ℤ
sub_ℕ a b = if leb b a then pos (a - b) else negsuc (b - a - 1)

infixl 65 ◌+ℤ◌
infix 50 ◌≤ℤ◌
unfoldable pub ◌+ℤ◌ : ℤ → ℤ → ℤ
a +ℤ b = sub_ℕ (pos_part a + pos_part b) (neg_part a + neg_part b)

abbrev pub ◌≤ℤ◌ : ℤ → ℤ → Type 0
a ≤ℤ b = pos_part a + neg_part b ≤ pos_part b + neg_part a

abbrev pub ltb_ℤ : ℤ → ℤ → Bool
ltb_ℤ a b = ltb (pos_part a + neg_part b) (pos_part b + neg_part a)

-- What the conversion of a 32-bit word to `int` gives on this compiler.
abbrev pub int_of_word : ℕ → ℤ
int_of_word w = if ltb w (2 ^ 31) then pos w else negsuc (2 ^ 32 - w - 1)

-- The 32-bit word of an integer, and the `int` that has the same word.
abbrev pub word_of_int : ℤ → ℕ
word_of_int (pos n) = n % 2 ^ 32
word_of_int (negsuc n) = 2 ^ 32 - 1 - n % 2 ^ 32

unfoldable pub wrap_int : ℤ → ℤ
wrap_int z = int_of_word (word_of_int z)

pub wrap_int-in_range : (z : ℤ) → pos_part z < 2 ^ 31 → neg_part z ≤ 2 ^ 31 → wrap_int z ≡ z
unfolding wrap_int
wrap_int-in_range (pos n) below above = ground arith
wrap_int-in_range (negsuc n) below above = ground arith

pub +ℤ_parts :
    (a b : ℤ)
    → pos_part (a +ℤ b) + neg_part a + neg_part b ≡ neg_part (a +ℤ b) + pos_part a + pos_part b
unfolding ◌+ℤ◌
+ℤ_parts a b = ground arith

pub int_of_word_of_lt : (w : ℕ) → w < 2 ^ 31 → int_of_word w ≡ pos w
int_of_word_of_lt w h = ground arith
