-- ===== src/Common/Words.antt =====
-- Fixed-width unsigned words, and their bytes in memory (the ESP32 is little-endian).
use Prim.Native.Nat.{ℕ, ◌/◌, ◌%◌, ◌^◌, ◌<◌}
use mathlib.Core.List.{List, [], ◌∷◌}

abbrev pub u8 : ℕ → ℕ
u8 n = n % 2 ^ 8

abbrev pub u16 : ℕ → ℕ
u16 n = n % 2 ^ 16

abbrev pub u32 : ℕ → ℕ
u32 n = n % 2 ^ 32

abbrev pub bytes16 : ℕ → List ℕ
bytes16 n = n % 256 ∷ n / 256 % 256 ∷ []

abbrev pub bytes32 : ℕ → List ℕ
bytes32 n = n % 256 ∷ n / 256 % 256 ∷ n / 65536 % 256 ∷ n / 16777216 % 256 ∷ []

abbrev pub AllBytes : List ℕ → Type 0
AllBytes [] = Unit
AllBytes (x ∷ xs) = (x < 256) × AllBytes xs
