-- ===== src/Uart/Slices.antt =====
-- `memcpy` out of a buffer.
use esk.Common.{
  ℕ, ◌+◌, ◌≤◌, ◌≡◌, ◌∙◌, sym, append_assoc, some, List, ◌++◌, arith, length, take, drop,
  length-append, take-append, drop-append, length-take, length-drop,
}
use esk.Uart.{slice?}

-- A copy of the middle part of a buffer.
pub slice?-append :
    (a b c : List ℕ) (i n : ℕ) → length a ≡ i → length b ≡ n → slice? (a ++ (b ++ c)) i n ≡ some b
unfolding slice?
slice?-append a b c i n ha hb =
    rw (drop-append i a (b ++ c) ha, take-append n b c hb)
      (ground (arith, length-append a (b ++ c), length-append b c))

-- The same behind two parts.
pub slice?-append_two :
    (pre h b c : List ℕ) (i n : ℕ)
    → i ≡ length pre + length h
    → length b ≡ n
    → slice? (pre ++ (h ++ (b ++ c))) i n ≡ some b
slice?-append_two pre h b c i n hi hb =
    rw (← append_assoc pre h (b ++ c))
      (slice?-append (pre ++ h) b c i n (length-append pre h ∙ sym hi) hb)

-- A copy that stays inside succeeds.
pub slice?_of_le :
    (buffer : List ℕ) (i n : ℕ)
    → i + n ≤ length buffer
    → slice? buffer i n ≡ some (take n (drop i buffer))
unfolding slice?
slice?_of_le buffer i n h = ground arith

-- What a copy that succeeds gives.
pub slice?-eq-some :
    (buffer : List ℕ) (i n : ℕ) {x : List ℕ}
    → slice? buffer i n ≡ some x
    → (i + n ≤ length buffer) × (x ≡ take n (drop i buffer)) × (length x ≡ n)
unfolding slice?
slice?-eq-some buffer i n h = ground (arith, length-take n (drop i buffer), length-drop i buffer)
