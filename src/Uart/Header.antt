-- ===== src/Uart/Header.antt =====
-- `esk8_uart_msg_find_header` finds the first header.
use esk.Common.{
  ℕ, zero, suc, ◌+◌, ◌≤◌, ◌<◌, ◌^◌, ◌≡◌, refl, ◌∙◌, ap, sym, none, some, List, [], ◌∷◌, ◌⊎◌, inl,
  inr, Bool-cases, true, false, ltb, ◌==◌, ◌&&◌, arith, take, get_elem?,
}
use mathlib.Core.Path.{subst}
use esk.Common.Int.{pos, int_of_word, int_of_word_of_lt}
use esk.Common.Slices.{get_elem?-take_lt, get_elem?-take_ge}
use native.Mathlib.Decide.{dec_lt}
use esk.Err.{uart_msg_err_no_header}
use esk.Uart.{find_loop, msg_find_header, msg_parse, parse_at, failed}

-- The two bytes of `ESK8_MSG_PKT_HEADER` stand at index `i`.
pub record HeaderAt (buffer : List ℕ) (i : ℕ) : Type 0 where
  pub first : get_elem? buffer i ≡ some 0x5A
  pub second : get_elem? buffer (suc i) ≡ some 0xA5

-- `i` is the index of the first header.
pub record IsFirst (buffer : List ℕ) (i : ℕ) : Type 0 where
  pub here : HeaderAt buffer i
  pub none_before : (k : ℕ) → k < i → ¬ HeaderAt buffer k

HeaderAt-of_tests :
    (a b : ℕ) (rest : List ℕ) → ((a == 0x5A) && (b == 0xA5)) ≡ true → HeaderAt (a ∷ b ∷ rest) 0
HeaderAt-of_tests a b rest h = ground arith

not-HeaderAt-of_tests :
    (a b : ℕ) (rest : List ℕ) → ((a == 0x5A) && (b == 0xA5)) ≡ false → ¬ HeaderAt (a ∷ b ∷ rest) 0
not-HeaderAt-of_tests a b rest h q = ground arith

IsFirst-suc :
    (a : ℕ) (rest : List ℕ) (d : ℕ)
    → ¬ HeaderAt (a ∷ rest) 0
    → IsFirst rest d
    → IsFirst (a ∷ rest) (suc d)
IsFirst-suc a rest d no_zero f = record {
  here = record { first = f.here.first; second = f.here.second };
  none_before = before;
}
  where
    before : (k : ℕ) → k < suc d → ¬ HeaderAt (a ∷ rest) k
    before zero lt q = no_zero q
    before (suc k) lt q =
        f.none_before k (omega arith) (record { first = q.first; second = q.second })

-- What the loop comes to at index `i`.
find_loop_lem :
    (i : ℕ) (xs : List ℕ)
    → ((d : ℕ) × (find_loop i xs ≡ some (i + d)) × IsFirst xs d)
      ⊎ ((find_loop i xs ≡ none) × ((d : ℕ) → ¬ HeaderAt xs d))
unfolding find_loop
find_loop_lem i [] = inr (refl, λ d q. cc (q.first))
find_loop_lem i (a ∷ []) = inr (refl, short)
  where
    short : (d : ℕ) → ¬ HeaderAt (a ∷ []) d
    short zero q = cc (q.second)
    short (suc d) q = cc (q.first)
find_loop_lem i (a ∷ b ∷ rest) = elim (Bool-cases ((a == 0x5A) && (b == 0xA5))) [
  | inl e ↦ inl (
    0,
    rw e (ap some (omega arith)),
    record { here = HeaderAt-of_tests a b rest e; none_before = λ k lt. absurd (omega arith) },
  )
  | inr e ↦ elim (find_loop_lem (suc i) (b ∷ rest)) [
    | inl (d, found, f) ↦ inl (
      suc d,
      rw e (found ∙ ap some (omega arith)),
      IsFirst-suc a (b ∷ rest) d (not-HeaderAt-of_tests a b rest e) f,
    )
    | inr (missed, absent) ↦ inr (rw e missed, none_at e absent)
  ]
]
  where
    none_at :
        ((a == 0x5A) && (b == 0xA5)) ≡ false
        → ((d : ℕ) → ¬ HeaderAt (b ∷ rest) d)
        → (d : ℕ) → ¬ HeaderAt (a ∷ b ∷ rest) d
    none_at e absent zero q = not-HeaderAt-of_tests a b rest e q
    none_at e absent (suc d) q = absent d (record { first = q.first; second = q.second })

HeaderAt-take : (n : ℕ) (xs : List ℕ) (i : ℕ) → HeaderAt (take n xs) i → (i + 2 ≤ n) × HeaderAt xs i
HeaderAt-take n xs i q = elim (dec_lt (suc i) n) [
  | yes lt ↦ (
    omega arith,
    record {
      first = sym (get_elem?-take_lt n xs i (omega arith)) ∙ q.first;
      second = sym (get_elem?-take_lt n xs (suc i) lt) ∙ q.second;
    },
  )
  | no ge ↦ absurd (none≢some (sym (get_elem?-take_ge n xs (suc i) (omega arith)) ∙ q.second))
]
  where
    none≢some : {a : ℕ} → ¬ (none ≡ some a)
    none≢some e = cc

HeaderAt-take_of :
    (n : ℕ) (xs : List ℕ) (i : ℕ) → i + 2 ≤ n → HeaderAt xs i → HeaderAt (take n xs) i
HeaderAt-take_of n xs i h q = record {
  first = get_elem?-take_lt n xs i (omega arith) ∙ q.first;
  second = get_elem?-take_lt n xs (suc i) (omega arith) ∙ q.second;
}

-- Whether a header lies within the first `n` bytes and is the first of the buffer.
abbrev pub IsFirstWithin : List ℕ → ℕ → ℕ → Type 0
IsFirstWithin buffer n i = (i + 2 ≤ n) × IsFirst buffer i

abbrev pub NoHeaderWithin : List ℕ → ℕ → Type 0
NoHeaderWithin buffer n = (i : ℕ) → i + 2 ≤ n → ¬ HeaderAt buffer i

IsFirst-take :
    (n : ℕ) (buffer : List ℕ) (i : ℕ) → IsFirst (take n buffer) i → IsFirstWithin buffer n i
IsFirst-take n buffer i f =
    let (fits, here) = HeaderAt-take n buffer i f.here in
    (
      fits,
      record {
        here = here;
        none_before = λ k lt q. f.none_before k lt (HeaderAt-take_of n buffer k (omega arith) q);
      },
    )

-- Either the search returns the index of the first header of the first `n` bytes, or it returns
-- -1 and they hold no header.
pub msg_find_header-first :
    (buffer : List ℕ) (n : ℕ)
    → ((i : ℕ) × (msg_find_header buffer (pos n) ≡ some i) × IsFirstWithin buffer n i)
      ⊎ ((msg_find_header buffer (pos n) ≡ none) × NoHeaderWithin buffer n)
unfolding msg_find_header
msg_find_header-first buffer n = elim (Bool-cases (ltb n 2)) [
  | inl short ↦ inr (rw short refl, λ i h. absurd (ground arith))
  | inr long ↦ elim (find_loop_lem 0 (take n buffer)) [
    | inl (i, found, f) ↦
        inl (i, rw long (found ∙ ap some (omega arith)), IsFirst-take n buffer i f)
    | inr (missed, absent) ↦
        inr (rw long missed, λ i h q. absent i (HeaderAt-take_of n buffer i h q))
  ]
]

-- The length that the search is given: a `size_t` of 2 ^ 31 or more is a negative `int`.
pub msg_find_header-within :
    (buffer : List ℕ) (n : ℕ) {i : ℕ}
    → msg_find_header buffer (int_of_word n) ≡ some i
    → IsFirstWithin buffer n i
msg_find_header-within buffer n {i} h = elim (dec_lt n (2 ^ 31)) [
  | yes small ↦ elim (msg_find_header-first buffer n) [
    | inl (j, found, f) ↦
        let same : j ≡ i = cc (int_of_word_of_lt n small) in subst (IsFirstWithin buffer n) same f
    | inr (missed, _) ↦ cc (int_of_word_of_lt n small)
  ]
  | no large ↦ absurd (none≢some (sym (negative large) ∙ h))
]
  where
    none≢some : ¬ (none ≡ some i)
    none≢some e = cc

    negative : ¬ (n < 2 ^ 31) → msg_find_header buffer (int_of_word n) ≡ none
    negative large = unfold msg_find_header in ground arith

pub msg_parse_at :
    (buffer : List ℕ) (n i : ℕ)
    → msg_find_header buffer (int_of_word n) ≡ some i
    → msg_parse buffer n ≡ parse_at buffer n i
unfolding msg_parse
msg_parse_at buffer n i h = ground arith

pub msg_parse_no_header :
    (buffer : List ℕ) (n : ℕ)
    → msg_find_header buffer (int_of_word n) ≡ none
    → msg_parse buffer n ≡ failed uart_msg_err_no_header
unfolding msg_parse
msg_parse_no_header buffer n h = ground arith
