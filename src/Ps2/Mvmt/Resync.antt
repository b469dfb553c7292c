-- ===== src/Ps2/Mvmt/Resync.antt =====
-- What a sequence that goes wrong leaves behind.
use esk.Common.{
  bit_and, ℕ, zero, suc, ◌/◌, ◌%◌, ap, AllBytes, Bool, ◌≤◌, ◌<◌, ◌≡◌, refl, ◌∙◌, List, [], ◌∷◌,
  Option, none, some, arith, length, set, length-set, ltb, Bool-cases, inl, inr, true, false,
  get_or,
}
use mathlib.Core.Path.{subst}
use esk.Common.Int.{◌+ℤ◌}
use esk.Err.{failed, ps2_err_bad_mvmt}
use esk.Ps2.Types.{Frame, SqncFrame, Mvmt}
use esk.Ps2.Mvmt.{await_mvmt, decode, store, extended, test_bit}
use esk.Ps2.Mvmt.Packet.{await_mvmt-full, await_mvmt-three, good, NineBits, IsMove}
use esk.Ps2.Isr.Words.{and_bit}

-- The sequence counts at most the three bytes that its array has room for.
pub record IsValid (sqnc : SqncFrame) : Type 0 where
  pub counted : sqnc.idx ≤ 3
  pub room : length sqnc.mvmt ≡ 3

decode-IsValid : (sqnc : SqncFrame) → IsValid sqnc → IsValid (decode sqnc).0
unfolding decode
decode-IsValid sqnc v = ground arith

store-IsValid : (sqnc : SqncFrame) (b : ℕ) → IsValid sqnc → sqnc.idx < 3 → IsValid (store sqnc b)
store-IsValid sqnc b v h = omega (arith, length-set sqnc.mvmt sqnc.idx b)

-- Waiting for a packet keeps the sequence within its array, whatever is received.
pub await_mvmt-IsValid :
    (sqnc : SqncFrame) (receives : List (Option Frame))
    → IsValid sqnc
    → IsValid (await_mvmt sqnc receives).0
unfolding await_mvmt
await_mvmt-IsValid sqnc [] v = ground (arith, decode-IsValid sqnc v)
await_mvmt-IsValid sqnc (none ∷ rest) v = ground (arith, decode-IsValid sqnc v)
await_mvmt-IsValid sqnc (some f ∷ rest) v = elim (Bool-cases (ltb sqnc.idx 3)) [
  | inl more ↦ elim (Bool-cases (failed f.err)) [
    | inl bad ↦ rw (more, bad) v
    | inr fine ↦
        rw (more, fine)
          (await_mvmt-IsValid (store sqnc f.byte) rest (store-IsValid sqnc f.byte v (ground arith)))
  ]
  | inr full ↦ rw full (decode-IsValid sqnc v)
]

decode-bad :
    (sqnc : SqncFrame)
    → test_bit (get_or sqnc.mvmt 0 0) 8 ≡ false
    → decode sqnc ≡ (sqnc, ps2_err_bad_mvmt, none)
unfolding decode
decode-bad sqnc h = rw h

-- After three bytes of which the first has its bit 3 clear, that is out of step with the packets, the wait
-- fails with `BAD_MVMT` and keeps the full sequence: from then on every further wait fails the
-- same way and receives nothing, until the sequence is restarted.
pub await_mvmt_sticks :
    (sqnc : SqncFrame) (a b c : ℕ) (rest : List (Option Frame))
    → sqnc.idx ≡ 0
    → length sqnc.mvmt ≡ 3
    → a < 256
    → a / 8 % 2 ≡ 0
    → let stuck = record sqnc { idx = 3; mvmt = a ∷ b ∷ c ∷ [] } in
      (await_mvmt sqnc (good a ∷ good b ∷ good c ∷ rest) ≡ (stuck, ps2_err_bad_mvmt, none))
      × ((later : List (Option Frame)) → await_mvmt stuck later ≡ (stuck, ps2_err_bad_mvmt, none))
await_mvmt_sticks sqnc a b c rest start three fits clear = (
  ap (λ k. await_mvmt (record sqnc { idx = k }) (good a ∷ good b ∷ good c ∷ rest)) start
      ∙ await_mvmt-three sqnc.err sqnc.mvmt a b c rest three
      ∙ decode-bad stuck out_of_step,
  λ later. await_mvmt-full stuck later refl ∙ decode-bad stuck out_of_step,
)
  where
    stuck : SqncFrame
    stuck = record sqnc { idx = 3; mvmt = a ∷ b ∷ c ∷ [] }

    out_of_step : test_bit a 8 ≡ false
    out_of_step = unfold test_bit in ground (arith, and_bit 3 a)

extended-NineBits : (s : Bool) (b : ℕ) → b < 256 → NineBits (extended s b)
unfolding extended ◌+ℤ◌
extended-NineBits true b h = ground arith
extended-NineBits false b h = ground arith

pub get_or-fits : (xs : List ℕ) (i : ℕ) → AllBytes xs → get_or xs i 0 < 256
get_or-fits [] i h = omega arith
get_or-fits (x ∷ xs) zero h = h.0
get_or-fits (x ∷ xs) (suc i) h = get_or-fits xs i h.1

-- A packet of any three bytes that is accepted gives moves from -256 to 255 and a button of 0 or 1.
pub decode-IsMove :
    (sqnc : SqncFrame) (m : Mvmt) → AllBytes sqnc.mvmt → (decode sqnc).2 ≡ some m → IsMove m
decode-IsMove sqnc m bytes h = elim (Bool-cases (test_bit first 8)) [
  | inl set ↦ subst IsMove (accepted set) (record {
    x_fits = extended-NineBits _ _ (get_or-fits sqnc.mvmt 1 bytes);
    y_fits = extended-NineBits _ _ (get_or-fits sqnc.mvmt 2 bytes);
    btn_fits = omega (arith, and_bit 0 first (omega arith) (get_or-fits sqnc.mvmt 0 bytes));
  })
  | inr clear ↦ absurd (cc (decode-bad sqnc clear))
]
  where
    first : ℕ
    first = get_or sqnc.mvmt 0 0

    accepted :
        test_bit first 8 ≡ true
        → record {
          x = extended (test_bit first 16) (get_or sqnc.mvmt 1 0);
          y = extended (test_bit first 32) (get_or sqnc.mvmt 2 0);
          lft_btn = bit_and first 1;
        }
          ≡ m
    accepted set = unfold decode in ground arith
