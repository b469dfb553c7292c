-- ===== src/Ps2/Mvmt.antt =====
-- lib/ps2/esk8_ps2_utils.c `esk8_ps2_await_mvmt`: movement packets of three bytes.
-- `receives` are the results of the calls of `xQueueReceive` in order, `none` for a timeout; once they
-- are used up every further call times out.
pub mod Packet
pub mod Resync
use esk.Common.{
  ℕ, zero, suc, ◌+◌, Bool, true, false, List, [], ◌∷◌, Option, none, some, ltb, ◌==◌, if◌then◌else◌,
  bit_and, get_or, set, u8,
}
use esk.Common.Int.{ℤ, pos, negsuc, ◌+ℤ◌}
use esk.Err.{Err, ok, failed, ps2_err_timeout, ps2_err_bad_mvmt}
use esk.Ps2.Types.{Mvmt, Frame, SqncFrame}

-- `sX * -256 + byte`
unfoldable pub extended : Bool → ℕ → ℤ
unfolding ◌+ℤ◌
extended true byte = negsuc 255 +ℤ pos byte
extended false byte = pos 0 +ℤ pos byte

-- `bool b = byte & (1 << k)`
unfoldable pub test_bit : ℕ → ℕ → Bool
test_bit byte mask = if bit_and byte mask == 0 then false else true

-- The code after the loop.
unfoldable pub decode : SqncFrame → SqncFrame × Err × Option Mvmt
decode sqnc =
    let first = get_or sqnc.mvmt 0 0 in
    if test_bit first 8
    then (
      record sqnc { idx = 0 },
      ok,
      some (record {
        x = extended (test_bit first 16) (get_or sqnc.mvmt 1 0);
        y = extended (test_bit first 32) (get_or sqnc.mvmt 2 0);
        lft_btn = bit_and first 1;
      }),
    )
    else (sqnc, ps2_err_bad_mvmt, none)

-- `sqnc->mvmt[sqnc->idx] = frame.byte; sqnc->idx++;`
abbrev pub store : SqncFrame → ℕ → SqncFrame
store sqnc byte = record sqnc { mvmt = set sqnc.mvmt sqnc.idx byte; idx = u8 (sqnc.idx + 1) }

-- The loop and what follows it. The third component is what it stores through `out_mvmt`.
unfoldable pub await_mvmt : SqncFrame → List (Option Frame) → SqncFrame × Err × Option Mvmt
unfolding decode
await_mvmt sqnc [] = if ltb sqnc.idx 3 then (sqnc, ps2_err_timeout, none) else decode sqnc
await_mvmt sqnc (none ∷ receives) =
    if ltb sqnc.idx 3 then (sqnc, ps2_err_timeout, none) else decode sqnc
await_mvmt sqnc (some frame ∷ receives) =
    let rest = await_mvmt (store sqnc frame.byte) receives in
    if ltb sqnc.idx 3
    then (if failed frame.err then (sqnc, frame.err, none) else rest)
    else decode sqnc
