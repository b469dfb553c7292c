-- ===== src/Ps2/Isr.antt =====
-- lib/ps2/esk8_ps2_init.c `esk8_ps2_isr`, with the bit helpers of esk8_ps2_utils.c.
pub mod Words
pub mod Receive
pub mod Send
pub mod Errors
pub mod Invariant
use esk.Common.{
  ℕ, zero, suc, ◌+◌, ◌-◌, ◌*◌, ◌/◌, ◌^◌, Bool, true, false, not, ◌&&◌, List, [], ◌∷◌, ◌++◌, ltb,
  ◌==◌, if◌then◌else◌, bit_and, bit_or, bit_xor, u8,
}
use esk.Err.{
  Err, ok, failed, ps2_err_bad_pck_strt, ps2_err_bad_pck_prty, ps2_err_bad_pck_stop,
  ps2_err_bad_pck_ackn,
}
use esk.Ps2.Types.{
  State, state_none, state_send, state_recv, state_mvmt, Frame, Hndl, Call, gpio_set_direction,
  gpio_set_level, queue_send, mode_input, reset_frame,
}

-- `esk8_ps2_set_bit`. `~(1 << idx)` keeps the seven other bits of the byte.
unfoldable pub set_bit : ℕ → ℕ → ℕ → ℕ
set_bit byte idx val =
    if ltb 7 idx
    then byte
    else (if val == 0 then bit_and byte (255 - 2 ^ idx) else bit_or byte (2 ^ idx))

-- `esk8_ps2_get_parity`
unfoldable pub get_parity : ℕ → ℕ
get_parity x =
    let a = bit_xor (bit_and x 0x0F) (x / 2 ^ 4) in
    let b = bit_xor (bit_and a 0x03) (a / 2 ^ 2) in
    let c = bit_xor (bit_and b 0x01) (b / 2 ^ 1) in if bit_and c 1 == 0 then 1 else 0

-- The `switch (*idx)` of a bit that is read. The shift is made at 1 ≤ idx only.
unfoldable pub read_bit : Frame → ℕ → Frame
read_bit frame bit =
    if frame.idx == 0
    then (if bit == 0 then frame else record frame { err = ps2_err_bad_pck_strt })
    else (if frame.idx == 9
        then (if bit == get_parity frame.byte
            then frame
            else record frame { err = ps2_err_bad_pck_prty })
        else (if frame.idx == 10
            then (if bit == 0 then record frame { err = ps2_err_bad_pck_stop } else frame)
            else (if frame.idx == 11
                then (if bit == 0 then frame else record frame { err = ps2_err_bad_pck_ackn })
                else record frame { byte = u8 (bit_or frame.byte (bit * 2 ^ (frame.idx - 1))) })))

-- The `switch (*idx)` of a bit that is written.
unfoldable pub written_bit : Frame → ℕ
written_bit frame =
    if frame.idx == 0
    then 0
    else (if frame.idx == 9
        then get_parity frame.byte
        else (if frame.idx == 10 then 1 else bit_and frame.byte (2 ^ (frame.idx - 1))))

-- The first `switch (ps2_hndl->ps2_state)`; `level` is what `gpio_get_level` returns.
unfoldable pub transfer : State → Hndl → ℕ → Hndl × List Call
transfer state_recv h level = (record h { inflight = read_bit h.inflight level }, [])
transfer state_mvmt h level = (record h { inflight = read_bit h.inflight level }, [])
transfer state_send h level = (h, gpio_set_level h.ps2_cnfg.data_pin (written_bit h.inflight) ∷ [])
transfer state_none h level = (h, [])

-- The second, with the reset of the frame after it.
unfoldable pub deliver : State → Hndl → Hndl × List Call
deliver state_recv h = (
  record h { inflight = reset_frame; ps2_state = state_mvmt },
  queue_send h.rx_queue h.inflight ∷ [],
)
deliver state_mvmt h = (record h { inflight = reset_frame }, queue_send h.mv_queue h.inflight ∷ [])
deliver state_send h =
    let released = gpio_set_direction h.ps2_cnfg.data_pin mode_input ∷ [] in
    if h.inflight.idx == 12
    then (record h { inflight = reset_frame; ps2_state = state_recv }, released)
    else (h, released)
deliver state_none h = (record h { inflight = reset_frame }, [])

-- `(*idx)++`
abbrev pub count_bit : Hndl → Hndl
count_bit h = record h { inflight = record h.inflight { idx = suc h.inflight.idx } }

unfoldable pub finish : Hndl → List Call → Hndl × List Call
unfolding deliver
finish h calls =
    if not (failed h.inflight.err) && ltb h.inflight.idx 11
    then (h, calls)
    else (let (h', more) = deliver h.ps2_state h in (h', calls ++ more))

-- One clock edge.
unfoldable pub isr : Hndl → ℕ → Hndl × List Call
unfolding transfer finish
isr h level = let (h', calls) = transfer h.ps2_state h level in finish (count_bit h') calls

-- The edges at which the data line has the given levels.
unfoldable pub edges : Hndl → List ℕ → Hndl × List Call
edges h [] = (h, [])
edges h (level ∷ levels) =
    let (h', calls) = isr h level in let (h'', more) = edges h' levels in (h'', calls ++ more)
