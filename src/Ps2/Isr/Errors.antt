-- ===== src/Ps2/Isr/Errors.antt =====
-- What becomes of eleven levels that need not be a well-formed packet.
use esk.Common.{
  ℕ, zero, suc, ◌+◌, ◌%◌, ◌<◌, ◌≡◌, ◌∙◌, ap, List, [], ◌∷◌, ◌++◌, Option, none, some, arith, ◌==◌,
  if◌then◌else◌, false,
}
use esk.Err.{ok, ps2_err_bad_pck_prty, ps2_err_bad_pck_stop, ps2_err_bad_pck_strt}
use esk.Ps2.Types.{Frame, Hndl, Call, queue_send, reset_frame}
use esk.Ps2.Isr.{isr, edges, read_bit, get_parity}
use esk.Ps2.Isr.Words.{ones, get_parity-odd}
use esk.Ps2.Isr.Receive.{
  Reading, response, movement, state_of, at_frame, packet, data_bits, edges-byte,
}

-- The first frame that is handed to a queue.
abbrev pub first_frame : List Call → Option Frame
first_frame [] = none
first_frame (queue_send q f ∷ calls) = some f
first_frame (_ ∷ calls) = first_frame calls

-- What the PS/2 protocol says of a packet: a start bit 0, an odd number of ones in data and
-- parity, and a stop bit 1.
abbrev pub verdict : ℕ → ℕ → ℕ → ℕ → Frame
verdict start b parity stop =
    if start == 0
    then (if (ones b + parity) % 2 == 1
        then (if stop == 0
            then record { err = ps2_err_bad_pck_stop; byte = b; idx = 11 }
            else record { err = ok; byte = b; idx = 11 })
        else record { err = ps2_err_bad_pck_prty; byte = b; idx = 10 })
    else record { err = ps2_err_bad_pck_strt; byte = 0; idx = 1 }

pub get_parity-lt : (b : ℕ) → get_parity b < 2
unfolding get_parity
get_parity-lt b = ground arith

bad_start :
    (r : Reading) (h : Hndl) (s : ℕ) (rest : List ℕ)
    → (s == 0) ≡ false
    → first_frame (edges (at_frame h (state_of r) reset_frame) (s ∷ rest)).1
      ≡ some (record { err = ps2_err_bad_pck_strt; byte = 0; idx = 1 })
unfolding edges isr read_bit
bad_start response h s rest e = rw e
bad_start movement h s rest e = rw e

after_byte :
    (r : Reading) (h : Hndl) (b p t : ℕ)
    → b < 256
    → p < 2
    → first_frame
        (edges (at_frame h (state_of r) (record { err = ok; byte = b; idx = 9 })) (p ∷ t ∷ [])).1
      ≡ some (verdict 0 b p t)
unfolding edges isr read_bit
after_byte response h b p t hb hp = ground (arith, get_parity-odd b hb, get_parity-lt b)
after_byte movement h b p t hb hp = ground (arith, get_parity-odd b hb, get_parity-lt b)

-- Of any eleven levels that follow a reset frame in a reading state, the first frame handed over is what
-- the protocol says of them: the byte with no error for a well-formed packet, and otherwise
-- the error of the first bit that is wrong.
pub edges-verdict :
    (r : Reading) (h : Hndl) (start b parity stop : ℕ)
    → b < 256
    → parity < 2
    → first_frame (edges (at_frame h (state_of r) reset_frame) (packet start b parity stop)).1
      ≡ some (verdict start b parity stop)
edges-verdict r h zero b p t hb hp =
    ap (λ (e : Hndl × List Call). first_frame e.1) (edges-byte r h b (p ∷ t ∷ []) hb)
    ∙ after_byte r h b p t hb hp
edges-verdict r h (suc s) b p t hb hp =
    let e : (suc s == 0) ≡ false = ground arith in
    rw e (bad_start r h (suc s) (data_bits b ++ (p ∷ t ∷ [])) e)
