-- ===== src/Ps2/Isr/Receive.antt =====
-- A byte that the device sends, bit by bit, into the queue that waits for it.
use esk.Common.{
  ℕ, zero, suc, ◌+◌, ◌/◌, ◌%◌, ◌^◌, ◌<◌, ◌≡◌, refl, ◌∙◌, ap, List, [], ◌∷◌, ◌++◌, arith,
}
use esk.Err.{ok}
use esk.Ps2.Types.{State, state_recv, state_mvmt, Frame, Hndl, queue_send, reset_frame}
use esk.Ps2.Isr.{isr, edges, read_bit, get_parity}
use esk.Ps2.Isr.Words.{or_bit}

-- A handle in a given state with a given frame in flight.
abbrev pub at_frame : Hndl → State → Frame → Hndl
at_frame h s f = record h { inflight = f; ps2_state = s }

-- The two states in which bits are read.
pub data Reading : Type 0 where
  response movement : Reading

abbrev pub state_of : Reading → State
state_of response = state_recv
state_of movement = state_mvmt

-- The queue to which a frame goes that is read in that state.
abbrev pub queue_of : Reading → Hndl → ℕ
queue_of response h = h.rx_queue
queue_of movement h = h.mv_queue

-- `n` bits of `b` from bit `k` on, the lowest first.
abbrev pub bits_from : ℕ → ℕ → ℕ → List ℕ
bits_from b k zero = []
bits_from b k (suc n) = b / 2 ^ k % 2 ∷ bits_from b (k + 1) n

abbrev pub data_bits : ℕ → List ℕ
data_bits b = bits_from b 0 8

-- A packet: start bit, data, parity, stop bit.
abbrev pub packet : ℕ → ℕ → ℕ → ℕ → List ℕ
packet start b parity stop = start ∷ (data_bits b ++ (parity ∷ stop ∷ []))

-- The frame with the lowest `k` bits of `b` read.
abbrev partial : ℕ → ℕ → Frame
partial b k = record { err = ok; byte = b % 2 ^ k; idx = suc k }

isr-start :
    (r : Reading) (h : Hndl) (b : ℕ)
    → isr (at_frame h (state_of r) reset_frame) 0 ≡ (at_frame h (state_of r) (partial b 0), [])
unfolding isr read_bit
isr-start response h b = ground arith
isr-start movement h b = ground arith

read_bit-data :
    (b k : ℕ)
    → k < 8
    → b < 256
    → read_bit (partial b k) (b / 2 ^ k % 2)
      ≡ record { err = ok; byte = b % 2 ^ (k + 1); idx = suc k }
unfolding read_bit
read_bit-data b k hk hb = ground (arith, or_bit k b hk hb)

isr-data :
    (r : Reading) (h : Hndl) (b k : ℕ)
    → k < 8
    → b < 256
    → isr (at_frame h (state_of r) (partial b k)) (b / 2 ^ k % 2)
      ≡ (at_frame h (state_of r) (partial b (k + 1)), [])
unfolding isr
isr-data response h b k hk hb = rw (read_bit-data b k hk hb) (ground arith)
isr-data movement h b k hk hb = rw (read_bit-data b k hk hb) (ground arith)

edges-quiet :
    (h h' : Hndl) (level : ℕ) (levels : List ℕ)
    → isr h level ≡ (h', [])
    → edges h (level ∷ levels) ≡ edges h' levels
unfolding edges
edges-quiet h h' level levels e = rw e

-- The data bits from bit `k` on fill the frame.
edges-data :
    (n : ℕ) (r : Reading) (h : Hndl) (b k : ℕ) (rest : List ℕ)
    → k + n ≡ 8
    → b < 256
    → edges (at_frame h (state_of r) (partial b k)) (bits_from b k n ++ rest)
      ≡ edges (at_frame h (state_of r) (record { err = ok; byte = b; idx = 9 })) rest
edges-data zero r h b k rest e hb = ap (λ f. edges (at_frame h (state_of r) f) rest) (full e)
  where
    full : k + 0 ≡ 8 → partial b k ≡ record { err = ok; byte = b; idx = 9 }
    full e = let k8 : k ≡ 8 = omega arith in rw k8 (ground arith)
edges-data (suc n) r h b k rest e hb =
    edges-quiet _ _ _ (bits_from b (k + 1) n ++ rest) (isr-data r h b k (omega arith) hb)
    ∙ edges-data n r h b (k + 1) rest (omega arith) hb

-- Start bit and data bits.
pub edges-byte :
    (r : Reading) (h : Hndl) (b : ℕ) (rest : List ℕ)
    → b < 256
    → edges (at_frame h (state_of r) reset_frame) (0 ∷ (data_bits b ++ rest))
      ≡ edges (at_frame h (state_of r) (record { err = ok; byte = b; idx = 9 })) rest
edges-byte r h b rest hb =
    edges-quiet _ _ 0 (data_bits b ++ rest) (isr-start r h b) ∙ edges-data 8 r h b 0 rest refl hb

-- The handle when a frame has been handed over: ready for the next, which is movement data.
abbrev pub ready : Hndl → Hndl
ready h = at_frame h state_mvmt reset_frame

-- The eleven edges of a well-formed packet of byte `b` hand exactly that byte, with no error, to the queue of
-- the state, and leave the driver ready for movement data; nothing else of the handle changes.
pub edges-packet :
    (r : Reading) (h : Hndl) (b : ℕ)
    → b < 256
    → edges (at_frame h (state_of r) reset_frame) (packet 0 b (get_parity b) 1)
      ≡ (ready h, queue_send (queue_of r h) (record { err = ok; byte = b; idx = 11 }) ∷ [])
edges-packet r h b hb = edges-byte r h b _ hb ∙ last r
  where
    last :
        (r : Reading)
        → edges
            (at_frame h (state_of r) (record { err = ok; byte = b; idx = 9 }))
            (get_parity b ∷ 1 ∷ [])
          ≡ (ready h, queue_send (queue_of r h) (record { err = ok; byte = b; idx = 11 }) ∷ [])
    last response = unfold edges isr read_bit in ground arith
    last movement = unfold edges isr read_bit in ground arith
