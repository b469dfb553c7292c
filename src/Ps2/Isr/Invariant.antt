-- ===== src/Ps2/Isr/Invariant.antt =====
-- What holds of the driver's handle between two clock edges.
use esk.Common.{ℕ, ◌≤◌, ◌<◌, ◌≡◌, ◌≢◌, List, [], ◌∷◌, arith}
use esk.Err.{ok}
use esk.Ps2.Types.{state_send, Hndl}
use esk.Ps2.Isr.{isr, edges, read_bit}

-- No error waits in the frame, the byte is a byte, and the bit counter stays within a packet: at
-- most 10, and 11 only in the acknowledgement slot of a byte that is sent.
pub record IsValid (h : Hndl) : Type 0 where
  pub no_error : h.inflight.err ≡ ok
  pub byte_fits : h.inflight.byte < 256
  pub counted : h.inflight.idx ≤ 11
  pub reading : h.ps2_state ≢ state_send → h.inflight.idx ≤ 10

-- Every edge keeps the invariant, in every state and whatever the line's level.
pub isr-IsValid : (h : Hndl) (level : ℕ) → IsValid h → IsValid (isr h level).0
unfolding isr read_bit
isr-IsValid h level v = ground arith

-- So does every sequence of edges: an error never outlives the edge that found it, and the counter
-- never leaves the packet.
pub edges-IsValid : (h : Hndl) (levels : List ℕ) → IsValid h → IsValid (edges h levels).0
unfolding edges
edges-IsValid h [] v = v
edges-IsValid h (l ∷ ls) v = edges-IsValid (isr h l).0 ls (isr-IsValid h l v)
