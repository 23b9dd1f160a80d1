-- ===== src/Net/Receive/Stall.antt =====
-- A header whose length fits the ring alone, but not with the header itself (runIoThread).
use chat_server_mt.Base.{ℕ, suc, ◌+◌, ◌≤◌, ◌<◌, ◌≡◌, [], ◌∷◌, arith, length}
use chat_server_mt.Packet.{Packet, net_header_size}
use chat_server_mt.Ring
use chat_server_mt.Ring.{Ring}
use chat_server_mt.Ring.Inv.{IsValid}
use chat_server_mt.Ring.Contents.{contents, length-contents}
use chat_server_mt.Ring.Segments.{recv_buffers}
use chat_server_mt.Net.Receive.{recv_loop}
use chat_server_mt.Net.Receive.Frames.{first_len, recv_incomplete}

-- A full and valid ring whose first header has a length from the capacity less four to the capacity
-- stays as it is: the receive loop takes nothing and disconnects nobody, and the next receive is
-- posted with a single buffer of no bytes.
pub recv_stalls :
    (fuel key : ℕ) (pooled : Packet) {r : Ring}
    → IsValid r
    → net_header_size ≤ length (contents r)
    → Ring.get_fill_size r ≡ Ring.get_buffer_size r
    → 0 < first_len r
    → first_len r ≤ Ring.get_buffer_size r
    → Ring.get_buffer_size r < first_len r + net_header_size
    → (recv_loop (suc fuel) key pooled r ≡ ([], r)) × (recv_buffers r ≡ (r.rear, 0) ∷ [])
unfolding Ring.get_buffer_size Ring.get_fill_size recv_buffers Ring.get_empty_size
    Ring.direct_enque_size
recv_stalls fuel key pooled {r} v enough full pos fits over = (
  recv_incomplete fuel key pooled v enough pos fits
      (omega (arith, length-contents r, v.small, v.fill_in)),
  ground arith,
)
