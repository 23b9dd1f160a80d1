-- ===== src/Net/Receive/Frames.antt =====
-- One round of the receive loop, in terms of the bytes that the ring holds.
use chat_server_mt.Base.{ℕ, suc, ◌+◌, ◌≤◌, ◌<◌, ◌≡◌, ◌⊎◌, [], ◌∷◌, arith, length, take, drop}
use chat_server_mt.Fifo
use chat_server_mt.Packet.{Packet, net_header_size}
use chat_server_mt.Ring
use chat_server_mt.Ring.{Ring}
use chat_server_mt.Ring.Inv.{IsValid, dequeue-IsValid}
use chat_server_mt.Ring.Contents.{contents, length-contents}
use chat_server_mt.Ring.Refine.{peek_refines, dequeue_refines}
use chat_server_mt.Net.Receive.{disconnects, header_len, load_frame, handle_frame, recv_loop}

-- The length in the header at the front of the ring.
abbrev pub first_len : Ring → ℕ
first_len r = header_len (take net_header_size (contents r))

-- The ring without that frame.
pub after_frame : Ring → Ring
after_frame r = (Ring.dequeue r (first_len r + net_header_size)).2

module _ (fuel key : ℕ) (pooled : Packet) {r : Ring} (v : IsValid r) where
  -- Fewer bytes than a header: wait for more.
  pub recv_short :
      length (contents r) < net_header_size → recv_loop (suc fuel) key pooled r ≡ ([], r)
  unfolding recv_loop Fifo.peek
  recv_short few = ground (arith, peek_refines net_header_size v)

  -- A header whose frame is not complete: wait for more.
  pub recv_incomplete :
      net_header_size ≤ length (contents r)
      → 0 < (first_len r)
      → (first_len r) ≤ Ring.get_buffer_size r
      → length (contents r) < (first_len r) + net_header_size
      → recv_loop (suc fuel) key pooled r ≡ ([], r)
  unfolding recv_loop Fifo.peek Ring.get_fill_size
  recv_incomplete enough pos fits few =
      ground (arith, peek_refines net_header_size v, length-contents r)

  -- When a valid ring starts with a header of length 0, or of more than the capacity of the ring,
  -- the loop disconnects, takes nothing out of the ring, and ends.
  pub recv_bad :
      net_header_size ≤ length (contents r)
      → ((first_len r) ≡ 0) ⊎ (Ring.get_buffer_size r < (first_len r))
      → recv_loop (suc fuel) key pooled r ≡ (disconnects ∷ [], r)
  unfolding recv_loop Fifo.peek
  recv_bad enough bad = ground (arith, peek_refines net_header_size v)

  -- A complete frame: it is taken out of the ring and handled, and the loop goes on.
  pub recv_complete :
      0 < (first_len r)
      → (first_len r) ≤ Ring.get_buffer_size r
      → (first_len r) + net_header_size ≤ length (contents r)
      → recv_loop (suc fuel) key pooled r ≡ (
        handle_frame key (
              load_frame pooled (take ((first_len r) + net_header_size) (contents r)) (first_len r))
            ∷ (recv_loop fuel key pooled (after_frame r)).0,
        (recv_loop fuel key pooled (after_frame r)).1,
      )
  unfolding recv_loop Fifo.peek Fifo.dequeue Ring.get_fill_size after_frame
  recv_complete pos fits enough = ground (
    arith,
    peek_refines net_header_size v,
    dequeue_refines ((first_len r) + net_header_size) v,
    length-contents r,
  )

module _ {r : Ring} (v : IsValid r) where
  pub after_frame-IsValid : (first_len r) ≤ Ring.get_buffer_size r → IsValid (after_frame r)
  unfolding after_frame Ring.get_buffer_size
  after_frame-IsValid fits =
      dequeue-IsValid ((first_len r) + net_header_size) (omega (arith, v.small)) v

  pub contents-after_frame :
      (first_len r) + net_header_size ≤ length (contents r)
      → contents (after_frame r) ≡ drop ((first_len r) + net_header_size) (contents r)
  unfolding after_frame Fifo.dequeue
  contents-after_frame enough =
      ground (arith, dequeue_refines ((first_len r) + net_header_size) v, length-contents r)

  pub get_buffer_size-after_frame : Ring.get_buffer_size (after_frame r) ≡ Ring.get_buffer_size r
  unfolding after_frame Ring.dequeue Ring.get_buffer_size
  get_buffer_size-after_frame = ground arith
