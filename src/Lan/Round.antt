-- ===== src/Lan/Round.antt =====
-- One round of the receive loop, in terms of the bytes that the ring holds.
use chat_server_mt.Base.{
  ◌-◌, ltb, if◌then◌else◌, ℕ, suc, ◌+◌, ◌/◌, ◌^◌, ◌≤◌, ◌<◌, ◌≡◌, ◌∙◌, ap, ap₂, List, [], ◌∷◌, ◌++◌,
  arith, length, take, drop, u8, blit, blit-zero, slice, length-blit, take-append,
}
use chat_server_mt.Fifo
use chat_server_mt.Packet
use chat_server_mt.Packet.{Packet, net_header_size, lan_header_size}
use chat_server_mt.Packet.Inv
use chat_server_mt.Packet.Inv.{payload}
use chat_server_mt.Ring
use chat_server_mt.Ring.{Ring}
use chat_server_mt.Ring.Inv.{IsValid, dequeue-IsValid}
use chat_server_mt.Ring.Contents.{contents, length-contents}
use chat_server_mt.Ring.Refine.{peek_refines, dequeue_refines}
use chat_server_mt.Lan.{
  disconnects, on_recv, too_long, lan_header_len, load_lan_frame, lan_recv_loop,
}

-- A payload with its short header.
abbrev pub frame : List ℕ → List ℕ
frame bytes = u8 (length bytes) ∷ u8 (length bytes / 256) ∷ bytes

pub lan_header_len-frame :
    (bytes rest : List ℕ)
    → length bytes < 2 ^ 16
    → lan_header_len (take lan_header_size (frame bytes ++ rest)) ≡ length bytes
unfolding lan_header_len
lan_header_len-frame bytes rest small = omega arith

-- A loaded frame is the packet with its payload.
module _ {pooled : Packet} (v : Inv.IsValid pooled) (bytes : List ℕ)
    (fits : length bytes < pooled.buffer_size) where
  abbrev pub loaded : Packet
  loaded = load_lan_frame pooled (frame bytes) (length bytes)

  loaded_fields :
      (loaded.data_size ≡ length bytes)
      × (loaded.read_pos ≡ 0)
      × (loaded.write_pos ≡ length bytes)
      × (loaded.buffer_size ≡ pooled.buffer_size)
  unfolding load_lan_frame Packet.clear Packet.set_len_lan Packet.move_write_pos
  loaded_fields = ground (arith, fits)

  loaded_hidden :
      loaded.hidden_buf ≡ blit (Packet.set_len_lan (Packet.clear pooled)).hidden_buf 3 (frame bytes)
  unfolding load_lan_frame Packet.move_write_pos
  loaded_hidden = ground arith

  room : length (Packet.set_len_lan (Packet.clear pooled)).hidden_buf ≡ length pooled.hidden_buf
  unfolding Packet.clear Packet.set_len_lan
  room = length-blit pooled.hidden_buf 3 _

  pub loaded-IsValid : Inv.IsValid loaded
  loaded-IsValid = record {
    storage = omega (
      arith,
      ap length loaded_hidden,
      length-blit (Packet.set_len_lan (Packet.clear pooled)).hidden_buf 3 (frame bytes),
      room,
      v.storage,
      loaded_fields,
    );
    write_in = omega (arith, loaded_fields, fits);
    read_in = omega (arith, loaded_fields);
    counted = omega (arith, loaded_fields);
  }

  behind_header :
      (mem : List ℕ)
      → net_header_size + length bytes ≤ length mem
      → slice (blit mem 3 (frame bytes)) net_header_size (length bytes) ≡ bytes
  behind_header (a ∷ b ∷ c ∷ d ∷ e ∷ rest) h =
      ap (take (length bytes)) (blit-zero rest bytes (omega arith))
      ∙ take-append bytes (drop (length bytes) rest)
  behind_header _ h = absurd (omega arith)

  pub payload-loaded : payload loaded ≡ bytes
  payload-loaded =
      ap₂ (λ n k. slice loaded.hidden_buf (net_header_size + k) n) loaded_fields.0 loaded_fields.1
      ∙ ap (λ mem. slice mem net_header_size (length bytes)) loaded_hidden
      ∙ behind_header _ (omega (arith, room, v.storage))

abbrev pub first_len : Ring → ℕ
first_len r = lan_header_len (take lan_header_size (contents r))

-- The ring without the first frame.
pub after_frame : Ring → Ring
after_frame r = (Ring.dequeue r (first_len r + lan_header_size)).2

module _ (fuel : ℕ) (pooled : Packet) {r : Ring} (v : IsValid r) where
  pub recv_short :
      length (contents r) < lan_header_size → lan_recv_loop (suc fuel) pooled r ≡ ([], r)
  unfolding lan_recv_loop Fifo.peek
  recv_short few = ground (arith, peek_refines lan_header_size v)

  pub recv_incomplete :
      lan_header_size ≤ length (contents r)
      → length (contents r) < first_len r + lan_header_size
      → lan_recv_loop (suc fuel) pooled r ≡ ([], r)
  unfolding lan_recv_loop Fifo.peek Ring.get_fill_size
  recv_incomplete enough few = ground (arith, peek_refines lan_header_size v, length-contents r)

  pub recv_complete :
      first_len r < 2 ^ 16
      → first_len r + lan_header_size ≤ length (contents r)
      → lan_recv_loop (suc fuel) pooled r ≡ (
        too_long r (first_len r)
            ++ on_recv (
                load_lan_frame pooled
                  (take (first_len r + lan_header_size) (contents r))
                  (first_len r))
              ∷ (lan_recv_loop fuel pooled (after_frame r)).0,
        (lan_recv_loop fuel pooled (after_frame r)).1,
      )
  unfolding lan_recv_loop Fifo.peek Fifo.dequeue Ring.get_fill_size after_frame
  recv_complete small enough = ground (
    arith,
    peek_refines lan_header_size v,
    dequeue_refines (first_len r + lan_header_size) v,
    length-contents r,
  )

module _ {r : Ring} (v : IsValid r) where
  pub after_frame-IsValid : first_len r < 2 ^ 16 → IsValid (after_frame r)
  unfolding after_frame
  after_frame-IsValid small =
      dequeue-IsValid (first_len r + lan_header_size) (omega (arith, small)) v

  pub contents-after_frame :
      first_len r < 2 ^ 16
      → first_len r + lan_header_size ≤ length (contents r)
      → contents (after_frame r) ≡ drop (first_len r + lan_header_size) (contents r)
  unfolding after_frame Fifo.dequeue
  contents-after_frame small enough =
      ground (arith, dequeue_refines (first_len r + lan_header_size) v, length-contents r)

  pub get_buffer_size-after_frame : Ring.get_buffer_size (after_frame r) ≡ Ring.get_buffer_size r
  unfolding after_frame Ring.dequeue Ring.get_buffer_size
  get_buffer_size-after_frame = ground arith

  -- The test of the length, by what the ring holds.
  pub too_long-holds :
      (len : ℕ)
      → too_long r len
        ≡ (if ltb (Ring.get_buffer_size r - length (contents r)) len then disconnects ∷ [] else [])
  unfolding too_long Ring.get_empty_size Ring.get_buffer_size
  too_long-holds len = ground (arith, v, length-contents r)
