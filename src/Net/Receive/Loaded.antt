-- ===== src/Net/Receive/Loaded.antt =====
-- What one frame in the ring becomes: a packet with the sender's payload.
use chat_server_mt.Base.{
  ℕ, ◌+◌, ◌^◌, ◌≤◌, ◌<◌, ◌≡◌, ◌∙◌, ap, List, ◌++◌, arith, length, take, drop, blit, blit-zero,
  length-blit, if◌then◌else◌, length-append, length-drop,
}
use chat_server_mt.Packet
use chat_server_mt.Packet.{Packet, net_header_size, encode_loop}
use chat_server_mt.Packet.Inv.{payload}
use chat_server_mt.Packet.Inv
use chat_server_mt.Packet.Codec.{IsBytes, frame, length-frame}
use chat_server_mt.Packet.Wire.{decode-frame}
use chat_server_mt.Net.Receive.{on_recv, disconnects, header_len, load_frame, handle_frame}

-- A packet as its sender encoded it: the code, the random key, and the payload.
pub record Sent : Type 0 where
  pub code : ℕ
  pub r_key : ℕ
  pub bytes : List ℕ

abbrev pub frame_of : ℕ → Sent → List ℕ
frame_of key m = frame key m.code m.r_key m.bytes

-- A payload of bytes, not empty, whose frame fits a ring of `cap` bytes.
pub record IsSendable (cap : ℕ) (m : Sent) : Type 0 where
  pub is_bytes : IsBytes m.bytes
  pub not_empty : 0 < length m.bytes
  pub fits : length m.bytes + net_header_size ≤ cap

-- The length field of a frame is the length of its payload.
pub header_len-frame :
    (key : ℕ) (m : Sent) (rest : List ℕ)
    → length m.bytes < 2 ^ 16
    → header_len (take net_header_size (frame_of key m ++ rest)) ≡ length m.bytes
unfolding header_len frame encode_loop
header_len-frame key m rest small = omega arith

module _ (key : ℕ) {pooled : Packet} (v : Inv.IsValid pooled) (m : Sent)
    (sendable : IsSendable pooled.buffer_size m) where
  abbrev loaded : Packet
  loaded = load_frame pooled (frame_of key m) (length m.bytes)

  loaded_fields :
      (loaded.data_size ≡ length m.bytes)
      × (loaded.read_pos ≡ 0)
      × (loaded.write_pos ≡ length m.bytes)
      × (loaded.buffer_size ≡ pooled.buffer_size)
  unfolding load_frame Packet.clear Packet.set_len_net Packet.move_write_pos
  loaded_fields = ground (arith, sendable.fits, sendable.not_empty)

  abbrev tail_memory : List ℕ
  tail_memory = drop (length (frame_of key m)) (Packet.set_len_net (Packet.clear pooled)).hidden_buf

  loaded_room :
      length (Packet.set_len_net (Packet.clear pooled)).hidden_buf ≡ length pooled.hidden_buf
  unfolding Packet.clear Packet.set_len_net
  loaded_room = length-blit pooled.hidden_buf 1 _

  loaded_hidden : loaded.hidden_buf ≡ frame_of key m ++ tail_memory
  loaded_hidden = same ∙ blit-zero _ (frame_of key m) room
    where
      room : length (frame_of key m) ≤ length (Packet.set_len_net (Packet.clear pooled)).hidden_buf
      room =
          omega
            (arith, loaded_room, v.storage, length-frame key m.code m.r_key m.bytes, sendable.fits)

      same :
          loaded.hidden_buf
          ≡ blit (Packet.set_len_net (Packet.clear pooled)).hidden_buf 0 (frame_of key m)
      same = unfold load_frame Packet.move_write_pos in ground arith

  loaded-IsValid : Inv.IsValid loaded
  loaded-IsValid = record {
    storage = omega (
      arith,
      ap length loaded_hidden,
      length-append (frame_of key m) tail_memory,
      length-drop (length (frame_of key m)) (Packet.set_len_net (Packet.clear pooled)).hidden_buf,
      loaded_room,
      v.storage,
      length-frame key m.code m.r_key m.bytes,
      sendable.fits,
      loaded_fields,
    );
    write_in = omega (arith, loaded_fields, sendable.fits);
    read_in = omega (arith, loaded_fields);
    counted = omega (arith, loaded_fields);
  }

  decoded-IsValid : Inv.IsValid (Packet.decode key loaded).1
  unfolding Packet.decode
  decoded-IsValid =
      let w = loaded-IsValid in
      record {
        storage = length-blit loaded.hidden_buf 4 _ ∙ w.storage;
        write_in = w.write_in;
        read_in = w.read_in;
        counted = w.counted;
      }

  -- A frame with a payload that is not empty and fits a valid pooled packet, once loaded into it,
  -- is decoded and handed to OnRecv as a valid packet with the payload of the sender.
  pub handle_frame_lem :
      (q : Packet) × (handle_frame key (load_frame pooled (frame_of key m) (length m.bytes))
        ≡ on_recv q)
      × Inv.IsValid q
      × (payload q ≡ m.bytes)
  handle_frame_lem =
      let back =
        decode-frame key m.code m.r_key m.bytes tail_memory loaded sendable.is_bytes loaded_hidden
          loaded_fields.0 loaded_fields.1 in
      (
        (Packet.decode key loaded).1,
        unfold handle_frame in
            ap (λ t. if t then on_recv (Packet.decode key loaded).1 else disconnects) back.0,
        decoded-IsValid,
        back.1,
      )
